-- ===== src/Sequencer/Run/Tests.antt =====
-- A suite of four tests on two threads, the two tests of the middle level interleaved.
use Prim.Native.String.{String}
use text.Mathlib.TextEquality.{eq_iff}
use soc_validation_framework.Prelude.{
  ℕ, ◌⊎◌, ◌≡◌, refl, List, [], ◌∷◌, map, Option, none, some, false, arith,
}
use soc_validation_framework.Bus.{Exception, Result, ok, err}
use soc_validation_framework.Sequencer.{TestCase, levels, lookup, rounds, has_name}
use soc_validation_framework.Sequencer.Counts.{bit}
use soc_validation_framework.Sequencer.Declared.{declared}
use soc_validation_framework.Sequencer.Order.{is_declared}
use soc_validation_framework.Sequencer.Suite.{IsSuite}
use soc_validation_framework.Sequencer.RunOne.{
  Ended, returned, threw, Action, Callbacks, TestResult, if_set,
}
use soc_validation_framework.Sequencer.Thread.{
  Environment, Event, begins, ends, Shared, noted, advance, step, steps, complete,
}
use soc_validation_framework.Sequencer.Run.{run_suite, find_test}
use soc_validation_framework.Sequencer.Run.Trace.{running, IsOrdered, IsBounded}
use soc_validation_framework.Sequencer.Run.Once.{begun}
use soc_validation_framework.Sequencer.Run.Needs.{needs}
use soc_validation_framework.Sequencer.Run.Chain.{run_suite-chain}
use soc_validation_framework.Sequencer.Run.InOrder.{singles, AllFound, in_order, run_suite-in_order}
use soc_validation_framework.Sequencer.Run.Answers.{run_suite_answers}
use soc_validation_framework.Sequencer.Run.Genuine.{Way}
use soc_validation_framework.Sequencer.Run.Genuine.Pool.{AllGenuine}
use soc_validation_framework.Sequencer.Run.Genuine.Whole.{run_suite-AllGenuine}
use soc_validation_framework.Sequencer.Run.Results.{
  AllReported, unstarted, run_suite-AllReported, run_suite-IsOrdered, run_suite-IsBounded,
}

-- A body that notes in the world that it ran.
abbrev mark : String → Ended → Action (List String)
mark what e w = (e, what ∷ w)

abbrev bench_test : String → List String → Ended → TestCase (Callbacks (List String))
bench_test name depends_on e = record {
  name = name;
  depends_on = depends_on;
  body = record { setup = none; run = mark name e; teardown = none; timeout = 30000 };
}

abbrev bench : List (TestCase (Callbacks (List String)))
bench =
    bench_test "dma" ("reset" ∷ "clock" ∷ []) returned
    ∷ bench_test "clock" ("id" ∷ []) returned
    ∷ bench_test "reset" ("id" ∷ []) (threw "stuck")
    ∷ bench_test "id" [] returned
    ∷ []

abbrev bench_levels : List (List String)
bench_levels = ("id" ∷ []) ∷ ("clock" ∷ "reset" ∷ []) ∷ ("dma" ∷ []) ∷ []

bench-levels : levels bench ≡ some (ok bench_levels)
unfolding levels lookup rounds
bench-levels = refl

bench-IsSuite : IsSuite bench
unfolding IsSuite has_name
bench-IsSuite = (
  (λ e. ground (arith, eq_iff "dma" "")),
  refl,
  (
    (λ e. ground (arith, eq_iff "clock" "")),
    refl,
    (
      (λ e. ground (arith, eq_iff "reset" "")),
      refl,
      ((λ e. ground (arith, eq_iff "id" "")), refl, tt),
    ),
  ),
)

abbrev bench_env : Environment (List String) ℕ
bench_env = record {
  late = λ n. false;
  duration = λ n. 12;
  to_decimal = λ n. "30000";
  counter = λ w. 0;
}

-- Every chunk's threads take turns.
abbrev turns : ℕ → ℕ → List ℕ
turns level start = 0 ∷ 1 ∷ 1 ∷ 0 ∷ 1 ∷ 0 ∷ []

-- The trace of a run, the newest event first.
events : Option (Result (List (TestResult ℕ)) × Shared (List String)) → List Event
events none = []
events (some (r, s)) = s.trace

bench_trace :
    events (run_suite bench_env 0 turns 2 bench (unstarted []))
    ≡ ends "dma"
      ∷ begins "dma"
      ∷ ends "reset"
      ∷ ends "clock"
      ∷ begins "reset"
      ∷ begins "clock"
      ∷ ends "id"
      ∷ begins "id"
      ∷ []
unfolding events run_suite levels lookup rounds complete steps step noted advance if_set
bench_trace = refl

run_suite-AllReported_example :
    (rs : List (TestResult ℕ)) × (s : Shared (List String)) × (run_suite bench_env 0 turns 2 bench
        (unstarted [])
      ≡ some (ok rs, s))
    × AllReported bench_levels bench rs
    × ((n : String) → begun n s.trace ≡ bit (is_declared (declared bench n)))
run_suite-AllReported_example =
    run_suite-AllReported bench_env 0 turns 2 bench bench-IsSuite bench_levels bench-levels []

run_suite-IsOrdered_example :
    (rs : List (TestResult ℕ)) × (s : Shared (List String)) × (run_suite bench_env 0 turns 2 bench
        (unstarted [])
      ≡ some (ok rs, s))
    × IsOrdered (needs bench) s.trace
run_suite-IsOrdered_example =
    run_suite-IsOrdered bench_env 0 turns 2 bench bench-IsSuite bench_levels bench-levels []

run_suite-IsBounded_example :
    (rs : List (TestResult ℕ)) × (s : Shared (List String)) × (run_suite bench_env 0 turns 2 bench
        (unstarted [])
      ≡ some (ok rs, s))
    × IsBounded 2 s.trace
    × (running s.trace ≡ 0)
run_suite-IsBounded_example =
    run_suite-IsBounded bench_env 0 turns 2 bench bench-IsSuite bench_levels bench-levels []

run_suite-AllGenuine_example :
    (rs : List (TestResult ℕ)) × (s : Shared (List String)) × (run_suite bench_env 0 turns 2 bench
        (unstarted [])
      ≡ some (ok rs, s))
    × Way bench [] s.world
    × AllGenuine bench_env bench [] s.world rs
run_suite-AllGenuine_example =
    run_suite-AllGenuine bench_env 0 turns 2 bench bench-IsSuite bench_levels bench-levels []

-- A chain, registered the wrong way round.
abbrev chained : List (TestCase (Callbacks (List String)))
chained =
    bench_test "dma" ("clock" ∷ []) returned
    ∷ bench_test "clock" ("id" ∷ []) (threw "unstable")
    ∷ bench_test "id" [] returned
    ∷ []

chained-levels : levels chained ≡ some (ok (map (λ n. n ∷ []) ("id" ∷ "clock" ∷ "dma" ∷ [])))
unfolding levels lookup rounds
chained-levels = refl

run_suite-chain_example :
    run_suite bench_env 0 turns 4 chained (unstarted [])
    ≡ run_suite bench_env 0 (λ level start. []) 1 chained (unstarted [])
run_suite-chain_example =
    run_suite-chain bench_env 0 turns (λ level start. []) 4 chained ("id" ∷ "clock" ∷ "dma" ∷ [])
      (unstarted []) chained-levels

-- Two tests that wait for each other.
abbrev looped : List (TestCase (Callbacks (List String)))
looped = bench_test "b" ("a" ∷ []) returned ∷ bench_test "a" ("b" ∷ []) returned ∷ []

looped-IsSuite : IsSuite looped
unfolding IsSuite has_name
looped-IsSuite =
    ((λ e. ground (arith, eq_iff "b" "")), refl, ((λ e. ground (arith, eq_iff "a" "")), refl, tt))

run_suite_answers_example :
    ((x : Exception) × (levels looped ≡ some (err x))
      × (run_suite bench_env 0 turns 2 looped (unstarted []) ≡ some (err x, unstarted [])))
    ⊎ ((rs : List (TestResult ℕ)) × (s : Shared (List String)) × (run_suite bench_env 0 turns 2
            looped
            (unstarted [])
          ≡ some (ok rs, s)))
run_suite_answers_example = run_suite_answers bench_env 0 turns 2 looped [] looped-IsSuite

-- Two tests, of which the second waits for the first, which fails.
abbrev paired : List (TestCase (Callbacks (List String)))
paired = bench_test "id" [] (threw "no device") ∷ bench_test "clock" ("id" ∷ []) returned ∷ []

paired-IsSuite : IsSuite paired
unfolding IsSuite has_name
paired-IsSuite = (
  (λ e. ground (arith, eq_iff "id" "")),
  refl,
  ((λ e. ground (arith, eq_iff "clock" "")), refl, tt),
)

paired-AllFound : AllFound paired paired
unfolding AllFound find_test
paired-AllFound = (refl, (refl, tt))

paired-levels : levels paired ≡ some (ok (map (λ n. n ∷ []) (singles paired)))
unfolding levels lookup rounds singles
paired-levels = refl

run_suite-in_order_example :
    (s' : Shared (List String)) × (run_suite bench_env 0 turns 3 paired (unstarted [])
      ≡ some (ok (in_order bench_env 0 paired []).0, s'))
    × (s'.world ≡ (in_order bench_env 0 paired []).1)
run_suite-in_order_example =
    run_suite-in_order bench_env 0 turns 3 paired (unstarted []) paired-AllFound paired-IsSuite
      paired-levels
