-- ===== src/Sequencer/Run/Genuine/Whole.antt =====
-- `Run` returns genuine results.
use Prim.Native.String.{String}
use soc_validation_framework.Prelude.{
  ℕ, ◌≡◌, ◌≢◌, sym, ap, subst, List, [], ◌∷◌, true, none, some, Option-cases, inl, inr, get_elem?,
  arith,
}
use text.Mathlib.TextEquality.{eq_iff}
use soc_validation_framework.Bus.{ok}
use soc_validation_framework.Sequencer.{TestCase, levels, has_name}
use soc_validation_framework.Sequencer.Schedule.{IsLayered-of}
use soc_validation_framework.Sequencer.Suite.{IsSuite}
use soc_validation_framework.Sequencer.RunOne.{Callbacks, TestResult}
use soc_validation_framework.Sequencer.Thread.{Environment, Shared}
use soc_validation_framework.Sequencer.Run.{ByName, Progress, ordered, run_suite}
use soc_validation_framework.Sequencer.Run.Results.{
  unstarted, ordered-cons, run_suite_returns, begin-IsKept, all_done,
}
use soc_validation_framework.Sequencer.Run.Whole.{run_levels-IsKept}
use soc_validation_framework.Sequencer.Run.Genuine.{Way, stays}
use soc_validation_framework.Sequencer.Run.Genuine.Pool.{AllGenuine}
use soc_validation_framework.Sequencer.Run.Genuine.Filed.{IsGenuineMap, IsGenuineRun}
use soc_validation_framework.Sequencer.Run.Genuine.Levels.{FilesGenuine, run_levels-FilesGenuine}

module _ {W Time : Type 0} (env : Environment W Time) (no_time : Time)
    (tests : List (TestCase (Callbacks W))) (first : W) where
  ordered-AllGenuine :
      (ts : List (TestCase (Callbacks W))) (now : W) (by_name : ByName Time)
      → IsGenuineMap env tests first now by_name
      → ((n : String) → has_name n ts ≡ true → by_name n ≢ none)
      → AllGenuine env tests first now (ordered no_time ts by_name)
  unfolding has_name AllGenuine IsGenuineMap
  ordered-AllGenuine [] now by_name genuine all = unfold ordered in tt
  ordered-AllGenuine (t ∷ ts) now by_name genuine all = elim (Option-cases (by_name t.name)) [
    | inl e ↦ absurd (all t.name (ground (arith, eq_iff t.name t.name)) e)
    | inr (r, e) ↦
        subst (AllGenuine env tests first now) (sym (ordered-cons no_time [] t ts r by_name e)) (
          genuine t.name r e,
          ordered-AllGenuine ts now by_name genuine (λ n h. all n (ground arith)),
        )
  ]

module _ {W Time : Type 0} (env : Environment W Time) (no_time : Time) (orders : ℕ → ℕ → List ℕ)
    (threads : ℕ) (tests : List (TestCase (Callbacks W))) (suite : IsSuite tests)
    (ls : List (List String)) (found_levels : levels tests ≡ some (ok ls)) (w : W) where
  -- On a suite whose tests have names of their own and for which `Levels` returns levels, `Run`
  -- returns, however its threads interleave. The world that it leaves is one that callbacks of the
  -- suite's tests lead to from the first. Every result is of the test of its name and has the time
  -- that test took. On that way, one after the other and with callbacks of the suite's tests at most
  -- in between, the counter was read, the test's setup was called and, if that returned, its body and
  -- then its teardown, and the counter was read again; the accesses are the difference of the two
  -- readings, modulo 2^64. When the deadline has passed the result is TIMEOUT with its message.
  -- Otherwise it is PASS when all three returned, and when one threw FAIL with what a
  -- `std::exception` says, or ERROR for anything else; an exception of the teardown takes the place
  -- of the body's.
  pub run_suite-AllGenuine :
      (rs : List (TestResult Time)) × (s : Shared W) × (run_suite env no_time orders threads tests
          (unstarted w)
        ≡ some (ok rs, s))
      × Way tests w s.world
      × AllGenuine env tests w s.world rs
  unfolding FilesGenuine IsGenuineRun IsGenuineMap
  run_suite-AllGenuine =
      let start_state : Progress W Time = record { shared = unstarted w; by_name = λ n. none } in
      let (p, all, e, k, complete) =
        run_levels-IsKept env tests ls orders threads 0 ls [] (λ x. 0) start_state suite
          (λ i. ap (get_elem? ls) (omega arith)) (IsLayered-of tests ls found_levels)
          (begin-IsKept tests ls threads w) in
      let genuine = subst (FilesGenuine env tests w) e (
        run_levels-FilesGenuine env tests w orders threads 0 ls start_state
          (stays, λ n r found. absurd (ground arith))) in
      (
        ordered no_time tests p.by_name,
        p.shared,
        run_suite_returns env no_time orders threads tests suite ls found_levels w p e,
        genuine.0,
        ordered-AllGenuine env no_time tests w tests p.shared.world p.by_name genuine.1
            (λ n h. k.filed n (all_done tests all complete n h)),
      )
