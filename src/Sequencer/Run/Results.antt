-- ===== src/Sequencer/Run/Results.antt =====
-- `Run` as a whole: it answers, with the results of all tests.
use Prim.Native.String.{String}
use text.Mathlib.TextEquality.{eq_iff}
use soc_validation_framework.Prelude.{
  ℕ, max, ◌≡◌, ◌≢◌, refl, sym, ◌∙◌, ap, subst, true, false, List, [], ◌∷◌, Option, none, some,
  Bool-cases, Option-cases, inl, inr, get_elem?, arith,
}
use soc_validation_framework.Bus.{Result, ok}
use soc_validation_framework.Sequencer.{TestCase, elem, has_name, levels}
use soc_validation_framework.Sequencer.Counts.{bit}
use soc_validation_framework.Sequencer.Declared.{or_else, declared}
use soc_validation_framework.Sequencer.Order.{is_declared}
use soc_validation_framework.Sequencer.Schedule.{IsLayered-of, levels_once}
use soc_validation_framework.Sequencer.Suite.{IsSuite}
use soc_validation_framework.Sequencer.RunOne.{Callbacks, TestResult}
use soc_validation_framework.Sequencer.Thread.{Environment, Shared}
use soc_validation_framework.Sequencer.Run.{ByName, Progress, run_levels, ordered, run_suite}
use soc_validation_framework.Sequencer.Run.Trace.{running, IsOrdered, IsBounded, IsSteady}
use soc_validation_framework.Sequencer.Run.Filed.{IsPlaced, IsRight}
use soc_validation_framework.Sequencer.Run.Chunks.{IsKept}
use soc_validation_framework.Sequencer.Run.Needs.{needs}
use soc_validation_framework.Sequencer.Run.Whole.{run_levels-IsKept}
use soc_validation_framework.Sequencer.Run.Once.{begun}

-- The results are those of the tests, in declaration order; each has its test's name, and the index
-- of the level that holds the test.
unfoldable pub AllReported :
    {W Time : Type 0}
    → List (List String)
    → List (TestCase (Callbacks W))
    → List (TestResult Time)
    → Type 0
unfolding IsPlaced
AllReported ls [] [] = Unit
AllReported ls [] (r ∷ rs) = ⊥
AllReported ls (t ∷ ts) [] = ⊥
AllReported ls (t ∷ ts) (r ∷ rs) = (r.name ≡ t.name) × IsPlaced ls r × AllReported ls ts rs

-- The shared state before any test has begun.
abbrev pub unstarted : {W : Type 0} → W → Shared W
unstarted w = record { world = w; trace = [] }

module _ {W Time : Type 0} (no_time : Time) (ls : List (List String)) where
  pub ordered-cons :
      (t : TestCase (Callbacks W)) (ts : List (TestCase (Callbacks W))) (r : TestResult Time)
      (by_name : ByName Time)
      → by_name t.name ≡ some r
      → ordered no_time (t ∷ ts) by_name ≡ r ∷ ordered no_time ts by_name
  unfolding ordered
  ordered-cons t ts r by_name e = rw (e, ordered)

  ordered-AllReported :
      (tests : List (TestCase (Callbacks W))) (by_name : ByName Time)
      → IsRight ls by_name
      → ((n : String) → has_name n tests ≡ true → by_name n ≢ none)
      → AllReported ls tests (ordered no_time tests by_name)
  unfolding has_name AllReported IsRight
  ordered-AllReported [] by_name right all = unfold ordered in tt
  ordered-AllReported (t ∷ ts) by_name right all = elim (Option-cases (by_name t.name)) [
    | inl e ↦ absurd (all t.name (ground (arith, eq_iff t.name t.name)) e)
    | inr (r, e) ↦
        let (name, placed) = right t.name r e in
        let rest = ordered-AllReported ts by_name right (λ n h. all n (ground arith)) in
        subst (AllReported ls (t ∷ ts)) (sym (ordered-cons t ts r by_name e)) (name, placed, rest)
  ]

module _ {W : Type 0} where
  -- A test of the suite is declared, so it is done when nothing that is declared is left.
  pub declared_test :
      (tests : List (TestCase (Callbacks W))) (n : String)
      → has_name n tests ≡ true
      → declared tests n ≢ none
  unfolding has_name declared or_else
  declared_test [] n h e = ground arith
  declared_test (t ∷ ts) n h e =
      ground (arith, declared_test ts n, eq_iff t.name n, eq_iff n t.name)

  pub all_done :
      (tests : List (TestCase (Callbacks W))) (all : List String)
      → ((n : String) → elem n all ≡ false → declared tests n ≡ none)
      → (n : String) → has_name n tests ≡ true
      → elem n all ≡ true
  all_done tests all complete n h = elim (Bool-cases (elem n all)) [
    | inl e ↦ e
    | inr e ↦ absurd (declared_test tests n h (complete n e))
  ]

module _ {W Time : Type 0} (tests : List (TestCase (Callbacks W))) (ls : List (List String))
    (threads : ℕ) (w : W) where
  pub begin-IsKept :
      IsKept {Time = Time}
        (needs tests)
        (max 1 threads)
        ls
        (λ x. elem x [])
        (λ x. 0)
        (record { shared = unstarted w; by_name = λ n. none })
  unfolding elem IsOrdered IsBounded running begun IsRight
  begin-IsKept = record {
    steady = record { order = tt; bound = tt; runs = refl };
    past = λ x e. ground arith;
    filed = λ x e. absurd (ground arith);
    right = λ n r e. absurd (ground arith);
    once = λ x. refl;
  }

module _ {W Time : Type 0} (env : Environment W Time) (no_time : Time) (orders : ℕ → ℕ → List ℕ)
    (threads : ℕ) (tests : List (TestCase (Callbacks W))) (suite : IsSuite tests)
    (ls : List (List String)) (found_levels : levels tests ≡ some (ok ls)) (w : W) where
  unfoldable pub Answered : Option (Result (List (TestResult Time)) × Shared W) → Type 0
  Answered answer =
      (rs : List (TestResult Time)) × (s : Shared W) × (answer ≡ some (ok rs, s))
      × AllReported ls tests rs
      × IsSteady (needs tests) (max 1 threads) 0 s.trace
      × ((n : String) → begun n s.trace ≡ bit (is_declared (declared tests n)))

  pub run_suite_returns :
      (p : Progress W Time)
      → run_levels env tests orders threads 0 ls
          (record { shared = unstarted w; by_name = λ n. none })
        ≡ some (ok tt, p)
      → run_suite env no_time orders threads tests (unstarted w)
        ≡ some (ok (ordered no_time tests p.by_name), p.shared)
  unfolding run_suite
  run_suite_returns p e = rw (found_levels, e, run_suite)

  run_suite-Answered : Answered (run_suite env no_time orders threads tests (unstarted w))
  unfolding Answered
  run_suite-Answered =
      let start_state : Progress W Time = record { shared = unstarted w; by_name = λ n. none } in
      let nothing = begin-IsKept tests ls threads w in
      let (p, all, e, k, complete) =
        run_levels-IsKept env tests ls orders threads 0 ls [] (λ x. 0) start_state suite
          (λ i. ap (get_elem? ls) (omega arith)) (IsLayered-of tests ls found_levels) nothing in
      (
        ordered no_time tests p.by_name,
        p.shared,
        run_suite_returns p e,
        ordered-AllReported no_time ls tests p.by_name k.right
            (λ n h. k.filed n (all_done tests all complete n h)),
        k.steady,
        λ n. k.once n ∙ omega (arith, levels_once tests ls n found_levels),
      )

  -- On a suite whose tests have names of their own and for which `Levels` returns levels, `Run`
  -- returns, however many threads there are and however their steps interleave. It returns one
  -- result for each test, in declaration order, with the test's name and the index of a level that
  -- holds the test; and each registered test has begun exactly once, no other name ever.
  pub run_suite-AllReported :
      (rs : List (TestResult Time)) × (s : Shared W) × (run_suite env no_time orders threads tests
          (unstarted w)
        ≡ some (ok rs, s))
      × AllReported ls tests rs
      × ((n : String) → begun n s.trace ≡ bit (is_declared (declared tests n)))
  unfolding Answered
  run_suite-AllReported =
      let (rs, s, e, reported, steady, once) = run_suite-Answered in (rs, s, e, reported, once)

  -- On such a suite `Run` returns, and whatever the interleaving, a test has begun only after every
  -- registered test that it depends on had ended.
  pub run_suite-IsOrdered :
      (rs : List (TestResult Time)) × (s : Shared W) × (run_suite env no_time orders threads tests
          (unstarted w)
        ≡ some (ok rs, s))
      × IsOrdered (needs tests) s.trace
  unfolding Answered
  run_suite-IsOrdered =
      let (rs, s, e, reported, steady, once) = run_suite-Answered in (rs, s, e, steady.order)

  -- On such a suite `Run` returns; at no time have more tests been running than there are threads
  -- (or than one, when that is more), and no test still runs when it returns.
  pub run_suite-IsBounded :
      (rs : List (TestResult Time)) × (s : Shared W) × (run_suite env no_time orders threads tests
          (unstarted w)
        ≡ some (ok rs, s))
      × IsBounded (max 1 threads) s.trace
      × (running s.trace ≡ 0)
  unfolding Answered
  run_suite-IsBounded =
      let (rs, s, e, reported, steady, once) = run_suite-Answered in
      (rs, s, e, steady.bound, steady.runs)
