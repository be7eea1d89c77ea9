-- ===== src/Sequencer/Run/Once.antt =====
-- How often a test begins, however the threads of its chunk interleave.
use Prim.Native.String.{String}
use text.Mathlib.Text.{◌==◌ as str_eq}
use soc_validation_framework.Prelude.{
  ℕ, zero, suc, ◌+◌, ◌≡◌, refl, ◌∙◌, List, [], ◌∷◌, arith, if◌then◌else◌,
}
use soc_validation_framework.Sequencer.{TestCase}
use soc_validation_framework.Sequencer.RunOne.{
  Callbacks, Ended, returned, threw, threw_unknown, if_set,
}
use soc_validation_framework.Sequencer.Thread.{
  Environment, Phase, waiting, counted, prepared, ran, over, finished, Thread, Event, begins, ends,
  Shared, after_setup, noted, advance, step, steps, complete,
}
use soc_validation_framework.Sequencer.Run.{step_at, interleave, drain, run_threads}
use soc_validation_framework.Sequencer.Run.Trace.{IsFinished}
use soc_validation_framework.Sequencer.Run.Pool.{AllFinished}

-- How often a test begins in a trace.
unfoldable pub begun : String → List Event → ℕ
begun x [] = 0
begun x (begins n ∷ older) = if str_eq x n then suc (begun x older) else begun x older
begun x (ends n ∷ older) = begun x older

module _ {Time : Type 0} where
  -- Is this a thread of test `x` that has not begun?
  unfoldable pub unstarted_in : String → String → Phase Time → ℕ
  unstarted_in x n waiting = if str_eq x n then 1 else 0
  unstarted_in x n (counted before) = 0
  unstarted_in x n (prepared before) = 0
  unstarted_in x n (ran before e) = 0
  unstarted_in x n (over before e) = 0
  unstarted_in x n (finished r) = 0

  unstarted-finished : (x n : String) (p : Phase Time) → IsFinished p → unstarted_in x n p ≡ 0
  unfolding unstarted_in IsFinished
  unstarted-finished x n (finished r) h = refl
  unstarted-finished x n waiting h = absurd h
  unstarted-finished x n (counted before) h = refl
  unstarted-finished x n (prepared before) h = refl
  unstarted-finished x n (ran before e) h = refl
  unstarted-finished x n (over before e) h = refl

module _ (Time : Type 0) where
  unstarted-after_setup :
      (x n : String) (before : ℕ) (e : Ended)
      → unstarted_in {Time = Time} x n (after_setup before e) ≡ 0
  unfolding unstarted_in after_setup
  unstarted-after_setup x n before returned = refl
  unstarted-after_setup x n before (threw what) = refl
  unstarted-after_setup x n before threw_unknown = refl

module _ {W Time : Type 0} (x : String) where
  unfoldable pub unstarteds : List (Thread W Time) → ℕ
  unstarteds [] = 0
  unstarteds (t ∷ ts) = unstarted_in x t.test.name t.phase + unstarteds ts

  unstarteds-finished : (ts : List (Thread W Time)) → AllFinished ts → unstarteds ts ≡ 0
  unfolding unstarteds AllFinished
  unstarteds-finished [] h = refl
  unstarteds-finished (t ∷ ts) (h, hs) =
      omega (arith, unstarteds-finished ts hs, unstarted-finished x t.test.name t.phase h)

module _ {W Time : Type 0} (env : Environment W Time) (x : String) where
  step-begun :
      (test : TestCase (Callbacks W)) (level : ℕ) (phase : Phase Time) (s : Shared W)
      → let (t', s') = step env (record { test = test; level = level; phase = phase }) s in
        begun x s'.trace + unstarted_in x t'.test.name t'.phase
        ≡ begun x s.trace + unstarted_in x test.name phase
  unfolding step advance noted begun unstarted_in
  step-begun test level waiting s = ground arith
  step-begun test level (counted before) s =
      omega
        (arith, unstarted-after_setup Time x test.name before (if_set test.body.setup s.world).0)
  step-begun test level (prepared before) s = refl
  step-begun test level (ran before e) s = refl
  step-begun test level (over before e) s = refl
  step-begun test level (finished r) s = refl

  steps-begun :
      (n : ℕ) (t : Thread W Time) (s : Shared W)
      → let (t', s') = steps env n t s in
        begun x s'.trace + unstarted_in x t'.test.name t'.phase
        ≡ begun x s.trace + unstarted_in x t.test.name t.phase
  unfolding steps
  steps-begun zero t s = refl
  steps-begun (suc n) t s =
      let (t', s') = step env t s in steps-begun n t' s' ∙ step-begun t.test t.level t.phase s

  step_at-begun :
      (i : ℕ) (ts : List (Thread W Time)) (s : Shared W)
      → let (ts', s') = step_at env i ts s in
        begun x s'.trace + unstarteds x ts' ≡ begun x s.trace + unstarteds x ts
  unfolding step_at unstarteds
  step_at-begun i [] s = refl
  step_at-begun zero (t ∷ ts) s = omega (arith, step-begun t.test t.level t.phase s)
  step_at-begun (suc i) (t ∷ ts) s = omega (arith, step_at-begun i ts s)

  interleave-begun :
      (order : List ℕ) (ts : List (Thread W Time)) (s : Shared W)
      → let (ts', s') = interleave env order ts s in
        begun x s'.trace + unstarteds x ts' ≡ begun x s.trace + unstarteds x ts
  unfolding interleave
  interleave-begun [] ts s = refl
  interleave-begun (i ∷ order) ts s =
      let (ts', s') = step_at env i ts s in interleave-begun order ts' s' ∙ step_at-begun i ts s

  drain-begun :
      (ts : List (Thread W Time)) (s : Shared W)
      → let (ts', s') = drain env ts s in
        begun x s'.trace + unstarteds x ts' ≡ begun x s.trace + unstarteds x ts
  unfolding drain unstarteds complete
  drain-begun [] s = refl
  drain-begun (t ∷ ts) s =
      let (t', s') = steps env 5 t s in omega (arith, drain-begun ts s', steps-begun 5 t s)

  -- A chunk that has been waited for has begun each of its tests once more.
  pub run_threads-begun :
      (order : List ℕ) (ts : List (Thread W Time)) (s : Shared W)
      → AllFinished (run_threads env order ts s).0
      → begun x (run_threads env order ts s).1.trace ≡ begun x s.trace + unstarteds x ts
  unfolding run_threads
  run_threads-begun order ts s done =
      let (ts', s') = interleave env order ts s in
      omega (
        arith,
        interleave-begun order ts s,
        drain-begun ts' s',
        unstarteds-finished x (drain env ts' s').0 done,
      )
