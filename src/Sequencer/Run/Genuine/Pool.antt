-- ===== src/Sequencer/Run/Genuine/Pool.antt =====
-- The threads of a chunk stay honest, however they interleave, and so are the results collected.
use soc_validation_framework.Prelude.{ℕ, zero, suc, ◌≡◌, sym, ◌∙◌, ap, subst, List, [], ◌∷◌, some}
use soc_validation_framework.Sequencer.{TestCase}
use soc_validation_framework.Sequencer.RunOne.{Callbacks, TestResult}
use soc_validation_framework.Sequencer.Thread.{
  Environment, Phase, waiting, counted, prepared, ran, over, finished, Thread, Shared, step, steps,
  complete,
}
use soc_validation_framework.Sequencer.Run.{
  collect, find_test, step_at, interleave, drain, run_threads,
}
use soc_validation_framework.Sequencer.Run.Genuine.{
  Way, stays, Way-trans, IsReport, IsReport-later, IsHonest, IsHonest-later,
}
use soc_validation_framework.Sequencer.Run.Genuine.Steps.{steps-IsHonest}

module _ {W Time : Type 0} (env : Environment W Time) (tests : List (TestCase (Callbacks W)))
    (first : W) where
  -- A thread of a test of the suite that has come by its test's callbacks.
  unfoldable pub IsFaithful : W → Thread W Time → Type 0
  IsFaithful now t =
      (find_test t.test.name tests ≡ some t.test) × IsHonest env tests first t.test t.phase now

  unfoldable pub AllFaithful : W → List (Thread W Time) → Type 0
  AllFaithful now [] = Unit
  AllFaithful now (t ∷ ts) = IsFaithful now t × AllFaithful now ts

  IsFaithful-later :
      (t : Thread W Time) (w w' : W) → Way tests w w' → IsFaithful w t → IsFaithful w' t
  unfolding IsFaithful
  IsFaithful-later t w w' on (known, h) =
      (known, IsHonest-later env tests first t.test t.phase w w' on h)

  AllFaithful-later :
      (ts : List (Thread W Time)) (w w' : W) → Way tests w w' → AllFaithful w ts → AllFaithful w' ts
  unfolding AllFaithful
  AllFaithful-later [] w w' on h = tt
  AllFaithful-later (t ∷ ts) w w' on (h, hs) =
      (IsFaithful-later t w w' on h, AllFaithful-later ts w w' on hs)

  -- From faithful threads, faithful threads further on the way.
  abbrev GoesOn : Shared W → List (Thread W Time) × Shared W → Type 0
  GoesOn s (ts, s') = Way tests s.world s'.world × AllFaithful s'.world ts

  steps-IsFaithful :
      (n : ℕ) (t : Thread W Time) (s : Shared W)
      → Way tests first s.world
      → IsFaithful s.world t
      → let (t', s') = steps env n t s in Way tests s.world s'.world × IsFaithful s'.world t'
  unfolding IsFaithful
  steps-IsFaithful n t s from (known, honest) =
      let (way, honest', same) = steps-IsHonest env tests first n t s known from honest in
      (
        way,
        (
          ap (λ (u : TestCase (Callbacks W)). find_test u.name tests) same
              ∙ known
              ∙ ap some (sym same),
          subst
              (λ u. IsHonest env tests first u (steps env n t s).0.phase (steps env n t s).1.world)
              (sym same) honest',
        ),
      )

  step-IsFaithful :
      (t : Thread W Time) (s : Shared W)
      → Way tests first s.world
      → IsFaithful s.world t
      → let (t', s') = step env t s in Way tests s.world s'.world × IsFaithful s'.world t'
  unfolding steps
  step-IsFaithful t s from h = steps-IsFaithful 1 t s from h

  step_at-AllFaithful :
      (i : ℕ) (ts : List (Thread W Time)) (s : Shared W)
      → Way tests first s.world
      → AllFaithful s.world ts
      → GoesOn s (step_at env i ts s)
  unfolding step_at AllFaithful
  step_at-AllFaithful i [] s from h = (stays, tt)
  step_at-AllFaithful zero (t ∷ ts) s from (h, hs) =
      let (way, h') = step-IsFaithful t s from h in
      (way, (h', AllFaithful-later ts s.world (step env t s).1.world way hs))
  step_at-AllFaithful (suc i) (t ∷ ts) s from (h, hs) =
      let (way, hs') = step_at-AllFaithful i ts s from hs in
      (way, (IsFaithful-later t s.world (step_at env i ts s).1.world way h, hs'))

  interleave-AllFaithful :
      (order : List ℕ) (ts : List (Thread W Time)) (s : Shared W)
      → Way tests first s.world
      → AllFaithful s.world ts
      → GoesOn s (interleave env order ts s)
  unfolding interleave
  interleave-AllFaithful [] ts s from h = (stays, h)
  interleave-AllFaithful (i ∷ order) ts s from h =
      let (ts', s') = step_at env i ts s in
      let (way, h') = step_at-AllFaithful i ts s from h in
      let (way', h'') = interleave-AllFaithful order ts' s' (Way-trans tests way from) h' in
      (Way-trans tests way' way, h'')

  drain-AllFaithful :
      (ts : List (Thread W Time)) (s : Shared W)
      → Way tests first s.world
      → AllFaithful s.world ts
      → GoesOn s (drain env ts s)
  unfolding drain complete AllFaithful
  drain-AllFaithful [] s from h = (stays, tt)
  drain-AllFaithful (t ∷ ts) s from (h, hs) =
      let (t', s') = complete env t s in
      let (way, h') = steps-IsFaithful 5 t s from h in
      let (way', hs') =
        drain-AllFaithful ts s' (Way-trans tests way from)
          (AllFaithful-later ts s.world s'.world way hs) in
      (
        Way-trans tests way' way,
        (IsFaithful-later t' s'.world (drain env ts s').1.world way' h', hs'),
      )

  pub run_threads-AllFaithful :
      (order : List ℕ) (ts : List (Thread W Time)) (s : Shared W)
      → Way tests first s.world
      → AllFaithful s.world ts
      → GoesOn s (run_threads env order ts s)
  unfolding run_threads
  run_threads-AllFaithful order ts s from h =
      let (ts', s') = interleave env order ts s in
      let (way, h') = interleave-AllFaithful order ts s from h in
      let (way', h'') = drain-AllFaithful ts' s' (Way-trans tests way from) h' in
      (Way-trans tests way' way, h'')

  -- A result of a test of the suite, found by the result's name.
  unfoldable pub IsGenuine : W → TestResult Time → Type 0
  IsGenuine now r =
      (t : TestCase (Callbacks W)) × (find_test r.name tests ≡ some t)
      × IsReport env tests first t r now

  unfoldable pub AllGenuine : W → List (TestResult Time) → Type 0
  AllGenuine now [] = Unit
  AllGenuine now (r ∷ rs) = IsGenuine now r × AllGenuine now rs

  pub IsGenuine-later :
      (r : TestResult Time) (w w' : W) → Way tests w w' → IsGenuine w r → IsGenuine w' r
  unfolding IsGenuine
  IsGenuine-later r w w' on (t, known, h) = (t, known, IsReport-later env tests first t r w w' on h)

  pub IsReport-IsGenuine :
      (t : TestCase (Callbacks W)) (r : TestResult Time) (now : W)
      → find_test t.name tests ≡ some t
      → IsReport env tests first t r now
      → IsGenuine now r
  unfolding IsGenuine
  IsReport-IsGenuine t r now known h = (t, ap (λ n. find_test n tests) h.name ∙ known, h)

  collect_one :
      (test : TestCase (Callbacks W)) (level : ℕ) (phase : Phase Time) (ts : List (Thread W Time))
      (now : W)
      → IsFaithful now (record { test = test; level = level; phase = phase })
      → AllGenuine now (collect ts)
      → AllGenuine now (collect (record { test = test; level = level; phase = phase } ∷ ts))
  unfolding collect IsFaithful AllGenuine IsHonest
  collect_one test level (finished r) ts now (known, honest) hs =
      (IsReport-IsGenuine test r now known honest, hs)
  collect_one test level waiting ts now h hs = hs
  collect_one test level (counted before) ts now h hs = hs
  collect_one test level (prepared before) ts now h hs = hs
  collect_one test level (ran before e) ts now h hs = hs
  collect_one test level (over before e) ts now h hs = hs

  pub collect-AllGenuine :
      (ts : List (Thread W Time)) (now : W) → AllFaithful now ts → AllGenuine now (collect ts)
  unfolding AllFaithful
  collect-AllGenuine [] now h = unfold collect AllGenuine in tt
  collect-AllGenuine (t ∷ ts) now (h, hs) =
      collect_one t.test t.level t.phase ts now h (collect-AllGenuine ts now hs)
