-- ===== src/Sequencer/Run/Pool.antt =====
-- The threads of a chunk together: whatever the order of their steps, the trace stays in order and
-- within the limit, and when the futures have been waited for all have finished.
use Prim.Native.String.{String}
use soc_validation_framework.Prelude.{
  ℕ, zero, suc, ◌+◌, ◌≤◌, ◌≡◌, refl, sym, ◌∙◌, ap, subst, true, List, [], ◌∷◌, length, arith,
}
use soc_validation_framework.Sequencer.{TestCase}
use soc_validation_framework.Sequencer.RunOne.{Callbacks}
use soc_validation_framework.Sequencer.Thread.{
  Environment, Phase, waiting, counted, prepared, ran, over, finished, Thread, Event, Shared, step,
}
use soc_validation_framework.Sequencer.Run.{step_at, interleave}
use soc_validation_framework.Sequencer.Run.Trace.{
  ended, active, IsFinished, IsSettled, IsSettled-mono, IsSteady, Ready, step_lem,
}

module _ {Time : Type 0} where
  pub active-le-one : (p : Phase Time) → active p ≤ 1
  unfolding active
  active-le-one waiting = omega arith
  active-le-one (counted before) = omega arith
  active-le-one (prepared before) = omega arith
  active-le-one (ran before e) = omega arith
  active-le-one (over before e) = omega arith
  active-le-one (finished r) = omega arith

  pub active-finished : (p : Phase Time) → IsFinished p → active p ≡ 0
  unfolding active IsFinished
  active-finished (finished r) h = refl
  active-finished waiting h = absurd h
  active-finished (counted before) h = absurd h
  active-finished (prepared before) h = absurd h
  active-finished (ran before e) h = absurd h
  active-finished (over before e) h = absurd h

module _ {W Time : Type 0} where
  unfoldable pub actives : List (Thread W Time) → ℕ
  actives [] = 0
  actives (t ∷ ts) = active t.phase + actives ts

  pub actives-le : (ts : List (Thread W Time)) → actives ts ≤ length ts
  unfolding actives
  actives-le [] = omega arith
  actives-le (t ∷ ts) = omega (arith, actives-le ts, active-le-one t.phase)

  -- The tests of the threads and their levels, which no step changes.
  unfoldable pub plan : List (Thread W Time) → List (TestCase (Callbacks W) × ℕ)
  plan [] = []
  plan (t ∷ ts) = (t.test, t.level) ∷ plan ts

  pub length-plan : (ts : List (Thread W Time)) → length (plan ts) ≡ length ts
  unfolding plan
  length-plan [] = refl
  length-plan (t ∷ ts) = ap suc (length-plan ts)

  unfoldable pub AllFinished : List (Thread W Time) → Type 0
  AllFinished [] = Unit
  AllFinished (t ∷ ts) = IsFinished t.phase × AllFinished ts

  pub actives-finished : (ts : List (Thread W Time)) → AllFinished ts → actives ts ≡ 0
  unfolding AllFinished actives
  actives-finished [] h = refl
  actives-finished (t ∷ ts) (h, hs) =
      omega (arith, actives-finished ts hs, active-finished t.phase h)

module _ {W Time : Type 0} (needs : String → List String) where
  -- Each thread may begin, and has ended where it has finished.
  unfoldable pub AllFit : List (Thread W Time) → List Event → Type 0
  AllFit [] trace = Unit
  AllFit (t ∷ ts) trace =
      (Ready needs t.test.name trace × IsSettled t.test.name t.level trace t.phase)
      × AllFit ts trace

  pub AllFit-mono :
      (ts : List (Thread W Time)) (older newer : List Event)
      → ((x : String) → ended x older ≡ true → ended x newer ≡ true)
      → AllFit ts older
      → AllFit ts newer
  unfolding AllFit
  AllFit-mono [] older newer grows h = tt
  AllFit-mono (t ∷ ts) older newer grows ((ready, settled), h) = (
    (
      (λ x e. grows x (ready x e)),
      IsSettled-mono t.test.name t.level older newer t.phase grows settled,
    ),
    AllFit-mono ts older newer grows h,
  )

module _ {W Time : Type 0} (env : Environment W Time) (needs : String → List String)
    (limit : ℕ) where
  -- What steps of a pool keep, with `others` running beside it.
  pub record IsAdvance (others : ℕ) (ts : List (Thread W Time)) (older : List Event)
      (result : List (Thread W Time) × Shared W) : Type 0 where
    pub steady : IsSteady needs limit (others + actives result.0) result.1.trace
    pub fit : AllFit needs result.0 result.1.trace
    pub grows : (x : String) → ended x older ≡ true → ended x result.1.trace ≡ true
    pub same : plan result.0 ≡ plan ts

  pub step_at-IsAdvance :
      (i : ℕ) (ts : List (Thread W Time)) (s : Shared W) (others : ℕ)
      → others + length ts ≤ limit
      → IsSteady needs limit (others + actives ts) s.trace
      → AllFit needs ts s.trace
      → IsAdvance others ts s.trace (step_at env i ts s)
  unfolding step_at step actives plan AllFit
  step_at-IsAdvance i [] s others room steady fit = record {
    steady = steady;
    fit = fit;
    grows = λ x e. e;
    same = refl;
  }
  step_at-IsAdvance zero (t ∷ ts) s others room steady ((ready, settled), fit) =
      let around : others + (active t.phase + actives ts) ≡ others + actives ts + active t.phase =
        omega arith in
      let one =
        step_lem env needs limit t.test t.level (others + actives ts) t.phase s
          (omega (arith, actives-le ts)) (subst (λ m. IsSteady needs limit m s.trace) around steady)
          ready settled in
      let t' = (step env t s).0 in
      let back : others + actives ts + active t'.phase ≡ others + (active t'.phase + actives ts) =
        omega arith in
      record {
        steady = subst (λ m. IsSteady needs limit m (step env t s).1.trace) back one.steady;
        fit = (
          ((λ x e. one.grows x (ready x e)), one.settled),
          AllFit-mono needs ts s.trace _ one.grows fit,
        );
        grows = one.grows;
        same = refl;
      }
  step_at-IsAdvance (suc i) (t ∷ ts) s others room steady ((ready, settled), fit) =
      let around : others + (active t.phase + actives ts) ≡ others + active t.phase + actives ts =
        omega arith in
      let rest =
        step_at-IsAdvance i ts s (others + active t.phase) (omega (arith, active-le-one t.phase))
          (subst (λ m. IsSteady needs limit m s.trace) around steady) fit in
      let (ts', s') = step_at env i ts s in
      let back : others + active t.phase + actives ts' ≡ others + (active t.phase + actives ts') =
        omega arith in
      record {
        steady = subst (λ m. IsSteady needs limit m s'.trace) back rest.steady;
        fit = (
          (
            (λ x e. rest.grows x (ready x e)),
            IsSettled-mono t.test.name t.level s.trace s'.trace t.phase rest.grows settled,
          ),
          rest.fit,
        );
        grows = rest.grows;
        same = ap (λ l. (t.test, t.level) ∷ l) rest.same;
      }

  pub IsAdvance-trans :
      {others : ℕ} {ts : List (Thread W Time)} {older middle : List Event}
      {result : List (Thread W Time) × Shared W} (ts' : List (Thread W Time))
      → ((x : String) → ended x older ≡ true → ended x middle ≡ true)
      → plan ts' ≡ plan ts
      → IsAdvance others ts' middle result
      → IsAdvance others ts older result
  IsAdvance-trans ts' grows same a = record {
    steady = a.steady;
    fit = a.fit;
    grows = λ x e. a.grows x (grows x e);
    same = a.same ∙ same;
  }

  pub length-same : (ts ts' : List (Thread W Time)) → plan ts' ≡ plan ts → length ts' ≡ length ts
  length-same ts ts' same = sym (length-plan ts') ∙ ap length same ∙ length-plan ts

  pub interleave-IsAdvance :
      (order : List ℕ) (ts : List (Thread W Time)) (s : Shared W) (others : ℕ)
      → others + length ts ≤ limit
      → IsSteady needs limit (others + actives ts) s.trace
      → AllFit needs ts s.trace
      → IsAdvance others ts s.trace (interleave env order ts s)
  unfolding interleave
  interleave-IsAdvance [] ts s others room steady fit = record {
    steady = steady;
    fit = fit;
    grows = λ x e. e;
    same = refl;
  }
  interleave-IsAdvance (i ∷ order) ts s others room steady fit =
      let a = step_at-IsAdvance i ts s others room steady fit in
      let (ts', s') = step_at env i ts s in
      IsAdvance-trans ts' a.grows a.same (
        interleave-IsAdvance order ts' s' others (omega (arith, length-same ts ts' a.same)) a.steady
          a.fit)
