-- ===== src/Sequencer/Run/Trace.antt =====
-- What a trace of `Run` is to satisfy: dependencies first, and no more tests at a time than threads.
use Prim.Native.String.{String}
use text.Mathlib.Text.{◌==◌ as str_eq}
use soc_validation_framework.Prelude.{
  ℕ, suc, ◌+◌, ◌-◌, ◌≤◌, ◌≡◌, refl, sym, ◌∙◌, subst, Bool, true, false, ◌||◌, List, [], ◌∷◌, arith,
}
use text.Mathlib.TextEquality.{eq_iff}
use soc_validation_framework.Sequencer.{TestCase, elem}
use soc_validation_framework.Sequencer.RunOne.{
  Callbacks, Ended, returned, threw, threw_unknown, if_set, report,
}
use soc_validation_framework.Sequencer.Thread.{
  Environment, Phase, waiting, counted, prepared, ran, over, finished, Thread, Event, begins, ends,
  Shared, noted, after_setup, advance, step,
}

-- Has the test ended?
unfoldable pub ended : String → List Event → Bool
ended x [] = false
ended x (begins n ∷ older) = ended x older
ended x (ends n ∷ older) = str_eq x n || ended x older

-- How many tests have begun and not ended.
unfoldable pub running : List Event → ℕ
running [] = 0
running (begins n ∷ older) = suc (running older)
running (ends n ∷ older) = running older - 1

-- A test begins only when every test that it needs has ended.
unfoldable pub IsOrdered : (String → List String) → List Event → Type 0
IsOrdered needs [] = Unit
IsOrdered needs (begins n ∷ older) =
    ((x : String) → elem x (needs n) ≡ true → ended x older ≡ true) × IsOrdered needs older
IsOrdered needs (ends n ∷ older) = IsOrdered needs older

-- At no time do more than `limit` tests run.
unfoldable pub IsBounded : ℕ → List Event → Type 0
IsBounded limit [] = Unit
IsBounded limit (e ∷ older) = (running (e ∷ older) ≤ limit) × IsBounded limit older

module _ {Time : Type 0} where
  -- A thread that runs counts.
  unfoldable pub active : Phase Time → ℕ
  active waiting = 0
  active (finished r) = 0
  active (counted before) = 1
  active (prepared before) = 1
  active (ran before e) = 1
  active (over before e) = 1

  unfoldable pub IsFinished : Phase Time → Type 0
  IsFinished (finished r) = Unit
  IsFinished waiting = ⊥
  IsFinished (counted before) = ⊥
  IsFinished (prepared before) = ⊥
  IsFinished (ran before e) = ⊥
  IsFinished (over before e) = ⊥

  -- A finished test has ended, and its result has its name and its level.
  unfoldable pub IsSettled : String → ℕ → List Event → Phase Time → Type 0
  IsSettled n level trace (finished r) = (ended n trace ≡ true) × (r.name ≡ n) × (r.level ≡ level)
  IsSettled n level trace waiting = Unit
  IsSettled n level trace (counted before) = Unit
  IsSettled n level trace (prepared before) = Unit
  IsSettled n level trace (ran before e) = Unit
  IsSettled n level trace (over before e) = Unit

  -- More events settle no less.
  pub IsSettled-mono :
      (n : String) (level : ℕ) (older newer : List Event) (p : Phase Time)
      → ((x : String) → ended x older ≡ true → ended x newer ≡ true)
      → IsSettled n level older p
      → IsSettled n level newer p
  unfolding IsSettled
  IsSettled-mono n level older newer (finished r) grows (e, name, lev) = (grows n e, name, lev)
  IsSettled-mono n level older newer waiting grows h = tt
  IsSettled-mono n level older newer (counted before) grows h = tt
  IsSettled-mono n level older newer (prepared before) grows h = tt
  IsSettled-mono n level older newer (ran before e) grows h = tt
  IsSettled-mono n level older newer (over before e) grows h = tt

module _ (Time : Type 0) where
  active-after_setup : (before : ℕ) (e : Ended) → active {Time = Time} (after_setup before e) ≡ 1
  unfolding active after_setup
  active-after_setup before returned = refl
  active-after_setup before (threw what) = refl
  active-after_setup before threw_unknown = refl

  IsSettled-after_setup :
      (n : String) (level : ℕ) (trace : List Event) (before : ℕ) (e : Ended)
      → IsSettled {Time = Time} n level trace (after_setup before e)
  unfolding IsSettled after_setup
  IsSettled-after_setup n level trace before returned = tt
  IsSettled-after_setup n level trace before (threw what) = tt
  IsSettled-after_setup n level trace before threw_unknown = tt

module _ (needs : String → List String) (limit : ℕ) where
  -- A trace of `m` running tests that keeps to the order and to the limit.
  pub record IsSteady (m : ℕ) (trace : List Event) : Type 0 where
    pub order : IsOrdered needs trace
    pub bound : IsBounded limit trace
    pub runs : running trace ≡ m

-- Every test that test `n` needs has ended.
abbrev pub Ready : (String → List String) → String → List Event → Type 0
Ready needs n trace = (x : String) → elem x (needs n) ≡ true → ended x trace ≡ true

module _ {W Time : Type 0} (env : Environment W Time) (needs : String → List String)
    (limit : ℕ) where
  -- What one step of a thread keeps, with `others` running beside it.
  pub record IsStep (others : ℕ) (older : List Event) (result : Thread W Time × Shared W)
      : Type 0 where
    pub steady : IsSteady needs limit (others + active result.0.phase) result.1.trace
    pub settled : IsSettled result.0.test.name result.0.level result.1.trace result.0.phase
    pub grows : (x : String) → ended x older ≡ true → ended x result.1.trace ≡ true

  -- A step without an event, between phases that both run.
  quiet :
      (test : TestCase (Callbacks W)) (level others : ℕ) (phase phase' : Phase Time) (w : W)
      (s : Shared W)
      → active phase ≡ 1
      → active phase' ≡ 1
      → IsSettled test.name level s.trace phase'
      → IsSteady needs limit (others + active phase) s.trace
      → IsStep others s.trace (
        record { test = test; level = level; phase = phase' },
        record { world = w; trace = s.trace },
      )
  quiet test level others phase phase' w s one one' settled steady = record {
    steady = subst (λ m. IsSteady needs limit (others + m) s.trace) (one ∙ sym one') steady;
    settled = settled;
    grows = λ x e. e;
  }

  pub step_lem :
      (test : TestCase (Callbacks W)) (level others : ℕ) (phase : Phase Time) (s : Shared W)
      → others + 1 ≤ limit
      → IsSteady needs limit (others + active phase) s.trace
      → Ready needs test.name s.trace
      → IsSettled test.name level s.trace phase
      → IsStep others s.trace (step env (record { test = test; level = level; phase = phase }) s)
  unfolding step advance noted active IsSettled IsOrdered IsBounded running ended report
  step_lem test level others waiting s room steady ready settled = record {
    steady = record {
      order = (ready, steady.order);
      bound = (omega (arith, steady.runs), steady.bound);
      runs = omega (arith, steady.runs);
    };
    settled = tt;
    grows = λ x e. e;
  }
  step_lem test level others (counted before) s room steady ready settled =
      let e = (if_set test.body.setup s.world).0 in
      quiet test level others (counted before) (after_setup before e) _ s refl
        (active-after_setup Time before e)
        (IsSettled-after_setup Time test.name level s.trace before e) steady
  step_lem test level others (prepared before) s room steady ready settled =
      quiet test level others (prepared before) (ran before _) _ s refl refl tt steady
  step_lem test level others (ran before e) s room steady ready settled =
      quiet test level others (ran before e) (over before _) _ s refl refl tt steady
  step_lem test level others (over before e) s room steady ready settled = record {
    steady = record {
      order = steady.order;
      bound = (omega (arith, steady.runs), steady.bound);
      runs = omega (arith, steady.runs);
    };
    settled = (ground (arith, eq_iff test.name test.name), refl, refl);
    grows = λ x e'. ground arith;
  }
  step_lem test level others (finished r) s room steady ready settled = record {
    steady = steady;
    settled = settled;
    grows = λ x e. e;
  }
