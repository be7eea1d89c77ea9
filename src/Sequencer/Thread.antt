-- ===== src/Sequencer/Thread.antt =====
-- `RunOne` of src/sequencer.cpp as a thread: its accesses to shared state one by one, so that the
-- threads of a level can be interleaved. The events of a trace say when a test begins and ends.
use Prim.Native.String.{String}
use soc_validation_framework.Prelude.{ℕ, zero, suc, ◌≡◌, Bool, List, ◌∷◌, arith}
use soc_validation_framework.Sequencer.{TestCase}
use soc_validation_framework.Sequencer.RunOne.{
  Ended, returned, threw, threw_unknown, Callbacks, TestResult, if_set, rethrow, report, run_one,
  call_all, after_body,
}

-- What the run reads from outside: the deadlines that pass, the clock, `std::to_string` and
-- `AccessCounter`.
pub record Environment (W Time : Type 0) : Type 0 where
  pub late : String → Bool
  pub duration : String → Time
  pub to_decimal : ℕ → String
  pub counter : W → ℕ

-- How far a call of `RunOne` has come; `before` is its first reading of the counter.
pub data Phase (Time : Type 0) : Type 0 where
  waiting : Phase Time
  counted : (before : ℕ) → Phase Time
  prepared : (before : ℕ) → Phase Time
  ran : (before : ℕ) → Ended → Phase Time
  over : (before : ℕ) → Ended → Phase Time
  finished : TestResult Time → Phase Time

pub record Thread (W Time : Type 0) : Type 0 where
  pub test : TestCase (Callbacks W)
  pub level : ℕ
  pub phase : Phase Time

pub data Event : Type 0 where
  begins ends : (name : String) → Event

-- The shared state, and the events so far, the newest first.
pub record Shared (W : Type 0) : Type 0 where
  pub world : W
  pub trace : List Event

module _ {Time : Type 0} where
  -- A setup that throws ends the test's own thread.
  unfoldable pub after_setup : ℕ → Ended → Phase Time
  after_setup before returned = prepared before
  after_setup before (threw what) = over before (threw what)
  after_setup before threw_unknown = over before threw_unknown

  unfoldable pub noted : Phase Time → String → List Event → List Event
  noted waiting n trace = begins n ∷ trace
  noted (over before e) n trace = ends n ∷ trace
  noted (counted before) n trace = trace
  noted (prepared before) n trace = trace
  noted (ran before e) n trace = trace
  noted (finished r) n trace = trace

module _ {W Time : Type 0} (env : Environment W Time) where
  unfoldable pub advance : TestCase (Callbacks W) → ℕ → Phase Time → W → Phase Time × W
  unfolding after_setup
  advance test level waiting w = (counted (env.counter w), w)
  advance test level (counted before) w =
      let (e, w') = if_set test.body.setup w in (after_setup before e, w')
  advance test level (prepared before) w = let (e, w') = test.body.run w in (ran before e, w')
  advance test level (ran before e) w =
      let (t, w') = if_set test.body.teardown w in (over before (rethrow t e), w')
  advance test level (over before e) w = (
    finished (
        report (env.duration test.name) env.to_decimal (env.late test.name) test level before
          (env.counter w) e),
    w,
  )
  advance test level (finished r) w = (finished r, w)

  -- One step of a thread, with its event.
  unfoldable pub step : Thread W Time → Shared W → Thread W Time × Shared W
  step t s =
      let (phase, w) = advance t.test t.level t.phase s.world in
      (record t { phase = phase }, record { world = w; trace = noted t.phase t.test.name s.trace })

  unfoldable pub steps : ℕ → Thread W Time → Shared W → Thread W Time × Shared W
  steps zero t s = (t, s)
  steps (suc n) t s = let (t', s') = step t s in steps n t' s'

  -- Five steps end any thread: `future.get` waits for them.
  unfoldable pub complete : Thread W Time → Shared W → Thread W Time × Shared W
  complete t s = steps 5 t s

  -- A thread that runs alone does what `RunOne` does as one call: its steps are those of the setup,
  -- the body and the teardown, and it ends with the result of `RunOne`.
  pub complete-run_one :
      (test : TestCase (Callbacks W)) (level : ℕ) (s : Shared W)
      → let (r, w) =
          run_one
            (env.duration test.name)
            env.to_decimal
            env.counter
            (env.late test.name)
            test
            level
            s.world in
        complete (record { test = test; level = level; phase = waiting }) s ≡ (
          record { test = test; level = level; phase = finished r },
          record { world = w; trace = ends test.name ∷ begins test.name ∷ s.trace },
        )
  unfolding complete steps step advance after_setup run_one call_all after_body noted
  complete-run_one test level s = ground arith
