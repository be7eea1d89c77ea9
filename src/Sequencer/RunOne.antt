-- ===== src/Sequencer/RunOne.antt =====
-- `RunOne` of src/sequencer.cpp: setup, body and teardown of one test, and its status.
-- The callbacks act on a world `W`. Whether the deadline passes before they end is the argument
-- `late`, and what the access counter holds is read from the world.
-- A test whose body is an empty function is outside the model.
use Prim.Native.String.{String, ◌++◌ as str_append}
use soc_validation_framework.Prelude.{
  ℕ, ◌+◌, ◌-◌, ◌^◌, ◌≡◌, ◌≢◌, ◌↔◌, ◌⊎◌, inl, inr, refl, Bool, false, Option, none, some,
  if◌then◌else◌, arith,
}
use soc_validation_framework.Word.{u64}
use soc_validation_framework.Bus.{
  transport_error, invalid_argument, out_of_range, runtime_error, undefined_access, Result, ok, err,
}
use soc_validation_framework.Sequencer.{TestCase}

-- How a callback ends; `threw` carries what a `std::exception` says.
pub data Ended : Type 0 where
  returned : Ended
  threw : (what : String) → Ended
  threw_unknown : Ended

-- How a callback ends that is a C++ function with this result.
unfoldable pub outcome_of : Result (Unit {0}) → Ended
outcome_of (ok a) = returned
outcome_of (err (transport_error what address)) = threw what
outcome_of (err (invalid_argument what)) = threw what
outcome_of (err (out_of_range what)) = threw what
outcome_of (err (runtime_error what)) = threw what
outcome_of (err undefined_access) = threw_unknown

Ended-cases : (e : Ended) → (e ≡ returned) ⊎ (e ≢ returned)
Ended-cases returned = inl refl
Ended-cases (threw what) = inr (λ e. ground arith)
Ended-cases threw_unknown = inr (λ e. ground arith)

module _ (W : Type 0) where
  abbrev pub Action : Type 0
  Action = W → Ended × W

  pub record Callbacks : Type 0 where
    pub setup : Option Action
    pub run : Action
    pub teardown : Option Action
    pub timeout : ℕ

pub data TestStatus : Type 0 where
  pass fail skip error timed_out : TestStatus

-- `ToString`.
unfoldable pub to_string : TestStatus → String
to_string pass = "PASS"
to_string fail = "FAIL"
to_string skip = "SKIP"
to_string error = "ERROR"
to_string timed_out = "TIMEOUT"

pub record TestResult (Time : Type 0) : Type 0 where
  pub name : String
  pub status : TestStatus
  pub duration_ms : Time
  pub message : String
  pub register_accesses : ℕ
  pub level : ℕ

-- An exception of the teardown takes the place of the body's.
unfoldable pub rethrow : Ended → Ended → Ended
rethrow returned body = body
rethrow (threw what) body = threw what
rethrow threw_unknown body = threw_unknown

module _ {W : Type 0} where
  -- A `std::function` that may be empty.
  unfoldable pub if_set : Option (Action W) → Action W
  if_set none w = (returned, w)
  if_set (some action) w = action w

  unfoldable pub after_body : Callbacks W → Ended → Action W
  after_body c body w = let (t, w') = if_set c.teardown w in (rethrow t body, w')

  -- What runs on the test's own thread.
  unfoldable pub call_all : Callbacks W → Action W
  call_all c w =
      let (e, w') = if_set c.setup w in
      elim e [
        | returned ↦ let (b, w'') = c.run w' in after_body c b w''
        | threw what ↦ (threw what, w')
        | threw_unknown ↦ (threw_unknown, w')
      ]

-- The status of a test that ended in time, and its message.
unfoldable pub judge : Ended → TestStatus × String
judge returned = (pass, "")
judge (threw what) = (fail, what)
judge threw_unknown = (error, "unknown exception")

-- `duration` is what the clock measures, `to_decimal` is `std::to_string`.
module _ {W Time : Type 0} (duration : Time) (to_decimal : ℕ → String) where
  -- The result, from the two readings of the counter and how the test's thread ended.
  unfoldable pub report :
      Bool → TestCase (Callbacks W) → (level before after : ℕ) → Ended → TestResult Time
  report late test level before after e =
      let on_time = judge e in
      let exceeded = str_append "exceeded " (str_append (to_decimal test.body.timeout) " ms") in
      record {
        name = test.name;
        status = if late then timed_out else on_time.0;
        duration_ms = duration;
        message = if late then exceeded else on_time.1;
        register_accesses = u64 (after + 2 ^ 64 - before);
        level = level;
      }

-- `counter` reads `AccessCounter`.
module _ {W Time : Type 0} (duration : Time) (to_decimal : ℕ → String) (counter : W → ℕ) where
  unfoldable pub run_one : Bool → TestCase (Callbacks W) → ℕ → W → TestResult Time × W
  run_one late test level w =
      let (e, w') = call_all test.body w in
      (report duration to_decimal late test level (counter w) (counter w') e, w')

  -- Once the setup of a test has returned, its body is called once and its teardown once after it,
  -- whatever the body throws and whether or not the deadline has passed: the world is what these
  -- leave. If the setup throws, neither is called.
  pub run_one-teardown :
      (late : Bool) (test : TestCase (Callbacks W)) (level : ℕ) (w : W)
      → let c = test.body in
        let after_setup = (if_set c.setup w).1 in
        let after_all = (if_set c.teardown (c.run after_setup).1).1 in
        (((if_set c.setup w).0 ≡ returned) × ((run_one late test level w).1 ≡ after_all))
        ⊎ (((if_set c.setup w).0 ≢ returned) × ((run_one late test level w).1 ≡ after_setup))
  unfolding run_one call_all after_body
  run_one-teardown late test level w = ground (arith, Ended-cases (if_set test.body.setup w).0)

  -- A test passes exactly when the deadline has not passed and none of the callbacks throws.
  pub run_one-pass :
      (late : Bool) (test : TestCase (Callbacks W)) (level : ℕ) (w : W)
      → let c = test.body in
        let (s, w1) = if_set c.setup w in
        let (b, w2) = c.run w1 in
        let (t, w3) = if_set c.teardown w2 in
        ((run_one late test level w).0.status ≡ pass)
        ↔ ((late ≡ false) × (s ≡ returned) × (b ≡ returned) × (t ≡ returned))
  unfolding run_one report call_all after_body rethrow judge
  run_one-pass late test level w = ground arith
