-- ===== src/Sequencer/Run/Genuine.antt =====
-- What a result of `Run` says of its test: how its setup, body and teardown ended, and where in the
-- run they were called.
pub mod Steps
pub mod Pool
pub mod Filed
pub mod Levels
pub mod Whole
use Prim.Native.String.{String, ◌++◌ as str_append}
use soc_validation_framework.Prelude.{
  ℕ, zero, suc, ◌+◌, ◌-◌, ◌^◌, ◌≡◌, ◌≢◌, ◌⊎◌, inl, inr, refl, ap, subst, Bool, true, false, List,
  [], ◌∷◌, some, arith,
}
use soc_validation_framework.Word.{u64}
use soc_validation_framework.Sequencer.{TestCase}
use soc_validation_framework.Sequencer.RunOne.{
  Ended, returned, threw, threw_unknown, Callbacks, TestResult, TestStatus, pass, fail, error,
  timed_out, if_set, rethrow, judge, report, run_one,
}
use soc_validation_framework.Sequencer.Thread.{
  Environment, Phase, waiting, counted, prepared, ran, over, finished, Thread, Shared, after_setup,
  advance, step, steps, complete, complete-run_one,
}
use soc_validation_framework.Sequencer.Run.{start, find_test}

-- A way from one world to another by callbacks of the tests of a suite.
pub data Way {W : Type 0} (tests : List (TestCase (Callbacks W))) : W → W → Type 0 where
  stays : {w : W} → Way tests w w
  sets_up :
      {w w' : W} (t : TestCase (Callbacks W))
      → find_test t.name tests ≡ some t
      → Way tests w w'
      → Way tests w (if_set t.body.setup w').1
  runs :
      {w w' : W} (t : TestCase (Callbacks W))
      → find_test t.name tests ≡ some t
      → Way tests w w'
      → Way tests w (t.body.run w').1
  tears_down :
      {w w' : W} (t : TestCase (Callbacks W))
      → find_test t.name tests ≡ some t
      → Way tests w w'
      → Way tests w (if_set t.body.teardown w').1

module _ {W : Type 0} (tests : List (TestCase (Callbacks W))) where
  pub Way-trans : {u v w : W} → Way tests v w → Way tests u v → Way tests u w
  Way-trans stays before = before
  Way-trans (sets_up t known way) before = sets_up t known (Way-trans way before)
  Way-trans (runs t known way) before = runs t known (Way-trans way before)
  Way-trans (tears_down t known way) before = tears_down t known (Way-trans way before)

-- The way of the run starts at `first`, and has come to the last argument.
module _ {W Time : Type 0} (env : Environment W Time) (tests : List (TestCase (Callbacks W)))
    (first : W) where
  -- Where the counter was read first.
  unfoldable pub HasRead : ℕ → W → Type 0
  HasRead before now = (w : W) × Way tests first w × (before ≡ env.counter w) × Way tests w now

  -- After that, how the setup ended.
  unfoldable pub HasSetUp : Callbacks W → ℕ → Ended → W → Type 0
  unfolding HasRead
  HasSetUp c before e now =
      (w : W) × HasRead before w × ((if_set c.setup w).0 ≡ e) × Way tests (if_set c.setup w).1 now

  -- After a setup that returned, how the body ended.
  unfoldable pub HasRun : Callbacks W → ℕ → Ended → W → Type 0
  unfolding HasSetUp
  HasRun c before b now =
      (w : W) × HasSetUp c before returned w × ((c.run w).0 ≡ b) × Way tests (c.run w).1 now

  -- After a body that ended one way or the other, how the teardown ended.
  unfoldable pub HasTornDown : Callbacks W → ℕ → (b t : Ended) → W → Type 0
  unfolding HasRun
  HasTornDown c before b t now =
      (w : W) × HasRun c before b w
      × ((if_set c.teardown w).0 ≡ t)
      × Way tests (if_set c.teardown w).1 now

  -- How the test's own thread ended: as a setup that threw, as a teardown that threw, or as the body
  -- when the teardown returned.
  unfoldable pub HasEnded : Callbacks W → ℕ → Ended → W → Type 0
  unfolding HasSetUp HasTornDown
  HasEnded c before e now =
      (HasSetUp c before e now × (e ≢ returned))
      ⊎ ((b : Ended) × HasTornDown c before b e now × (e ≢ returned))
      ⊎ HasTornDown c before e returned now

  -- The status and the message that a test gets.
  unfoldable pub IsVerdict : Bool → (timeout : ℕ) → Ended → TestStatus → String → Type 0
  IsVerdict true timeout e status message =
      (status ≡ timed_out)
      × (message ≡ str_append "exceeded " (str_append (env.to_decimal timeout) " ms"))
  IsVerdict false timeout returned status message = (status ≡ pass) × (message ≡ "")
  IsVerdict false timeout (threw what) status message = (status ≡ fail) × (message ≡ what)
  IsVerdict false timeout threw_unknown status message =
      (status ≡ error) × (message ≡ "unknown exception")

  -- A result by what the run did: the test's name, the time it took, the verdict on how it ended,
  -- and the accesses between the two readings of the counter.
  pub record IsReport (test : TestCase (Callbacks W)) (r : TestResult Time) (now : W) : Type 0 where
    pub name : r.name ≡ test.name
    pub duration : r.duration_ms ≡ env.duration test.name
    pub before : ℕ
    pub ended : Ended
    pub last : W
    pub ending : HasEnded test.body before ended last
    pub onward : Way tests last now
    pub accesses : r.register_accesses ≡ u64 (env.counter last + 2 ^ 64 - before)
    pub verdict : IsVerdict (env.late test.name) test.body.timeout ended r.status r.message

  -- How far a thread has come, it has come by its callbacks.
  unfoldable pub IsHonest : TestCase (Callbacks W) → Phase Time → W → Type 0
  unfolding HasRead HasSetUp HasRun HasEnded
  IsHonest test waiting now = Unit
  IsHonest test (counted before) now = HasRead before now
  IsHonest test (prepared before) now = HasSetUp test.body before returned now
  IsHonest test (ran before b) now = HasRun test.body before b now
  IsHonest test (over before e) now = HasEnded test.body before e now
  IsHonest test (finished r) now = IsReport test r now

  -- What has happened has happened when the run goes on.
  HasEnded-later :
      (c : Callbacks W) (before : ℕ) (e : Ended) (w w' : W)
      → Way tests w w'
      → HasEnded c before e w
      → HasEnded c before e w'
  unfolding HasEnded HasSetUp HasTornDown
  HasEnded-later c before e w w' on (inl ((v, h, same, way), thrown)) =
      inl ((v, h, same, Way-trans tests on way), thrown)
  HasEnded-later c before e w w' on (inr (inl (b, (v, h, same, way), thrown))) =
      inr (inl (b, (v, h, same, Way-trans tests on way), thrown))
  HasEnded-later c before e w w' on (inr (inr (v, h, same, way))) =
      inr (inr (v, h, same, Way-trans tests on way))

  pub IsReport-later :
      (test : TestCase (Callbacks W)) (r : TestResult Time) (w w' : W)
      → Way tests w w'
      → IsReport test r w
      → IsReport test r w'
  IsReport-later test r w w' on h = record {
    name = h.name;
    duration = h.duration;
    before = h.before;
    ended = h.ended;
    last = h.last;
    ending = h.ending;
    onward = Way-trans tests on h.onward;
    accesses = h.accesses;
    verdict = h.verdict;
  }

  pub IsHonest-later :
      (test : TestCase (Callbacks W)) (phase : Phase Time) (w w' : W)
      → Way tests w w'
      → IsHonest test phase w
      → IsHonest test phase w'
  unfolding IsHonest HasRead HasSetUp HasRun
  IsHonest-later test waiting w w' on h = tt
  IsHonest-later test (counted before) w w' on (v, from, same, way) =
      (v, from, same, Way-trans tests on way)
  IsHonest-later test (prepared before) w w' on (v, h, same, way) =
      (v, h, same, Way-trans tests on way)
  IsHonest-later test (ran before b) w w' on (v, h, same, way) =
      (v, h, same, Way-trans tests on way)
  IsHonest-later test (over before e) w w' on h = HasEnded-later test.body before e w w' on h
  IsHonest-later test (finished r) w w' on h = IsReport-later test r w w' on h
