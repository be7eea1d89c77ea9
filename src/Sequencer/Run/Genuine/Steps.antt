-- ===== src/Sequencer/Run/Genuine/Steps.antt =====
-- Every step of a thread of `RunOne` keeps what it tells of the callbacks true.
use soc_validation_framework.Prelude.{
  ℕ, zero, suc, ◌≡◌, refl, subst, Bool, true, false, List, some, inl, inr, arith,
}
use soc_validation_framework.Sequencer.{TestCase}
use soc_validation_framework.Sequencer.RunOne.{
  Ended, returned, threw, threw_unknown, Callbacks, if_set, rethrow, judge, report, run_one,
}
use soc_validation_framework.Sequencer.Thread.{
  Environment, Phase, waiting, counted, prepared, ran, over, finished, Thread, Shared, after_setup,
  advance, step, steps, complete, complete-run_one,
}
use soc_validation_framework.Sequencer.Run.{start, find_test}
use soc_validation_framework.Sequencer.Run.Genuine.{
  Way, stays, sets_up, runs, tears_down, Way-trans, HasRead, HasSetUp, HasRun, HasTornDown,
  HasEnded, IsVerdict, IsReport, IsHonest,
}

module _ {W Time : Type 0} (env : Environment W Time) (tests : List (TestCase (Callbacks W)))
    (first : W) where
  after_setup-IsHonest :
      (test : TestCase (Callbacks W)) (before : ℕ) (now : W) (e : Ended)
      → HasSetUp env tests first test.body before e now
      → IsHonest env tests first test (after_setup before e) now
  unfolding IsHonest after_setup HasEnded
  after_setup-IsHonest test before now returned h = h
  after_setup-IsHonest test before now (threw what) h = inl (h, λ e. ground arith)
  after_setup-IsHonest test before now threw_unknown h = inl (h, λ e. ground arith)

  rethrow-HasEnded :
      (c : Callbacks W) (before : ℕ) (b t : Ended) (now : W)
      → HasTornDown env tests first c before b t now
      → HasEnded env tests first c before (rethrow t b) now
  unfolding HasEnded rethrow
  rethrow-HasEnded c before b returned now h = inr (inr h)
  rethrow-HasEnded c before b (threw what) now h = inr (inl (b, h, λ e. ground arith))
  rethrow-HasEnded c before b threw_unknown now h = inr (inl (b, h, λ e. ground arith))

  report-IsVerdict :
      (late : Bool) (test : TestCase (Callbacks W)) (level before after : ℕ) (e : Ended)
      → let r = report (env.duration test.name) env.to_decimal late test level before after e in
        IsVerdict env tests first late test.body.timeout e r.status r.message
  unfolding IsVerdict report judge
  report-IsVerdict true test level before after e = (refl, refl)
  report-IsVerdict false test level before after returned = (refl, refl)
  report-IsVerdict false test level before after (threw what) = (refl, refl)
  report-IsVerdict false test level before after threw_unknown = (refl, refl)

  report-IsReport :
      (test : TestCase (Callbacks W)) (level before : ℕ) (e : Ended) (now : W)
      → HasEnded env tests first test.body before e now
      → IsReport env tests first test
          (report
            (env.duration test.name)
            env.to_decimal
            (env.late test.name)
            test
            level
            before
            (env.counter now)
            e)
          now
  unfolding report
  report-IsReport test level before e now h = record {
    name = refl;
    duration = refl;
    before = before;
    ended = e;
    last = now;
    ending = h;
    onward = stays;
    accesses = refl;
    verdict = report-IsVerdict (env.late test.name) test level before (env.counter now) e;
  }

  -- One step of a thread of the suite goes on along the way.
  pub advance-IsHonest :
      (test : TestCase (Callbacks W)) (level : ℕ) (phase : Phase Time) (w : W)
      → find_test test.name tests ≡ some test
      → Way tests first w
      → IsHonest env tests first test phase w
      → let (phase', w') = advance env test level phase w in
        Way tests w w' × IsHonest env tests first test phase' w'
  unfolding IsHonest advance HasRead HasSetUp HasRun HasTornDown
  advance-IsHonest test level waiting w known from h = (stays, (w, from, refl, stays))
  advance-IsHonest test level (counted before) w known from h = (
    sets_up test known stays,
    after_setup-IsHonest test before _ (if_set test.body.setup w).0 (w, h, refl, stays),
  )
  advance-IsHonest test level (prepared before) w known from h =
      (runs test known stays, (w, h, refl, stays))
  advance-IsHonest test level (ran before b) w known from h = (
    tears_down test known stays,
    rethrow-HasEnded test.body before b (if_set test.body.teardown w).0 _ (w, h, refl, stays),
  )
  advance-IsHonest test level (over before e) w known from h =
      (stays, report-IsReport test level before e w h)
  advance-IsHonest test level (finished r) w known from h = (stays, h)

  pub steps-IsHonest :
      (n : ℕ) (t : Thread W Time) (s : Shared W)
      → find_test t.test.name tests ≡ some t.test
      → Way tests first s.world
      → IsHonest env tests first t.test t.phase s.world
      → let (t', s') = steps env n t s in
        Way tests s.world s'.world
        × IsHonest env tests first t.test t'.phase s'.world
        × (t'.test ≡ t.test)
  unfolding steps step
  steps-IsHonest zero t s known from h = (stays, h, refl)
  steps-IsHonest (suc n) t s known from h =
      let (t', s') = step env t s in
      let (way, honest) = advance-IsHonest t.test t.level t.phase s.world known from h in
      let (way', honest', same) = steps-IsHonest n t' s' known (Way-trans tests way from) honest in
      (Way-trans tests way' way, honest', same)

  -- So a call of `RunOne` reports what the callbacks did.
  pub run_one-IsReport :
      (test : TestCase (Callbacks W)) (level : ℕ) (s : Shared W)
      → find_test test.name tests ≡ some test
      → Way tests first s.world
      → let (r, w) =
          run_one
            (env.duration test.name)
            env.to_decimal
            env.counter
            (env.late test.name)
            test
            level
            s.world in
        Way tests s.world w × IsReport env tests first test r w
  unfolding IsHonest complete
  run_one-IsReport test level s known from =
      let (way, honest, same) = steps-IsHonest 5 (start level test) s known from tt in
      subst
        (λ (p : Thread W Time × Shared W).
          Way tests s.world p.1.world × IsHonest env tests first test p.0.phase p.1.world)
        (complete-run_one env test level s) (way, honest)
