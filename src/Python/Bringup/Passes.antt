-- ===== src/Python/Bringup/Passes.antt =====
-- The bring-up example passes when it polls often enough.
use Prim.Native.String.{String}
use soc_validation_framework.Prelude.{
  ℕ, ◌+◌, ◌^◌, ◌<◌, min, max, ltb, length, ◌≡◌, refl, ◌∙◌, ap, List, [], ◌∷◌, map, some, Bool, true,
  false, if◌then◌else◌, arith,
}
use soc_validation_framework.Bus.{ok}
use soc_validation_framework.Sequencer.{TestCase}
use soc_validation_framework.Sequencer.RunOne.{
  Ended, returned, threw, Action, Callbacks, TestResult, TestStatus, pass, fail, judge, report,
  run_one, call_all, after_body, if_set, rethrow,
}
use soc_validation_framework.Sequencer.Thread.{Environment, Shared}
use soc_validation_framework.Sequencer.Run.{run_suite}
use soc_validation_framework.Sequencer.Run.Results.{unstarted}
use soc_validation_framework.Sequencer.Run.InOrder.{one_result, in_order, run_suite-in_order}
use soc_validation_framework.Python.Bringup.{
  LoggedDevice, session, check_reset_values, start_transfer, wait_for_done, bringup,
}
use soc_validation_framework.Python.Bringup.Waits.{logs, wait-Waited}
use soc_validation_framework.Python.Bringup.Starts.{
  py_test, three, bringup-three, three-levels, three-AllFound, three-IsSuite, checked,
  check-returns, started, start-returns, started-IsRunning, logs-started,
}

judged :
    (what : String) (b : Bool)
    → (judge (if b then threw what else returned)).0 ≡ (if b then fail else pass)
unfolding judge
judged what true = refl
judged what false = refl

module _ (now_ns : ℕ → ℕ) where
  module _ {Time : Type 0} (env : Environment (LoggedDevice now_ns) Time)
      (on_time : (n : String) → env.late n ≡ false) where
    -- A test without setup and teardown passes when its body returns, and leaves what that leaves.
    one_result-body :
        (level : ℕ) (name : String) (depends_on : List String) (body : Action (LoggedDevice now_ns))
        (w w' : LoggedDevice now_ns) (e : Ended)
        → body w ≡ (e, w')
        → let r = one_result env level (py_test now_ns name depends_on body) w in
          (r.0.status ≡ (judge e).0) × (r.1 ≡ w')
    unfolding run_one call_all after_body if_set rethrow report
    one_result-body level name depends_on body w w' e ran = (
      ground (arith, on_time name) ∙ ap (λ (x : Ended × LoggedDevice now_ns). (judge x.0).0) ran,
      ap (λ (x : Ended × LoggedDevice now_ns). x.1) ran,
    )

    statuses : List (TestResult Time) → List TestStatus
    statuses rs = map (λ r. r.status) rs

    in_order-three :
        (polls : ℕ) (w w1 w2 : LoggedDevice now_ns)
        → check_reset_values now_ns w ≡ (returned, w1)
        → start_transfer now_ns w1 ≡ (returned, w2)
        → let last = wait_for_done now_ns polls w2 in
          (statuses (in_order env 0 (three now_ns polls) w).0 ≡ pass ∷ pass ∷ (judge last.0).0 ∷ [])
          × ((in_order env 0 (three now_ns polls) w).1 ≡ last.1)
    unfolding in_order statuses judge
    in_order-three polls w w1 w2 checks starts =
        let (s0, e0) =
          one_result-body 0 "reset_values" [] (check_reset_values now_ns) w w1 returned checks in
        let (s1, e1) =
          one_result-body 1 "start_transfer" ("reset_values" ∷ []) (start_transfer now_ns) w1 w2
            returned starts in
        let last = wait_for_done now_ns polls w2 in
        let (s2, e2) =
          one_result-body 2 "wait_for_done" ("start_transfer" ∷ []) (wait_for_done now_ns polls) w2
            last.1 last.0 refl in
        rw (s0, e0, s1, e1, s2, e2) (refl, refl)

    -- The example, with any latency of the device below 2^64 - 3 and any number of polls, and whatever
    -- the number of threads and their interleaving, as long as no deadline passes: its three tests
    -- are added and run. The first two pass, and the third passes when it may poll as often as the latency has
    -- ticks (once for a latency of zero), and fails otherwise. The log has an entry for each of the
    -- accesses, and the engine has stopped exactly when the third test passes.
    pub bringup_passes :
        (no_time : Time) (orders : ℕ → ℕ → List ℕ) (threads latency polls : ℕ)
        → latency + 3 < 2 ^ 64
        → let early = ltb polls (max 1 latency) in
          (tests : List (TestCase (Callbacks (LoggedDevice now_ns)))) × (rs : List
            (TestResult Time))
          × (s : Shared (LoggedDevice now_ns)) × (bringup now_ns polls ≡ ok tests)
          × (run_suite env no_time orders threads tests (unstarted (session latency))
              ≡ some (ok rs, s))
          × (map (λ r. r.status) rs ≡ pass ∷ pass ∷ (if early then fail else pass) ∷ [])
          × (length s.world.log.records ≡ 2 + min polls (max 1 latency))
          × (s.world.inner.dma_running ≡ early)
    unfolding statuses judge
    bringup_passes no_time orders threads latency polls h =
        let (s, ran, left) =
          run_suite-in_order env no_time orders threads (three now_ns polls)
            (unstarted (session latency)) (three-AllFound now_ns polls) (three-IsSuite now_ns polls)
            (three-levels now_ns polls) in
        let (results, world) =
          in_order-three polls (session latency) (checked now_ns latency) (started now_ns latency)
            (check-returns now_ns latency) (start-returns now_ns latency) in
        let waited =
          wait-Waited now_ns polls latency (started now_ns latency)
            (started-IsRunning now_ns latency h) in
        let there = left ∙ world in
        (
          three now_ns polls,
          _,
          s,
          bringup-three now_ns polls,
          ran,
          results
              ∙ ap (λ t. pass ∷ pass ∷ t ∷ [])
                  (ap (λ (e : Ended). (judge e).0) waited.ended
                    ∙ judged "transfer never reported DONE" (ltb polls (max 1 latency))),
          ap (logs now_ns) there ∙ omega (arith, waited.logged, logs-started now_ns latency),
          ap (λ (w : LoggedDevice now_ns). w.inner.dma_running) there ∙ waited.running,
        )
