-- ===== src/Python/Bringup/Starts.antt =====
-- The three tests of the bring-up example, and what the first two do to its device.
use Prim.Native.String.{String}
use text.Mathlib.TextEquality.{eq_iff}
use soc_validation_framework.Prelude.{
  ℕ, ◌+◌, ◌^◌, ◌<◌, ◌≡◌, refl, sym, subst, ◌∙◌, ap, List, [], ◌∷◌, map, some, none, false, arith,
}
use soc_validation_framework.Bus.{Result, ok, err}
use soc_validation_framework.Device
use soc_validation_framework.Device.{
  EmulatedDevice, emulated, tick, read32, write32, set_transfer_latency,
}
use soc_validation_framework.Device.Policy
use soc_validation_framework.Device.Policy.{policy_for}
use soc_validation_framework.Device.Valid.{IsValid, new-IsValid, tick-IsValid}
use soc_validation_framework.Device.Access.{write32_decoded}
use soc_validation_framework.Device.Dma.{IsRunning, begun-IsRunning}
use soc_validation_framework.Registers.{get, set, mask}
use soc_validation_framework.Registers.Map.{dma_ctrl}
use soc_validation_framework.TxnLog.{Op, append, note, after_call, logged_write32}
use soc_validation_framework.Sequencer.{TestCase, levels, lookup, rounds, add, has_name}
use soc_validation_framework.Sequencer.Suite.{IsSuite}
use soc_validation_framework.Sequencer.RunOne.{outcome_of, Ended, returned, Action, Callbacks}
use soc_validation_framework.Sequencer.Run.{find_test}
use soc_validation_framework.Sequencer.Run.InOrder.{AllFound, singles}
use soc_validation_framework.Python.{py_add}
use soc_validation_framework.Python.Bringup.{
  LoggedDevice, session, ctrl_word, check_idle, check_reset_values, start_transfer, wait_for_done,
  bringup,
}
use soc_validation_framework.Python.Bringup.Waits.{logs, read_world, read_status}

word : ctrl_word ≡ 0x2081
unfolding set mask
word = refl

module _ (now_ns : ℕ → ℕ) where
  abbrev pub py_test :
      String
      → List String
      → Action (LoggedDevice now_ns)
      → TestCase (Callbacks (LoggedDevice now_ns))
  py_test name depends_on body = record {
    name = name;
    depends_on = depends_on;
    body = record { setup = none; run = body; teardown = none; timeout = 30000 };
  }

  abbrev pub three : ℕ → List (TestCase (Callbacks (LoggedDevice now_ns)))
  three polls =
      py_test "reset_values" [] (check_reset_values now_ns)
      ∷ py_test "start_transfer" ("reset_values" ∷ []) (start_transfer now_ns)
      ∷ py_test "wait_for_done" ("start_transfer" ∷ []) (wait_for_done now_ns polls)
      ∷ []

  pub bringup-three : (polls : ℕ) → bringup now_ns polls ≡ ok (three polls)
  unfolding bringup py_add add has_name
  bringup-three polls = refl

  pub three-levels :
      (polls : ℕ) → levels (three polls) ≡ some (ok (map (λ n. n ∷ []) (singles (three polls))))
  unfolding levels lookup rounds singles
  three-levels polls = refl

  pub three-AllFound : (polls : ℕ) → AllFound (three polls) (three polls)
  unfolding AllFound find_test
  three-AllFound polls = (refl, (refl, (refl, tt)))

  pub three-IsSuite : (polls : ℕ) → IsSuite (three polls)
  unfolding IsSuite has_name
  three-IsSuite polls = (
    (λ e. ground (arith, eq_iff "reset_values" "")),
    refl,
    (
      (λ e. ground (arith, eq_iff "start_transfer" "")),
      refl,
      ((λ e. ground (arith, eq_iff "wait_for_done" "")), refl, tt),
    ),
  )

  -- The three bodies, one after the other, on the session's device.
  module _ (latency : ℕ) where
    abbrev pub checked : LoggedDevice now_ns
    checked = read_world now_ns 1 (session latency)

    reset_status : (tick (session latency).inner).storage Policy.dma_status ≡ 1
    unfolding tick set_transfer_latency Device.new
    reset_status = refl

    check_idle_reset : check_idle now_ns 1 ≡ returned
    unfolding check_idle get mask
    check_idle_reset = refl

    pub check-returns : check_reset_values now_ns (session latency) ≡ (returned, checked)
    unfolding check_reset_values
    check-returns =
        let next : Result ℕ × LoggedDevice now_ns → Ended × LoggedDevice now_ns = λ x. elim x.0 [
          | err e ↦ (outcome_of (err e), x.1)
          | ok raw ↦ (check_idle now_ns raw, x.1)
        ] in
        ap next (read_status now_ns (session latency))
        ∙ ap (λ v. next (ok v, read_world now_ns v (session latency))) reset_status
        ∙ ap (λ (e : Ended). (e, checked)) check_idle_reset

    abbrev begun : EmulatedDevice
    begun = (write32 Policy.dma_ctrl 0x2081 checked.inner).1

    abbrev pub started : LoggedDevice now_ns
    started = note now_ns Op.write32 dma_ctrl.address 0x2081 begun checked

    pub start-returns : start_transfer now_ns checked ≡ (returned, started)
    unfolding start_transfer logged_write32 after_call outcome_of policy_for
    start-returns =
        let finish : Result (Unit {0}) × EmulatedDevice → Ended × LoggedDevice now_ns = λ x.
          let (r, w') = after_call now_ns Op.write32 dma_ctrl.address 0x2081 checked x in
          (outcome_of r, w') in
        let one = write32_decoded Policy.dma_ctrl 0x2081 checked.inner refl in
        let accepted = one ∙ ap (λ r. (ok tt, r.1)) (sym one) in
        ap
          (λ v.
            let (r, w') = logged_write32 now_ns emulated dma_ctrl.address v checked in
            (outcome_of r, w'))
          word
        ∙ ap finish accepted

    session-IsValid : IsValid (session latency).inner
    unfolding set_transfer_latency
    session-IsValid = record {
      words = new-IsValid.words;
      clock = new-IsValid.clock;
      busy = new-IsValid.busy;
      rest = new-IsValid.rest;
      link = new-IsValid.link;
    }

    first_tick :
        ((tick (session latency).inner).latency ≡ latency)
        × ((tick (session latency).inner).dma_running ≡ false)
        × ((tick (session latency).inner).ticks ≡ 1)
    unfolding tick set_transfer_latency Device.new
    first_tick = (refl, refl, refl)

    pub started-IsRunning : latency + 3 < 2 ^ 64 → IsRunning started.inner latency
    unfolding note
    started-IsRunning h =
        let d = tick (session latency).inner in
        let (same, idle, time) = first_tick in
        subst (IsRunning begun) same (
          begun-IsRunning d 0x2081 (tick-IsValid _ session-IsValid) (omega arith) (omega arith) idle
            (omega (arith, same, time)))

    pub logs-started : logs now_ns started ≡ 2
    unfolding note append
    logs-started = refl
