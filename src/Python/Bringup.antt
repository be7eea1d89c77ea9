-- ===== src/Python/Bringup.antt =====
-- python/examples/dma_bringup.py: three tests that share one logged device and wait for each other.
-- The latency of the device and the number of polls are arguments. What pybind11 makes of the text
-- of an assertion, and what the program prints, is left out.
pub mod Waits
pub mod Starts
pub mod Passes
mod Tests
use Prim.Native.String.{String}
use soc_validation_framework.Prelude.{ℕ, zero, suc, List, [], ◌∷◌, ◌==◌, if◌then◌else◌, none}
use soc_validation_framework.Bus.{Result, ok, err}
use soc_validation_framework.Device
use soc_validation_framework.Device.{EmulatedDevice, emulated, set_transfer_latency}
use soc_validation_framework.Registers.{get, set}
use soc_validation_framework.Registers.Map.{
  dma_ctrl, dma_status, go_field, burst_field, channel_field, idle_field, busy_field, done_field,
}
use soc_validation_framework.TxnLog.{LoggedTransport, logged_read32, logged_write32}
use soc_validation_framework.Sequencer.{TestCase}
use soc_validation_framework.Sequencer.RunOne.{
  outcome_of, Ended, returned, threw, Action, Callbacks,
}
use soc_validation_framework.Python.{py_add}

-- `device`, `log` and `bus` at the start.
abbrev pub session : ℕ → LoggedTransport EmulatedDevice
session latency = record {
  inner = set_transfer_latency latency Device.new;
  log = record { records = []; readings = 0 };
  test = "<none>";
}

-- The word that the three assignments give a new `DmaCtrl`.
abbrev pub ctrl_word : ℕ
ctrl_word = set channel_field 2 (set burst_field 8 (set go_field 1 dma_ctrl.reset))

module _ (now_ns : ℕ → ℕ) where
  abbrev pub LoggedDevice : Type 0
  LoggedDevice = LoggedTransport EmulatedDevice

  unfoldable pub check_idle : ℕ → Ended
  check_idle raw =
      if get idle_field raw == 1
      then if get busy_field raw == 0 then returned else threw "BUSY must be clear out of reset"
      else threw "IDLE should be set out of reset"

  unfoldable pub check_reset_values : Action LoggedDevice
  unfolding check_idle
  check_reset_values w =
      let (r, w') = logged_read32 now_ns emulated dma_status.address w in
      elim r [ err e ↦ (outcome_of (err e), w') | ok raw ↦ (check_idle raw, w') ]

  unfoldable pub start_transfer : Action LoggedDevice
  start_transfer w =
      let (r, w') = logged_write32 now_ns emulated dma_ctrl.address ctrl_word w in
      (outcome_of r, w')

  unfoldable pub check_done : ℕ → Ended
  check_done raw =
      if get busy_field raw == 0 then returned else threw "DONE and BUSY must not both be set"

  -- The loop of `wait_for_done`.
  unfoldable pub wait_for_done : ℕ → Action LoggedDevice
  unfolding check_done
  wait_for_done zero w = (threw "transfer never reported DONE", w)
  wait_for_done (suc left) w =
      let (r, w') = logged_read32 now_ns emulated dma_status.address w in
      let rest = wait_for_done left w' in
      elim r [
        | err e ↦ (outcome_of (err e), w')
        | ok raw ↦ if get done_field raw == 0 then rest else (check_done raw, w')
      ]

  -- The three calls of `seq.add`, with the default timeout.
  unfoldable pub bringup : ℕ → Result (List (TestCase (Callbacks LoggedDevice)))
  unfolding check_reset_values start_transfer wait_for_done
  bringup polls = elim (py_add "reset_values" [] check_reset_values 30000 []) [
    | err e ↦ err e
    | ok one ↦ elim (py_add "start_transfer" ("reset_values" ∷ []) start_transfer 30000 one) [
      | err e ↦ err e
      | ok two ↦ py_add "wait_for_done" ("start_transfer" ∷ []) (wait_for_done polls) 30000 two
    ]
  ]
