-- ===== src/TxnLog/Tests.antt =====
-- The transaction log at concrete inputs, with a clock that advances by 10 at each reading.
use soc_validation_framework.Prelude.{ℕ, ◌*◌, ◌≡◌, refl, [], ◌++◌, map}
use soc_validation_framework.Bus.Program.{Program, return, call, read_word, write_word, run_program}
use soc_validation_framework.Device
use soc_validation_framework.Device.{EmulatedDevice, emulated}
use soc_validation_framework.Device.Access.{run}
use soc_validation_framework.TxnLog.{LoggedTransport, logged}
use soc_validation_framework.TxnLog.Trace.{event, trace, records-run_program}
use soc_validation_framework.TxnLog.Replay.{accesses, Agrees, replay-logged}

abbrev clock : ℕ → ℕ
clock k = k * 10

abbrev session : LoggedTransport EmulatedDevice
session = record {
  inner = Device.new;
  log = record { records = []; readings = 0 };
  test = "dma_smoke";
}

abbrev smoke : Program (Unit {0})
smoke =
    call (write_word 0x40000000 1)
      (λ _. call (read_word 0xDEADBEEF) (λ _. call (read_word 0x40000004) (λ _. return tt)))

records-run_program_example :
    map event (run_program (logged clock emulated) smoke session).1.log.records
    ≡ [] ++ trace emulated "dma_smoke" smoke Device.new
records-run_program_example = records-run_program emulated clock smoke session

replay-logged_example :
    let after = (run_program (logged clock emulated) smoke session).1 in
    (run (accesses (map event after.log.records)) Device.new ≡ after.inner)
    × Agrees (map event after.log.records) Device.new
replay-logged_example = replay-logged clock smoke session (tt, λ _. (tt, λ _. (tt, λ _. tt))) refl
