-- ===== src/TxnLog/Shared/Tests.antt =====
-- Two tests on their own devices, with one log.
use soc_validation_framework.Prelude.{ℕ, ◌*◌, ◌≡◌, List, [], ◌∷◌, ◌++◌, map, arith}
use text.Mathlib.TextEquality.{eq_iff}
use soc_validation_framework.Bus.Program.{return, call, read_word, write_word}
use soc_validation_framework.Device
use soc_validation_framework.Device.{EmulatedDevice, emulated}
use soc_validation_framework.TxnLog.{TransactionLog}
use soc_validation_framework.TxnLog.Trace.{event}
use soc_validation_framework.TxnLog.Shared.{Caller, turns, mine, due, names, IsNew, AllDistinct}
use soc_validation_framework.TxnLog.Shared.Turns.{turns-due}

abbrev every_ten : ℕ → ℕ
every_ten k = k * 10

abbrev callers : List (Caller EmulatedDevice)
callers =
    record {
      inner = Device.new;
      test = "dma";
      rest = call (write_word 0x40000000 1) (λ _. call (read_word 0x40000004) (λ _. return tt));
    }
    ∷ record {
      inner = Device.new;
      test = "pcie";
      rest = call (read_word 0x50000000) (λ _. return tt);
    }
    ∷ []

abbrev empty_log : TransactionLog
empty_log = record { records = []; readings = 0 }

callers-AllDistinct : AllDistinct (names callers)
unfolding AllDistinct IsNew names
callers-AllDistinct = (((λ e. ground (arith, eq_iff "pcie" "dma")), tt), (tt, tt))

turns-due_example :
    let (after, log) = turns every_ten emulated (0 ∷ 1 ∷ 0 ∷ []) callers empty_log in
    mine "dma" (map event log.records) ++ due emulated "dma" after
    ≡ mine "dma" [] ++ due emulated "dma" callers
turns-due_example =
    turns-due every_ten emulated "dma" (0 ∷ 1 ∷ 0 ∷ []) callers empty_log callers-AllDistinct
