-- ===== src/Python/Session/Tests.antt =====
-- A session that lets go of its device and its log, and keeps the decorator of both.
use soc_validation_framework.Prelude.{ℕ, ◌*◌, ◌≡◌, refl, [], some, true, arith}
use soc_validation_framework.Device
use soc_validation_framework.Device.{EmulatedDevice}
use soc_validation_framework.TxnLog.{TransactionLog}
use soc_validation_framework.Python.Session.{
  device, transaction_log, logged_transport, Heap, empty_heap, made, set_references, read_call,
  call_at, is_transport, is_log, Reachable, begin, go_on, makes_device, makes_log, makes_logged,
  drops,
}
use soc_validation_framework.Python.Session.Steps.{session_call}

abbrev no_records : TransactionLog
no_records = record { records = []; readings = 0 }

abbrev with_device : Heap
with_device = made (device Device.new) empty_heap

abbrev with_log : Heap
with_log = made (transaction_log no_records) with_device

abbrev wrapped : Heap
wrapped = made (logged_transport 0 1 "<none>") with_log

abbrev without_device : Heap
without_device = set_references 0 0 wrapped

abbrev let_go : Heap
let_go = set_references 1 0 without_device

abbrev clock : ℕ → ℕ
clock k = 100 * k

let_go-Reachable : Reachable clock let_go
unfolding made is_transport is_log
let_go-Reachable =
    go_on without_device let_go
      (go_on wrapped without_device
        (go_on with_log wrapped
          (go_on with_device with_log (go_on empty_heap with_device begin (makes_device empty_heap))
            (makes_log with_device))
          (makes_logged with_log 0 1 (λ e. omega arith) (λ e. omega arith) refl refl))
        (drops wrapped 0))
      (drops without_device 1)

let_go-decorator : is_transport (let_go.object 2) ≡ true
unfolding made is_transport
let_go-decorator = refl

session_call_example :
    (k : ℕ) × (d : EmulatedDevice) × (let_go.object k ≡ some (device d))
    × ((call_at clock (read_call 0x40000004) 3 2 let_go).0 ≡ (Device.read32 0x40000004 d).0)
session_call_example =
    session_call clock let_go 2 (read_call 0x40000004) let_go-Reachable let_go-decorator
