-- ===== src/Python/Session.antt =====
-- python/bindings.cpp: the objects that a Python program makes of the bound classes, in one heap
-- with its references. A `LoggedTransport` has pointers to two other objects; `py::keep_alive` has
-- Python keep both while it lives. That a Python object lives while it is referred to, and that the
-- patient of `keep_alive` lives while its nurse does, is what pybind11 documents.
pub mod Shape
pub mod Alive
pub mod Steps
mod Tests
use Prim.Native.String.{String}
use soc_validation_framework.Prelude.{
  ℕ, zero, suc, ◌-◌, ◌≡◌, ◌≢◌, Option, none, some, Bool, true, false, ◌||◌, ◌==◌, if◌then◌else◌, [],
}
use soc_validation_framework.Bus.{Result, ok, err, undefined_access}
use soc_validation_framework.Device
use soc_validation_framework.Device.{EmulatedDevice, read32, write32, set_transfer_latency}
use soc_validation_framework.Region.{put}
use soc_validation_framework.TxnLog
use soc_validation_framework.TxnLog.{Op, TransactionLog, append, clear}

pub data Object : Type 0 where
  device : EmulatedDevice → Object
  transaction_log : TransactionLog → Object
  logged_transport : (inner log : ℕ) (test : String) → Object

-- The objects by number, the number of the next, and how many references Python has to each.
pub record Heap : Type 0 where
  pub object : ℕ → Option Object
  pub next : ℕ
  pub references : ℕ → ℕ

abbrev pub empty_heap : Heap
empty_heap = record { object = λ i. none; next = 0; references = λ i. 0 }

abbrev pub set_object : ℕ → Object → Heap → Heap
set_object i o h = record h { object = put h.object i (some o) }

-- `py::init`: a new object, with one reference.
unfoldable pub made : Object → Heap → Heap
made o h = record {
  object = put h.object h.next (some o);
  next = suc h.next;
  references = λ i. if i == h.next then 1 else h.references i;
}

abbrev pub set_references : ℕ → ℕ → Heap → Heap
set_references i n h = record h { references = λ j. if j == i then n else h.references j }

-- A call of `Read32` or `Write32`: what a device does for it, and the entry that is logged.
pub record Call (A : Type 0) : Type 0 where
  pub op : Op
  pub address : ℕ
  pub logged_value : A → ℕ
  pub run : EmulatedDevice → Result A × EmulatedDevice

abbrev pub read_call : ℕ → Call ℕ
read_call address = record {
  op = Op.read32;
  address = address;
  logged_value = λ v. v;
  run = read32 address;
}

abbrev pub write_call : ℕ → ℕ → Call (Unit {0})
write_call address value = record {
  op = Op.write32;
  address = address;
  logged_value = λ _. value;
  run = write32 address value;
}

module _ (now_ns : ℕ → ℕ) where
  -- `Record` on the log that a pointer leads to.
  unfoldable pub record_at : ℕ → Op → ℕ → ℕ → String → Heap → Result (Unit {0}) × Heap
  record_at i op address value test h = elim (h.object i) [
    | none ↦ (err undefined_access, h)
    | some o ↦ elim o [
      | device d ↦ (err undefined_access, h)
      | transaction_log log ↦
          (ok tt, set_object i (transaction_log (append now_ns op address value test log)) h)
      | logged_transport inner log t ↦ (err undefined_access, h)
    ]
  ]

  module _ {A : Type 0} (c : Call A) where
    -- The rest of a decorator's method, after the call that it forwards.
    unfoldable pub then_record : ℕ → String → Result A × Heap → Result A × Heap
    unfolding record_at
    then_record log test (err e, h) = (err e, h)
    then_record log test (ok v, h) =
        let (r, h') = record_at log c.op c.address (c.logged_value v) test h in
        elim r [ err e ↦ (err e, h') | ok _ ↦ (ok v, h') ]

    -- The call on the transport that a pointer leads to. A decorator is younger than what it wraps,
    -- so one more than its number is fuel enough.
    unfoldable pub call_at : (fuel i : ℕ) → Heap → Result A × Heap
    unfolding then_record
    call_at zero i h = (err undefined_access, h)
    call_at (suc fuel) i h = elim (h.object i) [
      | none ↦ (err undefined_access, h)
      | some o ↦ elim o [
        | device d ↦ let (r, d') = c.run d in (r, set_object i (device d') h)
        | transaction_log log ↦ (err undefined_access, h)
        | logged_transport inner log test ↦ then_record log test (call_at fuel inner h)
      ]
    ]

-- The methods of one object alone; on an object of another class they do nothing here.
unfoldable pub update : (Object → Object) → ℕ → Heap → Heap
update f i h = elim (h.object i) [ none ↦ h | some o ↦ set_object i (f o) h ]

unfoldable pub py_reset : Object → Object
py_reset (device d) = device (Device.reset d)
py_reset (transaction_log log) = transaction_log log
py_reset (logged_transport inner log test) = logged_transport inner log test

unfoldable pub py_set_transfer_latency : ℕ → Object → Object
py_set_transfer_latency n (device d) = device (set_transfer_latency n d)
py_set_transfer_latency n (transaction_log log) = transaction_log log
py_set_transfer_latency n (logged_transport inner log test) = logged_transport inner log test

unfoldable pub py_clear : Object → Object
py_clear (device d) = device d
py_clear (transaction_log log) = transaction_log (clear log)
py_clear (logged_transport inner log test) = logged_transport inner log test

unfoldable pub py_set_test : String → Object → Object
py_set_test t (device d) = device d
py_set_test t (transaction_log log) = transaction_log log
py_set_test t (logged_transport inner log test) = logged_transport inner log t

-- The class of an argument, as pybind11 tests it.
unfoldable pub is_transport : Option Object → Bool
is_transport none = false
is_transport (some (device d)) = true
is_transport (some (transaction_log log)) = false
is_transport (some (logged_transport inner log test)) = true

unfoldable pub is_log : Option Object → Bool
is_log none = false
is_log (some (device d)) = false
is_log (some (transaction_log log)) = true
is_log (some (logged_transport inner log test)) = false

-- Is the object kept alive by this one?
unfoldable pub keeps : Option Object → ℕ → Bool
keeps none i = false
keeps (some (device d)) i = false
keeps (some (transaction_log log)) i = false
keeps (some (logged_transport inner log test)) i = inner == i || log == i

-- What a Python program can do next; a method is called on an object that is referred to. The
-- transports that `make_transport` builds are not among the objects.
pub data Step (now_ns : ℕ → ℕ) : Heap → Heap → Type 1 where
  makes_device : (h : Heap) → Step now_ns h (made (device Device.new) h)
  makes_log :
      (h : Heap) → Step now_ns h (made (transaction_log (record { records = []; readings = 0 })) h)
  makes_logged :
      (h : Heap) (inner log : ℕ)
      → h.references inner ≢ 0
      → h.references log ≢ 0
      → is_transport (h.object inner) ≡ true
      → is_log (h.object log) ≡ true
      → Step now_ns h (made (logged_transport inner log "<none>") h)
  shares :
      (h : Heap) (i : ℕ)
      → h.references i ≢ 0
      → Step now_ns h (set_references i (suc (h.references i)) h)
  drops : (h : Heap) (i : ℕ) → Step now_ns h (set_references i (h.references i - 1) h)
  destroys :
      (h : Heap) (i : ℕ)
      → h.references i ≡ 0
      → ((j : ℕ) → keeps (h.object j) i ≡ false)
      → Step now_ns h (record h { object = put h.object i none })
  calls :
      {A : Type 0} (h : Heap) (i : ℕ) (c : Call A)
      → h.references i ≢ 0
      → is_transport (h.object i) ≡ true
      → Step now_ns h (call_at now_ns c (suc i) i h).1
  resets : (h : Heap) (i : ℕ) → h.references i ≢ 0 → Step now_ns h (update py_reset i h)
  sets_latency :
      (h : Heap) (i n : ℕ)
      → h.references i ≢ 0
      → Step now_ns h (update (py_set_transfer_latency n) i h)
  clears : (h : Heap) (i : ℕ) → h.references i ≢ 0 → Step now_ns h (update py_clear i h)
  sets_test :
      (h : Heap) (i : ℕ) (test : String)
      → h.references i ≢ 0
      → Step now_ns h (update (py_set_test test) i h)

-- The heaps of a Python program.
pub data Reachable (now_ns : ℕ → ℕ) : Heap → Type 1 where
  begin : Reachable now_ns empty_heap
  go_on : (h h' : Heap) → Reachable now_ns h → Step now_ns h h' → Reachable now_ns h'
