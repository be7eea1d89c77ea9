-- ===== src/TxnLog/Replay.antt =====
-- Replaying a log of single-word accesses on the emulated device.
use Prim.Native.String.{String}
use soc_validation_framework.Prelude.{
  ℕ, ◌≡◌, refl, ◌∙◌, sym, subst, ap, inl, inr, List, [], ◌∷◌, ◌++◌, map, Option-cases,
}
use soc_validation_framework.Bus.{Exception, Result, ok, err}
use soc_validation_framework.Bus.Program.{
  Command, read_word, write_word, read_words, write_words, Reply, word, unit, Program, return, call,
  exec, run_program,
}
use soc_validation_framework.Device.{EmulatedDevice, emulated}
use soc_validation_framework.Device
use soc_validation_framework.Device.Policy.{policy_for}
use soc_validation_framework.Device.Access.{
  Access, reads, writes, step, run, read32_decoded, read32_undecoded, write32_decoded,
  write32_undecoded,
}
use soc_validation_framework.TxnLog.{read32, write32, LoggedTransport, logged}
use soc_validation_framework.TxnLog.Trace.{
  Event, event, events, trace, records-run_program, run_program-logged,
}

-- The accesses that a log records; a block entry holds no data, and is passed over.
unfoldable pub accesses : List Event → List Access
accesses [] = []
accesses (e ∷ rest) = elim e.op [
  | read32 ↦ reads e.address ∷ accesses rest
  | write32 ↦ writes e.address e.value ∷ accesses rest
  | _ ↦ accesses rest
]

-- On device `d` every read that the log records returns the recorded value.
abbrev pub Agrees : List Event → EmulatedDevice → Type 0
Agrees [] d = Unit
Agrees (e ∷ rest) d = elim e.op [
  | read32 ↦ ((Device.read32 e.address d).0 ≡ ok e.value) × Agrees rest (step (reads e.address) d)
  | write32 ↦ Agrees rest (step (writes e.address e.value) d)
  | _ ↦ Agrees rest d
]

abbrev pub IsSingle : Command → Type 0
IsSingle (read_word address) = Unit
IsSingle (write_word address value) = Unit
IsSingle (read_words address out count) = ⊥
IsSingle (write_words address words count) = ⊥

-- Whatever is returned, the program makes single-word calls only.
abbrev pub AllSingle : {A : Type 0} → Program A → Type 0
AllSingle (return a) = Unit
AllSingle (call c k) = IsSingle c × ((r : Reply) → AllSingle (k r))

-- What a call leaves in the log brings the device to where the call brought it.
Replays : List Event → List Event → EmulatedDevice → EmulatedDevice → Type 0
Replays new rest d d' =
    (run (accesses (new ++ rest)) d ≡ run (accesses rest) d')
    × (Agrees rest d' → Agrees (new ++ rest) d)

-- A single-word call that throws leaves the device as it was.
read32_throws :
    (address : ℕ) (d d' : EmulatedDevice) (e : Exception)
    → Device.read32 address d ≡ (err e, d')
    → d' ≡ d
read32_throws address d d' e thrown = elim (Option-cases (policy_for address)) [
  | inl none_there ↦ ap (λ r. r.1) (sym thrown ∙ read32_undecoded address d none_there)
  | inr decoded ↦
      let both = ap (λ r. r.0) (sym thrown ∙ read32_decoded address d decoded) in cc both
]

write32_throws :
    (address value : ℕ) (d d' : EmulatedDevice) (e : Exception)
    → Device.write32 address value d ≡ (err e, d')
    → d' ≡ d
write32_throws address value d d' e thrown = elim (Option-cases (policy_for address)) [
  | inl none_there ↦ ap (λ r. r.1) (sym thrown ∙ write32_undecoded address value d none_there)
  | inr decoded ↦
      let both = ap (λ r. r.0) (sym thrown ∙ write32_decoded address value d decoded.1) in cc both
]

module _ (test : String) (rest : List Event) (d : EmulatedDevice) where
  read-Replays :
      (address : ℕ) (x : Result ℕ × EmulatedDevice)
      → Device.read32 address d ≡ x
      → Replays (events test (read_word address) (word x.0)) rest d x.1
  unfolding Replays events accesses run step
  read-Replays address (ok value, d') e = (
    ap (λ r. run (accesses rest) r.1) e,
    λ agrees. (ap (λ r. r.0) e, subst (λ r. Agrees rest r.1) (sym e) agrees),
  )
  read-Replays address (err x, d') e =
      let same = read32_throws address d d' x e in
      (ap (run (accesses rest)) (sym same), subst (Agrees rest) same)

  write-Replays :
      (address value : ℕ) (x : Result (Unit {0}) × EmulatedDevice)
      → Device.write32 address value d ≡ x
      → Replays (events test (write_word address value) (unit x.0)) rest d x.1
  unfolding Replays events accesses run step
  write-Replays address value (ok _, d') e =
      (ap (λ r. run (accesses rest) r.1) e, subst (λ r. Agrees rest r.1) (sym e))
  write-Replays address value (err x, d') e =
      let same = write32_throws address value d d' x e in
      (ap (run (accesses rest)) (sym same), subst (Agrees rest) same)

  exec-Replays :
      (c : Command)
      → IsSingle c
      → Replays (events test c (exec emulated c d).0) rest d (exec emulated c d).1
  unfolding exec
  exec-Replays (read_word address) single = read-Replays address (Device.read32 address d) refl
  exec-Replays (write_word address value) single =
      write-Replays address value (Device.write32 address value d) refl
  exec-Replays (read_words address out count) single = absurd single
  exec-Replays (write_words address words count) single = absurd single

trace_replays :
    {A : Type 0} (test : String) (prog : Program A) (d : EmulatedDevice)
    → AllSingle prog
    → (run (accesses (trace emulated test prog d)) d ≡ (run_program emulated prog d).1)
      × Agrees (trace emulated test prog d) d
unfolding Replays trace run_program accesses run
trace_replays test (return a) d single = (refl, tt)
trace_replays test (call c k) d single =
    let r = exec emulated c d in
    let later = trace_replays test (k r.0) r.1 (single.1 r.0) in
    let now = exec-Replays test (trace emulated test (k r.0) r.1) d c single.0 in
    (now.0 ∙ later.0, now.1 later.1)

-- The log of a program of single-word calls, begun empty, reproduces the run: making the
-- recorded accesses again, from the state that the device had, brings it to the state that the
-- program left, and every recorded read returns the recorded value again.
pub replay-logged :
    {A : Type 0} (now_ns : ℕ → ℕ) (prog : Program A) (l : LoggedTransport EmulatedDevice)
    → AllSingle prog
    → l.log.records ≡ []
    → let after = (run_program (logged now_ns emulated) prog l).1 in
      (run (accesses (map event after.log.records)) l.inner ≡ after.inner)
      × Agrees (map event after.log.records) l.inner
replay-logged now_ns prog l single empty =
    let (moved, agrees) = trace_replays l.test prog l.inner single in
    let logged_trace =
      records-run_program emulated now_ns prog l
      ∙ ap (λ r. map event r ++ trace emulated l.test prog l.inner) empty in
    (
      ap (λ es. run (accesses es) l.inner) logged_trace
          ∙ moved
          ∙ sym (run_program-logged emulated now_ns prog l).1,
      subst (λ es. Agrees es l.inner) (sym logged_trace) agrees,
    )
