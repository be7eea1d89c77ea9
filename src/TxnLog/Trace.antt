-- ===== src/TxnLog/Trace.antt =====
-- What a program leaves in the log.
use Prim.Native.String.{String}
use soc_validation_framework.Prelude.{ℕ, ◌≡◌, refl, ◌∙◌, sym, ap, List, [], ◌∷◌, ◌++◌, map}
use mathlib.Core.List.{map-append, append-nil, append_assoc}
use soc_validation_framework.Word.{u32}
use soc_validation_framework.Bus.{Result, ok, err, Buffer, Transport}
use soc_validation_framework.Bus.Program.{
  Command, read_word, write_word, read_words, write_words, Reply, word, unit, block, Program,
  return, call, exec, run_program, run_program_transparent,
}
use soc_validation_framework.TxnLog.{
  Op, read32, write32, read_block, write_block, Transaction, LoggedTransport, append, after_read,
  after_call, logged,
}

-- An entry without its time.
pub record Event : Type 0 where
  pub op : Op
  pub address : ℕ
  pub value : ℕ
  pub test : String

abbrev pub event : Transaction → Event
event t = record { op = t.op; address = t.address; value = t.value; test = t.test }

-- What is to be logged of a call, by its reply: one event if it returned, none if it threw.
unfoldable pub events : String → Command → Reply → List Event
events test (read_word address) (word (ok value)) =
    record { op = read32; address = address; value = value; test = test } ∷ []
events test (write_word address value) (unit (ok _)) =
    record { op = write32; address = address; value = value; test = test } ∷ []
events test (read_words address out count) (block (ok _) _) =
    record { op = read_block; address = address; value = u32 count; test = test } ∷ []
events test (write_words address words count) (unit (ok _)) =
    record { op = write_block; address = address; value = u32 count; test = test } ∷ []
events test _ _ = []

module _ {S : Type 0} (now_ns : ℕ → ℕ) (l : LoggedTransport S) where
  -- The logging call did what the bare call did, and added the call's events to the log.
  pub record Logs (c : Command) (outer : Reply × LoggedTransport S) (inner : Reply × S)
      : Type 0 where
    pub reply : outer.0 ≡ inner.0
    pub inside : outer.1.inner ≡ inner.1
    pub test : outer.1.test ≡ l.test
    pub entries : map event outer.1.log.records ≡ map event l.log.records ++ events l.test c inner.0

  after_read-Logs :
      (address : ℕ) (x : Result ℕ × S)
      → let y = after_read now_ns address l x in
        Logs (read_word address) (word y.0, y.1) (word x.0, x.1)
  unfolding after_read append events
  after_read-Logs address (ok value, s) = record {
    reply = refl;
    inside = refl;
    test = refl;
    entries = map-append event l.log.records _;
  }
  after_read-Logs address (err e, s) = record {
    reply = refl;
    inside = refl;
    test = refl;
    entries = sym (append-nil _);
  }

  after_write-Logs :
      (address value : ℕ) (x : Result (Unit {0}) × S)
      → let y = after_call now_ns write32 address value l x in
        Logs (write_word address value) (unit y.0, y.1) (unit x.0, x.1)
  unfolding after_call append events
  after_write-Logs address value (ok _, s) = record {
    reply = refl;
    inside = refl;
    test = refl;
    entries = map-append event l.log.records _;
  }
  after_write-Logs address value (err e, s) = record {
    reply = refl;
    inside = refl;
    test = refl;
    entries = sym (append-nil _);
  }

  after_write_block-Logs :
      (address : ℕ) (words : Buffer) (count : ℕ) (x : Result (Unit {0}) × S)
      → let y = after_call now_ns write_block address (u32 count) l x in
        Logs (write_words address words count) (unit y.0, y.1) (unit x.0, x.1)
  unfolding after_call append events
  after_write_block-Logs address words count (ok _, s) = record {
    reply = refl;
    inside = refl;
    test = refl;
    entries = map-append event l.log.records _;
  }
  after_write_block-Logs address words count (err e, s) = record {
    reply = refl;
    inside = refl;
    test = refl;
    entries = sym (append-nil _);
  }

  after_read_block-Logs :
      (address : ℕ) (out out' : Buffer) (count : ℕ) (x : Result (Unit {0}) × S)
      → let y = after_call now_ns read_block address (u32 count) l x in
        Logs (read_words address out count) (block y.0 out', y.1) (block x.0 out', x.1)
  unfolding after_call append events
  after_read_block-Logs address out out' count (ok _, s) = record {
    reply = refl;
    inside = refl;
    test = refl;
    entries = map-append event l.log.records _;
  }
  after_read_block-Logs address out out' count (err e, s) = record {
    reply = refl;
    inside = refl;
    test = refl;
    entries = sym (append-nil _);
  }

  pub exec-Logs :
      (bus : Transport S) (c : Command) → Logs c (exec (logged now_ns bus) c l) (exec bus c l.inner)
  unfolding exec logged
  exec-Logs bus (read_word address) = after_read-Logs address (bus.read32 address l.inner)
  exec-Logs bus (write_word address value) =
      after_write-Logs address value (bus.write32 address value l.inner)
  exec-Logs bus (read_words address out count) =
      let x = bus.read_block address out count l.inner in
      after_read_block-Logs address out x.1 count (x.0, x.2)
  exec-Logs bus (write_words address words count) =
      after_write_block-Logs address words count (bus.write_block address words count l.inner)

module _ {S : Type 0} (bus : Transport S) where
  -- The events of a program on the bare transport.
  unfoldable pub trace : {A : Type 0} → String → Program A → S → List Event
  trace test (return a) s = []
  trace test (call c k) s = let (r, s') = exec bus c s in events test c r ++ trace test (k r) s'

  module _ (now_ns : ℕ → ℕ) where
    -- Logging is transparent: a program gets the same replies through it, and leaves the
    -- transport inside in the same state.
    pub run_program-logged :
        {A : Type 0} (prog : Program A) (l : LoggedTransport S)
        → ((run_program (logged now_ns bus) prog l).0 ≡ (run_program bus prog l.inner).0)
          × ((run_program (logged now_ns bus) prog l).1.inner ≡ (run_program bus prog l.inner).1)
    run_program-logged =
        run_program_transparent (logged now_ns bus) bus (λ l. l.inner)
          (record {
            reply = λ c l. (exec-Logs now_ns l bus c).reply;
            inside = λ c l. (exec-Logs now_ns l bus c).inside;
          })

    -- The log grows by exactly one entry for each call that returns, in the order of the calls
    -- and under the current test's name, and by none for a call that throws.
    pub records-run_program :
        {A : Type 0} (prog : Program A) (l : LoggedTransport S)
        → map event (run_program (logged now_ns bus) prog l).1.log.records
          ≡ map event l.log.records ++ trace l.test prog l.inner
    unfolding run_program trace
    records-run_program (return a) l = sym (append-nil _)
    records-run_program {A} (call c k) l =
        let g = exec-Logs now_ns l bus c in
        let out = exec (logged now_ns bus) c l in
        let rest : String → Reply → S → List Event = λ t r s. trace {A = A} t (k r) s in
        records-run_program (k out.0) out.1
        ∙ ap (λ e. e ++ rest out.1.test out.0 out.1.inner) g.entries
        ∙ append_assoc (map event l.log.records) (events l.test c (exec bus c l.inner).0)
            (rest out.1.test out.0 out.1.inner)
        ∙ ap (λ e. map event l.log.records ++ (events l.test c (exec bus c l.inner).0 ++ e))
            (ap (λ t. rest t out.0 out.1.inner) g.test
              ∙ ap (λ r. rest l.test r out.1.inner) g.reply
              ∙ ap (rest l.test (exec bus c l.inner).0) g.inside)
