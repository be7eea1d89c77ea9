-- ===== src/Bus/Program.antt =====
-- A caller of `ITransport`: a bring-up sequence that makes calls and goes on by what they return
-- or throw. The same program can run on any transport.
use soc_validation_framework.Prelude.{ℕ, suc, ◌≡◌, refl, ◌∙◌, ap}
use soc_validation_framework.Bus.{Result, Buffer, Transport}

pub data Command : Type 0 where
  read_word : (address : ℕ) → Command
  write_word : (address value : ℕ) → Command
  read_words : (address : ℕ) → Buffer → (count : ℕ) → Command
  write_words : (address : ℕ) → Buffer → (count : ℕ) → Command

-- What the caller sees of a call: the result, and for a block read the array.
pub data Reply : Type 0 where
  word : Result ℕ → Reply
  unit : Result (Unit {0}) → Reply
  block : Result (Unit {0}) → Buffer → Reply

pub data Program (A : Type 0) : Type 0 where
  return : A → Program A
  call : Command → (Reply → Program A) → Program A

module _ {S : Type 0} (bus : Transport S) where
  unfoldable pub exec : Command → S → Reply × S
  exec (read_word address) s = let (r, s') = bus.read32 address s in (word r, s')
  exec (write_word address value) s = let (r, s') = bus.write32 address value s in (unit r, s')
  exec (read_words address out count) s =
      let (r, out', s') = bus.read_block address out count s in (block r out', s')
  exec (write_words address words count) s =
      let (r, s') = bus.write_block address words count s in (unit r, s')

  unfoldable pub run_program : {A : Type 0} → Program A → S → A × S
  run_program (return a) s = (a, s)
  run_program (call c k) s = let (r, s') = exec c s in run_program (k r) s'

  -- How many calls the program makes.
  unfoldable pub calls : {A : Type 0} → Program A → S → ℕ
  calls (return a) s = 0
  calls (call c k) s = let (r, s') = exec c s in suc (calls (k r) s')

-- `outer` answers every call as `inner` does on the state that `view` finds inside.
pub record IsTransparent {S T : Type 0} (outer : Transport T) (inner : Transport S) (view : T → S)
    : Type 0 where
  pub reply : (c : Command) (t : T) → (exec outer c t).0 ≡ (exec inner c (view t)).0
  pub inside : (c : Command) (t : T) → view (exec outer c t).1 ≡ (exec inner c (view t)).1

module _ {S T A : Type 0} (outer : Transport T) (inner : Transport S) (view : T → S)
    (same : IsTransparent outer inner view) where
  -- No program can tell a transparent transport from the one inside, and it leaves that one in
  -- the state that it would have reached alone.
  pub run_program_transparent :
      (prog : Program A) (t : T)
      → ((run_program outer prog t).0 ≡ (run_program inner prog (view t)).0)
        × (view (run_program outer prog t).1 ≡ (run_program inner prog (view t)).1)
  unfolding run_program
  run_program_transparent (return a) t = (refl, refl)
  run_program_transparent (call c k) t =
      let (out, left) = run_program_transparent (k (exec outer c t).0) (exec outer c t).1 in
      let moved =
        ap (λ r. run_program inner (k r) (view (exec outer c t).1)) (same.reply c t)
        ∙ ap (run_program inner (k (exec inner c (view t)).0)) (same.inside c t) in
      (out ∙ ap (λ r. r.0) moved, left ∙ ap (λ r. r.1) moved)
