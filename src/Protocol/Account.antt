-- ===== src/Protocol/Account.antt =====
-- A protocol transport changes nothing but its own counters, and counts every call.
use soc_validation_framework.Prelude.{ℕ, ◌+◌, ◌^◌, ◌<◌, ◌≡◌, refl, ◌∙◌, ap, List, [], ◌∷◌, arith}
use mathlib.Core.List.{foldl}
use soc_validation_framework.Word.{u64}
use soc_validation_framework.Bus.{Transport}
use soc_validation_framework.Bus.Program.{
  Command, read_word, write_word, read_words, write_words, Reply, Program, return, call, exec,
  run_program, calls, IsTransparent, run_program_transparent,
}
use soc_validation_framework.Protocol.{
  Double, ProtocolCost, ProtocolTransport, ns_per_access, ns_per_block, charge, read32, write32,
  read_block, write_block, protocol,
}

module _ (f : Double) {S : Type 0} (device : Transport S) where
  exec_reply :
      (c : Command) (p : ProtocolTransport f S)
      → (exec (protocol f device) c p).0 ≡ (exec device c p.backing).0
  unfolding exec read32 write32 read_block write_block charge
  exec_reply (read_word address) p = refl
  exec_reply (write_word address value) p = refl
  exec_reply (read_words address out count) p = refl
  exec_reply (write_words address words count) p = refl

  exec_backing :
      (c : Command) (p : ProtocolTransport f S)
      → (exec (protocol f device) c p).1.backing ≡ (exec device c p.backing).1
  unfolding exec read32 write32 read_block write_block charge
  exec_backing (read_word address) p = refl
  exec_backing (write_word address value) p = refl
  exec_backing (read_words address out count) p = refl
  exec_backing (write_words address words count) p = refl

  exec_accesses :
      (c : Command) (p : ProtocolTransport f S)
      → (exec (protocol f device) c p).1.accesses ≡ u64 (p.accesses + 1)
  unfolding exec read32 write32 read_block write_block charge
  exec_accesses (read_word address) p = refl
  exec_accesses (write_word address value) p = refl
  exec_accesses (read_words address out count) p = refl
  exec_accesses (write_words address words count) p = refl

  abbrev backing_of : ProtocolTransport f S → S
  backing_of p = p.backing

  protocol-IsTransparent : IsTransparent (protocol f device) device backing_of
  protocol-IsTransparent = record { reply = exec_reply; inside = exec_backing }

  -- A program gets from a protocol transport what it gets from the device behind it, and leaves
  -- that device in the same state.
  pub run_program-protocol :
      {A : Type 0} (prog : Program A) (p : ProtocolTransport f S)
      → ((run_program (protocol f device) prog p).0 ≡ (run_program device prog p.backing).0)
        × ((run_program (protocol f device) prog p).1.backing
            ≡ (run_program device prog p.backing).1)
  run_program-protocol =
      run_program_transparent (protocol f device) device backing_of protocol-IsTransparent

  -- Each call of a program is counted once, a block as one and a throwing call like any other;
  -- the counter wraps at 2^64.
  pub accesses-run_program :
      {A : Type 0} (prog : Program A) (p : ProtocolTransport f S)
      → p.accesses < 2 ^ 64
      → (run_program (protocol f device) prog p).1.accesses
        ≡ u64 (p.accesses + calls device prog p.backing)
  unfolding run_program calls
  accesses-run_program (return a) p h = omega arith
  accesses-run_program {A} (call c k) p h =
      let q = (exec (protocol f device) c p).1 in
      let rest : Reply → S → ℕ = λ r s. calls device {A = A} (k r) s in
      let same =
        ap (λ r. rest r q.backing) (exec_reply c p)
        ∙ ap (rest (exec device c p.backing).0) (exec_backing c p) in
      omega (
        arith,
        accesses-run_program (k (exec (protocol f device) c p).0) q
            (omega (arith, exec_accesses c p)),
        same,
        exec_accesses c p,
      )

  -- What a call costs on the wire: a block pays the access once and a quarter of it per word.
  unfoldable pub price : ProtocolCost f → Command → f.Value
  price cost (read_word address) = ns_per_access f cost
  price cost (write_word address value) = ns_per_access f cost
  price cost (read_words address out count) = ns_per_block f cost count
  price cost (write_words address words count) = ns_per_block f cost count

  -- The prices of a program's calls, in order.
  unfoldable pub bill : {A : Type 0} → ProtocolCost f → Program A → S → List f.Value
  bill cost (return a) s = []
  bill cost (call c k) s = let (r, s') = exec device c s in price cost c ∷ bill cost (k r) s'

  exec_charge :
      (c : Command) (p : ProtocolTransport f S)
      → ((exec (protocol f device) c p).1.simulated_ns ≡ f.plus p.simulated_ns (price p.cost c))
        × ((exec (protocol f device) c p).1.cost ≡ p.cost)
  unfolding exec read32 write32 read_block write_block charge price
  exec_charge (read_word address) p = (refl, refl)
  exec_charge (write_word address value) p = (refl, refl)
  exec_charge (read_words address out count) p = (refl, refl)
  exec_charge (write_words address words count) p = (refl, refl)

  -- The simulated time grows by the price of every call, in order, also of a call that throws.
  pub simulated_ns-run_program :
      {A : Type 0} (prog : Program A) (p : ProtocolTransport f S)
      → (run_program (protocol f device) prog p).1.simulated_ns
        ≡ foldl f.plus p.simulated_ns (bill p.cost prog p.backing)
  unfolding run_program bill
  simulated_ns-run_program (return a) p = refl
  simulated_ns-run_program {A} (call c k) p =
      let q = (exec (protocol f device) c p).1 in
      let total : f.Value → ProtocolCost f → Reply → S → f.Value =
        λ t cost r s. foldl f.plus t (bill {A = A} cost (k r) s) in
      simulated_ns-run_program (k (exec (protocol f device) c p).0) q
      ∙ ap (λ t. total t q.cost (exec (protocol f device) c p).0 q.backing) (exec_charge c p).0
      ∙ ap
          (λ t.
            total (f.plus p.simulated_ns (price p.cost c)) t (exec (protocol f device) c p).0
              q.backing)
          (exec_charge c p).1
      ∙ ap (λ t. total (f.plus p.simulated_ns (price p.cost c)) p.cost t q.backing) (exec_reply c p)
      ∙ ap
          (λ t. total (f.plus p.simulated_ns (price p.cost c)) p.cost (exec device c p.backing).0 t)
          (exec_backing c p)
