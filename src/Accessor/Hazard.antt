-- ===== src/Accessor/Hazard.antt =====
-- Read-modify-write on a register with write-1-to-clear digits, against `WriteOnly`.
use soc_validation_framework.Prelude.{ℕ, ◌^◌, ◌<◌, ◌≡◌, ◌≢◌, some, arith}
use soc_validation_framework.Word.{bit}
use soc_validation_framework.Word.Bits.{bit-le-one, bit-zero, bit-bit_or}
use soc_validation_framework.Bus.{ok}
use soc_validation_framework.Device.{EmulatedDevice, emulated, tick, complete, write32}
use soc_validation_framework.Device.Policy.{RegPolicy, policy_for}
use soc_validation_framework.Device.Valid.{IsValid, tick-IsValid}
use soc_validation_framework.Device.Access.{read32_decoded, write32_decoded}
use soc_validation_framework.Device.Write.{bit-write32}
use soc_validation_framework.Registers.{Register, ro}
use soc_validation_framework.Accessor.{modify, write_only}

-- Register `reg` of the emulated device, and a write-1-to-clear digit `i` of it.
module _ (reg : Register) (writable : reg.access ≢ ro) (p : RegPolicy)
    (decoded : policy_for reg.address ≡ some p) (i : ℕ) (below : i < 32)
    (clears : bit i p.w1c_mask ≡ 1) (mutate : ℕ → ℕ) (d : EmulatedDevice) (v : IsValid d) where
  -- A tick clears no digit of the register: a status digit stays set until it is written.
  tick_keeps : bit i (d.storage reg.address) ≡ 1 → bit i ((tick d).storage reg.address) ≡ 1
  unfolding tick complete policy_for
  tick_keeps set = ground (
    arith,
    bit-bit_or i (d.storage 0x40000008) 1,
    bit-le-one i (d.storage 0x40000008),
    bit-le-one i 1,
    bit-zero i,
  )

  abbrev fetched : ℕ
  fetched = (tick d).storage reg.address

  modify-eq :
      modify emulated reg writable mutate d
      ≡ (ok (mutate fetched), (write32 reg.address (mutate fetched) (tick d)).1)
  unfolding modify
  modify-eq = ground (
    arith,
    read32_decoded reg.address d (p, decoded),
    write32_decoded reg.address (mutate fetched) (tick d) decoded,
  )

  write_only-eq :
      write_only emulated reg writable mutate d
      ≡ (ok (mutate reg.reset), (write32 reg.address (mutate reg.reset) d).1)
  unfolding write_only
  write_only-eq = ground (arith, write32_decoded reg.address (mutate reg.reset) d decoded)

  -- If the word that is read has digit `i` set, and the change leaves it as it was read, then
  -- the write-back clears it: a pending interrupt is lost, whatever was meant to be changed.
  pub modify_loses :
      bit i (d.storage reg.address) ≡ 1
      → ((raw : ℕ) → raw < 2 ^ 32 → mutate raw < 2 ^ 32)
      → ((raw : ℕ) → bit i (mutate raw) ≡ bit i raw)
      → bit i ((modify emulated reg writable mutate d).1.storage reg.address) ≡ 0
  modify_loses set words same =
      let ticked = tick-IsValid d v in
      rw modify-eq (
        ground (
          arith,
          bit-write32 reg.address (mutate fetched) i (tick d) p decoded ticked
              (words fetched (ticked.words reg.address)) below,
          same fetched,
          tick_keeps set,
          bit-le-one i ((tick (tick d)).storage reg.address),
        ))

  -- `WriteOnly` with a change that leaves digit `i` of the reset word 0 keeps a set digit.
  pub write_only_keeps :
      bit i (d.storage reg.address) ≡ 1
      → mutate reg.reset < 2 ^ 32
      → bit i (mutate reg.reset) ≡ 0
      → bit i ((write_only emulated reg writable mutate d).1.storage reg.address) ≡ 1
  write_only_keeps set word zero = rw write_only-eq (
      ground (
        arith,
        bit-write32 reg.address (mutate reg.reset) i d p decoded v word below,
        tick_keeps set,
      ))
