-- ===== src/Accessor.antt =====
-- `RegisterAccessor` of include/soc/register.hpp, over any transport. The `static_assert` of
-- `Write` is the argument that the register is not read-only.
pub mod Hazard
pub mod Tests
use soc_validation_framework.Prelude.{ℕ, ◌≢◌}
use soc_validation_framework.Bus.{M, ◌>>=◌, ◌>>◌, pure, Transport}
use soc_validation_framework.Registers.{Register, ro}

module _ {S : Type 0} (bus : Transport S) (reg : Register) where
  unfoldable pub read : M S ℕ
  read = bus.read32 reg.address

  unfoldable pub write : reg.access ≢ ro → ℕ → M S (Unit {0})
  write writable raw = bus.write32 reg.address raw

  -- `Modify`: read, change the word, write it back.
  unfoldable pub modify : reg.access ≢ ro → (ℕ → ℕ) → M S ℕ
  unfolding read write
  modify writable mutate = do raw ← read; write writable (mutate raw); pure (mutate raw)

  -- `WriteOnly`: change the reset word and write it, with no read.
  unfoldable pub write_only : reg.access ≢ ro → (ℕ → ℕ) → M S ℕ
  unfolding write
  write_only writable mutate = do write writable (mutate reg.reset); pure (mutate reg.reset)
