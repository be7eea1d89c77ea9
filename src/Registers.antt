-- ===== src/Registers.antt =====
-- The typed register layer: `Access` of include/soc/register.hpp, the accessors that
-- tools/generate_registers.py emits for a field, and the registers of regmaps/soc.yaml. The
-- emitted C++ works on `uint32_t`; `raw` is the one word of a register value.
pub mod Fields
pub mod Generator
pub mod Map
pub mod Mirror
use soc_validation_framework.Prelude.{ℕ, ◌+◌, ◌-◌, ◌*◌, ◌^◌, ◌≤◌, ◌<◌, bit_and, bit_or, List}
use soc_validation_framework.Word.{u32, not32, shl32, shr}
use Prim.Native.String.{String}

pub data Access : Type 0 where
  rw' ro w1c : Access

pub record Field : Type 0 where
  pub label : String
  pub hi : ℕ
  pub lo : ℕ
  pub access : Access

-- A register struct: `kName`, `kAddress`, `kReset`, `kAccess`, and its fields.
pub record Register : Type 0 where
  pub name : String
  pub address : ℕ
  pub reset : ℕ
  pub access : Access
  pub fields : List Field

-- `mask` of the generator.
unfoldable pub mask : ℕ → ℕ → ℕ
mask hi lo = (2 ^ (hi - lo + 1) - 1) * 2 ^ lo

abbrev pub width : Field → ℕ
width f = f.hi - f.lo + 1

-- The emitted getter, `(raw & m) >> lo`.
unfoldable pub get : Field → ℕ → ℕ
get f raw = shr (bit_and raw (mask f.hi f.lo)) f.lo

-- The emitted setter, `(raw & ~m) | ((v << lo) & m)`. The literal of a mask that 32 bits do not hold
-- has a wider type, and the word takes the low 32 bits of the result. A shift by 32 or more is
-- undefined in C++.
unfoldable pub set : Field → ℕ → ℕ → ℕ
set f v raw =
    bit_or (bit_and raw (not32 (u32 (mask f.hi f.lo)))) (bit_and (shl32 v f.lo) (mask f.hi f.lo))

-- The emitted `clear_X` of a write-1-to-clear field, `raw |= m`.
unfoldable pub clear : Field → ℕ → ℕ
clear f raw = u32 (bit_or raw (mask f.hi f.lo))

-- A field within the word. `parse_bits` refuses a range with `hi < lo`.
pub record IsField (f : Field) : Type 0 where
  pub ordered : f.lo ≤ f.hi
  pub within : f.hi < 32
