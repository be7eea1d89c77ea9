-- ===== src/Registers/Mirror.antt =====
-- The policy table of the emulated device against the register map.
use mathlib.Core.Option
use soc_validation_framework.Prelude.{
  ℕ, ◌≡◌, List, [], ◌∷◌, Option, none, some, arith, bit_or, ◌==◌, if◌then◌else◌,
}
use soc_validation_framework.Device.Policy.{RegPolicy, policy_for}
use soc_validation_framework.Registers.{Register, Field, ro, w1c, mask}
use soc_validation_framework.Registers.Map.{register_map}

-- The digits of the fields with access W1C.
pub w1c_digits : List Field → ℕ
w1c_digits [] = 0
w1c_digits (f ∷ fs) = elim f.access [
  | w1c ↦ bit_or (mask f.hi f.lo) (w1c_digits fs)
  | _ ↦ w1c_digits fs
]

-- What the databook says of a register: a read-only register ignores writes to every digit.
pub policy_of : Register → RegPolicy
policy_of r = record {
  reset = r.reset;
  ro_mask = elim r.access [ ro ↦ 0xFFFFFFFF | _ ↦ 0 ];
  w1c_mask = w1c_digits r.fields;
}

pub find_register : ℕ → List Register → Option Register
find_register address [] = none
find_register address (r ∷ rest) =
    if address == r.address then some r else find_register address rest

-- The device decodes exactly the addresses of the register map, each with the reset value, the
-- read-only digits and the write-1-to-clear digits that the map gives the register there.
pub policy_for-register_map :
    (address : ℕ) → policy_for address ≡ Option.map policy_of (find_register address register_map)
unfolding policy_for find_register policy_of w1c_digits mask
policy_for-register_map address = ground arith
