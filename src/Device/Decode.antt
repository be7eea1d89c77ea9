-- ===== src/Device/Decode.antt =====
-- Which addresses the device answers, and what it does on the others.
use soc_validation_framework.Prelude.{
  ℕ, ◌≡◌, ◌⊎◌, inl, inr, none, some, arith, Option-cases, ◌≢◌, ap,
}
use soc_validation_framework.Bus.{ok, err}
use soc_validation_framework.Device.{EmulatedDevice, tick, read32, write32}
use soc_validation_framework.Device.Policy.{RegPolicy, policy_for}
use soc_validation_framework.Device.Access.{
  not_decoded, read32_decoded, read32_undecoded, write32_undecoded, write32_decoded,
}

-- The word is one of the nine registers of the map.
abbrev pub IsRegister : ℕ → Type 0
IsRegister a =
    (a ≡ 0x40000000)
    ⊎ (a ≡ 0x40000004)
    ⊎ (a ≡ 0x40000008)
    ⊎ (a ≡ 0x4000000C)
    ⊎ (a ≡ 0x40000010)
    ⊎ (a ≡ 0x40000014)
    ⊎ (a ≡ 0x50000000)
    ⊎ (a ≡ 0x50000004)
    ⊎ (a ≡ 0x50000008)

IsRegister-decoded : (a : ℕ) → IsRegister a → policy_for a ≢ none
unfolding policy_for
IsRegister-decoded a h = ground arith

decoded-IsRegister : (a : ℕ) (p : RegPolicy) → policy_for a ≡ some p → IsRegister a
unfolding policy_for
decoded-IsRegister a p e = ground arith

-- A read or a write of any address but the nine registers throws, names that address, and
-- leaves the device, its clock included, as it was.
pub undecoded_throws :
    (address value : ℕ) (d : EmulatedDevice)
    → ¬ IsRegister address
    → (read32 address d ≡ (err (not_decoded address), d))
      × (write32 address value d ≡ (err (not_decoded address), d))
undecoded_throws address value d h = elim (Option-cases (policy_for address)) [
  | inl e ↦ (read32_undecoded address d e, write32_undecoded address value d e)
  | inr (p, e) ↦ absurd (h (decoded-IsRegister address p e))
]

-- A read of a register returns the word that the device holds after the tick of the access, and
-- a write to one returns.
pub register_answers :
    (address value : ℕ) (d : EmulatedDevice)
    → IsRegister address
    → (read32 address d ≡ (ok ((tick d).storage address), tick d))
      × ((write32 address value d).0 ≡ ok tt)
register_answers address value d h = elim (Option-cases (policy_for address)) [
  | inl e ↦ absurd (IsRegister-decoded address h e)
  | inr (p, e) ↦
      (read32_decoded address d (p, e), ap (λ r. r.0) (write32_decoded address value d e))
]
