-- ===== src/Device/Access.antt =====
-- Sequences of bus accesses, and how one access changes the device.
use soc_validation_framework.Prelude.{
  ℕ, ◌≡◌, refl, inl, inr, List, [], ◌∷◌, none, some, Option-cases, arith,
}
use soc_validation_framework.Bus.{Exception, ok, err, transport_error}
use soc_validation_framework.Device.{
  EmulatedDevice, tick, require_policy, read32, write32, write_decoded,
}
use soc_validation_framework.Device.Policy.{RegPolicy, policy_for}

-- A call of `Read32` or `Write32`.
pub data Access : Type 0 where
  reads : (address : ℕ) → Access
  writes : (address value : ℕ) → Access

abbrev pub target : Access → ℕ
target (reads address) = address
target (writes address value) = address

-- The device after the call, whether it returned or threw.
unfoldable pub step : Access → EmulatedDevice → EmulatedDevice
step (reads address) d = (read32 address d).1
step (writes address value) d = (write32 address value d).1

unfoldable pub run : List Access → EmulatedDevice → EmulatedDevice
run [] d = d
run (a ∷ rest) d = run rest (step a d)

abbrev pub IsDecoded : ℕ → Type 0
IsDecoded address = (p : RegPolicy) × (policy_for address ≡ some p)

abbrev pub AllDecoded : List Access → Type 0
AllDecoded [] = Unit
AllDecoded (a ∷ rest) = IsDecoded (target a) × AllDecoded rest

pub read32_decoded :
    (address : ℕ) (d : EmulatedDevice)
    → IsDecoded address
    → read32 address d ≡ (ok ((tick d).storage address), tick d)
unfolding read32 require_policy
read32_decoded address d (p, e) = ground arith

pub write32_decoded :
    (address value : ℕ) (d : EmulatedDevice) {p : RegPolicy}
    → policy_for address ≡ some p
    → write32 address value d ≡ (ok tt, write_decoded p address value d)
unfolding write32 require_policy
write32_decoded address value d e = ground arith

abbrev pub not_decoded : ℕ → Exception
not_decoded address = transport_error "no register decoded at address" address

pub read32_undecoded :
    (address : ℕ) (d : EmulatedDevice)
    → policy_for address ≡ none
    → read32 address d ≡ (err (not_decoded address), d)
unfolding read32 require_policy
read32_undecoded address d e = ground arith

pub write32_undecoded :
    (address value : ℕ) (d : EmulatedDevice)
    → policy_for address ≡ none
    → write32 address value d ≡ (err (not_decoded address), d)
unfolding write32 require_policy
write32_undecoded address value d e = ground arith

-- An access that no register decodes leaves the device as it was; any other ticks once.
pub step_cases {ℓ} :
    (P : EmulatedDevice → Type ℓ) (a : Access) (d : EmulatedDevice)
    → P d
    → P (tick d)
    → ((address value : ℕ) (p : RegPolicy)
        → a ≡ writes address value
        → policy_for address ≡ some p
        → P (write_decoded p address value d))
    → P (step a d)
unfolding step
step_cases P (reads address) d same ticked written = elim (Option-cases (policy_for address)) [
  | inl e ↦ rw (step, read32_undecoded address d e) same
  | inr (p, e) ↦ rw (step, read32_decoded address d (p, e)) ticked
]
step_cases P (writes address value) d same ticked written =
    elim (Option-cases (policy_for address)) [
      | inl e ↦ rw (step, write32_undecoded address value d e) same
      | inr (p, e) ↦ rw (step, write32_decoded address value d e) (written address value p refl e)
    ]
