-- ===== src/Device/Write.antt =====
-- What `Write32` does to the storage: at the address itself, and everywhere else.
use soc_validation_framework.Prelude.{
  ℕ, ◌-◌, ◌^◌, ◌<◌, min, ◌≡◌, ◌≢◌, ◌∙◌, ap, fun_ext, some, ◌==◌, if◌then◌else◌, ==_ne, arith,
}
use soc_validation_framework.Word.{bit}
use soc_validation_framework.Device.{
  EmulatedDevice, Storage, tick, read32, write32, write_decoded, start_transfer, retrain, merge,
  store,
}
use soc_validation_framework.Device.Policy.{
  RegPolicy, dma_ctrl, dma_status, pcie_link_ctrl, pcie_link_status, policy_for,
  policy_for-IsPolicy,
}
use soc_validation_framework.Device.Merge.{bit-merge, merge_read_only}
use soc_validation_framework.Device.Valid.{IsValid, tick-IsValid}
use soc_validation_framework.Device.Access.{read32_decoded, write32_decoded}

module _ (p : RegPolicy) (address value : ℕ) (d : EmulatedDevice) where
  -- The side effects write to other registers than the one that causes them.
  pub write_decoded_self :
      (write_decoded p address value d).storage address ≡ merge p ((tick d).storage address) value
  unfolding write_decoded start_transfer retrain
  write_decoded_self = ground arith

  pub write_decoded_other :
      (b : ℕ)
      → b ≢ address
      → (b ≡ dma_status → address ≢ dma_ctrl)
      → (b ≡ pcie_link_status → address ≢ pcie_link_ctrl)
      → (write_decoded p address value d).storage b ≡ (tick d).storage b
  unfolding write_decoded start_transfer retrain
  write_decoded_other b other no_go no_retrain = ground arith

-- Digit by digit, a write to a decoded register clears the write-1-to-clear digits where the
-- written digit is 1, keeps the other digits of them, keeps the read-only digits, and stores the
-- written digit in the rest. The access ticks first, so "keeps" is said of the device after it.
pub bit-write32 :
    (address value i : ℕ) (d : EmulatedDevice) (p : RegPolicy)
    → policy_for address ≡ some p
    → IsValid d
    → value < 2 ^ 32
    → i < 32
    → bit i ((write32 address value d).1.storage address) ≡ (
        if bit i p.w1c_mask == 1
        then min (bit i ((tick d).storage address)) (1 - bit i value)
        else if bit i p.ro_mask == 1
        then bit i ((tick d).storage address)
        else bit i value)
bit-write32 address value i d p decoded v word below =
    rw (write32_decoded address value d decoded) (
      ap (bit i) (write_decoded_self p address value d)
      ∙ bit-merge p ((tick d).storage address) value (policy_for-IsPolicy address decoded)
          ((tick-IsValid d v).words address) word i below)

-- A write that no side effect ties to register `b` leaves it as the tick of the access left it:
-- only a write to the DMA control register reaches the DMA status, and only one to the link
-- control register the link status.
pub write32_frame :
    (address value b : ℕ) (d : EmulatedDevice) (p : RegPolicy)
    → policy_for address ≡ some p
    → b ≢ address
    → (b ≡ dma_status → address ≢ dma_ctrl)
    → (b ≡ pcie_link_status → address ≢ pcie_link_ctrl)
    → (write32 address value d).1.storage b ≡ (tick d).storage b
write32_frame address value b d p decoded other no_go no_retrain =
    rw (write32_decoded address value d decoded)
      (write_decoded_other p address value d b other no_go no_retrain)

store_same : (s : Storage) (address value : ℕ) → value ≡ s address → store s address value ≡ s
store_same s address value e = fun_ext λ a. ground arith

-- Writing to a register whose digits are all read-only does what reading it does to the device:
-- time moves by one tick, and nothing is stored.
pub write32_read_only :
    (address value : ℕ) (d : EmulatedDevice) (p : RegPolicy)
    → policy_for address ≡ some p
    → p.ro_mask ≡ 0xFFFFFFFF
    → p.w1c_mask ≡ 0
    → IsValid d
    → value < 2 ^ 32
    → (write32 address value d).1 ≡ (read32 address d).1
write32_read_only address value d p decoded ro w1c v word =
    rw (write32_decoded address value d decoded, read32_decoded address d (p, decoded))
      (quiet ∙ unchanged)
  where
    no_effect : (address ≢ dma_ctrl) × (address ≢ pcie_link_ctrl)
    no_effect = unfold policy_for in (ground arith, ground arith)

    quiet : write_decoded p address value d ≡ record (tick d) {
      storage = store (tick d).storage address (merge p ((tick d).storage address) value);
    }
    quiet =
        unfold write_decoded start_transfer retrain in
        rw (==_ne address dma_ctrl no_effect.0, ==_ne address pcie_link_ctrl no_effect.1)

    kept : merge p ((tick d).storage address) value ≡ (tick d).storage address
    kept =
        merge_read_only p ((tick d).storage address) value ro w1c ((tick-IsValid d v).words address)
          word

    unchanged :
        record (tick d) {
          storage = store (tick d).storage address (merge p ((tick d).storage address) value);
        }
        ≡ tick d
    unchanged = λ i. record (tick d) { storage = store_same (tick d).storage address _ kept i }
