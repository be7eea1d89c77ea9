-- ===== src/Device/Policy.antt =====
-- The constants at the top of src/emulated_device.cpp and the policy table that the constructor
-- fills `policy_` with. No method changes `policy_`, so the table is a constant here.
use soc_validation_framework.Prelude.{
  ℕ, ◌+◌, ◌^◌, ◌<◌, ◌≡◌, arith, List, [], ◌∷◌, Option, none, some, ◌==◌, if◌then◌else◌,
}

abbrev pub dma_base : ℕ
dma_base = 0x40000000

abbrev pub dma_ctrl : ℕ
dma_ctrl = dma_base + 0x00

abbrev pub dma_status : ℕ
dma_status = dma_base + 0x04

abbrev pub dma_irq : ℕ
dma_irq = dma_base + 0x08

abbrev pub dma_xfer_len : ℕ
dma_xfer_len = dma_base + 0x14

abbrev pub pcie_base : ℕ
pcie_base = 0x50000000

abbrev pub pcie_link_status : ℕ
pcie_link_status = pcie_base + 0x00

abbrev pub pcie_link_ctrl : ℕ
pcie_link_ctrl = pcie_base + 0x04

abbrev pub pcie_err_status : ℕ
pcie_err_status = pcie_base + 0x08

abbrev pub ctrl_go : ℕ
ctrl_go = 1

abbrev pub status_idle : ℕ
status_idle = 1

abbrev pub status_busy : ℕ
status_busy = 2

abbrev pub status_done : ℕ
status_done = 4

abbrev pub irq_done : ℕ
irq_done = 1

pub record RegPolicy : Type 0 where
  pub reset : ℕ
  pub ro_mask : ℕ
  pub w1c_mask : ℕ

abbrev entry : ℕ → ℕ → ℕ → ℕ → ℕ × RegPolicy
entry address reset ro w1c = (address, record { reset = reset; ro_mask = ro; w1c_mask = w1c })

abbrev pub policy_table : List (ℕ × RegPolicy)
policy_table =
    entry dma_ctrl 0 0 0
    ∷ entry dma_status 1 0xFFFFFFFF 0
    ∷ entry dma_irq 0 0 7
    ∷ entry (dma_base + 0x0C) 0 0 0
    ∷ entry (dma_base + 0x10) 0 0 0
    ∷ entry dma_xfer_len 0 0 0
    ∷ entry pcie_link_status 0 0xFFFFFFFF 0
    ∷ entry pcie_link_ctrl 0 0 0
    ∷ entry pcie_err_status 0 0 7
    ∷ []

-- `policy_.find(address)`.
unfoldable pub find_policy : ℕ → List (ℕ × RegPolicy) → Option RegPolicy
find_policy address [] = none
find_policy address ((key, policy) ∷ rest) =
    if address == key then some policy else find_policy address rest

-- `PolicyFor`: `none` is its throw.
unfoldable pub policy_for : ℕ → Option RegPolicy
unfolding find_policy
policy_for address = find_policy address policy_table

-- Both masks of a policy are words.
pub record IsPolicy (p : RegPolicy) : Type 0 where
  pub reset_word : p.reset < 2 ^ 32
  pub ro_word : p.ro_mask < 2 ^ 32
  pub w1c_word : p.w1c_mask < 2 ^ 32

pub policy_for-IsPolicy : (address : ℕ) {p : RegPolicy} → policy_for address ≡ some p → IsPolicy p
unfolding policy_for
policy_for-IsPolicy address e = record {
  reset_word = ground arith;
  ro_word = ground arith;
  w1c_word = ground arith;
}
