-- ===== src/Device/Tests.antt =====
-- Runs of the emulated device on small inputs, and the theorems at such inputs.
use soc_validation_framework.Prelude.{
  ℕ, ◌+◌, ◌-◌, ◌*◌, min, ◌≡◌, refl, true, some, List, [], ◌∷◌, arith, ◌==◌, if◌then◌else◌,
}
use soc_validation_framework.Word.{bit}
use soc_validation_framework.Bus.{Result, ok, err}
use soc_validation_framework.Device.{
  EmulatedDevice, new, reset, set_transfer_latency, tick, complete, read32, write32, write_decoded,
  merge, done_status, require_policy, read_block, write_block, start_transfer, retrain, link_up,
}
use soc_validation_framework.Device.Policy.{
  policy_for, dma_ctrl, dma_status, dma_irq, dma_xfer_len, pcie_link_status, pcie_link_ctrl,
}
use soc_validation_framework.Device.Access.{
  Access, reads, writes, run, step, not_decoded, AllDecoded,
}
use soc_validation_framework.Device.Status.{beats_of}
use soc_validation_framework.Device.Valid.{IsValid, run-new-IsValid, new-IsValid}
use soc_validation_framework.Device.Write.{bit-write32}
use soc_validation_framework.Device.Overflow.{wrapped_completes}
use soc_validation_framework.Device.Dma.{IsDone, go_is_busy, go_completes}
use soc_validation_framework.Device.Block.Read.{IsBurst, read_block-IsBurst}
use soc_validation_framework.Device.Block.Write.{IsWriteBurst, write_block-IsWriteBurst}
use soc_validation_framework.Device.Decode.{undecoded_throws}
use soc_validation_framework.Device.Reset.{reset-run}

program : Unit {0}
unfolding new reset set_transfer_latency tick complete read32 write32 write_decoded merge
    done_status require_policy policy_for read_block write_block start_transfer retrain link_up run
    step
program = tt

-- A transfer of 64 bytes with latency 5, as in tests/test_all.cpp.
abbrev transfer : List Access
transfer = writes dma_xfer_len 64 ∷ writes dma_ctrl 0x81 ∷ []

abbrev polls : List Access
polls = reads dma_status ∷ reads dma_status ∷ reads dma_status ∷ reads dma_status ∷ []

abbrev quick : EmulatedDevice
quick = set_transfer_latency 5 new

busy_then_done :
    ((read32 dma_status (run transfer quick)).0 ≡ ok 2)
    × ((read32 dma_status (run polls (run transfer quick))).0 ≡ ok 0x1005)
unfolding program
busy_then_done = (refl, refl)

retrain_at_gen3 : (read32 pcie_link_status (run (writes pcie_link_ctrl 7 ∷ []) new)).0 ≡ ok 0x4107
unfolding program
retrain_at_gen3 = refl

block_from_ctrl : (read_block dma_ctrl (some (9 ∷ 9 ∷ 9 ∷ [])) 2 new).1 ≡ some (0 ∷ 1 ∷ 9 ∷ [])
unfolding program
block_from_ctrl = refl

-- The theorems at concrete inputs.
quick-IsValid : IsValid quick
unfolding set_transfer_latency
quick-IsValid = record {
  words = new-IsValid.words;
  clock = new-IsValid.clock;
  busy = new-IsValid.busy;
  rest = new-IsValid.rest;
  link = new-IsValid.link;
}

abbrev watch : List Access
watch = reads dma_irq ∷ reads dma_irq ∷ reads dma_irq ∷ reads dma_irq ∷ []

watch-AllDecoded : AllDecoded watch
unfolding policy_for
watch-AllDecoded = ((_, refl), ((_, refl), ((_, refl), ((_, refl), tt))))

abbrev before : EmulatedDevice
before = run watch (write32 dma_ctrl 1 quick).1

go_is_busy_example : (before.dma_running ≡ true) × (before.storage dma_status ≡ 2)
unfolding program
go_is_busy_example =
    go_is_busy quick 1 quick-IsValid (omega arith) (omega arith) refl (omega arith) watch
      watch-AllDecoded (omega arith) (omega arith)

go_completes_example :
    let after = read32 dma_status before in
    (after.0 ≡ ok (5 + beats_of (before.storage dma_xfer_len) * 256)) × IsDone before after.1
unfolding program
go_completes_example =
    go_completes quick 1 quick-IsValid (omega arith) (omega arith) refl (omega arith) watch
      watch-AllDecoded (omega arith) (omega arith)

run-new-IsValid_example : IsValid (run transfer new)
run-new-IsValid_example = run-new-IsValid transfer (omega arith)

bit-write32_example : bit 0 ((write32 dma_irq 1 new).1.storage dma_irq) ≡ (
    if bit 0 7 == 1
    then min (bit 0 ((tick new).storage dma_irq)) (1 - bit 0 1)
    else if bit 0 0 == 1
    then bit 0 ((tick new).storage dma_irq)
    else bit 0 1)
unfolding policy_for
bit-write32_example = bit-write32 dma_irq 1 0 new _ refl new-IsValid (omega arith) (omega arith)

read_block-IsBurst_example :
    (out' : List ℕ) × (d' : EmulatedDevice) × (r : Result (Unit {0})) × (read_block pcie_link_ctrl
        (some (9 ∷ 9 ∷ 9 ∷ []))
        3
        new
      ≡ (r, some out', d'))
    × IsBurst 3 0 pcie_link_ctrl (9 ∷ 9 ∷ 9 ∷ []) new (r, out', d')
read_block-IsBurst_example = read_block-IsBurst pcie_link_ctrl 3 (9 ∷ 9 ∷ 9 ∷ []) new (omega arith)

write_block-IsWriteBurst_example :
    IsWriteBurst 2 0 dma_ctrl (1 ∷ 5 ∷ []) new (write_block dma_ctrl (some (1 ∷ 5 ∷ [])) 2 new)
write_block-IsWriteBurst_example =
    write_block-IsWriteBurst dma_ctrl 2 (1 ∷ 5 ∷ []) new (omega arith)

undecoded_throws_example :
    (read32 0xDEADBEEF new ≡ (err (not_decoded 0xDEADBEEF), new))
    × (write32 0xDEADBEEF 1 new ≡ (err (not_decoded 0xDEADBEEF), new))
undecoded_throws_example = undecoded_throws 0xDEADBEEF 1 new (λ h. omega arith)

reset-run_example : reset (run transfer quick) ≡ quick
reset-run_example = reset-run 5 transfer

-- The largest latency.
abbrev endless : EmulatedDevice
endless = set_transfer_latency 0xFFFFFFFFFFFFFFFF new

wrapped_completes_example :
    let begun = (write32 dma_ctrl 1 endless).1 in
    let after = read32 dma_status begun in
    (after.0 ≡ ok (5 + beats_of (begun.storage dma_xfer_len) * 256)) × IsDone begun after.1
unfolding program
wrapped_completes_example =
    wrapped_completes endless 1 (omega arith) refl (omega arith) (omega arith) (omega arith)
