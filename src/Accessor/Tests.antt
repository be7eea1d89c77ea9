-- ===== src/Accessor/Tests.antt =====
-- The hazard and the register layer at concrete inputs.
use soc_validation_framework.Prelude.{◌%◌, ◌^◌, ◌≡◌, refl, ◌≢◌, [], ◌∷◌, arith}
use soc_validation_framework.Word.{bit}
use soc_validation_framework.Device.{
  EmulatedDevice, new, emulated, reset, tick, complete, read32, write32, write_decoded, merge,
  done_status, require_policy, start_transfer, retrain,
}
use soc_validation_framework.Device.Policy.{policy_for, dma_irq}
use soc_validation_framework.Device.Access.{reads, writes, run, step}
use soc_validation_framework.Device.Valid.{IsValid, run-new-IsValid}
use soc_validation_framework.Registers.{Field, ro, rw', w1c, get, set, clear, mask}
use mathlib.Core.Option
use soc_validation_framework.Registers.Map.{dma_irq_status, register_map}
use soc_validation_framework.Registers.Mirror.{policy_of, find_register, policy_for-register_map}
use soc_validation_framework.Accessor.{modify, write_only}
use soc_validation_framework.Accessor.Hazard.{modify_loses, write_only_keeps}
use soc_validation_framework.Registers.Fields.{bit-clear, clear-lt, get-set}

-- A transfer has completed, so DONE_IRQ is pending.
abbrev completed : EmulatedDevice
completed =
    run
      (writes 0x40000000 1
        ∷ reads 0x40000004
        ∷ reads 0x40000004
        ∷ reads 0x40000004
        ∷ reads 0x40000004
        ∷ reads 0x40000004
        ∷ reads 0x40000004
        ∷ reads 0x40000004
        ∷ reads 0x40000004
        ∷ [])
      new

program : Unit {0}
unfolding bit new reset tick complete read32 write32 write_decoded merge done_status require_policy
    policy_for start_transfer retrain run step modify write_only clear mask set get
program = tt

completed-IsValid : IsValid completed
completed-IsValid = run-new-IsValid _ (omega arith)

abbrev err_irq : Field
err_irq = record { label = "ERR_IRQ"; hi = 1; lo = 1; access = w1c }

abbrev burst_len : Field
burst_len = record { label = "BURST_LEN"; hi = 11; lo = 4; access = rw' }

abbrev channel : Field
channel = record { label = "CHANNEL"; hi = 15; lo = 12; access = rw' }

irq_writable : dma_irq_status.access ≢ ro
irq_writable e = cc

-- Clearing ERR_IRQ by `Modify` clears the pending DONE_IRQ.
modify_loses_example :
    bit 0
      ((modify emulated dma_irq_status irq_writable (clear err_irq) completed).1.storage dma_irq)
    ≡ 0
unfolding program
modify_loses_example =
    modify_loses dma_irq_status irq_writable _ refl 0 (omega arith) refl (clear err_irq) completed
      completed-IsValid refl (λ raw h. clear-lt err_irq raw)
      (λ raw. bit-clear err_irq 0 raw (omega arith) (omega arith))

-- Clearing it by `WriteOnly` does not.
write_only_keeps_example :
    bit 0 (
      (write_only emulated dma_irq_status irq_writable (clear err_irq) completed).1.storage dma_irq)
    ≡ 1
unfolding program
write_only_keeps_example =
    write_only_keeps dma_irq_status irq_writable _ refl 0 (omega arith) refl (clear err_irq)
      completed completed-IsValid refl (omega arith) refl

get-set_example : get burst_len (set burst_len 0x1FF 0xFFFFFFFF) ≡ 0x1FF % 2 ^ 8
get-set_example = get-set burst_len 0x1FF 0xFFFFFFFF (omega arith) (omega arith)

fields_of_ctrl : (set channel 3 (set burst_len 0xFF 0) ≡ 0x3FF0) × (get burst_len 0x3FF0 ≡ 0xFF)
unfolding program
fields_of_ctrl = (refl, refl)

policy_for-register_map_example :
    policy_for 0x40000008 ≡ Option.map policy_of (find_register 0x40000008 register_map)
policy_for-register_map_example = policy_for-register_map 0x40000008
