-- ===== src/Benchmark/Status.antt =====
-- The four fields of DMA_STATUS, read with their getters.
use soc_validation_framework.Prelude.{ℕ, ◌+◌, ◌*◌, ◌/◌, ◌%◌, ◌^◌, ◌<◌, ◌≡◌, refl, arith}
use soc_validation_framework.Word.Shift.{bit-shr, bit-mod}
use soc_validation_framework.Word.Bits.{bit_ext}
use soc_validation_framework.Registers.{Field, IsField, width, mask, get}
use soc_validation_framework.Registers.Fields.{bit-get, get-lt, trunc-lt}
use soc_validation_framework.Registers.Map.{done_field}

-- A getter divides by the weight of its lowest digit and keeps as many digits as the field has.
pub get-quotient :
    (f : Field) (raw : ℕ) → IsField f → raw < 2 ^ 32 → get f raw ≡ raw / 2 ^ f.lo % 2 ^ width f
get-quotient f raw h k = bit_ext 32 _ _ (get-lt f raw k) (trunc-lt f (raw / 2 ^ f.lo) h) λ i below.
    ground (arith, bit-get f i raw h, bit-mod (width f) i (raw / 2 ^ f.lo), bit-shr f.lo i raw)

pub done_busy : get done_field 2 ≡ 0
unfolding get mask
done_busy = refl

done-IsField : IsField done_field
done-IsField = record { ordered = omega arith; within = omega arith }

-- The status after a transfer of so many beats shows DONE.
pub done_rest : (beats : ℕ) → beats < 2 ^ 16 → get done_field (5 + beats * 256) ≡ 1
done_rest beats h =
    omega (arith, get-quotient done_field (5 + beats * 256) done-IsField (omega arith))
