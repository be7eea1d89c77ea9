-- ===== src/Word/Shift.antt =====
-- The digits of shifted and truncated words.
use native.Mathlib.Nat.{pow-suc, one-le-pow, div-div-eq-div-mul, mul_comm}
use soc_validation_framework.Prelude.{
  ℕ, zero, suc, ◌+◌, ◌-◌, ◌*◌, ◌/◌, ◌%◌, ◌^◌, ◌≤◌, ◌<◌, ◌≡◌, sym, ◌∙◌, ap, arith, leb, ltb,
  if◌then◌else◌,
}
use soc_validation_framework.Word.{bit}
use soc_validation_framework.Word.Bits.{bit-zero, bit-le-one, bit-bit_and, bit-complement}
use soc_validation_framework.Word.Fields.{bit_and_mask}

-- A word below `2^w` has no digit from `w` on.
pub bit_above : (w i x : ℕ) → x < 2 ^ w → w ≤ i → bit i x ≡ 0
unfolding bit
bit_above zero i zero h k = bit-zero i
bit_above zero i (suc x) h k = absurd (omega arith)
bit_above (suc w) zero x h k = absurd (omega arith)
bit_above (suc w) (suc i) x h k = bit_above w i (x / 2) (omega (arith, pow-suc 2 w)) (omega arith)

half_shl : (k x : ℕ) → x * 2 ^ suc k / 2 ≡ x * 2 ^ k
half_shl k x = omega (arith, ap (λ (t : ℕ). x * t) (pow-suc 2 k))

pub bit-shl : (k i x : ℕ) → bit i (x * 2 ^ k) ≡ (if leb k i then bit (i - k) x else 0)
unfolding bit
bit-shl zero i x = ground (arith, ap (bit i) (one_times x), ap (λ j. bit j x) (minus_zero i))
  where
    one_times : (x : ℕ) → x * 2 ^ 0 ≡ x
    one_times x = omega arith

    minus_zero : (i : ℕ) → i - 0 ≡ i
    minus_zero i = omega arith
bit-shl (suc k) zero x = ground (arith, ap (λ (t : ℕ). x * t) (pow-suc 2 k))
bit-shl (suc k) (suc i) x =
    let same : suc i - suc k ≡ i - k = omega arith in
    ground (arith, ap (bit i) (half_shl k x), bit-shl k i x, ap (λ j. bit j x) same)

half_shr : (k x : ℕ) → x / 2 ^ suc k ≡ x / 2 / 2 ^ k
half_shr k x =
    ap (λ (t : ℕ). x / t) (pow-suc 2 k ∙ mul_comm (2 ^ k) 2) ∙ sym (div-div-eq-div-mul x 2 (2 ^ k))

pub bit-shr : (k i x : ℕ) → bit i (x / 2 ^ k) ≡ bit (i + k) x
unfolding bit
bit-shr zero i x =
    let whole : x / 2 ^ 0 ≡ x = omega arith in
    let same : i ≡ i + 0 = omega arith in ap (bit i) whole ∙ ap (λ j. bit j x) same
bit-shr (suc k) i x =
    let same : suc (i + k) ≡ i + suc k = omega arith in
    ap (bit i) (half_shr k x) ∙ bit-shr k i (x / 2) ∙ ap (λ j. bit j x) same

pub bit-mask : (w i : ℕ) → bit i (2 ^ w - 1) ≡ (if ltb i w then 1 else 0)
bit-mask w i =
    let same : 2 ^ w - 1 - 0 ≡ 2 ^ w - 1 = omega arith in
    ground (
      arith,
      one-le-pow w 2,
      ap (bit i) same,
      bit-complement w i 0,
      bit-zero i,
      bit_above w i (2 ^ w - 1),
    )

pub bit-mod : (w i x : ℕ) → bit i (x % 2 ^ w) ≡ (if ltb i w then bit i x else 0)
bit-mod w i x = ground (
  arith,
  ap (bit i) (bit_and_mask w x),
  bit-bit_and i x (2 ^ w - 1),
  bit-mask w i,
  bit-le-one i x,
)
