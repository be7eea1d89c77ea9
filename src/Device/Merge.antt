-- ===== src/Device/Merge.antt =====
-- What a write stores, digit by digit.
use soc_validation_framework.Prelude.{
  ℕ, ◌-◌, ◌^◌, ◌<◌, min, max, bit_and, bit_or, ◌≡◌, inl, inr, arith, ◌==◌, ==_iff, ap,
  if◌then◌else◌, Bool-cases,
}
use soc_validation_framework.Word.{bit, not32}
use soc_validation_framework.Word.Bits.{
  bit-le-one, bit-zero, bit-bit_and, bit-bit_or, bit-not32, bit_and-le, bit_or-lt,
}
use soc_validation_framework.Word.Fields.{bit_and_mask, bit_and-zero, bit_or-zero}
use soc_validation_framework.Device.{merge}
use soc_validation_framework.Device.Policy.{RegPolicy, IsPolicy}

pub not32-lt : (x : ℕ) → not32 x < 2 ^ 32
not32-lt x = omega arith

module _ (p : RegPolicy) (current value : ℕ) (masks : IsPolicy p) (cur_word : current < 2 ^ 32)
    (val_word : value < 2 ^ 32) where
  abbrev cleared : ℕ
  cleared = bit_and current (not32 (bit_and value p.w1c_mask))

  bit-cleared :
      (i : ℕ)
      → i < 32
      → bit i cleared ≡ min (bit i current) (1 - min (bit i value) (bit i p.w1c_mask))
  bit-cleared i h = ground (
    arith,
    bit-bit_and i current (not32 (bit_and value p.w1c_mask)),
    bit-bit_and i value p.w1c_mask,
    bit-not32 i (bit_and value p.w1c_mask),
    bit_and-le 32 value p.w1c_mask,
  )

  abbrev fixed : ℕ
  fixed = bit_or p.ro_mask p.w1c_mask

  bit-merge_cleared :
      (i c : ℕ)
      → i < 32
      → bit i (bit_or (bit_and c (not32 (not32 fixed))) (bit_and value (not32 fixed)))
        ≡ max (min (bit i c) (bit i fixed)) (min (bit i value) (1 - bit i fixed))
  bit-merge_cleared i c h = ground (
    arith,
    bit-bit_or i (bit_and c (not32 (not32 fixed))) (bit_and value (not32 fixed)),
    bit-bit_and i c (not32 (not32 fixed)),
    bit-bit_and i value (not32 fixed),
    bit-not32 i (not32 fixed),
    bit-not32 i fixed,
    bit_or-lt 32 p.ro_mask p.w1c_mask,
    bit-le-one i fixed,
  )

  -- Digit by digit: a write-1-to-clear digit is cleared by a 1 and kept by a 0, a read-only digit
  -- is kept, and any other takes the written value. Where the masks overlap, clearing wins.
  pub bit-merge :
      (i : ℕ)
      → i < 32
      → bit i (merge p current value) ≡ (
          if bit i p.w1c_mask == 1
          then min (bit i current) (1 - bit i value)
          else if bit i p.ro_mask == 1
          then bit i current
          else bit i value)
  unfolding merge
  bit-merge i h = elim (Bool-cases (p.w1c_mask == 0)) [
    | inl none_set ↦
        rw (none_set, merge)
          (ground (
            arith,
            bit-merge_cleared i current,
            bit-bit_or i p.ro_mask p.w1c_mask,
            bit-zero i,
            ap (bit i) ((==_iff p.w1c_mask 0).0 none_set),
            bit-le-one i p.w1c_mask,
            bit-le-one i p.ro_mask,
            bit-le-one i value,
            bit-le-one i current,
          ))
    | inr some_set ↦
        rw (some_set, merge)
          (ground (
            arith,
            bit-merge_cleared i cleared,
            bit-cleared i,
            bit-bit_or i p.ro_mask p.w1c_mask,
            bit-le-one i p.w1c_mask,
            bit-le-one i p.ro_mask,
            bit-le-one i value,
            bit-le-one i current,
          ))
  ]

bit_or_and-lt :
    (c m v n : ℕ) → c < 2 ^ 32 → v < 2 ^ 32 → bit_or (bit_and c m) (bit_and v n) < 2 ^ 32
bit_or_and-lt c m v n h k =
    bit_or-lt 32 (bit_and c m) (bit_and v n) (omega (arith, bit_and-le 32 c m h))
      (omega (arith, bit_and-le 32 v n k))

-- The result is a word again.
pub merge-lt :
    (p : RegPolicy) (current value : ℕ)
    → current < 2 ^ 32
    → value < 2 ^ 32
    → merge p current value < 2 ^ 32
unfolding merge
merge-lt p current value h k = elim (Bool-cases (p.w1c_mask == 0)) [
  | inl e ↦ rw (e, merge) (bit_or_and-lt current _ value _ h k)
  | inr e ↦
      rw (e, merge)
        (bit_or_and-lt (bit_and current (not32 (bit_and value p.w1c_mask))) _ value _
          (omega (arith, bit_and-le 32 current (not32 (bit_and value p.w1c_mask)) h)) k)
]

-- A register whose digits are all read-only keeps its word.
pub merge_read_only :
    (p : RegPolicy) (current value : ℕ)
    → p.ro_mask ≡ 0xFFFFFFFF
    → p.w1c_mask ≡ 0
    → current < 2 ^ 32
    → value < 2 ^ 32
    → merge p current value ≡ current
unfolding merge
merge_read_only p current value ro w1c h k = ground (
  arith,
  bit_or-zero 0xFFFFFFFF,
  bit_and_mask 32 current,
  bit_and-zero value,
  bit_or-zero current,
)
