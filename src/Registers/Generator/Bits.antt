-- ===== src/Registers/Generator/Bits.antt =====
-- `parse_bits` reads the ranges of bits that a databook writes.
use soc_validation_framework.Prelude.{
  ℕ, zero, suc, ◌/◌, ◌%◌, ◌^◌, ◌<◌, ◌≡◌, refl, ◌∙◌, ap, [], ◌∷◌, ◌++◌, true, false, Option, none,
  some, ltb, if◌then◌else◌, ◌==◌, ==_iff, inl, inr, Bool-cases, arith,
}
use soc_validation_framework.TxnLog.Csv.{Text, digit, digits, dec}
use soc_validation_framework.TxnLog.Csv.Split.{
  split, lacks, split-append, split_whole, lacks-append,
}
use soc_validation_framework.Registers.Generator.{
  ℤ, pos, ltℤ, colon, two_ends, one_end, checked, parse_bits,
}

-- Decimal digits are no colons.
lacks-digits_ten : (fuel n : ℕ) (out : Text) → lacks colon (digits fuel 10 n out) ≡ lacks colon out
unfolding digits lacks digit
lacks-digits_ten zero n out = refl
lacks-digits_ten (suc fuel) n out =
    ground (arith, lacks-digits_ten fuel (n / 10) (digit (n % 10) ∷ out))

lacks-dec : (n : ℕ) → lacks colon (dec n) ≡ true
unfolding lacks
lacks-dec n = lacks-digits_ten 64 n []

-- How a databook writes a range of bits.
unfoldable pub bits_text : ℕ → ℕ → Text
bits_text hi lo = if hi == lo then dec hi else dec hi ++ colon ∷ dec lo

module _ (int_of : Text → Option ℤ)
    (reads : (n : ℕ) → n < 2 ^ 64 → int_of (dec n) ≡ some (pos n)) where
  parse_one : (n : ℕ) → n < 2 ^ 64 → parse_bits int_of (dec n) ≡ some (pos n, pos n)
  unfolding parse_bits one_end checked ltℤ
  parse_one n h = ground (arith, lacks-dec n, reads n h)

  lacks-range : (hi lo : ℕ) → lacks colon (dec hi ++ colon ∷ dec lo) ≡ false
  unfolding lacks
  lacks-range hi lo = ground (arith, lacks-append colon (dec hi) (colon ∷ dec lo))

  split-range : (hi lo : ℕ) → split colon (dec hi ++ colon ∷ dec lo) ≡ dec hi ∷ dec lo ∷ []
  split-range hi lo =
      split-append colon (dec hi) (dec lo) (lacks-dec hi)
      ∙ ap (λ rest. dec hi ∷ rest) (split_whole colon (dec lo) (lacks-dec lo))

  parse_two :
      (hi lo : ℕ)
      → hi < 2 ^ 64
      → lo < 2 ^ 64
      → parse_bits int_of (dec hi ++ colon ∷ dec lo)
        ≡ (if ltb hi lo then none else some (pos hi, pos lo))
  unfolding parse_bits two_ends checked ltℤ
  parse_two hi lo h l = ground (arith, lacks-range hi lo, split-range hi lo, reads hi h, reads lo l)

  -- A range of bits that a databook writes as a number, or as two with a colon, is read back as its
  -- two ends; one whose first number is the smaller is refused.
  pub parse_bits-bits_text :
      (hi lo : ℕ)
      → hi < 2 ^ 64
      → lo < 2 ^ 64
      → parse_bits int_of (bits_text hi lo) ≡ (if ltb hi lo then none else some (pos hi, pos lo))
  unfolding bits_text
  parse_bits-bits_text hi lo h l = elim (Bool-cases (hi == lo)) [
    | inl e ↦ ground (arith, parse_one hi h, (==_iff hi lo).0 e)
    | inr e ↦ ground (arith, parse_two hi lo h l)
  ]
