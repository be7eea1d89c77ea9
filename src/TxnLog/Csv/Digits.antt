-- ===== src/TxnLog/Csv/Digits.antt =====
-- Numbers in a text are read back.
use native.Mathlib.Nat.{pow-suc}
use soc_validation_framework.Prelude.{
  ℕ, zero, suc, ◌+◌, ◌-◌, ◌*◌, ◌/◌, ◌%◌, ◌^◌, ◌≤◌, ◌<◌, ◌≡◌, sym, ◌∙◌, ap, [], ◌∷◌, Option, none,
  some, Bool, true, false, ◌&&◌, ◌||◌, ltb, leb, if◌then◌else◌, Bool-cases, inl, inr, arith,
}
use soc_validation_framework.TxnLog.Csv.{Text, digit, digits, dec, hex}

-- The value of a digit, in either base.
unfoldable pub digit_value : ℕ → ℕ
digit_value c = if ltb c 97 then c - 48 else c - 87

-- Is the code one of a digit of the base?
unfoldable pub is_digit : ℕ → ℕ → Bool
unfolding digit_value
is_digit base c = leb 48 c && (ltb c 58 || leb 97 c) && ltb (digit_value c) base

-- The number that digits spell behind `n`.
unfoldable pub read_number : ℕ → Text → ℕ → Option ℕ
unfolding is_digit
read_number base [] n = some n
read_number base (c ∷ cs) n =
    if is_digit base c then read_number base cs (n * base + digit_value c) else none

digit_lem :
    (base d : ℕ)
    → d < base
    → base ≤ 16
    → (is_digit base (digit d) ≡ true) × (digit_value (digit d) ≡ d)
unfolding is_digit digit_value digit
digit_lem base d h k = ground arith

digits_last :
    (fuel base n : ℕ) (out : Text)
    → ltb n base ≡ true
    → digits (suc fuel) base n out ≡ digit n ∷ out
unfolding digits
digits_last fuel base n out e = rw (e, digits)

digits_more :
    (fuel base n : ℕ) (out : Text)
    → ltb n base ≡ false
    → digits (suc fuel) base n out ≡ digits fuel base (n / base) (digit (n % base) ∷ out)
unfolding digits
digits_more fuel base n out e = rw (e, digits)

-- A base that numbers are printed in.
module _ (base : ℕ) (small : base ≤ 16) (whole : (n : ℕ) → n / base * base + n % base ≡ n)
    (rest : (n : ℕ) → n % base < base) (shrinks : (n : ℕ) → n / base ≤ n / 2) where
  read_number-digit :
      (d n : ℕ) (out : Text)
      → d < base
      → read_number base (digit d ∷ out) n ≡ read_number base out (n * base + d)
  unfolding read_number
  read_number-digit d n out h = ground (arith, digit_lem base d h small)

  pub read_number-digits :
      (fuel n : ℕ) (out : Text)
      → n < 2 ^ fuel
      → read_number base (digits fuel base n out) 0 ≡ read_number base out n
  unfolding digits
  read_number-digits zero n out h =
      let none_left : n ≡ 0 = omega arith in ap (read_number base out) (sym none_left)
  read_number-digits (suc fuel) n out h = elim (Bool-cases (ltb n base)) [
    | inl e ↦
        let same : 0 * base + n ≡ n = omega arith in
        ap (λ ds. read_number base ds 0) (digits_last fuel base n out e)
        ∙ read_number-digit n 0 out (ground arith)
        ∙ ap (read_number base out) same
    | inr e ↦
        ap (λ ds. read_number base ds 0) (digits_more fuel base n out e)
        ∙ read_number-digits fuel (n / base) (digit (n % base) ∷ out)
            (omega (arith, shrinks n, pow-suc 2 fuel))
        ∙ read_number-digit (n % base) (n / base) out (rest n)
        ∙ ap (read_number base out) (whole n)
  ]

-- A word of 64 bits is read back from its print, in both bases.
pub read_number-dec : (n : ℕ) → n < 2 ^ 64 → read_number 10 (dec n) 0 ≡ some n
unfolding read_number
read_number-dec n h =
    read_number-digits 10 (omega arith) (λ n. omega arith) (λ n. omega arith) (λ n. omega arith) 64
      n [] h

pub read_number-hex : (n : ℕ) → n < 2 ^ 64 → read_number 16 (hex n) 0 ≡ some n
unfolding read_number
read_number-hex n h =
    read_number-digits 16 (omega arith) (λ n. omega arith) (λ n. omega arith) (λ n. omega arith) 64
      n [] h
