-- ===== src/Word/Fields.antt =====
-- Masks of low digits, and words put together from disjoint fields, as arithmetic.
use native.Mathlib.Nat.{pow-suc, one-le-pow, div-div-eq-div-mul, div-add-mod, mul_comm}
use Prim.Native.Nat.{bit_or-bitwise}
use soc_validation_framework.Prelude.{
  ℕ, zero, suc, ◌+◌, ◌-◌, ◌*◌, ◌/◌, ◌%◌, ◌^◌, ◌<◌, bit_and, bit_or, ◌≡◌, refl, ◌∙◌, ap, arith,
}
use soc_validation_framework.Word.Step.{bit_and_step, bit_or_step}

and_nothing : (fuel a : ℕ) → a < fuel → bit_and a 0 ≡ 0
and_nothing zero a h = absurd (omega arith)
and_nothing (suc fuel) zero h = refl
and_nothing (suc fuel) (suc a) h =
    omega (arith, bit_and_step (suc a) 0, and_nothing fuel (suc a / 2) (omega arith))

half_mask : (w : ℕ) → (2 ^ suc w - 1) / 2 ≡ 2 ^ w - 1
half_mask w = omega (arith, pow-suc 2 w, one-le-pow w 2)

mod_double : (m a : ℕ) → a % (2 * m) ≡ a / 2 % m * 2 + a % 2
mod_double m a = omega (
  arith,
  div-div-eq-div-mul a 2 m,
  ap (λ (t : ℕ). m * t) (div-div-eq-div-mul a 2 m),
  div-add-mod a (2 * m),
  div-add-mod (a / 2) m,
)

pub bit_and-zero : (a : ℕ) → bit_and a 0 ≡ 0
bit_and-zero a = and_nothing (suc a) a (omega arith)

-- `a & (2^w - 1)` keeps the `w` low digits.
pub bit_and_mask : (w a : ℕ) → bit_and a (2 ^ w - 1) ≡ a % 2 ^ w
bit_and_mask zero a = omega (arith, and_nothing (suc a) a)
bit_and_mask (suc w) a = omega (
  arith,
  pow-suc 2 w,
  one-le-pow w 2,
  bit_and_step a (2 ^ suc w - 1),
  ap (bit_and (a / 2)) (half_mask w),
  bit_and_mask w (a / 2),
  ap (λ (t : ℕ). a % t) (pow-suc 2 w ∙ mul_comm (2 ^ w) 2),
  mod_double (2 ^ w) a,
)

or_nothing : (fuel b : ℕ) → b < fuel → bit_or b 0 ≡ b
or_nothing zero b h = absurd (omega arith)
or_nothing (suc fuel) zero h = refl
or_nothing (suc fuel) (suc b) h =
    omega (arith, bit_or_step (suc b) 0, or_nothing fuel (suc b / 2) (omega arith))

pub bit_or-zero : (b : ℕ) → bit_or b 0 ≡ b
bit_or-zero b = or_nothing (suc b) b (omega arith)

-- A word below `2^k` and one above it do not overlap.
pub bit_or_above : (k low high : ℕ) → low < 2 ^ k → bit_or low (high * 2 ^ k) ≡ low + high * 2 ^ k
bit_or_above zero zero high h = bit_or-bitwise 0 (high * 1) ∙ omega arith
bit_or_above zero (suc low) high h = absurd (omega arith)
bit_or_above (suc k) low high h = omega (
  arith,
  bit_or_step low (high * 2 ^ suc k),
  double high k,
  ap (bit_or (low / 2)) (half high k),
  bit_or_above k (low / 2) high (omega (arith, pow-suc 2 k)),
)
  where
    double : (high k : ℕ) → high * 2 ^ suc k ≡ 2 * (high * 2 ^ k)
    double high k = omega (arith, ap (λ (t : ℕ). high * t) (pow-suc 2 k))

    half : (high k : ℕ) → high * 2 ^ suc k / 2 ≡ high * 2 ^ k
    half high k = omega (arith, double high k)

pub two_pow-add : (a b : ℕ) → 2 ^ (a + b) ≡ 2 ^ a * 2 ^ b
two_pow-add zero b =
    let same : zero + b ≡ b = omega arith in ap (λ (t : ℕ). 2 ^ t) same ∙ omega arith
two_pow-add (suc a) b =
    let same : suc a + b ≡ suc (a + b) = omega arith in
    ap (λ (t : ℕ). 2 ^ t) same
    ∙ pow-suc 2 (a + b)
    ∙ omega (arith, two_pow-add a b, ap (λ (t : ℕ). t * 2 ^ b) (pow-suc 2 a))
