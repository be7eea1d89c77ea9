-- ===== src/Word/Step.antt =====
-- The native bit operations by their lowest digit. They stand for a recursion on digits whose fuel
-- is the first argument; fuel to spare changes nothing, so each halving may keep its own.
use Prim.Native.Nat.{digits, bit_and-bitwise, bit_or-bitwise}
use soc_validation_framework.Prelude.{
  ℕ, zero, suc, ◌+◌, ◌*◌, ◌-◌, ◌/◌, ◌%◌, ◌≤◌, min, max, bit_and, bit_or, ◌≡◌, refl, ap, ◌∙◌, arith,
}

more : ℕ → ℕ → ℕ
more zero fuel = fuel
more (suc gap) fuel = suc (more gap fuel)

more_eq : (gap fuel : ℕ) → more gap fuel ≡ gap + fuel
unfolding more
more_eq zero fuel = omega arith
more_eq (suc gap) fuel = omega (arith, more_eq gap fuel)

module _ (last : ℕ → ℕ) (op : ℕ → ℕ → ℕ) where
  one_more : (x fuel y : ℕ) → x ≤ fuel → digits last op (suc fuel) x y ≡ digits last op fuel x y
  one_more zero zero y h = refl
  one_more zero (suc fuel) y h = refl
  one_more (suc x) zero y h = absurd (omega arith)
  one_more (suc x) (suc fuel) y h =
      ap (λ high. high * 2 + op (suc x % 2) (y % 2))
        (one_more (suc x / 2) fuel (y / 2) (omega arith))

  spare_fuel :
      (gap x fuel y : ℕ) → x ≤ fuel → digits last op (more gap fuel) x y ≡ digits last op fuel x y
  unfolding more
  spare_fuel zero x fuel y h = refl
  spare_fuel (suc gap) x fuel y h =
      one_more x (more gap fuel) y (omega (arith, more_eq gap fuel)) ∙ spare_fuel gap x fuel y h

  halving :
      (x y : ℕ)
      → digits last op (suc x) (suc x) y
        ≡ digits last op (suc x / 2) (suc x / 2) (y / 2) * 2 + op (suc x % 2) (y % 2)
  halving x y =
      let half = suc x / 2 in
      let enough : x ≡ more (x - half) half = omega (arith, more_eq (x - half) half) in
      ap (λ fuel. digits last op fuel half (y / 2) * 2 + op (suc x % 2) (y % 2)) enough
      ∙ ap (λ high. high * 2 + op (suc x % 2) (y % 2))
          (spare_fuel (x - half) half half (y / 2) (omega arith))

pub zero-bit_and : (y : ℕ) → bit_and 0 y ≡ 0
zero-bit_and y = bit_and-bitwise 0 y

zero-bit_or : (y : ℕ) → bit_or 0 y ≡ y
zero-bit_or y = bit_or-bitwise 0 y

pub bit_or_step : (x y : ℕ) → bit_or x y ≡ bit_or (x / 2) (y / 2) * 2 + max (x % 2) (y % 2)
bit_or_step zero y = omega (arith, zero-bit_or y, zero-bit_or (y / 2))
bit_or_step (suc x) y = omega (
  arith,
  bit_or-bitwise (suc x) y,
  bit_or-bitwise (suc x / 2) (y / 2),
  halving (λ rest. rest) max x y,
)

pub bit_and_step : (x y : ℕ) → bit_and x y ≡ bit_and (x / 2) (y / 2) * 2 + min (x % 2) (y % 2)
bit_and_step zero y = omega (arith, zero-bit_and y, zero-bit_and (y / 2))
bit_and_step (suc x) y = omega (
  arith,
  halving (λ rest. 0) min x y,
  bit_and-bitwise (suc x / 2) (y / 2),
  bit_and-bitwise (suc x) y,
)
