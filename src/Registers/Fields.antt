-- ===== src/Registers/Fields.antt =====
-- What the emitted accessors of a field do, digit by digit and as numbers.
use soc_validation_framework.Prelude.{
  ℕ, zero, suc, Bool, ◌+◌, ◌-◌, ◌*◌, ◌%◌, ◌^◌, ◌≤◌, ◌<◌, bit_and, bit_or, ◌≡◌, ap, ◌⊎◌, arith, leb,
  ◌&&◌, if◌then◌else◌,
}
use soc_validation_framework.Word.{bit, u32, not32, shl32}
use soc_validation_framework.Word.Bits.{
  bit-le-one, bit-bit_and, bit-bit_or, bit-not32, bit_ext, bit_and-le, bit_or-lt,
}
use soc_validation_framework.Word.Shift.{bit-shl, bit-shr, bit-mod, bit-mask}
use soc_validation_framework.Word.Fields.{two_pow-add}
use native.Mathlib.Nat.{pow-le-pow_right, one-le-pow, mod-lt, div-le_self}
use soc_validation_framework.Registers.{Field, IsField, mask, width, get, set, clear}

abbrev pub covers : Field → ℕ → Bool
covers f i = leb f.lo i && leb i f.hi

pub bit-field_mask :
    (f : Field) (i : ℕ) → IsField f → bit i (mask f.hi f.lo) ≡ (if covers f i then 1 else 0)
unfolding mask
bit-field_mask f i h =
    ground (arith, bit-shl f.lo i (2 ^ width f - 1), bit-mask (width f) (i - f.lo))

pred_mul : (a b : ℕ) → 1 ≤ a → (a - 1) * b + b ≡ a * b
pred_mul zero b h = absurd (omega arith)
pred_mul (suc a) b h =
    let same : suc a - 1 ≡ a = omega arith in omega (arith, ap (λ (t : ℕ). t * b) same)

mask-lt : (f : Field) → IsField f → mask f.hi f.lo < 2 ^ 32
unfolding mask
mask-lt f h = omega (
  arith,
  two_pow-add (width f) f.lo,
  one-le-pow f.lo 2,
  one-le-pow (width f) 2,
  ends,
  room,
  pow-le-pow_right {n = 2} (omega arith) {i = suc f.hi} {j = 32} h.within,
)
  where
    ends : 2 ^ (width f + f.lo) ≡ 2 ^ suc f.hi
    ends = let same : width f + f.lo ≡ suc f.hi = omega arith in ap (λ (t : ℕ). 2 ^ t) same

    room : (2 ^ width f - 1) * 2 ^ f.lo + 2 ^ f.lo ≡ 2 ^ width f * 2 ^ f.lo
    room = pred_mul (2 ^ width f) (2 ^ f.lo) (one-le-pow (width f) 2 (omega arith))

pub bit-get :
    (f : Field) (i raw : ℕ)
    → IsField f
    → bit i (get f raw) ≡ (if leb (i + f.lo) f.hi then bit (i + f.lo) raw else 0)
unfolding get
bit-get f i raw h = ground (
  arith,
  bit-shr f.lo i (bit_and raw (mask f.hi f.lo)),
  bit-bit_and (i + f.lo) raw (mask f.hi f.lo),
  bit-field_mask f (i + f.lo) h,
  bit-le-one (i + f.lo) raw,
)

pub bit-set :
    (f : Field) (i v raw : ℕ)
    → IsField f
    → raw < 2 ^ 32
    → i < 32
    → bit i (set f v raw) ≡ (if covers f i then bit (i - f.lo) v else bit i raw)
unfolding set
bit-set f i v raw h k below = ground (
  arith,
  bit-bit_or i (bit_and raw (not32 (u32 (mask f.hi f.lo))))
      (bit_and (shl32 v f.lo) (mask f.hi f.lo)),
  bit-bit_and i raw (not32 (u32 (mask f.hi f.lo))),
  bit-bit_and i (shl32 v f.lo) (mask f.hi f.lo),
  bit-not32 i (u32 (mask f.hi f.lo)) (omega arith) below,
  bit-mod 32 i (mask f.hi f.lo),
  bit-mod 32 i (v * 2 ^ f.lo),
  bit-shl f.lo i v,
  bit-field_mask f i h,
  bit-le-one i raw,
  bit-le-one (i - f.lo) v,
)

set-lt : (f : Field) (v raw : ℕ) → IsField f → raw < 2 ^ 32 → set f v raw < 2 ^ 32
unfolding set
set-lt f v raw h k =
    bit_or-lt 32 (bit_and raw (not32 (u32 (mask f.hi f.lo))))
      (bit_and (shl32 v f.lo) (mask f.hi f.lo))
      (omega (arith, bit_and-le 32 raw (not32 (u32 (mask f.hi f.lo))) k))
      (omega (arith, bit_and-le 32 (shl32 v f.lo) (mask f.hi f.lo) (omega arith)))

pub get-lt : (f : Field) (raw : ℕ) → raw < 2 ^ 32 → get f raw < 2 ^ 32
unfolding get
get-lt f raw k = omega (
  arith,
  div-le_self (bit_and raw (mask f.hi f.lo)) (2 ^ f.lo),
  bit_and-le 32 raw (mask f.hi f.lo) k,
)

pub trunc-lt : (f : Field) (v : ℕ) → IsField f → v % 2 ^ width f < 2 ^ 32
trunc-lt f v h = omega (
  arith,
  mod-lt v {m = 2 ^ width f} (one-le-pow (width f) 2 (omega arith)),
  pow-le-pow_right {n = 2} (omega arith) {i = width f} {j = 32} (omega arith),
)

-- Reading a field back after setting it gives the written value, truncated to the field's width.
pub get-set :
    (f : Field) (v raw : ℕ) → IsField f → raw < 2 ^ 32 → get f (set f v raw) ≡ v % 2 ^ width f
get-set f v raw h k = bit_ext 32 _ _ (get-lt f _ (set-lt f v raw h k)) (trunc-lt f v h) λ i below.
    ground (
      arith,
      bit-get f i (set f v raw) h,
      bit-set f (i + f.lo) v raw h k,
      bit-mod (width f) i v,
      ap (λ j. bit j v) (back i),
    )
  where
    back : (i : ℕ) → i + f.lo - f.lo ≡ i
    back i = omega arith

-- Two fields with no digit in common.
abbrev pub Disjoint : Field → Field → Type 0
Disjoint f g = (f.hi < g.lo) ⊎ (g.hi < f.lo)

-- Setting a field leaves every field that shares no digit with it as it was.
pub get-set_apart :
    (f g : Field) (v raw : ℕ)
    → IsField f
    → IsField g
    → Disjoint f g
    → raw < 2 ^ 32
    → get g (set f v raw) ≡ get g raw
get-set_apart f g v raw h hg apart k =
    bit_ext 32 _ _ (get-lt g _ (set-lt f v raw h k)) (get-lt g raw k) λ i below.
      ground
        (arith, bit-get g i (set f v raw) hg, bit-get g i raw hg, bit-set f (i + g.lo) v raw h k)

-- Setters of disjoint fields can be called in any order.
pub set_comm :
    (f g : Field) (v w raw : ℕ)
    → IsField f
    → IsField g
    → Disjoint f g
    → raw < 2 ^ 32
    → set g w (set f v raw) ≡ set f v (set g w raw)
set_comm f g v w raw h hg apart k =
    bit_ext 32 _ _ (set-lt g w _ hg (set-lt f v raw h k)) (set-lt f v _ h (set-lt g w raw hg k))
      λ i below. ground (
        arith,
        bit-set g i w (set f v raw) hg (set-lt f v raw h k) below,
        bit-set f i v (set g w raw) h (set-lt g w raw hg k) below,
        bit-set f i v raw h k below,
        bit-set g i w raw hg k below,
      )

-- Clearing a write-1-to-clear field writes ones at its digits and keeps the others.
pub bit-clear :
    (f : Field) (i raw : ℕ)
    → IsField f
    → i < 32
    → bit i (clear f raw) ≡ (if covers f i then 1 else bit i raw)
unfolding clear
bit-clear f i raw h below = ground (
  arith,
  bit-mod 32 i (bit_or raw (mask f.hi f.lo)),
  bit-bit_or i raw (mask f.hi f.lo),
  bit-field_mask f i h,
  bit-le-one i raw,
)

pub clear-lt : (f : Field) (raw : ℕ) → clear f raw < 2 ^ 32
unfolding clear
clear-lt f raw = omega arith
