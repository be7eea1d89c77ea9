-- ===== src/Sequencer/Counts.antt =====
-- How often a name stands in a level, through `sort` and the scan for ready tests.
use Prim.Native.String.{String}
use text.Mathlib.Text.{◌==◌ as str_eq}
use text.Mathlib.TextEquality.{eq_iff}
use soc_validation_framework.Prelude.{
  ℕ, suc, ◌<◌, ◌≡◌, ◌↔◌, refl, List, [], ◌∷◌, ◌++◌, Option, none, some, Bool, true, false, ◌||◌,
  if◌then◌else◌, arith, Bool-cases, inl, inr,
}
use soc_validation_framework.Sequencer.{Pending, elem, lookup, satisfied, ready_in, sort_in, sort}
use soc_validation_framework.Sequencer.Keys.{IsKeyed}

unfoldable pub count : String → List String → ℕ
count x [] = 0
count x (y ∷ ys) = if str_eq x y then suc (count x ys) else count x ys

unfoldable pub bit : Bool → ℕ
bit true = 1
bit false = 0

-- A pending test is ready when every dependency is done.
unfoldable pub is_ready : List String → Option (List String) → Bool
is_ready done none = false
is_ready done (some deps) = satisfied done deps

pub elem-counted : (x : String) (xs : List String) → (elem x xs ≡ true) ↔ (0 < count x xs)
unfolding elem count
elem-counted x [] = ground arith
elem-counted x (y ∷ ys) = ground (arith, elem-counted x ys)

pub elem-append : (x : String) (xs ys : List String) → elem x (xs ++ ys) ≡ (elem x xs || elem x ys)
unfolding elem
elem-append x [] ys = refl
elem-append x (y ∷ xs) ys = ground (arith, elem-append x xs ys)

count-sort_in : (x y : String) (ys : List String) → count x (sort_in y ys) ≡ count x (y ∷ ys)
unfolding count sort_in
count-sort_in x y [] = refl
count-sort_in x y (z ∷ zs) = ground (arith, count-sort_in x y zs)

-- Sorting keeps every name as often as it was there.
pub count-sort : (x : String) (xs : List String) → count x (sort xs) ≡ count x xs
unfolding count sort
count-sort x [] = refl
count-sort x (y ∷ ys) = ground (arith, count-sort_in x y (sort ys), count-sort x ys)

-- The scan finds a test once if it is pending and ready, and not at all otherwise.
pub count-ready_in :
    (x : String) (done : List String) (m : Pending)
    → IsKeyed m
    → count x (ready_in done m) ≡ bit (is_ready done (lookup x m))
unfolding count ready_in lookup is_ready bit IsKeyed
count-ready_in x done [] h = refl
count-ready_in x done ((k, deps) ∷ rest) h =
    ground (arith, count-ready_in x done rest h.1, eq_iff x k, h.0)

-- Being done with all of a list's names, name by name.
pub satisfied_sound :
    (done deps : List String) (x : String)
    → satisfied done deps ≡ true
    → elem x deps ≡ true
    → elem x done ≡ true
unfolding satisfied elem
satisfied_sound done [] x s e = ground arith
satisfied_sound done (d ∷ deps) x s e = ground (arith, satisfied_sound done deps x, eq_iff x d)

pub unsatisfied :
    (done deps : List String)
    → satisfied done deps ≡ false
    → (x : String) × (elem x deps ≡ true) × (elem x done ≡ false)
unfolding satisfied elem
unsatisfied done [] s = absurd (ground arith)
unsatisfied done (d ∷ deps) s = elim (Bool-cases (elem d done)) [
  | inl e ↦ let (x, inside, out) = unsatisfied done deps (ground arith) in (x, ground arith, out)
  | inr e ↦ (d, ground (arith, eq_iff d d), e)
]
