-- ===== src/Sequencer/Keys.antt =====
-- Pending tests as a finite map from names: assignment and erasure seen through `lookup`.
use Prim.Native.String.{String}
use text.Mathlib.Text.{◌==◌ as str_eq}
use text.Mathlib.TextEquality.{eq_iff}
use soc_validation_framework.Prelude.{
  ◌≤◌, ◌<◌, ◌≡◌, refl, ◌∙◌, ap, List, [], ◌∷◌, none, some, true, false, if◌then◌else◌, length,
  arith, Option-cases, if_elim, inl, inr,
}
use soc_validation_framework.Sequencer.{
  Pending, str_lt, elem, lookup, replace, emplace, assign, erase, erase_all,
}

-- No name is the key of two entries.
unfoldable pub IsKeyed : Pending → Type 0
IsKeyed [] = Unit
IsKeyed ((k, deps) ∷ rest) = (lookup k rest ≡ none) × IsKeyed rest

str_eq_refl : (n : String) → str_eq n n ≡ true
str_eq_refl n = (eq_iff n n).1 refl

lookup-head : (n : String) (deps : List String) (m : Pending) → lookup n ((n, deps) ∷ m) ≡ some deps
unfolding lookup
lookup-head n deps m = ap (λ b. if b then some deps else lookup n m) (str_eq_refl n)

lookup-replace :
    (n k : String) (deps old : List String) (m : Pending)
    → lookup k m ≡ some old
    → lookup n (replace k deps m) ≡ (if str_eq n k then some deps else lookup n m)
unfolding lookup replace
lookup-replace n k deps old [] e = ground arith
lookup-replace n k deps old ((j, d) ∷ rest) e =
    ground (arith, eq_iff n k, eq_iff n j, eq_iff k j, lookup-replace n k deps old rest)

lookup-emplace :
    (n k : String) (deps : List String) (m : Pending)
    → lookup k m ≡ none
    → lookup n (emplace k deps m) ≡ (if str_eq n k then some deps else lookup n m)
unfolding lookup emplace
lookup-emplace n k deps [] e = refl
lookup-emplace n k deps ((j, d) ∷ rest) e =
    ground (arith, eq_iff n k, eq_iff n j, eq_iff k j, lookup-emplace n k deps rest)

-- Assignment changes the entry of its key and no other.
pub lookup-assign :
    (n k : String) (deps : List String) (m : Pending)
    → lookup n (assign k deps m) ≡ (if str_eq n k then some deps else lookup n m)
unfolding assign
lookup-assign n k deps m = elim (Option-cases (lookup k m)) [
  | inl e ↦ rw (e, assign) (lookup-emplace n k deps m e)
  | inr (old, e) ↦ rw (e, assign) (lookup-replace n k deps old m e)
]

replace-absent :
    (n k : String) (deps : List String) (m : Pending)
    → lookup n m ≡ none
    → lookup n (replace k deps m) ≡ none
unfolding lookup replace
replace-absent n k deps [] e = refl
replace-absent n k deps ((j, d) ∷ rest) e =
    ground (arith, eq_iff k j, eq_iff n j, replace-absent n k deps rest)

absent_emplaced :
    (k j : String) (deps : List String) (m : Pending)
    → lookup k m ≡ none
    → lookup j m ≡ none
    → str_eq j k ≡ false
    → lookup j (emplace k deps m) ≡ none
absent_emplaced k j deps m ek ej ne =
    lookup-emplace j k deps m ek ∙ ap (λ b. if b then some deps else lookup j m) ne ∙ ej

replace-IsKeyed :
    (k : String) (deps : List String) (m : Pending) → IsKeyed m → IsKeyed (replace k deps m)
unfolding IsKeyed replace
replace-IsKeyed k deps [] h = h
replace-IsKeyed k deps ((j, d) ∷ rest) h =
    if_elim IsKeyed (str_eq k j) (λ e. h)
      (λ e. (replace-absent j k deps rest h.0, replace-IsKeyed k deps rest h.1))

emplace-IsKeyed :
    (k : String) (deps : List String) (m : Pending)
    → lookup k m ≡ none
    → IsKeyed m
    → IsKeyed (emplace k deps m)
unfolding IsKeyed emplace lookup
emplace-IsKeyed k deps [] e h = (refl, tt)
emplace-IsKeyed k deps ((j, d) ∷ rest) e h =
    if_elim IsKeyed (str_lt k j) (λ lt. (e, h))
      (λ ge. (
        absent_emplaced k j deps rest (ground (arith, eq_iff k j, e)) h.0
            (ground (arith, eq_iff k j, eq_iff j k)),
        emplace-IsKeyed k deps rest (ground (arith, eq_iff k j)) h.1,
      ))

pub assign-IsKeyed :
    (k : String) (deps : List String) (m : Pending) → IsKeyed m → IsKeyed (assign k deps m)
unfolding assign
assign-IsKeyed k deps m h = elim (Option-cases (lookup k m)) [
  | inl e ↦ rw (e, assign) (emplace-IsKeyed k deps m e h)
  | inr (old, e) ↦ rw (e, assign) (replace-IsKeyed k deps m h)
]

erase-absent : (n k : String) (m : Pending) → lookup n m ≡ none → lookup n (erase k m) ≡ none
unfolding lookup erase
erase-absent n k [] e = refl
erase-absent n k ((j, d) ∷ rest) e = ground (arith, eq_iff k j, eq_iff n j, erase-absent n k rest)

erase-IsKeyed : (k : String) (m : Pending) → IsKeyed m → IsKeyed (erase k m)
unfolding erase IsKeyed
erase-IsKeyed k [] h = h
erase-IsKeyed k ((j, d) ∷ rest) h =
    if_elim IsKeyed (str_eq k j) (λ e. h.1)
      (λ e. (erase-absent j k rest h.0, erase-IsKeyed k rest h.1))

lookup-erase :
    (n k : String) (m : Pending)
    → IsKeyed m
    → lookup n (erase k m) ≡ (if str_eq n k then none else lookup n m)
unfolding lookup erase IsKeyed
lookup-erase n k [] h = ground arith
lookup-erase n k ((j, d) ∷ rest) h =
    ground (arith, eq_iff n k, eq_iff n j, eq_iff k j, lookup-erase n k rest h.1, h.0)

length-erase : (k : String) (m : Pending) → length (erase k m) ≤ length m
unfolding erase
length-erase k [] = omega arith
length-erase k ((j, d) ∷ rest) = ground (arith, length-erase k rest)

length-erase_key :
    (k : String) (deps : List String) (m : Pending)
    → lookup k m ≡ some deps
    → length (erase k m) < length m
unfolding erase lookup
length-erase_key k deps [] e = ground arith
length-erase_key k deps ((j, d) ∷ rest) e = ground (arith, length-erase_key k deps rest)

-- `erase` for every name of a level.
pub erase_all-IsKeyed : (ns : List String) (m : Pending) → IsKeyed m → IsKeyed (erase_all ns m)
unfolding erase_all
erase_all-IsKeyed [] m h = h
erase_all-IsKeyed (n ∷ ns) m h = erase_all-IsKeyed ns (erase n m) (erase-IsKeyed n m h)

pub lookup-erase_all :
    (n : String) (ns : List String) (m : Pending)
    → IsKeyed m
    → lookup n (erase_all ns m) ≡ (if elem n ns then none else lookup n m)
unfolding erase_all elem
lookup-erase_all n [] m h = refl
lookup-erase_all n (k ∷ ns) m h =
    ground (arith, lookup-erase_all n ns (erase k m) (erase-IsKeyed k m h), lookup-erase n k m h)

length-erase_all : (ns : List String) (m : Pending) → length (erase_all ns m) ≤ length m
unfolding erase_all
length-erase_all [] m = omega arith
length-erase_all (n ∷ ns) m = omega (arith, length-erase_all ns (erase n m), length-erase n m)

pub length-erase_all_key :
    (k : String) (deps : List String) (ns : List String) (m : Pending)
    → lookup k m ≡ some deps
    → length (erase_all (k ∷ ns) m) < length m
unfolding erase_all
length-erase_all_key k deps ns m e =
    omega (arith, length-erase_all ns (erase k m), length-erase_key k deps m e)
