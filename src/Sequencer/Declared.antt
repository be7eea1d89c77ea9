-- ===== src/Sequencer/Declared.antt =====
-- The dependencies that the registered tests declare, and the check for unknown names.
use Prim.Native.String.{String}
use text.Mathlib.Text.{◌==◌ as str_eq}
use text.Mathlib.TextEquality.{eq_iff}
use soc_validation_framework.Prelude.{
  ◌≡◌, ◌≢◌, refl, List, [], ◌∷◌, Option, none, some, true, if◌then◌else◌, arith, Option-cases, inl,
  inr,
}
use soc_validation_framework.Sequencer.{
  TestCase, Pending, elem, insert_name, set_of, lookup, assign, pending_from, first_unknown,
  unknown_in,
}
use soc_validation_framework.Sequencer.Keys.{IsKeyed, lookup-assign, assign-IsKeyed}

elem-insert_name : (x y : String) (ys : List String) → elem x (insert_name y ys) ≡ elem x (y ∷ ys)
unfolding elem insert_name
elem-insert_name x y [] = refl
elem-insert_name x y (z ∷ zs) =
    ground (arith, elem-insert_name x y zs, eq_iff y z, eq_iff x y, eq_iff x z)

-- A set holds the names of the list it is built from.
pub elem-set_of : (x : String) (xs : List String) → elem x (set_of xs) ≡ elem x xs
unfolding elem set_of
elem-set_of x [] = refl
elem-set_of x (y ∷ ys) = ground (arith, elem-insert_name x y (set_of ys), elem-set_of x ys)

-- A lookup that falls back on another.
unfoldable pub or_else : Option (List String) → Option (List String) → Option (List String)
or_else (some deps) o = some deps
or_else none o = o

module _ {Body : Type 0} where
  -- The dependencies of the last registered test of a name.
  unfoldable pub declared : List (TestCase Body) → String → Option (List String)
  unfolding or_else
  declared [] n = none
  declared (t ∷ ts) n =
      or_else (declared ts n) (if str_eq n t.name then some (set_of t.depends_on) else none)

  pub pending_from-IsKeyed :
      (m : Pending) (ts : List (TestCase Body)) → IsKeyed m → IsKeyed (pending_from m ts)
  unfolding pending_from
  pending_from-IsKeyed m [] h = h
  pending_from-IsKeyed m (t ∷ ts) h =
      pending_from-IsKeyed (assign t.name (set_of t.depends_on) m) ts
        (assign-IsKeyed t.name (set_of t.depends_on) m h)

  pub lookup-pending_from :
      (n : String) (m : Pending) (ts : List (TestCase Body))
      → lookup n (pending_from m ts) ≡ or_else (declared ts n) (lookup n m)
  unfolding pending_from declared or_else
  lookup-pending_from n m [] = refl
  lookup-pending_from n m (t ∷ ts) = ground (
    arith,
    lookup-pending_from n (assign t.name (set_of t.depends_on) m) ts,
    lookup-assign n t.name (set_of t.depends_on) m,
  )

first_unknown-none :
    (deps : List String) (m : Pending) (x : String)
    → first_unknown deps m ≡ none
    → elem x deps ≡ true
    → lookup x m ≢ none
unfolding first_unknown elem
first_unknown-none [] m x e h = ground arith
first_unknown-none (d ∷ deps) m x e h =
    λ gone. ground (arith, first_unknown-none deps m x, eq_iff x d)

first_unknown-some :
    (deps : List String) (m : Pending) (x : String)
    → first_unknown deps m ≡ some x
    → (elem x deps ≡ true) × (lookup x m ≡ none)
unfolding first_unknown elem
first_unknown-some [] m x e = absurd (ground arith)
first_unknown-some (d ∷ deps) m x e = ground (arith, first_unknown-some deps m x, eq_iff x d)

-- The check that finds nothing leaves every dependency of every entry a key.
pub unknown_in-none :
    (pending m : Pending) (n x : String) (deps : List String)
    → unknown_in pending m ≡ none
    → lookup n pending ≡ some deps
    → elem x deps ≡ true
    → lookup x m ≢ none
unfolding unknown_in lookup
unknown_in-none [] m n x deps e f h = ground arith
unknown_in-none ((k, ds) ∷ rest) m n x deps e f h =
    λ gone. ground (arith, first_unknown-none deps m x, unknown_in-none rest m n x deps, eq_iff n k)

-- What the check finds is a dependency of an entry, and no key.
pub unknown_in-some :
    (pending m : Pending) (n x : String)
    → IsKeyed pending
    → unknown_in pending m ≡ some (n, x)
    → (deps : List String) × (lookup n pending ≡ some deps)
      × (elem x deps ≡ true)
      × (lookup x m ≡ none)
unfolding unknown_in lookup IsKeyed
unknown_in-some [] m n x h e = absurd (ground arith)
unknown_in-some ((k, ds) ∷ rest) m n x h e = elim (Option-cases (first_unknown ds m)) [
  | inr (y, f) ↦
      let (inside, absent) = first_unknown-some ds m y f in
      (ds, ground (arith, eq_iff n k), ground arith, ground arith)
  | inl f ↦
      let (deps, found, inside, absent) = unknown_in-some rest m n x h.1 (ground arith) in
      (deps, ground (arith, eq_iff n k, h.0), inside, absent)
]
