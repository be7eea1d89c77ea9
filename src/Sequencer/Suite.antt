-- ===== src/Sequencer/Suite.antt =====
-- `Add` keeps a suite in which each test has a name of its own.
use Prim.Native.String.{String, ◌++◌ as str_append}
use text.Mathlib.Text.{◌==◌ as str_eq}
use text.Mathlib.TextEquality.{eq_iff}
use soc_validation_framework.Prelude.{
  ◌≡◌, ◌≢◌, refl, List, [], ◌∷◌, ◌++◌, some, true, false, ◌⊎◌, inl, inr, if◌then◌else◌, arith,
  Bool-cases,
}
use soc_validation_framework.Bus.{ok, err, invalid_argument}
use soc_validation_framework.Sequencer.{TestCase, set_of, has_name, add}
use soc_validation_framework.Sequencer.Declared.{or_else, declared}

module _ {Body : Type 0} where
  -- Every test has a name, which no later test has.
  unfoldable pub IsSuite : List (TestCase Body) → Type 0
  IsSuite [] = Unit
  IsSuite (t ∷ ts) = (t.name ≢ "") × (has_name t.name ts ≡ false) × IsSuite ts

  pub has_name-append :
      (n : String) (ts : List (TestCase Body)) (t : TestCase Body)
      → has_name n ts ≡ false
      → t.name ≢ n
      → has_name n (ts ++ t ∷ []) ≡ false
  unfolding has_name
  has_name-append n [] t h ne = ground (arith, eq_iff t.name n)
  has_name-append n (s ∷ ss) t h ne = ground (arith, has_name-append n ss t)

  pub append-IsSuite :
      (ts : List (TestCase Body)) (t : TestCase Body)
      → IsSuite ts
      → t.name ≢ ""
      → has_name t.name ts ≡ false
      → IsSuite (ts ++ t ∷ [])
  unfolding IsSuite has_name
  append-IsSuite [] t h ne new = (ne, refl, tt)
  append-IsSuite (s ∷ ss) t (named, apart, h) ne new = (
    named,
    has_name-append s.name ss t apart (λ e. ground (arith, eq_iff s.name t.name)),
    append-IsSuite ss t h ne (ground arith),
  )

  pub declared-append :
      (ts : List (TestCase Body)) (t : TestCase Body) (n : String)
      → declared (ts ++ t ∷ []) n
        ≡ (if str_eq n t.name then some (set_of t.depends_on) else declared ts n)
  unfolding declared or_else
  declared-append [] t n = ground arith
  declared-append (s ∷ ss) t n = ground (arith, declared-append ss t n)

  pub add_new :
      (t : TestCase Body) (ts : List (TestCase Body))
      → t.name ≢ ""
      → has_name t.name ts ≡ false
      → add t ts ≡ ok (ts ++ t ∷ [])
  unfolding add
  add_new t ts ne new = ground (arith, eq_iff t.name "")

  -- A suite with one test more: that test's dependencies are declared, and all others as before.
  unfoldable pub IsExtended : TestCase Body → List (TestCase Body) → List (TestCase Body) → Type 0
  IsExtended t ts more =
      IsSuite more
      × (declared more t.name ≡ some (set_of t.depends_on))
      × ((n : String) → n ≢ t.name → declared more n ≡ declared ts n)

  extended :
      (t : TestCase Body) (ts : List (TestCase Body))
      → IsSuite ts
      → t.name ≢ ""
      → has_name t.name ts ≡ false
      → IsExtended t ts (ts ++ t ∷ [])
  unfolding IsExtended
  extended t ts h named new = (
    append-IsSuite ts t h named new,
    ground (arith, declared-append ts t t.name, eq_iff t.name t.name),
    λ n other. ground (arith, declared-append ts t n, eq_iff n t.name),
  )

  -- On a suite in which every test has a name of its own, `Add` throws for an empty name and for a
  -- name that some test has. Otherwise the new suite has the same property, the dependencies of the
  -- new name are those that the test lists, and those of every other name are as before.
  pub add_lem :
      (t : TestCase Body) (ts : List (TestCase Body))
      → IsSuite ts
      → ((t.name ≡ "") × (add t ts ≡ err (invalid_argument "test name must not be empty")))
        ⊎ ((has_name t.name ts ≡ true)
            × (add t ts ≡ err (invalid_argument (str_append "duplicate test name: " t.name))))
        ⊎ ((more : List (TestCase Body)) × (add t ts ≡ ok more) × IsExtended t ts more)
  unfolding add
  add_lem t ts h = elim (Bool-cases (str_eq t.name "")) [
    | inl e ↦ inl (ground (arith, eq_iff t.name ""), rw (e, add))
    | inr ne ↦ elim (Bool-cases (has_name t.name ts)) [
      | inl e ↦ inr (inl (e, ground (arith, eq_iff t.name "")))
      | inr new ↦
          let named : t.name ≢ "" = λ e. ground (arith, eq_iff t.name "") in
          inr (inr (ts ++ t ∷ [], add_new t ts named new, extended t ts h named new))
    ]
  ]
