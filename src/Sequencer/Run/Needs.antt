-- ===== src/Sequencer/Run/Needs.antt =====
-- What the tests of a suite need, as `Run` finds it and as `Levels` sees it.
use Prim.Native.String.{String}
use text.Mathlib.Text.{◌==◌ as str_eq}
use text.Mathlib.TextEquality.{eq_iff}
use soc_validation_framework.Prelude.{
  ◌≡◌, refl, sym, ◌∙◌, ap, true, false, List, [], ◌∷◌, none, some, Bool-cases, Option-cases, inl,
  inr, arith,
}
use soc_validation_framework.Sequencer.{TestCase, elem, has_name, set_of, satisfied}
use soc_validation_framework.Sequencer.Counts.{is_ready, satisfied_sound}
use soc_validation_framework.Sequencer.Layers.{is_due}
use soc_validation_framework.Sequencer.Declared.{or_else, declared, elem-set_of}
use soc_validation_framework.Sequencer.Suite.{IsSuite}
use soc_validation_framework.Sequencer.RunOne.{Callbacks}
use soc_validation_framework.Sequencer.Run.{find_test}

module _ {W : Type 0} where
  -- The dependencies of the test that `std::find_if` finds.
  unfoldable pub needs : List (TestCase (Callbacks W)) → String → List String
  needs tests n = elim (find_test n tests) [ none ↦ [] | some t ↦ t.depends_on ]

  needs_found :
      (tests : List (TestCase (Callbacks W))) (n : String) (t : TestCase (Callbacks W))
      → find_test n tests ≡ some t
      → t.depends_on ≡ needs tests n
  unfolding needs
  needs_found tests n t e = rw (e, needs)

  declared-new :
      (ts : List (TestCase (Callbacks W))) (n : String)
      → has_name n ts ≡ false
      → declared ts n ≡ none
  unfolding declared or_else has_name
  declared-new [] n h = refl
  declared-new (s ∷ ss) n h = ground (arith, declared-new ss n, eq_iff s.name n, eq_iff n s.name)

  -- In a suite of distinct names both find the same test.
  pub find_test-declared :
      (ts : List (TestCase (Callbacks W))) (n : String) (deps : List String)
      → IsSuite ts
      → declared ts n ≡ some deps
      → (t : TestCase (Callbacks W)) × (find_test n ts ≡ some t) × (set_of t.depends_on ≡ deps)
  unfolding IsSuite declared or_else find_test
  find_test-declared [] n deps suite e = absurd (ground arith)
  find_test-declared (t ∷ ts) n deps (named, apart, suite) e = elim (Bool-cases (str_eq t.name n)) [
    | inl same ↦
        let this : t.name ≡ n = (eq_iff t.name n).0 same in
        let later : declared ts n ≡ none =
          ap (declared ts) (sym this) ∙ declared-new ts t.name apart in
        (t, ground arith, ground (arith, eq_iff n t.name, later))
    | inr other ↦
        let (u, found, deps_eq) =
          find_test-declared ts n deps suite (ground (arith, eq_iff n t.name, eq_iff t.name n)) in
        (u, ground (arith, found), deps_eq)
  ]

  -- A test that is due is found, and what it needs is done.
  pub due_can :
      (tests : List (TestCase (Callbacks W))) (done : List String) (n : String)
      → IsSuite tests
      → is_due (declared tests) done n ≡ true
      → ((t : TestCase (Callbacks W)) × (find_test n tests ≡ some t))
        × ((x : String) → elem x (needs tests n) ≡ true → elem x done ≡ true)
  unfolding is_due is_ready
  due_can tests done n suite due = elim (Option-cases (declared tests n)) [
    | inl e ↦ absurd (ground arith)
    | inr (deps, e) ↦
        let (t, found, same) = find_test-declared tests n deps suite e in
        let all : satisfied done deps ≡ true = ground arith in
        (
          (t, found),
          λ x inside. satisfied_sound done deps x all (
              ap (elem x) (sym same)
              ∙ elem-set_of x t.depends_on
              ∙ ap (elem x) (needs_found tests n t found)
              ∙ inside),
        )
  ]
