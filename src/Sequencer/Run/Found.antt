-- ===== src/Sequencer/Run/Found.antt =====
-- Names and the tests that have them: parts of a list, and `std::find_if`.
use Prim.Native.String.{String}
use text.Mathlib.Text.{◌==◌ as str_eq}
use text.Mathlib.TextEquality.{eq_iff}
use soc_validation_framework.Prelude.{
  ℕ, zero, suc, ◌+◌, ◌≤◌, ◌≡◌, inl, inr, refl, sym, ◌∙◌, ap, ap₂, Bool, true, ◌||◌, List, [], ◌∷◌,
  some, length, take, drop, Bool-cases, arith,
}
use soc_validation_framework.Sequencer.{TestCase, elem}
use soc_validation_framework.Sequencer.Counts.{count}
use soc_validation_framework.Sequencer.RunOne.{Callbacks}
use soc_validation_framework.Sequencer.Run.{find_test, find_all}
use soc_validation_framework.Sequencer.Run.Chunks.{AllCan, test_names}

-- `drop` and `take` split a list of names.
elem-take-drop :
    (x : String) (k : ℕ) (ns : List String) → elem x ns ≡ (elem x (take k ns) || elem x (drop k ns))
unfolding elem
elem-take-drop x zero ns = refl
elem-take-drop x (suc k) [] = refl
elem-take-drop x (suc k) (n ∷ ns) = ground (arith, elem-take-drop x k ns)

pub count-take-drop :
    (x : String) (k : ℕ) (ns : List String) → count x ns ≡ count x (take k ns) + count x (drop k ns)
unfolding count
count-take-drop x zero ns = omega arith
count-take-drop x (suc k) [] = refl
count-take-drop x (suc k) (n ∷ ns) = ground (arith, count-take-drop x k ns)

pub elem-take :
    (x : String) (k : ℕ) (ns : List String) → elem x (take k ns) ≡ true → elem x ns ≡ true
elem-take x k ns h = ground (arith, elem-take-drop x k ns)

pub elem-drop :
    (x : String) (k : ℕ) (ns : List String) → elem x (drop k ns) ≡ true → elem x ns ≡ true
elem-drop x k ns h = ground (arith, elem-take-drop x k ns)

pub later_or_now :
    (x : String) (k : ℕ) (ns : List String) (done : Bool)
    → (elem x ns || done) ≡ true
    → (elem x (drop k ns) || (elem x (take k ns) || done)) ≡ true
later_or_now x k ns done h = ground (arith, elem-take-drop x k ns)

pub length-take_le : (k : ℕ) (ns : List String) → length (take k ns) ≤ k
length-take_le zero ns = omega arith
length-take_le (suc k) [] = omega arith
length-take_le (suc k) (n ∷ ns) = omega (arith, length-take_le k ns)

pub length-drop_le : (k : ℕ) (ns : List String) → length (drop k ns) ≤ length ns
length-drop_le zero ns = omega arith
length-drop_le (suc k) [] = omega arith
length-drop_le (suc k) (n ∷ ns) = omega (arith, length-drop_le k ns)

module _ {W : Type 0} (tests : List (TestCase (Callbacks W))) where
  -- Every name is that of a test.
  unfoldable pub AllFound : List String → Type 0
  AllFound ns =
      (n : String) → elem n ns ≡ true → (t : TestCase (Callbacks W)) × (find_test n tests ≡ some t)

  pub AllFound-head :
      (n : String) (ns : List String)
      → AllFound (n ∷ ns)
      → (t : TestCase (Callbacks W)) × (find_test n tests ≡ some t)
  unfolding AllFound elem
  AllFound-head n ns found = found n (ground (arith, eq_iff n n))

  pub AllFound-sub :
      (part all : List String)
      → ((x : String) → elem x part ≡ true → elem x all ≡ true)
      → AllFound all
      → AllFound part
  unfolding AllFound
  AllFound-sub part all sub found n h = found n (sub n h)

  pub AllFound-tail : (n : String) (ns : List String) → AllFound (n ∷ ns) → AllFound ns
  unfolding elem
  AllFound-tail n ns = AllFound-sub ns (n ∷ ns) (λ x h. ground arith)

module _ {W : Type 0} where
  pub find_test-name :
      (n : String) (ts : List (TestCase (Callbacks W))) (t : TestCase (Callbacks W))
      → find_test n ts ≡ some t
      → t.name ≡ n
  unfolding find_test
  find_test-name n [] t e = absurd (ground arith)
  find_test-name n (u ∷ us) t e = elim (Bool-cases (str_eq u.name n)) [
    | inl same ↦
        let this : u ≡ t = ground arith in
        ap (λ (v : TestCase (Callbacks W)). v.name) (sym this) ∙ (eq_iff u.name n).0 same
    | inr other ↦ find_test-name n us t (ground arith)
  ]

  pub length-test_names : (ts : List (TestCase (Callbacks W))) → length (test_names ts) ≡ length ts
  unfolding test_names
  length-test_names [] = refl
  length-test_names (t ∷ ts) = ap suc (length-test_names ts)

module _ {W : Type 0} (tests : List (TestCase (Callbacks W))) where
  pub find_all_lem :
      (ns : List String)
      → AllFound tests ns
      → (chunk : List (TestCase (Callbacks W))) × (find_all ns tests ≡ some chunk)
        × (test_names chunk ≡ ns)
  unfolding find_all test_names
  find_all_lem [] found = ([], refl, refl)
  find_all_lem (n ∷ ns) found =
      let (t, e) = AllFound-head tests n ns found in
      let (ts, es, same) = find_all_lem ns (AllFound-tail tests n ns found) in
      (
        t ∷ ts,
        rw (e, es, find_all),
        ap₂ (λ (x : String) l. x ∷ l) (find_test-name n tests t e) same,
      )

pub AllCan-sub :
    (needs : String → List String) (done more : String → Bool) (holds part all : List String)
    → ((x : String) → elem x part ≡ true → elem x all ≡ true)
    → ((x : String) → done x ≡ true → more x ≡ true)
    → AllCan needs done holds all
    → AllCan needs more holds part
unfolding AllCan
AllCan-sub needs done more holds part all sub grows can n h =
    let (inside, ready) = can n (sub n h) in (inside, λ x e. grows x (ready x e))
