-- ===== src/Benchmark/Suite/Built.antt =====
-- The suite that `BuildSuite` builds: no `Add` of it throws, and what its tests are.
use Prim.Native.String.{String}
use text.Mathlib.Text.{starts_with}
use text.Mathlib.TextEquality.{eq_iff}
use text.Mathlib.TextLemmas.{append_cancel_left}
use text.Mathlib.TextPositions.{starts_with-append}
use soc_validation_framework.Prelude.{
  ℕ, zero, suc, ◌+◌, ◌≤◌, ◌≡◌, ◌≢◌, refl, ◌∙◌, ap, subst, List, [], ◌∷◌, ◌++◌, some, true, false,
  length, arith, if◌then◌else◌,
}
use soc_validation_framework.Bus.{Result, ok, err}
use soc_validation_framework.Sequencer.{TestCase, set_of, has_name, elem}
use soc_validation_framework.Sequencer.Declared.{declared, or_else}
use soc_validation_framework.Sequencer.Suite.{
  IsSuite, has_name-append, append-IsSuite, declared-append, add_new,
}
use soc_validation_framework.Sequencer.RunOne.{Callbacks}
use soc_validation_framework.Benchmark.Suite.{
  callbacks, bench_case, case_name, add_cases, build_suite,
}

abbrev pub gates : List String
gates = "link_up" ∷ "dma_reset" ∷ []

-- The level of a test: the gating tests go first.
unfoldable pub depth : String → ℕ
depth n = if elem n gates then 0 else 1

module _ {W : Type 0} where
  unfoldable pub AllSame : List (TestCase (Callbacks W)) → Type 0
  AllSame [] = Unit
  AllSame (t ∷ ts) = (t.body ≡ callbacks W) × AllSame ts

  AllSame-append :
      (ts : List (TestCase (Callbacks W))) (t : TestCase (Callbacks W))
      → AllSame ts
      → t.body ≡ callbacks W
      → AllSame (ts ++ t ∷ [])
  unfolding AllSame
  AllSame-append [] t all same = (same, tt)
  AllSame-append (s ∷ ss) t all same = (all.0, AllSame-append ss t all.1 same)

  length-append_one :
      (ts : List (TestCase (Callbacks W))) (t : TestCase (Callbacks W))
      → length (ts ++ t ∷ []) ≡ length ts + 1
  length-append_one [] t = refl
  length-append_one (s ∷ ss) t = omega (arith, length-append_one ss t)

module _ (to_decimal : ℕ → String)
    (distinct : (i j : ℕ) → to_decimal i ≡ to_decimal j → i ≡ j) where
  case_name-differ : (i j : ℕ) → case_name to_decimal i ≡ case_name to_decimal j → i ≡ j
  case_name-differ i j e =
      distinct i j (append_cancel_left "dma_case_" (to_decimal i) (to_decimal j) e)

  case_name-other :
      (i : ℕ) (n : String) → starts_with n "dma_case_" ≡ false → case_name to_decimal i ≢ n
  case_name-other i n e same = ground (
    arith,
    starts_with-append "dma_case_" (to_decimal i),
    ap (λ s. starts_with s "dma_case_") same,
  )

  case_name-gates : (i : ℕ) → elem (case_name to_decimal i) gates ≡ false
  unfolding elem
  case_name-gates i = ground (
    arith,
    eq_iff (case_name to_decimal i) "link_up",
    eq_iff (case_name to_decimal i) "dma_reset",
    case_name-other i "link_up" refl,
    case_name-other i "dma_reset" refl,
  )

module _ (W : Type 0) (to_decimal : ℕ → String)
    (distinct : (i j : ℕ) → to_decimal i ≡ to_decimal j → i ≡ j) where
  -- The suite with the gating tests and the first `n` others.
  pub record IsBuilt (n : ℕ) (s : List (TestCase (Callbacks W))) : Type 0 where
    pub size : length s ≡ n + 2
    pub fresh : (j : ℕ) → n ≤ j → has_name (case_name to_decimal j) s ≡ false
    pub named : IsSuite s
    pub bodies : AllSame s
    pub gating : (m : String) → elem m gates ≡ true → declared s m ≡ some []
    pub others :
        (m : String) (deps : List String)
        → declared s m ≡ some deps
        → elem m gates ≡ false
        → deps ≡ set_of gates

  abbrev gating_tests : List (TestCase (Callbacks W))
  gating_tests = bench_case W "link_up" [] ∷ bench_case W "dma_reset" [] ∷ []

  gating_tests-IsBuilt : IsBuilt 0 gating_tests
  unfolding has_name IsSuite AllSame declared or_else set_of elem
  gating_tests-IsBuilt = record {
    size = refl;
    fresh = λ j le. ground (
      arith,
      eq_iff "link_up" (case_name to_decimal j),
      eq_iff "dma_reset" (case_name to_decimal j),
      case_name-other to_decimal distinct j "link_up" refl,
      case_name-other to_decimal distinct j "dma_reset" refl,
    );
    named = (
      (λ e. ground (arith, eq_iff "link_up" "")),
      refl,
      ((λ e. ground (arith, eq_iff "dma_reset" "")), refl, tt),
    );
    bodies = (refl, (refl, tt));
    gating = λ m e. ground arith;
    others = λ m deps e out. ground arith;
  }

  abbrev case : ℕ → TestCase (Callbacks W)
  case n = bench_case W (case_name to_decimal n) gates

  step-IsBuilt :
      (n : ℕ) (s : List (TestCase (Callbacks W))) → IsBuilt n s → IsBuilt (suc n) (s ++ case n ∷ [])
  step-IsBuilt n s b =
      let unnamed = case_name-other to_decimal distinct n "" refl in
      record {
        size = omega (arith, b.size, length-append_one s (case n));
        fresh = λ j le.
            has_name-append (case_name to_decimal j) s (case n) (b.fresh j (omega arith))
              (λ e. omega (arith, case_name-differ to_decimal distinct n j e));
        named = append-IsSuite s (case n) b.named unnamed (b.fresh n (omega arith));
        bodies = AllSame-append s (case n) b.bodies refl;
        gating = λ m e. ground (
          arith,
          b.gating m e,
          declared-append s (case n) m,
          case_name-gates to_decimal distinct n,
          eq_iff m (case_name to_decimal n),
        );
        others = λ m deps e out. ground (arith, b.others m deps, declared-append s (case n) m);
      }

  add_cases-IsBuilt :
      (left i : ℕ) (s : List (TestCase (Callbacks W)))
      → IsBuilt i s
      → (all : List (TestCase (Callbacks W))) × (add_cases W to_decimal left i s ≡ ok all)
        × IsBuilt (i + left) all
  unfolding add_cases
  add_cases-IsBuilt zero i s b = (s, refl, subst (λ n. IsBuilt n s) (omega arith) b)
  add_cases-IsBuilt (suc left) i s b =
      let (all, e, built) =
        add_cases-IsBuilt left (suc i) (s ++ case i ∷ []) (step-IsBuilt i s b) in
      let one =
        add_new (case i) s (case_name-other to_decimal distinct i "" refl)
          (b.fresh i (omega arith)) in
      let next : Result (List (TestCase (Callbacks W))) → Result (List (TestCase (Callbacks W))) =
        λ r. elim r [ err e ↦ err e | ok more ↦ add_cases W to_decimal left (suc i) more ] in
      (all, ap next one ∙ e, subst (λ n. IsBuilt n all) (omega arith) built)

  -- `BuildSuite` returns.
  pub build_suite-IsBuilt :
      (n : ℕ)
      → (all : List (TestCase (Callbacks W))) × (build_suite W to_decimal n ≡ ok all)
        × IsBuilt n all
  unfolding build_suite add_cases has_name
  build_suite-IsBuilt n =
      let (all, e, built) = add_cases-IsBuilt n 0 gating_tests gating_tests-IsBuilt in
      let first =
        add_new (bench_case W "link_up" []) [] (λ e. ground (arith, eq_iff "link_up" "")) refl in
      let second =
        add_new (bench_case W "dma_reset" []) (bench_case W "link_up" [] ∷ [])
          (λ e. ground (arith, eq_iff "dma_reset" "")) refl in
      (all, ground (arith, first, second, e), subst (λ m. IsBuilt m all) (omega arith) built)
