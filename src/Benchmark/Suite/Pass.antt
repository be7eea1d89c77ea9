-- ===== src/Benchmark/Suite/Pass.antt =====
-- The suite of the benchmark passes, in two levels.
use Prim.Native.String.{String}
use text.Mathlib.Text.{◌==◌ as str_eq}
use text.Mathlib.TextEquality.{eq_iff}
use soc_validation_framework.Prelude.{
  ℕ, zero, suc, ◌+◌, ◌<◌, ◌≡◌, ◌≢◌, refl, sym, ◌∙◌, ap, subst, List, [], ◌∷◌, Option, none, some,
  true, false, length, inl, inr, arith, Bool-cases, Option-cases, get_elem?,
}
use soc_validation_framework.Bus.{Result, ok, err}
use soc_validation_framework.Sequencer.{TestCase, elem, set_of, levels, has_name}
use soc_validation_framework.Sequencer.Declared.{declared, elem-set_of}
use soc_validation_framework.Sequencer.Schedule.{levels_acyclic, levels_order, levels_tight}
use soc_validation_framework.Sequencer.RunOne.{
  outcome_of, Callbacks, TestResult, Ended, pass, returned, if_set,
}
use soc_validation_framework.Sequencer.Thread.{Environment, Shared}
use soc_validation_framework.Sequencer.Run.{run_suite, find_test}
use soc_validation_framework.Sequencer.Run.Filed.{IsPlaced}
use soc_validation_framework.Sequencer.Run.Genuine.Pool.{IsGenuine, AllGenuine}
use soc_validation_framework.Sequencer.Run.Genuine.Whole.{run_suite-AllGenuine}
use soc_validation_framework.Sequencer.Run.Genuine.{
  HasSetUp, HasRun, HasTornDown, HasEnded, IsVerdict, IsReport,
}
use soc_validation_framework.Sequencer.Run.Results.{
  unstarted, AllReported, declared_test, run_suite-AllReported,
}
use soc_validation_framework.Benchmark.Polling.{workload-ok}
use soc_validation_framework.Benchmark.Suite.{callbacks, build_suite}
use soc_validation_framework.Benchmark.Suite.Built.{
  gates, depth, AllSame, IsBuilt, build_suite-IsBuilt,
}

module _ {W : Type 0} (to_decimal : ℕ → String)
    (distinct : (i j : ℕ) → to_decimal i ≡ to_decimal j → i ≡ j) (n : ℕ)
    (s : List (TestCase (Callbacks W))) (b : IsBuilt W to_decimal distinct n s) where
  falls :
      (m x : String) (deps : List String)
      → declared s m ≡ some deps
      → elem x deps ≡ true
      → (depth x < depth m) × (declared s x ≢ none)
  unfolding depth elem
  falls m x deps dm dep = elim (Bool-cases (elem m gates)) [
    | inl e ↦
        let none_left : deps ≡ [] = ground (arith, b.gating m e) in
        absurd (ground (arith, ap (elem x) none_left))
    | inr e ↦
        let gate : elem x gates ≡ true =
          sym (elem-set_of x gates) ∙ ap (elem x) (sym (b.others m deps dm e)) ∙ dep in
        (ground arith, λ gone. ground (arith, b.gating x gate))
  ]

  module _ (ls : List (List String)) (found : levels s ≡ some (ok ls)) where
    -- A test without dependencies is in the first level.
    gate_level :
        (i : ℕ) (level : List String) (m : String)
        → get_elem? ls i ≡ some level
        → elem m level ≡ true
        → elem m gates ≡ true
        → i ≡ 0
    unfolding elem
    gate_level zero level m at_i inside gate = refl
    gate_level (suc i) level m at_i inside gate =
        let (x, before, dep, at_j, there) =
          levels_tight s ls i level [] m found at_i inside (b.gating m gate) in
        absurd (ground arith)

    case_level :
        (i : ℕ) (level : List String) (m : String)
        → get_elem? ls i ≡ some level
        → elem m level ≡ true
        → elem m gates ≡ false
        → declared s m ≡ some (set_of gates)
        → i ≡ 1
    unfolding elem
    case_level zero level m at_i inside other dm =
        let first : elem "link_up" (set_of gates) ≡ true = elem-set_of "link_up" gates in
        let (j, earlier, lt, at_j, there) =
          levels_order s ls 0 level (set_of gates) m "link_up" found at_i inside dm first in
        absurd (omega arith)
    case_level (suc i) level m at_i inside other dm =
        let (x, before, dep, at_j, there) =
          levels_tight s ls i level (set_of gates) m found at_i inside dm in
        let gate : elem x gates ≡ true = sym (elem-set_of x gates) ∙ dep in
        ap suc (gate_level i before x at_j there gate)

    level_depth :
        (i : ℕ) (level : List String) (m : String)
        → get_elem? ls i ≡ some level
        → elem m level ≡ true
        → declared s m ≢ none
        → i ≡ depth m
    unfolding depth
    level_depth i level m at_i inside known = elim (Bool-cases (elem m gates)) [
      | inl gate ↦ ground (arith, gate_level i level m at_i inside gate)
      | inr other ↦ elim (Option-cases (declared s m)) [
        | inl gone ↦ absurd (known gone)
        | inr (deps, dm) ↦ ground (
          arith,
          case_level i level m at_i inside other (dm ∙ ap some (b.others m deps dm other)),
        )
      ]
    ]

module _ (W : Type 0) where
  find_test-AllSame :
      (m : String) (ts : List (TestCase (Callbacks W))) (t : TestCase (Callbacks W))
      → AllSame ts
      → find_test m ts ≡ some t
      → t.body ≡ callbacks W
  unfolding AllSame find_test
  find_test-AllSame m [] t all e = absurd (ground arith)
  find_test-AllSame m (u ∷ us) t all e = elim (Bool-cases (str_eq u.name m)) [
    | inl same ↦
        let this : u ≡ t = ground arith in
        subst (λ (v : TestCase (Callbacks W)). v.body ≡ callbacks W) this all.0
    | inr other ↦ find_test-AllSame m us t all.1 (ground arith)
  ]

module _ {W Time : Type 0} where
  -- Each result is that of the test at its place: PASS, in the first level if the test is a gating
  -- one, and otherwise in the second.
  unfoldable pub AllPassed : List (TestCase (Callbacks W)) → List (TestResult Time) → Type 0
  AllPassed [] [] = Unit
  AllPassed [] (r ∷ rs) = ⊥
  AllPassed (t ∷ ts) [] = ⊥
  AllPassed (t ∷ ts) (r ∷ rs) =
      (r.name ≡ t.name) × (r.status ≡ pass) × (r.level ≡ depth t.name) × AllPassed ts rs

module _ {W Time : Type 0} (env : Environment W Time)
    (on_time : (m : String) → env.late m ≡ false) where
  module _ (tests : List (TestCase (Callbacks W))) (first : W) where
    callbacks_return :
        (before : ℕ) (e : Ended) (now : W)
        → HasEnded env tests first (callbacks W) before e now
        → e ≡ returned
    unfolding HasEnded HasSetUp HasTornDown HasRun if_set outcome_of
    callbacks_return before e now (inl ((w, h, same, way), threw)) = absurd (threw (sym same))
    callbacks_return before e now (inr (inl (b, (w, h, same, way), threw))) =
        absurd (threw (sym same))
    callbacks_return before e now (inr (inr (w, (w', h, ended, on), same, way))) =
        sym ended ∙ ap outcome_of workload-ok

    report_passes :
        (t : TestCase (Callbacks W)) (r : TestResult Time) (now : W)
        → t.body ≡ callbacks W
        → IsReport env tests first t r now
        → r.status ≡ pass
    unfolding IsVerdict
    report_passes t r now same h =
        let back =
          callbacks_return h.before h.ended h.last
            (subst (λ c. HasEnded env tests first c h.before h.ended h.last) same h.ending) in
        let verdict =
          subst (λ late. IsVerdict env tests first late t.body.timeout h.ended r.status r.message)
            (on_time t.name) h.verdict in
        (subst (λ e. IsVerdict env tests first false t.body.timeout e r.status r.message) back
          verdict).0

  module _ (s : List (TestCase (Callbacks W))) (all : AllSame s) (first now : W) where
    genuine_passes : (r : TestResult Time) → IsGenuine env s first now r → r.status ≡ pass
    unfolding IsGenuine
    genuine_passes r (t, known, reported) =
        report_passes s first t r now (find_test-AllSame W r.name s t all known) reported

    passed :
        (ls : List (List String)) (ts : List (TestCase (Callbacks W))) (rs : List (TestResult Time))
        → ((m : String) → has_name m ts ≡ true → has_name m s ≡ true)
        → ((i : ℕ) (level : List String) (m : String)
            → get_elem? ls i ≡ some level
            → elem m level ≡ true
            → declared s m ≢ none
            → i ≡ depth m)
        → AllReported ls ts rs
        → AllGenuine env s first now rs
        → AllPassed ts rs
    unfolding AllReported AllGenuine AllPassed IsPlaced has_name
    passed ls [] [] sub at_depth reported genuine = tt
    passed ls [] (r ∷ rs) sub at_depth reported genuine = reported
    passed ls (t ∷ ts) [] sub at_depth reported genuine = reported
    passed ls (t ∷ ts) (r ∷ rs) sub at_depth (same, (level, at_i, inside), reported)
          (one, genuine) =
        let here : has_name t.name s ≡ true = sub t.name (ground (arith, eq_iff t.name t.name)) in
        (
          same,
          genuine_passes r one,
          at_depth r.level level t.name at_i (ap (λ m. elem m level) (sym same) ∙ inside)
              (declared_test s t.name here),
          passed ls ts rs (λ m e. sub m (ground arith)) at_depth reported genuine,
        )

-- The benchmark's suite, with any number of independent tests: `BuildSuite` returns it with two
-- tests more; and whatever the number of threads and their interleaving, as long as no deadline
-- passes, `Run` returns a result for each test, which is PASS, in the first level for the two
-- gating tests and in the second for all others. `to_decimal` is a `std::to_string` that gives
-- different numbers different texts.
pub build_suite_passes :
    {W Time : Type 0} (env : Environment W Time) (no_time : Time) (orders : ℕ → ℕ → List ℕ)
    (threads : ℕ) (w : W) (to_decimal : ℕ → String) (n : ℕ)
    → ((i j : ℕ) → to_decimal i ≡ to_decimal j → i ≡ j)
    → ((m : String) → env.late m ≡ false)
    → (tests : List (TestCase (Callbacks W))) × (rs : List (TestResult Time)) × (s : Shared W)
      × (build_suite W to_decimal n ≡ ok tests)
      × (length tests ≡ n + 2)
      × (run_suite env no_time orders threads tests (unstarted w) ≡ some (ok rs, s))
      × AllPassed tests rs
build_suite_passes {W} {Time} env no_time orders threads w to_decimal n distinct on_time =
    let (tests, built, b) = build_suite-IsBuilt W to_decimal distinct n in
    let (ls, found) = levels_acyclic tests depth (falls to_decimal distinct n tests b) in
    let (rs, s, ran, reported, once) =
      run_suite-AllReported env no_time orders threads tests b.named ls found w in
    let (rs', s', ran', way, genuine) =
      run_suite-AllGenuine env no_time orders threads tests b.named ls found w in
    let same : rs' ≡ rs = ap results (sym ran' ∙ ran) in
    (
      tests,
      rs,
      s,
      built,
      b.size,
      ran,
      passed env on_time tests b.bodies w s'.world ls tests rs (λ m e. e)
          (level_depth to_decimal distinct n tests b ls found) reported
          (subst (AllGenuine env tests w s'.world) same genuine),
    )
  where
    results : Option (Result (List (TestResult Time)) × Shared W) → List (TestResult Time)
    results none = []
    results (some (ok rs, s)) = rs
    results (some (err e, s)) = []
