-- ===== src/Sequencer/Run/Chunks.antt =====
-- One level: its tests one after another, or in chunks of threads.
use Prim.Native.String.{String}
use text.Mathlib.TextEquality.{eq_iff}
use soc_validation_framework.Prelude.{
  ℕ, suc, ◌+◌, ◌≤◌, ◌≡◌, ◌≢◌, inl, inr, refl, sym, ◌∙◌, ap, subst, Bool, true, ◌||◌, List, [], ◌∷◌,
  map, none, some, get_elem?, length, Bool-cases, arith,
}
use soc_validation_framework.Sequencer.{TestCase, elem}
use soc_validation_framework.Sequencer.Counts.{count}
use soc_validation_framework.Sequencer.Run.Once.{begun, unstarted_in, unstarteds, run_threads-begun}
use soc_validation_framework.Sequencer.RunOne.{Callbacks}
use soc_validation_framework.Sequencer.Thread.{Environment, Thread, Event}
use soc_validation_framework.Sequencer.Run.{Progress, start, collect, run_threads, run_chunk}
use soc_validation_framework.Sequencer.Run.Trace.{ended, active, IsSettled, IsSteady}
use soc_validation_framework.Sequencer.Run.Pool.{plan, actives, actives-finished, AllFit}
use soc_validation_framework.Sequencer.Run.Drain.{run_threads-IsAdvance}
use soc_validation_framework.Sequencer.Run.Filed.{
  IsRight, file_all-IsRight, file_all_keeps, file_all_adds, AllOf, planned, collect-AllPlaced,
  planned-ended,
}

module _ {W Time : Type 0} (needs : String → List String) (limit : ℕ)
    (ls : List (List String)) where
  -- Between levels and chunks: no test runs, the tests of `done` have ended and their results
  -- are filed, and each test has begun as often as the tally says.
  pub record IsKept (done : String → Bool) (tally : String → ℕ) (p : Progress W Time) : Type 0 where
    pub steady : IsSteady needs limit 0 p.shared.trace
    pub past : (x : String) → done x ≡ true → ended x p.shared.trace ≡ true
    pub filed : (x : String) → done x ≡ true → p.by_name x ≢ none
    pub right : IsRight ls p.by_name
    pub once : (x : String) → begun x p.shared.trace ≡ tally x

  pub IsKept-mono :
      (done fewer : String → Bool) (tally same : String → ℕ) (p : Progress W Time)
      → ((x : String) → fewer x ≡ true → done x ≡ true)
      → ((x : String) → tally x ≡ same x)
      → IsKept done tally p
      → IsKept fewer same p
  IsKept-mono done fewer tally same p sub equal k = record {
    steady = k.steady;
    past = λ x e. k.past x (sub x e);
    filed = λ x e. k.filed x (sub x e);
    right = k.right;
    once = λ x. k.once x ∙ equal x;
  }

-- The names may run: the level holds them, and what they need is done.
unfoldable pub AllCan :
    (String → List String) → (String → Bool) → List String → List String → Type 0
AllCan needs done holds ns =
    (n : String)
    → elem n ns ≡ true
    → (elem n holds ≡ true) × ((x : String) → elem x (needs n) ≡ true → done x ≡ true)

pub AllCan-head :
    (needs : String → List String) (done : String → Bool) (holds ns : List String) (n : String)
    → AllCan needs done holds (n ∷ ns)
    → (elem n holds ≡ true) × ((x : String) → elem x (needs n) ≡ true → done x ≡ true)
unfolding AllCan elem
AllCan-head needs done holds ns n can = can n (ground (arith, eq_iff n n))

pub AllCan-tail :
    (needs : String → List String) (done : String → Bool) (holds ns : List String) (n : String)
    → AllCan needs done holds (n ∷ ns)
    → AllCan needs done holds ns
unfolding AllCan elem
AllCan-tail needs done holds ns n can m inside = can m (ground arith)

module _ {W : Type 0} where
  unfoldable pub test_names : List (TestCase (Callbacks W)) → List String
  test_names [] = []
  test_names (t ∷ ts) = t.name ∷ test_names ts

module _ {W : Type 0} (Time : Type 0) (needs : String → List String) (level : ℕ) where
  abbrev launched : List (TestCase (Callbacks W)) → List (Thread W Time)
  launched tests = map (start level) tests

  actives-launched : (tests : List (TestCase (Callbacks W))) → actives (launched tests) ≡ 0
  unfolding actives active
  actives-launched [] = refl
  actives-launched (t ∷ ts) = omega (arith, actives-launched ts)

  length-launched : (tests : List (TestCase (Callbacks W))) → length (launched tests) ≡ length tests
  length-launched [] = refl
  length-launched (t ∷ ts) = ap suc (length-launched ts)

  unstarteds-launched :
      (x : String) (tests : List (TestCase (Callbacks W)))
      → unstarteds x (launched tests) ≡ count x (test_names tests)
  unfolding unstarteds unstarted_in count test_names
  unstarteds-launched x [] = refl
  unstarteds-launched x (t ∷ ts) = ground (arith, unstarteds-launched x ts)

  planned-launched :
      (tests : List (TestCase (Callbacks W))) → planned (plan (launched tests)) ≡ test_names tests
  unfolding planned plan test_names
  planned-launched [] = refl
  planned-launched (t ∷ ts) = ap (λ ns. t.name ∷ ns) (planned-launched ts)

  AllFit-launched :
      (tests : List (TestCase (Callbacks W))) (done : String → Bool) (holds : List String)
      (trace : List Event)
      → AllCan needs done holds (test_names tests)
      → ((x : String) → done x ≡ true → ended x trace ≡ true)
      → AllFit needs (launched tests) trace × AllOf level holds (plan (launched tests))
  unfolding AllFit AllOf plan IsSettled test_names
  AllFit-launched [] done holds trace can past = (tt, tt)
  AllFit-launched (t ∷ ts) done holds trace can past =
      let (inside, ready) = AllCan-head needs done holds (test_names ts) t.name can in
      let (fit, all) =
        AllFit-launched ts done holds trace
          (AllCan-tail needs done holds (test_names ts) t.name can) past in
      ((((λ x e. past x (ready x e)), tt), fit), ((refl, inside), all))

module _ {W Time : Type 0} (env : Environment W Time) (needs : String → List String) (limit : ℕ)
    (ls : List (List String)) (level : ℕ) (holds : List String)
    (at_level : get_elem? ls level ≡ some holds) where
  pub run_chunk-IsKept :
      (order : List ℕ) (tests : List (TestCase (Callbacks W))) (done : String → Bool)
      (tally : String → ℕ) (p : Progress W Time)
      → length tests ≤ limit
      → AllCan needs done holds (test_names tests)
      → IsKept needs limit ls done tally p
      → IsKept needs limit ls
          (λ x. elem x (test_names tests) || done x)
          (λ x. count x (test_names tests) + tally x)
          (run_chunk env order level tests p)
  unfolding run_chunk
  run_chunk-IsKept order tests done tally p room can k =
      let ts = launched Time needs level tests in
      let none_active = actives-launched Time needs level tests in
      let (fit, all) =
        AllFit-launched Time needs level tests done holds p.shared.trace can k.past in
      let (a, over) =
        run_threads-IsAdvance env needs limit order ts p.shared 0
          (omega (arith, length-launched Time needs level tests))
          (subst (λ m. IsSteady needs limit m p.shared.trace) (omega (arith, none_active)) k.steady)
          fit in
      let (ts', s') = run_threads env order ts p.shared in
      let finished_all : 0 + actives ts' ≡ 0 = omega (arith, actives-finished ts' over) in
      let held = subst (AllOf level holds) (sym a.same) all in
      let (placed, filed) =
        collect-AllPlaced needs ls level holds ts' s'.trace at_level over a.fit held in
      let same : planned (plan ts') ≡ test_names tests =
        ap planned a.same ∙ planned-launched Time needs level tests in
      record {
        steady = subst (λ m. IsSteady needs limit m s'.trace) finished_all a.steady;
        past = λ x h. elim (Bool-cases (done x)) [
          | inl old ↦ a.grows x (k.past x old)
          | inr new ↦
              planned-ended needs ts' s'.trace x over a.fit (ap (elem x) same ∙ ground arith)
        ];
        filed = λ x h. elim (Bool-cases (done x)) [
          | inl old ↦ file_all_keeps (collect ts') p.by_name x (k.filed x old)
          | inr new ↦
              file_all_adds (collect ts') p.by_name x (ap (elem x) (filed ∙ same) ∙ ground arith)
        ];
        right = file_all-IsRight ls (collect ts') p.by_name placed k.right;
        once = λ x. omega (
          arith,
          run_threads-begun env x order ts p.shared over,
          unstarteds-launched Time needs level x tests,
          k.once x,
        );
      }
