-- ===== src/Sequencer/Run/Serial.antt =====
-- A level run one test after another.
use Prim.Native.String.{String}
use text.Mathlib.Text.{◌==◌ as str_eq}
use soc_validation_framework.Prelude.{
  ℕ, suc, ◌+◌, ◌≤◌, ◌≡◌, refl, sym, ◌∙◌, ap, Bool, true, ◌||◌, List, [], ◌∷◌, some, get_elem?,
  if◌then◌else◌, arith,
}
use soc_validation_framework.Bus.{ok}
use soc_validation_framework.Sequencer.{TestCase, elem}
use soc_validation_framework.Sequencer.RunOne.{Callbacks, TestResult, run_one, report}
use soc_validation_framework.Sequencer.Thread.{Environment, begins, ends}
use soc_validation_framework.Sequencer.Run.{Progress, find_test, file, run_serial}
use soc_validation_framework.Sequencer.Run.Trace.{ended, running, IsOrdered, IsBounded}
use soc_validation_framework.Sequencer.Run.Filed.{IsPlaced, file-IsRight}
use soc_validation_framework.Sequencer.Counts.{count}
use soc_validation_framework.Sequencer.Run.Once.{begun}
use soc_validation_framework.Sequencer.Run.Chunks.{IsKept, IsKept-mono, AllCan, AllCan-head}
use soc_validation_framework.Sequencer.Run.Found.{
  AllFound, find_test-name, AllFound-head, AllFound-tail, AllCan-sub,
}

module _ {W Time : Type 0} (env : Environment W Time) (needs : String → List String) (limit : ℕ)
    (ls : List (List String)) (tests : List (TestCase (Callbacks W))) (level : ℕ)
    (holds : List String) (at_level : get_elem? ls level ≡ some holds) where
  -- One test that has run alone.
  ran_alone :
      (n name : String) (r : TestResult Time) (w : W) (done : String → Bool) (tally : String → ℕ)
      (p : Progress W Time)
      → 1 ≤ limit
      → name ≡ n
      → r.name ≡ n
      → IsPlaced ls r
      → ((x : String) → elem x (needs n) ≡ true → done x ≡ true)
      → IsKept needs limit ls done tally p
      → IsKept needs limit ls
          (λ x. str_eq x n || done x)
          (λ x. if str_eq x n then suc (tally x) else tally x)
          (record {
            shared = record { world = w; trace = ends name ∷ begins name ∷ p.shared.trace };
            by_name = file n r p.by_name;
          })
  unfolding ended running begun IsOrdered IsBounded file
  ran_alone n name r w done tally p room same own placed ready k = record {
    steady = record {
      order =
          ((λ x e. k.past x (ready x (ap (λ m. elem x (needs m)) (sym same) ∙ e))), k.steady.order);
      bound = (omega (arith, k.steady.runs), (omega (arith, k.steady.runs), k.steady.bound));
      runs = omega (arith, k.steady.runs);
    };
    past = λ x h. ground (arith, k.past x, ap (str_eq x) same);
    filed = λ x h e. ground (arith, k.filed x);
    right = file-IsRight ls n r p.by_name own placed k.right;
    once = λ x. ground (arith, k.once x, ap (str_eq x) same);
  }

  run_serial-step :
      (n : String) (ns : List String) (p : Progress W Time) (test : TestCase (Callbacks W))
      → find_test n tests ≡ some test
      → (r : TestResult Time) × (w : W) × (r.name ≡ test.name)
        × (r.level ≡ level)
        × (run_serial env tests level (n ∷ ns) p
            ≡ run_serial env tests level ns (record {
              shared = record {
                world = w;
                trace = ends test.name ∷ begins test.name ∷ p.shared.trace;
              };
              by_name = file n r p.by_name;
            }))
  unfolding run_serial run_one report
  run_serial-step n ns p test e =
      let (r, w) =
        run_one (env.duration test.name) env.to_decimal env.counter (env.late test.name) test level
          p.shared.world in
      (r, w, refl, refl, rw (e, run_serial))

  pub run_serial-IsKept :
      (ns : List String) (done : String → Bool) (tally : String → ℕ) (p : Progress W Time)
      → 1 ≤ limit
      → AllFound tests ns
      → AllCan needs done holds ns
      → IsKept needs limit ls done tally p
      → (p' : Progress W Time) × (run_serial env tests level ns p ≡ (ok tt, p'))
        × IsKept needs limit ls (λ x. elem x ns || done x) (λ x. count x ns + tally x) p'
  unfolding elem count IsPlaced
  run_serial-IsKept [] done tally p room found can k = (
    p,
    unfold run_serial in refl,
    IsKept-mono needs limit ls done done tally (λ x. 0 + tally x) p (λ x h. h) (λ x. omega arith) k,
  )
  run_serial-IsKept (n ∷ ns) done tally p room found can k =
      let (test, e) = AllFound-head tests n ns found in
      let same = find_test-name n tests test e in
      let (r, w, name, lev, stepped) = run_serial-step n ns p test e in
      let (inside, ready) = AllCan-head needs done holds ns n can in
      let after = λ (x : String). str_eq x n || done x in
      let counted = λ (x : String). if str_eq x n then suc (tally x) else tally x in
      let ran =
        ran_alone n test.name r w done tally p room same (name ∙ same)
          (holds, ap (get_elem? ls) lev ∙ at_level, ap (λ m. elem m holds) (name ∙ same) ∙ inside)
          ready k in
      let (p', e', k') =
        run_serial-IsKept ns after counted _ room (AllFound-tail tests n ns found)
          (AllCan-sub needs done after holds ns (n ∷ ns) (λ x h. ground arith) (λ x h. ground arith)
            can)
          ran in
      (
        p',
        stepped ∙ e',
        IsKept-mono needs limit ls (λ x. elem x ns || after x) (λ x. elem x (n ∷ ns) || done x)
            (λ x. count x ns + counted x) (λ x. count x (n ∷ ns) + tally x) p' (λ x h. ground arith)
            (λ x. ground arith) k',
      )
