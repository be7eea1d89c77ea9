-- ===== src/Sequencer/Run/Genuine/Filed.antt =====
-- What is filed by name is genuine.
use Prim.Native.String.{String}
use text.Mathlib.Text.{◌==◌ as str_eq}
use soc_validation_framework.Prelude.{
  ℕ, ◌≡◌, ◌∙◌, ap, subst, List, [], ◌∷◌, map, Option, none, some, Bool-cases, Option-cases, inl,
  inr, arith,
}
use soc_validation_framework.Sequencer.{TestCase}
use soc_validation_framework.Sequencer.RunOne.{Callbacks, TestResult}
use soc_validation_framework.Sequencer.Thread.{Environment}
use soc_validation_framework.Sequencer.Run.{
  ByName, Progress, start, collect, find_test, find_all, file, file_all, run_threads, run_chunk,
}
use soc_validation_framework.Sequencer.Run.Found.{find_test-name}
use soc_validation_framework.Sequencer.Run.Genuine.{Way, Way-trans, IsHonest}
use soc_validation_framework.Sequencer.Run.Genuine.Pool.{
  IsFaithful, AllFaithful, run_threads-AllFaithful, IsGenuine, IsGenuine-later, AllGenuine,
  collect-AllGenuine,
}

module _ {W Time : Type 0} (env : Environment W Time) (tests : List (TestCase (Callbacks W)))
    (first : W) where
  unfoldable pub IsGenuineMap : W → ByName Time → Type 0
  IsGenuineMap now by_name =
      (n : String) (r : TestResult Time) → by_name n ≡ some r → IsGenuine env tests first now r

  -- The run has come along its way, and what it has filed is genuine.
  unfoldable pub IsGenuineRun : Progress W Time → Type 0
  unfolding IsGenuineMap
  IsGenuineRun p = Way tests first p.shared.world × IsGenuineMap p.shared.world p.by_name

  pub IsGenuineMap-later :
      (w w' : W) (by_name : ByName Time)
      → Way tests w w'
      → IsGenuineMap w by_name
      → IsGenuineMap w' by_name
  unfolding IsGenuineMap
  IsGenuineMap-later w w' by_name on all n r e =
      IsGenuine-later env tests first r w w' on (all n r e)

  pub file-IsGenuineMap :
      (now : W) (n : String) (r : TestResult Time) (by_name : ByName Time)
      → IsGenuine env tests first now r
      → IsGenuineMap now by_name
      → IsGenuineMap now (file n r by_name)
  unfolding file IsGenuineMap
  file-IsGenuineMap now n r by_name genuine all m q e = elim (Bool-cases (str_eq m n)) [
    | inl same ↦
        let this : r ≡ q = ground arith in
        subst (λ (x : TestResult Time). IsGenuine env tests first now x) this genuine
    | inr other ↦ all m q (ground arith)
  ]

  file_all-IsGenuineMap :
      (now : W) (rs : List (TestResult Time)) (by_name : ByName Time)
      → AllGenuine env tests first now rs
      → IsGenuineMap now by_name
      → IsGenuineMap now (file_all rs by_name)
  unfolding file_all AllGenuine
  file_all-IsGenuineMap now [] by_name h all = all
  file_all-IsGenuineMap now (r ∷ rs) by_name (h, hs) all =
      file_all-IsGenuineMap now rs (file r.name r by_name) hs
        (file-IsGenuineMap now r.name r by_name h all)

  -- Tests that are found under their own names.
  unfoldable pub AllKnown : List (TestCase (Callbacks W)) → Type 0
  AllKnown [] = Unit
  AllKnown (t ∷ ts) = (find_test t.name tests ≡ some t) × AllKnown ts

  start-AllFaithful :
      (now : W) (level : ℕ) (chunk : List (TestCase (Callbacks W)))
      → AllKnown chunk
      → AllFaithful env tests first now (map (start level) chunk)
  unfolding AllKnown AllFaithful IsFaithful IsHonest
  start-AllFaithful now level [] h = tt
  start-AllFaithful now level (t ∷ ts) (h, hs) = ((h, tt), start-AllFaithful now level ts hs)

  pub run_chunk-IsGenuineRun :
      (order : List ℕ) (level : ℕ) (chunk : List (TestCase (Callbacks W))) (p : Progress W Time)
      → AllKnown chunk
      → IsGenuineRun p
      → IsGenuineRun (run_chunk env order level chunk p)
  unfolding run_chunk IsGenuineRun
  run_chunk-IsGenuineRun order level chunk p known (from, all) =
      let (ts, s) = run_threads env order (map (start level) chunk) p.shared in
      let (way, honest) =
        run_threads-AllFaithful env tests first order (map (start level) chunk) p.shared from
          (start-AllFaithful p.shared.world level chunk known) in
      (
        Way-trans tests way from,
        file_all-IsGenuineMap s.world (collect ts) p.by_name
            (collect-AllGenuine env tests first ts s.world honest)
            (IsGenuineMap-later p.shared.world s.world p.by_name way all),
      )

  pub find_test-known :
      (n : String) (t : TestCase (Callbacks W))
      → find_test n tests ≡ some t
      → find_test t.name tests ≡ some t
  find_test-known n t e = ap (λ (m : String). find_test m tests) (find_test-name n tests t e) ∙ e

  -- What `find_all` finds, if it does.
  unfoldable pub FindsKnown : Option (List (TestCase (Callbacks W))) → Type 0
  FindsKnown none = Unit
  FindsKnown (some chunk) = AllKnown chunk

  pub find_all-FindsKnown : (ns : List String) → FindsKnown (find_all ns tests)
  unfolding FindsKnown AllKnown find_all
  find_all-FindsKnown [] = tt
  find_all-FindsKnown (n ∷ ns) = elim (Option-cases (find_test n tests)) [
    | inl e ↦ rw (e, find_all) tt
    | inr (t, e) ↦
        let rest = find_all-FindsKnown ns in
        elim (Option-cases (find_all ns tests)) [
          | inl e' ↦ rw (e, e', find_all) tt
          | inr (ts, e') ↦ rw (e, e', find_all) (find_test-known n t e, subst FindsKnown e' rest)
        ]
  ]
