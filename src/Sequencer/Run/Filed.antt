-- ===== src/Sequencer/Run/Filed.antt =====
-- `by_name`: what the loops over the results put there.
use Prim.Native.String.{String}
use text.Mathlib.Text.{◌==◌ as str_eq}
use text.Mathlib.TextEquality.{eq_iff}
use soc_validation_framework.Prelude.{
  ℕ, ◌≡◌, ◌≢◌, inl, inr, refl, sym, ◌∙◌, ap, ap₂, subst, true, List, [], ◌∷◌, none, some, get_elem?,
  Bool-cases, arith,
}
use soc_validation_framework.Sequencer.{TestCase, elem}
use soc_validation_framework.Sequencer.RunOne.{Callbacks, TestResult}
use soc_validation_framework.Sequencer.Thread.{
  Phase, waiting, counted, prepared, ran, over, finished, Thread, Event,
}
use soc_validation_framework.Sequencer.Run.{ByName, file, file_all, collect}
use soc_validation_framework.Sequencer.Run.Trace.{ended, IsFinished, IsSettled}
use soc_validation_framework.Sequencer.Run.Pool.{plan, AllFinished, AllFit}

module _ {Time : Type 0} (ls : List (List String)) where
  -- A result whose level holds its name.
  unfoldable pub IsPlaced : TestResult Time → Type 0
  IsPlaced r =
      (level : List String) × (get_elem? ls r.level ≡ some level) × (elem r.name level ≡ true)

  unfoldable pub AllPlaced : List (TestResult Time) → Type 0
  AllPlaced [] = Unit
  AllPlaced (r ∷ rs) = IsPlaced r × AllPlaced rs

  -- Each entry is for its own name, and placed.
  unfoldable pub IsRight : ByName Time → Type 0
  IsRight by_name =
      (n : String) (r : TestResult Time) → by_name n ≡ some r → (r.name ≡ n) × IsPlaced r

  pub file-IsRight :
      (n : String) (r : TestResult Time) (by_name : ByName Time)
      → r.name ≡ n
      → IsPlaced r
      → IsRight by_name
      → IsRight (file n r by_name)
  unfolding file IsRight
  file-IsRight n r by_name e placed right m q found = elim (Bool-cases (str_eq m n)) [
    | inl same ↦
        let this : q ≡ r = ground arith in
        (ground (arith, eq_iff m n), subst IsPlaced (sym this) placed)
    | inr other ↦ right m q (ground arith)
  ]

  pub file_all-IsRight :
      (rs : List (TestResult Time)) (by_name : ByName Time)
      → AllPlaced rs
      → IsRight by_name
      → IsRight (file_all rs by_name)
  unfolding file_all AllPlaced
  file_all-IsRight [] by_name placed right = right
  file_all-IsRight (r ∷ rs) by_name (p, ps) right =
      file_all-IsRight rs (file r.name r by_name) ps (file-IsRight r.name r by_name refl p right)

module _ {Time : Type 0} where
  unfoldable pub names : List (TestResult Time) → List String
  names [] = []
  names (r ∷ rs) = r.name ∷ names rs

  pub file_all_keeps :
      (rs : List (TestResult Time)) (by_name : ByName Time) (n : String)
      → by_name n ≢ none
      → file_all rs by_name n ≢ none
  unfolding file_all file
  file_all_keeps [] by_name n h = h
  file_all_keeps (r ∷ rs) by_name n h =
      file_all_keeps rs (file r.name r by_name) n (λ e. ground (arith, h))

  pub file_all_adds :
      (rs : List (TestResult Time)) (by_name : ByName Time) (n : String)
      → elem n (names rs) ≡ true
      → file_all rs by_name n ≢ none
  unfolding file_all file names elem
  file_all_adds [] by_name n h = λ e. ground arith
  file_all_adds (r ∷ rs) by_name n h = elim (Bool-cases (str_eq n r.name)) [
    | inl same ↦ file_all_keeps rs (file r.name r by_name) n (λ e. ground arith)
    | inr other ↦ file_all_adds rs (file r.name r by_name) n (ground arith)
  ]

module _ {W : Type 0} where
  -- The plan of a chunk: its tests are of this level, and the level holds their names.
  unfoldable pub AllOf : ℕ → List String → List (TestCase (Callbacks W) × ℕ) → Type 0
  AllOf level holds [] = Unit
  AllOf level holds ((test, l) ∷ rest) =
      ((l ≡ level) × (elem test.name holds ≡ true)) × AllOf level holds rest

  unfoldable pub planned : List (TestCase (Callbacks W) × ℕ) → List String
  planned [] = []
  planned ((test, l) ∷ rest) = test.name ∷ planned rest

module _ {Time : Type 0} where
  result_of :
      (n : String) (level : ℕ) (trace : List Event) (p : Phase Time)
      → IsFinished p
      → IsSettled n level trace p
      → (r : TestResult Time) × (p ≡ finished r) × (r.name ≡ n) × (r.level ≡ level)
  unfolding IsFinished IsSettled
  result_of n level trace (finished r) done (ended, name, lev) = (r, refl, name, lev)
  result_of n level trace waiting done settled = absurd done
  result_of n level trace (counted before) done settled = absurd done
  result_of n level trace (prepared before) done settled = absurd done
  result_of n level trace (ran before e) done settled = absurd done
  result_of n level trace (over before e) done settled = absurd done

module _ {Time : Type 0} where
  ended_of :
      (n : String) (level : ℕ) (trace : List Event) (p : Phase Time)
      → IsFinished p
      → IsSettled n level trace p
      → ended n trace ≡ true
  unfolding IsFinished IsSettled
  ended_of n level trace (finished r) done (e, name, lev) = e
  ended_of n level trace waiting done settled = absurd done
  ended_of n level trace (counted before) done settled = absurd done
  ended_of n level trace (prepared before) done settled = absurd done
  ended_of n level trace (ran before e) done settled = absurd done
  ended_of n level trace (over before e) done settled = absurd done

module _ {W Time : Type 0} (needs : String → List String) (ls : List (List String)) where
  collect_cons :
      (t : Thread W Time) (ts : List (Thread W Time)) (r : TestResult Time)
      → t.phase ≡ finished r
      → collect (t ∷ ts) ≡ r ∷ collect ts
  unfolding collect
  collect_cons t ts r e = rw (e, collect)

  abbrev Collected : List (Thread W Time) → List (TestResult Time) → Type 0
  Collected ts rs = AllPlaced ls rs × (names rs ≡ planned (plan ts))

  pub collect-AllPlaced :
      (level : ℕ) (holds : List String) (ts : List (Thread W Time)) (trace : List Event)
      → get_elem? ls level ≡ some holds
      → AllFinished ts
      → AllFit needs ts trace
      → AllOf level holds (plan ts)
      → AllPlaced ls (collect ts) × (names (collect ts) ≡ planned (plan ts))
  unfolding AllPlaced names planned plan AllOf AllFinished AllFit IsPlaced
  collect-AllPlaced level holds [] trace at done fit all = unfold collect in (tt, refl)
  collect-AllPlaced level holds (t ∷ ts) trace at (d, done) ((ready, settled), fit)
        ((l, inside), all) =
      let (r, e, name, lev) = result_of t.test.name t.level trace t.phase d settled in
      let (placed, same) = collect-AllPlaced level holds ts trace at done fit all in
      subst (Collected (t ∷ ts)) (sym (collect_cons t ts r e)) (
        ((holds, ap (get_elem? ls) (lev ∙ l) ∙ at, ap (λ n. elem n holds) name ∙ inside), placed),
        ap₂ (λ (n : String) ns. n ∷ ns) name same,
      )

module _ {W Time : Type 0} (needs : String → List String) where
  -- All tests of a chunk that has been waited for have ended.
  pub planned-ended :
      (ts : List (Thread W Time)) (trace : List Event) (x : String)
      → AllFinished ts
      → AllFit needs ts trace
      → elem x (planned (plan ts)) ≡ true
      → ended x trace ≡ true
  unfolding planned plan AllFinished AllFit elem
  planned-ended [] trace x done fit h = ground arith
  planned-ended (t ∷ ts) trace x (d, done) ((ready, settled), fit) h =
      elim (Bool-cases (str_eq x t.test.name)) [
        | inl same ↦
            let own = ended_of t.test.name t.level trace t.phase d settled in
            ground
              (arith, eq_iff x t.test.name, ap (λ n. ended n trace) ((eq_iff x t.test.name).0 same))
        | inr other ↦ planned-ended ts trace x done fit (ground arith)
      ]
