-- ===== src/Sequencer/Layers.antt =====
-- What the levels of a dependency graph are, and that the `while` loop of `Levels` finds them.
use Prim.Native.String.{String}
use text.Mathlib.TextEquality.{eq_iff}
use soc_validation_framework.Prelude.{
  ℕ, zero, suc, ◌≤◌, ◌≡◌, ◌≢◌, refl, sym, ◌∙◌, ap, List, [], ◌∷◌, ◌++◌, Option, none, some, Bool,
  false, ◌&&◌, not, if◌then◌else◌, arith, Option-cases, List-cases, inl, inr, length,
}
use mathlib.Core.List.{append_assoc, append-nil}
use soc_validation_framework.Bus.{Result, ok, err}
use soc_validation_framework.Sequencer.{
  Pending, elem, lookup, ready_in, sort, erase_all, rounds, dependency_cycle,
}
use soc_validation_framework.Sequencer.Keys.{
  IsKeyed, erase_all-IsKeyed, lookup-erase_all, length-erase_all_key,
}
use soc_validation_framework.Sequencer.Counts.{
  count, bit, is_ready, elem-append, count-sort, count-ready_in,
}

module _ (d : String → Option (List String)) where
  -- A declared test is due when it is not done and all its dependencies are.
  unfoldable pub is_due : List String → String → Bool
  is_due done n = not (elem n done) && is_ready done (d n)

  -- After the tests of `done`, the levels hold each test once, in the first level in which it is
  -- due, and in the end every declared test is done.
  unfoldable pub IsLayered : List String → List (List String) → Type 0
  IsLayered done [] = (n : String) → elem n done ≡ false → d n ≡ none
  IsLayered done (level ∷ rest) =
      ((n : String) → count n level ≡ bit (is_due done n)) × IsLayered (level ++ done) rest

  -- Some declared test is not done, and none of those that are not is due.
  unfoldable pub IsStuck : List String → Type 0
  IsStuck done =
      ((n : String) × (elem n done ≡ false) × (d n ≢ none)) × ((n : String) → is_due done n ≡ false)

  -- The pending tests are the declared ones that are not done.
  unfoldable pub IsTracked : Pending → List String → Type 0
  IsTracked m done = (n : String) → lookup n m ≡ (if elem n done then none else d n)

  unfoldable pub Verdict : List String → List (List String) → Result (List (List String)) → Type 0
  Verdict done levels (ok found) =
      (rest : List (List String)) × (found ≡ levels ++ rest) × IsLayered done rest
  Verdict done levels (err e) =
      ((p : Pending) × (e ≡ dependency_cycle p)) × ((stuck : List String) × IsStuck stuck)

  count-due :
      (n : String) (done : List String) (m : Pending)
      → IsKeyed m
      → IsTracked m done
      → count n (sort (ready_in done m)) ≡ bit (is_due done n)
  unfolding is_due is_ready IsTracked
  count-due n done m keyed tracked =
      ground (arith, count-sort n (ready_in done m), count-ready_in n done m keyed, tracked n)

  erase_all-IsTracked :
      (level done : List String) (m : Pending)
      → IsKeyed m
      → IsTracked m done
      → IsTracked (erase_all level m) (level ++ done)
  unfolding IsTracked
  erase_all-IsTracked level done m keyed tracked n =
      ground (arith, lookup-erase_all n level m keyed, elem-append n level done, tracked n)

  -- One more level in front of the verdict on the rest.
  Verdict-cons :
      (done level : List String) (levels : List (List String)) (r : Result (List (List String)))
      → ((n : String) → count n level ≡ bit (is_due done n))
      → Verdict (level ++ done) (levels ++ level ∷ []) r
      → Verdict done levels r
  unfolding Verdict IsLayered
  Verdict-cons done level levels (ok found) due (rest, e, layered) =
      (level ∷ rest, e ∙ append_assoc levels (level ∷ []) rest, (due, layered))
  Verdict-cons done level levels (err e) due v = v

  head_due :
      (k : String) (ks done : List String) (m : Pending)
      → IsKeyed m
      → sort (ready_in done m) ≡ k ∷ ks
      → (deps : List String) × (lookup k m ≡ some deps)
  unfolding is_ready count bit
  head_due k ks done m keyed e = elim (Option-cases (lookup k m)) [
    | inr found ↦ found
    | inl none_found ↦ absurd (
        ground (
          arith,
          count-sort k (ready_in done m),
          count-ready_in k done m keyed,
          eq_iff k k,
          ap (count k) e,
        ))
  ]

  rounds-ready :
      (fuel : ℕ) (p : String × List String) (ps : Pending) (k : String) (ks done : List String)
      (levels : List (List String))
      → sort (ready_in done (p ∷ ps)) ≡ k ∷ ks
      → rounds (suc fuel) (p ∷ ps) done levels
        ≡ rounds fuel (erase_all (k ∷ ks) (p ∷ ps)) ((k ∷ ks) ++ done) (levels ++ (k ∷ ks) ∷ [])
  unfolding rounds
  rounds-ready fuel p ps k ks done levels e = rw (e, rounds)

  rounds-stuck :
      (fuel : ℕ) (p : String × List String) (ps : Pending) (done : List String)
      (levels : List (List String))
      → sort (ready_in done (p ∷ ps)) ≡ []
      → rounds (suc fuel) (p ∷ ps) done levels ≡ some (err (dependency_cycle (p ∷ ps)))
  unfolding rounds
  rounds-stuck fuel p ps done levels e = rw (e, rounds)

  no_ready-IsStuck :
      (p : String × List String) (ps : Pending) (done : List String)
      → IsKeyed (p ∷ ps)
      → IsTracked (p ∷ ps) done
      → sort (ready_in done (p ∷ ps)) ≡ []
      → IsStuck done
  unfolding IsStuck IsTracked count bit lookup
  no_ready-IsStuck (k, deps) ps done keyed tracked e = (
    (k, ground (arith, tracked k, eq_iff k k), λ gone. ground (arith, tracked k, eq_iff k k, gone)),
    λ n. ground (arith, count-due n done ((k, deps) ∷ ps) keyed tracked, ap (count n) e),
  )

  -- The loop returns levels or a cycle, never out of fuel.
  pub rounds_lem :
      (fuel : ℕ) (m : Pending) (done : List String) (levels : List (List String))
      → length m ≤ fuel
      → IsKeyed m
      → IsTracked m done
      → (r : Result (List (List String))) × (rounds fuel m done levels ≡ some r)
        × Verdict done levels r
  unfolding rounds Verdict IsLayered IsTracked lookup
  rounds_lem fuel [] done levels h keyed tracked =
      (ok levels, refl, ([], sym (append-nil levels), λ n out. ground (arith, tracked n)))
  rounds_lem zero (p ∷ ps) done levels h keyed tracked = absurd (omega arith)
  rounds_lem (suc fuel) (p ∷ ps) done levels h keyed tracked =
      elim (List-cases (sort (ready_in done (p ∷ ps)))) [
        | inl e ↦ (
          err (dependency_cycle (p ∷ ps)),
          rounds-stuck fuel p ps done levels e,
          ((p ∷ ps, refl), (done, no_ready-IsStuck p ps done keyed tracked e)),
        )
        | inr (k, ks, e) ↦
            let m = p ∷ ps in
            let (deps, inside) = head_due k ks done m keyed e in
            let (r, found, verdict) =
              rounds_lem fuel (erase_all (k ∷ ks) m) ((k ∷ ks) ++ done) (levels ++ (k ∷ ks) ∷ [])
                (omega (arith, length-erase_all_key k deps ks m inside))
                (erase_all-IsKeyed (k ∷ ks) m keyed)
                (erase_all-IsTracked (k ∷ ks) done m keyed tracked) in
            (
              r,
              rounds-ready fuel p ps k ks done levels e ∙ found,
              Verdict-cons done (k ∷ ks) levels r
                  (λ n. sym (ap (count n) e) ∙ count-due n done m keyed tracked) verdict,
            )
      ]
