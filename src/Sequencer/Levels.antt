-- ===== src/Sequencer/Levels.antt =====
-- `Levels` as a whole: it always answers, and what its answers mean.
use Prim.Native.String.{String}
use soc_validation_framework.Prelude.{
  ◌≡◌, refl, sym, ◌∙◌, subst, List, [], none, some, true, arith, Option-cases, inl, inr, ◌⊎◌,
  length,
}
use soc_validation_framework.Bus.{Result, ok, err}
use soc_validation_framework.Sequencer.{
  TestCase, Pending, elem, lookup, pending_from, unknown_in, rounds, unknown_dependency,
  dependency_cycle, levels,
}
use soc_validation_framework.Sequencer.Keys.{IsKeyed}
use soc_validation_framework.Sequencer.Layers.{IsLayered, IsStuck, IsTracked, Verdict, rounds_lem}
use soc_validation_framework.Sequencer.Declared.{
  or_else, declared, pending_from-IsKeyed, lookup-pending_from, unknown_in-none, unknown_in-some,
}

module _ {Body : Type 0} (tests : List (TestCase Body)) where
  pending : Pending
  unfolding pending_from
  pending = pending_from [] tests

  lookup-pending : (n : String) → lookup n pending ≡ declared tests n
  unfolding pending lookup or_else
  lookup-pending n = ground (arith, lookup-pending_from n [] tests)

  pending-IsKeyed : IsKeyed pending
  unfolding pending IsKeyed
  pending-IsKeyed = pending_from-IsKeyed [] tests tt

  pending-IsTracked : IsTracked (declared tests) pending []
  unfolding IsTracked elem
  pending-IsTracked = lookup-pending

  -- A declared dependency that names no test.
  unfoldable pub IsUnknown : String → String → Type 0
  IsUnknown n x =
      (deps : List String) × (declared tests n ≡ some deps)
      × (elem x deps ≡ true)
      × (declared tests x ≡ none)

  -- Every declared dependency names a test.
  unfoldable pub IsClosed : Type 0
  unfolding IsUnknown
  IsClosed = (n x : String) → ¬ IsUnknown n x

  known-IsClosed : unknown_in pending pending ≡ none → IsClosed
  unfolding IsClosed IsUnknown
  known-IsClosed e n x (deps, dn, dep, absent) =
      unknown_in-none pending pending n x deps e (lookup-pending n ∙ dn) dep
        (lookup-pending x ∙ absent)

  levels-known :
      unknown_in pending pending ≡ none → levels tests ≡ rounds (length pending) pending [] []
  unfolding levels pending
  levels-known e = rw (e, levels)

  levels-unknown :
      (n x : String)
      → unknown_in pending pending ≡ some (n, x)
      → levels tests ≡ some (err (unknown_dependency n x))
  unfolding levels pending
  levels-unknown n x e = rw (e, levels)

  -- What an answer of `Levels` means: the levels are the layers of the declared graph, in which every
  -- dependency names a test, and an exception comes from a name that no test has or, when there is
  -- none, from a graph that gets stuck.
  unfoldable pub Answer : Result (List (List String)) → Type 0
  Answer (ok found) = IsLayered (declared tests) [] found × IsClosed
  Answer (err e) =
      ((n : String) × (x : String) × (e ≡ unknown_dependency n x) × IsUnknown n x)
      ⊎ (((p : Pending) × (e ≡ dependency_cycle p))
          × IsClosed
          × ((done : List String) × IsStuck (declared tests) done))

  Verdict-Answer :
      (r : Result (List (List String))) → IsClosed → Verdict (declared tests) [] [] r → Answer r
  unfolding Verdict Answer
  Verdict-Answer (ok found) closed (rest, e, layered) =
      (subst (IsLayered (declared tests) []) (sym e) layered, closed)
  Verdict-Answer (err e) closed (cycle, stuck) = inr (cycle, closed, stuck)

  -- `Levels` always answers. It returns levels only when every dependency names a test, and they
  -- hold each test once, in the first level in which its dependencies are done. When some dependency
  -- names no test, it throws the exception that names such a dependency and the test that has it.
  -- It throws the exception of a cycle only when every dependency names a test and, after some tests
  -- are done, some remain of which none is due.
  pub levels-Answer : (r : Result (List (List String))) × (levels tests ≡ some r) × Answer r
  unfolding Answer IsUnknown
  levels-Answer = elim (Option-cases (unknown_in pending pending)) [
    | inl e ↦
        let (r, found, verdict) =
          rounds_lem (declared tests) (length pending) pending [] [] (omega arith) pending-IsKeyed
            pending-IsTracked in
        (r, levels-known e ∙ found, Verdict-Answer r (known-IsClosed e) verdict)
    | inr ((n, x), e) ↦
        let (deps, found, inside, absent) = unknown_in-some pending pending n x pending-IsKeyed e in
        (
          err (unknown_dependency n x),
          levels-unknown n x e,
          inl (
            n,
            x,
            refl,
            (deps, sym (lookup-pending n) ∙ found, inside, sym (lookup-pending x) ∙ absent),
          ),
        )
  ]

  -- When a dependency of a registered test names no test, `Levels` throws, and its message names
  -- such a dependency and the test that has it.
  pub levels-IsUnknown :
      (n x : String)
      → IsUnknown n x
      → (n' x' : String) × (levels tests ≡ some (err (unknown_dependency n' x'))) × IsUnknown n' x'
  unfolding IsUnknown IsClosed
  levels-IsUnknown n x (deps, dn, dep, absent) = elim (Option-cases (unknown_in pending pending)) [
    | inl e ↦ absurd (known-IsClosed e n x (deps, dn, dep, absent))
    | inr ((k, y), e) ↦
        let (ds, found, inside, gone) = unknown_in-some pending pending k y pending-IsKeyed e in
        (
          k,
          y,
          levels-unknown k y e,
          (ds, sym (lookup-pending k) ∙ found, inside, sym (lookup-pending y) ∙ gone),
        )
  ]
