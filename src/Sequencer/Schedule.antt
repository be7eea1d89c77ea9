-- ===== src/Sequencer/Schedule.antt =====
-- The theorems on `Levels`: its levels hold every test once, behind its dependencies; and it throws
-- for an unknown name or a cycle only.
use Prim.Native.String.{String}
use soc_validation_framework.Prelude.{
  ℕ, suc, ◌<◌, ◌≡◌, ◌≢◌, sym, ◌∙◌, ap, subst, List, [], none, some, true, arith, inl, inr,
  get_elem?,
}
use soc_validation_framework.Bus.{Result, ok, err}
use soc_validation_framework.Sequencer.{TestCase, elem, levels}
use soc_validation_framework.Sequencer.Counts.{bit}
use soc_validation_framework.Sequencer.Layers.{IsLayered, IsStuck}
use soc_validation_framework.Sequencer.Declared.{declared}
use soc_validation_framework.Sequencer.Levels.{Answer, IsUnknown, levels-Answer}
use soc_validation_framework.Sequencer.Order.{
  occurrences, is_declared, IsEarlier, occurrences-IsLayered, layered_order, layered_tight,
  stuck_ranked,
}

module _ {Body : Type 0} (tests : List (TestCase Body)) where
  Answer-of : (r : Result (List (List String))) → levels tests ≡ some r → Answer tests r
  Answer-of r e =
      let (r', found, answer) = levels-Answer tests in
      subst (Answer tests) (ap (λ o. elim o [ none ↦ r | some x ↦ x ]) (sym found ∙ e)) answer

  pub IsLayered-of :
      (ls : List (List String)) → levels tests ≡ some (ok ls) → IsLayered (declared tests) [] ls
  unfolding Answer
  IsLayered-of ls e = (Answer-of (ok ls) e).0

  -- In the levels that `Levels` returns, all levels together, a registered name stands once and
  -- any other name never.
  pub levels_once :
      (ls : List (List String)) (n : String)
      → levels tests ≡ some (ok ls)
      → occurrences n ls ≡ bit (is_declared (declared tests n))
  unfolding elem
  levels_once ls n e = occurrences-IsLayered (declared tests) n [] ls (IsLayered-of ls e)

  -- A dependency of a test in a level that `Levels` returns stands in an earlier level.
  pub levels_order :
      (ls : List (List String)) (i : ℕ) (level deps : List String) (n x : String)
      → levels tests ≡ some (ok ls)
      → get_elem? ls i ≡ some level
      → elem n level ≡ true
      → declared tests n ≡ some deps
      → elem x deps ≡ true
      → (j : ℕ) × (earlier : List String) × (j < i)
        × (get_elem? ls j ≡ some earlier)
        × (elem x earlier ≡ true)
  unfolding elem IsEarlier
  levels_order ls i level deps n x e at_i inside dn dep =
      elim (layered_order (declared tests) [] ls i level deps n x (IsLayered-of ls e) at_i inside dn
        dep) [ inl in_none ↦ absurd (ground arith) | inr found ↦ found ]

  -- A test in a level that `Levels` returns, other than the first, has a dependency in the level
  -- right before: no test could go earlier.
  pub levels_tight :
      (ls : List (List String)) (i : ℕ) (level deps : List String) (n : String)
      → levels tests ≡ some (ok ls)
      → get_elem? ls (suc i) ≡ some level
      → elem n level ≡ true
      → declared tests n ≡ some deps
      → (x : String) × (before : List String) × (elem x deps ≡ true)
        × (get_elem? ls i ≡ some before)
        × (elem x before ≡ true)
  levels_tight ls i level deps n e at_i inside dn =
      layered_tight (declared tests) [] ls i level deps n (IsLayered-of ls e) at_i inside dn

  -- When every dependency names a test, and some rank falls from each test to its dependencies (so
  -- that there is no cycle), `Levels` returns levels and does not throw.
  pub levels_acyclic :
      (rank : String → ℕ)
      → ((n x : String) (deps : List String)
          → declared tests n ≡ some deps
          → elem x deps ≡ true
          → (rank x < rank n) × (declared tests x ≢ none))
      → (ls : List (List String)) × (levels tests ≡ some (ok ls))
  unfolding Answer IsUnknown IsStuck
  levels_acyclic rank falls = go (levels-Answer tests)
    where
      go :
          ((r : Result (List (List String))) × (levels tests ≡ some r) × Answer tests r)
          → (ls : List (List String)) × (levels tests ≡ some (ok ls))
      go (ok ls, found, answer) = (ls, found)
      go (err error, found, inl (n, x, same, (deps, dn, dep, absent))) =
          absurd ((falls n x deps dn dep).1 absent)
      go (err error, found, inr (cycle, closed, (done, ((n, out, dn), stuck)))) = absurd (
          stuck_ranked (declared tests) rank done falls stuck (suc (rank n)) n (omega arith) out dn)
