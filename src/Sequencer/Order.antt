-- ===== src/Sequencer/Order.antt =====
-- What layers give the caller of `Levels`: every test once, and never before its dependencies.
use Prim.Native.String.{String}
use soc_validation_framework.Prelude.{
  ℕ, zero, suc, ◌+◌, ◌<◌, ◌≡◌, ◌≢◌, refl, ◌∙◌, ap, List, [], ◌∷◌, ◌++◌, Option, none, some, Bool,
  true, false, ◌&&◌, not, arith, Option-cases, Bool-cases, inl, inr, ◌⊎◌, get_elem?,
}
use soc_validation_framework.Sequencer.{elem, satisfied}
use soc_validation_framework.Sequencer.Counts.{
  count, bit, is_ready, unsatisfied, satisfied_sound, elem-counted, elem-append,
}
use soc_validation_framework.Sequencer.Layers.{is_due, IsLayered}

-- How often a name stands in all levels together.
unfoldable pub occurrences : String → List (List String) → ℕ
occurrences n [] = 0
occurrences n (level ∷ rest) = count n level + occurrences n rest

unfoldable pub is_declared : Option (List String) → Bool
is_declared none = false
is_declared (some deps) = true

module _ (d : String → Option (List String)) where
  pub occurrences-IsLayered :
      (n : String) (done : List String) (ls : List (List String))
      → IsLayered d done ls
      → occurrences n ls ≡ bit (not (elem n done) && is_declared (d n))
  unfolding IsLayered is_due is_ready bit occurrences is_declared
  occurrences-IsLayered n done [] h = ground (arith, h n)
  occurrences-IsLayered n done (level ∷ rest) (due, h) = ground (
    arith,
    due n,
    occurrences-IsLayered n (level ++ done) rest h,
    elem-append n level done,
    elem-counted n level,
  )

  -- A name that is done before level `i` was done at the start or stands in an earlier level.
  unfoldable pub IsEarlier : List String → List (List String) → ℕ → String → Type 0
  IsEarlier done ls i x =
      (elem x done ≡ true)
      ⊎ ((j : ℕ) × (level : List String) × (j < i)
          × (get_elem? ls j ≡ some level)
          × (elem x level ≡ true))

  IsEarlier-suc :
      (level done : List String) (rest : List (List String)) (i : ℕ) (x : String)
      → IsEarlier (level ++ done) rest i x
      → IsEarlier done (level ∷ rest) (suc i) x
  unfolding IsEarlier
  IsEarlier-suc level done rest i x (inl e) = elim (Bool-cases (elem x level)) [
    | inl here ↦ inr (0, level, omega arith, refl, here)
    | inr gone ↦ inl (ground (arith, elem-append x level done))
  ]
  IsEarlier-suc level done rest i x (inr (j, l, lt, at_j, inside)) =
      inr (suc j, l, omega arith, at_j, inside)

  pub layered_order :
      (done : List String) (ls : List (List String)) (i : ℕ) (level deps : List String)
      (n x : String)
      → IsLayered d done ls
      → get_elem? ls i ≡ some level
      → elem n level ≡ true
      → d n ≡ some deps
      → elem x deps ≡ true
      → IsEarlier done ls i x
  unfolding IsLayered is_due is_ready bit IsEarlier
  layered_order done [] i level deps n x h at_i inside dn dep = absurd (ground arith)
  layered_order done (l ∷ ls) zero level deps n x (due, h) at_i inside dn dep =
      inl (satisfied_sound done deps x (ground (arith, due n, elem-counted n l)) dep)
  layered_order done (l ∷ ls) (suc i) level deps n x (due, h) at_i inside dn dep =
      IsEarlier-suc l done ls i x
        (layered_order (l ++ done) ls i level deps n x h at_i inside dn dep)

  -- A declared test that is not in the first level waits for some dependency that this level holds.
  waits_for_first :
      (done first second deps : List String) (n : String)
      → ((m : String) → count m first ≡ bit (is_due d done m))
      → ((m : String) → count m second ≡ bit (is_due d (first ++ done) m))
      → elem n second ≡ true
      → d n ≡ some deps
      → (x : String) × (elem x deps ≡ true) × (elem x first ≡ true)
  unfolding is_due is_ready bit
  waits_for_first done first second deps n due next inside dn =
      let out : elem n (first ++ done) ≡ false = ground (arith, next n, elem-counted n second) in
      let all : satisfied (first ++ done) deps ≡ true =
        ground (arith, next n, elem-counted n second) in
      let few : satisfied done deps ≡ false =
        ground (arith, due n, out, elem-counted n first, elem-append n first done) in
      let (x, dep, not_done) = unsatisfied done deps few in
      (
        x,
        dep,
        ground (arith, satisfied_sound (first ++ done) deps x all dep, elem-append x first done),
      )

  -- A test of a level that is not the first has a dependency in the level right before.
  pub layered_tight :
      (done : List String) (ls : List (List String)) (i : ℕ) (level deps : List String) (n : String)
      → IsLayered d done ls
      → get_elem? ls (suc i) ≡ some level
      → elem n level ≡ true
      → d n ≡ some deps
      → (x : String) × (before : List String) × (elem x deps ≡ true)
        × (get_elem? ls i ≡ some before)
        × (elem x before ≡ true)
  unfolding IsLayered
  layered_tight done [] i level deps n h at_i inside dn = absurd (ground arith)
  layered_tight done (l ∷ []) zero level deps n h at_i inside dn = absurd (ground arith)
  layered_tight done (l ∷ l' ∷ ls) zero level deps n (due, (next, h)) at_i inside dn =
      let same : l' ≡ level = ground arith in
      let (x, dep, here) =
        waits_for_first done l l' deps n due next (ap (elem n) same ∙ inside) dn in
      (x, l, dep, refl, here)
  layered_tight done (l ∷ ls) (suc i) level deps n (due, h) at_i inside dn =
      layered_tight (l ++ done) ls i level deps n h at_i inside dn

  -- Nothing that is stuck lies over a rank that falls along the dependencies.
  pub stuck_ranked :
      (rank : String → ℕ) (done : List String)
      → ((n x : String) (deps : List String)
          → d n ≡ some deps
          → elem x deps ≡ true
          → (rank x < rank n) × (d x ≢ none))
      → ((n : String) → is_due d done n ≡ false)
      → (fuel : ℕ) (n : String) → rank n < fuel
      → elem n done ≡ false
      → d n ≢ none
      → ⊥
  unfolding is_due is_ready
  stuck_ranked rank done falls stuck zero n h out dn = omega arith
  stuck_ranked rank done falls stuck (suc fuel) n h out dn = elim (Option-cases (d n)) [
    | inl e ↦ dn e
    | inr (deps, e) ↦
        let (x, dep, not_done) = unsatisfied done deps (ground (arith, stuck n)) in
        let (lower, dx) = falls n x deps e dep in
        stuck_ranked rank done falls stuck fuel x (omega arith) not_done dx
  ]
