-- ===== src/Region/Bounds.antt =====
-- `at` reads inside the block of a live object.
use soc_validation_framework.Prelude.{
  ℕ, ◌≤◌, ◌<◌, ◌≡◌, List, some, false, leb, arith, Option-cases, Bool-cases, inl, inr, ◌⊎◌,
  get_elem?, get_elem?-lt,
}
use soc_validation_framework.Bus.{out_of_range, ok, err}
use soc_validation_framework.Region.{MappedRegion, World, at}
use soc_validation_framework.Region.Owned.{IsOwned}

module _ {S : Type 0} where
  at_inside :
      (w : World S) (r : MappedRegion) (p index x : ℕ) (contents : List ℕ)
      → index < r.words
      → r.pointer ≡ some p
      → w.block p ≡ some contents
      → get_elem? contents index ≡ some x
      → at r index w ≡ ok x
  unfolding at
  at_inside w r p index x contents below own at_p found =
      let checked : leb r.words index ≡ false = ground arith in rw (checked, own, at_p, found, at)

  -- On a live object, `at` throws from the size on, and below it returns a word of the object's
  -- block: it never reads outside of a block, also after moves.
  pub at_lem :
      (w : World S) (i index : ℕ) (r : MappedRegion)
      → IsOwned w
      → w.object i ≡ some r
      → ((r.words ≤ index) × (at r index w ≡ err (out_of_range "MappedRegion index out of range")))
        ⊎ ((index < r.words)
            × ((p : ℕ) × (x : ℕ) × (contents : List ℕ) × (r.pointer ≡ some p)
                × (w.block p ≡ some contents)
                × (get_elem? contents index ≡ some x)
                × (at r index w ≡ ok x)))
  unfolding at
  at_lem w i index r o live = elim (Bool-cases (leb r.words index)) [
    | inl past ↦ inl (ground arith, rw (past, at))
    | inr below ↦ elim (Option-cases r.pointer) [
      | inl null ↦ absurd (ground (arith, o.bare i r))
      | inr (p, own) ↦
          let inside : index < r.words = ground arith in
          let (contents, at_p, size) = o.held i p r live own in
          let (x, found) = get_elem?-lt contents index (omega arith) in
          inr (
            inside,
            (
              p,
              x,
              contents,
              own,
              at_p,
              found,
              at_inside w r p index x contents inside own at_p found,
            ),
          )
    ]
  ]
