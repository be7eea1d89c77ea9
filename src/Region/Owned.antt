-- ===== src/Region/Owned.antt =====
-- Every block has one owner, whatever is constructed, moved, assigned and destroyed.
use soc_validation_framework.Prelude.{
  ℕ, suc, ◌≤◌, ◌≡◌, List, Option, none, some, ◌==◌, ==_iff, length, arith, Option-cases, Bool-cases,
  inl, inr,
}
use soc_validation_framework.Bus.{ok}
use soc_validation_framework.Region.{MappedRegion, emptied, World, put, release}

unfoldable pub free : Option ℕ → (ℕ → Option (List ℕ)) → ℕ → Option (List ℕ)
free none block = block
free (some p) block = put block p none

module _ {S : Type 0} where
  -- Blocks are numbered below `next`; each live object with a pointer has a block of its size;
  -- no two objects have the same pointer; each block is some object's; and an object without a
  -- pointer is empty.
  pub record IsOwned (w : World S) : Type 0 where
    pub fresh : (p : ℕ) → w.next ≤ p → w.block p ≡ none
    pub held :
        (i p : ℕ) (r : MappedRegion)
        → w.object i ≡ some r
        → r.pointer ≡ some p
        → (contents : List ℕ) × (w.block p ≡ some contents) × (length contents ≡ r.words)
    pub alone :
        (i j p : ℕ) (r q : MappedRegion)
        → w.object i ≡ some r
        → w.object j ≡ some q
        → r.pointer ≡ some p
        → q.pointer ≡ some p
        → i ≡ j
    pub kept :
        (p : ℕ) (contents : List ℕ)
        → w.block p ≡ some contents
        → (i : ℕ) × (r : MappedRegion) × (w.object i ≡ some r) × (r.pointer ≡ some p)
    pub bare : (i : ℕ) (r : MappedRegion) → w.object i ≡ some r → r.pointer ≡ none → r.words ≡ 0

  -- The world after the destructor of an object.
  unfoldable pub freed : Option ℕ → World S → World S
  freed pointer w = record w { block = free pointer w.block }

  pub release-IsOwned :
      (w : World S) (i : ℕ) (r : MappedRegion)
      → IsOwned w
      → w.object i ≡ some r
      → release r.pointer w ≡ (ok tt, freed r.pointer w)
  unfolding release freed free
  release-IsOwned w i r o live = elim (Option-cases r.pointer) [
    | inl e ↦ rw (e, release, freed, free)
    | inr (p, e) ↦
        let (contents, at_p, size) = o.held i p r live e in rw (e, release, at_p, freed, free)
  ]

  unfoldable pub gone : ℕ → Option ℕ → World S → World S
  gone i pointer w = record (freed pointer w) { object = put w.object i none }

  pub gone-IsOwned :
      (w : World S) (i : ℕ) (r : MappedRegion)
      → IsOwned w
      → w.object i ≡ some r
      → IsOwned (gone i r.pointer w)
  unfolding gone freed free
  gone-IsOwned w i r o live = elim (Option-cases r.pointer) [
    | inl e ↦
        rw (e, gone, freed, free)
          (record {
            fresh = o.fresh;
            held = λ j p q at_j e'. ground (arith, o.held j p q, ==_iff j i);
            alone = λ j k p q q' at_j at_k e' e''.
                ground (arith, o.alone j k p q q', ==_iff j i, ==_iff k i);
            kept = λ p contents at_p.
                let (k, q, at_k, e') = o.kept p contents at_p in
                (k, q, ground (arith, ==_iff k i), e');
            bare = λ j q at_j e'. ground (arith, o.bare j q, ==_iff j i);
          })
    | inr (p, e) ↦
        rw (e, gone, freed, free)
          (record {
            fresh = λ n h. ground (arith, o.fresh n, ==_iff n p);
            held = λ j n q at_j e'.
                let (contents, at_n, size) = o.held j n q (ground (arith, ==_iff j i)) e' in
                (contents, ground (arith, o.alone i j p r q, ==_iff j i, ==_iff n p), size);
            alone = λ j k n q q' at_j at_k e' e''.
                ground (arith, o.alone j k n q q', ==_iff j i, ==_iff k i);
            kept = λ n contents at_n.
                let (k, q, at_k, e') = o.kept n contents (ground (arith, ==_iff n p)) in
                (k, q, ground (arith, ==_iff k i, ==_iff n p), e');
            bare = λ j q at_j e'. ground (arith, o.bare j q, ==_iff j i);
          })
  ]

  -- The world after a move to an object that does not live.
  unfoldable pub moved : (i j : ℕ) → MappedRegion → World S → World S
  moved i j other w = record w { object = put (put w.object j (some emptied)) i (some other) }

  pub moved-IsOwned :
      (w : World S) (i j : ℕ) (other : MappedRegion)
      → IsOwned w
      → w.object i ≡ none
      → w.object j ≡ some other
      → IsOwned (moved i j other w)
  unfolding moved
  moved-IsOwned w i j other o dead live = record {
    fresh = o.fresh;
    held = λ k p q at_k e. ground (arith, o.held k p q, o.held j p q, ==_iff k i, ==_iff k j);
    alone = λ k l p q q' at_k at_l e e'. ground (
      arith,
      ==_iff k i,
      ==_iff k j,
      ==_iff l i,
      ==_iff l j,
      o.alone k l p q q',
      o.alone j l p q q',
      o.alone k j p q q',
    );
    kept = λ p contents at_p.
        let (k, q, at_k, e) = o.kept p contents at_p in
        elim (Bool-cases (k == j)) [
          | inl same ↦ (i, other, ground (arith, ==_iff i i), ground (arith, ==_iff k j))
          | inr apart ↦ (k, q, ground (arith, ==_iff k i), e)
        ];
    bare = λ k q at_k e. ground (arith, o.bare k q, o.bare j q, ==_iff k i, ==_iff k j);
  }

  -- The world after a window was mapped, and after the fill threw and the block was deleted.
  unfoldable pub built : ℕ → MappedRegion → List ℕ → S → World S → World S
  built i region contents device w = record w {
    next = suc w.next;
    block = put w.block w.next (some contents);
    object = put w.object i (some region);
    device = device;
  }

  unfoldable pub failed : List ℕ → S → World S → World S
  failed contents device w = record w {
    next = suc w.next;
    block = put (put w.block w.next (some contents)) w.next none;
    device = device;
  }

  pub built-IsOwned :
      (w : World S) (i base : ℕ) (contents : List ℕ) (device : S)
      → IsOwned w
      → w.object i ≡ none
      → IsOwned (
          built i
            (record { pointer = some w.next; words = length contents; base = base })
            contents
            device
            w)
  unfolding built
  built-IsOwned w i base contents device o dead =
      let unused = o.fresh w.next (omega arith) in
      record {
        fresh = λ p h. ground (arith, o.fresh p, ==_iff p w.next);
        held = λ k p q at_k e. elim (Bool-cases (k == i)) [
          | inl same ↦ (contents, ground (arith, ==_iff p w.next), ground arith)
          | inr apart ↦
              let (c, at_p, size) = o.held k p q (ground arith) e in
              (c, ground (arith, ==_iff p w.next), size)
        ];
        alone = λ k l p q q' at_k at_l e e'. ground (
          arith,
          ==_iff k i,
          ==_iff l i,
          ==_iff p w.next,
          o.alone k l p q q',
          o.held k p q,
          o.held l p q',
        );
        kept = λ p c at_p. elim (Bool-cases (p == w.next)) [
          | inl same ↦ (
            i,
            record { pointer = some w.next; words = length contents; base = base },
            ground (arith, ==_iff i i),
            ground (arith, ==_iff p w.next),
          )
          | inr apart ↦
              let (k, q, at_k, e) = o.kept p c (ground arith) in
              (k, q, ground (arith, ==_iff k i), e)
        ];
        bare = λ k q at_k e. ground (arith, o.bare k q, ==_iff k i);
      }

  pub failed-IsOwned :
      (w : World S) (contents : List ℕ) (device : S)
      → IsOwned w
      → IsOwned (failed contents device w)
  unfolding failed
  failed-IsOwned w contents device o =
      let unused = o.fresh w.next (omega arith) in
      record {
        fresh = λ p h. ground (arith, o.fresh p, ==_iff p w.next);
        held = λ k p q at_k e.
            let (c, at_p, size) = o.held k p q at_k e in (c, ground (arith, ==_iff p w.next), size);
        alone = o.alone;
        kept = λ p c at_p. o.kept p c (ground (arith, ==_iff p w.next));
        bare = o.bare;
      }
