-- ===== src/Region/Leaks.antt =====
-- Any sequence of legal operations on regions: no block is deleted twice, none is lost.
use soc_validation_framework.Prelude.{
  ℕ, suc, ◌≡◌, ◌≢◌, refl, sym, ◌∙◌, ap, ap₂, subst, fun_ext, List, [], ◌∷◌, none, some, true, false,
  ◌==◌, ==_iff, ==_refl, length, replicate, length-replicate, arith, Option-cases, Bool-cases, inl,
  inr,
}
use soc_validation_framework.Bus.{Exception, Result, ok, err, Transport}
use soc_validation_framework.Region.{
  MappedRegion, World, put, release, adopt, construct, destroy, move_construct, move_assign,
  Operation, constructs, destroys, moves, assigns, execute,
}
use soc_validation_framework.Region.Owned.{
  IsOwned, freed, release-IsOwned, gone, gone-IsOwned, moved, moved-IsOwned, built, built-IsOwned,
  failed, failed-IsOwned,
}

-- A transport hands an array back as long as it came, also when it throws.
pub record IsShaped {S : Type 0} (bus : Transport S) : Type 0 where
  pub shaped :
      (base count : ℕ) (out : List ℕ) (s : S)
      → (filled : List ℕ) × ((bus.read_block base (some out) count s).1 ≡ some filled)
        × (length filled ≡ length out)

module _ {S : Type 0} where
  unfoldable pub IsLive : ℕ → World S → Type 0
  IsLive i w = (r : MappedRegion) × (w.object i ≡ some r)

  -- A constructor runs where no object lives; every other operand is a live object.
  unfoldable pub IsLegal : Operation → World S → Type 0
  unfolding IsLive
  IsLegal (constructs i base words) w = w.object i ≡ none
  IsLegal (destroys i) w = IsLive i w
  IsLegal (moves i j) w = (w.object i ≡ none) × IsLive j w
  IsLegal (assigns i j) w = IsLive i w × IsLive j w

  -- A constructor ends the way the fill ends, every other operation returns.
  unfoldable pub outcome : Transport S → Operation → World S → Result (Unit {0})
  outcome bus (constructs i base words) w =
      (bus.read_block base (some (replicate words 0)) words w.device).0
  outcome bus (destroys i) w = ok tt
  outcome bus (moves i j) w = ok tt
  outcome bus (assigns i j) w = ok tt

  Good : Transport S → Operation → World S → Type 0
  Good bus op w = ((execute bus op w).0 ≡ outcome bus op w) × IsOwned (execute bus op w).1

  destroy_good :
      (w : World S) (i : ℕ) (r : MappedRegion)
      → IsOwned w
      → w.object i ≡ some r
      → destroy i w ≡ (ok tt, gone i r.pointer w)
  unfolding destroy gone freed
  destroy_good w i r o live = rw (live, destroy, release-IsOwned w i r o live) refl

  move_good :
      (w : World S) (i j : ℕ) (other : MappedRegion)
      → w.object j ≡ some other
      → move_construct i j w ≡ (ok tt, moved i j other w)
  unfolding move_construct moved
  move_good w i j other live = rw (live, move_construct)

  assign_good :
      (w : World S) (i j : ℕ) (r other : MappedRegion)
      → IsOwned w
      → i ≢ j
      → w.object i ≡ some r
      → w.object j ≡ some other
      → move_assign i j w ≡ (ok tt, moved i j other (gone i r.pointer w))
  unfolding move_assign moved gone freed
  assign_good w i j r other o apart live_i live_j =
      let other_first : (i == j) ≡ false = ground (arith, ==_iff i j) in
      rw (other_first, live_i, live_j, move_assign, release-IsOwned w i r o live_i)
        (ap (λ object. (ok tt, record w { block = (freed r.pointer w).block; object = object }))
          (fun_ext (λ x. ground (arith, ==_iff x i))))

  release_live :
      (w : World S) (p : ℕ) (contents : List ℕ)
      → w.block p ≡ some contents
      → release (some p) w ≡ (ok tt, record w { block = put w.block p none })
  unfolding release
  release_live w p contents e = rw (e, release)

  adopt_err :
      (w : World S) (i base : ℕ) (e : Exception) (contents : List ℕ) (device : S)
      → adopt i base (length contents) (err e) (some contents) device w
        ≡ (err e, failed contents device w)
  unfolding adopt failed
  adopt_err w i base e contents device =
      let filled : World S = record w {
        next = suc w.next;
        block = put w.block w.next (some contents);
        device = device;
      } in
      let found : filled.block w.next ≡ some contents = ground (arith, ==_refl w.next) in
      ap (λ q. elim q.0 [ err fault ↦ (err fault, q.1) | ok _ ↦ (err e, q.1) ])
        (release_live filled w.next contents found)

  adopt_good :
      (w : World S) (i base : ℕ) (r : Result (Unit {0})) (contents : List ℕ) (device : S)
      → IsOwned w
      → w.object i ≡ none
      → ((adopt i base (length contents) r (some contents) device w).0 ≡ r)
        × IsOwned (adopt i base (length contents) r (some contents) device w).1
  unfolding adopt built
  adopt_good w i base (ok tt) contents device o dead =
      (refl, built-IsOwned w i base contents device o dead)
  adopt_good w i base (err e) contents device o dead =
      let eq = adopt_err w i base e contents device in
      (ap (λ p. p.0) eq, subst (λ p. IsOwned p.1) (sym eq) (failed-IsOwned w contents device o))

  construct-Good :
      (bus : Transport S) (w : World S) (i base words : ℕ)
      → IsShaped bus
      → IsOwned w
      → w.object i ≡ none
      → Good bus (constructs i base words) w
  unfolding Good execute construct outcome
  construct-Good bus w i base words shape o dead =
      let zeros = replicate words 0 in
      let (contents, filled, size) = shape.shaped base words zeros w.device in
      let (r, buffer, device) = bus.read_block base (some zeros) words w.device in
      let same : length contents ≡ words = size ∙ length-replicate words 0 in
      subst
        (λ b.
          ((adopt i base words r b device w).0 ≡ r) × IsOwned (adopt i base words r b device w).1)
        (sym filled)
        (subst
          (λ n.
            ((adopt i base n r (some contents) device w).0 ≡ r)
            × IsOwned (adopt i base n r (some contents) device w).1)
          same (adopt_good w i base r contents device o dead))

  gone_self : (w : World S) (i : ℕ) (r : MappedRegion) → (gone i r.pointer w).object i ≡ none
  unfolding gone freed
  gone_self w i r = ground (arith, ==_refl i)

  gone_other :
      (w : World S) (i j : ℕ) (r : MappedRegion)
      → i ≢ j
      → (gone i r.pointer w).object j ≡ w.object j
  unfolding gone freed
  gone_other w i j r apart = ground (arith, ==_iff j i)

  assign_self : (w : World S) (i j : ℕ) → (i == j) ≡ true → move_assign i j w ≡ (ok tt, w)
  unfolding move_assign
  assign_self w i j e = rw (e, move_assign)

  execute-Good :
      (bus : Transport S) (op : Operation) (w : World S)
      → IsShaped bus
      → IsOwned w
      → IsLegal op w
      → Good bus op w
  unfolding Good execute outcome IsLegal IsLive
  execute-Good bus (constructs i base words) w shape o dead =
      construct-Good bus w i base words shape o dead
  execute-Good bus (destroys i) w shape o (r, live) =
      subst (λ p. (p.0 ≡ ok tt) × IsOwned p.1) (sym (destroy_good w i r o live))
        (refl, gone-IsOwned w i r o live)
  execute-Good bus (moves i j) w shape o (dead, (other, live)) =
      subst (λ p. (p.0 ≡ ok tt) × IsOwned p.1) (sym (move_good w i j other live))
        (refl, moved-IsOwned w i j other o dead live)
  execute-Good bus (assigns i j) w shape o ((r, live_i), (other, live_j)) =
      elim (Bool-cases (i == j)) [
        | inl same ↦
            subst (λ p. (p.0 ≡ ok tt) × IsOwned p.1) (sym (assign_self w i j same)) (refl, o)
        | inr apart ↦
            let differ : i ≢ j = λ e. ground (arith, ==_iff i j) in
            subst (λ p. (p.0 ≡ ok tt) × IsOwned p.1)
              (sym (assign_good w i j r other o differ live_i live_j))
              (
                refl,
                moved-IsOwned (gone i r.pointer w) i j other (gone-IsOwned w i r o live_i)
                    (gone_self w i r) (ground (arith, gone_other w i j r differ)),
              )
      ]

  -- The operations one after another, whatever their results.
  unfoldable pub run : Transport S → List Operation → World S → World S
  run bus [] w = w
  run bus (op ∷ rest) w = run bus rest (execute bus op w).1

  unfoldable pub AllLegal : Transport S → List Operation → World S → Type 0
  AllLegal bus [] w = Unit
  AllLegal bus (op ∷ rest) w = IsLegal op w × AllLegal bus rest (execute bus op w).1

  unfoldable pub results : Transport S → List Operation → World S → List (Result (Unit {0}))
  results bus [] w = []
  results bus (op ∷ rest) w = (execute bus op w).0 ∷ results bus rest (execute bus op w).1

  unfoldable pub outcomes : Transport S → List Operation → World S → List (Result (Unit {0}))
  outcomes bus [] w = []
  outcomes bus (op ∷ rest) w = outcome bus op w ∷ outcomes bus rest (execute bus op w).1

  -- No operation of a legal sequence deletes a block that is not allocated or uses a dead object:
  -- a constructor ends the way its fill ends, also when that throws, and all else returns. Each
  -- block is then owned by exactly one live object.
  pub run-IsOwned :
      (bus : Transport S) (ops : List Operation) (w : World S)
      → IsShaped bus
      → IsOwned w
      → AllLegal bus ops w
      → (results bus ops w ≡ outcomes bus ops w) × IsOwned (run bus ops w)
  unfolding AllLegal run results outcomes Good
  run-IsOwned bus [] w shape o legal = (refl, o)
  run-IsOwned bus (op ∷ rest) w shape o (legal, more) =
      let (same, o') = execute-Good bus op w shape o legal in
      let (sames, o'') = run-IsOwned bus rest (execute bus op w).1 shape o' more in
      (ap₂ (λ r rs. r ∷ rs) same sames, o'')

  -- When a legal sequence ends with no live object, no block is left.
  pub run_no_leak :
      (bus : Transport S) (ops : List Operation) (w : World S)
      → IsShaped bus
      → IsOwned w
      → AllLegal bus ops w
      → ((i : ℕ) → (run bus ops w).object i ≡ none)
      → (p : ℕ) → (run bus ops w).block p ≡ none
  run_no_leak bus ops w shape o legal dead p =
      let after = (run-IsOwned bus ops w shape o legal).1 in
      elim (Option-cases ((run bus ops w).block p)) [
        | inl e ↦ e
        | inr (contents, e) ↦
            let (i, r, live, own) = after.kept p contents e in absurd (ground (arith, dead i))
      ]
