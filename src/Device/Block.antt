-- ===== src/Device/Block.antt =====
-- How a block transfer of src/emulated_device.cpp ends, shared by both directions.
pub mod Read
pub mod Write
use soc_validation_framework.Prelude.{
  ℕ, zero, suc, ◌+◌, ◌*◌, ◌≤◌, ◌<◌, ◌≡◌, refl, ◌∙◌, sym, subst, ap, ◌⊎◌, inl, inr, List, [], ◌∷◌,
  none, some, length, get_elem?, set, length-set, get_elem?-set_self, get_elem?-set_ne,
  Option-cases, arith,
}
use mathlib.Core.Option
use native.Mathlib.Nat.{add-zero}
use soc_validation_framework.Word.{u64}
use soc_validation_framework.Bus.{Result, ok, err}
use soc_validation_framework.Device.{
  EmulatedDevice, tick, read32, write32, read_words, read_block, write_words, write_block,
}
use soc_validation_framework.Device.Policy.{policy_for}
use soc_validation_framework.Device.Access.{
  IsDecoded, Access, reads, writes, step, run, read32_decoded, read32_undecoded, write32_decoded,
  write32_undecoded, not_decoded,
}

-- Word `i` of a block at `address`.
abbrev pub word_address : ℕ → ℕ → ℕ
word_address address i = u64 (address + i * 4)

-- How a block of `left` words from index `i` ends: all words were moved, or the first word that
-- no register decodes threw.
abbrev pub Ends : (left i address moved : ℕ) → Result (Unit {0}) → Type 0
Ends left i address moved r =
    ((moved ≡ left) × (r ≡ ok tt))
    ⊎ ((moved < left)
        × (policy_for (word_address address (i + moved)) ≡ none)
        × (r ≡ err (not_decoded (word_address address (i + moved)))))

pub Ends-next :
    (left i address moved : ℕ) (r : Result (Unit {0}))
    → Ends left (i + 1) address moved r
    → Ends (suc left) i address (suc moved) r
Ends-next left i address moved r (inl (all, e)) = inl (omega arith, e)
Ends-next left i address moved r (inr (some_left, e, thrown)) =
    let shift : i + 1 + moved ≡ i + suc moved = omega arith in
    inr (
      omega arith,
      subst (λ k. policy_for (word_address address k) ≡ none) shift e,
      thrown ∙ ap (λ k. err (not_decoded (word_address address k))) shift,
    )

-- The words of a block from index `i` are decoded, the first `moved` of them.
abbrev pub AllDecodedWords : (i address moved : ℕ) → Type 0
AllDecodedWords i address moved = (j : ℕ) → j < moved → IsDecoded (word_address address (i + j))

-- One more word in front of decoded ones.
pub decoded-next :
    (i address moved : ℕ)
    → IsDecoded (word_address address i)
    → AllDecodedWords (i + 1) address moved
    → AllDecodedWords i address (suc moved)
decoded-next i address moved first rest zero h = rw add-zero first
decoded-next i address moved first rest (suc j) h =
    let shift : i + 1 + j ≡ i + suc j = omega arith in
    subst (λ k. IsDecoded (word_address address k)) shift (rest j (omega arith))
