-- ===== src/Device/Block/Write.antt =====
-- `WriteBlock` against the single writes that it stands for.
use soc_validation_framework.Prelude.{
  get_elem?-lt, ℕ, zero, suc, ◌+◌, ◌≤◌, ◌<◌, ◌≡◌, refl, inl, inr, List, [], ◌∷◌, none, some, length,
  get_elem?, Option-cases, arith,
}
use mathlib.Core.Option
use native.Mathlib.Nat.{add-zero}
use soc_validation_framework.Bus.{Result, err}
use soc_validation_framework.Device.{EmulatedDevice, write_words, write_block}
use soc_validation_framework.Device.Policy.{policy_for}
use soc_validation_framework.Device.Access.{
  IsDecoded, Access, writes, step, run, write32_decoded, write32_undecoded, not_decoded,
}
use soc_validation_framework.Device.Block.{
  word_address, Ends, Ends-next, AllDecodedWords, decoded-next,
}

-- The single writes of words `i`, `i + 1`, …, `n` of them.
abbrev pub write_burst : (n i address : ℕ) → List ℕ → List Access
write_burst zero i address words = []
write_burst (suc n) i address words =
    writes (word_address address i) (Option.get_or (get_elem? words i) 0)
    ∷ write_burst n (i + 1) address words

-- `moved` words, all of them decoded, were written one after the other.
pub record IsWriteBurst (left i address : ℕ) (words : List ℕ) (d : EmulatedDevice)
    (result : Result (Unit {0}) × EmulatedDevice) : Type 0 where
  pub moved : ℕ
  pub ends : Ends left i address moved result.0
  pub decoded : AllDecodedWords i address moved
  pub device : result.1 ≡ run (write_burst moved i address words) d

module _ (left i address : ℕ) (words : List ℕ) (d : EmulatedDevice) (fits : i < length words) where
  abbrev word_at : ℕ
  word_at = Option.get_or (get_elem? words i) 0

  write_words_throws :
      policy_for (word_address address i) ≡ none
      → write_words (suc left) i address words d ≡ (err (not_decoded (word_address address i)), d)
  unfolding write_words
  write_words_throws e =
      let (word, found) = get_elem?-lt words i fits in
      ground (arith, write32_undecoded (word_address address i) word d e)

  write_words_moves :
      IsDecoded (word_address address i)
      → write_words (suc left) i address words d
        ≡ write_words left (i + 1) address words (step (writes (word_address address i) word_at) d)
  unfolding write_words step
  write_words_moves (p, e) =
      let (word, found) = get_elem?-lt words i fits in
      ground (arith, write32_decoded (word_address address i) word d e)

write_words-IsWriteBurst :
    (left i address : ℕ) (words : List ℕ) (d : EmulatedDevice)
    → i + left ≤ length words
    → IsWriteBurst left i address words d (write_words left i address words d)
unfolding run
write_words-IsWriteBurst zero i address words d fits = record {
  moved = 0;
  ends = inl (refl, unfold write_words in refl);
  decoded = λ j h. absurd (omega arith);
  device = unfold write_words in refl;
}
write_words-IsWriteBurst (suc left) i address words d fits =
    elim (Option-cases (policy_for (word_address address i))) [
      | inl e ↦ rw (write_words_throws left i address words d (omega arith) e) (record {
        moved = 0;
        ends = inr (omega arith, rw add-zero e, rw add-zero);
        decoded = λ j h. absurd (omega arith);
        device = refl;
      })
      | inr decoded ↦
          let rest =
            write_words-IsWriteBurst left (i + 1) address words
              (step (writes (word_address address i) (Option.get_or (get_elem? words i) 0)) d)
              (omega arith) in
          rw (write_words_moves left i address words d (omega arith) decoded) (record {
            moved = suc rest.moved;
            ends = Ends-next left i address rest.moved _ rest.ends;
            decoded = decoded-next i address rest.moved decoded rest.decoded;
            device = rest.device;
          })
    ]

-- `WriteBlock` from an array of at least `count` words makes the single writes one after the
-- other. It returns exactly when registers decode all of the words; otherwise it throws the
-- exception of the first word that none decodes, and the writes before it stay made.
pub write_block-IsWriteBurst :
    (address count : ℕ) (words : List ℕ) (d : EmulatedDevice)
    → count ≤ length words
    → IsWriteBurst count 0 address words d (write_block address (some words) count d)
unfolding write_block
write_block-IsWriteBurst address count words d fits =
    write_words-IsWriteBurst count 0 address words d (omega arith)
