-- ===== src/Device/Block/Read.antt =====
-- `ReadBlock` against the single reads that it stands for.
use soc_validation_framework.Prelude.{
  get_elem?-lt, ℕ, zero, suc, ◌+◌, ◌≤◌, ◌<◌, ◌≡◌, refl, ◌∙◌, sym, subst, ap, inl, inr, List, [],
  ◌∷◌, none, some, length, get_elem?, set, length-set, get_elem?-set_self, get_elem?-set_ne,
  Option-cases, arith,
}
use native.Mathlib.Nat.{add-zero}
use soc_validation_framework.Bus.{Result, err}
use soc_validation_framework.Device.{EmulatedDevice, tick, read_words, read_block}
use soc_validation_framework.Device.Policy.{policy_for}
use soc_validation_framework.Device.Access.{
  IsDecoded, Access, reads, step, run, read32_decoded, read32_undecoded, not_decoded,
}
use soc_validation_framework.Device.Block.{
  word_address, Ends, Ends-next, AllDecodedWords, decoded-next,
}

-- The single reads of words `i`, `i + 1`, …, `n` of them.
abbrev pub burst : (n i address : ℕ) → List Access
burst zero i address = []
burst (suc n) i address = reads (word_address address i) ∷ burst n (i + 1) address

-- `moved` words, all of them decoded, were read one after the other, each into its place of the
-- array, and nothing else of the array was touched.
pub record IsBurst (left i address : ℕ) (out : List ℕ) (d : EmulatedDevice)
    (result : Result (Unit {0}) × List ℕ × EmulatedDevice) : Type 0 where
  pub moved : ℕ
  pub ends : Ends left i address moved result.0
  pub decoded : AllDecodedWords i address moved
  pub device : result.2 ≡ run (burst moved i address) d
  pub same_length : length result.1 ≡ length out
  pub before : (j : ℕ) → j < i → get_elem? result.1 j ≡ get_elem? out j
  pub beyond : (j : ℕ) → i + moved ≤ j → get_elem? result.1 j ≡ get_elem? out j
  pub inside :
      (j : ℕ)
      → j < moved
      → get_elem? result.1 (i + j)
        ≡ some ((run (burst (suc j) i address) d).storage (word_address address (i + j)))

module _ (left i address : ℕ) (out : List ℕ) (d : EmulatedDevice) where
  abbrev at : ℕ
  at = word_address address i

  abbrev next_out : List ℕ
  next_out = set out i ((tick d).storage at)

  read_words_throws :
      policy_for at ≡ none → read_words (suc left) i address out d ≡ (err (not_decoded at), out, d)
  unfolding read_words
  read_words_throws e = ground (arith, read32_undecoded at d e)

  read_words_moves :
      IsDecoded at
      → i < length out
      → read_words (suc left) i address out d ≡ read_words left (i + 1) address next_out (tick d)
  unfolding read_words
  read_words_moves decoded fits =
      let (word, found) = get_elem?-lt out i fits in ground (arith, read32_decoded at d decoded)

  step-reads : IsDecoded at → step (reads at) d ≡ tick d
  unfolding step
  step-reads decoded = ap (λ r. r.1) (read32_decoded at d decoded)

  IsBurst-none :
      policy_for at ≡ none → IsBurst (suc left) i address out d (err (not_decoded at), out, d)
  unfolding run
  IsBurst-none e = record {
    moved = 0;
    ends = inr (omega arith, rw add-zero e, rw add-zero);
    decoded = λ j h. absurd (omega arith);
    device = refl;
    same_length = refl;
    before = λ j h. refl;
    beyond = λ j h. refl;
    inside = λ j h. absurd (omega arith);
  }

  inside-next :
      {result : Result (Unit {0}) × List ℕ × EmulatedDevice}
      → IsDecoded at
      → i < length out
      → (b : IsBurst left (i + 1) address next_out (tick d) result) → (j : ℕ) → j < suc b.moved
      → get_elem? result.1 (i + j)
        ≡ some ((run (burst (suc j) i address) d).storage (word_address address (i + j)))
  unfolding run
  inside-next decoded fits b zero h =
      rw (add-zero, step-reads decoded) (b.before i (omega arith) ∙ get_elem?-set_self out i _ fits)
  inside-next {result} decoded fits b (suc j) h =
      let later = λ (e : EmulatedDevice). run (burst (suc j) (i + 1) address) e in
      let shift : i + 1 + j ≡ i + suc j = omega arith in
      subst
        (λ e.
          get_elem? result.1 (i + suc j)
          ≡ some ((later e).storage (word_address address (i + suc j))))
        (sym (step-reads decoded))
        (subst
          (λ k. get_elem? result.1 k ≡ some ((later (tick d)).storage (word_address address k)))
          shift (b.inside j (omega arith)))

  IsBurst-next :
      {result : Result (Unit {0}) × List ℕ × EmulatedDevice}
      → IsDecoded at
      → i < length out
      → IsBurst left (i + 1) address next_out (tick d) result
      → IsBurst (suc left) i address out d result
  unfolding run
  IsBurst-next decoded fits b = record {
    moved = suc b.moved;
    ends = Ends-next left i address b.moved _ b.ends;
    decoded = decoded-next i address b.moved decoded b.decoded;
    device = b.device ∙ ap (run (burst b.moved (i + 1) address)) (sym (step-reads decoded));
    same_length = b.same_length ∙ length-set out i _;
    before = λ j h. b.before j (omega arith) ∙ get_elem?-set_ne out i j _ (omega arith);
    beyond = λ j h. b.beyond j (omega arith) ∙ get_elem?-set_ne out i j _ (omega arith);
    inside = inside-next decoded fits b;
  }

read_words-IsBurst :
    (left i address : ℕ) (out : List ℕ) (d : EmulatedDevice)
    → i + left ≤ length out
    → IsBurst left i address out d (read_words left i address out d)
unfolding run
read_words-IsBurst zero i address out d fits = record {
  moved = 0;
  ends = inl (refl, unfold read_words in refl);
  decoded = λ j h. absurd (omega arith);
  device = unfold read_words in refl;
  same_length = unfold read_words in refl;
  before = λ j h. unfold read_words in refl;
  beyond = λ j h. unfold read_words in refl;
  inside = λ j h. absurd (omega arith);
}
read_words-IsBurst (suc left) i address out d fits =
    elim (Option-cases (policy_for (word_address address i))) [
      | inl e ↦ rw (read_words_throws left i address out d e) (IsBurst-none left i address out d e)
      | inr decoded ↦ rw (read_words_moves left i address out d decoded (omega arith)) (
          IsBurst-next left i address out d decoded (omega arith) (
            read_words-IsBurst left (i + 1) address _ (tick d)
              (omega (arith, length-set out i ((tick d).storage (word_address address i))))))
    ]

-- `ReadBlock` into an array with room for `count` words reads them one after the other, as
-- single reads would, each into its place. It returns exactly when registers decode all of them;
-- otherwise it throws the exception of the first word that none decodes, with the words before it
-- stored and their reads done. The rest of the array is untouched.
pub read_block-IsBurst :
    (address count : ℕ) (out : List ℕ) (d : EmulatedDevice)
    → count ≤ length out
    → (out' : List ℕ) × (d' : EmulatedDevice) × (r : Result (Unit {0})) × (read_block address
          (some out)
          count
          d
        ≡ (r, some out', d'))
      × IsBurst count 0 address out d (r, out', d')
unfolding read_block
read_block-IsBurst address count out d fits =
    let result = read_words count 0 address out d in
    (result.1, result.2, result.0, refl, read_words-IsBurst count 0 address out d (omega arith))

length-read_words :
    (left i address : ℕ) (out : List ℕ) (d : EmulatedDevice)
    → length (read_words left i address out d).1 ≡ length out
unfolding read_words
length-read_words zero i address out d = refl
length-read_words (suc left) i address out d =
    let at = word_address address i in
    let word = (tick d).storage at in
    elim (Option-cases (policy_for at)) [
      | inl e ↦ ground (arith, read32_undecoded at d e)
      | inr decoded ↦ ground (
        arith,
        read32_decoded at d decoded,
        length-read_words left (i + 1) address (set out i word) (tick d),
        length-set out i word,
      )
    ]

-- `ReadBlock` does not change the length of the caller's array, however it ends.
pub length-read_block :
    (address count : ℕ) (out : List ℕ) (d : EmulatedDevice)
    → (filled : List ℕ) × ((read_block address (some out) count d).1 ≡ some filled)
      × (length filled ≡ length out)
unfolding read_block
length-read_block address count out d = (_, refl, length-read_words count 0 address out d)
