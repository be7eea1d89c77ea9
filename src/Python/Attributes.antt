-- ===== src/Python/Attributes.antt =====
-- Assigning an attribute of a wrapper.
use Prim.Native.String.{String}
use mathlib.Core.Option.{some-injective}
use soc_validation_framework.Prelude.{
  ℕ, zero, suc, ◌%◌, ◌^◌, ◌<◌, ◌≡◌, inl, inr, refl, sym, ◌∙◌, ap, List, [], ◌∷◌, some, get_elem?,
  ◌==◌, if◌then◌else◌, arith,
}
use soc_validation_framework.Registers.{Field, IsField, width, get, set}
use soc_validation_framework.Registers.Map.{go_field, burst_field, channel_field}
use soc_validation_framework.Registers.Fields.{Disjoint, get-set, get-set_apart}
use soc_validation_framework.Python.{
  find_field, emitted_getter, setter_of, emitted_setter, Attribute, def_property, RegisterClass,
  all_some, class_of, dma_ctrl_class,
}

-- An attribute that can be assigned, of a field.
abbrev pub assignable : String → Field → Attribute
assignable name f = record { name = name; load = get f; put = some (set f) }

abbrev pub three_attributes : List Attribute
three_attributes =
    assignable "go" go_field
    ∷ assignable "burst_len" burst_field
    ∷ assignable "channel" channel_field
    ∷ []

ctrl_attributes :
    dma_ctrl_class ≡ some (record { raw = 0; address = 0x40000000; attributes = three_attributes })
unfolding dma_ctrl_class class_of all_some def_property emitted_getter emitted_setter setter_of
    find_field
ctrl_attributes = refl

-- What assigning the attribute of `f` does to that of `g`.
assigned :
    (n m : String) (f g : Field) (p q : Attribute) (s : ℕ → ℕ → ℕ) (v raw result : ℕ)
    → some (assignable n f) ≡ some p
    → some (assignable m g) ≡ some q
    → p.put ≡ some s
    → get g (set f v raw) ≡ result
    → q.load (s v raw) ≡ result
assigned n m f g p q s v raw result at_p at_q put done =
    let loads : get g ≡ q.load =
      ap (λ (a : Attribute). a.load) (some-injective (assignable m g) q at_q) in
    let sets : set f ≡ s =
      some-injective (set f) s
        (ap (λ (a : Attribute). a.put) (some-injective (assignable n f) p at_p) ∙ put) in
    sym (ap (λ h. h (s v raw)) loads) ∙ sym (ap (λ h. get g (h v raw)) sets) ∙ done

-- The widths of the three fields.
abbrev pub ctrl_widths : List ℕ
ctrl_widths = 1 ∷ 8 ∷ 4 ∷ []

load_own :
    (n : String) (f : Field) (p q : Attribute) (s : ℕ → ℕ → ℕ) (w v raw : ℕ)
    → IsField f
    → raw < 2 ^ 32
    → some (assignable n f) ≡ some p
    → some (assignable n f) ≡ some q
    → p.put ≡ some s
    → some (width f) ≡ some w
    → q.load (s v raw) ≡ v % 2 ^ w
load_own n f p q s w v raw field word at_p at_q put at_w =
    assigned n n f f p q s v raw (v % 2 ^ w) at_p at_q put
      (get-set f v raw field word ∙ ap (λ (k : ℕ). v % 2 ^ k) (some-injective (width f) w at_w))

load_apart :
    (n m : String) (f g : Field) (p q : Attribute) (s : ℕ → ℕ → ℕ) (v raw : ℕ)
    → IsField f
    → IsField g
    → Disjoint f g
    → raw < 2 ^ 32
    → some (assignable n f) ≡ some p
    → some (assignable m g) ≡ some q
    → p.put ≡ some s
    → q.load (s v raw) ≡ q.load raw
load_apart n m f g p q s v raw field other disjoint word at_p at_q put =
    assigned n m f g p q s v raw (q.load raw) at_p at_q put (
      get-set_apart f g v raw field other disjoint word
      ∙ ap (λ (a : Attribute). a.load raw) (some-injective (assignable m g) q at_q))

go-IsField : IsField go_field
go-IsField = record { ordered = omega arith; within = omega arith }

burst-IsField : IsField burst_field
burst-IsField = record { ordered = omega arith; within = omega arith }

channel-IsField : IsField channel_field
channel-IsField = record { ordered = omega arith; within = omega arith }

assigns :
    (i j : ℕ) (p q : Attribute) (s : ℕ → ℕ → ℕ) (w v raw : ℕ)
    → get_elem? three_attributes i ≡ some p
    → get_elem? three_attributes j ≡ some q
    → get_elem? ctrl_widths i ≡ some w
    → p.put ≡ some s
    → raw < 2 ^ 32
    → q.load (s v raw) ≡ (if i == j then v % 2 ^ w else q.load raw)
assigns zero zero p q s w v raw at_p at_q at_w put word =
    load_own "go" go_field p q s w v raw go-IsField word at_p at_q put at_w
assigns zero (suc zero) p q s w v raw at_p at_q at_w put word =
    load_apart "go" "burst_len" go_field burst_field p q s v raw go-IsField burst-IsField
      (inl (omega arith)) word at_p at_q put
assigns zero (suc (suc zero)) p q s w v raw at_p at_q at_w put word =
    load_apart "go" "channel" go_field channel_field p q s v raw go-IsField channel-IsField
      (inl (omega arith)) word at_p at_q put
assigns (suc zero) zero p q s w v raw at_p at_q at_w put word =
    load_apart "burst_len" "go" burst_field go_field p q s v raw burst-IsField go-IsField
      (inr (omega arith)) word at_p at_q put
assigns (suc zero) (suc zero) p q s w v raw at_p at_q at_w put word =
    load_own "burst_len" burst_field p q s w v raw burst-IsField word at_p at_q put at_w
assigns (suc zero) (suc (suc zero)) p q s w v raw at_p at_q at_w put word =
    load_apart "burst_len" "channel" burst_field channel_field p q s v raw burst-IsField
      channel-IsField (inl (omega arith)) word at_p at_q put
assigns (suc (suc zero)) zero p q s w v raw at_p at_q at_w put word =
    load_apart "channel" "go" channel_field go_field p q s v raw channel-IsField go-IsField
      (inr (omega arith)) word at_p at_q put
assigns (suc (suc zero)) (suc zero) p q s w v raw at_p at_q at_w put word =
    load_apart "channel" "burst_len" channel_field burst_field p q s v raw channel-IsField
      burst-IsField (inr (omega arith)) word at_p at_q put
assigns (suc (suc zero)) (suc (suc zero)) p q s w v raw at_p at_q at_w put word =
    load_own "channel" channel_field p q s w v raw channel-IsField word at_p at_q put at_w
assigns (suc (suc (suc i))) j p q s w v raw at_p at_q at_w put word = absurd (ground arith)
assigns zero (suc (suc (suc j))) p q s w v raw at_p at_q at_w put word = absurd (ground arith)
assigns (suc zero) (suc (suc (suc j))) p q s w v raw at_p at_q at_w put word = absurd (ground arith)
assigns (suc (suc zero)) (suc (suc (suc j))) p q s w v raw at_p at_q at_w put word =
    absurd (ground arith)

-- In the wrapper `DmaCtrl`, assigning the `i`-th attribute gives that attribute the value, cut to
-- the width of its field, and leaves every other attribute as it was, whatever the word.
pub assign_dma_ctrl :
    (c : RegisterClass) (i j : ℕ) (p q : Attribute) (s : ℕ → ℕ → ℕ) (w v raw : ℕ)
    → dma_ctrl_class ≡ some c
    → get_elem? c.attributes i ≡ some p
    → get_elem? c.attributes j ≡ some q
    → get_elem? ctrl_widths i ≡ some w
    → p.put ≡ some s
    → raw < 2 ^ 32
    → q.load (s v raw) ≡ (if i == j then v % 2 ^ w else q.load raw)
assign_dma_ctrl c i j p q s w v raw compiled at_p at_q at_w put word =
    let same : three_attributes ≡ c.attributes =
      ap (λ (k : RegisterClass). k.attributes)
        (some-injective _ c (sym ctrl_attributes ∙ compiled)) in
    assigns i j p q s w v raw (ap (λ l. get_elem? l i) same ∙ at_p)
      (ap (λ l. get_elem? l j) same ∙ at_q) at_w put word
