-- ===== src/Registers/Generator.antt =====
-- tools/generate_registers.py: from the register map, as `yaml.safe_load` returns it, to the structs
-- that are emitted. A text is the list of its character codes. What is emitted is kept as data in
-- place of lines of C++; comments are left out. Python's `int` on a text is the parameter `int_of`.
pub mod Bits
pub mod Surface
mod Tests
use soc_validation_framework.Prelude.{
  ℕ, ◌+◌, ◌-◌, ◌*◌, ◌^◌, List, [], ◌∷◌, ◌++◌, Bool, true, false, Option, none, some, ltb, leb, ◌&&◌,
  if◌then◌else◌, ◌==◌, map, bit_and, bit_or, not,
}
use soc_validation_framework.Word.{u32, not32, shl32, shr}
use soc_validation_framework.Registers.{mask}
use soc_validation_framework.TxnLog.Csv.{Text, codes, same_text}
use soc_validation_framework.TxnLog.Csv.Split.{split, lacks}

pub data ℤ : Type 0 where
  pos negsuc : (n : ℕ) → ℤ

unfoldable pub ltℤ : ℤ → ℤ → Bool
ltℤ (pos a) (pos b) = ltb a b
ltℤ (pos a) (negsuc b) = false
ltℤ (negsuc a) (pos b) = true
ltℤ (negsuc a) (negsuc b) = ltb b a

abbrev pub colon : ℕ
colon = 58

-- `str.upper` on ASCII.
unfoldable pub upper : Text → Text
upper text = map (λ c. if leb 97 c && leb c 122 then c - 32 else c) text

module _ (int_of : Text → Option ℤ) where
  -- The two ends of a range in its text; `none` where an exception is raised.
  unfoldable pub two_ends : List Text → Option (ℤ × ℤ)
  two_ends [] = none
  two_ends (hi ∷ []) = none
  two_ends (hi ∷ lo ∷ []) = elim (int_of hi) [
    | none ↦ none
    | some h ↦ elim (int_of lo) [ none ↦ none | some l ↦ some (h, l) ]
  ]
  two_ends (hi ∷ lo ∷ more ∷ rest) = none

  unfoldable pub one_end : Text → Option (ℤ × ℤ)
  one_end text = elim (int_of text) [ none ↦ none | some h ↦ some (h, h) ]

  -- A range with `hi < lo` is a `ValueError`.
  unfoldable pub checked : Option (ℤ × ℤ) → Option (ℤ × ℤ)
  checked none = none
  checked (some (hi, lo)) = if ltℤ hi lo then none else some (hi, lo)

  unfoldable pub parse_bits : Text → Option (ℤ × ℤ)
  unfolding two_ends one_end checked
  parse_bits text = checked (if lacks colon text then one_end text else two_ends (split colon text))

-- A field of the map; its access is RW where none is given.
pub record FieldSpec : Type 0 where
  pub name : Text
  pub bits : Text
  pub access : Option Text
  pub enum : List (Text × ℤ)

-- What is emitted for a field: its enum, its getter, a setter or a `clear_X`, and its constants.
pub data Member : Type 0 where
  enum_class : (name : Text) (values : List (Text × ℤ)) → Member
  getter setter : (name : Text) (m lo : ℕ) → Member
  clearer : (name : Text) (m : ℕ) → Member
  constants : (name : Text) (m lo width : ℕ) → Member

unfoldable pub access_of : Option Text → Text
unfolding upper
access_of none = codes "RW"
access_of (some text) = upper text

-- The `if` and `elif` on the access.
unfoldable pub mutators : Text → Text → ℕ → ℕ → List Member
mutators access name m lo =
    if same_text access (codes "RW")
    then setter name m lo ∷ []
    else if same_text access (codes "W1C")
    then clearer name m ∷ []
    else []

unfoldable pub enums : Text → List (Text × ℤ) → List Member
enums name [] = []
enums name (v ∷ vs) = enum_class name (v ∷ vs) ∷ []

unfoldable pub members : FieldSpec → ℕ → ℕ → List Member
unfolding enums mutators access_of
members f hi lo =
    enums f.name f.enum
    ++ getter f.name (mask hi lo) lo
      ∷ (mutators (access_of f.access) f.name (mask hi lo) lo
          ++ constants f.name (mask hi lo) lo (hi - lo + 1) ∷ [])

-- A register and a block of the map.
pub record RegisterSpec : Type 0 where
  pub name : Text
  pub offset : ℕ
  pub reset : ℕ
  pub access : Option Text
  pub fields : List FieldSpec

pub record BlockSpec : Type 0 where
  pub name : Text
  pub base : ℕ
  pub registers : List RegisterSpec

-- An emitted struct, named after its block and its register.
pub record Struct : Type 0 where
  pub block : Text
  pub name : Text
  pub address : ℕ
  pub reset : ℕ
  pub access : Text
  pub members : List Member

-- A negative end makes `mask` raise, which shifts by it.
unfoldable pub emit_range : FieldSpec → Option (ℤ × ℤ) → Option (List Member)
unfolding members
emit_range f none = none
emit_range f (some (pos hi, pos lo)) = some (members f hi lo)
emit_range f (some (pos hi, negsuc lo)) = none
emit_range f (some (negsuc hi, pos lo)) = none
emit_range f (some (negsuc hi, negsuc lo)) = none

module _ (int_of : Text → Option ℤ) where
  unfoldable pub emit_field : FieldSpec → Option (List Member)
  unfolding emit_range
  emit_field f = emit_range f (parse_bits int_of f.bits)

  -- The loop over the fields.
  unfoldable pub emit_fields : List FieldSpec → Option (List Member)
  unfolding emit_field
  emit_fields [] = some []
  emit_fields (f ∷ fs) = elim (emit_field f) [
    | none ↦ none
    | some ms ↦ elim (emit_fields fs) [ none ↦ none | some rest ↦ some (ms ++ rest) ]
  ]

  unfoldable pub emit_register : BlockSpec → RegisterSpec → Option Struct
  unfolding emit_fields access_of
  emit_register block reg = elim (emit_fields reg.fields) [
    | none ↦ none
    | some ms ↦ some (record {
      block = block.name;
      name = reg.name;
      address = block.base + reg.offset;
      reset = reg.reset;
      access = access_of reg.access;
      members = ms;
    })
  ]

  -- The two loops of `generate`.
  unfoldable pub emit_registers : BlockSpec → List RegisterSpec → Option (List Struct)
  unfolding emit_register
  emit_registers block [] = some []
  emit_registers block (r ∷ rs) = elim (emit_register block r) [
    | none ↦ none
    | some s ↦ elim (emit_registers block rs) [ none ↦ none | some rest ↦ some (s ∷ rest) ]
  ]

  unfoldable pub generate : List BlockSpec → Option (List Struct)
  unfolding emit_registers
  generate [] = some []
  generate (b ∷ bs) = elim (emit_registers b b.registers) [
    | none ↦ none
    | some ss ↦ elim (generate bs) [ none ↦ none | some rest ↦ some (ss ++ rest) ]
  ]

-- The emitted functions of each sort, by name, and what they do to the word.
unfoldable pub getters : List Member → List (Text × (ℕ → ℕ))
getters [] = []
getters (getter name m lo ∷ ms) = (name, λ raw. shr (bit_and raw m) lo) ∷ getters ms
getters (setter name m lo ∷ ms) = getters ms
getters (clearer name m ∷ ms) = getters ms
getters (constants name m lo width ∷ ms) = getters ms
getters (enum_class name values ∷ ms) = getters ms

unfoldable pub setters : List Member → List (Text × (ℕ → ℕ → ℕ))
setters [] = []
setters (setter name m lo ∷ ms) =
    (codes "set_" ++ name, λ v raw. bit_or (bit_and raw (not32 (u32 m))) (bit_and (shl32 v lo) m))
    ∷ setters ms
setters (getter name m lo ∷ ms) = setters ms
setters (clearer name m ∷ ms) = setters ms
setters (constants name m lo width ∷ ms) = setters ms
setters (enum_class name values ∷ ms) = setters ms

unfoldable pub clearers : List Member → List (Text × (ℕ → ℕ))
clearers [] = []
clearers (clearer name m ∷ ms) = (codes "clear_" ++ name, λ raw. u32 (bit_or raw m)) ∷ clearers ms
clearers (getter name m lo ∷ ms) = clearers ms
clearers (setter name m lo ∷ ms) = clearers ms
clearers (constants name m lo width ∷ ms) = clearers ms
clearers (enum_class name values ∷ ms) = clearers ms
