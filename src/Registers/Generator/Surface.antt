-- ===== src/Registers/Generator/Surface.antt =====
-- What the generator emits for the fields of a databook: the accessors that their access allows.
use soc_validation_framework.Prelude.{
  ℕ, ◌+◌, ◌^◌, ◌≤◌, ◌<◌, ◌≡◌, List, [], ◌∷◌, ◌++◌, Option, some, map,
}
use soc_validation_framework.Registers.{Field, Access, rw', ro, w1c, get, set, clear}
use soc_validation_framework.TxnLog.Csv.{Text, codes, dec}
use soc_validation_framework.Registers.Generator.Bits.{bits_text}
use soc_validation_framework.Registers.Generator.{
  ℤ, pos, FieldSpec, Member, access_of, members, RegisterSpec, BlockSpec, Struct, getters, setters,
  clearers,
}

-- A field as a databook has it.
unfoldable pub access_text : Access → Text
access_text rw' = codes "RW"
access_text ro = codes "RO"
access_text w1c = codes "W1C"

unfoldable pub spec_with : Field → Access → FieldSpec
unfolding bits_text access_text
spec_with f a = record {
  name = codes f.label;
  bits = bits_text f.hi f.lo;
  access = some (access_text a);
  enum = [];
}

abbrev pub field_spec : Field → FieldSpec
field_spec f = spec_with f f.access

-- The accessors of fields, of each sort and with their names: all can be read, and a field is set
-- or cleared as its access says.
unfoldable pub get_by : Field → Text × (ℕ → ℕ)
get_by f = (codes f.label, get f)

unfoldable pub set_by : Access → Field → List (Text × (ℕ → ℕ → ℕ))
set_by rw' f = (codes "set_" ++ codes f.label, set f) ∷ []
set_by ro f = []
set_by w1c f = []

unfoldable pub cleared_by : Access → Field → List (Text × (ℕ → ℕ))
cleared_by rw' f = []
cleared_by ro f = []
cleared_by w1c f = (codes "clear_" ++ codes f.label, clear f) ∷ []

unfoldable pub settable : List Field → List (Text × (ℕ → ℕ → ℕ))
unfolding set_by
settable [] = []
settable (f ∷ fs) = set_by f.access f ++ settable fs

unfoldable pub clearable : List Field → List (Text × (ℕ → ℕ))
unfolding cleared_by
clearable [] = []
clearable (f ∷ fs) = cleared_by f.access f ++ clearable fs

-- The accessors of each sort, with their names, in order.
pub record HasSurface (ms : List Member) (fs : List Field) : Type 0 where
  pub reads : getters ms ≡ map get_by fs
  pub sets : setters ms ≡ settable fs
  pub clears : clearers ms ≡ clearable fs

-- Every field is a range of the 32-bit word that is the right way round.
unfoldable pub AllRanges : List Field → Type 0
AllRanges [] = Unit
AllRanges (f ∷ fs) = (f.lo ≤ f.hi) × (f.hi < 32) × AllRanges fs

module _ (int_of : Text → Option ℤ)
    (reads : (n : ℕ) → n < 2 ^ 64 → int_of (dec n) ≡ some (pos n)) where
  abbrev struct_of : BlockSpec → RegisterSpec → List Member → Struct
  struct_of block reg ms = record {
    block = block.name;
    name = reg.name;
    address = block.base + reg.offset;
    reset = reg.reset;
    access = access_of reg.access;
    members = ms;
  }
