-- ===== src/Registers/Generator/Tests.antt =====
-- DMA.IRQ_STATUS and its neighbours through the generator, and ranges it refuses.
use soc_validation_framework.Prelude.{
  ℕ, ◌^◌, ◌<◌, ◌≡◌, refl, ap, [], Option, none, some, map, arith,
}
use soc_validation_framework.Registers.{Field, rw', mask, set}
use soc_validation_framework.Registers.Map
use soc_validation_framework.TxnLog.Csv.{Text, codes, dec}
use soc_validation_framework.TxnLog.Csv.Digits.{read_number, read_number-dec}
use soc_validation_framework.TxnLog.Csv.Split.{split, lacks}
use soc_validation_framework.Registers.Generator.{
  ℤ, pos, two_ends, checked, parse_bits, RegisterSpec, BlockSpec,
}
use soc_validation_framework.Registers.Generator.Bits.{bits_text, parse_bits-bits_text}
use soc_validation_framework.Registers.Generator.Surface.{field_spec}

-- The texts of decimal digits.
abbrev some_pos : Option ℕ → Option ℤ
some_pos o = elim o [ none ↦ none | some n ↦ some (pos n) ]

abbrev int_of : Text → Option ℤ
int_of text = some_pos (read_number 10 text 0)

int_of-dec : (n : ℕ) → n < 2 ^ 64 → int_of (dec n) ≡ some (pos n)
int_of-dec n h = ap some_pos (read_number-dec n h)

-- "3:1:0" has three parts.
three_parts : parse_bits int_of (codes "3:1:0") ≡ none
unfolding parse_bits lacks split two_ends checked
three_parts = refl

parse_bits-bits_text_example : parse_bits int_of (bits_text 4 11) ≡ none
parse_bits-bits_text_example =
    parse_bits-bits_text int_of int_of-dec 4 11 (omega arith) (omega arith)

abbrev dma : BlockSpec
dma = record { name = codes "DMA"; base = 0x40000000; registers = [] }

abbrev irq_status : RegisterSpec
irq_status = record {
  name = codes "IRQ_STATUS";
  offset = 8;
  reset = 0;
  access = none;
  fields = map field_spec Map.dma_irq_status.fields;
}

-- A field at 35:28, which the generator accepts: the mask's low 32 bits are those that are cleared.
abbrev beyond : Field
beyond = record { label = "BEYOND"; hi = 35; lo = 28; access = rw' }

set_beyond : set beyond 5 0x00ABCDEF ≡ 0x50ABCDEF
unfolding set mask
set_beyond = refl
