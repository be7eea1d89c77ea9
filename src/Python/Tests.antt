-- ===== src/Python/Tests.antt =====
-- The wrappers at concrete words.
use mathlib.Core.Option
use soc_validation_framework.Prelude.{ℕ, ◌≡◌, refl, [], ◌∷◌, map, none, some}
use soc_validation_framework.Registers.Map.{dma_status}
use soc_validation_framework.Sequencer.RunOne.{timed_out, to_string}
use soc_validation_framework.Python.{
  find_field, emitted_getter, setter_of, emitted_setter, Attribute, def_property,
  def_property_readonly, RegisterClass, all_some, class_of, dma_status_class, repr,
}

-- What C++ withholds cannot be bound: the wrapper of a read-only field has no setter to name.
status_withheld : def_property "done" dma_status "DONE" ≡ none
unfolding def_property emitted_getter emitted_setter setter_of find_field
status_withheld = refl

status_class :
    Option.map (λ (c : RegisterClass). map (λ (a : Attribute). a.put) c.attributes) dma_status_class
    ≡ some (none ∷ none ∷ none ∷ none ∷ [])
unfolding dma_status_class class_of all_some def_property_readonly emitted_getter find_field
status_class = refl

repr_of_late :
    repr {Time = ℕ} (record {
      name = "dma";
      status = timed_out;
      duration_ms = 12;
      message = "";
      register_accesses = 0;
      level = 1;
    })
    ≡ "<TestResult dma TIMEOUT>"
unfolding repr to_string
repr_of_late = refl
