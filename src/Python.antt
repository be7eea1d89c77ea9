-- ===== src/Python.antt =====
-- python/bindings.cpp: the register wrappers, what `repr` prints of a result, and `add` of the
-- sequencer. A binding names the accessors that tools/generate_registers.py emits; one that names
-- an accessor that is not emitted does not compile, which is `none` here.
pub mod Attributes
pub mod Session
pub mod Bringup
pub mod Tests
use Prim.Native.String.{String, ◌++◌ as str_append}
use text.Mathlib.Text.{◌==◌ as str_eq}
use soc_validation_framework.Prelude.{ℕ, List, [], ◌∷◌, Option, none, some, if◌then◌else◌}
use soc_validation_framework.Bus.{Result}
use soc_validation_framework.Registers.{Field, Register, rw', ro, w1c, get, set}
use soc_validation_framework.Registers.Map.{dma_ctrl, dma_status}
use soc_validation_framework.Sequencer
use soc_validation_framework.Sequencer.{TestCase}
use soc_validation_framework.Sequencer.RunOne.{Action, Callbacks, TestResult, to_string}

unfoldable pub find_field : String → List Field → Option Field
find_field label [] = none
find_field label (f ∷ fs) = if str_eq f.label label then some f else find_field label fs

-- The getter that is emitted for every field, and the setter, only for one that can be written.
unfoldable pub emitted_getter : Register → String → Option (ℕ → ℕ)
emitted_getter reg label = elim (find_field label reg.fields) [
  | none ↦ none
  | some f ↦ some (get f)
]

unfoldable pub setter_of : Field → Option (ℕ → ℕ → ℕ)
setter_of f = elim f.access [ rw' ↦ some (set f) | ro ↦ none | w1c ↦ none ]

unfoldable pub emitted_setter : Register → String → Option (ℕ → ℕ → ℕ)
unfolding setter_of
emitted_setter reg label = elim (find_field label reg.fields) [ none ↦ none | some f ↦ setter_of f ]

-- An attribute of a wrapper: what reading it gives for the word, and the word after an assignment,
-- if it can be assigned.
pub record Attribute : Type 0 where
  pub name : String
  pub load : ℕ → ℕ
  pub put : Option (ℕ → ℕ → ℕ)

-- `def_property` with the emitted getter and setter.
unfoldable pub def_property : String → Register → String → Option Attribute
unfolding emitted_getter emitted_setter
def_property name reg label = elim (emitted_getter reg label) [
  | none ↦ none
  | some load ↦ elim (emitted_setter reg label) [
    | none ↦ none
    | some put ↦ some (record { name = name; load = load; put = some put })
  ]
]

-- `def_property_readonly` with the emitted getter.
unfoldable pub def_property_readonly : String → Register → String → Option Attribute
unfolding emitted_getter
def_property_readonly name reg label = elim (emitted_getter reg label) [
  | none ↦ none
  | some load ↦ some (record { name = name; load = load; put = none })
]

-- A wrapper: its initial word, its address, and the attributes besides `raw` and `address`.
pub record RegisterClass : Type 0 where
  pub raw : ℕ
  pub address : ℕ
  pub attributes : List Attribute

unfoldable pub all_some : List (Option Attribute) → Option (List Attribute)
all_some [] = some []
all_some (none ∷ rest) = none
all_some (some a ∷ rest) = elim (all_some rest) [ none ↦ none | some more ↦ some (a ∷ more) ]

unfoldable pub class_of : Register → List (Option Attribute) → Option RegisterClass
unfolding all_some
class_of reg bound = elim (all_some bound) [
  | none ↦ none
  | some all ↦ some (record { raw = reg.reset; address = reg.address; attributes = all })
]

unfoldable pub dma_ctrl_class : Option RegisterClass
unfolding class_of def_property
dma_ctrl_class = class_of dma_ctrl (
    def_property "go" dma_ctrl "GO"
    ∷ def_property "burst_len" dma_ctrl "BURST_LEN"
    ∷ def_property "channel" dma_ctrl "CHANNEL"
    ∷ [])

unfoldable pub dma_status_class : Option RegisterClass
unfolding class_of def_property_readonly
dma_status_class = class_of dma_status (
    def_property_readonly "idle" dma_status "IDLE"
    ∷ def_property_readonly "busy" dma_status "BUSY"
    ∷ def_property_readonly "done" dma_status "DONE"
    ∷ def_property_readonly "beats" dma_status "BEATS"
    ∷ [])

-- `__repr__` of a result.
unfoldable pub repr : {Time : Type 0} → TestResult Time → String
unfolding to_string
repr r =
    str_append "<TestResult "
      (str_append r.name (str_append " " (str_append (to_string r.status) ">")))

-- `add`: a test with neither setup nor teardown, and a timeout that is not negative.
unfoldable pub py_add :
    {W : Type 0}
    → String
    → List String
    → Action W
    → ℕ
    → List (TestCase (Callbacks W))
    → Result (List (TestCase (Callbacks W)))
py_add name depends_on body timeout_ms tests =
    Sequencer.add
      (record {
        name = name;
        depends_on = depends_on;
        body = record { setup = none; run = body; teardown = none; timeout = timeout_ms };
      })
      tests
