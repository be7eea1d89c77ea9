-- ===== src/Python/Session/Shape.antt =====
-- Which class each object has and what it points to: no method changes that.
use soc_validation_framework.Prelude.{
  ℕ, ◌≡◌, refl, sym, ◌∙◌, ap, Option, none, some, Bool, true, false, ◌||◌, ◌==◌, ==_iff, arith,
  Option-cases, inl, inr, Bool-cases,
}
use soc_validation_framework.Python.Session.{
  Object, device, transaction_log, logged_transport, Heap, set_object, update, is_transport, is_log,
  keeps,
}

pub data Kind : Type 0 where
  a_device a_log : Kind
  a_logged : (inner log : ℕ) → Kind

unfoldable pub kind : Object → Kind
kind (device d) = a_device
kind (transaction_log log) = a_log
kind (logged_transport inner log test) = a_logged inner log

unfoldable pub kind? : Option Object → Option Kind
unfolding kind
kind? none = none
kind? (some o) = some (kind o)

abbrev pub shape : Heap → ℕ → Option Kind
shape h i = kind? (h.object i)

unfoldable pub transports : Option Kind → Bool
transports none = false
transports (some a_device) = true
transports (some a_log) = false
transports (some (a_logged inner log)) = true

unfoldable pub logs : Option Kind → Bool
logs none = false
logs (some a_device) = false
logs (some a_log) = true
logs (some (a_logged inner log)) = false

unfoldable pub holds : Option Kind → ℕ → Bool
holds none i = false
holds (some a_device) i = false
holds (some a_log) i = false
holds (some (a_logged inner log)) i = inner == i || log == i

pub is_transport-kind? : (o : Option Object) → is_transport o ≡ transports (kind? o)
unfolding is_transport transports kind? kind
is_transport-kind? none = refl
is_transport-kind? (some (device d)) = refl
is_transport-kind? (some (transaction_log log)) = refl
is_transport-kind? (some (logged_transport inner log test)) = refl

pub is_log-kind? : (o : Option Object) → is_log o ≡ logs (kind? o)
unfolding is_log logs kind? kind
is_log-kind? none = refl
is_log-kind? (some (device d)) = refl
is_log-kind? (some (transaction_log log)) = refl
is_log-kind? (some (logged_transport inner log test)) = refl

pub keeps-kind? : (o : Option Object) (i : ℕ) → keeps o i ≡ holds (kind? o) i
unfolding keeps holds kind? kind
keeps-kind? none i = refl
keeps-kind? (some (device d)) i = refl
keeps-kind? (some (transaction_log log)) i = refl
keeps-kind? (some (logged_transport inner log test)) i = refl

-- The same objects, with the same references to them.
pub record IsAlike (h h' : Heap) : Type 0 where
  pub shapes : (i : ℕ) → shape h' i ≡ shape h i
  pub next : h'.next ≡ h.next
  pub references : (i : ℕ) → h'.references i ≡ h.references i

pub IsAlike-refl : (h : Heap) → IsAlike h h
IsAlike-refl h = record { shapes = λ i. refl; next = refl; references = λ i. refl }

pub IsAlike-trans : (h h' h'' : Heap) → IsAlike h h' → IsAlike h' h'' → IsAlike h h''
IsAlike-trans h h' h'' a b = record {
  shapes = λ i. b.shapes i ∙ a.shapes i;
  next = b.next ∙ a.next;
  references = λ i. b.references i ∙ a.references i;
}

-- Another state of an object of the same class, with the same pointers.
pub set_object-IsAlike :
    (i : ℕ) (o : Object) (h : Heap) → some (kind o) ≡ shape h i → IsAlike h (set_object i o h)
unfolding kind?
set_object-IsAlike i o h same = record {
  shapes = λ j. elim (Bool-cases (j == i)) [
    | inl e ↦ let here : j ≡ i = (==_iff j i).0 e in ground (arith, same, ap (shape h) here)
    | inr e ↦ ground arith
  ];
  next = refl;
  references = λ j. refl;
}

pub update-IsAlike :
    (f : Object → Object)
    → ((o : Object) → kind (f o) ≡ kind o)
    → (i : ℕ) (h : Heap) → IsAlike h (update f i h)
unfolding update kind?
update-IsAlike f keeps_kind i h = elim (Option-cases (h.object i)) [
  | inl e ↦ rw (e, update) (IsAlike-refl h)
  | inr (o, e) ↦
      rw (e, update) (set_object-IsAlike i (f o) h (ap some (keeps_kind o) ∙ sym (ap kind? e)))
]
