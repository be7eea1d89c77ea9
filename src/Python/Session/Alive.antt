-- ===== src/Python/Session/Alive.antt =====
-- No object of a Python program points to one that is gone, and calls reach a device.
use Prim.Native.String.{String}
use soc_validation_framework.Prelude.{
  ℕ, zero, suc, ◌<◌, ◌≤◌, ◌≡◌, ◌≢◌, refl, sym, ◌∙◌, ap, subst, none, some, true, arith,
  Option-cases, inl, inr,
}
use soc_validation_framework.Bus.{Result, ok, err}
use soc_validation_framework.Device.{EmulatedDevice}
use soc_validation_framework.TxnLog.{TransactionLog, append}
use soc_validation_framework.Python.Session.{
  device, transaction_log, logged_transport, Heap, set_object, Call, record_at, then_record,
  call_at, empty_heap,
}
use soc_validation_framework.Python.Session.Shape.{
  a_logged, kind, kind?, shape, transports, logs, IsAlike, IsAlike-trans, set_object-IsAlike,
}

-- Numbers from `next` on are unused; what Python refers to is alive; and so are, with their
-- classes, the transport and the log of each decorator, which wraps an older object.
pub record IsSound (h : Heap) : Type 0 where
  pub fresh : (i : ℕ) → h.next ≤ i → shape h i ≡ none
  pub alive : (i : ℕ) → h.references i ≢ 0 → shape h i ≢ none
  pub kept :
      (i inner log : ℕ)
      → shape h i ≡ some (a_logged inner log)
      → (inner < i) × (transports (shape h inner) ≡ true) × (logs (shape h log) ≡ true)

pub empty-IsSound : IsSound empty_heap
unfolding kind?
empty-IsSound = record {
  fresh = λ i le. refl;
  alive = λ i held. absurd (held refl);
  kept = λ i inner log e. absurd (ground arith);
}

-- Soundness is a matter of the classes and the references alone.
pub IsAlike-IsSound : (h h' : Heap) → IsAlike h h' → IsSound h → IsSound h'
IsAlike-IsSound h h' a s = record {
  fresh = λ i le. a.shapes i ∙ s.fresh i (omega (arith, a.next));
  alive = λ i held gone. s.alive i (λ e. held (a.references i ∙ e)) (sym (a.shapes i) ∙ gone);
  kept = λ i inner log e.
      let (older, t, l) = s.kept i inner log (sym (a.shapes i) ∙ e) in
      (older, ap transports (a.shapes inner) ∙ t, ap logs (a.shapes log) ∙ l);
}

module _ (now_ns : ℕ → ℕ) {A : Type 0} (c : Call A) where
  -- What a call through a transport comes to: the reply of some device that is alive.
  unfoldable pub IsAnswered : Heap → Result A × Heap → Type 0
  IsAnswered h (r, h') =
      (k : ℕ) × (d : EmulatedDevice) × (h.object k ≡ some (device d))
      × (r ≡ (c.run d).0)
      × IsAlike h h'

  record_at-log :
      (i value : ℕ) (test : String) (log : TransactionLog) (h : Heap)
      → h.object i ≡ some (transaction_log log)
      → record_at now_ns i c.op c.address value test h
        ≡ (ok tt, set_object i (transaction_log (append now_ns c.op c.address value test log)) h)
  unfolding record_at
  record_at-log i value test log h e = rw (e, record_at) refl

  record_at-ok :
      (i : ℕ) (v : A) (test : String) (h : Heap)
      → logs (shape h i) ≡ true
      → (h' : Heap) × (then_record now_ns c i test (ok v, h) ≡ (ok v, h')) × IsAlike h h'
  unfolding then_record logs kind? kind
  record_at-ok i v test h l =
      let finish : Result (Unit {0}) × Heap → Result A × Heap =
        λ x. elim x.0 [ err e ↦ (err e, x.1) | ok _ ↦ (ok v, x.1) ] in
      elim (Option-cases (h.object i)) [
        | inl e ↦ absurd (ground (arith, ap (λ o. logs (kind? o)) e))
        | inr (device d, e) ↦ absurd (ground (arith, ap (λ o. logs (kind? o)) e))
        | inr (logged_transport inner log t, e) ↦
            absurd (ground (arith, ap (λ o. logs (kind? o)) e))
        | inr (transaction_log log, e) ↦ (
          set_object i (transaction_log (append now_ns c.op c.address (c.logged_value v) test log))
              h,
          ap finish (record_at-log i (c.logged_value v) test log h e),
          set_object-IsAlike i _ h (sym (ap kind? e)),
        )
      ]

  -- A decorator answers what the transport inside it answers.
  then_record-IsAnswered :
      (log : ℕ) (test : String) (h : Heap) (r : Result A × Heap)
      → logs (shape h log) ≡ true
      → IsAnswered h r
      → IsAnswered h (then_record now_ns c log test r)
  unfolding IsAnswered then_record
  then_record-IsAnswered log test h (err e, h') l (k, d, at_k, same, a) = (k, d, at_k, same, a)
  then_record-IsAnswered log test h (ok v, h') l (k, d, at_k, same, a) =
      let (h'', e, b) = record_at-ok log v test h' (ap logs (a.shapes log) ∙ l) in
      subst (IsAnswered h) (sym e) (k, d, at_k, same, IsAlike-trans h h' h'' a b)

  pub call_at-IsAnswered :
      (fuel i : ℕ) (h : Heap)
      → i < fuel
      → IsSound h
      → transports (shape h i) ≡ true
      → IsAnswered h (call_at now_ns c fuel i h)
  unfolding call_at IsAnswered kind? kind transports
  call_at-IsAnswered zero i h below s t = absurd (omega arith)
  call_at-IsAnswered (suc fuel) i h below s t = elim (Option-cases (h.object i)) [
    | inl e ↦ absurd (ground (arith, ap (λ o. transports (kind? o)) e))
    | inr (transaction_log log, e) ↦ absurd (ground (arith, ap (λ o. transports (kind? o)) e))
    | inr (device d, e) ↦
        rw (e, call_at)
          (i, d, e, refl, set_object-IsAlike i (device (c.run d).1) h (sym (ap kind? e)))
    | inr (logged_transport inner log test, e) ↦
        let (older, inside, l) = s.kept i inner log (ap kind? e) in
        rw (e, call_at)
          (then_record-IsAnswered log test h (call_at now_ns c fuel inner h) l
            (call_at-IsAnswered fuel inner h (omega arith) s inside))
  ]
