-- ===== src/Python/Session/Steps.antt =====
-- Whatever a Python program does, its objects stay sound.
use Prim.Native.String.{String}
use soc_validation_framework.Prelude.{
  ℕ, suc, ◌<◌, ◌≡◌, ◌≢◌, refl, sym, ◌∙◌, ap, Option, none, some, true, false, ◌==◌, ==_iff, leb,
  if◌then◌else◌, arith, inl, inr, Bool-cases,
}
use soc_validation_framework.Region.{put}
use soc_validation_framework.Device.{EmulatedDevice}
use soc_validation_framework.Python.Session.{
  Object, device, transaction_log, logged_transport, Heap, set_references, made, Call, call_at,
  update, is_transport, keeps, Step, Reachable, py_reset, py_set_transfer_latency, py_clear,
  py_set_test, makes_device, makes_log, makes_logged, shares, drops, destroys, calls, resets,
  sets_latency, clears, sets_test, begin, go_on,
}
use soc_validation_framework.Python.Session.Shape.{
  Kind, a_logged, kind, kind?, shape, transports, logs, holds, is_transport-kind?, is_log-kind?,
  keeps-kind?, update-IsAlike,
}
use soc_validation_framework.Python.Session.Alive.{
  IsSound, empty-IsSound, IsAlike-IsSound, IsAnswered, call_at-IsAnswered,
}

shape-made :
    (o : Object) (h : Heap) (i : ℕ)
    → shape (made o h) i ≡ (if i == h.next then some (kind o) else shape h i)
unfolding made kind?
shape-made o h i = ground arith

transports_some : (k : Option Kind) → transports k ≡ true → k ≢ none
unfolding transports
transports_some k t e = ground (arith, ap transports e)

logs_some : (k : Option Kind) → logs k ≡ true → k ≢ none
unfolding logs
logs_some k l e = ground (arith, ap logs e)

-- An object that is there has an older number, and stays as it is.
older_kept :
    (o : Object) (h : Heap) (i : ℕ)
    → IsSound h
    → shape h i ≢ none
    → (i < h.next) × (shape (made o h) i ≡ shape h i)
older_kept o h i s there = elim (Bool-cases (leb h.next i)) [
  | inl e ↦ absurd (there (s.fresh i (ground arith)))
  | inr e ↦ (ground arith, ground (arith, shape-made o h i))
]

-- A new object whose pointers, if it has some, lead to a transport and a log.
made-IsSound :
    (o : Object) (h : Heap)
    → ((inner log : ℕ)
        → kind o ≡ a_logged inner log
        → (transports (shape h inner) ≡ true) × (logs (shape h log) ≡ true))
    → IsSound h
    → IsSound (made o h)
unfolding made
made-IsSound o h points s = record {
  fresh = λ i le. ground (arith, shape-made o h i, s.fresh i);
  alive = λ i held. ground (arith, shape-made o h i, s.alive i);
  kept = λ i inner log e. elim (Bool-cases (i == h.next)) [
    | inl new ↦
        let same : kind o ≡ a_logged inner log = ground (arith, shape-made o h i) in
        let (t, l) = points inner log same in
        let (below, still) = older_kept o h inner s (transports_some (shape h inner) t) in
        let (_, still') = older_kept o h log s (logs_some (shape h log) l) in
        (omega (arith, (==_iff i h.next).0 new), ap transports still ∙ t, ap logs still' ∙ l)
    | inr old ↦
        let (less, t, l) = s.kept i inner log (ground (arith, shape-made o h i)) in
        let (below, still) = older_kept o h inner s (transports_some (shape h inner) t) in
        let (_, still') = older_kept o h log s (logs_some (shape h log) l) in
        (less, ap transports still ∙ t, ap logs still' ∙ l)
  ];
}

-- References come and go; an object that gets one has one already.
set_references-IsSound :
    (i n : ℕ) (h : Heap) → (n ≢ 0 → h.references i ≢ 0) → IsSound h → IsSound (set_references i n h)
set_references-IsSound i n h had s = record {
  fresh = s.fresh;
  alive = λ j held. elim (Bool-cases (j == i)) [
    | inl e ↦
        let here : j ≡ i = (==_iff j i).0 e in
        s.alive j (λ z. had (ground arith) (ap h.references (sym here) ∙ z))
    | inr e ↦ s.alive j (ground arith)
  ];
  kept = s.kept;
}

-- An object that nothing refers to and nothing keeps can be destroyed.
destroys-IsSound :
    (h : Heap) (i : ℕ)
    → h.references i ≡ 0
    → ((j : ℕ) → keeps (h.object j) i ≡ false)
    → IsSound h
    → IsSound (record h { object = put h.object i none })
unfolding kind? holds
destroys-IsSound h i free unkept s = record {
  fresh = λ j le. ground (arith, s.fresh j);
  alive = λ j held gone. elim (Bool-cases (j == i)) [
    | inl e ↦ held (ap h.references ((==_iff j i).0 e) ∙ free)
    | inr e ↦ s.alive j held (ground arith)
  ];
  kept = λ j inner log e.
      let there : shape h j ≡ some (a_logged inner log) = still_there j inner log e in
      let (less, t, l) = s.kept j inner log there in
      let unheld = sym (ap (λ k. holds k i) there) ∙ sym (keeps-kind? (h.object j) i) ∙ unkept j in
      let (apart, apart') = not_held inner log unheld in
      (less, ap transports (elsewhere inner apart) ∙ t, ap logs (elsewhere log apart') ∙ l);
}
  where
    after : Heap
    after = record h { object = put h.object i none }

    elsewhere : (j : ℕ) → (j == i) ≡ false → shape after j ≡ shape h j
    elsewhere j apart = ground arith

    still_there :
        (j inner log : ℕ)
        → shape after j ≡ some (a_logged inner log)
        → shape h j ≡ some (a_logged inner log)
    still_there j inner log e = ground arith

    not_held :
        (inner log : ℕ)
        → holds (some (a_logged inner log)) i ≡ false
        → ((inner == i) ≡ false) × ((log == i) ≡ false)
    not_held inner log e = ground arith

update-IsSound :
    (f : Object → Object)
    → ((o : Object) → kind (f o) ≡ kind o)
    → (i : ℕ) (h : Heap) → IsSound h
    → IsSound (update f i h)
update-IsSound f same i h s = IsAlike-IsSound h (update f i h) (update-IsAlike f same i h) s

py_reset-kind : (o : Object) → kind (py_reset o) ≡ kind o
unfolding py_reset kind
py_reset-kind (device d) = refl
py_reset-kind (transaction_log log) = refl
py_reset-kind (logged_transport inner log test) = refl

py_set_transfer_latency-kind : (n : ℕ) (o : Object) → kind (py_set_transfer_latency n o) ≡ kind o
unfolding py_set_transfer_latency kind
py_set_transfer_latency-kind n (device d) = refl
py_set_transfer_latency-kind n (transaction_log log) = refl
py_set_transfer_latency-kind n (logged_transport inner log test) = refl

py_clear-kind : (o : Object) → kind (py_clear o) ≡ kind o
unfolding py_clear kind
py_clear-kind (device d) = refl
py_clear-kind (transaction_log log) = refl
py_clear-kind (logged_transport inner log test) = refl

py_set_test-kind : (t : String) (o : Object) → kind (py_set_test t o) ≡ kind o
unfolding py_set_test kind
py_set_test-kind t (device d) = refl
py_set_test-kind t (transaction_log log) = refl
py_set_test-kind t (logged_transport inner log test) = refl

module _ (now_ns : ℕ → ℕ) where
  call_at-IsSound :
      {A : Type 0} (c : Call A) (i : ℕ) (h : Heap)
      → is_transport (h.object i) ≡ true
      → IsSound h
      → IsSound (call_at now_ns c (suc i) i h).1
  unfolding IsAnswered
  call_at-IsSound c i h t s =
      let (k, d, at_k, same, alike) =
        call_at-IsAnswered now_ns c (suc i) i h (omega arith) s
          (sym (is_transport-kind? (h.object i)) ∙ t) in
      IsAlike-IsSound h _ alike s

  step-IsSound : (h h' : Heap) → Step now_ns h h' → IsSound h → IsSound h'
  unfolding kind
  step-IsSound _ _ (makes_device h) s = made-IsSound _ h (λ inner log e. absurd (ground arith)) s
  step-IsSound _ _ (makes_log h) s = made-IsSound _ h (λ inner log e. absurd (ground arith)) s
  step-IsSound _ _ (makes_logged h inner log held held' t l) s =
      made-IsSound _ h
        (λ a b e. (
          ground (arith, is_transport-kind? (h.object inner)),
          ground (arith, is_log-kind? (h.object log)),
        ))
        s
  step-IsSound _ _ (shares h i held) s = set_references-IsSound i _ h (λ _. held) s
  step-IsSound _ _ (drops h i) s =
      set_references-IsSound i _ h (λ more none_left. more (omega arith)) s
  step-IsSound _ _ (destroys h i free unkept) s = destroys-IsSound h i free unkept s
  step-IsSound _ _ (calls h i c held t) s = call_at-IsSound c i h t s
  step-IsSound _ _ (resets h i held) s = update-IsSound py_reset py_reset-kind i h s
  step-IsSound _ _ (sets_latency h i n held) s =
      update-IsSound (py_set_transfer_latency n) (py_set_transfer_latency-kind n) i h s
  step-IsSound _ _ (clears h i held) s = update-IsSound py_clear py_clear-kind i h s
  step-IsSound _ _ (sets_test h i test held) s =
      update-IsSound (py_set_test test) (py_set_test-kind test) i h s

  pub Reachable-IsSound : (h : Heap) → Reachable now_ns h → IsSound h
  Reachable-IsSound _ begin = empty-IsSound
  Reachable-IsSound _ (go_on h h' before step) = step-IsSound h h' step (Reachable-IsSound h before)

  -- In whatever order a Python program makes, wraps, shares, drops and uses its objects (devices,
  -- logs and decorators; the transports that `make_transport` builds are not among them), and whenever
  -- those are destroyed that nothing refers to or keeps: a read or write through a transport
  -- that is alive, however often wrapped, never meets an object that is gone. It gets the reply of
  -- an emulated device that is alive.
  pub session_call :
      {A : Type 0} (h : Heap) (i : ℕ) (c : Call A)
      → Reachable now_ns h
      → is_transport (h.object i) ≡ true
      → (k : ℕ) × (d : EmulatedDevice) × (h.object k ≡ some (device d))
        × ((call_at now_ns c (suc i) i h).0 ≡ (c.run d).0)
  unfolding IsAnswered
  session_call h i c reach t =
      let (k, d, at_k, same, alike) =
        call_at-IsAnswered now_ns c (suc i) i h (omega arith) (Reachable-IsSound h reach)
          (sym (is_transport-kind? (h.object i)) ∙ t) in
      (k, d, at_k, same)
