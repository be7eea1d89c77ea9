-- ===== src/TxnLog/Shared/Turns.antt =====
-- What a log that decorators share holds of each test.
use Prim.Native.String.{String}
use text.Mathlib.Text.{◌==◌ as str_eq}
use text.Mathlib.TextEquality.{eq_iff}
use mathlib.Core.List.{append-nil, append_assoc}
use soc_validation_framework.Prelude.{
  ℕ, zero, suc, ◌≡◌, ◌⊎◌, inl, inr, refl, sym, ◌∙◌, ap, ap₂, subst, List, [], ◌∷◌, ◌++◌, map, false,
  Bool-cases, if◌then◌else◌, arith,
}
use soc_validation_framework.Bus.{ok, err, Transport}
use soc_validation_framework.Bus.Program.{
  Command, read_word, write_word, read_words, write_words, Reply, word, unit, block, Program,
  return, call, exec,
}
use soc_validation_framework.TxnLog.{TransactionLog, LoggedTransport, logged}
use soc_validation_framework.TxnLog.Trace.{Event, event, events, exec-Logs, trace}
use soc_validation_framework.TxnLog.Shared.{
  Caller, turn, turn_at, turns, mine, share, due, names, IsNew, AllDistinct,
}

mine-append : (t : String) (xs ys : List Event) → mine t (xs ++ ys) ≡ mine t xs ++ mine t ys
unfolding mine
mine-append t [] ys = refl
mine-append t (x ∷ xs) ys = ground (arith, mine-append t xs ys)

-- A call adds one event of its own test, or none.
events_cases :
    (u : String) (c : Command) (r : Reply)
    → (events u c r ≡ []) ⊎ ((e : Event) × (events u c r ≡ e ∷ []) × (e.test ≡ u))
unfolding events
events_cases u (read_word address) (word (ok v)) = inr (_, refl, refl)
events_cases u (read_word address) (word (err e)) = inl refl
events_cases u (read_word address) (unit (ok v)) = inl refl
events_cases u (read_word address) (unit (err e)) = inl refl
events_cases u (read_word address) (block (ok v) b) = inl refl
events_cases u (read_word address) (block (err e) b) = inl refl
events_cases u (write_word address value) (word (ok v)) = inl refl
events_cases u (write_word address value) (word (err e)) = inl refl
events_cases u (write_word address value) (unit (ok v)) = inr (_, refl, refl)
events_cases u (write_word address value) (unit (err e)) = inl refl
events_cases u (write_word address value) (block (ok v) b) = inl refl
events_cases u (write_word address value) (block (err e) b) = inl refl
events_cases u (read_words address out count) (word (ok v)) = inl refl
events_cases u (read_words address out count) (word (err e)) = inl refl
events_cases u (read_words address out count) (unit (ok v)) = inl refl
events_cases u (read_words address out count) (unit (err e)) = inl refl
events_cases u (read_words address out count) (block (ok v) b) = inr (_, refl, refl)
events_cases u (read_words address out count) (block (err e) b) = inl refl
events_cases u (write_words address words count) (word (ok v)) = inl refl
events_cases u (write_words address words count) (word (err e)) = inl refl
events_cases u (write_words address words count) (unit (ok v)) = inr (_, refl, refl)
events_cases u (write_words address words count) (unit (err e)) = inl refl
events_cases u (write_words address words count) (block (ok v) b) = inl refl
events_cases u (write_words address words count) (block (err e) b) = inl refl

mine-events :
    (t u : String) (c : Command) (r : Reply)
    → mine t (events u c r) ≡ (if str_eq u t then events u c r else [])
unfolding mine
mine-events t u c r = elim (events_cases u c r) [
  | inl e ↦ ap (mine t) e ∙ ground (arith, e)
  | inr (x, e, same) ↦ ap (mine t) e ∙ ground (arith, e, ap (λ n. str_eq n t) same)
]

module _ {S : Type 0} (now_ns : ℕ → ℕ) (bus : Transport S) (t : String) where
  abbrev held : TransactionLog → List Event
  held log = mine t (map event log.records)

  call_entries :
      (test : String) (c : Command) (k : Reply → Program (Unit {0})) (inner : S)
      (old new : List Event)
      → new ≡ old ++ events test c (exec bus c inner).0
      → mine t new ++ share bus t test (k (exec bus c inner).0) (exec bus c inner).1
        ≡ mine t old ++ share bus t test (call c k) inner
  unfolding share trace
  call_entries test c k inner old new entries =
      let r = (exec bus c inner).0 in
      let logged_now : mine t new ≡ mine t old ++ (if str_eq test t then events test c r else []) =
        ap (mine t) entries
        ∙ mine-append t old (events test c r)
        ∙ ap (λ es. mine t old ++ es) (mine-events t test c r) in
      elim (Bool-cases (str_eq test t)) [
        | inl e ↦ ground (
          arith,
          logged_now,
          append_assoc (mine t old) (events test c r) (trace bus test (k r) (exec bus c inner).1),
        )
        | inr e ↦ ground (arith, logged_now, append-nil (mine t old))
      ]

  turn_lem :
      (inner : S) (test : String) (rest : Program (Unit {0})) (log : TransactionLog)
      → let (l, log') = turn now_ns bus (record { inner = inner; test = test; rest = rest }) log in
        (held log' ++ share bus t l.test l.rest l.inner ≡ held log ++ share bus t test rest inner)
        × (l.test ≡ test)
  unfolding turn
  turn_lem inner test (return a) log = (refl, refl)
  turn_lem inner test (call c k) log =
      let before : LoggedTransport S = record { inner = inner; log = log; test = test } in
      let g = exec-Logs now_ns before bus c in
      let out = exec (logged now_ns bus) c before in
      let moved : share bus t out.1.test (k out.0) out.1.inner
          ≡ share bus t test (k (exec bus c inner).0) (exec bus c inner).1 =
        ap (λ u. share bus t u (k out.0) out.1.inner) g.test
        ∙ ap (λ r. share bus t test (k r) out.1.inner) g.reply
        ∙ ap (share bus t test (k (exec bus c inner).0)) g.inside in
      (
        ap (λ es. held out.1.log ++ es) moved
            ∙ call_entries test c k inner (map event log.records) (map event out.1.log.records)
                g.entries,
        g.test,
      )

  -- Turns keep the names.
  turn_at-names :
      (i : ℕ) (ls : List (Caller S)) (log : TransactionLog)
      → names (turn_at now_ns bus i ls log).0 ≡ names ls
  unfolding turn_at names
  turn_at-names i [] log = refl
  turn_at-names zero (l ∷ ls) log = ap (λ n. n ∷ names ls) (turn_lem l.inner l.test l.rest log).1
  turn_at-names (suc i) (l ∷ ls) log = ap (λ ns. l.test ∷ ns) (turn_at-names i ls log)

  due-new : (ls : List (Caller S)) → IsNew t (names ls) → due bus t ls ≡ []
  unfolding due share names IsNew
  due-new [] h = refl
  due-new (l ∷ ls) (ne, h) = ground (arith, due-new ls h, eq_iff l.test t)

  share_other :
      (test : String) (rest : Program (Unit {0})) (inner : S)
      → str_eq test t ≡ false
      → share bus t test rest inner ≡ []
  unfolding share
  share_other test rest inner e = rw e

  turn_at-due :
      (i : ℕ) (ls : List (Caller S)) (log : TransactionLog)
      → AllDistinct (names ls)
      → let (ls', log') = turn_at now_ns bus i ls log in
        held log' ++ due bus t ls' ≡ held log ++ due bus t ls
  unfolding turn_at due AllDistinct names
  turn_at-due i [] log h = refl
  turn_at-due zero (l ∷ ls) log h =
      let (l', log') = turn now_ns bus l log in
      let later = due bus t ls in
      sym (append_assoc (held log') (share bus t l'.test l'.rest l'.inner) later)
      ∙ ap (λ es. es ++ later) (turn_lem l.inner l.test l.rest log).0
      ∙ append_assoc (held log) (share bus t l.test l.rest l.inner) later
  turn_at-due (suc i) (l ∷ ls) log (new, h) =
      let (ls', log') = turn_at now_ns bus i ls log in
      let rest = turn_at-due i ls log h in
      elim (Bool-cases (str_eq l.test t)) [
        | inl e ↦
            let fresh : IsNew t (names ls) =
              subst (λ n. IsNew n (names ls)) ((eq_iff l.test t).0 e) new in
            let none_due = due-new ls fresh in
            let none_due' = due-new ls' (subst (IsNew t) (sym (turn_at-names i ls log)) fresh) in
            let kept : held log' ≡ held log =
              sym (append-nil (held log'))
              ∙ ap (λ d. held log' ++ d) (sym none_due')
              ∙ rest
              ∙ ap (λ d. held log ++ d) none_due
              ∙ append-nil (held log) in
            ap₂ (λ a d. a ++ (share bus t l.test l.rest l.inner ++ d)) kept
              (none_due' ∙ sym none_due)
        | inr e ↦
            let nothing = share_other l.test l.rest l.inner e in
            ap (λ x. held log' ++ (x ++ due bus t ls')) nothing
            ∙ rest
            ∙ sym (ap (λ x. held log ++ (x ++ due bus t ls)) nothing)
      ]

  -- However the calls of several decorators on one log take turns, as long as their test names
  -- differ: what the log holds of a test, with what its caller has still to log, is what the log
  -- held of it at first, with all that the caller's program logs on its own transport alone.
  pub turns-due :
      (order : List ℕ) (ls : List (Caller S)) (log : TransactionLog)
      → AllDistinct (names ls)
      → let (ls', log') = turns now_ns bus order ls log in
        mine t (map event log'.records) ++ due bus t ls'
        ≡ mine t (map event log.records) ++ due bus t ls
  unfolding turns
  turns-due [] ls log h = refl
  turns-due (i ∷ order) ls log h =
      let (ls', log') = turn_at now_ns bus i ls log in
      turns-due order ls' log' (subst AllDistinct (sym (turn_at-names i ls log)) h)
      ∙ turn_at-due i ls log h
