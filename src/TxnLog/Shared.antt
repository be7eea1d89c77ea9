-- ===== src/TxnLog/Shared.antt =====
-- Several `LoggedTransport`s on one log, as tests that run together have them: each has its own
-- transport and test name, and they take turns, one call at a time.
pub mod Turns
pub mod Tests
use Prim.Native.String.{String}
use text.Mathlib.Text.{◌==◌ as str_eq}
use soc_validation_framework.Prelude.{ℕ, zero, suc, ◌≢◌, List, [], ◌∷◌, ◌++◌, if◌then◌else◌}
use soc_validation_framework.Bus.{Transport}
use soc_validation_framework.Bus.Program.{Program, return, call, exec}
use soc_validation_framework.TxnLog.{TransactionLog, logged}
use soc_validation_framework.TxnLog.Trace.{Event, trace}

-- A decorator without its log, and what its caller has still to do.
pub record Caller (S : Type 0) : Type 0 where
  pub inner : S
  pub test : String
  pub rest : Program (Unit {0})

module _ {S : Type 0} (now_ns : ℕ → ℕ) (bus : Transport S) where
  -- The next call of a caller.
  unfoldable pub turn : Caller S → TransactionLog → Caller S × TransactionLog
  turn l log = elim l.rest [
    | return _ ↦ (l, log)
    | call c k ↦
        let (r, l') =
          exec (logged now_ns bus) c (record { inner = l.inner; log = log; test = l.test }) in
        (record { inner = l'.inner; test = l'.test; rest = k r }, l'.log)
  ]

  unfoldable pub turn_at : ℕ → List (Caller S) → TransactionLog → List (Caller S) × TransactionLog
  turn_at i [] log = ([], log)
  turn_at zero (l ∷ ls) log = let (l', log') = turn l log in (l' ∷ ls, log')
  turn_at (suc i) (l ∷ ls) log = let (ls', log') = turn_at i ls log in (l ∷ ls', log')

  -- Turns in a given order.
  unfoldable pub turns :
      List ℕ → List (Caller S) → TransactionLog → List (Caller S) × TransactionLog
  turns [] ls log = (ls, log)
  turns (i ∷ order) ls log = let (ls', log') = turn_at i ls log in turns order ls' log'

-- The events of one test.
unfoldable pub mine : String → List Event → List Event
mine t [] = []
mine t (e ∷ es) = let rest = mine t es in if str_eq e.test t then e ∷ rest else rest

module _ {S : Type 0} (bus : Transport S) where
  -- What a program has still to log for a test, as it would alone.
  unfoldable pub share : String → String → Program (Unit {0}) → S → List Event
  share t test rest inner = if str_eq test t then trace bus test rest inner else []

  -- What the callers of a test have still to log.
  unfoldable pub due : String → List (Caller S) → List Event
  unfolding share
  due t [] = []
  due t (l ∷ ls) = share t l.test l.rest l.inner ++ due t ls

module _ {S : Type 0} where
  unfoldable pub names : List (Caller S) → List String
  names [] = []
  names (l ∷ ls) = l.test ∷ names ls

-- No name stands in the list.
unfoldable pub IsNew : String → List String → Type 0
IsNew t [] = Unit
IsNew t (n ∷ ns) = (n ≢ t) × IsNew t ns

unfoldable pub AllDistinct : List String → Type 0
AllDistinct [] = Unit
AllDistinct (n ∷ ns) = IsNew n ns × AllDistinct ns
