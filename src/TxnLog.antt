-- ===== src/TxnLog.antt =====
-- src/txn_log.cpp and include/soc/txn_log.hpp: the transaction log, and `LoggedTransport`, which
-- adds an entry for each call that returns. The clock behind `NowNs` is a parameter: its `k`-th
-- reading. The mutex makes each method of the log one step, so a log is a list.
pub mod Trace
pub mod Replay
pub mod Csv
pub mod Shared
pub mod Tests
use Prim.Native.String.{String, ◌++◌ as str_append}
use soc_validation_framework.Prelude.{ℕ, ◌+◌, List, [], ◌∷◌, ◌++◌, length}
use soc_validation_framework.Word.{u32}
use soc_validation_framework.Bus.{Result, ok, err, M, Buffer, Transport}

pub data Op : Type 0 where
  read32 write32 read_block write_block : Op

pub record Transaction : Type 0 where
  pub timestamp_ns : ℕ
  pub op : Op
  pub address : ℕ
  pub value : ℕ
  pub test : String

-- `OpName`.
unfoldable pub op_name : Op → String
op_name read32 = "read32"
op_name write32 = "write32"
op_name read_block = "read_block"
op_name write_block = "write_block"

-- `records_`, oldest first, with the number of clock readings so far.
pub record TransactionLog : Type 0 where
  pub records : List Transaction
  pub readings : ℕ

unfoldable pub snapshot : TransactionLog → List Transaction
snapshot log = log.records

unfoldable pub size : TransactionLog → ℕ
size log = length log.records

unfoldable pub clear : TransactionLog → TransactionLog
clear log = record log { records = [] }

-- `LoggedTransport` with what its two pointers lead to: the transport and the log.
pub record LoggedTransport (S : Type 0) : Type 0 where
  pub inner : S
  pub log : TransactionLog
  pub test : String

unfoldable pub set_test : {S : Type 0} → String → LoggedTransport S → LoggedTransport S
set_test test l = record l { test = test }

module _ (now_ns : ℕ → ℕ) where
  -- `TransactionLog::Record`.
  unfoldable pub append : Op → ℕ → ℕ → String → TransactionLog → TransactionLog
  append op address value test log = record {
    records =
        log.records
        ++ record {
          timestamp_ns = now_ns log.readings;
          op = op;
          address = address;
          value = value;
          test = test;
        }
          ∷ [];
    readings = log.readings + 1;
  }

  module _ {S : Type 0} where
    -- The entry that a returning call adds, with the transport as the call left it.
    unfoldable pub note : Op → ℕ → ℕ → S → LoggedTransport S → LoggedTransport S
    note op address value s l = record l { inner = s; log = append op address value l.test l.log }

    -- The rest of each method after the forwarded call; a throw passes the `Record` by.
    unfoldable pub after_read : ℕ → LoggedTransport S → Result ℕ × S → Result ℕ × LoggedTransport S
    unfolding note
    after_read address l (err e, s) = (err e, record l { inner = s })
    after_read address l (ok value, s) = (ok value, note read32 address value s l)

    unfoldable pub after_call :
        Op
        → ℕ
        → ℕ
        → LoggedTransport S
        → Result (Unit {0}) × S
        → Result (Unit {0}) × LoggedTransport S
    unfolding note
    after_call op address value l (err e, s) = (err e, record l { inner = s })
    after_call op address value l (ok _, s) = (ok tt, note op address value s l)

  module _ {S : Type 0} (bus : Transport S) where
    unfoldable pub logged_read32 : ℕ → M (LoggedTransport S) ℕ
    unfolding after_read
    logged_read32 address l = after_read address l (bus.read32 address l.inner)

    unfoldable pub logged_write32 : ℕ → ℕ → M (LoggedTransport S) (Unit {0})
    unfolding after_call
    logged_write32 address value l =
        after_call write32 address value l (bus.write32 address value l.inner)

    logged_read_block :
        ℕ → Buffer → ℕ → LoggedTransport S → Result (Unit {0}) × Buffer × LoggedTransport S
    unfolding after_call
    logged_read_block address out count l =
        let (r, out', s) = bus.read_block address out count l.inner in
        let (r', l') = after_call read_block address (u32 count) l (r, s) in (r', out', l')

    logged_write_block : ℕ → Buffer → ℕ → M (LoggedTransport S) (Unit {0})
    unfolding after_call
    logged_write_block address words count l =
        after_call write_block address (u32 count) l (bus.write_block address words count l.inner)

    unfoldable pub logged : Transport (LoggedTransport S)
    unfolding logged_read32 logged_write32 logged_read_block logged_write_block
    logged = record {
      read32 = logged_read32;
      write32 = logged_write32;
      read_block = logged_read_block;
      write_block = logged_write_block;
      name = λ l. str_append (bus.name l.inner) "+log";
    }
