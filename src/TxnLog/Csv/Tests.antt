-- ===== src/TxnLog/Csv/Tests.antt =====
-- A log of two entries, written and read back, and one whose test's name has a comma.
use Prim.Native.String.{String}
use soc_validation_framework.Prelude.{
  ◌≡◌, ◌≢◌, refl, List, [], ◌∷◌, map, Bool, true, none, some, arith,
}
use soc_validation_framework.Bus.{ok}
use soc_validation_framework.TxnLog.{read32, write32, op_name, Transaction, TransactionLog}
use soc_validation_framework.TxnLog.Csv.{codes, digits, csv_line, Files, write_csv}
use soc_validation_framework.TxnLog.Csv.Split.{split, lacks}
use soc_validation_framework.TxnLog.Csv.Reader.{
  row, IsPlain, AllPlain, read_row, read_file, column_names,
}
use soc_validation_framework.TxnLog.Csv.RoundTrip.{read_file-write_csv}

abbrev poll : Transaction
poll = record { timestamp_ns = 1200; op = read32; address = 0x40000004; value = 0x1F; test = "dma" }

abbrev entries : List Transaction
entries =
    poll
    ∷ record { timestamp_ns = 1250; op = write32; address = 0x40000000; value = 0; test = "<none>" }
    ∷ []

poll_line : csv_line poll ≡ codes "1200,read32,0x40000004,0x1f,dma"
unfolding csv_line digits op_name
poll_line = refl

entries-AllPlain : AllPlain entries
unfolding AllPlain IsPlain lacks
entries-AllPlain = (
  (omega arith, omega arith, omega arith, refl, refl),
  ((omega arith, omega arith, omega arith, refl, refl), tt),
)

abbrev always : String → Bool
always path = true

abbrev nothing : Files
nothing path = none

abbrev two_entries : TransactionLog
two_entries = record { records = entries; readings = 2 }

read_file-write_csv_example :
    ((write_csv always "log.csv" two_entries nothing).0 ≡ ok tt)
    × (read_file "log.csv" (write_csv always "log.csv" two_entries nothing).1
        ≡ some (column_names, map row entries))
    × ((other : String)
        → other ≢ "log.csv"
        → (write_csv always "log.csv" two_entries nothing).1 other ≡ none)
read_file-write_csv_example =
    read_file-write_csv always "log.csv" two_entries nothing refl entries-AllPlain

-- A name with a comma makes a line of six columns.
comma_line : read_row (split 44 (csv_line (record poll { test = "dma,irq" }))) ≡ none
unfolding csv_line digits split read_row op_name
comma_line = refl
