-- ===== src/TxnLog/Csv/RoundTrip.antt =====
-- A log that `WriteCsv` wrote is read back from the file.
use Prim.Native.String.{String}
use text.Mathlib.TextEquality.{eq_iff}
use soc_validation_framework.Prelude.{
  ℕ, ◌<◌, ◌≡◌, ◌≢◌, refl, ◌∙◌, ap, List, [], ◌∷◌, ◌++◌, map, Bool, true, some, arith,
}
use soc_validation_framework.Bus.{ok}
use soc_validation_framework.TxnLog.{
  Op, read32, write32, read_block, write_block, Transaction, op_name, TransactionLog, snapshot,
}
use soc_validation_framework.TxnLog.Csv.{
  Text, codes, same_text, newline, dec, hex, header, csv_line, csv_rows, Files, put_file, write_csv,
}
use soc_validation_framework.TxnLog.Csv.Digits.{read_number-dec, read_number-hex}
use soc_validation_framework.TxnLog.Csv.Split.{
  split, lacks, split-append, split_whole, lacks-append, lacks-digits,
}
use soc_validation_framework.TxnLog.Csv.Reader.{
  Row, row, read_op, read_hex, row_of, read_row, cons_row, ended_by, read_rows, read_lines,
  read_csv, IsPlain, AllPlain, column_names, read_file,
}

lacks_both :
    (sep : ℕ) (xs ys : Text)
    → lacks sep xs ≡ true
    → lacks sep ys ≡ true
    → lacks sep (xs ++ ys) ≡ true
lacks_both sep xs ys h k = ground (arith, lacks-append sep xs ys)

lacks-dec : (sep n : ℕ) → sep < 48 → lacks sep (dec n) ≡ true
unfolding lacks
lacks-dec sep n h = lacks-digits sep 64 10 n [] h

lacks-hex : (sep n : ℕ) → sep < 48 → lacks sep (hex n) ≡ true
unfolding lacks
lacks-hex sep n h = lacks-digits sep 64 16 n [] h

split_then :
    (sep : ℕ) (xs ys : Text) (pieces : List Text)
    → lacks sep xs ≡ true
    → split sep ys ≡ pieces
    → split sep (xs ++ sep ∷ ys) ≡ xs ∷ pieces
split_then sep xs ys pieces h e = split-append sep xs ys h ∙ ap (λ ps. xs ∷ ps) e

lacks-op_name :
    (op : Op) → (lacks 44 (codes (op_name op)) ≡ true) × (lacks newline (codes (op_name op)) ≡ true)
unfolding lacks op_name
lacks-op_name read32 = (refl, refl)
lacks-op_name write32 = (refl, refl)
lacks-op_name read_block = (refl, refl)
lacks-op_name write_block = (refl, refl)

-- The last column is of the log, so it may be any text without the two separators.
lacks-csv_line : (r : Transaction) → IsPlain r → lacks newline (csv_line r) ≡ true
unfolding csv_line IsPlain lacks
lacks-csv_line r (t, a, v, no_comma, no_newline) =
    let name = (lacks-op_name r.op).1 in
    lacks_both newline (dec r.timestamp_ns) _ (lacks-dec newline r.timestamp_ns (omega arith)) (
      lacks_both newline (codes (op_name r.op)) _ name (
        lacks_both newline (hex r.address) _ (lacks-hex newline r.address (omega arith)) (
          lacks_both newline (hex r.value) _ (lacks-hex newline r.value (omega arith)) no_newline)))

-- The five columns of a line.
columns : Transaction → List Text
columns r =
    dec r.timestamp_ns
    ∷ codes (op_name r.op)
    ∷ (codes "0x" ++ hex r.address)
    ∷ (codes "0x" ++ hex r.value)
    ∷ codes r.test
    ∷ []

split-csv_line : (r : Transaction) → IsPlain r → split 44 (csv_line r) ≡ columns r
unfolding csv_line IsPlain lacks columns
split-csv_line r (t, a, v, no_comma, no_newline) =
    split_then 44 (dec r.timestamp_ns) _ _ (lacks-dec 44 r.timestamp_ns (omega arith)) (
      split_then 44 (codes (op_name r.op)) _ _ (lacks-op_name r.op).0 (
        split_then 44 (48 ∷ 120 ∷ hex r.address) _ _ (lacks-hex 44 r.address (omega arith)) (
          split_then 44 (48 ∷ 120 ∷ hex r.value) _ _ (lacks-hex 44 r.value (omega arith))
            (split_whole 44 (codes r.test) no_comma))))

read_op-op_name : (op : Op) → read_op (codes (op_name op)) ≡ some op
unfolding read_op op_name same_text
read_op-op_name read32 = refl
read_op-op_name write32 = refl
read_op-op_name read_block = refl
read_op-op_name write_block = refl

read_row-columns : (r : Transaction) → IsPlain r → read_row (columns r) ≡ some (row r)
unfolding IsPlain read_row read_hex row row_of columns
read_row-columns r (t, a, v, no_comma, no_newline) = rw (
  read_number-dec r.timestamp_ns t,
  read_op-op_name r.op,
  read_number-hex r.address a,
  read_number-hex r.value (omega arith),
)

read_rows-cons :
    (l : Text) (ls : List Text) (r : Row) (rs : List Row)
    → read_row (split 44 l) ≡ some r
    → read_rows ls ≡ some rs
    → read_rows (l ∷ ls) ≡ some (r ∷ rs)
unfolding read_rows cons_row
read_rows-cons l [] r rs e e' = absurd (ground arith)
read_rows-cons l (m ∷ ms) r rs e e' = rw (e, e')

read_rows-csv_rows :
    (rs : List Transaction)
    → AllPlain rs
    → read_rows (split newline (csv_rows rs)) ≡ some (map row rs)
unfolding read_rows csv_rows AllPlain ended_by split
read_rows-csv_rows [] h = refl
read_rows-csv_rows (r ∷ rs) (h, hs) =
    ap read_rows (split-append newline (csv_line r) (csv_rows rs) (lacks-csv_line r h))
    ∙ read_rows-cons (csv_line r) (split newline (csv_rows rs)) (row r) (map row rs)
        (ap read_row (split-csv_line r h) ∙ read_row-columns r h) (read_rows-csv_rows rs hs)

lacks-header : lacks newline header ≡ true
unfolding lacks
lacks-header = refl

header_columns : split 44 header ≡ column_names
unfolding split
header_columns = refl

read_lines-cons :
    (names : Text) (ls : List Text) (rs : List Row)
    → read_rows ls ≡ some rs
    → read_lines (names ∷ ls) ≡ some (split 44 names, rs)
unfolding read_lines
read_lines-cons names ls rs e = rw (e, read_lines)

read_csv-rows :
    (rs : List Transaction)
    → AllPlain rs
    → read_csv (header ++ newline ∷ csv_rows rs) ≡ some (column_names, map row rs)
unfolding read_csv
read_csv-rows rs h =
    ap read_lines (split-append newline header (csv_rows rs) lacks-header)
    ∙ read_lines-cons header (split newline (csv_rows rs)) (map row rs) (read_rows-csv_rows rs h)
    ∙ ap (λ names. some (names, map row rs)) header_columns

write_csv_stores :
    (opens : String → Bool) (path : String) (log : TransactionLog) (files : Files)
    → opens path ≡ true
    → write_csv opens path log files
      ≡ (ok tt, put_file path (header ++ newline ∷ csv_rows log.records) files)
unfolding write_csv snapshot
write_csv_stores opens path log files opened = rw (opened, write_csv)

read_file-put_file :
    (path : String) (text : Text) (files : Files)
    → read_file path (put_file path text files) ≡ read_csv text
unfolding read_file put_file
read_file-put_file path text files = ground (arith, eq_iff path path)

module _ (opens : String → Bool) where
  -- When the records are in the ranges of their types, no test's name has a comma or a newline, and
  -- the stream opens, `WriteCsv` returns, other files stay as they are, and reading the file gives
  -- the column names and, in order, the records of the log: the time, the operation, the address,
  -- the value and the text of the test's name of each. The reader knows the four operations by the
  -- words read32, write32, read_block and write_block.
  pub read_file-write_csv :
      (path : String) (log : TransactionLog) (files : Files)
      → opens path ≡ true
      → AllPlain log.records
      → ((write_csv opens path log files).0 ≡ ok tt)
        × (read_file path (write_csv opens path log files).1
            ≡ some (column_names, map row log.records))
        × ((other : String) → other ≢ path → (write_csv opens path log files).1 other ≡ files other)
  unfolding put_file
  read_file-write_csv path log files opened plain =
      let stored = write_csv_stores opens path log files opened in
      let text = header ++ newline ∷ csv_rows log.records in
      (
        ap (λ p. p.0) stored,
        ap (λ p. read_file path p.1) stored
            ∙ read_file-put_file path text files
            ∙ read_csv-rows log.records plain,
        λ other h. ap (λ p. p.1 other) stored ∙ ground (arith, eq_iff other path),
      )
