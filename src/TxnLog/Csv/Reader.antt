-- ===== src/TxnLog/Csv/Reader.antt =====
-- A reader of the files of `WriteCsv`: cuts lines and columns, as a reader of comma-separated values
-- does where no value is quoted.
use Prim.Native.String.{String}
use soc_validation_framework.Prelude.{
  ℕ, ◌^◌, ◌<◌, ◌≡◌, List, [], ◌∷◌, true, ◌&&◌, Option, none, some, ◌==◌, if◌then◌else◌,
}
use soc_validation_framework.TxnLog.{Op, read32, write32, read_block, write_block, Transaction}
use soc_validation_framework.TxnLog.Csv.{Text, codes, same_text, newline, Files}
use soc_validation_framework.TxnLog.Csv.Digits.{read_number}
use soc_validation_framework.TxnLog.Csv.Split.{split, lacks}

-- A record as a reader gets it: the columns of a line, the last as the text it is.
pub record Row : Type 0 where
  pub timestamp_ns : ℕ
  pub op : Op
  pub address : ℕ
  pub value : ℕ
  pub test : Text

unfoldable pub row : Transaction → Row
row r = record {
  timestamp_ns = r.timestamp_ns;
  op = r.op;
  address = r.address;
  value = r.value;
  test = codes r.test;
}

-- The four operations, as the file spells them.
unfoldable pub read_op : Text → Option Op
unfolding same_text
read_op text =
    if same_text text (codes "read32")
    then some read32
    else if same_text text (codes "write32")
    then some write32
    else if same_text text (codes "read_block")
    then some read_block
    else if same_text text (codes "write_block")
    then some write_block
    else none

-- A number behind "0x".
unfoldable pub read_hex : Text → Option ℕ
unfolding read_number
read_hex (zero_digit ∷ x ∷ cs) =
    if (zero_digit == 48) && (x == 120) then read_number 16 cs 0 else none
read_hex _ = none

unfoldable pub row_of : Option ℕ → Option Op → Option ℕ → Option ℕ → Text → Option Row
row_of (some t) (some op) (some a) (some v) test =
    some (record { timestamp_ns = t; op = op; address = a; value = v; test = test })
row_of _ _ _ _ test = none

-- The columns of a line.
unfoldable pub read_row : List Text → Option Row
unfolding read_hex read_op row_of
read_row (t ∷ op ∷ a ∷ v ∷ test ∷ []) =
    row_of (read_number 10 t 0) (read_op op) (read_hex a) (read_hex v) test
read_row _ = none

unfoldable pub cons_row : Option Row → Option (List Row) → Option (List Row)
cons_row (some r) (some rs) = some (r ∷ rs)
cons_row _ _ = none

unfoldable pub ended_by : Text → Option (List Row)
ended_by [] = some []
ended_by (c ∷ cs) = none

-- Every line ends in a newline, so nothing is behind the last.
unfoldable pub read_rows : List Text → Option (List Row)
unfolding read_row split cons_row ended_by
read_rows [] = none
read_rows (l ∷ ls) = elim ls [
  | [] ↦ ended_by l
  | m ∷ ms ↦ cons_row (read_row (split 44 l)) (read_rows ls)
]

unfoldable pub read_lines : List Text → Option (List Text × List Row)
unfolding read_rows
read_lines [] = none
read_lines (names ∷ ls) = elim (read_rows ls) [ none ↦ none | some rs ↦ some (split 44 names, rs) ]

-- The column names and the rows of a file.
unfoldable pub read_csv : Text → Option (List Text × List Row)
unfolding read_lines
read_csv text = read_lines (split newline text)

-- A record in the ranges of its types, whose test's name has neither a comma nor a newline.
unfoldable pub IsPlain : Transaction → Type 0
IsPlain r =
    (r.timestamp_ns < 2 ^ 64)
    × (r.address < 2 ^ 64)
    × (r.value < 2 ^ 32)
    × (lacks 44 (codes r.test) ≡ true)
    × (lacks newline (codes r.test) ≡ true)

unfoldable pub AllPlain : List Transaction → Type 0
AllPlain [] = Unit
AllPlain (r ∷ rs) = IsPlain r × AllPlain rs

-- The columns' names.
abbrev pub column_names : List Text
column_names =
    codes "timestamp_ns" ∷ codes "op" ∷ codes "address" ∷ codes "value" ∷ codes "test" ∷ []

-- What a path holds, read.
unfoldable pub read_file : String → Files → Option (List Text × List Row)
read_file path files = elim (files path) [ none ↦ none | some text ↦ read_csv text ]
