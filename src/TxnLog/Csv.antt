-- ===== src/TxnLog/Csv.antt =====
-- `WriteCsv` of src/txn_log.cpp. A text of the file is the list of its character codes. Whether the
-- stream opens is a parameter; a stream that opens replaces the file, and its writes do not fail.
pub mod Digits
pub mod Split
pub mod Reader
pub mod RoundTrip
pub mod Tests
use Prim.Native.Char.{code}
use Prim.Native.String
use Prim.Native.String.{String, ◌++◌ as str_append}
use text.Mathlib.Text.{◌==◌ as str_eq}
use soc_validation_framework.Prelude.{
  ℕ, zero, suc, ◌+◌, ◌/◌, ◌%◌, List, [], ◌∷◌, ◌++◌, Bool, true, false, Option, some, ltb, ◌==◌,
  ◌&&◌, if◌then◌else◌,
}
use soc_validation_framework.Bus.{Result, ok, err, runtime_error}
use soc_validation_framework.TxnLog.{Transaction, op_name, TransactionLog, snapshot}

abbrev pub Text : Type 0
Text = List ℕ

abbrev pub codes : String → Text
codes String.[] = []
codes (String.◌∷◌ c s) = code c ∷ codes s

-- `==` on texts.
unfoldable pub same_text : Text → Text → Bool
same_text [] [] = true
same_text [] (y ∷ ys) = false
same_text (x ∷ xs) [] = false
same_text (x ∷ xs) (y ∷ ys) = x == y && same_text xs ys

abbrev pub newline : ℕ
newline = 10

unfoldable pub digit : ℕ → ℕ
digit d = if ltb d 10 then 48 + d else 87 + d

-- The digits of a number before a text; with fuel 64 those of any word of 64 bits.
unfoldable pub digits : (fuel base : ℕ) → ℕ → Text → Text
unfolding digit
digits zero base n out = out
digits (suc fuel) base n out = elim (ltb n base) [
  | true ↦ digit n ∷ out
  | false ↦ digits fuel base (n / base) (digit (n % base) ∷ out)
]

-- What `<<` prints of a number after `std::dec` and after `std::hex`.
abbrev pub dec : ℕ → Text
dec n = digits 64 10 n []

abbrev pub hex : ℕ → Text
hex n = digits 64 16 n []

abbrev pub header : Text
header = codes "timestamp_ns,op,address,value,test"

-- The line of one record, without its newline.
unfoldable pub csv_line : Transaction → Text
csv_line r =
    dec r.timestamp_ns
    ++ (codes ","
        ++ (codes (op_name r.op)
            ++ (codes ",0x"
                ++ (hex r.address
                    ++ (codes ",0x" ++ (hex r.value ++ (codes "," ++ codes r.test)))))))

-- The loop over the records.
pub csv_rows : List Transaction → Text
unfolding csv_line
csv_rows [] = []
csv_rows (r ∷ rs) = csv_line r ++ newline ∷ csv_rows rs

-- What is stored under each path.
abbrev pub Files : Type 0
Files = String → Option Text

unfoldable pub put_file : String → Text → Files → Files
put_file path text files p = if str_eq p path then some text else files p

module _ (opens : String → Bool) where
  unfoldable pub write_csv : String → TransactionLog → Files → Result (Unit {0}) × Files
  unfolding csv_rows put_file
  write_csv path log files =
      if opens path
      then (ok tt, put_file path (header ++ newline ∷ csv_rows (snapshot log)) files)
      else (err (runtime_error (str_append "cannot write transaction log: " path)), files)
