-- ===== src/TxnLog/Csv/Split.antt =====
-- A text cut at a separator.
use soc_validation_framework.Prelude.{
  ℕ, zero, suc, ◌/◌, ◌%◌, ◌<◌, ◌≡◌, refl, List, [], ◌∷◌, ◌++◌, Bool, true, ◌&&◌, not, ◌==◌, ==_refl,
  if◌then◌else◌, arith,
}
use soc_validation_framework.TxnLog.Csv.{Text, digit, digits}

cons_head : ℕ → List Text → List Text
cons_head c [] = (c ∷ []) ∷ []
cons_head c (x ∷ xs) = (c ∷ x) ∷ xs

-- The pieces between the separators; there is one more of them than there are separators.
unfoldable pub split : ℕ → Text → List Text
unfolding cons_head
split sep [] = [] ∷ []
split sep (c ∷ cs) = let rest = split sep cs in if c == sep then [] ∷ rest else cons_head c rest

-- Does a text have no such character?
unfoldable pub lacks : ℕ → Text → Bool
lacks sep [] = true
lacks sep (c ∷ cs) = not (c == sep) && lacks sep cs

pub split-append :
    (sep : ℕ) (xs ys : Text) → lacks sep xs ≡ true → split sep (xs ++ sep ∷ ys) ≡ xs ∷ split sep ys
unfolding split lacks cons_head
split-append sep [] ys h = rw (==_refl sep)
split-append sep (x ∷ xs) ys h = ground (arith, split-append sep xs ys)

pub split_whole : (sep : ℕ) (xs : Text) → lacks sep xs ≡ true → split sep xs ≡ xs ∷ []
unfolding split lacks cons_head
split_whole sep [] h = refl
split_whole sep (x ∷ xs) h = ground (arith, split_whole sep xs)

pub lacks-append : (sep : ℕ) (xs ys : Text) → lacks sep (xs ++ ys) ≡ (lacks sep xs && lacks sep ys)
unfolding lacks
lacks-append sep [] ys = refl
lacks-append sep (x ∷ xs) ys = ground (arith, lacks-append sep xs ys)

-- Digits are no separators.
pub lacks-digits :
    (sep fuel base n : ℕ) (out : Text)
    → sep < 48
    → lacks sep (digits fuel base n out) ≡ lacks sep out
unfolding digits lacks
lacks-digits sep zero base n out h = refl
lacks-digits sep (suc fuel) base n out h =
    ground (arith, lacks-digits sep fuel base (n / base) (digit (n % base) ∷ out) h)
