-- ===== src/ReceiptLog.antt =====
-- integrations/receipt_log.py: the append-only log of receipts. JSON is a parameter with its two
-- directions, and `request_id_of` is `r.get("request_id")`. The file is its text, if there is one.
pub mod Kept
mod Tests
use unlearning.Prelude.{
  ℕ, Bool, false, ◌||◌, Option, none, some, List, [], ◌∷◌, ◌++◌, length, ◌==◌, if◌then◌else◌, Str,
  Result, ok, ◌>>=◌,
}
use unlearning.Prelude.Eq.{str_eq, str_beq}
use unlearning.Prelude.Text.{is_empty, strip}

-- A line ends at a line feed or at a carriage return, which text mode reads as one. The blank lines
-- that `\r\n` then makes are skipped below.
abbrev pub is_newline : ℕ → Bool
is_newline c = c == 10 || c == 13

abbrev pub cons_first : ℕ → List Str → List Str
cons_first c [] = (c ∷ []) ∷ []
cons_first c (l ∷ ls) = (c ∷ l) ∷ ls

-- The lines of a text, without their ends.
unfoldable pub lines : Str → List Str
lines [] = []
lines (c ∷ s) = let rest = lines s in if is_newline c then [] ∷ rest else cons_first c rest

module _ {R : Type 0} (dumps : R → Str) (loads : Str → Result R)
    (request_id_of : R → Option Str) where
  -- `AppendOnlyReceiptLog.__init__`: an empty file, if there is none.
  abbrev pub touch : Option Str → Option Str
  touch none = some []
  touch (some text) = some text

  -- `line + "\n"`
  abbrev pub line_of : R → Str
  line_of receipt = dumps receipt ++ (10 ∷ [])

  -- `append`; a file that is missing is made by its opening.
  unfoldable pub append : R → Option Str → Option Str
  append receipt none = some (line_of receipt)
  append receipt (some text) = some (text ++ line_of receipt)

  unfoldable pub read_lines : List Str → Result (List R)
  read_lines [] = ok []
  read_lines (raw ∷ rest) =
      let others = read_lines rest in
      if is_empty (strip raw) then others else do r ← loads (strip raw); rs ← others; ok (r ∷ rs)

  -- The list of `iter_receipts`
  unfoldable pub iter_receipts : Option Str → Result (List R)
  iter_receipts none = ok []
  iter_receipts (some text) = read_lines (lines text)

  unfoldable pub count : Option Str → Result ℕ
  count file = do rs ← iter_receipts file; ok (length rs)

  abbrev pub has_request_id : Str → R → Bool
  has_request_id rid r = elim (request_id_of r) [ none ↦ false | some id ↦ str_beq id rid ]

  unfoldable pub with_request_id : Str → List R → List R
  with_request_id rid [] = []
  with_request_id rid (r ∷ rs) =
      let rest = with_request_id rid rs in if has_request_id rid r then r ∷ rest else rest

  unfoldable pub find_by_request_id : Str → Option Str → Result (List R)
  find_by_request_id rid file = do rs ← iter_receipts file; ok (with_request_id rid rs)
