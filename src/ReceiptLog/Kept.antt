-- ===== src/ReceiptLog/Kept.antt =====
-- What was appended to the log (integrations/receipt_log.py) is read back.
use unlearning.Prelude.{
  ◌≡◌, refl, sym, ap, ◌∙◌, false, Option, none, some, List, [], ◌∷◌, ◌++◌, length, Exn, Str, Result,
  ok, raise, ◌>>=◌, All, All-append,
}
use mathlib.Core.List.{append_assoc, append-nil}
use unlearning.Prelude.Text.{is_empty, strip}
use unlearning.ReceiptLog.{
  is_newline, lines, touch, append, read_lines, iter_receipts, count, with_request_id,
  find_by_request_id,
}

module _ {R : Type 0} (dumps : R → Str) (loads : Str → Result R)
    (request_id_of : R → Option Str) where
  -- What the log asks of JSON: a receipt is printed on one line, with no white space around it, and
  -- read back.
  pub record IsJson : Type 0 where
    pub one_line : (r : R) → All (λ c. is_newline c ≡ false) (dumps r)
    pub full : (r : R) → is_empty (dumps r) ≡ false
    pub trimmed : (r : R) → strip (dumps r) ≡ dumps r
    pub read_back : (r : R) → loads (dumps r) ≡ ok r

  lines-one :
      (s rest : Str) → All (λ c. is_newline c ≡ false) s → lines (s ++ (10 ∷ rest)) ≡ s ∷ lines rest
  unfolding lines
  lines-one [] rest h = refl
  lines-one (c ∷ s) rest h = rw (lines-one s rest h.1, h.0, lines) refl

  -- The text of a log.
  unfoldable pub text_of : List R → Str
  text_of [] = []
  text_of (r ∷ rs) = dumps r ++ (10 ∷ text_of rs)

  -- Receipts are appended one behind the other.
  unfoldable pub append_all : List R → Option Str → Option Str
  append_all [] file = file
  append_all (r ∷ rs) file = append_all rs (append dumps loads request_id_of r file)

  append_all-text :
      (rs : List R) (text : Str) → append_all rs (some text) ≡ some (text ++ text_of rs)
  unfolding append_all append text_of
  append_all-text [] text = ap some (sym (append-nil text))
  append_all-text (r ∷ rs) text =
      append_all-text rs (text ++ (dumps r ++ (10 ∷ [])))
      ∙ ap some (
          append_assoc text (dumps r ++ (10 ∷ [])) (text_of rs)
          ∙ ap (λ t. text ++ t) (append_assoc (dumps r) (10 ∷ []) (text_of rs)))

  bind-ok : (m : Result (List R)) → m ≡ (m >>= λ more. ok more)
  bind-ok (ok rs) = refl
  bind-ok (raise x) = refl

  bind-bind :
      (m : Result (List R)) (rs : List R) (f : List R → List R)
      → ((m >>= λ more. ok (rs ++ more)) >>= λ all. ok (f all))
        ≡ (m >>= λ more. ok (f (rs ++ more)))
  bind-bind (ok more) rs f = refl
  bind-bind (raise x) rs f = refl

  -- Whole lines in front are read, whatever is behind them.
  read-text_of :
      (rs : List R) (rest : Str)
      → IsJson
      → read_lines dumps loads request_id_of (lines (text_of rs ++ rest))
        ≡ (read_lines dumps loads request_id_of (lines rest) >>= λ more. ok (rs ++ more))
  unfolding text_of read_lines
  read-text_of [] rest json = bind-ok (read_lines dumps loads request_id_of (lines rest))
  read-text_of (r ∷ rs) rest json =
      rw
        (
          append_assoc (dumps r) (10 ∷ text_of rs) rest,
          lines-one (dumps r) (text_of rs ++ rest) (json.one_line r),
          json.trimmed r,
          json.full r,
          json.read_back r,
          read-text_of rs rest json,
          read_lines,
        )
        (bind-bind (read_lines dumps loads request_id_of (lines rest)) rs (λ all. r ∷ all))

  read-whole :
      (rs : List R) → IsJson → read_lines dumps loads request_id_of (lines (text_of rs)) ≡ ok rs
  unfolding lines read_lines
  read-whole rs json =
      ap (λ t. read_lines dumps loads request_id_of (lines t)) (sym (append-nil (text_of rs)))
      ∙ (read-text_of rs [] json ∙ ap (λ all. ok all) (append-nil rs))

  append_all-iter :
      (old new : List R)
      → IsJson
      → iter_receipts dumps loads request_id_of
          (append_all new (touch dumps loads request_id_of (append_all old (some []))))
        ≡ ok (old ++ new)
  unfolding iter_receipts
  append_all-iter old new json =
      rw
        (
          append_all-text old [],
          append_all-text new (text_of old),
          read-text_of old (text_of new) json,
          read-whole new json,
        )
        refl

  -- Receipts that were appended to a new log, and to the same file behind a restart, are read back in
  -- their order, counted, and found by their request id, where JSON prints a receipt on one line and
  -- reads it back.
  pub append_all-kept :
      (old new : List R) (request_id : Str)
      → IsJson
      → let file = append_all new (
          touch dumps loads request_id_of
            (append_all old (touch dumps loads request_id_of none))) in
        (iter_receipts dumps loads request_id_of file ≡ ok (old ++ new))
        × (count dumps loads request_id_of file ≡ ok (length (old ++ new)))
        × (find_by_request_id dumps loads request_id_of request_id file
            ≡ ok (with_request_id dumps loads request_id_of request_id (old ++ new)))
  unfolding count find_by_request_id
  append_all-kept old new request_id json =
      let read = append_all-iter old new json in
      (read, rw (read, count) refl, rw (read, find_by_request_id) refl)

  regroup : (a b c d : Str) → ((a ++ b) ++ (c ++ (10 ∷ []))) ++ d ≡ a ++ ((b ++ c) ++ (10 ∷ d))
  regroup [] [] [] d = refl
  regroup [] [] (z ∷ c) d = ap (λ s. z ∷ s) (regroup [] [] c d)
  regroup [] (y ∷ b) c d = ap (λ s. y ∷ s) (regroup [] b c d)
  regroup (x ∷ a) b c d = ap (λ s. x ∷ s) (regroup a b c d)

  -- A line that was cut off, behind whole ones, takes the next receipt into it: where JSON does not
  -- read the two together, every later read of the log raises, whatever is appended.
  pub append-torn :
      (old new : List R) (torn : Str) (r : R) (x : Exn)
      → IsJson
      → All (λ c. is_newline c ≡ false) torn
      → is_empty (strip (torn ++ dumps r)) ≡ false
      → loads (strip (torn ++ dumps r)) ≡ raise x
      → iter_receipts dumps loads request_id_of
          (append_all new (append dumps loads request_id_of r (some (text_of old ++ torn))))
        ≡ raise x
  unfolding iter_receipts append read_lines
  append-torn old new torn r x json one full broken =
      let line = torn ++ dumps r in
      let whole = All-append (λ c. is_newline c ≡ false) torn (dumps r) one (json.one_line r) in
      rw
        (
          append_all-text new ((text_of old ++ torn) ++ (dumps r ++ (10 ∷ []))),
          regroup (text_of old) torn (dumps r) (text_of new),
          read-text_of old (line ++ (10 ∷ text_of new)) json,
          lines-one line (text_of new) whole,
          full,
          broken,
          read_lines,
        )
        refl
