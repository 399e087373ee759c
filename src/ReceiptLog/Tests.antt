-- ===== src/ReceiptLog/Tests.antt =====
-- A log of integrations/receipt_log.py over a toy JSON, before and behind a restart.
use unlearning.Prelude.{
  ℕ, ◌≡◌, refl, Bool, true, false, Option, none, some, List, [], ◌∷◌, ◌++◌, length, ◌==◌,
  if◌then◌else◌, Str, value_error, Result, ok, raise, All,
}
use unlearning.Prelude.Text.{codes, strip}
use unlearning.ReceiptLog.{
  is_newline, touch, iter_receipts, count, with_request_id, find_by_request_id,
}
use unlearning.ReceiptLog.Kept.{IsJson, append_all, append_all-kept}

-- Two fields: which of two requests, and how it ended.
abbrev Receipt : Type 0
Receipt = Bool × Bool

abbrev bit : Bool → ℕ
bit b = if b then b't' else b'f'

abbrev dumps : Receipt → Str
dumps (a, b) = b'[' ∷ bit a ∷ bit b ∷ b']' ∷ []

abbrev loads : Str → Result Receipt
loads [] = raise (value_error (codes "json"))
loads (c ∷ []) = raise (value_error (codes "json"))
loads (c ∷ x ∷ []) = raise (value_error (codes "json"))
loads (c ∷ x ∷ y ∷ []) = raise (value_error (codes "json"))
loads (c ∷ x ∷ y ∷ d ∷ []) = ok (x == b't', y == b't')
loads (c ∷ x ∷ y ∷ d ∷ e ∷ s) = raise (value_error (codes "json"))

abbrev request_id_of : Receipt → Option Str
request_id_of (a, b) = if a then some (codes "r1") else none

toy-one_line : (r : Receipt) → All (λ c. is_newline c ≡ false) (dumps r)
toy-one_line (true, true) = (refl, (refl, (refl, (refl, tt))))
toy-one_line (true, false) = (refl, (refl, (refl, (refl, tt))))
toy-one_line (false, true) = (refl, (refl, (refl, (refl, tt))))
toy-one_line (false, false) = (refl, (refl, (refl, (refl, tt))))

toy-trimmed : (r : Receipt) → strip (dumps r) ≡ dumps r
unfolding unlearning.Prelude.Text.is_space unlearning.Prelude.Text.lstrip
    unlearning.Prelude.Text.rstrip unlearning.Prelude.Text.strip
toy-trimmed (true, true) = refl
toy-trimmed (true, false) = refl
toy-trimmed (false, true) = refl
toy-trimmed (false, false) = refl

toy-read_back : (r : Receipt) → loads (dumps r) ≡ ok r
toy-read_back (true, true) = refl
toy-read_back (true, false) = refl
toy-read_back (false, true) = refl
toy-read_back (false, false) = refl

toy-IsJson : IsJson dumps loads request_id_of
toy-IsJson = record {
  one_line = toy-one_line;
  full = λ r. refl;
  trimmed = toy-trimmed;
  read_back = toy-read_back;
}

abbrev old : List Receipt
old = (true, true) ∷ (false, true) ∷ []

abbrev new : List Receipt
new = (true, false) ∷ []

abbrev file : Option Str
file = append_all dumps loads request_id_of new (
    touch dumps loads request_id_of
      (append_all dumps loads request_id_of old (touch dumps loads request_id_of none)))

append_all-kept_example :
    (iter_receipts dumps loads request_id_of file ≡ ok (old ++ new))
    × (count dumps loads request_id_of file ≡ ok (length (old ++ new)))
    × (find_by_request_id dumps loads request_id_of (codes "r1") file
        ≡ ok (with_request_id dumps loads request_id_of (codes "r1") (old ++ new)))
append_all-kept_example = append_all-kept dumps loads request_id_of old new (codes "r1") toy-IsJson
