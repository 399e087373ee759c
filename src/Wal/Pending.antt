-- ===== src/Wal/Pending.antt =====
-- `WriteAheadLog.uncommitted_deletes` of api/wal.py, and what its list holds for a transaction.
use unlearning.Prelude.{
  sym, ◌∙◌, Option-cases, inl, inr, ℕ, ◌<◌, ◌≡◌, refl, Bool, false, not, ◌||◌, Option, none, some,
  List, [], ◌∷◌, arith, ◌==◌, ==_iff, if◌then◌else◌, Result, ok, ◌>>=◌, All,
}
use unlearning.Prelude.Dict.{Dict, get, put, keys, is_some, get-put, elem-keys, put-IsDistinct}
use unlearning.Prelude.Sort.{sorted, IsAscending, elem-sorted, sorted-IsAscending}
use unlearning.Prelude.Eq.{nat_eq, elem, IsDistinct}
use unlearning.Wal.Codec.{Bytes, Digest, BeginDelete, Record, begin_delete, commit}
use unlearning.Wal.Scan.{iter_records}

-- The two loops: `begins` keeps the last BEGIN of a transaction.
unfoldable pub collect_begins : Dict ℕ BeginDelete → List Record → Dict ℕ BeginDelete
collect_begins begins [] = begins
collect_begins begins (begin_delete b ∷ rs) = collect_begins (put b.transaction_id b begins) rs
collect_begins begins (commit c ∷ rs) = collect_begins begins rs

unfoldable pub is_committed : ℕ → List Record → Bool
is_committed tx [] = false
is_committed tx (begin_delete b ∷ rs) = is_committed tx rs
is_committed tx (commit c ∷ rs) = c.transaction_id == tx || is_committed tx rs

-- The comprehension over the sorted ids.
unfoldable pub select_pending : List Record → Dict ℕ BeginDelete → List ℕ → List BeginDelete
select_pending rs begins [] = []
select_pending rs begins (tx ∷ txs) =
    let rest = select_pending rs begins txs in
    elim (get tx begins) [
      | none ↦ rest
      | some b ↦ if not (is_committed tx rs) then b ∷ rest else rest
    ]

unfoldable pub pending_of : List Record → List BeginDelete
unfolding collect_begins is_committed select_pending
pending_of rs = let begins = collect_begins [] rs in select_pending rs begins (sorted (keys begins))

unfoldable pub uncommitted_deletes : Digest → Option Bytes → Result (List BeginDelete)
uncommitted_deletes d file = do rs ← iter_records d file; ok (pending_of rs)

-- What the query should answer for one transaction.
unfoldable pub last_begin : ℕ → List Record → Option BeginDelete
last_begin tx [] = none
last_begin tx (begin_delete b ∷ rs) = elim (last_begin tx rs) [
  | some later ↦ some later
  | none ↦ if b.transaction_id == tx then some b else none
]
last_begin tx (commit c ∷ rs) = last_begin tx rs

-- The first record of a list with a transaction id.
unfoldable pub find_tx : ℕ → List BeginDelete → Option BeginDelete
find_tx tx [] = none
find_tx tx (b ∷ bs) = if b.transaction_id == tx then some b else find_tx tx bs

-- What an id that comes later in the log overrides.
abbrev or_else : Option BeginDelete → Option BeginDelete → Option BeginDelete
or_else (some b) o = some b
or_else none o = o

or_else-none : (o : Option BeginDelete) → or_else o none ≡ o
or_else-none none = refl
or_else-none (some b) = refl

get-collect_begins :
    (tx : ℕ) (begins : Dict ℕ BeginDelete) (rs : List Record)
    → get tx (collect_begins begins rs) ≡ or_else (last_begin tx rs) (get tx begins)
unfolding collect_begins last_begin
get-collect_begins tx begins [] = refl
get-collect_begins tx begins (begin_delete b ∷ rs) = ground (
  arith,
  get-collect_begins tx (put b.transaction_id b begins) rs,
  get-put b.transaction_id tx b begins,
)
get-collect_begins tx begins (commit c ∷ rs) = get-collect_begins tx begins rs

get-all_begins : (tx : ℕ) (rs : List Record) → get tx (collect_begins [] rs) ≡ last_begin tx rs
unfolding get
get-all_begins tx rs = get-collect_begins tx [] rs ∙ or_else-none (last_begin tx rs)

last_begin-id :
    (tx : ℕ) (rs : List Record) (b : BeginDelete)
    → last_begin tx rs ≡ some b
    → b.transaction_id ≡ tx
unfolding last_begin
last_begin-id tx [] b h = cc
last_begin-id tx (begin_delete c ∷ rs) b h = ground (arith, last_begin-id tx rs b)
last_begin-id tx (commit c ∷ rs) b h = last_begin-id tx rs b h

-- Of one transaction: its entry, if no COMMIT names it.
abbrev open_entry : List Record → ℕ → Option BeginDelete → Option BeginDelete
open_entry rs tx o = if is_committed tx rs then none else o

-- An entry's key is its transaction id.
abbrev IsKeyed : Dict ℕ BeginDelete → Type 0
IsKeyed begins = (k : ℕ) (b : BeginDelete) → get k begins ≡ some b → b.transaction_id ≡ k

find-select_pending :
    (rs : List Record) (begins : Dict ℕ BeginDelete) (tx : ℕ) (txs : List ℕ)
    → IsKeyed begins
    → find_tx tx (select_pending rs begins txs)
      ≡ (if elem tx txs then open_entry rs tx (get tx begins) else none)
unfolding select_pending find_tx
find-select_pending rs begins tx [] keyed = refl
find-select_pending rs begins tx (t ∷ txs) keyed = elim (Option-cases (get t begins)) [
  | inl e ↦ ground (arith, find-select_pending rs begins tx txs keyed, ==_iff t tx)
  | inr (b, e) ↦
      ground (arith, find-select_pending rs begins tx txs keyed, keyed t b e, ==_iff t tx)
]

if_present :
    (rs : List Record) (tx : ℕ) (o : Option BeginDelete)
    → (if is_some o then open_entry rs tx o else none) ≡ open_entry rs tx o
if_present rs tx none = ground arith
if_present rs tx (some b) = refl

-- For every transaction the list of uncommitted deletes holds its last BEGIN if no COMMIT of the
-- log names it, and nothing otherwise.
pub find-pending_of :
    (tx : ℕ) (rs : List Record)
    → find_tx tx (pending_of rs) ≡ (if is_committed tx rs then none else last_begin tx rs)
unfolding pending_of
find-pending_of tx rs =
    let begins = collect_begins [] rs in
    find-select_pending rs begins tx (sorted (keys begins))
      (λ k b h. last_begin-id k rs b (sym (get-all_begins k rs) ∙ h))
    ∙ rw (elem-sorted tx (keys begins), elem-keys tx begins, get-all_begins tx rs)
        (if_present rs tx (last_begin tx rs))

collect_begins-IsDistinct :
    (begins : Dict ℕ BeginDelete) (rs : List Record)
    → IsDistinct (keys begins)
    → IsDistinct (keys (collect_begins begins rs))
unfolding collect_begins
collect_begins-IsDistinct begins [] h = h
collect_begins-IsDistinct begins (begin_delete b ∷ rs) h =
    collect_begins-IsDistinct (put b.transaction_id b begins) rs
      (put-IsDistinct b.transaction_id b begins h)
collect_begins-IsDistinct begins (commit c ∷ rs) h = collect_begins-IsDistinct begins rs h

abbrev pub ids : List BeginDelete → List ℕ
ids [] = []
ids (b ∷ bs) = b.transaction_id ∷ ids bs

module _ (rs : List Record) (begins : Dict ℕ BeginDelete) (keyed : IsKeyed begins) where
  All-select_pending :
      (n : ℕ) (txs : List ℕ)
      → All (λ m. n < m) txs
      → All (λ m. n < m) (ids (select_pending rs begins txs))
  unfolding select_pending
  All-select_pending n [] h = tt
  All-select_pending n (t ∷ txs) h = elim (Option-cases (get t begins)) [
    | inl e ↦ ground (arith, All-select_pending n txs)
    | inr (b, e) ↦ ground (arith, All-select_pending n txs, keyed t b e)
  ]

  select_pending-IsAscending :
      (txs : List ℕ) → IsAscending txs → IsAscending (ids (select_pending rs begins txs))
  unfolding select_pending
  select_pending-IsAscending [] h = tt
  select_pending-IsAscending (t ∷ txs) h = elim (Option-cases (get t begins)) [
    | inl e ↦ ground (arith, select_pending-IsAscending txs)
    | inr (b, e) ↦
        ground (arith, select_pending-IsAscending txs, All-select_pending t txs, keyed t b e)
  ]

-- The uncommitted deletes come in strictly ascending order of their transaction ids.
pub pending_of-IsAscending : (rs : List Record) → IsAscending (ids (pending_of rs))
unfolding pending_of
pending_of-IsAscending rs =
    select_pending-IsAscending rs (collect_begins [] rs)
      (λ k b h. last_begin-id k rs b (sym (get-all_begins k rs) ∙ h))
      (sorted (keys (collect_begins [] rs)))
      (sorted-IsAscending (keys (collect_begins [] rs)) (collect_begins-IsDistinct [] rs tt))
