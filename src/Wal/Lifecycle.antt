-- ===== src/Wal/Lifecycle.antt =====
-- A transaction in the log of api/wal.py: its BEGIN, its COMMIT, and the query between them.
use unlearning.Prelude.{
  ℕ, suc, ◌≤◌, ◌<◌, ◌≡◌, ap, Option, none, some, List, [], ◌∷◌, ◌++◌, arith, All, ◌==◌,
  if◌then◌else◌, ok, pos,
}
use unlearning.Wal.Codec.{Digest, BeginDelete, Commit, Record, begin_delete, commit}
use unlearning.Wal.Log.{Log, transaction_id, append_begin_delete, append_commit}
use unlearning.Wal.Pending.{is_committed, pending_of, uncommitted_deletes, find_tx, find-pending_of}
use unlearning.Wal.Fresh.{
  Holds, iter_records-Holds, append_begin_delete-Holds, append_commit-Holds, is_committed-append,
  not-is_committed, last_begin-snoc, last_begin-commit,
}

pub uncommitted_deletes-Holds :
    (d : Digest) (log : Log) (rs : List Record)
    → Holds d log rs
    → uncommitted_deletes d log.file ≡ ok (pending_of rs)
unfolding uncommitted_deletes
uncommitted_deletes-Holds d log rs h = rw (iter_records-Holds d log rs h)

All-below :
    (n m : ℕ) (rs : List Record)
    → n < m
    → All (λ r. transaction_id r ≤ n) rs
    → All (λ r. transaction_id r < m) rs
All-below n m [] h a = tt
All-below n m (r ∷ rs) h a = (omega arith, All-below n m rs h a.1)

find-pending_of-begin :
    (n t : ℕ) (rs : List Record) (b : BeginDelete)
    → All (λ r. transaction_id r ≤ n) rs
    → n < b.transaction_id
    → find_tx t (pending_of (rs ++ begin_delete b ∷ []))
      ≡ (if b.transaction_id == t then some b else find_tx t (pending_of rs))
unfolding is_committed
find-pending_of-begin n t rs b a h = ground (
  arith,
  find-pending_of t (rs ++ begin_delete b ∷ []),
  find-pending_of t rs,
  is_committed-append t rs (begin_delete b ∷ []),
  last_begin-snoc t rs b,
  not-is_committed n t rs a,
)

-- A BEGIN that is appended to a log of whole records under a new id: the id is above every id of
-- the log, and the uncommitted deletes gain exactly this record.
pub append_begin_delete-pending :
    (d : Digest) (node m : ℕ) (ts : Option ℕ) (now : ℕ) (log : Log) (rs : List Record)
    {b : BeginDelete} {log' : Log}
    → Holds d log rs
    → append_begin_delete d (pos node) (pos m) none ts now log ≡ (ok b, log')
    → All (λ r. transaction_id r < b.transaction_id) rs
      × (uncommitted_deletes d log'.file ≡ ok (pending_of (rs ++ begin_delete b ∷ [])))
      × ((t : ℕ)
          → find_tx t (pending_of (rs ++ begin_delete b ∷ []))
            ≡ (if b.transaction_id == t then some b else find_tx t (pending_of rs)))
append_begin_delete-pending d node m ts now log rs {b} {log'} h e =
    let step = append_begin_delete-Holds d node m none ts now log rs h e in
    let id : b.transaction_id ≡ suc log.tx_counter = ap (λ x. x.transaction_id) step.0 in
    let above : log.tx_counter < b.transaction_id = omega arith in
    (
      All-below log.tx_counter b.transaction_id rs above h.counted,
      uncommitted_deletes-Holds d log' (rs ++ begin_delete b ∷ []) step.1,
      λ t. find-pending_of-begin log.tx_counter t rs b h.counted above,
    )

-- A COMMIT that is appended to a log of whole records, with an id that the counter has reached,
-- retires its transaction, and no other.
pub append_commit-pending :
    (d : Digest) (tx : ℕ) (ts : Option ℕ) (now : ℕ) (log : Log) (rs : List Record) {c : Commit}
    {log' : Log}
    → Holds d log rs
    → tx ≤ log.tx_counter
    → append_commit d tx ts now log ≡ (ok c, log')
    → (uncommitted_deletes d log'.file ≡ ok (pending_of (rs ++ commit c ∷ [])))
      × ((t : ℕ)
          → find_tx t (pending_of (rs ++ commit c ∷ []))
            ≡ (if tx == t then none else find_tx t (pending_of rs)))
unfolding is_committed
append_commit-pending d tx ts now log rs {c} {log'} h le e =
    let step = append_commit-Holds d tx ts now log rs h le e in
    let id : c.transaction_id ≡ tx = ap (λ x. x.transaction_id) step.0 in
    (
      uncommitted_deletes-Holds d log' (rs ++ commit c ∷ []) step.1,
      λ t. ground (
        arith,
        find-pending_of t (rs ++ commit c ∷ []),
        find-pending_of t rs,
        is_committed-append t rs (commit c ∷ []),
        last_begin-commit t rs c,
      ),
    )
