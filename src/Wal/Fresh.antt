-- ===== src/Wal/Fresh.antt =====
-- The `WriteAheadLog` object of api/wal.py over its life: opening and appending, on a log of whole
-- records.
use mathlib.Core.List.{append-nil, append_assoc}
use unlearning.Prelude.{
  ℕ, zero, suc, ◌≤◌, ◌<◌, ◌≡◌, refl, sym, ap, subst₂, ◌∙◌, true, false, ◌&&◌, ◌||◌, Option, none,
  some, List, [], ◌∷◌, ◌++◌, arith, max, All, All-append, ◌==◌, if◌then◌else◌, if-cases, ok, pos,
  inl, inr,
}
use unlearning.Wal.Codec.{
  Bytes, Digest, BeginDelete, Commit, Record, begin_delete, commit, pack_record, pack_all,
}
use unlearning.Wal.Scan.{scan_all, iter_records}
use unlearning.Wal.Log.{
  Log, transaction_id, max_tx_id, recover_max_tx_id, open_log, contents, append_bytes, write_begin,
  append_begin_delete, append_commit, choose_tx, or_now, begin_record, commit_record, fits,
}
use unlearning.Wal.Pending.{is_committed, last_begin}
use unlearning.Wal.Roundtrip.{IsWritten}
use unlearning.Wal.Torn.{scan_all-pack_all}

-- The log holds exactly these records, whole, and has counted their transactions.
pub record Holds (d : Digest) (log : Log) (rs : List Record) : Type 0 where
  pub packed : contents log.file ≡ pack_all rs
  pub written : All (IsWritten d) rs
  pub counted : All (λ r. transaction_id r ≤ log.tx_counter) rs

iter-contents :
    (d : Digest) (file : Option Bytes) → iter_records d file ≡ scan_all d (contents file)
unfolding iter_records pack_all
iter-contents d none = sym (scan_all-pack_all d [] tt)
iter-contents d (some file) = refl

pack_all-snoc :
    (rs : List Record) (r : Record) → pack_all (rs ++ r ∷ []) ≡ pack_all rs ++ pack_record r
unfolding pack_all
pack_all-snoc [] r = append-nil (pack_record r)
pack_all-snoc (s ∷ rs) r =
    rw (pack_all-snoc rs r) (sym (append_assoc (pack_record s) (pack_all rs) (pack_record r)))

-- Reading a log that holds records returns them.
pub iter_records-Holds :
    (d : Digest) (log : Log) (rs : List Record) → Holds d log rs → iter_records d log.file ≡ ok rs
iter_records-Holds d log rs h =
    iter-contents d log.file ∙ rw (h.packed) (scan_all-pack_all d rs h.written)

le_max_tx_id :
    (n : ℕ) (rs : List Record)
    → (n ≤ max_tx_id n rs) × All (λ r. transaction_id r ≤ max_tx_id n rs) rs
unfolding max_tx_id
le_max_tx_id n [] = (omega arith, tt)
le_max_tx_id n (r ∷ rs) =
    let ih = le_max_tx_id (max n (transaction_id r)) rs in (omega arith, (omega arith, ih.1))

-- Opening a log on a file of whole records succeeds, and its counter has reached all of their ids.
pub open_log-Holds :
    (d : Digest) (rs : List Record)
    → All (IsWritten d) rs
    → (log : Log) × (open_log d (some (pack_all rs)) ≡ ok log) × Holds d log rs
unfolding open_log recover_max_tx_id
open_log-Holds d rs h = (
  record { file = some (pack_all rs); tx_counter = max_tx_id 0 rs },
  rw (iter-contents d (some (pack_all rs)), scan_all-pack_all d rs h),
  record { packed = refl; written = h; counted = (le_max_tx_id 0 rs).1 },
)

All-weaken :
    (n m : ℕ) (rs : List Record)
    → n ≤ m
    → All (λ r. transaction_id r ≤ n) rs
    → All (λ r. transaction_id r ≤ m) rs
All-weaken n m [] h a = tt
All-weaken n m (r ∷ rs) h a = (omega arith, All-weaken n m rs h a.1)

-- Appending a whole record that has been counted.
Holds-append :
    (d : Digest) (log : Log) (rs : List Record) (r : Record) (counter : ℕ)
    → Holds d log rs
    → IsWritten d r
    → log.tx_counter ≤ counter
    → transaction_id r ≤ counter
    → Holds d (append_bytes (pack_record r) (record log { tx_counter = counter })) (rs ++ r ∷ [])
Holds-append d log rs r counter h w le own = record {
  packed = rw (h.packed) (sym (pack_all-snoc rs r));
  written = All-append (IsWritten d) rs (r ∷ []) h.written (w, tt);
  counted =
      All-append (λ s. transaction_id s ≤ counter) rs (r ∷ [])
        (All-weaken _ counter rs le h.counted) (own, tt);
}

fits-begin :
    (d : Digest) (ts tx node m : ℕ)
    → (fits 8 ts && (fits 8 tx && (fits 8 node && fits 4 m))) ≡ true
    → IsWritten d (begin_delete (begin_record d ts tx node m))
fits-begin d ts tx node m h = (ground arith, ground arith, ground arith, ground arith, refl)

fits-commit :
    (d : Digest) (ts tx : ℕ)
    → (fits 8 ts && fits 8 tx) ≡ true
    → IsWritten d (commit (commit_record d ts tx))
fits-commit d ts tx h = (ground arith, ground arith, refl)

write_begin-Holds :
    (d : Digest) (ts tx node m : ℕ) (log : Log) (rs : List Record) (counter : ℕ) {b : BeginDelete}
    {log' : Log}
    → Holds d log rs
    → log.tx_counter ≤ counter
    → tx ≤ counter
    → write_begin d ts tx node m (record log { tx_counter = counter }) ≡ (ok b, log')
    → (b ≡ begin_record d ts tx node m) × Holds d log' (rs ++ begin_delete b ∷ [])
unfolding write_begin
write_begin-Holds d ts tx node m log rs counter {b} {log'} h le own e =
    elim (if-cases (fits 8 ts && (fits 8 tx && (fits 8 node && fits 4 m))) e) [
      | inl (t, good) ↦
          let same : begin_record d ts tx node m ≡ b = cc (ap (λ p. p.0) good) in
          (
            sym same,
            subst₂ (λ x l. Holds d l (rs ++ begin_delete x ∷ [])) same (ap (λ p. p.1) good)
                (Holds-append d log rs (begin_delete (begin_record d ts tx node m)) counter h
                  (fits-begin d ts tx node m t) le own),
          )
      | inr (f, bad) ↦ absurd (cc (ap (λ p. p.0) bad))
    ]

-- An `append_begin_delete` that returns has written exactly the record that it returns, behind the
-- records of the log, with the given arguments and, where none was given, the next transaction id.
pub append_begin_delete-Holds :
    (d : Digest) (node m : ℕ) (tx ts : Option ℕ) (now : ℕ) (log : Log) (rs : List Record)
    {b : BeginDelete} {log' : Log}
    → Holds d log rs
    → append_begin_delete d (pos node) (pos m) tx ts now log ≡ (ok b, log')
    → (b ≡ begin_record d (or_now ts now) (choose_tx log.tx_counter tx).0 node m)
      × Holds d log' (rs ++ begin_delete b ∷ [])
unfolding append_begin_delete
append_begin_delete-Holds d node zero tx ts now log rs h e = absurd (cc (ap (λ p. p.0) e))
append_begin_delete-Holds d node (suc m) none ts now log rs h e =
    write_begin-Holds d (or_now ts now) (suc log.tx_counter) node (suc m) log rs
      (suc log.tx_counter) h (omega arith) (omega arith) e
append_begin_delete-Holds d node (suc m) (some tx) ts now log rs h e =
    write_begin-Holds d (or_now ts now) tx node (suc m) log rs (max log.tx_counter tx) h
      (omega arith) (omega arith) e

-- A COMMIT of a transaction that the log has counted.
pub append_commit-Holds :
    (d : Digest) (tx : ℕ) (ts : Option ℕ) (now : ℕ) (log : Log) (rs : List Record) {c : Commit}
    {log' : Log}
    → Holds d log rs
    → tx ≤ log.tx_counter
    → append_commit d tx ts now log ≡ (ok c, log')
    → (c ≡ commit_record d (or_now ts now) tx) × Holds d log' (rs ++ commit c ∷ [])
unfolding append_commit
append_commit-Holds d tx ts now log rs {c} {log'} h le e =
    elim (if-cases (fits 8 (or_now ts now) && fits 8 tx) e) [
      | inl (t, good) ↦
          let same : commit_record d (or_now ts now) tx ≡ c = cc (ap (λ p. p.0) good) in
          (
            sym same,
            subst₂ (λ x l. Holds d l (rs ++ commit x ∷ [])) same (ap (λ p. p.1) good)
                (Holds-append d log rs (commit (commit_record d (or_now ts now) tx)) log.tx_counter
                  h (fits-commit d (or_now ts now) tx t) (omega arith) le),
          )
      | inr (f, bad) ↦ absurd (cc (ap (λ p. p.0) bad))
    ]

pub is_committed-append :
    (tx : ℕ) (rs ss : List Record)
    → is_committed tx (rs ++ ss) ≡ is_committed tx rs || is_committed tx ss
unfolding is_committed
is_committed-append tx [] ss = refl
is_committed-append tx (begin_delete b ∷ rs) ss = is_committed-append tx rs ss
is_committed-append tx (commit c ∷ rs) ss = ground (arith, is_committed-append tx rs ss)

-- An id above the counter is in no record.
pub not-is_committed :
    (n tx : ℕ) (rs : List Record)
    → All (λ r. transaction_id r ≤ n) rs
    → n < tx
    → is_committed tx rs ≡ false
unfolding is_committed
not-is_committed n tx [] a h = refl
not-is_committed n tx (begin_delete b ∷ rs) a h = not-is_committed n tx rs a.1 h
not-is_committed n tx (commit c ∷ rs) a h = ground (arith, not-is_committed n tx rs)

pub last_begin-snoc :
    (tx : ℕ) (rs : List Record) (b : BeginDelete)
    → last_begin tx (rs ++ begin_delete b ∷ [])
      ≡ (if b.transaction_id == tx then some b else last_begin tx rs)
unfolding last_begin
last_begin-snoc tx [] b = refl
last_begin-snoc tx (begin_delete b' ∷ rs) b = ground (arith, last_begin-snoc tx rs b)
last_begin-snoc tx (commit c ∷ rs) b = last_begin-snoc tx rs b

pub last_begin-commit :
    (tx : ℕ) (rs : List Record) (c : Commit)
    → last_begin tx (rs ++ commit c ∷ []) ≡ last_begin tx rs
unfolding last_begin
last_begin-commit tx [] c = refl
last_begin-commit tx (begin_delete b ∷ rs) c = rw (last_begin-commit tx rs c)
last_begin-commit tx (commit c' ∷ rs) c = last_begin-commit tx rs c
