-- ===== src/Wal/Log.antt =====
-- The `WriteAheadLog` object of api/wal.py: the file, the transaction counter and the appending
-- methods. A write of the source is one `write` and an fsync; a crash in it leaves a torn tail,
-- which `Wal.Torn` and `Persistence` treat. The clock (`time.time_ns`) is the argument `now`.
use unlearning.Prelude.{
  ℕ, zero, suc, ◌^◌, Bool, ◌&&◌, Option, none, some, List, [], ◌∷◌, ◌++◌, max, ltb, if◌then◌else◌,
  Result, ok, raise, value_error, struct_error, ◌>>=◌, ℤ, pos, negsuc,
}
use unlearning.Prelude.Text.{codes}
use unlearning.Wal.Codec.{
  Bytes, Digest, BeginDelete, Commit, Record, begin_delete, commit, checksum_begin, checksum_commit,
  pack_record,
}
use unlearning.Wal.Scan.{iter_records}

pub record Log : Type 0 where
  pub file : Option Bytes
  pub tx_counter : ℕ

-- The loop body of `_recover_max_tx_id`
abbrev pub transaction_id : Record → ℕ
transaction_id (begin_delete b) = b.transaction_id
transaction_id (commit c) = c.transaction_id

unfoldable pub max_tx_id : ℕ → List Record → ℕ
max_tx_id max_id [] = max_id
max_tx_id max_id (r ∷ rs) = max_tx_id (max max_id (transaction_id r)) rs

-- `_recover_max_tx_id`
unfoldable pub recover_max_tx_id : Digest → Option Bytes → Result ℕ
unfolding max_tx_id
recover_max_tx_id d file = do rs ← iter_records d file; ok (max_tx_id 0 rs)

-- `__init__`
unfoldable pub open_log : Digest → Option Bytes → Result Log
open_log d file = do n ← recover_max_tx_id d file; ok (record { file = file; tx_counter = n })

unfoldable pub next_transaction_id : Log → ℕ × Log
next_transaction_id log = (suc log.tx_counter, record log { tx_counter = suc log.tx_counter })

-- `open(self.path, "ab")` creates the file.
abbrev pub contents : Option Bytes → Bytes
contents none = []
contents (some file) = file

abbrev pub append_bytes : Bytes → Log → Log
append_bytes blob log = record log { file = some (contents log.file ++ blob) }

-- What `struct` accepts for a column of `w` bytes.
abbrev pub fits : ℕ → ℕ → Bool
fits w n = ltb n (256 ^ w)

-- The transaction id of the record, and the counter after it.
abbrev pub choose_tx : ℕ → Option ℕ → ℕ × ℕ
choose_tx counter none = (suc counter, suc counter)
choose_tx counter (some tx) = (tx, max counter tx)

abbrev pub or_now : Option ℕ → ℕ → ℕ
or_now none now = now
or_now (some ts) now = ts

abbrev pub begin_record : Digest → ℕ → ℕ → ℕ → ℕ → BeginDelete
begin_record d ts tx node m = record {
  timestamp = ts;
  transaction_id = tx;
  target_node_id = node;
  max_m = m;
  checksum = checksum_begin d ts tx node m;
}

abbrev pub commit_record : Digest → ℕ → ℕ → Commit
commit_record d ts tx = record {
  timestamp = ts;
  transaction_id = tx;
  checksum = checksum_commit d ts tx;
}

-- The counter has moved when `struct.pack` refuses a value; nothing is written then.
unfoldable pub write_begin : Digest → ℕ → ℕ → ℕ → ℕ → Log → Result BeginDelete × Log
write_begin d ts tx node m log =
    if fits 8 ts && (fits 8 tx && (fits 8 node && fits 4 m))
    then (
      ok (begin_record d ts tx node m),
      append_bytes (pack_record (begin_delete (begin_record d ts tx node m))) log,
    )
    else (raise (struct_error (codes "argument out of range")), log)

-- `append_begin_delete`
unfoldable pub append_begin_delete :
    Digest → ℤ → ℤ → Option ℕ → Option ℕ → ℕ → Log → Result BeginDelete × Log
unfolding write_begin
append_begin_delete d (negsuc n) max_m tx ts now log =
    (raise (value_error (codes "target_node_id must be non-negative")), log)
append_begin_delete d (pos node) (negsuc m) tx ts now log =
    (raise (value_error (codes "max_m must be positive")), log)
append_begin_delete d (pos node) (pos zero) tx ts now log =
    (raise (value_error (codes "max_m must be positive")), log)
append_begin_delete d (pos node) (pos (suc m)) tx ts now log =
    let (tx', counter) = choose_tx log.tx_counter tx in
    write_begin d (or_now ts now) tx' node (suc m) (record log { tx_counter = counter })

-- `append_commit`
unfoldable pub append_commit : Digest → ℕ → Option ℕ → ℕ → Log → Result Commit × Log
append_commit d tx ts now log =
    if fits 8 (or_now ts now) && fits 8 tx
    then (
      ok (commit_record d (or_now ts now) tx),
      append_bytes (pack_record (commit (commit_record d (or_now ts now) tx))) log,
    )
    else (raise (struct_error (codes "argument out of range")), log)
