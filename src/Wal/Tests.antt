-- ===== src/Wal/Tests.antt =====
-- Runs and instances for api/wal.py, with a toy digest.
use unlearning.Prelude.{
  ℕ, ◌%◌, ◌<◌, ◌≡◌, refl, none, some, List, [], ◌∷◌, ◌++◌, arith, length, take, All, ◌==◌,
  if◌then◌else◌, ok, raise, value_error, pos, negsuc,
}
use unlearning.Prelude.Dict.{get, put}
use unlearning.Prelude.Sort.{sorted}
use unlearning.Prelude.Text.{codes}
use unlearning.Wal.Codec.{
  Bytes, Digest, BeginDelete, Commit, Record, begin_delete, commit, le_bytes, from_le,
  checksum_begin, checksum_commit, pack_record, pack_all,
}
use unlearning.Wal.Scan.{next_record, read_begin, read_commit, scan, scan_all, iter_records}
use unlearning.Wal.Log.{
  Log, transaction_id, recover_max_tx_id, open_log, append_begin_delete, append_commit,
  begin_record, commit_record,
}
use unlearning.Wal.Pending.{
  pending_of, uncommitted_deletes, find_tx, is_committed, last_begin, find-pending_of,
}
use unlearning.Wal.Roundtrip.{IsWritten}
use unlearning.Wal.Torn.{scan_all-torn, scan_all-append_after_torn}
use unlearning.Wal.Fresh.{Holds}
use unlearning.Wal.Lifecycle.{append_begin_delete-pending, append_commit-pending}

-- A digest of one repeated byte.
abbrev repeat : ℕ → Bytes
repeat b =
    b ∷ b ∷ b ∷ b ∷ b ∷ b ∷ b ∷ b ∷ b ∷ b ∷ b ∷ b ∷ b ∷ b ∷ b ∷ b ∷ b ∷ b ∷ b ∷ b ∷ b ∷ b ∷ b ∷ b
    ∷ b ∷ b ∷ b ∷ b ∷ b ∷ b ∷ b ∷ b ∷ []

unfoldable pub toy_sha : Bytes → Bytes
unfolding from_le
toy_sha payload = repeat (from_le payload % 251)

pub length-toy_sha : (payload : Bytes) → length (toy_sha payload) ≡ 32
unfolding toy_sha
length-toy_sha payload = refl

abbrev pub toy : Digest
toy = record { sha256 = toy_sha; length-sha256 = length-toy_sha }

program : Unit {0}
unfolding toy_sha le_bytes checksum_begin checksum_commit pack_record pack_all next_record
    read_begin read_commit scan_all iter_records open_log recover_max_tx_id append_begin_delete
    append_commit pending_of sorted get put uncommitted_deletes scan
program = tt

abbrev pub first : BeginDelete
first = begin_record toy 1000 1 42 16

abbrev second : BeginDelete
second = begin_record toy 1007 2 43 16

abbrev closed : Commit
closed = commit_record toy 1005 1

abbrev pub log₀ : Log
log₀ = record { file = none; tx_counter = 0 }

abbrev pub log₁ : Log
log₁ = (append_begin_delete toy (pos 42) (pos 16) none none 1000 log₀).1

abbrev log₂ : Log
log₂ = (append_commit toy 1 none 1005 log₁).1

appended : append_begin_delete toy (pos 42) (pos 16) none none 1000 log₀ ≡ (ok first, log₁)
unfolding program
appended = refl

committed : append_commit toy 1 none 1005 log₁ ≡ (ok closed, log₂)
unfolding program
committed = refl

-- One delete is pending behind its BEGIN and none behind its COMMIT.
pending_run :
    (uncommitted_deletes toy log₁.file ≡ ok (first ∷ []))
    × (uncommitted_deletes toy log₂.file ≡ ok [])
unfolding program
pending_run = (refl, refl)

negative_node :
    (append_begin_delete toy (negsuc 0) (pos 16) none none 1000 log₀).0
    ≡ raise (value_error (codes "target_node_id must be non-negative"))
unfolding program
negative_node = refl

pub log₀-Holds : Holds toy log₀ []
unfolding program
log₀-Holds = record { packed = refl; written = tt; counted = tt }

pub log₁-Holds : Holds toy log₁ (begin_delete first ∷ [])
unfolding program
log₁-Holds = record {
  packed = refl;
  written = ((omega arith, omega arith, omega arith, omega arith, refl), tt);
  counted = omega arith;
}

append_begin_delete-pending_example :
    All (λ r. transaction_id r < 1) []
    × (uncommitted_deletes toy log₁.file ≡ ok (pending_of (begin_delete first ∷ [])))
    × ((t : ℕ)
        → find_tx t (pending_of (begin_delete first ∷ []))
          ≡ (if 1 == t then some first else find_tx t (pending_of [])))
append_begin_delete-pending_example =
    append_begin_delete-pending toy 42 16 none 1000 log₀ [] {b = first} {log' = log₁} log₀-Holds
      appended

append_commit-pending_example :
    (uncommitted_deletes toy log₂.file ≡ ok (pending_of (begin_delete first ∷ commit closed ∷ [])))
    × ((t : ℕ)
        → find_tx t (pending_of (begin_delete first ∷ commit closed ∷ []))
          ≡ (if 1 == t then none else find_tx t (pending_of (begin_delete first ∷ []))))
unfolding append_begin_delete
append_commit-pending_example =
    append_commit-pending toy 1 none 1005 log₁ (begin_delete first ∷ []) {c = closed} {log' = log₂}
      log₁-Holds (omega arith) committed

abbrev history : List Record
history = begin_delete first ∷ begin_delete second ∷ commit closed ∷ []

first-IsWritten : IsWritten toy (begin_delete first)
first-IsWritten = (omega arith, omega arith, omega arith, omega arith, refl)

history-IsWritten : All (IsWritten toy) history
history-IsWritten = (
  first-IsWritten,
  (
    (omega arith, omega arith, omega arith, omega arith, refl),
    ((omega arith, omega arith, refl), tt),
  ),
)

find-pending_of_example :
    find_tx 2 (pending_of history) ≡ (if is_committed 2 history then none else last_begin 2 history)
find-pending_of_example = find-pending_of 2 history

scan_all-torn_example :
    scan_all toy (pack_all history ++ take 40 (pack_record (begin_delete first))) ≡ ok history
scan_all-torn_example =
    scan_all-torn toy history (begin_delete first) 40 history-IsWritten (omega arith)

scan_all-append_after_torn_example :
    scan_all toy (
      pack_all history
      ++ (take 3 (pack_record (begin_delete first)) ++ (pack_record (commit closed) ++ [])))
    ≡ raise (value_error (codes "WAL corrupt"))
scan_all-append_after_torn_example =
    scan_all-append_after_torn toy history 3 (begin_delete first) (commit closed) []
      history-IsWritten (omega arith) (omega arith)
