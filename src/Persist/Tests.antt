-- ===== src/Persist/Tests.antt =====
-- Instances for api/persistence.py: an engine over an index of rows.
use unlearning.Prelude.{
  arith, ℕ, zero, suc, ◌<◌, ◌≡◌, refl, ◌⊎◌, Bool, true, false, Option, none, some, List, [], ◌∷◌,
  length, ◌==◌, ltb, if◌then◌else◌, Result, ok, raise, value_error, Exn, ℤ, pos, negsuc,
}
use unlearning.Wal.Codec.{Record, begin_delete}
use unlearning.Wal.Pending.{pending_of, uncommitted_deletes}
use unlearning.Wal.Tests.{toy, log₀, log₁, first, log₀-Holds, log₁-Holds}
use unlearning.Erase.Types.{HardDeleteResult}
use unlearning.Persist.{
  Native, Store, EraseReport, hard_delete_and_heal, recover_uncommitted, atomic_flush_index,
}
use unlearning.Persist.Flush.{IsFlush, atomic_flush_index-IsFlush}
use unlearning.Persist.Durable.{Deleted, hard_delete_and_heal-Deleted}
use unlearning.Persist.Total.{returns, succeeds, Ended, hard_delete_and_heal-Ended}
use unlearning.Persist.Recovery.{recover_uncommitted-none, recover_uncommitted-refused}

abbrev zero_row : ℕ → List ℕ → List ℕ
zero_row n [] = []
zero_row zero (x ∷ xs) = 0 ∷ xs
zero_row (suc n) (x ∷ xs) = x ∷ zero_row n xs

abbrev erase_row : ℤ → ℤ → List ℕ → Result EraseReport × List ℕ
erase_row (negsuc n) max_m rows = (raise (value_error []), rows)
erase_row (pos n) max_m rows = (
  ok (record { success = ltb n (length rows); message = none; bytes_wiped = 4 }),
  zero_row n rows,
)

abbrev toy_native : Native
toy_native = record {
  Mem = List ℕ;
  erase_node = erase_row;
  save_index = λ rows. (ok tt, some rows);
  load_index_file = λ file rows. (ok tt, file);
  is_loaded = λ rows. ltb 0 (length rows);
  unix_ns = λ n. n;
  digest = toy;
}

abbrev store : Store toy_native
store = record { log = log₀; mem = 7 ∷ 8 ∷ []; index_bin = none; index_tmp = none; readings = 0 }

-- A crash left the BEGIN of node 42; the index has 43 rows.
abbrev rows : ℕ → List ℕ
rows zero = []
rows (suc n) = 5 ∷ rows n

abbrev crashed : Store toy_native
crashed = record { log = log₁; mem = rows 43; index_bin = none; index_tmp = none; readings = 0 }

-- The same log over an index that has no node 42.
abbrev shrunk : Store toy_native
shrunk = record { log = log₁; mem = rows 2; index_bin = none; index_tmp = none; readings = 0 }

atomic_flush_index-IsFlush_example :
    ((atomic_flush_index toy_native store).1.log ≡ log₀)
    × ((atomic_flush_index toy_native store).1.mem ≡ 7 ∷ 8 ∷ [])
    × IsFlush toy_native store (atomic_flush_index toy_native store)
atomic_flush_index-IsFlush_example = atomic_flush_index-IsFlush toy_native store

abbrev or_else {ℓ} : {A : Type ℓ} → A → Result A → A
or_else a (ok r) = r
or_else a (raise x) = a

returns-eq {ℓ} :
    {A : Type ℓ} (a : A) (m : Result A × Store toy_native)
    → returns m.0 ≡ true
    → m ≡ (ok (or_else a m.0), m.1)
returns-eq a (ok r, s) h = refl
returns-eq a (raise x, s) h = absurd (cc)

abbrev blank : HardDeleteResult
blank = record {
  success = false;
  node_id = 0;
  transaction_id = 0;
  message = none;
  bytes_wiped = 0;
  recovered = false;
}

abbrev deleted : Result HardDeleteResult × Store toy_native
deleted = hard_delete_and_heal toy_native (pos 1) (pos 16) false store

abbrev recovered : Result (List HardDeleteResult) × Store toy_native
recovered = recover_uncommitted toy_native crashed

program : Unit {0}
unfolding unlearning.Prelude.Dict.get unlearning.Prelude.Dict.put
    unlearning.Prelude.Sort.insert_sorted unlearning.Prelude.Sort.sorted
    unlearning.Wal.Codec.le_bytes unlearning.Wal.Codec.from_le unlearning.Wal.Codec.checksum_begin
    unlearning.Wal.Codec.checksum_commit unlearning.Wal.Codec.pack_begin
    unlearning.Wal.Codec.pack_commit unlearning.Wal.Codec.pack_record unlearning.Wal.Codec.pack_all
    unlearning.Wal.Scan.read_begin unlearning.Wal.Scan.read_commit unlearning.Wal.Scan.next_record
    unlearning.Wal.Scan.scan unlearning.Wal.Scan.scan_all unlearning.Wal.Scan.iter_records
    unlearning.Wal.Log.write_begin unlearning.Wal.Log.append_begin_delete
    unlearning.Wal.Log.append_commit unlearning.Wal.Pending.collect_begins
    unlearning.Wal.Pending.is_committed unlearning.Wal.Pending.select_pending
    unlearning.Wal.Pending.pending_of unlearning.Wal.Pending.uncommitted_deletes
    unlearning.Persist.publish unlearning.Persist.saved unlearning.Persist.atomic_flush_index
    unlearning.Persist.after_commit unlearning.Persist.after_flush unlearning.Persist.after_erase
    unlearning.Persist.after_begin unlearning.Persist.hard_delete_and_heal unlearning.Persist.retire
    unlearning.Persist.replay_one unlearning.Persist.replay_all unlearning.Persist.recover_pending
    unlearning.Persist.recover_uncommitted unlearning.Wal.Tests.toy_sha
program = tt

deleted-returns : returns deleted.0 ≡ true
unfolding program
deleted-returns = refl

recovered-returns : returns recovered.0 ≡ true
unfolding program
recovered-returns = refl

hard_delete_and_heal-Deleted_example :
    Deleted toy_native 1 16 store [] (or_else blank deleted.0) deleted.1
hard_delete_and_heal-Deleted_example =
    hard_delete_and_heal-Deleted toy_native 1 16 false store [] log₀-Holds
      (returns-eq blank deleted deleted-returns)

recover_uncommitted-none_example : uncommitted_deletes toy recovered.1.log.file ≡ ok []
recover_uncommitted-none_example =
    recover_uncommitted-none toy_native crashed (begin_delete first ∷ []) log₁-Holds refl
      (returns-eq [] recovered recovered-returns)

pending_first : pending_of (begin_delete first ∷ []) ≡ first ∷ []
unfolding program
pending_first = refl

recover_uncommitted-refused_example :
    (x : Exn) × ((recover_uncommitted toy_native shrunk).0 ≡ raise x)
recover_uncommitted-refused_example =
    recover_uncommitted-refused toy_native shrunk (begin_delete first ∷ []) first [] log₁-Holds refl
      pending_first refl refl

hard_delete_and_heal-Ended_example :
    Ended toy_native 1 16 store []
      (succeeds toy_native (toy_native.erase_node (pos 1) (pos 16) store.mem))
      (hard_delete_and_heal toy_native (pos 1) (pos 16) false store)
hard_delete_and_heal-Ended_example =
    hard_delete_and_heal-Ended toy_native 1 15 false store [] log₀-Holds (omega arith) (omega arith)
      (omega arith) (omega arith) (omega arith)
