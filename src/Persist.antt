-- ===== src/Persist.antt =====
-- api/persistence.py: the durable engine. It writes a BEGIN to the log, lets the native index wipe
-- the node, publishes a snapshot by a rename, and writes the COMMIT. The native index is a
-- parameter. A method returns the store as it leaves it, also where it raises.
pub mod Flush
pub mod Durable
pub mod Recovery
pub mod Total
pub mod Tests
use unlearning.Prelude.{
  ℕ, suc, Bool, true, false, not, Option, none, some, List, [], ◌∷◌, ◌==◌, if◌then◌else◌, Str,
  Result, ok, raise, runtime_error, os_error, ◌>>=◌, ℤ, pos,
}
use unlearning.Prelude.Text.{codes}
use unlearning.Erase.Types.{HardDeleteResult}
use unlearning.Wal.Codec.{Bytes, Digest, BeginDelete, Commit}
use unlearning.Wal.Log.{Log, open_log, append_begin_delete, append_commit}
use unlearning.Wal.Pending.{uncommitted_deletes}

-- What `hnsw_healer.erase_node` reports.
pub record EraseReport : Type 0 where
  pub success : Bool
  pub message : Option Str
  pub bytes_wiped : ℕ

-- The native index behind `hnsw_healer`, and the clock.
pub record Native : Type 1 where
  pub Mem : Type 0
  pub erase_node : ℤ → ℤ → Mem → Result EraseReport × Mem
  -- `save_index(path)`: whether it raises, and what then stands at the path
  pub save_index : Mem → Result (Unit {0}) × Option Bytes
  -- `load_index_file(path)`, given what stands there
  pub load_index_file : Bytes → Mem → Result (Unit {0}) × Mem
  pub is_loaded : Mem → Bool
  -- the `n`-th reading of the clock
  pub unix_ns : ℕ → ℕ
  pub digest : Digest

pub record Store (nat : Native) : Type 0 where
  pub log : Log
  pub mem : nat.Mem
  pub index_bin : Option Bytes
  pub index_tmp : Option Bytes
  pub readings : ℕ

-- `index.bin` and `index.bin.tmp`, and whether the replace can find the temporary file.
abbrev pub missing_tmp : Str
missing_tmp = codes "No such file or directory: index.bin.tmp"

module _ (nat : Native) where
  -- The end of `atomic_flush_index`: `open` raises where the snapshot was not written.
  unfoldable pub publish : Option Bytes → Store nat → Result (Unit {0}) × Store nat
  publish none s = (raise (os_error missing_tmp), s)
  publish (some snapshot) s = (ok tt, record s { index_bin = some snapshot; index_tmp = none })

  -- Behind `save_index`.
  unfoldable pub saved :
      Store nat → Result (Unit {0}) × Option Bytes → Result (Unit {0}) × Store nat
  unfolding publish
  saved s (raise x, tmp) = (raise x, record s { index_tmp = tmp })
  saved s (ok u, tmp) = publish tmp (record s { index_tmp = tmp })

  unfoldable pub atomic_flush_index : Store nat → Result (Unit {0}) × Store nat
  atomic_flush_index s = saved (record s { index_tmp = none }) (nat.save_index s.mem)

  abbrev pub append_begin : ℤ → ℤ → Store nat → Result BeginDelete × Store nat
  append_begin node max_m s =
      let (r, log) =
        append_begin_delete nat.digest node max_m none none (nat.unix_ns s.readings) s.log in
      (r, record s { log = log; readings = suc s.readings })

  abbrev pub commit_tx : ℕ → Store nat → Result Commit × Store nat
  commit_tx tx s =
      let (r, log) = append_commit nat.digest tx none (nat.unix_ns s.readings) s.log in
      (r, record s { log = log; readings = suc s.readings })

  abbrev pub report_text : Str → Option Str → Str
  report_text default none = codes "None"
  report_text default (some m) = m

  abbrev pub result_of : ℕ → ℕ → EraseReport → Bool → HardDeleteResult
  result_of node tx report recovered = record {
    success = true;
    node_id = node;
    transaction_id = tx;
    message = report.message;
    bytes_wiped = report.bytes_wiped;
    recovered = recovered;
  }

  -- Behind the COMMIT.
  unfoldable pub after_commit :
      ℕ → ℕ → EraseReport → Bool → Result Commit × Store nat → Result HardDeleteResult × Store nat
  after_commit node tx report recovered (raise x, s) = (raise x, s)
  after_commit node tx report recovered (ok c, s) = (ok (result_of node tx report recovered), s)

  -- Behind the flush.
  unfoldable pub after_flush :
      ℕ
      → ℕ
      → EraseReport
      → Bool
      → Result (Unit {0}) × Store nat
      → Result HardDeleteResult × Store nat
  after_flush node tx report recovered (raise x, s) = (raise x, s)
  after_flush node tx report recovered (ok u, s) =
      after_commit node tx report recovered (commit_tx tx s)

  -- Behind the wipe.
  unfoldable pub after_erase :
      ℕ → ℕ → Bool → Result EraseReport × Store nat → Result HardDeleteResult × Store nat
  after_erase node tx recovered (raise x, s) = (raise x, s)
  after_erase node tx recovered (ok report, s) =
      if not report.success
      then (raise (runtime_error (report_text [] report.message)), s)
      else after_flush node tx report recovered (atomic_flush_index s)

  abbrev pub erase_at : ℤ → ℤ → Store nat → Result EraseReport × Store nat
  erase_at node max_m s =
      let (r, mem) = nat.erase_node node max_m s.mem in (r, record s { mem = mem })

  -- Behind the BEGIN: the node and the degree are as the record has them.
  unfoldable pub after_begin :
      Bool → Result BeginDelete × Store nat → Result HardDeleteResult × Store nat
  after_begin recovered (raise x, s) = (raise x, s)
  after_begin recovered (ok b, s) =
      after_erase b.target_node_id b.transaction_id recovered
        (erase_at (pos b.target_node_id) (pos b.max_m) s)

  unfoldable pub hard_delete_and_heal :
      ℤ → ℤ → Bool → Store nat → Result HardDeleteResult × Store nat
  hard_delete_and_heal node max_m recovered s = after_begin recovered (append_begin node max_m s)

  abbrev pub after_retire :
      HardDeleteResult → Result Commit × Store nat → Result HardDeleteResult × Store nat
  after_retire result (raise x, s) = (raise x, s)
  after_retire result (ok c, s) = (ok result, s)

  -- The second COMMIT of `_replay_one`.
  unfoldable pub retire :
      BeginDelete → Result HardDeleteResult × Store nat → Result HardDeleteResult × Store nat
  retire rec (raise x, s) = (raise x, s)
  retire rec (ok result, s) =
      if rec.transaction_id == result.transaction_id
      then (ok result, s)
      else after_retire result (commit_tx rec.transaction_id s)

  -- `_replay_one`: the same steps as a delete under a new BEGIN, and the COMMIT of the old one.
  unfoldable pub replay_one : BeginDelete → Store nat → Result HardDeleteResult × Store nat
  replay_one rec s =
      retire rec (hard_delete_and_heal (pos rec.target_node_id) (pos rec.max_m) true s)

  -- The loop of `recover_uncommitted`: `more` goes on with the pending deletes behind this one.
  abbrev pub after_replay :
      (Store nat → Result (List HardDeleteResult) × Store nat)
      → Result HardDeleteResult × Store nat
      → Result (List HardDeleteResult) × Store nat
  after_replay more (raise x, s) = (raise x, s)
  after_replay more (ok result, s) =
      let (rest, s') = more s in ((do results ← rest; ok (result ∷ results)), s')

  unfoldable pub replay_all :
      List BeginDelete → Store nat → Result (List HardDeleteResult) × Store nat
  replay_all [] s = (ok [], s)
  replay_all (rec ∷ recs) s = after_replay (replay_all recs) (replay_one rec s)

  unfoldable pub recover_pending :
      Result (List BeginDelete) → Store nat → Result (List HardDeleteResult) × Store nat
  recover_pending (raise x) s = (raise x, s)
  recover_pending (ok pending) s = if nat.is_loaded s.mem then replay_all pending s else (ok [], s)

  unfoldable pub recover_uncommitted : Store nat → Result (List HardDeleteResult) × Store nat
  recover_uncommitted s = recover_pending (uncommitted_deletes nat.digest s.log.file) s

  unfoldable pub load_index_if_present : Store nat → Result Bool × Store nat
  load_index_if_present s = elim s.index_bin [
    | none ↦ (ok false, s)
    | some file ↦
        let (r, mem) = nat.load_index_file file s.mem in
        ((do u ← r; ok true), record s { mem = mem })
  ]

  abbrev pub after_load :
      Result Bool × Store nat → Result (Bool × List HardDeleteResult) × Store nat
  after_load (raise x, s) = (raise x, s)
  after_load (ok loaded, s) =
      let (r, s') = recover_uncommitted s in ((do results ← r; ok (loaded, results)), s')

  -- `bootstrap`: whether a checkpoint was loaded, and what was replayed.
  unfoldable pub bootstrap : Store nat → Result (Bool × List HardDeleteResult) × Store nat
  bootstrap s = after_load (load_index_if_present s)

  unfoldable pub save_initial_checkpoint : Store nat → Result (Unit {0}) × Store nat
  save_initial_checkpoint s =
      if not (nat.is_loaded s.mem)
      then (raise (runtime_error (codes "cannot checkpoint: no index loaded")), s)
      else atomic_flush_index s

  -- `__init__` over the files of the data directory.
  unfoldable pub open_engine :
      Option Bytes → Option Bytes → Option Bytes → nat.Mem → Result (Store nat)
  open_engine wal index tmp mem = do
    log ← open_log nat.digest wal
    ok (record { log = log; mem = mem; index_bin = index; index_tmp = tmp; readings = 0 })
