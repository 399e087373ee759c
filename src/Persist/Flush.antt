-- ===== src/Persist/Flush.antt =====
-- The publication of a snapshot (`atomic_flush_index` of api/persistence.py).
use unlearning.Prelude.{◌≡◌, refl, Option, none, some, Result, ok, raise, Exn}
use unlearning.Wal.Codec.{Bytes}
use unlearning.Persist.{Native, Store, saved, atomic_flush_index}

module _ (nat : Native) where
  -- What is kept and what is published: the memory's snapshot, whole, or the index as it was.
  pub data IsFlush (s : Store nat) (r : Result (Unit {0}) × Store nat) : Type 0 where
    published :
        (snapshot : Bytes)
        → nat.save_index s.mem ≡ (ok tt, some snapshot)
        → r.0 ≡ ok tt
        → r.1.index_bin ≡ some snapshot
        → r.1.index_tmp ≡ none
        → IsFlush s r
    refused : (x : Exn) → r.0 ≡ raise x → r.1.index_bin ≡ s.index_bin → IsFlush s r

  -- A flush leaves the log and the memory alone. It returns with the index file holding exactly what
  -- the native code wrote of the memory, and no temporary file, or it raises and the index file is as
  -- it was.
  pub atomic_flush_index-IsFlush :
      (s : Store nat)
      → ((atomic_flush_index nat s).1.log ≡ s.log)
        × ((atomic_flush_index nat s).1.mem ≡ s.mem)
        × IsFlush s (atomic_flush_index nat s)
  unfolding atomic_flush_index saved
  atomic_flush_index-IsFlush s = by_result (nat.save_index s.mem) refl
    where
      by_result :
          (m : Result (Unit {0}) × Option Bytes)
          → nat.save_index s.mem ≡ m
          → ((saved nat (record s { index_tmp = none }) m).1.log ≡ s.log)
            × ((saved nat (record s { index_tmp = none }) m).1.mem ≡ s.mem)
            × IsFlush s (saved nat (record s { index_tmp = none }) m)
      by_result (raise x, tmp) e = (refl, refl, refused x refl refl)
      by_result (ok u, none) e = (refl, refl, refused _ refl refl)
      by_result (ok u, some snapshot) e = (refl, refl, published snapshot e refl refl refl)
