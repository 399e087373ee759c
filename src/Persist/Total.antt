-- ===== src/Persist/Total.antt =====
-- How a durable delete ends (`hard_delete_and_heal` of api/persistence.py).
use unlearning.Prelude.{
  ℕ, suc, ◌<◌, ◌≡◌, refl, sym, ap, ◌∙◌, ◌^◌, ◌&&◌, Bool, true, false, Option, none, some, List, [],
  ◌∷◌, ◌++◌, arith, subst, Result, ok, raise, Exn, runtime_error, pos, if◌then◌else◌, not,
}
use unlearning.Wal.Codec.{Bytes, BeginDelete, Record, begin_delete}
use unlearning.Wal.Log.{write_begin, append_begin_delete, append_commit, fits}
use unlearning.Wal.Fresh.{Holds}
use unlearning.Erase.Types.{HardDeleteResult}
use unlearning.Persist.{
  Native, Store, EraseReport, append_begin, report_text, publish, saved, after_commit, after_flush,
  after_erase, after_begin, hard_delete_and_heal, atomic_flush_index,
}
use unlearning.Persist.Durable.{Begun, append_begin-Begun, Deleted, hard_delete_and_heal-Deleted}

abbrev pub returns {ℓ} : {A : Type ℓ} → Result A → Bool
returns (ok a) = true
returns (raise x) = false

module _ (nat : Native) where
  after_flush-returns :
      (node tx : ℕ) (report : EraseReport) (recovered : Bool) (s : Store nat) (snapshot : Bytes)
      → nat.save_index s.mem ≡ (ok tt, some snapshot)
      → (fits 8 (nat.unix_ns s.readings) && fits 8 tx) ≡ true
      → returns (after_flush nat node tx report recovered (atomic_flush_index nat s)).0 ≡ true
  unfolding after_flush atomic_flush_index append_commit after_commit saved
  after_flush-returns node tx report recovered s snapshot e fit = rw (e, fit) refl

  if_not-returns :
      (b : Bool) (x y : Result HardDeleteResult × Store nat)
      → b ≡ true
      → returns y.0 ≡ true
      → returns (if not b then x else y).0 ≡ true
  if_not-returns true x y e h = h
  if_not-returns false x y e h = absurd (cc)

  hard_delete_and_heal-returns :
      (node m : ℕ) (recovered : Bool) (s : Store nat) (report : EraseReport) (mem : nat.Mem)
      (snapshot : Bytes)
      → nat.unix_ns s.readings < 256 ^ 8
      → nat.unix_ns (suc s.readings) < 256 ^ 8
      → suc s.log.tx_counter < 256 ^ 8
      → node < 256 ^ 8
      → suc m < 256 ^ 4
      → nat.erase_node (pos node) (pos (suc m)) s.mem ≡ (ok report, mem)
      → report.success ≡ true
      → nat.save_index mem ≡ (ok tt, some snapshot)
      → returns (hard_delete_and_heal nat (pos node) (pos (suc m)) recovered s).0 ≡ true
  unfolding hard_delete_and_heal append_begin_delete write_begin after_begin after_erase
  hard_delete_and_heal-returns node m recovered s report mem snapshot now later fresh small degree
        erased success written =
      let fit : (fits 8 (nat.unix_ns s.readings)
            && (fits 8 (suc s.log.tx_counter) && (fits 8 node && fits 4 (suc m))))
          ≡ true =
        ground arith in
      let fit' : (fits 8 (nat.unix_ns (suc s.readings)) && fits 8 (suc s.log.tx_counter)) ≡ true =
        ground arith in
      rw (fit, erased)
        (if_not-returns report.success _ _ success (
          after_flush-returns node (suc s.log.tx_counter) report recovered _ snapshot written fit'))

  -- Whether the native index reports the wipe as done, and whether it writes its snapshot.
  abbrev pub erases : Result EraseReport × nat.Mem → Bool
  erases (ok report, mem) = report.success
  erases (raise x, mem) = false

  abbrev pub writes : Result (Unit {0}) × Option Bytes → Bool
  writes (ok u, some snapshot) = true
  writes (ok u, none) = false
  writes (raise x, tmp) = false

  abbrev pub succeeds : Result EraseReport × nat.Mem → Bool
  succeeds e = erases e && writes (nat.save_index e.1)

  -- Behind a wipe or a flush that failed.
  record IsOpen (s₁ : Store nat) (wiped : nat.Mem) (r : Result HardDeleteResult × Store nat)
      : Type 0 where
    error : Exn
    raised : r.0 ≡ raise error
    log : r.1.log ≡ s₁.log
    mem : r.1.mem ≡ wiped
    index : r.1.index_bin ≡ s₁.index_bin

  after_erase-IsOpen :
      (node tx : ℕ) (recovered : Bool) (s₁ : Store nat) (e : Result EraseReport × nat.Mem)
      → succeeds e ≡ false
      → IsOpen s₁ e.1 (after_erase nat node tx recovered (e.0, record s₁ { mem = e.1 }))
  unfolding after_erase after_flush atomic_flush_index saved publish
  after_erase-IsOpen node tx recovered s₁ (raise x, mem) h = record {
    error = x;
    raised = refl;
    log = refl;
    mem = refl;
    index = refl;
  }
  after_erase-IsOpen node tx recovered s₁ (ok report, mem) h =
      by_success report.success (nat.save_index mem) h
    where
      by_success :
          (success : Bool) (w : Result (Unit {0}) × Option Bytes)
          → (success && writes w) ≡ false
          → IsOpen s₁ mem (
              if not success
              then (
                raise (runtime_error (report_text nat [] report.message)),
                record s₁ { mem = mem },
              )
              else after_flush nat node tx report recovered
                  (saved nat (record s₁ { mem = mem; index_tmp = none }) w))
      by_success false w h = record {
        error = _;
        raised = refl;
        log = refl;
        mem = refl;
        index = refl;
      }
      by_success true (raise x, tmp) h = record {
        error = x;
        raised = refl;
        log = refl;
        mem = refl;
        index = refl;
      }
      by_success true (ok u, none) h = record {
        error = _;
        raised = refl;
        log = refl;
        mem = refl;
        index = refl;
      }
      by_success true (ok u, some snapshot) h = absurd (cc h)

  -- How a durable delete ends, by whether the native index did its part: deleted, or with an
  -- exception, the wiped memory, the index file as it was and the delete's own BEGIN uncommitted at the
  -- end of the log.
  pub data Ended (node m : ℕ) (s : Store nat) (rs : List Record)
      : Bool → Result HardDeleteResult × Store nat → Type 0 where
    deleted :
        {result : HardDeleteResult} {s' : Store nat}
        → Deleted nat node m s rs result s'
        → Ended node m s rs true (ok result, s')
    left_open :
        {x : Exn} {s' : Store nat} (b : BeginDelete)
        → b.target_node_id ≡ node
        → b.max_m ≡ m
        → s.log.tx_counter < b.transaction_id
        → Holds nat.digest s'.log (rs ++ begin_delete b ∷ [])
        → s'.mem ≡ (nat.erase_node (pos node) (pos m) s.mem).1
        → s'.index_bin ≡ s.index_bin
        → Ended node m s rs false (raise x, s')

  returned-Ended :
      (node m : ℕ) (recovered : Bool) (s : Store nat) (rs : List Record)
      → Holds nat.digest s.log rs
      → returns (hard_delete_and_heal nat (pos node) (pos m) recovered s).0 ≡ true
      → Ended node m s rs true (hard_delete_and_heal nat (pos node) (pos m) recovered s)
  returned-Ended node m recovered s rs holds h =
      by_result (hard_delete_and_heal nat (pos node) (pos m) recovered s) refl h
    where
      by_result :
          (r : Result HardDeleteResult × Store nat)
          → hard_delete_and_heal nat (pos node) (pos m) recovered s ≡ r
          → returns r.0 ≡ true
          → Ended node m s rs true r
      by_result (ok result, s') e h =
          deleted (hard_delete_and_heal-Deleted nat node m recovered s rs holds e)
      by_result (raise x, s') e h = absurd (cc h)

  raised-Ended :
      (node m : ℕ) (s : Store nat) (rs : List Record) (b : BeginDelete) (s₁ : Store nat)
      (r : Result HardDeleteResult × Store nat)
      → Begun nat node m s rs b s₁
      → IsOpen s₁ (nat.erase_node (pos b.target_node_id) (pos b.max_m) s₁.mem).1 r
      → Ended node m s rs false r
  raised-Ended node m s rs b s₁ (ok result, s') begun o = absurd (cc o.raised)
  raised-Ended node m s rs b s₁ (raise x, s') begun o =
      left_open b begun.target begun.degree begun.fresh
        (subst (λ l. Holds nat.digest l (rs ++ begin_delete b ∷ [])) (sym o.log) begun.held)
        (o.mem ∙ rw (begun.target, begun.degree, begun.mem) refl) (o.index ∙ begun.index)

  failed-Ended :
      (node m : ℕ) (recovered : Bool) (s : Store nat) (rs : List Record)
      → Holds nat.digest s.log rs
      → returns (append_begin nat (pos node) (pos m) s).0 ≡ true
      → succeeds (nat.erase_node (pos node) (pos m) s.mem) ≡ false
      → Ended node m s rs false (hard_delete_and_heal nat (pos node) (pos m) recovered s)
  unfolding hard_delete_and_heal after_begin
  failed-Ended node m recovered s rs holds begins h =
      by_begin (append_begin nat (pos node) (pos m) s) refl begins
    where
      by_begin :
          (r : Result BeginDelete × Store nat)
          → append_begin nat (pos node) (pos m) s ≡ r
          → returns r.0 ≡ true
          → Ended node m s rs false (after_begin nat recovered r)
      by_begin (raise x, s₁) e h = absurd (cc h)
      by_begin (ok b, s₁) e begins =
          let begun = append_begin-Begun nat node m s rs holds e in
          raised-Ended node m s rs b s₁ _ begun (
            after_erase-IsOpen b.target_node_id b.transaction_id recovered s₁
              (nat.erase_node (pos b.target_node_id) (pos b.max_m) s₁.mem)
              (rw (begun.target, begun.degree, begun.mem) h))

  -- A durable delete over a log of whole records, whose numbers fit their columns: it returns exactly
  -- when the native index reports success and its snapshot is written, and the delete is then done, as
  -- `Deleted` has it; otherwise an exception leaves the index file as it was and the delete uncommitted.
  pub hard_delete_and_heal-Ended :
      (node m : ℕ) (recovered : Bool) (s : Store nat) (rs : List Record)
      → Holds nat.digest s.log rs
      → nat.unix_ns s.readings < 256 ^ 8
      → nat.unix_ns (suc s.readings) < 256 ^ 8
      → suc s.log.tx_counter < 256 ^ 8
      → node < 256 ^ 8
      → suc m < 256 ^ 4
      → Ended node
          (suc m)
          s
          rs
          (succeeds (nat.erase_node (pos node) (pos (suc m)) s.mem))
          (hard_delete_and_heal nat (pos node) (pos (suc m)) recovered s)
  unfolding append_begin_delete write_begin
  hard_delete_and_heal-Ended node m recovered s rs holds now later fresh small degree =
      by_erase (nat.erase_node (pos node) (pos (suc m)) s.mem) refl
    where
      begins : returns (append_begin nat (pos node) (pos (suc m)) s).0 ≡ true
      begins =
          let fit : (fits 8 (nat.unix_ns s.readings)
                && (fits 8 (suc s.log.tx_counter) && (fits 8 node && fits 4 (suc m))))
              ≡ true =
            ground arith in
          rw fit refl

      done : Bool → Type 0
      done b =
          Ended node (suc m) s rs b (hard_delete_and_heal nat (pos node) (pos (suc m)) recovered s)

      failed :
          {e : Result EraseReport × nat.Mem}
          → nat.erase_node (pos node) (pos (suc m)) s.mem ≡ e
          → succeeds e ≡ false
          → done (succeeds e)
      failed {e} same h =
          subst done (sym h)
            (failed-Ended node (suc m) recovered s rs holds begins (ap succeeds same ∙ h))

      by_write :
          {report : EraseReport} {mem : nat.Mem} (success : Bool)
          (w : Result (Unit {0}) × Option Bytes)
          → nat.erase_node (pos node) (pos (suc m)) s.mem ≡ (ok report, mem)
          → report.success ≡ success
          → nat.save_index mem ≡ w
          → done (report.success && writes (nat.save_index mem))
      by_write {report} {mem} true (ok u, some snapshot) same good written =
          rw (good, written)
            (returned-Ended node (suc m) recovered s rs holds (
              hard_delete_and_heal-returns node m recovered s report mem snapshot now later fresh
                small degree same good written))
      by_write true (ok u, none) same good written = failed same (rw (good, written) refl)
      by_write true (raise x, tmp) same good written = failed same (rw (good, written) refl)
      by_write false w same good written = failed same (rw good refl)

      by_erase :
          (e : Result EraseReport × nat.Mem)
          → nat.erase_node (pos node) (pos (suc m)) s.mem ≡ e
          → done (succeeds e)
      by_erase (raise x, mem) same = failed same refl
      by_erase (ok report, mem) same = by_write report.success (nat.save_index mem) same refl refl
