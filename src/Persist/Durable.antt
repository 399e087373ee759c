-- ===== src/Persist/Durable.antt =====
-- The log and the index file over one durable delete (`hard_delete_and_heal` of api/persistence.py).
use unlearning.Prelude.{
  ◌&&◌, ℕ, suc, ◌≤◌, ◌<◌, ◌≡◌, refl, sym, ap, ◌∙◌, inl, inr, Bool, not, Option, none, some, List,
  [], ◌∷◌, ◌++◌, arith, All, ◌==◌, if◌then◌else◌, if-cases, Result, ok, raise, Exn, pos, subst,
}
use unlearning.Wal.Codec.{Bytes, Digest, BeginDelete, Commit, Record, begin_delete, commit}
use unlearning.Wal.Log.{Log, transaction_id, append_begin_delete, append_commit, fits, or_now}
use unlearning.Wal.Pending.{pending_of, find_tx, last_begin, find-pending_of}
use unlearning.Wal.Fresh.{Holds, append_begin_delete-Holds, append_commit-Holds, not-is_committed}
use unlearning.Wal.Lifecycle.{append_begin_delete-pending, append_commit-pending}
use unlearning.Erase.Types.{HardDeleteResult}
use unlearning.Persist.{
  Native, Store, EraseReport, append_begin, commit_tx, result_of, after_commit, after_flush,
  after_erase, erase_at, after_begin, hard_delete_and_heal, atomic_flush_index,
}
use unlearning.Persist.Flush.{IsFlush, published, refused, atomic_flush_index-IsFlush}

-- Behind a BEGIN: its record and the log that has it.
append_commit-counter :
    (d : Digest) (tx : ℕ) (ts : Option ℕ) (now : ℕ) (log : Log)
    → (append_commit d tx ts now log).1.tx_counter ≡ log.tx_counter
unfolding append_commit
append_commit-counter d tx ts now log = ground arith

append_commit-raise :
    (d : Digest) (tx : ℕ) (ts : Option ℕ) (now : ℕ) (log : Log) {x : Exn} {log' : Log}
    → append_commit d tx ts now log ≡ (raise x, log')
    → log' ≡ log
unfolding append_commit
append_commit-raise d tx ts now log h = elim (if-cases (fits 8 (or_now ts now) && fits 8 tx) h) [
  | inl (t, good) ↦ absurd (cc (ap (λ p. p.0) good))
  | inr (f, bad) ↦ sym (ap (λ p. p.1) bad)
]

-- No id above the counter is pending.
last_begin-above :
    (n t : ℕ) (rs : List Record)
    → All (λ r. transaction_id r ≤ n) rs
    → n < t
    → last_begin t rs ≡ none
unfolding last_begin
last_begin-above n t [] a lt = refl
last_begin-above n t (begin_delete b ∷ rs) a lt = ground (arith, last_begin-above n t rs)
last_begin-above n t (commit c ∷ rs) a lt = last_begin-above n t rs a.1 lt

pub find_tx-above :
    (n t : ℕ) (rs : List Record)
    → All (λ r. transaction_id r ≤ n) rs
    → n < t
    → find_tx t (pending_of rs) ≡ none
find_tx-above n t rs a lt =
    find-pending_of t rs ∙ ground (arith, last_begin-above n t rs, not-is_committed n t rs)

module _ (nat : Native) where
  -- Behind the BEGIN of a delete.
  pub record Begun (node m : ℕ) (s : Store nat) (rs : List Record) (b : BeginDelete)
      (s₁ : Store nat) : Type 0 where
    pub target : b.target_node_id ≡ node
    pub degree : b.max_m ≡ m
    pub fresh : s.log.tx_counter < b.transaction_id
    pub held : Holds nat.digest s₁.log (rs ++ begin_delete b ∷ [])
    pub own : b.transaction_id ≤ s₁.log.tx_counter
    pub id : b.transaction_id ≡ suc s.log.tx_counter
    pub mem : s₁.mem ≡ s.mem
    pub index : s₁.index_bin ≡ s.index_bin
    pub others :
        (t : ℕ)
        → find_tx t (pending_of (rs ++ begin_delete b ∷ []))
          ≡ (if b.transaction_id == t then some b else find_tx t (pending_of rs))

  All-last :
      (n : ℕ) (rs : List Record) (r : Record)
      → All (λ q. transaction_id q ≤ n) (rs ++ r ∷ [])
      → transaction_id r ≤ n
  All-last n [] r a = a.0
  All-last n (q ∷ rs) r a = All-last n rs r a.1

  pub append_begin-Begun :
      (node m : ℕ) (s : Store nat) (rs : List Record) {b : BeginDelete} {s₁ : Store nat}
      → Holds nat.digest s.log rs
      → append_begin nat (pos node) (pos m) s ≡ (ok b, s₁)
      → Begun node m s rs b s₁
  append_begin-Begun node m s rs {b} {s₁} h e =
      let appended : append_begin_delete nat.digest (pos node) (pos m) none none
            (nat.unix_ns s.readings) s.log
          ≡ (ok b, s₁.log) =
        cc (ap (λ p. p.0) e, ap (λ p. p.1.log) e) in
      let (same, held) =
        append_begin_delete-Holds nat.digest node m none none (nat.unix_ns s.readings) s.log rs h
          appended in
      let (above, asked, others) =
        append_begin_delete-pending nat.digest node m none (nat.unix_ns s.readings) s.log rs h
          appended in
      let id : b.transaction_id ≡ suc s.log.tx_counter = ap (λ x. x.transaction_id) same in
      record {
        target = ap (λ x. x.target_node_id) same;
        degree = ap (λ x. x.max_m) same;
        fresh = omega arith;
        held = held;
        id = id;
        own = All-last s₁.log.tx_counter rs (begin_delete b) held.counted;
        mem = sym (ap (λ p. p.1.mem) e);
        index = sym (ap (λ p. p.1.index_bin) e);
        others = others;
      }

  -- Whose answer the log gives where an exception or a COMMIT left it.
  pub record Kept (s : Store nat) (rs : List Record) (s' : Store nat) (rs' : List Record)
      : Type 0 where
    pub held : Holds nat.digest s'.log rs'
    pub counter : s.log.tx_counter ≤ s'.log.tx_counter
    pub pending : (t : ℕ) → find_tx t (pending_of rs') ≡ find_tx t (pending_of rs)

  -- Inversion of the steps behind the BEGIN.
  record Done (node tx : ℕ) (recovered : Bool) (s : Store nat) (result : HardDeleteResult)
      (s' : Store nat) : Type 0 where
    c : Commit
    s₂ : Store nat
    committed : commit_tx nat tx s₂ ≡ (ok c, s')
    log : s₂.log ≡ s.log
    mem : s₂.mem ≡ s.mem
    snapshot : Bytes
    saved : nat.save_index s.mem ≡ (ok tt, some snapshot)
    index : s₂.index_bin ≡ some snapshot
    tx_result : result.transaction_id ≡ tx

  after_commit-ok :
      (node tx : ℕ) (report : EraseReport) (recovered : Bool) (m : Result Commit × Store nat)
      {result : HardDeleteResult} {s' : Store nat}
      → after_commit nat node tx report recovered m ≡ (ok result, s')
      → (c : Commit) × (m ≡ (ok c, s')) × (result.transaction_id ≡ tx)
  unfolding after_commit
  after_commit-ok node tx report recovered (raise x, s) h = absurd (cc (ap (λ p. p.0) h))
  after_commit-ok node tx report recovered (ok c, s) {result} h =
      let same : result_of nat node tx report recovered ≡ result = cc (ap (λ p. p.0) h) in
      (c, ap (λ s. (ok c, s)) (ap (λ p. p.1) h), sym (ap (λ r. r.transaction_id) same))

  after_flush-ok :
      (node tx : ℕ) (report : EraseReport) (recovered : Bool) (s : Store nat)
      {result : HardDeleteResult} {s' : Store nat}
      → after_flush nat node tx report recovered (atomic_flush_index nat s) ≡ (ok result, s')
      → Done node tx recovered s result s'
  unfolding after_flush
  after_flush-ok node tx report recovered s {result} {s'} h =
      let (log, mem, flush) = atomic_flush_index-IsFlush nat s in
      by_flush (atomic_flush_index nat s) log mem flush h
    where
      by_flush :
          (r : Result (Unit {0}) × Store nat)
          → r.1.log ≡ s.log
          → r.1.mem ≡ s.mem
          → IsFlush nat s r
          → after_flush nat node tx report recovered r ≡ (ok result, s')
          → Done node tx recovered s result s'
      by_flush (raise x, s₂) log mem (refused y e same) h = absurd (cc (ap (λ p. p.0) h))
      by_flush (raise x, s₂) log mem (published w a e b c) h = absurd (cc (ap (λ p. p.0) h))
      by_flush (ok u, s₂) log mem (refused y e same) h = absurd (cc e)
      by_flush (ok u, s₂) log mem (published w a e b none_left) h =
          let (c, committed, tx_result) =
            after_commit-ok node tx report recovered (commit_tx nat tx s₂) h in
          record {
            c = c;
            s₂ = s₂;
            committed = committed;
            log = log;
            mem = mem;
            snapshot = w;
            saved = a;
            index = b;
            tx_result = tx_result;
          }

  after_erase-ok :
      (node tx : ℕ) (recovered : Bool) (m : Result EraseReport × Store nat)
      {result : HardDeleteResult} {s' : Store nat}
      → after_erase nat node tx recovered m ≡ (ok result, s')
      → Done node tx recovered m.1 result s'
  unfolding after_erase
  after_erase-ok node tx recovered (raise x, s) h = absurd (cc (ap (λ p. p.0) h))
  after_erase-ok node tx recovered (ok report, s) h = elim (if-cases (not report.success) h) [
    | inl (t, bad) ↦ absurd (cc (ap (λ p. p.0) bad))
    | inr (f, good) ↦ after_flush-ok node tx report recovered s good
  ]

  after_begin-ok :
      (recovered : Bool) (b : BeginDelete) (s : Store nat) {result : HardDeleteResult}
      {s' : Store nat}
      → after_begin nat recovered (ok b, s) ≡ (ok result, s')
      → Done b.target_node_id b.transaction_id recovered
          (erase_at nat (pos b.target_node_id) (pos b.max_m) s).1
          result
          s'
  unfolding after_begin
  after_begin-ok recovered b s h =
      after_erase-ok b.target_node_id b.transaction_id recovered
        (erase_at nat (pos b.target_node_id) (pos b.max_m) s) h

  -- A COMMIT of an id that the log has given out.
  pub commit_tx-pending :
      (tx : ℕ) (s : Store nat) (rs : List Record) {c : Commit} {s' : Store nat}
      → Holds nat.digest s.log rs
      → tx ≤ s.log.tx_counter
      → commit_tx nat tx s ≡ (ok c, s')
      → Holds nat.digest s'.log (rs ++ commit c ∷ [])
        × (s'.log.tx_counter ≡ s.log.tx_counter)
        × (s'.mem ≡ s.mem)
        × (s'.index_bin ≡ s.index_bin)
        × ((t : ℕ)
            → find_tx t (pending_of (rs ++ commit c ∷ []))
              ≡ (if tx == t then none else find_tx t (pending_of rs)))
  commit_tx-pending tx s rs {c} {s'} h le e =
      let written : append_commit nat.digest tx none (nat.unix_ns s.readings) s.log
          ≡ (ok c, s'.log) =
        cc (ap (λ p. p.0) e, ap (λ p. p.1.log) e) in
      let (same, held) =
        append_commit-Holds nat.digest tx none (nat.unix_ns s.readings) s.log rs h le written in
      let (asked, others) =
        append_commit-pending nat.digest tx none (nat.unix_ns s.readings) s.log rs h le written in
      (
        held,
        sym (ap (λ p. p.1.tx_counter) written)
            ∙ append_commit-counter nat.digest tx none (nat.unix_ns s.readings) s.log,
        sym (ap (λ p. p.1.mem) e),
        sym (ap (λ p. p.1.index_bin) e),
        others,
      )

  -- What a delete that returned has done.
  pub record Deleted (node m : ℕ) (s : Store nat) (rs : List Record) (result : HardDeleteResult)
      (s' : Store nat) : Type 0 where
    pub rs' : List Record
    pub kept : Kept s rs s' rs'
    pub fresh : s.log.tx_counter < result.transaction_id
    pub wiped : s'.mem ≡ (nat.erase_node (pos node) (pos m) s.mem).1
    pub snapshot : Bytes
    pub saved : nat.save_index s'.mem ≡ (ok tt, some snapshot)
    pub index : s'.index_bin ≡ some snapshot

  Begun-Deleted :
      (node m : ℕ) (recovered : Bool) (s : Store nat) (rs : List Record) {b : BeginDelete}
      {s₁ : Store nat} {result : HardDeleteResult} {s' : Store nat}
      → Holds nat.digest s.log rs
      → Begun node m s rs b s₁
      → Done b.target_node_id b.transaction_id recovered
          (erase_at nat (pos b.target_node_id) (pos b.max_m) s₁).1
          result
          s'
      → Deleted node m s rs result s'
  Begun-Deleted node m recovered s rs {b} {s₁} {result} {s'} h begun done =
      let log : done.s₂.log ≡ s₁.log = done.log in
      let held : Holds nat.digest done.s₂.log (rs ++ begin_delete b ∷ []) =
        subst (λ l. Holds nat.digest l (rs ++ begin_delete b ∷ [])) (sym log) begun.held in
      let (held', counter, mem, index, others) =
        commit_tx-pending b.transaction_id done.s₂ (rs ++ begin_delete b ∷ []) held
          (rw log begun.own) done.committed in
      let same_mem : s'.mem ≡ (nat.erase_node (pos b.target_node_id) (pos b.max_m) s₁.mem).1 =
        mem ∙ done.mem in
      let counter' : s'.log.tx_counter ≡ s₁.log.tx_counter = counter ∙ ap (λ l. l.tx_counter) log in
      record {
        rs' = (rs ++ begin_delete b ∷ []) ++ commit done.c ∷ [];
        kept = record {
          held = held';
          counter = omega (arith, begun.fresh, begun.own, counter');
          pending = λ t. ground (
            arith,
            others t,
            begun.others t,
            find_tx-above s.log.tx_counter t rs h.counted,
            begun.fresh,
          );
        };
        fresh = omega (arith, done.tx_result, begun.fresh);
        wiped = same_mem ∙ rw (begun.target, begun.degree, begun.mem) refl;
        snapshot = done.snapshot;
        saved = ap nat.save_index same_mem ∙ done.saved;
        index = index ∙ done.index;
      }

  -- A durable delete that returns, over a log of whole records: the memory is the one that the wipe
  -- left, the index file holds its snapshot, the deletes that were uncommitted before are uncommitted
  -- still, and the delete's own transaction is not.
  pub hard_delete_and_heal-Deleted :
      (node m : ℕ) (recovered : Bool) (s : Store nat) (rs : List Record) {result : HardDeleteResult}
      {s' : Store nat}
      → Holds nat.digest s.log rs
      → hard_delete_and_heal nat (pos node) (pos m) recovered s ≡ (ok result, s')
      → Deleted node m s rs result s'
  unfolding hard_delete_and_heal after_begin
  hard_delete_and_heal-Deleted node m recovered s rs {result} {s'} h e =
      by_begin (append_begin nat (pos node) (pos m) s) refl e
    where
      by_begin :
          (r : Result BeginDelete × Store nat)
          → append_begin nat (pos node) (pos m) s ≡ r
          → after_begin nat recovered r ≡ (ok result, s')
          → Deleted node m s rs result s'
      by_begin (raise x, s₁) a e = absurd (cc (ap (λ p. p.0) e))
      by_begin (ok b, s₁) a e =
          Begun-Deleted node m recovered s rs h (append_begin-Begun node m s rs h a)
            (after_begin-ok recovered b s₁ e)
