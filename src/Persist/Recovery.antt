-- ===== src/Persist/Recovery.antt =====
-- Recovery at startup (`_replay_one` and `recover_uncommitted` of api/persistence.py).
use unlearning.Prelude.{
  ℕ, ◌≤◌, ◌<◌, ◌≡◌, refl, ap, ◌∙◌, inl, inr, true, false, none, List, [], ◌∷◌, ◌++◌, arith, All,
  ◌==◌, if◌then◌else◌, if-cases, Result, ok, raise, Exn, >>=-eq-ok, pos, runtime_error,
}
use unlearning.Prelude.Dict.{is_some}
use unlearning.Wal.Codec.{BeginDelete, Commit, Record, commit}
use unlearning.Wal.Pending.{pending_of, find_tx, uncommitted_deletes}
use unlearning.Wal.Fresh.{Holds}
use unlearning.Wal.Lifecycle.{uncommitted_deletes-Holds}
use unlearning.Erase.Types.{HardDeleteResult}
use unlearning.Persist.{
  report_text, EraseReport, append_begin, erase_at, after_begin, after_erase, Native, Store,
  commit_tx, hard_delete_and_heal, after_retire, retire, replay_one, after_replay, replay_all,
  recover_pending, recover_uncommitted,
}
use unlearning.Persist.Durable.{
  append_begin-Begun, Deleted, hard_delete_and_heal-Deleted, commit_tx-pending, find_tx-above,
}

-- A list in which no id is found is empty.
find_tx-none : (bs : List BeginDelete) → ((t : ℕ) → find_tx t bs ≡ none) → bs ≡ []
unfolding find_tx
find_tx-none [] h = refl
find_tx-none (b ∷ bs) h = absurd (ground (arith, h b.transaction_id))

module _ (nat : Native) where
  -- What replaying some deletes does to the log: they are retired, and no other.
  pub record Replayed (recs : List BeginDelete) (s : Store nat) (rs : List Record) (s' : Store nat)
      : Type 0 where
    pub rs' : List Record
    pub held : Holds nat.digest s'.log rs'
    pub counter : s.log.tx_counter ≤ s'.log.tx_counter
    pub pending :
        (t : ℕ)
        → find_tx t (pending_of rs')
          ≡ (if is_some (find_tx t recs) then none else find_tx t (pending_of rs))

  after_retire-ok :
      (result : HardDeleteResult) (m : Result Commit × Store nat) {r : HardDeleteResult}
      {s' : Store nat}
      → after_retire nat result m ≡ (ok r, s')
      → (c : Commit) × (m ≡ (ok c, s'))
  after_retire-ok result (raise x, s) h = absurd (cc (ap (λ p. p.0) h))
  after_retire-ok result (ok c, s) h = (c, ap (λ s. (ok c, s)) (ap (λ p. p.1) h))

  retire-Replayed :
      (rec : BeginDelete) (node m : ℕ) (s : Store nat) (rs : List Record)
      (m₁ : Result HardDeleteResult × Store nat) {r : HardDeleteResult} {s' : Store nat}
      → rec.transaction_id ≤ s.log.tx_counter
      → ((result : HardDeleteResult) → m₁.0 ≡ ok result → Deleted nat node m s rs result m₁.1)
      → retire nat rec m₁ ≡ (ok r, s')
      → Replayed (rec ∷ []) s rs s'
  unfolding retire find_tx
  retire-Replayed rec node m s rs (raise x, s₁) le deleted h = absurd (cc (ap (λ p. p.0) h))
  retire-Replayed rec node m s rs (ok result, s₁) {r} {s'} le deleted h =
      let d = deleted result refl in
      elim (if-cases (rec.transaction_id == result.transaction_id) h) [
        | inl (t, same) ↦ absurd (ground (arith, d.fresh, le))
        | inr (f, after) ↦
            let (c, committed) =
              after_retire-ok result (commit_tx nat rec.transaction_id s₁) after in
            let (held, counter, mem, index, others) =
              commit_tx-pending nat rec.transaction_id s₁ d.rs' d.kept.held
                (omega (arith, d.kept.counter)) committed in
            record {
              rs' = d.rs' ++ commit c ∷ [];
              held = held;
              counter = omega (arith, counter, d.kept.counter);
              pending = λ t. ground (arith, others t, d.kept.pending t);
            }
      ]

  replay_one-Replayed :
      (rec : BeginDelete) (s : Store nat) (rs : List Record) {r : HardDeleteResult} {s' : Store nat}
      → Holds nat.digest s.log rs
      → rec.transaction_id ≤ s.log.tx_counter
      → replay_one nat rec s ≡ (ok r, s')
      → Replayed (rec ∷ []) s rs s'
  unfolding replay_one
  replay_one-Replayed rec s rs h le e =
      retire-Replayed rec rec.target_node_id rec.max_m s rs
        (hard_delete_and_heal nat (pos rec.target_node_id) (pos rec.max_m) true s) le
        (λ result ok_. hard_delete_and_heal-Deleted nat rec.target_node_id rec.max_m true s rs h (
          ap
            (λ r. (r, (hard_delete_and_heal nat (pos rec.target_node_id) (pos rec.max_m) true s).1))
            ok_))
        e

  -- `replay_all` on a first element that returned.
  after_replay-ok :
      (more : Store nat → Result (List HardDeleteResult) × Store nat)
      (m : Result HardDeleteResult × Store nat) {results : List HardDeleteResult} {s' : Store nat}
      → after_replay nat more m ≡ (ok results, s')
      → (result : HardDeleteResult) × (rest : List HardDeleteResult) × (m.0 ≡ ok result)
        × (more m.1 ≡ (ok rest, s'))
  after_replay-ok more (raise x, s) h = absurd (cc (ap (λ p. p.0) h))
  after_replay-ok more (ok result, s) h =
      let (rest, got, more_) = >>=-eq-ok (more s).0 _ (ap (λ p. p.0) h) in
      (result, rest, refl, cc (got, ap (λ p. p.1) h))

  Below : ℕ → List BeginDelete → Type 0
  Below n recs = All (λ b. b.transaction_id ≤ n) recs

  Below-weaken : (n k : ℕ) (recs : List BeginDelete) → n ≤ k → Below n recs → Below k recs
  unfolding Below
  Below-weaken n k [] le a = tt
  Below-weaken n k (b ∷ recs) le a = (omega arith, Below-weaken n k recs le a.1)

  replay_all-Replayed :
      (recs : List BeginDelete) (s : Store nat) (rs : List Record) {results : List HardDeleteResult}
      {s' : Store nat}
      → Holds nat.digest s.log rs
      → Below s.log.tx_counter recs
      → replay_all nat recs s ≡ (ok results, s')
      → Replayed recs s rs s'
  unfolding replay_all find_tx Below
  replay_all-Replayed [] s rs h below e =
      let state = ap (λ p. p.1) e in
      rw (← state) (record { rs' = rs; held = h; counter = omega arith; pending = λ t. refl })
  replay_all-Replayed (rec ∷ recs) s rs h below e =
      let (result, rest, first, more) =
        after_replay-ok (replay_all nat recs) (replay_one nat rec s) e in
      let one =
        replay_one-Replayed rec s rs h below.0 (ap (λ r. (r, (replay_one nat rec s).1)) first) in
      let others =
        replay_all-Replayed recs (replay_one nat rec s).1 one.rs' one.held
          (Below-weaken _ _ recs one.counter below.1) more in
      record {
        rs' = others.rs';
        held = others.held;
        counter = omega (arith, one.counter, others.counter);
        pending = λ t. ground (arith, others.pending t, one.pending t);
      }

  none-above-Below :
      (n : ℕ) (bs : List BeginDelete) → ((t : ℕ) → n < t → find_tx t bs ≡ none) → Below n bs
  unfolding find_tx Below
  none-above-Below n [] h = tt
  none-above-Below n (b ∷ bs) h =
      (ground (arith, h b.transaction_id), none-above-Below n bs (λ t lt. ground (arith, h t lt)))

  -- Over a log of whole records and a loaded index, a recovery that returns leaves no delete
  -- uncommitted.
  pub recover_uncommitted-none :
      (s : Store nat) (rs : List Record) {results : List HardDeleteResult} {s' : Store nat}
      → Holds nat.digest s.log rs
      → nat.is_loaded s.mem ≡ true
      → recover_uncommitted nat s ≡ (ok results, s')
      → uncommitted_deletes nat.digest s'.log.file ≡ ok []
  unfolding recover_uncommitted recover_pending
  recover_uncommitted-none s rs h loaded e =
      let below =
        none-above-Below s.log.tx_counter (pending_of rs)
          (λ t lt. find_tx-above s.log.tx_counter t rs h.counted lt) in
      let replayed =
        replay_all-Replayed (pending_of rs) s rs h below
          (rw (uncommitted_deletes-Holds nat.digest s.log rs h, recover_pending, loaded) at e) in
      uncommitted_deletes-Holds nat.digest _ replayed.rs' replayed.held
      ∙ ap ok (find_tx-none (pending_of replayed.rs') (λ t. ground (arith, replayed.pending t)))

  replay_one-refused :
      (rec : BeginDelete) (s : Store nat) (rs : List Record) {report : EraseReport} {mem : nat.Mem}
      → Holds nat.digest s.log rs
      → nat.erase_node (pos rec.target_node_id) (pos rec.max_m) s.mem ≡ (ok report, mem)
      → report.success ≡ false
      → (x : Exn) × ((replay_one nat rec s).0 ≡ raise x)
  unfolding replay_one hard_delete_and_heal after_begin retire after_erase
  replay_one-refused rec s rs {report} {mem} h refused failed =
      by_begin (append_begin nat (pos rec.target_node_id) (pos rec.max_m) s) refl
    where
      by_begin :
          (r : Result BeginDelete × Store nat)
          → append_begin nat (pos rec.target_node_id) (pos rec.max_m) s ≡ r
          → (x : Exn) × ((retire nat rec (after_begin nat true r)).0 ≡ raise x)
      by_begin (raise x, s₁) a = (x, refl)
      by_begin (ok b, s₁) a =
          let begun = append_begin-Begun nat rec.target_node_id rec.max_m s rs h a in
          let same : erase_at nat (pos b.target_node_id) (pos b.max_m) s₁
              ≡ (ok report, record s₁ { mem = mem }) =
            rw (begun.target, begun.degree, begun.mem, refused) refl in
          (
            runtime_error (report_text nat [] report.message),
            rw same (rw (failed, after_erase) refl),
          )

  -- A delete that the native index refuses blocks recovery: over a log of whole records and a loaded
  -- index, recovery raises while that delete is the first one uncommitted.
  pub recover_uncommitted-refused :
      (s : Store nat) (rs : List Record) (rec : BeginDelete) (recs : List BeginDelete)
      {report : EraseReport} {mem : nat.Mem}
      → Holds nat.digest s.log rs
      → nat.is_loaded s.mem ≡ true
      → pending_of rs ≡ rec ∷ recs
      → nat.erase_node (pos rec.target_node_id) (pos rec.max_m) s.mem ≡ (ok report, mem)
      → report.success ≡ false
      → (x : Exn) × ((recover_uncommitted nat s).0 ≡ raise x)
  unfolding recover_uncommitted recover_pending replay_all
  recover_uncommitted-refused s rs rec recs h loaded pend refused failed =
      let (x, e) = replay_one-refused rec s rs h refused failed in
      (
        x,
        rw (uncommitted_deletes-Holds nat.digest s.log rs h, pend, loaded, recover_pending)
            (ap (λ r. (after_replay nat (replay_all nat recs) (r, (replay_one nat rec s).1)).0) e),
      )
