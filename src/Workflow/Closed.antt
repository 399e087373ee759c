-- ===== src/Workflow/Closed.antt =====
-- What a step of the runner (integrations/workflow.py) leaves of a ticket, and what a ticket under the
-- status `complete` holds.
use unlearning.Prelude.{
  ◌≡◌, ◌≢◌, refl, ap, ◌∙◌, inl, inr, Bool, true, false, not, ◌||◌, some, [], ◌∷◌, arith,
  if◌then◌else◌, Option-cases, Str, ok,
}
use unlearning.Prelude.Dict.{Dict, get}
use unlearning.Prelude.Eq.{str_eq, str_beq, str_beq_iff}
use unlearning.Workflow.{
  WorkflowStatus, in_progress, complete, blocked, StepStatus, done, failed, skipped, is_done,
  is_failed, is_skipped, ErasureStep, live_hard_delete, residual_proof, replica_fanout,
  crypto_shred, document_store, backup_policy, ErasureWorkflow, step, Surfaces,
}
use unlearning.Workflow.Runner.{required_by, status_loop, compute_status}

module _ {H : Type 0} where
  -- A step of the ticket, with a property of its status.
  pub record Has (P : StepStatus → Type 0) (name : Str) (wf : ErasureWorkflow H) : Type 0 where
    pub it : ErasureStep H
    pub there : get name wf.steps ≡ some it
    pub holds : P it.status

  -- What the flags ask of a ticket that is complete.
  pub record Closed (wf : ErasureWorkflow H) : Type 0 where
    pub live : Has (λ s. s ≡ done) live_hard_delete wf
    pub residual : Has (λ s. s ≢ failed) residual_proof wf
    pub replica : Has (λ s. wf.require_replica ≡ true → s ≡ done) replica_fanout wf
    pub shred : Has (λ s. wf.require_crypto_shred ≡ true → s ≡ done) crypto_shred wf
    pub document : Has (λ s. wf.require_document_store ≡ true → s ≡ done) document_store wf
    pub backup : Has (λ s. wf.require_backup_ack ≡ true → s ≡ done) backup_policy wf

  -- All steps are there, and no required one is skipped.
  pub record Planned (wf : ErasureWorkflow H) : Type 0 where
    pub live : Has (λ s. Unit {0}) live_hard_delete wf
    pub residual : Has (λ s. Unit {0}) residual_proof wf
    pub replica : Has (λ s. wf.require_replica ≡ true → s ≢ skipped) replica_fanout wf
    pub shred : Has (λ s. wf.require_crypto_shred ≡ true → s ≢ skipped) crypto_shred wf
    pub document : Has (λ s. wf.require_document_store ≡ true → s ≢ skipped) document_store wf
    pub backup : Has (λ s. wf.require_backup_ack ≡ true → s ≢ skipped) backup_policy wf

  -- The same orders, in another state of work.
  abbrev pub SameOrder : ErasureWorkflow H → ErasureWorkflow H → Type 0
  SameOrder v w =
      (w.require_replica ≡ v.require_replica)
      × (w.require_crypto_shred ≡ v.require_crypto_shred)
      × (w.require_document_store ≡ v.require_document_store)
      × (w.require_backup_ack ≡ v.require_backup_ack)
      × (w.request_id ≡ v.request_id)

module _ (sf : Surfaces) where
  abbrev passes : StepStatus → Bool
  passes s = is_done s || is_skipped s

  status_loop-complete :
      (wf : ErasureWorkflow sf.H) (d : Dict Str (ErasureStep sf.H)) (name : Str)
      (s : ErasureStep sf.H)
      → status_loop sf wf d ≡ complete
      → get name d ≡ some s
      → str_beq name live_hard_delete ≡ false
      → (str_beq name residual_proof ≡ true → is_failed s.status ≡ false)
        × (str_beq name residual_proof ≡ false
            → required_by sf wf name ≡ true
            → passes s.status ≡ true)
  unfolding status_loop get
  status_loop-complete wf [] name s h g other = absurd (cc)
  status_loop-complete wf ((n, t) ∷ d) name s h g other =
      ground (arith, str_beq_iff n name, status_loop-complete wf d name s)

  loop-residual :
      (wf : ErasureWorkflow sf.H)
      → status_loop sf wf wf.steps ≡ complete
      → Has (λ s. Unit {0}) residual_proof wf
      → Has (λ s. s ≢ failed) residual_proof wf
  loop-residual wf h has =
      let ok_ = (status_loop-complete wf wf.steps residual_proof has.it h has.there refl).0 refl in
      record { it = has.it; there = has.there; holds = λ bad. cc (ok_, ap is_failed bad) }

  passes-done : (s : StepStatus) → passes s ≡ true → s ≢ skipped → s ≡ done
  passes-done s h n = ground arith

  loop-required :
      (wf : ErasureWorkflow sf.H) (name : Str) (flag : Bool)
      → str_beq name live_hard_delete ≡ false
      → str_beq name residual_proof ≡ false
      → required_by sf wf name ≡ flag
      → status_loop sf wf wf.steps ≡ complete
      → Has (λ s. flag ≡ true → s ≢ skipped) name wf
      → Has (λ s. flag ≡ true → s ≡ done) name wf
  loop-required wf name flag a b r h has =
      let fine = (status_loop-complete wf wf.steps name has.it h has.there a).1 b in
      record {
        it = has.it;
        there = has.there;
        holds = λ needed. passes-done has.it.status (fine (r ∙ needed)) (has.holds needed);
      }

  compute_status-complete :
      (wf : ErasureWorkflow sf.H)
      → compute_status sf wf ≡ ok complete
      → Has (λ s. s ≡ done) live_hard_delete wf × (status_loop sf wf wf.steps ≡ complete)
  unfolding compute_status step
  compute_status-complete wf h = elim (Option-cases (get live_hard_delete wf.steps)) [
    | inl e ↦ absurd (cc (rw (e, compute_status) at h))
    | inr (s, e) ↦
        let live = by_status s.status (status_loop sf wf wf.steps) (rw (e, compute_status) at h) in
        (record { it = s; there = e; holds = live.0 }, live.1)
  ]
    where
      by_status :
          (s : StepStatus) (w : WorkflowStatus)
          → (if not (is_done s) then (if is_failed s then ok blocked else ok in_progress) else ok w)
            ≡ ok complete
          → (s ≡ done) × (w ≡ complete)
      by_status s w h = ground arith

  -- A planned ticket that the runner computes to be complete is closed.
  pub Planned-Closed :
      (wf : ErasureWorkflow sf.H) → Planned wf → compute_status sf wf ≡ ok complete → Closed wf
  unfolding required_by
  Planned-Closed wf p h =
      let (live, loop) = compute_status-complete wf h in
      record {
        live = live;
        residual = loop-residual wf loop p.residual;
        replica = loop-required wf replica_fanout wf.require_replica refl refl refl loop p.replica;
        shred = loop-required wf crypto_shred wf.require_crypto_shred refl refl refl loop p.shred;
        document =
            loop-required wf document_store wf.require_document_store refl refl refl loop
              p.document;
        backup = loop-required wf backup_policy wf.require_backup_ack refl refl refl loop p.backup;
      }
