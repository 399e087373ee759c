-- ===== src/Workflow/Sound.antt =====
-- The store of tickets (integrations/workflow.py) over the calls of the runner.
use unlearning.Prelude.{
  ℕ, suc, ◌≡◌, refl, sym, ap, ◌∙◌, Bool, true, false, Option, some, [], arith, subst, Bool-cases,
  Option-cases, inl, inr, Str, Result, ok, raise,
}
use unlearning.Prelude.Dict.{get, put, get-put}
use unlearning.Prelude.Eq.{str_eq, str_beq}
use unlearning.Workflow.{
  WorkflowStatus, complete, StepStatus, is_complete, live_hard_delete, residual_proof,
  replica_fanout, crypto_shred, document_store, backup_policy, ErasureWorkflow, WorkflowStore,
  Surfaces, path_for, stamped, save, load, Ticket, new_workflow, create,
}
use unlearning.Workflow.Runner.{
  Run, Outcome, then_run, live_delete, run_live_delete, mirror_step, mirror_residual_from_receipt,
  optional_step, run_optional, compute_status, replica_call, shred_call, document_call, backup_call,
  run_steps, Office, close, advance_loaded, advance,
}
use unlearning.Workflow.Closed.{Has, Closed, Planned, SameOrder, Planned-Closed}
use unlearning.Workflow.Keeps.{
  Touches, AnyStatus, UnskippedIf, with_step-Touches, live_delete-Touches, mirror_step-Touches,
  optional_step-Touches,
}

module _ (sf : Surfaces) where
  then_run-ok :
      (k : Run sf → Outcome sf) (m : Outcome sf) {r' : Run sf}
      → then_run sf k m ≡ (ok tt, r')
      → (r : Run sf) × (m ≡ (ok tt, r)) × (k r ≡ (ok tt, r'))
  then_run-ok k (ok u, r) h = (r, refl, h)
  then_run-ok k (raise x, r) h = absurd (cc (ap (λ m. m.0) h))

  optional-Touches :
      (name : Str) (required : Bool) (hook : Option (sf.World → Result sf.H × sf.World))
      (skip : Bool) (r : Run sf) {r' : Run sf}
      → run_optional sf name required hook skip r ≡ (ok tt, r')
      → Touches sf (UnskippedIf sf required) name r.wf r'.wf
  unfolding run_optional
  optional-Touches name required hook skip r h =
      with_step-Touches sf (UnskippedIf sf required) name (optional_step sf name required hook skip)
        r (λ s e. optional_step-Touches sf name required hook skip s r e) h

  live-Touches :
      (max_m : ℕ) (r : Run sf) {r' : Run sf}
      → run_live_delete sf max_m r ≡ (ok tt, r')
      → Touches sf (AnyStatus sf) live_hard_delete r.wf r'.wf
  unfolding run_live_delete
  live-Touches max_m r h =
      with_step-Touches sf (AnyStatus sf) live_hard_delete (live_delete sf max_m) r
        (λ s e. live_delete-Touches sf max_m s r e) h

  mirror-Touches :
      (r : Run sf) {r' : Run sf}
      → mirror_residual_from_receipt sf r ≡ (ok tt, r')
      → Touches sf (AnyStatus sf) residual_proof r.wf r'.wf
  unfolding mirror_residual_from_receipt
  mirror-Touches r h =
      with_step-Touches sf (AnyStatus sf) residual_proof (mirror_step sf) r
        (λ s e. mirror_step-Touches sf s r e) h

  Has-over :
      {P Q : StepStatus → Type 0} {n j : Str} {v w : ErasureWorkflow sf.H}
      → Touches sf P n v w
      → str_beq n j ≡ false
      → Has Q j v
      → Has Q j w
  Has-over {P} {Q} {n} {j} t other h = record {
    it = h.it;
    there = t.others j other ∙ h.there;
    holds = h.holds;
  }

  Has-map :
      {P Q : StepStatus → Type 0} {n : Str} {w : ErasureWorkflow sf.H}
      → ((s : StepStatus) → P s → Q s)
      → Has P n w
      → Has Q n w
  Has-map f h = record { it = h.it; there = h.there; holds = f h.it.status h.holds }

  order-trans : (u v w : ErasureWorkflow sf.H) → SameOrder u v → SameOrder v w → SameOrder u w
  order-trans u v w a b = (b.0 ∙ a.0, b.1 ∙ a.1, b.2 ∙ a.2, b.3 ∙ a.3, b.4 ∙ a.4)

  flag-map : {a b : Bool} → a ≡ b → (s : StepStatus) → UnskippedIf sf b s → UnskippedIf sf a s
  flag-map e s h n = h (sym e ∙ n)

  -- A run of the steps that no exception left has planned the ticket, under the same flags.
  pub run_steps-Planned :
      (max_m : ℕ) (skip : Bool) (r : Run sf) {r' : Run sf}
      → run_steps sf max_m skip r ≡ (ok tt, r')
      → Planned r'.wf × SameOrder r.wf r'.wf
  unfolding run_steps
  run_steps-Planned max_m skip r {r'} h =
      let wf = r.wf in
      let (r₅, h₅, e₆) =
        then_run-ok (run_optional sf backup_policy wf.require_backup_ack (backup_call sf wf) skip) _
          h in
      let (r₄, h₄, e₅) =
        then_run-ok
          (run_optional sf document_store wf.require_document_store (document_call sf wf) skip) _
          h₅ in
      let (r₃, h₃, e₄) =
        then_run-ok (run_optional sf crypto_shred wf.require_crypto_shred (shred_call sf wf) skip) _
          h₄ in
      let (r₂, h₂, e₃) =
        then_run-ok (run_optional sf replica_fanout wf.require_replica (replica_call sf wf) skip) _
          h₃ in
      let (r₁, e₁, e₂) = then_run-ok (mirror_residual_from_receipt sf) _ h₂ in
      let t₁ = live-Touches max_m r e₁ in
      let t₂ = mirror-Touches r₁ e₂ in
      let t₃ = optional-Touches replica_fanout wf.require_replica _ skip r₂ e₃ in
      let t₄ = optional-Touches crypto_shred wf.require_crypto_shred _ skip r₃ e₄ in
      let t₅ = optional-Touches document_store wf.require_document_store _ skip r₄ e₅ in
      let t₆ = optional-Touches backup_policy wf.require_backup_ack _ skip r₅ e₆ in
      let o = order-trans wf r₁.wf r'.wf t₁.order (
        order-trans r₁.wf r₂.wf r'.wf t₂.order (
          order-trans r₂.wf r₃.wf r'.wf t₃.order (
            order-trans r₃.wf r₄.wf r'.wf t₄.order
              (order-trans r₄.wf r₅.wf r'.wf t₅.order t₆.order)))) in
      (
        record {
          live =
              Has-over t₆ refl
                (Has-over t₅ refl (Has-over t₄ refl (Has-over t₃ refl (Has-over t₂ refl t₁.own))));
          residual =
              Has-over t₆ refl (Has-over t₅ refl (Has-over t₄ refl (Has-over t₃ refl t₂.own)));
          replica =
              Has-map (flag-map o.0)
                (Has-over t₆ refl (Has-over t₅ refl (Has-over t₄ refl t₃.own)));
          shred = Has-map (flag-map o.1) (Has-over t₆ refl (Has-over t₅ refl t₄.own));
          document = Has-map (flag-map o.2) (Has-over t₆ refl t₅.own);
          backup = Has-map (flag-map o.3) t₆.own;
        },
        o,
      )

  -- Every ticket of the store under the status `complete` is closed.
  pub Sound : WorkflowStore sf.H → Type 0
  Sound st =
      (path : Str) (wf : ErasureWorkflow sf.H)
      → get path st.files ≡ some wf
      → wf.status ≡ complete
      → Closed wf

  restatus : (v w : ErasureWorkflow sf.H) → Closed v → w.steps ≡ v.steps → SameOrder v w → Closed w
  restatus v w c e o = record {
    live = over c.live;
    residual = over c.residual;
    replica = Has-map (λ s h n. h (sym o.0 ∙ n)) (over c.replica);
    shred = Has-map (λ s h n. h (sym o.1 ∙ n)) (over c.shred);
    document = Has-map (λ s h n. h (sym o.2 ∙ n)) (over c.document);
    backup = Has-map (λ s h n. h (sym o.3 ∙ n)) (over c.backup);
  }
    where
      over : {P : StepStatus → Type 0} {n : Str} → Has P n v → Has P n w
      over {P} {n} h = record { it = h.it; there = ap (get n) e ∙ h.there; holds = h.holds }

  put-Sound :
      (path : Str) (w : ErasureWorkflow sf.H) (st : WorkflowStore sf.H) (n : ℕ)
      → Sound st
      → (w.status ≡ complete → Closed w)
      → Sound (record { files = put path w st.files; readings = n })
  unfolding Sound
  put-Sound path w st n sound c p wf g e = elim (Bool-cases (str_beq path p)) [
    | inr other ↦ sound p wf (rw (get-put path p w st.files, other) at g) e
    | inl same ↦
        let eq : w ≡ wf = cc (rw (get-put path p w st.files, same) at g) in
        subst Closed eq (c (ap (λ v. v.status) eq ∙ e))
  ]

  close-Sound :
      (st : WorkflowStore sf.H) (m : Outcome sf)
      → Sound st
      → ((r : Run sf) → m ≡ (ok tt, r) → Planned r.wf)
      → Sound (close sf st m).1.store
        × ((wf : ErasureWorkflow sf.H)
            → (close sf st m).0 ≡ ok wf
            → wf.status ≡ complete
            → Closed wf)
  unfolding close save Sound
  close-Sound st (raise x, r) sound planned = (sound, λ wf e. absurd (cc e))
  close-Sound st (ok u, r) sound planned = by_status (compute_status sf r.wf) refl
    where
      by_status :
          (m : Result WorkflowStatus)
          → compute_status sf r.wf ≡ m
          → Sound (close sf st (ok u, r)).1.store
            × ((wf : ErasureWorkflow sf.H)
                → (close sf st (ok u, r)).0 ≡ ok wf
                → wf.status ≡ complete
                → Closed wf)
      by_status (raise x) e = rw (e, close) (sound, λ wf h. absurd (cc h))
      by_status (ok status) e =
          let w : ErasureWorkflow sf.H = record r.wf {
            status = status;
            updated_unix_ns = sf.unix_ns r.readings;
          } in
          let closed : status ≡ complete → Closed w = λ c.
            restatus r.wf w (Planned-Closed sf r.wf (planned r refl) (e ∙ ap ok c)) refl
              (refl, refl, refl, refl, refl) in
          elim (Option-cases (sf.write_error r.readings w)) [
            | inr (x, f) ↦ rw (e, close) (rw (f, save) (sound, λ wf h. absurd (cc h)))
            | inl f ↦
                rw (e, close)
                  (rw (f, save)
                    (
                      put-Sound (path_for sf.is_alnum r.wf.request_id) w st (suc r.readings) sound
                          closed,
                      λ wf h c.
                          let eq : w ≡ wf = cc h in
                          subst Closed eq (closed (ap (λ v. v.status) eq ∙ c)),
                    ))
          ]

  advance_loaded-Sound :
      (max_m : ℕ) (skip : Bool) (wf : ErasureWorkflow sf.H) (o : Office sf)
      → Sound o.store
      → (wf.status ≡ complete → Closed wf)
      → Sound (advance_loaded sf max_m skip wf o).1.store
        × ((w : ErasureWorkflow sf.H)
            → (advance_loaded sf max_m skip wf o).0 ≡ ok w
            → w.status ≡ complete
            → Closed w)
  unfolding advance_loaded
  advance_loaded-Sound max_m skip wf o sound closed = elim (Bool-cases (is_complete wf.status)) [
    | inl t ↦
        rw (t, advance_loaded)
          (sound, λ w e c. subst Closed (cc e) (closed (is_complete-eq wf.status t)))
    | inr f ↦
        rw (f, advance_loaded)
          (close-Sound o.store _ sound (λ r e. (run_steps-Planned max_m skip _ e).0))
  ]
    where
      is_complete-eq : (s : WorkflowStatus) → is_complete s ≡ true → s ≡ complete
      is_complete-eq s h = ground arith

  advance-Sound :
      (request_id : Str) (max_m : ℕ) (skip : Bool) (o : Office sf)
      → Sound o.store
      → Sound (advance sf request_id max_m skip o).1.store
        × ((w : ErasureWorkflow sf.H)
            → (advance sf request_id max_m skip o).0 ≡ ok w
            → w.status ≡ complete
            → Closed w)
  unfolding advance load Sound
  advance-Sound request_id max_m skip o sound =
      elim (Option-cases (get (path_for sf.is_alnum request_id) o.store.files)) [
        | inl e ↦ rw (e, advance) (sound, λ w h. absurd (cc h))
        | inr (wf, e) ↦
            rw (e, advance)
              (advance_loaded-Sound max_m skip wf o sound
                (sound (path_for sf.is_alnum request_id) wf e))
      ]

  create-Sound : (t : Ticket sf) (st : WorkflowStore sf.H) → Sound st → Sound (create sf t st).1
  unfolding create save Sound
  create-Sound t st sound =
      let n = st.readings in
      elim (Option-cases (
        sf.write_error (suc (suc n))
          (stamped sf (new_workflow sf t n) (record st { readings = suc (suc n) })))) [
            | inr (x, f) ↦ rw (f, create, save) sound
            | inl f ↦
                rw (f, create, save)
                  (put-Sound _ _ st (suc (suc (suc n))) sound (λ h. absurd (cc h)))
          ]

  -- A call of the runner.
  pub data Call (o : Office sf) : Office sf → Type 0 where
    created : (t : Ticket sf) → Call o (record o { store = (create sf t o.store).1 })
    advanced :
        (request_id : Str) (max_m : ℕ) (skip : Bool) → Call o (advance sf request_id max_m skip o).1

  pub data Calls (o : Office sf) : Office sf → Type 0 where
    none_yet : Calls o o
    then_call : {p q : Office sf} → Calls o p → Call p q → Calls o q

  Calls-Sound : {o p : Office sf} → Sound o.store → Calls o p → Sound p.store
  Calls-Sound sound none_yet = sound
  Calls-Sound sound (then_call {p} calls (created t)) =
      create-Sound t p.store (Calls-Sound sound calls)
  Calls-Sound sound (then_call {p} calls (advanced request_id max_m skip)) =
      (advance-Sound request_id max_m skip p (Calls-Sound sound calls)).0

  -- A ticket that `advance` returns under the status `complete`, after any calls of the runner on a
  -- store that was empty: its live step is done, its residual step has not failed, and each step that
  -- its flags require is done.
  pub advance-Closed :
      {o p : Office sf} (request_id : Str) (max_m : ℕ) (skip : Bool) (w : ErasureWorkflow sf.H)
      → o.store.files ≡ []
      → Calls o p
      → (advance sf request_id max_m skip p).0 ≡ ok w
      → w.status ≡ complete
      → Closed w
  unfolding Sound get
  advance-Closed {o} {p} request_id max_m skip w empty calls e c =
      let start : Sound o.store = λ path wf g h. absurd (cc (rw (empty, get) at g)) in
      (advance-Sound request_id max_m skip p (Calls-Sound start calls)).1 w e c
