-- ===== src/Api/Requests.antt =====
-- The endpoints of the erasure tickets in api/main.py, over the runner of integrations/workflow.py: what
-- they answer, and what the store holds behind them.
use unlearning.Prelude.{
  ℕ, suc, ◌≡◌, refl, subst, Bool, false, not, if◌then◌else◌, Bool-cases, Result-cases, inl, inr,
  Str, Result, ok, raise,
}
use unlearning.Prelude.Text.{codes}
use unlearning.Workflow.{
  ErasureWorkflow, WorkflowStore, Surfaces, is_complete, save, load, Ticket, new_workflow, create,
}
use unlearning.Workflow.Runner.{
  Run, Outcome, compute_status, Office, close, advance_loaded, advance,
}
use unlearning.Workflow.Files.{IsSave, wrote, refused, save-IsSave, load-own}
use unlearning.Workflow.Sound.{run_steps-Planned}
use unlearning.Api.{Reply, answer, uncaught, http_error, refuse}

-- `is_loaded` asks the native index.
module _ (sf : Surfaces) (is_loaded : sf.World → Bool) where
  abbrev pub runner_reply :
      Result (ErasureWorkflow sf.H) × Office sf → Reply (ErasureWorkflow sf.H) × Office sf
  runner_reply (ok wf, o) = (answer wf, o)
  runner_reply (raise x, o) = (uncaught x, o)

  abbrev pub not_loaded_text : Str
  not_loaded_text = codes "no index loaded; create with advance=false or load index"

  -- Behind `runner.create`.
  unfoldable pub created_reply :
      Bool
      → ℕ
      → Result (ErasureWorkflow sf.H)
      → Office sf
      → Reply (ErasureWorkflow sf.H) × Office sf
  created_reply wants_advance max_m (raise x) opened = (uncaught x, opened)
  created_reply wants_advance max_m (ok wf) opened =
      if not wants_advance
      then (answer wf, opened)
      else if not (is_loaded opened.world)
      then (refuse 409 not_loaded_text, opened)
      else runner_reply (advance sf wf.request_id max_m false opened)

  unfoldable pub create_erasure_request :
      Ticket sf → Bool → ℕ → Office sf → Reply (ErasureWorkflow sf.H) × Office sf
  create_erasure_request t wants_advance max_m o =
      let (created, st) = create sf t o.store in
      created_reply wants_advance max_m created (record o { store = st })

  -- `load` raises `FileNotFoundError` only: a name that the file system refuses to look up is left out.
  unfoldable pub get_erasure_request : Str → Office sf → Reply (ErasureWorkflow sf.H)
  get_erasure_request request_id o = elim (load sf request_id o.store) [
    | raise x ↦ refuse 404 (sf.exn_text x)
    | ok wf ↦ answer wf
  ]

  unfoldable pub advance_erasure_request :
      Str → ℕ → Office sf → Reply (ErasureWorkflow sf.H) × Office sf
  advance_erasure_request request_id max_m o = elim (load sf request_id o.store) [
    | raise x ↦ (refuse 404 (sf.exn_text x), o)
    | ok wf ↦
        if not (is_loaded o.world)
        then (refuse 409 (codes "no index loaded"), o)
        else runner_reply (advance sf request_id max_m false o)
  ]

  -- A reply and the store behind it: a ticket that is answered is the one in its file; behind any other
  -- reply the ticket `wf` is.
  abbrev pub Filed : ErasureWorkflow sf.H → Reply (ErasureWorkflow sf.H) × Office sf → Type 0
  Filed wf (answer v, o) = (v.request_id ≡ wf.request_id) × (load sf wf.request_id o.store ≡ ok v)
  Filed wf (http_error e, o) = load sf wf.request_id o.store ≡ ok wf
  Filed wf (uncaught x, o) = load sf wf.request_id o.store ≡ ok wf

  close-Filed :
      (wf : ErasureWorkflow sf.H) (st : WorkflowStore sf.H) (m : Outcome sf)
      → load sf wf.request_id st ≡ ok wf
      → ((r : Run sf) → m ≡ (ok tt, r) → r.wf.request_id ≡ wf.request_id)
      → Filed wf (runner_reply (close sf st m))
  unfolding close load save
  close-Filed wf st (raise x, r) h same = h
  close-Filed wf st (ok u, r) h same = elim (Result-cases (compute_status sf r.wf)) [
    | inl (status, q) ↦
        let w : ErasureWorkflow sf.H = record r.wf { status = status } in
        let st' : WorkflowStore sf.H = record st { readings = r.readings } in
        rw (q, close)
          (save-Filed (save sf w st') (save-IsSave sf w st') (same r refl)
            (λ e. files_load (save sf w st').1 e h))
    | inr (x, q) ↦ rw (q, close) h
  ]
    where
      files_load :
          (st' : WorkflowStore sf.H)
          → st'.files ≡ st.files
          → load sf wf.request_id st ≡ ok wf
          → load sf wf.request_id st' ≡ ok wf
      files_load st' e h = rw (e, load) h

      save-Filed :
          {w : ErasureWorkflow sf.H} {st' : WorkflowStore sf.H}
          (m : Result (ErasureWorkflow sf.H) × WorkflowStore sf.H)
          → IsSave sf w st' m
          → w.request_id ≡ wf.request_id
          → (m.1.files ≡ st'.files → load sf wf.request_id m.1 ≡ ok wf)
          → Filed wf (runner_reply (m.0, record { store = m.1; world = r.world }))
      save-Filed {w} {st'} (ok v, st'') (wrote e) same_id left =
          (same_id, subst (λ i. load sf i st'' ≡ ok v) same_id (load-own sf w v st' st'' e))
      save-Filed (raise x, st'') (refused e) same_id left = left e

  -- An advance of a ticket that is in its file and not complete.
  advance-Filed :
      (wf : ErasureWorkflow sf.H) (max_m : ℕ) (o : Office sf)
      → load sf wf.request_id o.store ≡ ok wf
      → is_complete wf.status ≡ false
      → Filed wf (runner_reply (advance sf wf.request_id max_m false o))
  unfolding advance advance_loaded
  advance-Filed wf max_m o h unfinished =
      rw (h, advance)
        (rw (unfinished, advance_loaded)
          (close-Filed wf o.store _ h
            (λ r e. let (planned, same) = run_steps-Planned sf max_m false _ e in same.4)))

  -- What a creation answers, by what became of the new ticket's file: a ticket that was not written is
  -- an exception, and the files are as they were.
  abbrev pub Created :
      Office sf → Result (ErasureWorkflow sf.H) → Reply (ErasureWorkflow sf.H) × Office sf → Type 0
  Created o (ok wf) replied = Filed wf replied
  Created o (raise x) replied = (replied.0 ≡ uncaught x) × (replied.1.store.files ≡ o.store.files)

  -- Whatever a creation of a ticket answers: a ticket that is returned is the one in the file of its
  -- request id, and behind a 409, or an exception in the runner, the new ticket is in that file, open;
  -- if the new ticket could not be written, the answer is that exception and no file has changed.
  pub create_erasure_request-Filed :
      (t : Ticket sf) (wants_advance : Bool) (max_m : ℕ) (o : Office sf)
      → Created o (create sf t o.store).0 (create_erasure_request t wants_advance max_m o)
  unfolding create_erasure_request created_reply create
  create_erasure_request-Filed t wants_advance max_m o =
      by_save (save sf (new_workflow sf t n) st) (save-IsSave sf (new_workflow sf t n) st)
    where
      n : ℕ
      n = o.store.readings

      st : WorkflowStore sf.H
      st = record o.store { readings = suc (suc n) }

      replied :
          Result (ErasureWorkflow sf.H) × WorkflowStore sf.H
          → Reply (ErasureWorkflow sf.H) × Office sf
      replied (r, st') = created_reply wants_advance max_m r (record o { store = st' })

      by_save :
          (m : Result (ErasureWorkflow sf.H) × WorkflowStore sf.H)
          → IsSave sf (new_workflow sf t n) st m
          → Created o m.0 (replied m)
      by_save (raise x, st') (refused e) = (refl, e)
      by_save (ok v, st') (wrote e) =
          let filed : load sf v.request_id st' ≡ ok v =
            load-own sf (new_workflow sf t n) v st st' e in
          elim (Bool-cases wants_advance) [
            | inr f ↦ rw (f, created_reply) (refl, filed)
            | inl w ↦ elim (Bool-cases (is_loaded o.world)) [
              | inr f ↦ rw (w, f, created_reply) filed
              | inl l ↦
                  rw (w, l, created_reply)
                    (advance-Filed v max_m (record o { store = st' }) filed refl)
            ]
          ]
