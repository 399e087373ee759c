-- ===== src/Workflow/Files.antt =====
-- The files of the tickets (`path_for`, `save`, `load` and `create` of integrations/workflow.py).
use unlearning.Prelude.{
  ◌≡◌, refl, if◌then◌else◌, Bool-cases, Option-cases, inl, inr, Str, Exn, Result, ok, raise,
}
use unlearning.Prelude.Dict.{put, get-put}
use unlearning.Prelude.Eq.{str_eq, str_beq, str_beq_iff}
use unlearning.Workflow.{ErasureWorkflow, WorkflowStore, Surfaces, path_for, stamped, save, load}

module _ (sf : Surfaces) where
  -- A `save` that wrote the ticket, or one that raised and left the files alone.
  pub data IsSave (wf : ErasureWorkflow sf.H) (st : WorkflowStore sf.H)
      : Result (ErasureWorkflow sf.H) × WorkflowStore sf.H → Type 0 where
    wrote :
        {st' : WorkflowStore sf.H}
        → st'.files ≡ put (path_for sf.is_alnum wf.request_id) (stamped sf wf st) st.files
        → IsSave wf st (ok (stamped sf wf st), st')
    refused :
        {x : Exn} {st' : WorkflowStore sf.H} → st'.files ≡ st.files → IsSave wf st (raise x, st')

  pub save-IsSave :
      (wf : ErasureWorkflow sf.H) (st : WorkflowStore sf.H) → IsSave wf st (save sf wf st)
  unfolding save
  save-IsSave wf st = elim (Option-cases (sf.write_error st.readings (stamped sf wf st))) [
    | inl e ↦ rw (e, save) (wrote refl)
    | inr (x, e) ↦ rw (e, save) (refused refl)
  ]

  -- The tickets that are found in the files.
  pub load-put :
      (wf v : ErasureWorkflow sf.H) (st st' : WorkflowStore sf.H) (request_id : Str)
      → st'.files ≡ put (path_for sf.is_alnum wf.request_id) v st.files
      → load sf request_id st' ≡ (
          if str_beq (path_for sf.is_alnum wf.request_id) (path_for sf.is_alnum request_id)
          then ok v
          else load sf request_id st)
  unfolding load
  load-put wf v st st' request_id e =
      elim (Bool-cases
        (str_beq (path_for sf.is_alnum wf.request_id) (path_for sf.is_alnum request_id))) [
          | inl same ↦
              rw same
                (rw (e, get-put _ (path_for sf.is_alnum request_id) v st.files, same, load) refl)
          | inr other ↦
              rw other
                (rw (e, get-put _ (path_for sf.is_alnum request_id) v st.files, other, load) refl)
        ]

  -- A ticket that was put in its file is loaded.
  pub load-own :
      (wf v : ErasureWorkflow sf.H) (st st' : WorkflowStore sf.H)
      → st'.files ≡ put (path_for sf.is_alnum wf.request_id) v st.files
      → load sf wf.request_id st' ≡ ok v
  load-own wf v st st' e =
      let path = path_for sf.is_alnum wf.request_id in
      let found = load-put wf v st st' wf.request_id e in
      rw ((str_beq_iff path path).1 refl) at found
