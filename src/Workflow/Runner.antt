-- ===== src/Workflow/Runner.antt =====
-- `ErasureWorkflowRunner.advance` of integrations/workflow.py: the steps in their order, and the status
-- that follows from them.
use unlearning.Prelude.{
  ℕ, suc, Bool, true, false, not, ◌&&◌, ◌||◌, Option, none, some, List, [], ◌∷◌, ◌++◌,
  if◌then◌else◌, Str, Result, ok, raise,
}
use unlearning.Prelude.Dict.{Dict}
use unlearning.Prelude.Eq.{str_eq, str_beq}
use unlearning.Prelude.Text.{codes, is_empty}
use unlearning.Erase.Types
use unlearning.Erase.Types.{Receipt, ReceiptStatus, ProofMode, ProofSummary}
use unlearning.Workflow.{
  WorkflowStatus, in_progress, complete, blocked, pending, done, failed, skipped, is_done,
  is_failed, is_skipped, is_complete, of_delete, of_proof, of_hook, ErasureStep, live_hard_delete,
  residual_proof, replica_fanout, crypto_shred, document_store, backup_policy, ErasureWorkflow,
  step, set_step, add_error, WorkflowStore, Surfaces, save, load,
}

abbrev pub status_name : ReceiptStatus → Str
status_name Types.complete = codes "complete"
status_name Types.partial = codes "partial"
status_name Types.failed = codes "failed"

abbrev pub bool_name : Bool → Str
bool_name true = codes "True"
bool_name false = codes "False"

-- `"; ".join(errors)`
abbrev pub join_errors : List Str → Str
join_errors [] = []
join_errors (e ∷ []) = e
join_errors (e ∷ f ∷ es) = e ++ (codes "; " ++ join_errors (f ∷ es))

-- `"; ".join(receipt.errors) or receipt.status`
abbrev pub failure_detail : Receipt → Str
failure_detail r =
    let text = join_errors r.errors in if is_empty text then status_name r.status else text

module _ (sf : Surfaces) where
  open sf use {World, H, unix_ns, exn_text}

  -- A ticket in memory, with the world and the clock.
  pub record Run : Type 0 where
    pub wf : ErasureWorkflow H
    pub world : World
    pub readings : ℕ

  abbrev pub Outcome : Type 0
  Outcome = Result (Unit {0}) × Run

  -- The next statement, unless an exception left the one before.
  abbrev pub then_run : (Run → Outcome) → Outcome → Outcome
  then_run k (ok u, r) = k r
  then_run k (raise x, r) = (raise x, r)

  -- A step found by its name, or the `KeyError`.
  abbrev pub with_step : Str → (ErasureStep H → Run → Outcome) → Run → Outcome
  with_step name k r = elim (step name r.wf) [ raise x ↦ (raise x, r) | ok s ↦ k s r ]

  -- The end of a step: its time stamp.
  abbrev pub stamp : Str → ErasureStep H → Run → Outcome
  stamp name s r = (
    ok tt,
    record r {
      wf = set_step name (record s { updated_unix_ns = unix_ns r.readings }) r.wf;
      readings = suc r.readings;
    },
  )

  abbrev pub live_error : Str → Str
  live_error text = codes "live_hard_delete: " ++ text

  -- What the receipt, or the exception, makes of the live step.
  unfoldable pub after_delete : ErasureStep H → Run → Result Receipt × World → Outcome
  after_delete s r (raise x, world) =
      stamp live_hard_delete (record s { status = failed; detail = exn_text x })
        (record r { wf = add_error (live_error (exn_text x)) r.wf; world = world })
  after_delete s r (ok receipt, world) =
      if receipt.success
      then stamp live_hard_delete
          (record s {
            status = done;
            detail =
                codes "status="
                ++ (status_name receipt.status
                    ++ (codes " compacted=" ++ bool_name receipt.compacted));
            artifact = some (of_delete receipt.success receipt.labels receipt.bytes_wiped_total);
          })
          (record r { wf = record r.wf { receipt = some receipt }; world = world })
      else stamp live_hard_delete (record s { status = failed; detail = failure_detail receipt })
          (record r {
            wf =
                add_error (live_error (failure_detail receipt))
                  (record r.wf { receipt = some receipt });
            world = world;
          })

  -- `_run_live_delete` on its step: the clock is read once before the delete.
  unfoldable pub live_delete : ℕ → ErasureStep H → Run → Outcome
  unfolding after_delete
  live_delete max_m s r =
      if is_done s.status
      then (ok tt, r)
      else after_delete (record s { updated_unix_ns = unix_ns r.readings })
          (record r { readings = suc r.readings })
          (sf.delete r.wf.collection r.wf.external_ids r.wf.reason r.wf.request_id max_m r.world)

  unfoldable pub run_live_delete : ℕ → Run → Outcome
  unfolding live_delete
  run_live_delete max_m = with_step live_hard_delete (live_delete max_m)

  -- What the residual step is set to, and the error that is noted; `none` is a receipt without a proof.
  unfoldable pub mirror_proof : Option Receipt → ErasureStep H → Run → Outcome
  mirror_proof none s r =
      stamp residual_proof (record s { status = skipped; detail = codes "residual proof disabled" })
        r
  mirror_proof (some receipt) s r = elim receipt.residual_proof.mode [
    | Types.off ↦
        stamp residual_proof
          (record s { status = skipped; detail = codes "residual proof disabled" }) r
    | mode ↦ elim receipt.residual_proof.passed [
      | some true ↦
          stamp residual_proof
            (record s {
              status = done;
              detail = receipt.residual_proof.details;
              artifact = some (of_proof receipt.residual_proof);
            })
            r
      | some false ↦
          stamp residual_proof
            (record s {
              status = failed;
              detail = receipt.residual_proof.details;
              artifact = some (of_proof receipt.residual_proof);
            })
            (record r {
              wf = add_error (codes "residual_proof: " ++ receipt.residual_proof.details) r.wf;
            })
      | none ↦
          stamp residual_proof
            (record s { status = skipped; detail = codes "no residual proof data" }) r
    ]
  ]

  unfoldable pub mirror_step : ErasureStep H → Run → Outcome
  unfolding mirror_proof
  mirror_step s r = if is_done s.status then (ok tt, r) else mirror_proof r.wf.receipt s r

  unfoldable pub mirror_residual_from_receipt : Run → Outcome
  unfolding mirror_step
  mirror_residual_from_receipt = with_step residual_proof mirror_step

  unfoldable pub after_hook : Str → ErasureStep H → Run → Result H × World → Outcome
  after_hook name s r (ok art, world) =
      stamp name (record s { status = done; detail = codes "ok"; artifact = some (of_hook art) })
        (record r { world = world })
  after_hook name s r (raise x, world) =
      stamp name (record s { status = failed; detail = exn_text x })
        (record r { wf = add_error (name ++ (codes ": " ++ exn_text x)) r.wf; world = world })

  unfoldable pub no_hook : Str → Bool → ErasureStep H → Run → Outcome
  no_hook name true s r =
      stamp name (record s { status = pending; detail = codes "required but no hook configured" }) r
  no_hook name false s r =
      stamp name (record s { status = failed; detail = codes "required but no hook configured" })
        (record r { wf = add_error (name ++ codes ": no hook configured") r.wf })

  -- `_run_optional` on its step.
  unfoldable pub optional_step :
      Str → Bool → Option (World → Result H × World) → Bool → ErasureStep H → Run → Outcome
  unfolding after_hook no_hook
  optional_step name required hook skip_optional s r =
      if is_done s.status
      then (ok tt, r)
      else if not required
      then stamp name (record s { status = skipped; detail = codes "not required by policy" }) r
      else elim hook [
        | none ↦ no_hook name skip_optional s r
        | some call ↦ after_hook name s r (call r.world)
      ]

  unfoldable pub run_optional :
      Str → Bool → Option (World → Result H × World) → Bool → Run → Outcome
  unfolding optional_step
  run_optional name required hook skip_optional =
      with_step name (optional_step name required hook skip_optional)

  -- Which names `_compute_status` takes as required.
  unfoldable pub required_by : ErasureWorkflow H → Str → Bool
  required_by wf name =
      if str_beq name replica_fanout
      then wf.require_replica
      else if str_beq name crypto_shred
      then wf.require_crypto_shred
      else if str_beq name document_store
      then wf.require_document_store
      else if str_beq name backup_policy
      then wf.require_backup_ack
      else false

  -- The loop of `_compute_status`.
  unfoldable pub status_loop : ErasureWorkflow H → Dict Str (ErasureStep H) → WorkflowStatus
  status_loop wf [] = complete
  status_loop wf ((name, s) ∷ steps) =
      let rest = status_loop wf steps in
      if str_beq name live_hard_delete
      then rest
      else if str_beq name residual_proof
      then (if is_failed s.status then blocked else rest)
      else if required_by wf name && not (is_done s.status || is_skipped s.status)
      then (if is_failed s.status then blocked else in_progress)
      else if required_by wf name && is_failed s.status
      then blocked
      else rest

  unfoldable pub compute_status : ErasureWorkflow H → Result WorkflowStatus
  unfolding status_loop
  compute_status wf = elim (step live_hard_delete wf) [
    | raise x ↦ raise x
    | ok live ↦
        if not (is_done live.status)
        then (if is_failed live.status then ok blocked else ok in_progress)
        else ok (status_loop wf wf.steps)
  ]

  -- `(lambda: hook(…)) if hook else None`, on the ticket at hand
  abbrev pub replica_call : ErasureWorkflow H → Option (World → Result H × World)
  replica_call wf = elim sf.replica_hook [
    | none ↦ none
    | some hook ↦ some (hook wf.collection wf.external_ids wf.request_id)
  ]

  abbrev pub shred_call : ErasureWorkflow H → Option (World → Result H × World)
  shred_call wf = elim sf.shred_hook [ none ↦ none | some hook ↦ some (hook wf.external_ids) ]

  abbrev pub document_call : ErasureWorkflow H → Option (World → Result H × World)
  document_call wf = elim sf.document_hook [
    | none ↦ none
    | some hook ↦ some (hook wf.collection wf.external_ids)
  ]

  abbrev pub backup_call : ErasureWorkflow H → Option (World → Result H × World)
  backup_call wf = elim sf.backup_hook [
    | none ↦ none
    | some hook ↦ some (hook wf.collection wf.external_ids)
  ]

  -- The steps of `advance`, on the ticket that was loaded.
  unfoldable pub run_steps : ℕ → Bool → Run → Outcome
  run_steps max_m skip r =
      let wf = r.wf in
      then_run (run_optional backup_policy wf.require_backup_ack (backup_call wf) skip) (
        then_run (run_optional document_store wf.require_document_store (document_call wf) skip) (
          then_run (run_optional crypto_shred wf.require_crypto_shred (shred_call wf) skip) (
            then_run (run_optional replica_fanout wf.require_replica (replica_call wf) skip)
              (then_run mirror_residual_from_receipt (run_live_delete max_m r)))))

  -- What a call of the runner changes.
  pub record Office : Type 0 where
    pub store : WorkflowStore H
    pub world : World

  -- Behind the steps: the status, and the file.
  unfoldable pub close : WorkflowStore H → Outcome → Result (ErasureWorkflow H) × Office
  close st (raise x, r) =
      (raise x, record { store = record st { readings = r.readings }; world = r.world })
  close st (ok u, r) = elim (compute_status r.wf) [
    | raise x ↦ (raise x, record { store = record st { readings = r.readings }; world = r.world })
    | ok status ↦
        let (saved, st') =
          save sf (record r.wf { status = status }) (record st { readings = r.readings }) in
        (saved, record { store = st'; world = r.world })
  ]

  unfoldable pub advance_loaded :
      ℕ → Bool → ErasureWorkflow H → Office → Result (ErasureWorkflow H) × Office
  unfolding run_steps
  advance_loaded max_m skip wf o =
      if is_complete wf.status
      then (ok wf, o)
      else close o.store (
          run_steps max_m skip (record {
            wf = record wf { status = in_progress };
            world = o.world;
            readings = o.store.readings;
          }))

  unfoldable pub advance : Str → ℕ → Bool → Office → Result (ErasureWorkflow H) × Office
  unfolding advance_loaded
  advance request_id max_m skip o = elim (load sf request_id o.store) [
    | raise x ↦ (raise x, o)
    | ok wf ↦ advance_loaded max_m skip wf o
  ]
