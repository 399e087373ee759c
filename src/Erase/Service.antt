-- ===== src/Erase/Service.antt =====
-- `ErasureService.delete` of integrations/erase_service.py: the whole handler. `now` is the
-- receipt's time stamp, `fresh_id` the generated request id, `tick` and `tick'` the monotonic clock at the two
-- calls of the compact policy.
use unlearning.Prelude.{
  ℕ, ◌+◌, Bool, true, false, not, ◌&&◌, ◌||◌, Option, none, some, List, [], ◌∷◌, ◌++◌, max, length,
  if◌then◌else◌, Str, Result, ok, raise, os_error,
}
use unlearning.Prelude.Dict.{is_some}
use unlearning.Prelude.Text.{codes, strip, is_empty}
use unlearning.Policy.{Policy, pending_count}
use unlearning.Registry.Ops.{Registry, labels}
use unlearning.Strategy.{
  CompactMode, Recommendation, StrategyAction, Reason, wipe_only, wipe_and_heal, wipe_and_compact,
  wipe_heal_and_compact, full_rebuild_recommended, empty_batch, no_compact_backend_heal_opt_in,
  no_compact_backend, critical_delete_fraction, elevated_delete_fraction, tiny_batch_heal_opt_in,
  default_product_path, is_adaptable, apply_strategy_to_delete_kwargs, recommend_delete_strategy,
  heal_allowed_by_env,
}
use unlearning.Erase.Types.{
  Deps, Receipt, ReceiptStatus, complete, partial, failed, ProofMode, ProofSummary, Metric, inc,
  observe, gauge,
}
use unlearning.Erase.Status.{derive_status, is_off, is_nil}
use unlearning.Erase.Batch.{Progress, erase_all}
use unlearning.Erase.Compaction.{
  Rebuilt, normalize_compact, supports_compact, when_metrics, note_batch, plan_compact, run_compact,
}
use unlearning.Erase.Proofs.{env_residual_proof_mode, run_residual_proofs}

abbrev pub action_text : StrategyAction → Str
action_text wipe_only = codes "wipe_only"
action_text wipe_and_heal = codes "wipe_and_heal"
action_text wipe_and_compact = codes "wipe_and_compact"
action_text wipe_heal_and_compact = codes "wipe_heal_and_compact"
action_text full_rebuild_recommended = codes "full_rebuild_recommended"

abbrev pub reason_text : Reason → Str
reason_text empty_batch = codes "empty_batch"
reason_text no_compact_backend_heal_opt_in = codes "no_compact_backend_heal_opt_in"
reason_text no_compact_backend = codes "no_compact_backend"
reason_text critical_delete_fraction = codes "critical_delete_fraction"
reason_text elevated_delete_fraction = codes "elevated_delete_fraction"
reason_text tiny_batch_heal_opt_in = codes "tiny_batch_heal_opt_in"
reason_text default_product_path = codes "default_product_path"

-- `f"{prefix}:{action}({reason})"`
abbrev pub strategy_text : Str → Recommendation → Str
strategy_text prefix rec =
    prefix
    ++ (codes ":"
        ++ (action_text rec.action ++ (codes "(" ++ (reason_text rec.reason ++ codes ")"))))

-- `[str(i).strip() for i in ids if str(i).strip()]`
unfoldable pub clean_ids : List Str → List Str
clean_ids [] = []
clean_ids (i ∷ is) = let rest = clean_ids is in if is_empty (strip i) then rest else strip i ∷ rest

-- The arguments of `delete`, keyword arguments included.
pub record Request : Type 0 where
  pub collection : Str
  pub ids : List Str
  pub reason : Option Str
  pub request_id : Option Str
  pub max_m : ℕ
  pub idempotent : Bool
  pub compact : Option CompactMode
  pub residual_proof : Option ProofMode
  pub checkpoint_path : Option Str

-- What the clock and the id generator give to one call.
pub record Ambient : Type 0 where
  pub now : ℕ
  pub fresh_id : Str
  pub tick : ℕ
  pub tick' : ℕ

pub record Service (deps : Deps) : Type 0 where
  pub registry : Registry
  pub world : deps.World
  pub policy : Policy
  pub metrics : List Metric

-- The compact mode of a call before it is normalised, and the message that goes with it.
pub record Choice : Type 0 where
  pub mode : CompactMode
  pub notes : List Str

abbrev pub or_mode : Option CompactMode → CompactMode → CompactMode
or_mode none d = d
or_mode (some m) d = m

-- `compact is None or compact in ("auto", True)`
abbrev pub follows_strategy : Option CompactMode → Bool
follows_strategy none = true
follows_strategy (some m) = is_adaptable m

module _ (deps : Deps) where
  -- `len(self.registry.labels(collection)) + n`, where the collection is a valid name
  abbrev pub registered_size : Str → Registry → ℕ → ℕ → ℕ
  registered_size collection registry n size = elim (labels collection registry) [
    | raise x ↦ size
    | ok ls ↦ max size (length ls + n)
  ]

  abbrev pub with_rows : deps.World → ℕ → ℕ
  with_rows world size = elim deps.rows [ none ↦ size | some rows ↦ max size (rows world) ]

  unfoldable pub index_size : Str → Registry → deps.World → ℕ → ℕ
  index_size collection registry world n =
      with_rows world (registered_size collection registry n (max n 1))

  abbrev pub supports_heal : Bool
  supports_heal = deps.has_heal_mirror || is_some deps.persistence

  -- The first `try` of `delete`: the adaptive compact mode.
  unfoldable pub choose_compact : Option CompactMode → ℕ → ℕ → Choice
  choose_compact compact n size =
      let adapted =
        apply_strategy_to_delete_kwargs deps.env n size (supports_compact deps) supports_heal
          compact in
      if follows_strategy compact
      then record {
        mode = adapted.compact;
        notes = strategy_text (codes "strategy") adapted.strategy ∷ [];
      }
      else record { mode = or_mode compact deps.default_compact; notes = [] }

  unfoldable pub choose_proof : Option ProofMode → ProofMode
  choose_proof (some mode) = mode
  choose_proof none = elim deps.default_residual_proof [
    | some mode ↦ mode
    | none ↦ env_residual_proof_mode deps.residual_proof_env
  ]

  -- The second `try`: a hint when a rebuild is advised and none was made.
  unfoldable pub hints : Str → Registry → deps.World → List ℕ → Bool → List Str
  hints collection registry world ls compacted =
      let rec =
        recommend_delete_strategy (length ls)
          (max (index_size collection registry world (length ls)) (length ls))
          (supports_compact deps) supports_heal (heal_allowed_by_env deps.env.allow_heal) in
      if is_nil ls
      then []
      else if rec.prefer_full_rebuild && not compacted
      then strategy_text (codes "strategy_hint") rec ∷ []
      else []

  -- `residual_proof failed: …`, if a proof was made and did not pass
  unfoldable pub proof_errors : ProofMode → ProofSummary → List Str
  proof_errors mode summary = elim summary.passed [
    | none ↦ []
    | some ok_ ↦
        if is_off mode || ok_ then [] else (codes "residual_proof failed: " ++ summary.details) ∷ []
  ]

  abbrev pub bool_text : Bool → Str
  bool_text true = codes "True"
  bool_text false = codes "False"

  abbrev pub status_text : ReceiptStatus → Str
  status_text complete = codes "complete"
  status_text partial = codes "partial"
  status_text failed = codes "failed"

  -- `','.join(ids)`
  unfoldable pub join_ids : List Str → Str
  join_ids [] = []
  join_ids (i ∷ []) = i
  join_ids (i ∷ j ∷ is) = i ++ (codes "," ++ join_ids (j ∷ is))

  abbrev pub int_of_bool : Bool → Str
  int_of_bool true = codes "1"
  int_of_bool false = codes "0"

  -- The text that `_sign` authenticates.
  unfoldable pub payload : Receipt → Str
  payload r =
      deps.int_text r.receipt_version
      ++ (codes "|"
          ++ (r.request_id
              ++ (codes "|"
                  ++ (r.collection
                      ++ (codes "|"
                          ++ (join_ids r.external_ids
                              ++ (codes "|"
                                  ++ (deps.int_text r.timestamp_unix_ns
                                      ++ (codes "|"
                                          ++ (deps.int_text r.bytes_wiped_total
                                              ++ (codes "|"
                                                  ++ (bool_text r.success
                                                      ++ (codes "|"
                                                          ++ (status_text r.status
                                                            ++ (codes "|"
                                                            ++ int_of_bool
                                                            r.compacted)))))))))))))))

  unfoldable pub sign : Receipt → Receipt
  sign r = record r { signature = deps.hmac (payload r) }

  -- An `OSError` of the receipt log is swallowed.
  unfoldable pub log_receipt : Receipt → deps.World → Result (Unit {0}) × deps.World
  log_receipt receipt world = elim deps.receipt_log [
    | none ↦ (ok tt, world)
    | some append ↦
        let (result, world') = append receipt world in
        elim result [
          | ok u ↦ (ok tt, world')
          | raise (os_error text) ↦ (ok tt, world')
          | raise x ↦ (raise x, world')
        ]
  ]

  abbrev pub final_metrics : Receipt → Policy → List Metric
  final_metrics receipt policy = when_metrics deps (
      inc (codes "deletes_batches") 1
      ∷ inc (codes "deletes_ids") (length receipt.labels)
      ∷ (if receipt.success
          then inc (codes "deletes_complete") 1
          else inc (codes "deletes_incomplete") 1)
      ∷ gauge (codes "compact_pending") (pending_count policy)
      ∷ [])

  abbrev pub is_complete : ReceiptStatus → Bool
  is_complete complete = true
  is_complete s = false

  -- From the counts to the receipt, unsigned.
  unfoldable pub make_receipt :
      Request
      → Ambient
      → List Str
      → ProofMode
      → Bool
      → Progress deps
      → Rebuilt deps
      → ProofSummary
      → Receipt
  make_receipt req amb exts mode deferred p built summary =
      let errors = built.errors ++ proof_errors mode summary in
      let status =
        derive_status (length exts) (length p.labels) errors mode summary.passed deferred in
      record {
        request_id = elim req.request_id [
          | none ↦ amb.fresh_id
          | some rid ↦ if is_empty rid then amb.fresh_id else rid
        ];
        collection = req.collection;
        external_ids = exts;
        labels = p.labels;
        success = is_complete status;
        reason = req.reason;
        timestamp_unix_ns = amb.now;
        bytes_wiped_total = p.bytes_total;
        backend_messages =
            built.messages ++ hints req.collection p.registry built.world p.labels built.compacted;
        transaction_ids = p.tx_ids;
        signature = [];
        errors = errors;
        receipt_version = 2;
        status = status;
        compacted = built.compacted;
        residual_proof = summary;
      }

  -- Sign, log, count, return.
  unfoldable pub finish :
      Receipt → Registry → Rebuilt deps → List Metric → Result Receipt × Service deps
  finish receipt registry built metrics =
      let (logged, world) = log_receipt receipt built.world in
      elim logged [
        | raise x ↦ (
          raise x,
          record { registry = registry; world = world; policy = built.policy; metrics = metrics },
        )
        | ok u ↦ (
          ok receipt,
          record {
            registry = registry;
            world = world;
            policy = built.policy;
            metrics = metrics ++ final_metrics receipt built.policy;
          },
        )
      ]

  abbrev pub proof_metrics : ProofMode → ProofSummary → List Metric
  proof_metrics mode summary = when_metrics deps (
      observe (codes "residual_proof")
      ∷ (if is_nil (proof_errors mode summary)
          then []
          else inc (codes "residual_proof_failures") 1 ∷ []))

  -- Behind the proofs: report. `verify_zeroed` may have raised in them.
  unfoldable pub after_proofs :
      Request
      → Ambient
      → List Str
      → ProofMode
      → Bool
      → List Metric
      → Progress deps
      → Rebuilt deps
      → Result ProofSummary
      → Result Receipt × Service deps
  after_proofs req amb exts mode deferred metrics p built (raise x) = (
    raise x,
    record {
      registry = p.registry;
      world = built.world;
      policy = built.policy;
      metrics = metrics ++ built.metrics;
    },
  )
  after_proofs req amb exts mode deferred metrics p built (ok summary) =
      finish (sign (make_receipt req amb exts mode deferred p built summary)) p.registry built
        (metrics ++ (built.metrics ++ proof_metrics mode summary))

  -- Behind the loop: compact, prove, report.
  unfoldable pub after_batch :
      Request
      → Ambient
      → List Str
      → CompactMode
      → ProofMode
      → Policy
      → List Metric
      → Progress deps
      → Result Receipt × Service deps
  after_batch req amb exts compact_mode proof_mode policy metrics p =
      let noted = note_batch deps amb.tick p.labels policy in
      let pl = plan_compact deps amb.tick' p.labels compact_mode noted in
      let built = run_compact deps pl p.world noted p.messages p.errors in
      after_proofs req amb exts proof_mode pl.deferred metrics p built (
        run_residual_proofs deps req.collection built.world proof_mode p.labels p.erased_ext
          p.originals req.checkpoint_path)

  abbrev pub start : Service deps → List Str → Progress deps
  start s notes = record {
    registry = s.registry;
    world = s.world;
    labels = [];
    messages = notes;
    errors = [];
    tx_ids = [];
    bytes_total = 0;
    erased_ext = [];
    originals = [];
  }

  -- `proof_mode != "off" and hasattr(self.backend, "get_vector")`
  abbrev pub need_originals : ProofMode → Bool
  need_originals mode = not (is_off mode) && is_some deps.get_vector

  -- An exception that left the loop, or the rest of the handler.
  unfoldable pub after_loop :
      Request
      → Ambient
      → List Str
      → CompactMode
      → ProofMode
      → Policy
      → List Metric
      → Result (Unit {0}) × Progress deps
      → Result Receipt × Service deps
  after_loop req amb exts compact_mode proof_mode policy metrics (raise x, p) = (
    raise x,
    record { registry = p.registry; world = p.world; policy = policy; metrics = metrics },
  )
  after_loop req amb exts compact_mode proof_mode policy metrics (ok u, p) =
      after_batch req amb exts compact_mode proof_mode policy metrics p

  unfoldable pub delete : Request → Ambient → Service deps → Result Receipt × Service deps
  delete req amb s =
      let exts = clean_ids req.ids in
      let choice =
        choose_compact req.compact (length exts)
          (index_size req.collection s.registry s.world (length exts)) in
      let proof_mode = choose_proof req.residual_proof in
      after_loop req amb exts (normalize_compact choice.mode) proof_mode s.policy s.metrics (
        erase_all deps req.collection req.max_m req.idempotent (need_originals proof_mode) exts
          (start s choice.notes))
