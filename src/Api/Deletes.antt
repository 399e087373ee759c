-- ===== src/Api/Deletes.antt =====
-- `enterprise_delete` and `replica_delete_intent` of api/main.py, over the service of
-- integrations/erase_service.py. `compact` and `residual_proof` are what pydantic
-- has read.
use unlearning.Prelude.{
  ℕ, Bool, true, false, not, Option, none, some, List, [], ◌∷◌, ◌++◌, if◌then◌else◌, Str, Exn,
  id_mapping_error, value_error, Result, ok, raise,
}
use unlearning.Prelude.Eq.{str_beq}
use unlearning.Prelude.Text.{codes}
use unlearning.Prelude.Eq.{str_eq}
use unlearning.Strategy.{CompactMode, auto, always, never, flag}
use unlearning.Registry.Ops.{Registry}
use unlearning.Replica.{DeleteIntent}
use unlearning.Erase.Types.{Deps, Receipt, ProofMode, off, sample, full, unknown_mode, observe}
use unlearning.Erase.Service.{Request, Ambient, Service, status_text, delete}
use unlearning.Api.{Reply, answer, refuse, logged}

-- `compact: str | bool`
pub data CompactArg : Type 0 where
  compact_flag : Bool → CompactArg
  compact_text : Str → CompactArg

-- `residual_proof: str`, which `delete` does not check.
abbrev pub proof_mode : Str → ProofMode
proof_mode t =
    if str_beq t (codes "off")
    then off
    else if str_beq t (codes "sample")
    then sample
    else if str_beq t (codes "full")
    then full
    else unknown_mode t

abbrev pub proof_arg : Option Str → Option ProofMode
proof_arg none = none
proof_arg (some t) = some (proof_mode t)

pub record EnterpriseDeleteRequest : Type 0 where
  pub collection : Str
  pub ids : List Str
  pub reason : Option Str
  pub request_id : Option Str
  pub max_m : ℕ
  pub compact : Option CompactArg
  pub residual_proof : Option Str

-- `delete(collection, body.ids, **delete_kwargs)`, with the compact mode.
abbrev pub delete_args : Str → EnterpriseDeleteRequest → Option CompactMode → Request
delete_args collection body compact = record {
  collection = collection;
  ids = body.ids;
  reason = body.reason;
  request_id = body.request_id;
  max_m = body.max_m;
  idempotent = true;
  compact = compact;
  residual_proof = proof_arg body.residual_proof;
  checkpoint_path = none;
}

abbrev pub intent_args : DeleteIntent → Request
intent_args intent = record {
  collection = intent.collection;
  ids = intent.external_ids;
  reason = intent.reason;
  request_id = some intent.request_id;
  max_m = intent.max_m;
  idempotent = true;
  compact = none;
  residual_proof = none;
  checkpoint_path = none;
}

-- What a replica answers; the last two keys are left out behind an exception.
pub record IntentReply : Type 0 where
  pub success : Bool
  pub message : Str
  pub request_id : Str
  pub bytes_wiped_total : Option ℕ
  pub status : Option Str

-- `"; ".join(errors)`
unfoldable pub join_errors : List Str → Str
join_errors [] = []
join_errors (e ∷ []) = e
join_errors (e ∷ f ∷ es) = e ++ (codes "; " ++ join_errors (f ∷ es))

abbrev pub errors_message : List Str → Str
errors_message [] = codes "ok"
errors_message (e ∷ errors) = join_errors (e ∷ errors)

-- `is_loaded` asks the native index, `is_contention` tells a `LockContentionError`, `repr` is Python's.
module _ (deps : Deps) (is_loaded : deps.World → Bool) (is_contention : Exn → Bool)
    (save_registry : Registry → deps.World → Result (Unit {0}) × deps.World)
    (repr : Str → Str) where
  -- `_normalize_compact`, which `delete` calls on the argument before it has changed anything.
  abbrev pub compact_mode : CompactArg → Result CompactMode
  compact_mode (compact_flag b) = ok (flag b)
  compact_mode (compact_text t) =
      if str_beq t (codes "auto")
      then ok auto
      else if str_beq t (codes "always")
      then ok always
      else if str_beq t (codes "never")
      then ok never
      else raise (value_error (codes "compact must be auto|always|never|bool, got " ++ repr t))

  -- The registry is saved.
  abbrev pub save_and_answer : Receipt → Service deps → Reply Receipt × Service deps
  save_and_answer receipt s =
      let (out, w) = save_registry s.registry s.world in
      (logged out receipt, record s { world = w })

  abbrev pub native_error : Exn → Reply Receipt
  native_error x =
      if is_contention x
      then refuse 503 (codes "lock contention: " ++ deps.exn_text x)
      else refuse 500 (codes "enterprise erase failed: " ++ deps.exn_text x)

  abbrev pub delete_error : Exn → Reply Receipt
  delete_error (id_mapping_error p) = refuse 404 (deps.exn_text (id_mapping_error p))
  delete_error x = native_error x

  abbrev pub timed : Service deps → Service deps
  timed s = record s { metrics = s.metrics ++ (observe (codes "enterprise_delete") ∷ []) }

  abbrev pub receipt_reply : Result Receipt × Service deps → Reply Receipt × Service deps
  receipt_reply (ok receipt, s) = save_and_answer receipt (timed s)
  receipt_reply (raise x, s) = (delete_error x, timed s)

  -- The call of `delete`, which raises for a text that is no compact mode.
  abbrev pub call_delete :
      Str → EnterpriseDeleteRequest → Ambient → Service deps → Result Receipt × Service deps
  call_delete collection body amb s = elim body.compact [
    | none ↦ delete deps (delete_args collection body none) amb s
    | some arg ↦ elim (compact_mode arg) [
      | ok mode ↦ delete deps (delete_args collection body (some mode)) amb s
      | raise x ↦ (raise x, s)
    ]
  ]

  unfoldable pub enterprise_delete :
      Str → EnterpriseDeleteRequest → Ambient → Service deps → Reply Receipt × Service deps
  enterprise_delete collection body amb s =
      if not (str_beq body.collection collection)
      then (refuse 400 (codes "path collection must match body.collection"), s)
      else if not (is_loaded s.world)
      then (refuse 409 (codes "no index loaded; load or recover index.bin first"), s)
      else receipt_reply (call_delete collection body amb s)

  abbrev pub intent_reply :
      DeleteIntent → Result Receipt × Service deps → Reply IntentReply × Service deps
  intent_reply intent (ok receipt, s) = (
    answer (record {
      success = receipt.success;
      message = errors_message receipt.errors;
      request_id = intent.request_id;
      bytes_wiped_total = some receipt.bytes_wiped_total;
      status = some (status_text deps receipt.status);
    }),
    s,
  )
  intent_reply intent (raise x, s) = (
    answer (record {
      success = false;
      message = deps.exn_text x;
      request_id = intent.request_id;
      bytes_wiped_total = none;
      status = none;
    }),
    s,
  )

  -- Behind `DeleteIntent.from_json`, whose exceptions are answered 400.
  unfoldable pub replica_delete_intent :
      Result DeleteIntent → Ambient → Service deps → Reply IntentReply × Service deps
  replica_delete_intent (raise x) amb s = (refuse 400 (codes "bad intent: " ++ deps.exn_text x), s)
  replica_delete_intent (ok intent) amb s =
      if not (is_loaded s.world)
      then (refuse 409 (codes "no index loaded on replica"), s)
      else intent_reply intent (delete deps (intent_args intent) amb s)
