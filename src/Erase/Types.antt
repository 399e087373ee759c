-- ===== src/Erase/Types.antt =====
-- Data of integrations/erase_service.py and integrations/backends.py, and the interface of the
-- objects that the service calls: backend, durable engine, receipt log, HMAC. The world is whatever
-- those objects keep; a call returns it as it leaves it, also where it raises.
use unlearning.Prelude.{ℕ, Bool, Option, List, Str, Exn, Result}
use unlearning.Residual.{Floats, Files, ResidualProof}
use unlearning.Policy.{Decision}
use unlearning.Strategy.{CompactMode, Env}

pub record BackendEraseResult : Type 0 where
  pub success : Bool
  pub label : ℕ
  pub bytes_wiped : ℕ
  pub message : Option Str
  pub compacted : Bool

-- `HardDeleteResult` of api/persistence.py
pub record HardDeleteResult : Type 0 where
  pub success : Bool
  pub node_id : ℕ
  pub transaction_id : ℕ
  pub message : Option Str
  pub bytes_wiped : ℕ
  pub recovered : Bool

pub data ReceiptStatus : Type 0 where
  complete partial failed : ReceiptStatus

pub data ProofMode : Type 0 where
  off sample full : ProofMode
  -- another text, which `delete` takes as it is
  unknown_mode : Str → ProofMode

pub record ProofSummary : Type 0 where
  pub mode : ProofMode
  pub passed : Option Bool
  pub checked : ℕ
  pub failed : ℕ
  pub proofs : List ResidualProof
  pub details : Str

pub record Receipt : Type 0 where
  pub request_id : Str
  pub collection : Str
  pub external_ids : List Str
  pub labels : List ℕ
  pub success : Bool
  pub reason : Option Str
  pub timestamp_unix_ns : ℕ
  pub bytes_wiped_total : ℕ
  pub backend_messages : List Str
  pub transaction_ids : List ℕ
  pub signature : Str
  pub errors : List Str
  pub receipt_version : ℕ
  pub status : ReceiptStatus
  pub compacted : Bool
  pub residual_proof : ProofSummary

-- What the service is made with. An optional method or object is an `Option`. `exn_text` is
-- `str(exc)`, `int_text` is `str` on integers, `decision_text` a decision's reason with its numbers
-- formatted.
pub record Deps : Type 1 where
  pub floats : Floats
  pub World : Type 0
  -- `backend.hard_delete_label(collection, label, max_m=…)`
  pub hard_delete_label : Str → ℕ → ℕ → World → Result BackendEraseResult × World
  -- `backend.verify_zeroed(collection, label)`
  pub verify_zeroed : Str → ℕ → World → Result Bool
  -- `backend.compact()`
  pub compact : Option (World → Result ℕ × World)
  -- `backend.get_vector(label)`
  pub get_vector : Option (ℕ → World → Result (List floats.F))
  -- `backend._vectors.shape[0]`
  pub rows : Option (World → ℕ)
  -- `hasattr(backend, "_heal_mirror")`
  pub has_heal_mirror : Bool
  -- `persistence.hard_delete_and_heal(label, max_m=…)`
  pub persistence : Option (ℕ → ℕ → World → Result HardDeleteResult × World)
  -- `receipt_log.append(receipt.to_dict())`
  pub receipt_log : Option (Receipt → World → Result (Unit {0}) × World)
  pub files : World → Files
  pub hmac : Str → Str
  pub exn_text : Exn → Str
  pub int_text : ℕ → Str
  pub decision_text : Decision → Str
  pub drop_mappings : Bool
  pub default_compact : CompactMode
  pub default_residual_proof : Option ProofMode
  pub residual_proof_env : Str
  pub env : Env
  pub metrics : Bool

-- What is reported to the metrics registry; timings are not told apart.
pub data Metric : Type 0 where
  inc : Str → ℕ → Metric
  observe : Str → Metric
  gauge : Str → ℕ → Metric
