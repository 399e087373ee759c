-- ===== src/Workflow.antt =====
-- integrations/workflow.py: the erasure ticket, its steps, the store of tickets and the runner. A
-- file of the store is the ticket that was written to it: the JSON of `save` and `load` is read
-- back as it was written. The erase service and the hooks are parameters, with the world that they
-- change. A step is filed under its name. A write of a ticket that raises does so before the file is
-- touched (`json.dumps`, or opening the file): a write that breaks off half-way is not modelled, nor
-- is a name that the file system refuses to look up. The metrics of `advance` are left out.
pub mod Runner
pub mod Closed
pub mod Keeps
pub mod Sound
pub mod Files
pub mod Tests
use unlearning.Prelude.{
  ℕ, suc, Bool, true, false, not, ◌&&◌, ◌||◌, Option, none, some, List, [], ◌∷◌, ◌++◌, map, ◌==◌,
  if◌then◌else◌, Str, Exn, Result, ok, raise, key_error, os_error, leb,
}
use unlearning.Prelude.Dict.{Dict, get, put, is_some}
use unlearning.Prelude.Eq.{str_eq, str_beq}
use unlearning.Prelude.Text.{codes, is_empty}
use unlearning.Erase.Types.{Receipt, ProofSummary}

pub data WorkflowStatus : Type 0 where
  opened in_progress complete blocked : WorkflowStatus

pub data StepStatus : Type 0 where
  pending running done failed skipped : StepStatus

abbrev pub is_done : StepStatus → Bool
is_done done = true
is_done s = false

abbrev pub is_failed : StepStatus → Bool
is_failed failed = true
is_failed s = false

abbrev pub is_skipped : StepStatus → Bool
is_skipped skipped = true
is_skipped s = false

abbrev pub is_complete : WorkflowStatus → Bool
is_complete complete = true
is_complete s = false

-- What a step keeps of its run; `H` is what a hook returns.
pub data Artifact (H : Type 0) : Type 0 where
  of_delete : Bool → List ℕ → ℕ → Artifact H
  of_proof : ProofSummary → Artifact H
  of_hook : H → Artifact H

pub record ErasureStep (H : Type 0) : Type 0 where
  pub status : StepStatus
  pub detail : Str
  pub artifact : Option (Artifact H)
  pub updated_unix_ns : ℕ

abbrev pub live_hard_delete : Str
live_hard_delete = codes "live_hard_delete"

abbrev pub residual_proof : Str
residual_proof = codes "residual_proof"

abbrev pub replica_fanout : Str
replica_fanout = codes "replica_fanout"

abbrev pub crypto_shred : Str
crypto_shred = codes "crypto_shred"

abbrev pub document_store : Str
document_store = codes "document_store"

abbrev pub backup_policy : Str
backup_policy = codes "backup_policy"

abbrev pub step_order : List Str
step_order =
    live_hard_delete ∷ residual_proof ∷ replica_fanout ∷ crypto_shred ∷ document_store
    ∷ backup_policy ∷ []

pub record ErasureWorkflow (H : Type 0) : Type 0 where
  pub request_id : Str
  pub collection : Str
  pub external_ids : List Str
  pub reason : Option Str
  pub status : WorkflowStatus
  pub created_unix_ns : ℕ
  pub updated_unix_ns : ℕ
  pub steps : Dict Str (ErasureStep H)
  pub receipt : Option Receipt
  pub errors : List Str
  pub require_replica : Bool
  pub require_crypto_shred : Bool
  pub require_document_store : Bool
  pub require_backup_ack : Bool

abbrev pub new_step : {H : Type 0} → ErasureStep H
new_step = record { status = pending; detail = []; artifact = none; updated_unix_ns = 0 }

-- `[ErasureStep(name=n) for n in STEP_ORDER]`
abbrev pub new_steps : {H : Type 0} → List Str → Dict Str (ErasureStep H)
new_steps [] = []
new_steps (n ∷ ns) = (n, new_step) ∷ new_steps ns

-- `wf.step(name)`
unfoldable pub step : {H : Type 0} → Str → ErasureWorkflow H → Result (ErasureStep H)
step name wf = elim (get name wf.steps) [ none ↦ raise (key_error name) | some s ↦ ok s ]

-- The change of a step that `wf.step(name)` returned.
abbrev pub set_step : {H : Type 0} → Str → ErasureStep H → ErasureWorkflow H → ErasureWorkflow H
set_step name s wf = record wf { steps = put name s wf.steps }

abbrev pub add_error : {H : Type 0} → Str → ErasureWorkflow H → ErasureWorkflow H
add_error text wf = record wf { errors = wf.errors ++ text ∷ [] }

-- The tickets under their file names, and how often the clock was read.
pub record WorkflowStore (H : Type 0) : Type 0 where
  pub files : Dict Str (ErasureWorkflow H)
  pub readings : ℕ

-- `path_for`: letters and digits, `-` and `_` are kept. `str.isalnum` is a parameter.
unfoldable pub safe_char : (ℕ → Bool) → ℕ → ℕ
safe_char is_alnum c = if is_alnum c || (c == 45 || c == 95) then c else 95

unfoldable pub path_for : (ℕ → Bool) → Str → Str
unfolding safe_char
path_for is_alnum request_id = map (safe_char is_alnum) request_id

-- What a runner is made with: the service, the hooks, and the world of both.
pub record Surfaces : Type 1 where
  pub World : Type 0
  pub H : Type 0
  -- `erase.delete(collection, ids, reason=…, request_id=…, max_m=…)`
  pub delete : Str → List Str → Option Str → Str → ℕ → World → Result Receipt × World
  pub replica_hook : Option (Str → List Str → Str → World → Result H × World)
  pub shred_hook : Option (List Str → World → Result H × World)
  pub document_hook : Option (Str → List Str → World → Result H × World)
  pub backup_hook : Option (Str → List Str → World → Result H × World)
  pub exn_text : Exn → Str
  pub is_alnum : ℕ → Bool
  pub unix_ns : ℕ → ℕ
  pub uuid : ℕ → Str
  -- What `json.dumps` or `path.write_text` raises for a ticket, at a time.
  pub write_error : ℕ → ErasureWorkflow H → Option Exn

module _ (sf : Surfaces) where
  -- `workflow.updated_unix_ns = time.time_ns()`
  abbrev pub stamped : ErasureWorkflow sf.H → WorkflowStore sf.H → ErasureWorkflow sf.H
  stamped wf st = record wf { updated_unix_ns = sf.unix_ns st.readings }

  -- The caller's ticket is the one that was written, its time stamp included.
  unfoldable pub save :
      ErasureWorkflow sf.H → WorkflowStore sf.H → Result (ErasureWorkflow sf.H) × WorkflowStore sf.H
  save wf st = elim (sf.write_error st.readings (stamped wf st)) [
    | some x ↦ (raise x, record { files = st.files; readings = suc st.readings })
    | none ↦ (
      ok (stamped wf st),
      record {
        files = put (path_for sf.is_alnum wf.request_id) (stamped wf st) st.files;
        readings = suc st.readings;
      },
    )
  ]

  unfoldable pub load : Str → WorkflowStore sf.H → Result (ErasureWorkflow sf.H)
  load request_id st = elim (get (path_for sf.is_alnum request_id) st.files) [
    | none ↦ raise (os_error (codes "workflow not found: " ++ request_id))
    | some wf ↦ ok wf
  ]

  -- `request_id or str(uuid.uuid4())`
  abbrev pub or_uuid : Option Str → ℕ → Str
  or_uuid none n = sf.uuid n
  or_uuid (some rid) n = if is_empty rid then sf.uuid n else rid

  -- The arguments of `create`.
  pub record Ticket : Type 0 where
    pub collection : Str
    pub ids : List Str
    pub reason : Option Str
    pub request_id : Option Str
    pub require_replica : Bool
    pub require_crypto_shred : Bool
    pub require_document_store : Bool
    pub require_backup_ack : Bool

  -- A new ticket: its two time stamps are read before `save` reads the clock again.
  abbrev pub new_workflow : Ticket → ℕ → ErasureWorkflow sf.H
  new_workflow t n = record {
    request_id = or_uuid t.request_id n;
    collection = t.collection;
    external_ids = t.ids;
    reason = t.reason;
    status = opened;
    created_unix_ns = sf.unix_ns n;
    updated_unix_ns = sf.unix_ns (suc n);
    steps = new_steps step_order;
    receipt = none;
    errors = [];
    require_replica = t.require_replica;
    require_crypto_shred = t.require_crypto_shred;
    require_document_store = t.require_document_store;
    require_backup_ack = t.require_backup_ack;
  }

  unfoldable pub create :
      Ticket → WorkflowStore sf.H → Result (ErasureWorkflow sf.H) × WorkflowStore sf.H
  create t st = save (new_workflow t st.readings) (record st { readings = suc (suc st.readings) })
