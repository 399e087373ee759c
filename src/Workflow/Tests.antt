-- ===== src/Workflow/Tests.antt =====
-- A run of integrations/workflow.py: a ticket whose replica hook fails the first time.
use unlearning.Prelude.{
  ℕ, zero, suc, ◌≡◌, refl, arith, Bool, true, false, none, some, List, [], ◌∷◌, length, ◌==◌,
  if◌then◌else◌, Str, Exn, Result, ok, raise, os_error,
}
use unlearning.Prelude.Dict.{Dict, get}
use unlearning.Prelude.Eq.{str_eq}
use unlearning.Prelude.Text.{codes}
use unlearning.Erase.Types
use unlearning.Erase.Types.{Receipt}
use unlearning.Workflow.{
  WorkflowStatus, opened, in_progress, complete, blocked, ErasureWorkflow, WorkflowStore, Surfaces,
  load, path_for, Ticket, create, new_workflow,
}
use unlearning.Workflow.Runner.{Office, advance}
use unlearning.Workflow.Closed.{Closed}
use unlearning.Workflow.Sound.{Calls, created, advanced, none_yet, then_call, advance-Closed}

abbrev erased : Receipt
erased = record {
  request_id = codes "r/1";
  collection = codes "docs";
  external_ids = codes "alice" ∷ [];
  labels = 0 ∷ [];
  success = true;
  reason = none;
  timestamp_unix_ns = 1;
  bytes_wiped_total = 4;
  backend_messages = [];
  transaction_ids = [];
  signature = [];
  errors = [];
  receipt_version = 2;
  status = Types.complete;
  compacted = false;
  residual_proof = record {
    mode = Types.full;
    passed = some true;
    checked = 1;
    failed = 0;
    proofs = [];
    details = [];
  };
}

-- The world counts the calls; the replica is offline in the second one.
abbrev pub toy_surfaces : Surfaces
toy_surfaces = record {
  World = ℕ;
  H = ℕ;
  delete = λ collection ids reason request_id max_m n. (ok erased, suc n);
  replica_hook = some (λ collection ids request_id n.
      (if n == 1 then raise (os_error (codes "offline")) else ok n, suc n));
  shred_hook = none;
  document_hook = none;
  backup_hook = none;
  exn_text = λ x. codes "error";
  is_alnum = λ c. if c == 47 then false else true;
  unix_ns = λ n. n;
  uuid = λ n. codes "id";
  write_error = λ n wf. none;
}

abbrev pub ticket : Ticket toy_surfaces
ticket = record {
  collection = codes "docs";
  ids = codes "alice" ∷ [];
  reason = none;
  request_id = some (codes "r/1");
  require_replica = true;
  require_crypto_shred = false;
  require_document_store = false;
  require_backup_ack = false;
}

abbrev pub start : Office toy_surfaces
start = record { store = record { files = []; readings = 0 }; world = 0 }

abbrev filed : Office toy_surfaces
filed = record start { store = (create toy_surfaces ticket start.store).1 }

abbrev tried : Result (ErasureWorkflow ℕ) × Office toy_surfaces
tried = advance toy_surfaces (codes "r/1") 16 false filed

abbrev retried : Result (ErasureWorkflow ℕ) × Office toy_surfaces
retried = advance toy_surfaces (codes "r/1") 16 false tried.1

abbrev or_new : Result (ErasureWorkflow ℕ) → ErasureWorkflow ℕ
or_new (ok wf) = wf
or_new (raise x) = new_workflow toy_surfaces ticket 0

abbrev returns : Result (ErasureWorkflow ℕ) → Bool
returns (ok wf) = true
returns (raise x) = false

returns-eq : (m : Result (ErasureWorkflow ℕ)) → returns m ≡ true → m ≡ ok (or_new m)
returns-eq (ok wf) h = refl
returns-eq (raise x) h = absurd (cc)

program : Unit {0}
unfolding unlearning.Prelude.Dict.get unlearning.Prelude.Dict.put unlearning.Workflow.safe_char
    unlearning.Workflow.path_for unlearning.Workflow.step unlearning.Workflow.save
    unlearning.Workflow.load unlearning.Workflow.create unlearning.Workflow.Runner.after_delete
    unlearning.Workflow.Runner.live_delete unlearning.Workflow.Runner.run_live_delete
    unlearning.Workflow.Runner.mirror_proof unlearning.Workflow.Runner.mirror_step
    unlearning.Workflow.Runner.mirror_residual_from_receipt unlearning.Workflow.Runner.after_hook
    unlearning.Workflow.Runner.no_hook unlearning.Workflow.Runner.optional_step
    unlearning.Workflow.Runner.run_optional unlearning.Workflow.Runner.required_by
    unlearning.Workflow.Runner.status_loop unlearning.Workflow.Runner.compute_status
    unlearning.Workflow.Runner.run_steps unlearning.Workflow.Runner.close
    unlearning.Workflow.Runner.advance_loaded unlearning.Workflow.Runner.advance
program = tt

tried_run : (or_new tried.0).status ≡ blocked
unfolding program
tried_run = refl

retried-returns : returns retried.0 ≡ true
unfolding program
retried-returns = refl

retried-complete : (or_new retried.0).status ≡ complete
unfolding program
retried-complete = refl

-- The live step is not run again: the world has seen one delete and two calls of the hook.
world_run : retried.1.world ≡ 3
unfolding program
world_run = refl

calls : Calls toy_surfaces start tried.1
calls = then_call (then_call none_yet (created ticket)) (advanced (codes "r/1") 16 false)

advance-Closed_example : Closed (or_new retried.0)
advance-Closed_example =
    advance-Closed toy_surfaces (codes "r/1") 16 false (or_new retried.0) refl calls
      (returns-eq retried.0 retried-returns) retried-complete

-- The ticket of `r/1` is found under `r_1` too.
collision_run :
    load toy_surfaces (codes "r_1") filed.store ≡ (create toy_surfaces ticket start.store).0
unfolding program
collision_run = refl
