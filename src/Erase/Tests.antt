-- ===== src/Erase/Tests.antt =====
-- Instances for integrations/erase_service.py: a service over a backend of three rows.
use unlearning.Prelude.{
  ◌++◌, arith, ◌<◌, ℕ, zero, suc, ◌+◌, ◌≤◌, ◌≡◌, ◌≢◌, refl, ◌↔◌, ◌⊎◌, Bool, true, false, Option,
  none, some, List, [], ◌∷◌, length, get_elem?, all, ◌==◌, Str, Exn, Result, ok, raise, value_error,
}
use unlearning.Prelude.Text.{codes}
use unlearning.Policy.{Policy, coalesce, new_policy}
use unlearning.Registry.Ops.{Registry, empty, register}
use unlearning.Strategy.{auto, never}
use unlearning.Residual.Tests.{toy_floats}
use unlearning.Erase.Types.{Deps, BackendEraseResult, Receipt, failed, off, full}
use unlearning.Erase.Status.{is_skip, derive_status}
use unlearning.Erase.Complete.{IsComplete}
use unlearning.Erase.Service.{
  choose_compact, Request, Ambient, Service, clean_ids, choose_proof, delete,
}
use unlearning.Erase.Accounts.{Accounts}
use unlearning.Erase.Receipts.{delete-Accounts, delete-success}

abbrev zero_at : ℕ → List ℕ → List ℕ
zero_at n [] = []
zero_at zero (x ∷ xs) = 0 ∷ xs
zero_at (suc n) (x ∷ xs) = x ∷ zero_at n xs

abbrev row : ℕ → List ℕ → Result (List ℕ)
row label rows = elim (get_elem? rows label) [
  | none ↦ raise (value_error (codes "label out of range"))
  | some x ↦ ok (x ∷ [])
]

abbrev wipe_row : Str → ℕ → ℕ → List ℕ → Result BackendEraseResult × List ℕ
wipe_row collection label max_m rows = elim (get_elem? rows label) [
  | none ↦ (raise (value_error (codes "label out of range")), rows)
  | some x ↦ (
    ok (record {
      success = true;
      label = label;
      bytes_wiped = 4;
      message = none;
      compacted = false;
    }),
    zero_at label rows,
  )
]

abbrev row_is_zero : Str → ℕ → List ℕ → Result Bool
row_is_zero collection label rows = elim (get_elem? rows label) [
  | none ↦ raise (value_error (codes "label out of range"))
  | some x ↦ ok (x == 0)
]

abbrev pub toy_deps : Deps
toy_deps = record {
  floats = toy_floats;
  World = List ℕ;
  hard_delete_label = wipe_row;
  verify_zeroed = row_is_zero;
  compact = some (λ rows. (ok (length rows), rows));
  get_vector = some row;
  rows = some length;
  has_heal_mirror = false;
  persistence = none;
  receipt_log = none;
  files = λ rows path. none;
  hmac = λ text. text;
  exn_text = λ x. codes "error";
  int_text = λ n. n ∷ [];
  decision_text = λ d. codes "reason";
  drop_mappings = true;
  default_compact = auto;
  default_residual_proof = some full;
  residual_proof_env = codes "sample";
  env = record { allow_heal = none; adaptive_compact = none };
  metrics = true;
}

abbrev pub docs : Str
docs = codes "docs"

abbrev registered : Registry
registered = (register docs (codes "bob") none (register docs (codes "alice") none empty).1).1

abbrev pub service : Service toy_deps
service = record {
  registry = registered;
  world = 7 ∷ 8 ∷ 9 ∷ [];
  policy = new_policy coalesce 32 60;
  metrics = [];
}

abbrev request : Request
request = record {
  collection = docs;
  ids = codes "alice" ∷ codes " " ∷ codes "carol" ∷ [];
  reason = none;
  request_id = none;
  max_m = 16;
  idempotent = true;
  compact = none;
  residual_proof = none;
  checkpoint_path = none;
}

abbrev pub ambient : Ambient
ambient = record { now = 1; fresh_id = codes "id"; tick = 10; tick' = 11 }

abbrev outcome : Result Receipt × Service toy_deps
outcome = delete toy_deps request ambient service

-- One id is erased, one is unknown and skipped, the blank one is no id.
abbrev blank : Receipt
blank = record {
  request_id = [];
  collection = [];
  external_ids = [];
  labels = [];
  success = false;
  reason = none;
  timestamp_unix_ns = 0;
  bytes_wiped_total = 0;
  backend_messages = [];
  transaction_ids = [];
  signature = [];
  errors = [];
  receipt_version = 0;
  status = failed;
  compacted = false;
  residual_proof = record {
    mode = off;
    passed = none;
    checked = 0;
    failed = 0;
    proofs = [];
    details = [];
  };
}

abbrev or_blank : Result Receipt → Receipt
or_blank (ok r) = r
or_blank (raise x) = blank

abbrev receipt : Receipt
receipt = or_blank outcome.0

unfoldable pub program : Unit {0}
unfolding unlearning.Prelude.Dict.get unlearning.Prelude.Dict.put unlearning.Prelude.Dict.remove
    unlearning.Prelude.Text.is_space unlearning.Prelude.Text.lstrip unlearning.Prelude.Text.rstrip
    unlearning.Prelude.Text.strip unlearning.Prelude.Sort.insert_sorted
    unlearning.Prelude.Sort.sorted unlearning.Registry.Names.norm_collection
    unlearning.Registry.Names.norm_external unlearning.Registry.Ops.ensured
    unlearning.Registry.Ops.ensure_collection unlearning.Registry.Ops.bind_label
    unlearning.Registry.Ops.register_new unlearning.Registry.Ops.register_existing
    unlearning.Registry.Ops.register_in unlearning.Registry.Ops.register
    unlearning.Registry.Ops.resolve unlearning.Registry.Ops.del_forward
    unlearning.Registry.Ops.del_reverse unlearning.Registry.Ops.unbind unlearning.Registry.Ops.drop
    unlearning.Registry.Ops.labels unlearning.Policy.note_deletes unlearning.Policy.decide_coalesce
    unlearning.Policy.decide_mode unlearning.Policy.decide unlearning.Policy.mark_compacted
    unlearning.Policy.pending_count unlearning.Strategy.is_truthy
    unlearning.Strategy.heal_allowed_by_env unlearning.Strategy.fraction_of
    unlearning.Strategy.recommend_delete_strategy
    unlearning.Strategy.compact_mode_for_recommendation unlearning.Strategy.adaptive_by_env
    unlearning.Strategy.apply_strategy_to_delete_kwargs unlearning.Residual.passed
    unlearning.Residual.file_contains_bytes unlearning.Residual.vector_all_zeros
    unlearning.Residual.original_is_zero unlearning.Residual.scan_checkpoint
    unlearning.Residual.prove_vector_erased unlearning.Erase.Status.is_skip
    unlearning.Erase.Status.is_compact_failure unlearning.Erase.Status.is_erase_failure
    unlearning.Erase.Status.derive_status unlearning.Erase.Batch.snapshot
    unlearning.Erase.Batch.wipe unlearning.Erase.Batch.forget unlearning.Erase.Batch.settle
    unlearning.Erase.Batch.verify unlearning.Erase.Batch.judge unlearning.Erase.Batch.erase_resolved
    unlearning.Erase.Batch.isolate unlearning.Erase.Batch.unresolved
    unlearning.Erase.Batch.erase_one unlearning.Erase.Batch.erase_all
    unlearning.Erase.Compaction.normalize_compact unlearning.Erase.Compaction.note_batch
    unlearning.Erase.Compaction.plan_coalesced unlearning.Erase.Compaction.plan_policy
    unlearning.Erase.Compaction.plan_mode unlearning.Erase.Compaction.plan_compact
    unlearning.Erase.Compaction.after_compact unlearning.Erase.Compaction.run_compact
    unlearning.Erase.Proofs.env_residual_proof_mode unlearning.Erase.Proofs.pick
    unlearning.Erase.Proofs.sampled unlearning.Erase.Proofs.zip unlearning.Erase.Proofs.count_failed
    unlearning.Erase.Proofs.fallback_vector unlearning.Erase.Proofs.live_vector
    unlearning.Erase.Proofs.prove_all unlearning.Erase.Proofs.summarise
    unlearning.Erase.Proofs.proofs_on unlearning.Erase.Proofs.run_residual_proofs
    unlearning.Erase.Service.clean_ids unlearning.Erase.Service.index_size
    unlearning.Erase.Service.choose_compact unlearning.Erase.Service.choose_proof
    unlearning.Erase.Service.hints unlearning.Erase.Service.proof_errors
    unlearning.Erase.Service.join_ids unlearning.Erase.Service.payload unlearning.Erase.Service.sign
    unlearning.Erase.Service.log_receipt unlearning.Erase.Service.make_receipt
    unlearning.Erase.Service.finish unlearning.Erase.Service.after_proofs
    unlearning.Erase.Service.after_batch unlearning.Erase.Service.after_loop
    unlearning.Erase.Service.delete
program = tt

abbrev returns : Result Receipt → Bool
returns (ok r) = true
returns (raise x) = false

returns-eq :
    (m : Result Receipt × Service toy_deps) → returns m.0 ≡ true → m ≡ (ok (or_blank m.0), m.1)
returns-eq (ok r, s) h = refl
returns-eq (raise x, s) h = absurd (cc)

outcome-returns : returns outcome.0 ≡ true
unfolding program
outcome-returns = refl

returned : delete toy_deps request ambient service ≡ (ok receipt, outcome.1)
returned = returns-eq outcome outcome-returns

labels_run : receipt.labels ≡ 0 ∷ []
unfolding program
labels_run = refl

world_run : outcome.1.world ≡ 0 ∷ 8 ∷ 9 ∷ []
unfolding program
world_run = refl

delete-Accounts_example :
    (receipt.external_ids ≡ clean_ids request.ids)
    × (length receipt.labels ≤ length receipt.external_ids)
    × (length receipt.external_ids ≤ length receipt.labels + length receipt.errors)
    × ((errors : List Str) × (others : List Str) × (receipt.errors ≡ errors ++ others)
        × Accounts toy_deps request.collection service.registry receipt.external_ids receipt.labels
            errors)
delete-Accounts_example = delete-Accounts toy_deps request ambient service returned

delete-success_example :
    (receipt.success ≡ true)
    ↔ IsComplete
        (length receipt.external_ids)
        (length receipt.labels)
        receipt.errors
        full
        receipt.residual_proof.passed
unfolding choose_proof
delete-success_example = delete-success toy_deps request ambient service returned
