-- ===== src/Erase/Compaction.antt =====
-- The compact step of `ErasureService.delete` and `force_compact` (integrations/erase_service.py).
use unlearning.Prelude.{
  ℕ, Bool, true, false, not, ◌&&◌, Option, none, some, List, [], ◌∷◌, ◌++◌, length, if◌then◌else◌,
  Str, Result, ok, raise,
}
use unlearning.Prelude.Dict.{is_some}
use unlearning.Prelude.Text.{codes}
use unlearning.Policy
use unlearning.Policy.{Policy, PolicyMode, Decision, note_deletes, decide, mark_compacted}
use unlearning.Strategy.{CompactMode, auto, always, never, flag}
use unlearning.Erase.Types.{Deps, Metric, inc, observe}
use unlearning.Erase.Status.{is_nil}

-- `_normalize_compact`; other values are no `CompactMode`.
unfoldable pub normalize_compact : CompactMode → CompactMode
normalize_compact (flag true) = always
normalize_compact (flag false) = never
normalize_compact m = m

-- `should_compact`, `deferred_compact`, `compact_reason` and the message of a deferral.
pub record Plan : Type 0 where
  pub should_compact : Bool
  pub deferred : Bool
  pub reason : Str
  pub notes : List Str

abbrev pub plan : Bool → Bool → Str → List Str → Plan
plan b d r n = record { should_compact = b; deferred = d; reason = r; notes = n }

-- What the batch changes besides the registry.
pub record Rebuilt (deps : Deps) : Type 0 where
  pub world : deps.World
  pub policy : Policy
  pub compacted : Bool
  pub messages : List Str
  pub errors : List Str
  pub metrics : List Metric

module _ (deps : Deps) where
  -- `backend_supports_compact`
  abbrev pub supports_compact : Bool
  supports_compact = is_some deps.compact

  abbrev pub when_metrics : List Metric → List Metric
  when_metrics ms = if deps.metrics then ms else []

  unfoldable pub note_batch : ℕ → List ℕ → Policy → Policy
  note_batch now labels p =
      if not (is_nil labels) && supports_compact then note_deletes (length labels) now p else p

  unfoldable pub plan_coalesced : Decision → Plan
  plan_coalesced d =
      if d.should_compact
      then plan true false (deps.decision_text d) []
      else plan false true (deps.decision_text d)
          ((codes "compact:deferred(" ++ (deps.decision_text d ++ codes ")")) ∷ [])

  -- `auto`, with a backend that can compact
  unfoldable pub plan_policy : ℕ → PolicyMode → Policy → Plan
  unfolding plan_coalesced
  plan_policy now Policy.never p = plan false false (codes "policy_never") []
  plan_policy now Policy.coalesce p = plan_coalesced (decide false now p)
  plan_policy now Policy.always p = plan true false (codes "auto_always") []

  -- `flag` is gone behind `normalize_compact`.
  unfoldable pub plan_mode : ℕ → CompactMode → Policy → Plan
  unfolding plan_policy
  plan_mode now never p = plan false false (codes "never") []
  plan_mode now always p = plan true false (codes "always") []
  plan_mode now auto p =
      if supports_compact
      then plan_policy now p.mode p
      else plan false false (codes "no_compact_backend") []
  plan_mode now (flag b) p = plan false false [] []

  unfoldable pub plan_compact : ℕ → List ℕ → CompactMode → Policy → Plan
  unfolding plan_mode
  plan_compact now labels mode p =
      if is_nil labels then plan false false [] [] else plan_mode now mode p

  abbrev pub live_text : ℕ → Str → Str
  live_text n reason = codes "compact:live=" ++ (deps.int_text n ++ (codes ";reason=" ++ reason))

  -- The batch as it stands when no rebuild is made.
  abbrev pub not_rebuilt : Plan → deps.World → Policy → List Str → List Str → Rebuilt deps
  not_rebuilt pl world p messages errors = record {
    world = world;
    policy = p;
    compacted = false;
    messages = messages ++ pl.notes;
    errors = errors;
    metrics = [];
  }

  -- The `try` around `compact()`, given what the call did.
  unfoldable pub after_compact :
      Plan → Policy → List Str → List Str → Result ℕ × deps.World → Rebuilt deps
  after_compact pl p messages errors (ok n, world) = record {
    world = world;
    policy = mark_compacted p;
    compacted = true;
    messages = messages ++ (pl.notes ++ live_text n pl.reason ∷ []);
    errors = errors;
    metrics = when_metrics (observe (codes "compact") ∷ inc (codes "compacts") 1 ∷ []);
  }
  after_compact pl p messages errors (raise x, world) = record {
    world = world;
    policy = p;
    compacted = false;
    messages = messages ++ pl.notes;
    errors = errors ++ (codes "compact failed: " ++ deps.exn_text x) ∷ [];
    metrics = when_metrics (inc (codes "compact_failures") 1 ∷ []);
  }

  abbrev pub no_method_text : Str
  no_method_text = codes "compact requested but backend has no compact() method"

  unfoldable pub run_compact : Plan → deps.World → Policy → List Str → List Str → Rebuilt deps
  run_compact pl world p messages errors =
      if not pl.should_compact then not_rebuilt pl world p messages errors else elim deps.compact [
        | none ↦ not_rebuilt pl world p messages (errors ++ no_method_text ∷ [])
        | some compact ↦ after_compact pl p messages errors (compact world)
      ]

  -- `force_compact`: an exception of `compact()` is the caller's.
  unfoldable pub force_compact :
      deps.World → Policy → Result (Option ℕ) × deps.World × Policy × List Metric
  force_compact world p = elim deps.compact [
    | none ↦ (ok none, world, p, [])
    | some compact ↦
        let (result, world') = compact world in
        elim result [
          | raise x ↦ (raise x, world', p, [])
          | ok n ↦ (
            ok (some n),
            world',
            mark_compacted p,
            when_metrics (observe (codes "compact") ∷ inc (codes "compacts") 1 ∷ []),
          )
        ]
  ]
