-- ===== src/Erase/Batch.antt =====
-- The loop over the ids in `ErasureService.delete` (integrations/erase_service.py): resolve, snapshot,
-- wipe, verify, drop the mapping, with the errors of one id kept from the others.
use unlearning.Prelude.{
  ℕ, ◌+◌, Bool, true, false, not, Option, none, some, List, [], ◌∷◌, ◌++◌, if◌then◌else◌, Str, Exn,
  id_mapping_error, Result, ok, raise,
}
use unlearning.Prelude.Dict.{Dict, put}
use unlearning.Prelude.Eq.{nat_eq}
use unlearning.Prelude.Text.{codes, is_empty}
use unlearning.Registry.Ops.{Registry, resolve, drop}
use unlearning.Erase.Types.{BackendEraseResult, HardDeleteResult, Deps}

-- The locals of the loop, and the two objects that it changes.
pub record Progress (deps : Deps) : Type 0 where
  pub registry : Registry
  pub world : deps.World
  pub labels : List ℕ
  pub messages : List Str
  pub errors : List Str
  pub tx_ids : List ℕ
  pub bytes_total : ℕ
  pub erased_ext : List Str
  pub originals : Dict ℕ (List deps.floats.F)

module _ (deps : Deps) where
  -- `errors.append(text)`
  abbrev pub add_error : Str → Progress deps → Progress deps
  add_error text p = record p { errors = p.errors ++ text ∷ [] }

  -- `originals[label] = …`; a vector that cannot be read is skipped.
  unfoldable pub snapshot : Bool → ℕ → Progress deps → Progress deps
  snapshot false label p = p
  snapshot true label p = elim deps.get_vector [
    | none ↦ p
    | some read ↦ elim (read label p.world) [
      | raise x ↦ p
      | ok vec ↦ record p { originals = put label vec p.originals }
    ]
  ]

  -- `BackendEraseResult(…)` of the durable path.
  abbrev pub of_durable : ℕ → HardDeleteResult → BackendEraseResult
  of_durable label result = record {
    success = result.success;
    label = label;
    bytes_wiped = result.bytes_wiped;
    message = result.message;
    compacted = false;
  }

  -- The wipe: by the durable engine, if there is one, or by the backend.
  unfoldable pub wipe : Str → ℕ → ℕ → Progress deps → Result BackendEraseResult × Progress deps
  wipe collection label max_m p = elim deps.persistence [
    | some hard_delete ↦
        let (result, world) = hard_delete label max_m p.world in
        elim result [
          | raise x ↦ (raise x, record p { world = world })
          | ok r ↦ (
            ok (of_durable label r),
            record p { world = world; tx_ids = p.tx_ids ++ r.transaction_id ∷ [] },
          )
        ]
    | none ↦
        let (result, world) = deps.hard_delete_label collection label max_m p.world in
        (result, record p { world = world })
  ]

  abbrev pub message_list : Option Str → List Str
  message_list none = []
  message_list (some m) = if is_empty m then [] else m ∷ []

  abbrev pub message_text : Option Str → Str
  message_text none = codes "None"
  message_text (some m) = m

  abbrev pub erase_failed_text : Str → ℕ → Option Str → Str
  erase_failed_text ext label message =
      codes "erase failed for "
      ++ (ext
          ++ (codes " (label=" ++ (deps.int_text label ++ (codes "): " ++ message_text message))))

  abbrev pub not_zeroed_text : ℕ → Str
  not_zeroed_text label =
      codes "post-condition failed: label " ++ (deps.int_text label ++ codes " not fully zeroed")

  -- Drops the mapping; an exception is the id's.
  unfoldable pub forget : Str → Str → Progress deps → Result (Unit {0}) × Progress deps
  forget collection ext p =
      if deps.drop_mappings
      then (let (result, registry) = drop collection ext p.registry in
          elim result [
            | raise x ↦ (raise x, record p { registry = registry })
            | ok label ↦ (ok tt, record p { registry = registry })
          ])
      else (ok tt, p)

  -- Counts an id whose wipe was verified.
  unfoldable pub settle :
      Str → Str → ℕ → BackendEraseResult → Progress deps → Result (Unit {0}) × Progress deps
  unfolding forget
  settle collection ext label br p = forget collection ext (record p {
    bytes_total = p.bytes_total + br.bytes_wiped;
    labels = p.labels ++ label ∷ [];
    erased_ext = p.erased_ext ++ ext ∷ [];
    messages = p.messages ++ message_list br.message;
  })

  unfoldable pub verify :
      Str → Str → ℕ → BackendEraseResult → Progress deps → Result (Unit {0}) × Progress deps
  unfolding settle
  verify collection ext label br p =
      if not br.success
      then (ok tt, add_error (erase_failed_text ext label br.message) p)
      else elim (deps.verify_zeroed collection label p.world) [
        | raise x ↦ (raise x, p)
        | ok false ↦ (ok tt, add_error (not_zeroed_text label) p)
        | ok true ↦ settle collection ext label br p
      ]

  -- Behind the wipe.
  unfoldable pub judge :
      Str → Str → ℕ → Result BackendEraseResult × Progress deps → Result (Unit {0}) × Progress deps
  judge collection ext label (raise x, p) = (raise x, p)
  judge collection ext label (ok br, p) = verify collection ext label br p

  -- The body of the `try`.
  unfoldable pub erase_resolved :
      Str → Str → ℕ → ℕ → Bool → Progress deps → Result (Unit {0}) × Progress deps
  erase_resolved collection ext label max_m need_originals p =
      judge collection ext label (wipe collection label max_m (snapshot need_originals label p))

  -- `except Exception as exc: errors.append(f"{ext}: {exc}")`
  unfoldable pub isolate : Str → Result (Unit {0}) × Progress deps → Progress deps
  isolate ext (raise x, p) = add_error (ext ++ (codes ": " ++ deps.exn_text x)) p
  isolate ext (ok u, p) = p

  abbrev pub skip_text : Str → Exn → Str
  skip_text ext x = codes "skip " ++ (ext ++ (codes ": " ++ deps.exn_text x))

  -- `except IdMappingError`: a soft error if the call is idempotent. Other exceptions of `resolve`
  -- leave the loop.
  unfoldable pub unresolved : Bool → Str → Exn → Progress deps → Result (Unit {0}) × Progress deps
  unresolved true ext (id_mapping_error problem) p =
      (ok tt, add_error (skip_text ext (id_mapping_error problem)) p)
  unresolved idempotent ext x p = (raise x, p)

  unfoldable pub erase_one :
      Str → ℕ → Bool → Bool → Str → Progress deps → Result (Unit {0}) × Progress deps
  erase_one collection max_m idempotent need_originals ext p =
      elim (resolve collection ext p.registry) [
        | raise x ↦ unresolved idempotent ext x p
        | ok id ↦
            (ok tt, isolate ext (erase_resolved collection ext id.label max_m need_originals p))
      ]

  -- The loop goes on unless an exception left its body.
  abbrev pub next_id :
      (Progress deps → Result (Unit {0}) × Progress deps)
      → Result (Unit {0}) × Progress deps
      → Result (Unit {0}) × Progress deps
  next_id more (ok u, p) = more p
  next_id more (raise x, p) = (raise x, p)

  unfoldable pub erase_all :
      Str → ℕ → Bool → Bool → List Str → Progress deps → Result (Unit {0}) × Progress deps
  erase_all collection max_m idempotent need_originals [] p = (ok tt, p)
  erase_all collection max_m idempotent need_originals (ext ∷ exts) p =
      next_id (erase_all collection max_m idempotent need_originals exts)
        (erase_one collection max_m idempotent need_originals ext p)
