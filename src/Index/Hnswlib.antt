-- ===== src/Index/Hnswlib.antt =====
-- integrations/hnswlib_adapter.py: the adapter over the matrix. The hnswlib index is an interface; an
-- array is its rows with their width. The list `_labels`, which no method reads, and the search are
-- left out.
use unlearning.Prelude.{
  ℕ, suc, Bool, true, false, not, ◌&&◌, Option, none, some, List, [], ◌∷◌, ◌++◌, length, max, ◌==◌,
  if◌then◌else◌, Str, value_error, runtime_error, Result, ok, raise,
}
use unlearning.Prelude.Dict.{get, is_some}
use unlearning.Prelude.Eq.{nat_eq, elem}
use unlearning.Prelude.Text.{codes}
use unlearning.Residual.{Floats}
use unlearning.Registry.Ops.{Registry, empty, register, ensure_collection}
use unlearning.Erase.Types.{BackendEraseResult}
use unlearning.Index.{
  HealMirror, Matrix, no_rows, add_label, append_row, chosen, get_vector, zero_row, nbytes,
  live_items, sync_heal_mirror, heal_row,
}

-- An `hnswlib.Index`, as the adapter calls it.
pub record HnswlibIndex (F : Type 0) : Type 1 where
  pub I : Type 0
  -- `Index(space, dim)`, `init_index(max_elements, …)` and `set_ef`
  pub new_index : ℕ → I
  pub add_items : List (ℕ × List F) → I → Result (Unit {0}) × I
  pub mark_deleted : ℕ → I → Result (Unit {0}) × I
  -- `Index(space, dim)`
  pub blank : I
  -- `load_index(path, max_elements)` and `set_ef`
  pub load_file : Str → ℕ → I → Result (Unit {0}) × I

pub record Array (F : Type 0) : Type 0 where
  pub width : ℕ
  pub rows : List (List F)

-- `except RuntimeError` around a call
abbrev pub except_runtime : Result (Unit {0}) → Result (Unit {0})
except_runtime (ok u) = ok tt
except_runtime (raise (runtime_error t)) = ok tt
except_runtime (raise x) = raise x

module _ (floats : Floats) (heal : HealMirror floats.F) (lib : HnswlibIndex floats.F) where
  pub record Hnswlib : Type 0 where
    pub dim : ℕ
    pub max_elements : ℕ
    pub default : Str
    pub registry : Registry
    pub matrix : Matrix floats.F
    pub index : lib.I
    pub mirror : Option heal.M

  -- `__init__`, with the library there; `given` is the registry that is passed.
  unfoldable pub new_hnswlib : ℕ → ℕ → Str → Option Registry → Option heal.M → Result Hnswlib
  new_hnswlib dim max_elements collection given mirror =
      if dim == 0
      then raise (value_error (codes "dim must be positive"))
      else (let registry : Registry = elim given [ none ↦ empty | some r ↦ r ] in
          let (out, registry') = ensure_collection collection registry in
          elim out [
            | raise x ↦ raise x
            | ok u ↦ ok (record {
              dim = dim;
              max_elements = max_elements;
              default = collection;
              registry = registry';
              matrix = no_rows;
              index = lib.new_index max_elements;
              mirror = mirror;
            })
          ])

  -- One id with its row.
  unfoldable pub add_row : Str → Str → List floats.F → Hnswlib → Result ℕ × Hnswlib
  add_row coll ext row a =
      let (out, registry) = register coll ext none a.registry in
      elim out [
        | raise x ↦ (raise x, record a { registry = registry })
        | ok label ↦
            if is_some (get label a.matrix.label_to_row) && not (elem label a.matrix.deleted)
            then (
              raise (value_error (codes "label already present; drop or use new id")),
              record a { registry = registry },
            )
            else (
              ok label,
              record a { registry = registry; matrix = append_row label row a.matrix },
            )
      ]

  -- The loop of `add`; the rows of the ids before an exception stay.
  unfoldable pub add_rows :
      Str → List Str → List (List floats.F) → Hnswlib → Result (List ℕ) × Hnswlib
  add_rows coll [] rows a = (ok [], a)
  add_rows coll (ext ∷ exts) [] a = (ok [], a)
  add_rows coll (ext ∷ exts) (row ∷ rows) a =
      let (out, a₁) = add_row coll ext row a in
      let (others, a₂) = add_rows coll exts rows a₁ in
      elim out [
        | raise x ↦ (raise x, a₁)
        | ok label ↦ elim others [ raise x ↦ (raise x, a₂) | ok labels ↦ (ok (label ∷ labels), a₂) ]
      ]

  -- The labels that are not deleted, with their rows.
  unfoldable pub active_items : Matrix floats.F → List ℕ → List (ℕ × List floats.F)
  active_items m [] = []
  active_items m (label ∷ labels) =
      let rest = active_items m labels in
      if elem label m.deleted
      then rest
      else elim (get_vector label m) [ raise x ↦ rest | ok row ↦ (label, row) ∷ rest ]

  -- `_sync_heal_mirror` at the end of a method that returns a value.
  unfoldable pub synced : {A : Type 0} → A → Hnswlib → Result A × Hnswlib
  synced a s =
      let (out, mirror) = sync_heal_mirror floats heal s.dim s.matrix s.mirror in
      (elim out [ raise x ↦ raise x | ok u ↦ ok a ], record s { mirror = mirror })

  -- `add_items`, where there are any
  unfoldable pub push_items :
      {A : Type 0} → A → List (ℕ × List floats.F) → Hnswlib → Result A × Hnswlib
  unfolding synced
  push_items a [] s = synced a s
  push_items a (item ∷ items) s =
      let (out, index) = lib.add_items (item ∷ items) s.index in
      elim out [
        | raise x ↦ (raise x, record s { index = index })
        | ok u ↦ synced a (record s { index = index })
      ]

  unfoldable pub add : List Str → Array floats.F → Option Str → Hnswlib → Result (List ℕ) × Hnswlib
  add exts vecs collection a =
      let coll = chosen collection a.default in
      let (out, a') = add_rows coll exts vecs.rows a in
      if not (vecs.width == a.dim)
      then (raise (value_error (codes "unexpected dim")), a)
      else if not (length exts == length vecs.rows)
      then (raise (value_error (codes "external_ids and vectors length mismatch")), a)
      else elim out [
        | raise x ↦ (raise x, a')
        | ok labels ↦ push_items labels (active_items a'.matrix labels) a'
      ]

  -- `mark_deleted`: a `RuntimeError` is passed over, any other exception leaves the method.
  unfoldable pub mark : ℕ → Bool → lib.I → Result (Unit {0}) × lib.I
  mark label true index = (ok tt, index)
  mark label false index =
      let (out, index') = lib.mark_deleted label index in (except_runtime out, index')

  -- Behind `mark_deleted`: the label is deleted, and the mirror heals.
  unfoldable pub after_mark :
      ℕ → ℕ → ℕ → Hnswlib → Result (Unit {0}) × lib.I → Result BackendEraseResult × Hnswlib
  after_mark label i max_m a (raise x, index) = (
    raise x,
    record a {
      matrix = record a.matrix { vectors = zero_row floats i a.matrix.vectors };
      index = index;
    },
  )
  after_mark label i max_m a (ok u, index) =
      let (note, mirror) = heal_row floats heal i max_m a.mirror in
      (
        ok (record {
          success = true;
          label = label;
          bytes_wiped = nbytes floats i a.matrix.vectors;
          message = some (codes "zeroed+mark_deleted" ++ note);
          compacted = false;
        }),
        record a {
          matrix = record a.matrix {
            vectors = zero_row floats i a.matrix.vectors;
            deleted = add_label label a.matrix.deleted;
          };
          index = index;
          mirror = mirror;
        },
      )

  unfoldable pub hard_delete_label : ℕ → ℕ → Hnswlib → Result BackendEraseResult × Hnswlib
  unfolding after_mark
  hard_delete_label label max_m a = elim (get label a.matrix.label_to_row) [
    | none ↦ (
      ok (record {
        success = false;
        label = label;
        bytes_wiped = 0;
        message = some (codes "unknown label");
        compacted = false;
      }),
      a,
    )
    | some i ↦ after_mark label i max_m a (mark label (elem label a.matrix.deleted) a.index)
  ]

  unfoldable pub compact : Hnswlib → Result ℕ × Hnswlib
  compact a =
      let items = live_items floats a.matrix a.matrix.label_to_row in
      push_items (length items) items
        (record a { index = lib.new_index (max a.max_elements (suc (length items))) })

  -- `max_elements or self.max_elements`
  unfoldable pub load_index : Str → Option ℕ → Hnswlib → Result (Unit {0}) × Hnswlib
  load_index path max_elements a =
      let cap : ℕ = elim max_elements [
        | none ↦ a.max_elements
        | some n ↦ if n == 0 then a.max_elements else n
      ] in
      let (out, index) = lib.load_file path cap lib.blank in (out, record a { index = index })
