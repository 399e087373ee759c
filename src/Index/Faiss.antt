-- ===== src/Index/Faiss.antt =====
-- integrations/faiss_adapter.py: the adapter over the matrix. The FAISS index is an interface; an
-- array is its rows with their width. `str.lower` of the metric and the search are left out.
use unlearning.Prelude.{
  ℕ, Bool, true, false, not, Option, none, some, List, [], ◌∷◌, ◌++◌, length, ltb, ◌==◌,
  if◌then◌else◌, Str, value_error, Result, ok, raise,
}
use unlearning.Prelude.Dict.{get}
use unlearning.Prelude.Eq.{nat_eq, elem}
use unlearning.Prelude.Text.{codes}
use unlearning.Residual.{Floats}
use unlearning.Registry.Ops.{Registry, empty, register, ensure_collection}
use unlearning.Erase.Types.{BackendEraseResult}
use unlearning.Index.{
  HealMirror, Matrix, no_rows, add_label, append_row, chosen, zero_row, nbytes, live_items,
  sync_heal_mirror, heal_row,
}
use unlearning.Index.Hnswlib.{Array}

-- `IndexIDMap2` over `IndexHNSWFlat`, as the adapter calls it.
pub record FaissIndex (F : Type 0) : Type 1 where
  pub I : Type 0
  -- `_new_index()`
  pub new_index : I
  pub add_with_ids : List (ℕ × List F) → I → Result (Unit {0}) × I
  -- the number of vectors that were removed
  pub remove_ids : ℕ → I → Result ℕ × I
  pub read_index : Str → Result I

module _ (floats : Floats) (heal : HealMirror floats.F) (lib : FaissIndex floats.F) where
  pub record Faiss : Type 0 where
    pub dim : ℕ
    pub default : Str
    pub registry : Registry
    pub matrix : Matrix floats.F
    pub index : lib.I
    pub mirror : Option heal.M

  -- `__init__`, with the library there; `given` is the registry that is passed.
  unfoldable pub new_faiss : ℕ → Str → Option Registry → Option heal.M → Result Faiss
  new_faiss dim collection given mirror =
      if dim == 0
      then raise (value_error (codes "dim must be positive"))
      else (let registry : Registry = elim given [ none ↦ empty | some r ↦ r ] in
          let (out, registry') = ensure_collection collection registry in
          elim out [
            | raise x ↦ raise x
            | ok u ↦ ok (record {
              dim = dim;
              default = collection;
              registry = registry';
              matrix = no_rows;
              index = lib.new_index;
              mirror = mirror;
            })
          ])

  -- The loop of `add`: the labels, and the items that go into the index.
  unfoldable pub add_rows :
      Str
      → List Str
      → List (List floats.F)
      → Faiss
      → Result (List ℕ × List (ℕ × List floats.F)) × Faiss
  add_rows coll [] rows a = (ok ([], []), a)
  add_rows coll (ext ∷ exts) [] a = (ok ([], []), a)
  add_rows coll (ext ∷ exts) (row ∷ rows) a =
      let (out, registry) = register coll ext none a.registry in
      elim out [
        | raise x ↦ (raise x, record a { registry = registry })
        | ok label ↦
            let m = append_row label row a.matrix in
            let (others, a') =
              add_rows coll exts rows (record a { registry = registry; matrix = m }) in
            elim others [
              | raise x ↦ (raise x, a')
              | ok (labels, items) ↦ (
                ok (label ∷ labels, (if elem label m.deleted then items else (label, row) ∷ items)),
                a',
              )
            ]
      ]

  -- `_sync_heal_mirror` at the end of a method that returns a value.
  unfoldable pub synced : {A : Type 0} → A → Faiss → Result A × Faiss
  synced a s =
      let (out, mirror) = sync_heal_mirror floats heal s.dim s.matrix s.mirror in
      (elim out [ raise x ↦ raise x | ok u ↦ ok a ], record s { mirror = mirror })

  -- `add_with_ids`, where there are any
  unfoldable pub push_items : {A : Type 0} → A → List (ℕ × List floats.F) → Faiss → Result A × Faiss
  unfolding synced
  push_items a [] s = synced a s
  push_items a (item ∷ items) s =
      let (out, index) = lib.add_with_ids (item ∷ items) s.index in
      elim out [
        | raise x ↦ (raise x, record s { index = index })
        | ok u ↦ synced a (record s { index = index })
      ]

  unfoldable pub add : List Str → Array floats.F → Option Str → Faiss → Result (List ℕ) × Faiss
  add exts vecs collection a =
      let coll = chosen collection a.default in
      let (out, a') = add_rows coll exts vecs.rows a in
      if not (vecs.width == a.dim)
      then (raise (value_error (codes "unexpected dim")), a)
      else if not (length exts == length vecs.rows)
      then (raise (value_error (codes "external_ids and vectors length mismatch")), a)
      else elim out [ raise x ↦ (raise x, a') | ok (labels, items) ↦ push_items labels items a' ]

  -- `removed`: any exception of `remove_ids` is passed over.
  abbrev pub was_removed : Result ℕ → Bool
  was_removed (ok n) = ltb 0 n
  was_removed (raise x) = false

  unfoldable pub hard_delete_label : ℕ → ℕ → Faiss → Result BackendEraseResult × Faiss
  hard_delete_label label max_m a = elim (get label a.matrix.label_to_row) [
    | none ↦ (
      ok (record {
        success = false;
        label = label;
        bytes_wiped = 0;
        message = some (codes "unknown label");
        compacted = false;
      }),
      a,
    )
    | some i ↦
        let (removed, index) = lib.remove_ids label a.index in
        let (note, mirror) = heal_row floats heal i max_m a.mirror in
        (
          ok (record {
            success = true;
            label = label;
            bytes_wiped = nbytes floats i a.matrix.vectors;
            message = some (
                codes "zeroed"
                ++ ((if was_removed removed then codes "+remove_ids" else codes "+pending_compact")
                    ++ note));
            compacted = false;
          }),
          record a {
            matrix = record a.matrix {
              vectors = zero_row floats i a.matrix.vectors;
              deleted = add_label label a.matrix.deleted;
            };
            index = index;
            mirror = mirror;
          },
        )
  ]

  unfoldable pub compact : Faiss → Result ℕ × Faiss
  compact a =
      let items = live_items floats a.matrix a.matrix.label_to_row in
      push_items (length items) items (record a { index = lib.new_index })

  unfoldable pub load_index : Str → Faiss → Result (Unit {0}) × Faiss
  load_index path a = elim (lib.read_index path) [
    | raise x ↦ (raise x, a)
    | ok index ↦ (ok tt, record a { index = index })
  ]
