-- ===== src/Api/Ingest.antt =====
-- `register_ids` and `ingest_vectors` of api/main.py, for requests without negative labels: the source
-- takes a negative label too, registers it, and lets numpy count it from the end of the matrix; such a
-- request is not modelled. `vectors` holds what pydantic has read, as numpy's float32. A save of the
-- registry goes through `Site`; memory is not bounded.
use unlearning.Prelude.{
  ℕ, suc, Bool, not, ◌&&◌, Option, none, some, List, [], ◌∷◌, ◌++◌, map, length, ◌==◌,
  if◌then◌else◌, Str, Exn, value_error, id_mapping_error, Result, ok, raise,
}
use unlearning.Prelude.Dict.{Dict, get, put}
use unlearning.Prelude.Eq.{nat_eq, str_eq}
use unlearning.Prelude.Text.{codes}
use unlearning.Registry.Ops.{Registry, register}
use unlearning.Api.{Reply, answer, uncaught, refuse, logged}
use unlearning.Api.Matrix.{
  max_label, fill_rows, replicate, sort_rows, rows_of, range_from, is_dense, shape_of, ring_of,
  flat, ragged, matrix,
}

-- The native module, the durable engine and the file of the registry.
pub record Site : Type 1 where
  pub F : Type 0
  pub fzero : F
  pub W : Type 0
  pub is_loaded : W → Bool
  -- `load_index(rows, dim, count)`
  pub load_index : List (List F) → ℕ → ℕ → W → Result (Unit {0}) × W
  -- `set_neighbors(node, level, neighbors)`
  pub set_neighbors : ℕ → ℕ → List ℕ → W → Result (Unit {0}) × W
  pub save_initial_checkpoint : W → Result (Unit {0}) × W
  -- `id_registry.save(data_dir / "id_registry.json")`
  pub save_registry : Registry → W → Result (Unit {0}) × W
  pub exn_text : Exn → Str
  -- numpy's text for rows of several lengths
  pub ragged_text : Str

-- `mapping[eid] = id_registry.register(...)` for each pair. One that raises ends the loop; what was
-- registered stays.
unfoldable pub register_loop :
    Str → List (Str × Option ℕ) → Dict Str ℕ → Registry → Result (Dict Str ℕ) × Registry
register_loop collection [] mapping r = (ok mapping, r)
register_loop collection ((eid, label) ∷ pairs) mapping r =
    let (out, r') = register collection eid label r in
    elim out [
      | raise x ↦ (raise x, r')
      | ok l ↦ register_loop collection pairs (put eid l mapping) r'
    ]

-- `zip(ids, labels)`
unfoldable pub with_labels : List Str → List ℕ → List (Str × Option ℕ)
with_labels (e ∷ ids) (l ∷ labels) = (e, some l) ∷ with_labels ids labels
with_labels ids labels = []

abbrev pub id_pairs : List Str → Option (List ℕ) → List (Str × Option ℕ)
id_pairs ids none = map (λ e. (e, none)) ids
id_pairs ids (some labels) = with_labels ids labels

-- The labels are as many as the ids, if there are any.
abbrev pub labels_fit : List Str → Option (List ℕ) → Bool
labels_fit ids none = Bool.true
labels_fit ids (some labels) = length labels == length ids

-- `[mapping[str(i)] for i in ids]`; each id is there.
abbrev pub label_in : Dict Str ℕ → Str → ℕ
label_in mapping e = elim (get e mapping) [ none ↦ 0 | some l ↦ l ]

module _ (site : Site) where
  -- A request whose labels, if it gives any, are natural numbers.
  pub record IngestRequest : Type 0 where
    pub collection : Str
    pub ids : List Str
    pub vectors : List (List site.F)
    pub labels : Option (List ℕ)
    pub replace_index : Bool
    pub checkpoint : Bool

  pub record IngestResponse : Type 0 where
    pub collection : Str
    pub count : ℕ
    pub dim : ℕ
    pub mapping : Dict Str ℕ
    pub index_loaded : Bool
    pub checkpointed : Bool

  -- What the handlers change; of the metrics, the counters.
  pub record Desk : Type 0 where
    pub registry : Registry
    pub world : site.W
    pub counted : List (Str × ℕ)

  abbrev pub caught : {A : Type 0} → Exn → Reply A
  caught (value_error text) = refuse 400 text
  caught (id_mapping_error p) = refuse 400 (site.exn_text (id_mapping_error p))
  caught x = uncaught x

  -- The save of the registry, whose `OSError` is logged.
  abbrev pub save_ids : {A : Type 0} → A → Desk → Reply A × Desk
  save_ids a o =
      let (out, w) = site.save_registry o.registry o.world in (logged out a, record o { world = w })

  -- `register_ids`; the answer is the mapping.
  unfoldable pub register_ids : Str → List Str → Option (List ℕ) → Desk → Reply (Dict Str ℕ) × Desk
  register_ids collection ids labels o =
      let (out, r) = register_loop collection (id_pairs ids labels) [] o.registry in
      if not (labels_fit ids labels)
      then (refuse 400 (codes "ids and labels length mismatch"), o)
      else elim out [
        | raise x ↦ (caught x, record o { registry = r })
        | ok mapping ↦ save_ids mapping (record o { registry = r })
      ]

  -- The rows that are loaded, and how many they are.
  unfoldable pub dense_rows : List ℕ → List (List site.F) → ℕ → List (List site.F) × ℕ
  dense_rows labels vecs d =
      let n = suc (max_label labels) in
      (fill_rows labels vecs (replicate n (replicate d site.fzero)), n)

  unfoldable pub index_rows : Bool → List ℕ → List (List site.F) → ℕ → ℕ → List (List site.F) × ℕ
  index_rows replace labels vecs n d =
      if replace && is_dense labels n
      then (rows_of (sort_rows labels vecs), n)
      else dense_rows labels vecs d

  unfoldable pub link_ring : List ℕ → ℕ → site.W → Result (Unit {0}) × site.W
  link_ring [] n w = (ok tt, w)
  link_ring (i ∷ nodes) n w =
      let (out, w') = site.set_neighbors i 0 (ring_of n i) w in
      elim out [ raise x ↦ (raise x, w') | ok u ↦ link_ring nodes n w' ]

  -- The load, and the ring of the nodes.
  unfoldable pub load_and_link : List (List site.F) × ℕ → ℕ → site.W → Result (Unit {0}) × site.W
  load_and_link (rows, n) d w =
      let (out, w') = site.load_index rows d n w in
      elim out [ raise x ↦ (raise x, w') | ok u ↦ link_ring (range_from 0 n) n w' ]

  unfoldable pub checkpointed : Bool → site.W → Result (Unit {0}) × site.W
  checkpointed checkpoint w = if checkpoint then site.save_initial_checkpoint w else (ok tt, w)

  abbrev pub count_ingest : ℕ → List (Str × ℕ) → List (Str × ℕ)
  count_ingest n counted =
      counted ++ ((codes "ingest_batches", 1) ∷ (codes "ingest_vectors", n) ∷ [])

  abbrev pub and_count :
      ℕ → Reply (Unit {0}) × Desk → (Desk → IngestResponse) → Reply IngestResponse × Desk
  and_count n (answer u, o) body =
      let o' : Desk = record o { counted = count_ingest n o.counted } in (answer (body o'), o')
  and_count n (Reply.http_error e, o) body = (Reply.http_error e, o)
  and_count n (uncaught x, o) body = (uncaught x, o)

  -- Behind the load.
  unfoldable pub after_load :
      IngestRequest → Dict Str ℕ → ℕ → ℕ → Desk → Reply IngestResponse × Desk
  after_load b mapping n d o =
      let (out, w) = checkpointed b.checkpoint o.world in
      elim out [
        | raise x ↦ (uncaught x, record o { world = w })
        | ok u ↦ and_count n (save_ids tt (record o { world = w })) λ o'. record {
          collection = b.collection;
          count = n;
          dim = d;
          mapping = mapping;
          index_loaded = site.is_loaded o'.world;
          checkpointed = b.checkpoint;
        }
      ]

  abbrev pub append_text : Str
  append_text =
      codes "append to non-empty native index not supported; use replace_index=true or adapters"

  -- Behind the registration.
  unfoldable pub load_vectors :
      IngestRequest → Dict Str ℕ → ℕ → ℕ → Desk → Reply IngestResponse × Desk
  load_vectors b mapping n d o =
      let labels = map (label_in mapping) b.ids in
      let (out, w) = load_and_link (index_rows b.replace_index labels b.vectors n d) d o.world in
      if not b.replace_index && site.is_loaded o.world
      then (refuse 409 append_text, o)
      else elim out [
        | raise x ↦ (uncaught x, record o { world = w })
        | ok u ↦ after_load b mapping n d (record o { world = w })
      ]

  unfoldable pub register_and_load : IngestRequest → ℕ → ℕ → Desk → Reply IngestResponse × Desk
  register_and_load b n d o =
      let (out, r) = register_loop b.collection (id_pairs b.ids b.labels) [] o.registry in
      elim out [
        | raise x ↦ (caught x, record o { registry = r })
        | ok mapping ↦ load_vectors b mapping n d (record o { registry = r })
      ]

  unfoldable pub ingest_vectors : IngestRequest → Desk → Reply IngestResponse × Desk
  ingest_vectors b o =
      if not (length b.ids == length b.vectors)
      then (refuse 400 (codes "ids and vectors length mismatch"), o)
      else if not (labels_fit b.ids b.labels)
      then (refuse 400 (codes "ids and labels length mismatch"), o)
      else elim (shape_of b.vectors) [
        | flat ↦ (refuse 400 (codes "vectors must be 2-D"), o)
        | ragged ↦ (uncaught (value_error site.ragged_text), o)
        | matrix n d ↦ register_and_load b n d o
      ]
