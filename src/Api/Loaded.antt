-- ===== src/Api/Loaded.antt =====
-- An ingest that answers (`ingest_vectors` of api/main.py): the ids that it has registered are at the
-- labels under which their vectors were loaded.
use unlearning.Prelude.{ℕ, ◌≡◌, true, some, List, map, length, get_elem?, Str, ok}
use unlearning.Prelude.Dict.{Dict}
use unlearning.Prelude.Eq.{nat_eq, str_eq, elem}
use unlearning.Registry.Ops.{Registry, ResolvedId, resolve}
use unlearning.Api.Ingest.{Site, label_in, IngestRequest, IngestResponse, Desk, load_and_link}
use unlearning.Api.Rows.{last_row}

module _ (site : Site) where
  -- Each id of a request resolves, and the rows hold, at its label, the last vector of that label.
  abbrev pub Stands : IngestRequest site → Registry → Dict Str ℕ → List (List site.F) → Type 0
  Stands b r mapping rows =
      (e : Str)
      → elem e b.ids ≡ true
      → (id : ResolvedId) × (v : List site.F) × (resolve b.collection e r ≡ ok id)
        × (last_row id.label (map (label_in mapping) b.ids) b.vectors ≡ some v)
        × (get_elem? rows id.label ≡ some v)

  -- What is loaded by a request that is answered.
  abbrev pub Loads : IngestRequest site → Desk site → IngestResponse site → Desk site → Type 0
  Loads b o a o' =
      (rows : List (List site.F)) × (n : ℕ) × (w : site.W) × (load_and_link site (rows, n) a.dim
          o.world
        ≡ (ok tt, w))
      × (a.count ≡ length b.ids)
      × Stands b o'.registry a.mapping rows
