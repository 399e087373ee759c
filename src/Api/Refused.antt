-- ===== src/Api/Refused.antt =====
-- An ingest (`ingest_vectors` of api/main.py) that is answered 409, since an index is loaded.
use unlearning.Prelude.{
  ℕ, ◌≡◌, refl, sym, ap, ◌∙◌, subst, true, false, not, ◌&&◌, [], arith, map, length, ◌==◌,
  Bool-cases, Result-cases, inl, inr, Str, Exn, Result, ok, value_error, key_error, runtime_error,
  struct_error, os_error, other, id_mapping_error,
}
use unlearning.Prelude.Dict.{Dict}
use unlearning.Prelude.Eq.{nat_eq, str_eq, elem}
use unlearning.Registry.Ops.{ResolvedId, resolve}
use unlearning.Api.{Reply, answer, uncaught, http_error, HttpError, logged-cases}
use unlearning.Api.Matrix.{shape_of, Shape, matrix, flat, ragged}
use unlearning.Api.Ingest.{
  Site, register_loop, labels_fit, id_pairs, label_in, IngestRequest, IngestResponse, Desk, caught,
  index_rows, load_and_link, checkpointed, save_ids, and_count, after_load, load_vectors,
  register_and_load, ingest_vectors,
}
use unlearning.Api.Registered.{registered_ids}

module _ (site : Site) where
  caught-code :
      {A : Type 0} (x : Exn) {e : HttpError}
      → caught site {A = A} x ≡ http_error e
      → e.status_code ≡ 400
  caught-code (value_error text) h = cc h
  caught-code (id_mapping_error p) h = cc h
  caught-code (os_error text) h = absurd (cc h)
  caught-code (key_error text) h = absurd (cc h)
  caught-code (runtime_error text) h = absurd (cc h)
  caught-code (struct_error text) h = absurd (cc h)
  caught-code (other text) h = absurd (cc h)

  save_ids-no_error :
      {A : Type 0} (a : A) (o : Desk site) {e : HttpError}
      → ¬ ((save_ids site a o).0 ≡ http_error e)
  save_ids-no_error a o h = elim (logged-cases (site.save_registry o.registry o.world).0 a) [
    | inl q ↦ cc (sym q ∙ h)
    | inr (x, q) ↦ cc (sym q ∙ h)
  ]

  and_count-error :
      (n : ℕ) (p : Reply (Unit {0}) × Desk site) (body : Desk site → IngestResponse site)
      {e : HttpError}
      → (and_count site n p body).0 ≡ http_error e
      → p.0 ≡ http_error e
  and_count-error n (answer u, o) body h = absurd (cc h)
  and_count-error n (http_error e, o) body h = cc h
  and_count-error n (uncaught x, o) body h = absurd (cc h)

  after_load-no_error :
      (b : IngestRequest site) (mapping : Dict Str ℕ) (n d : ℕ) (o : Desk site) {e : HttpError}
      → ¬ ((after_load site b mapping n d o).0 ≡ http_error e)
  unfolding after_load
  after_load-no_error b mapping n d o h =
      elim (Result-cases (checkpointed site b.checkpoint o.world).0) [
        | inr (x, q) ↦ cc (rw (q, after_load) at h)
        | inl (u, q) ↦
            save_ids-no_error tt (record o { world = (checkpointed site b.checkpoint o.world).1 })
              (and_count-error n _ _ (rw (q, after_load) at h))
      ]

  -- What a load that is refused finds and leaves.
  load_vectors-refused :
      (b : IngestRequest site) (mapping : Dict Str ℕ) (n d : ℕ) (o : Desk site) {e : HttpError}
      → (load_vectors site b mapping n d o).0 ≡ http_error e
      → ((not b.replace_index && site.is_loaded o.world) ≡ true)
        × ((load_vectors site b mapping n d o).1 ≡ o)
  unfolding load_vectors
  load_vectors-refused b mapping n d o h =
      let rows = index_rows site b.replace_index (map (label_in mapping) b.ids) b.vectors n d in
      let w = (load_and_link site rows d o.world).1 in
      elim (Bool-cases (not b.replace_index && site.is_loaded o.world)) [
        | inl t ↦ (t, rw (t, load_vectors) refl)
        | inr f ↦ elim (Result-cases (load_and_link site rows d o.world).0) [
          | inr (x, q) ↦ absurd (cc (rw (f, q, load_vectors) at h))
          | inl (u, q) ↦ absurd (
              after_load-no_error b mapping n d (record o { world = w })
                (rw (f, q, load_vectors) at h))
        ]
      ]

  -- The ids of a request are registered, and nothing else has changed.
  abbrev pub OnlyRegistered : IngestRequest site → Desk site → Desk site → Type 0
  OnlyRegistered b o o' =
      (b.replace_index ≡ false)
      × (site.is_loaded o.world ≡ true)
      × (o'.world ≡ o.world)
      × ((e : Str)
          → elem e b.ids ≡ true
          → (id : ResolvedId) × (resolve b.collection e o'.registry ≡ ok id))

  register_and_load-refused :
      (b : IngestRequest site) (n d : ℕ) (o : Desk site) {e : HttpError}
      → labels_fit b.ids b.labels ≡ true
      → (register_and_load site b n d o).0 ≡ http_error e
      → e.status_code ≡ 409
      → OnlyRegistered b o (register_and_load site b n d o).1
  unfolding register_and_load
  register_and_load-refused b n d o {e} fit h code =
      let loop = register_loop b.collection (id_pairs b.ids b.labels) [] o.registry in
      elim (Result-cases loop.0) [
        | inr (x, q) ↦
            let bad : e.status_code ≡ 400 = caught-code x (rw (q, register_and_load) at h) in
            absurd (omega (arith, bad, code))
        | inl (mapping, q) ↦
            let o' : Desk site = record o { registry = loop.1 } in
            let behind : register_and_load site b n d o ≡ load_vectors site b mapping n d o' =
              rw (q, register_and_load) refl in
            let (guard, same) =
              load_vectors-refused b mapping n d o'
                (sym (ap (λ (p : Reply (IngestResponse site) × Desk site). p.0) behind) ∙ h) in
            let left : (register_and_load site b n d o).1 ≡ o' =
              ap (λ (p : Reply (IngestResponse site) × Desk site). p.1) behind ∙ same in
            let registered =
              registered_ids b.collection b.ids b.labels o.registry fit
                (ap (λ (p : Result (Dict Str ℕ)). (p, loop.1)) q) in
            subst (OnlyRegistered b o) (sym left) (
              ground arith,
              ground arith,
              refl,
              λ x t. let (id, found, at) = registered x t in (id, found),
            )
      ]

  of_shape :
      (b : IngestRequest site) (o : Desk site) (shape : Shape) {e : HttpError}
      → (length b.ids == length b.vectors) ≡ true
      → labels_fit b.ids b.labels ≡ true
      → shape_of b.vectors ≡ shape
      → (ingest_vectors site b o).0 ≡ http_error e
      → e.status_code ≡ 409
      → OnlyRegistered b o (ingest_vectors site b o).1
  unfolding ingest_vectors
  of_shape b o flat {e} same fit q h code =
      let bad : 400 ≡ e.status_code = cc (rw (same, fit, q, ingest_vectors) at h) in
      absurd (omega (arith, bad, code))
  of_shape b o ragged same fit q h code = absurd (cc (rw (same, fit, q, ingest_vectors) at h))
  of_shape b o (matrix n d) same fit q h code =
      let behind : ingest_vectors site b o ≡ register_and_load site b n d o =
        rw (same, fit, q, ingest_vectors) refl in
      subst (λ (p : Reply (IngestResponse site) × Desk site). OnlyRegistered b o p.1) (sym behind)
        (register_and_load-refused b n d o fit
          (sym (ap (λ (p : Reply (IngestResponse site) × Desk site). p.0) behind) ∙ h) code)

  -- An ingest is answered 409 only for a request that does not replace the index while one is loaded.
  -- It leaves the native module as it was, and the registry with every id of the request registered.
  pub ingest_vectors-refused :
      (b : IngestRequest site) (o : Desk site) {e : HttpError}
      → (ingest_vectors site b o).0 ≡ http_error e
      → e.status_code ≡ 409
      → OnlyRegistered b o (ingest_vectors site b o).1
  unfolding ingest_vectors
  ingest_vectors-refused b o {e} h code = elim (Bool-cases (length b.ids == length b.vectors)) [
    | inr f ↦
        let bad : 400 ≡ e.status_code = cc (rw (f, ingest_vectors) at h) in
        absurd (omega (arith, bad, code))
    | inl same ↦ elim (Bool-cases (labels_fit b.ids b.labels)) [
      | inr f ↦
          let bad : 400 ≡ e.status_code = cc (rw (same, f, ingest_vectors) at h) in
          absurd (omega (arith, bad, code))
      | inl fit ↦ of_shape b o (shape_of b.vectors) same fit refl h code
    ]
  ]
