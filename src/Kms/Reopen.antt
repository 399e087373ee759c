-- ===== src/Kms/Reopen.antt =====
-- A `LocalFileKMS` (compliance/kms_backends.py) that is opened again on its file.
use unlearning.Prelude.{
  ℕ, subst, suc, ◌≡◌, refl, sym, ap, ◌∙◌, true, false, Option, none, some, [], ◌∷◌, ◌++◌, arith,
  length, take, drop, ltb, ◌==◌, ==_iff, Bool-cases, Result-cases, inl, inr, Str, runtime_error, ok,
  raise,
}
use unlearning.Prelude.Dict.{put, remove}
use unlearning.Prelude.Eq.{str_eq, str_beq_iff, elem}
use unlearning.Shred.{Bytes, Crypto, add_shredded}
use unlearning.Shred.Kept.{IsAead, nonced-opens}
use unlearning.Kms.Local.{
  Saved, LocalFileKms, persist, fresh, shredded_text, new_local_kms, wrap_dek, unwrap_dek,
  destroy_entity_key,
}

module _ (crypto : Crypto) (encode : Str → Bytes) where
  -- What a wrapping leaves.
  abbrev Wraps : Str → Bytes → Bytes → LocalFileKms → LocalFileKms → Type 0
  Wraps eid dek blob k k' =
      (k'.master ≡ k.master)
      × (k'.path ≡ k.path)
      × (ltb (length blob) 13 ≡ false)
      × (crypto.aes_decrypt k.master (take 12 blob) (drop 12 blob) (some (encode eid)) ≡ ok dek)

  persist-fields :
      (k : LocalFileKms) → ((persist k).master ≡ k.master) × ((persist k).path ≡ k.path)
  unfolding persist
  persist-fields k = ground arith

  wrap_dek-Wraps :
      (eid : Str) (dek blob : Bytes) (k k' : LocalFileKms)
      → IsAead crypto
      → wrap_dek crypto encode eid dek k ≡ (ok blob, k')
      → Wraps eid dek blob k k'
  unfolding wrap_dek
  wrap_dek-Wraps eid dek blob k k' aead h = elim (Bool-cases (elem eid k.destroyed)) [
    | inl t ↦ absurd (ground arith)
    | inr alive ↦
        elim (Result-cases
          (crypto.aes_encrypt k.master (crypto.token_bytes 12 k.tokens) dek (some (encode eid)))) [
            | inr (x, t) ↦ absurd (ground arith)
            | inl (ct, t) ↦ wrapped alive ct t
          ]
  ]
    where
      wrapped :
          elem eid k.destroyed ≡ false
          → (ct : Bytes)
          → crypto.aes_encrypt k.master (crypto.token_bytes 12 k.tokens) dek (some (encode eid))
            ≡ ok ct
          → Wraps eid dek blob k k'
      wrapped alive ct t =
          let nonce = crypto.token_bytes 12 k.tokens in
          let k₁ = record k { wrapped = put eid (nonce ++ ct) k.wrapped; tokens = suc k.tokens } in
          let out : (ok (nonce ++ ct), persist k₁) ≡ (ok blob, k') =
            sym (rw (alive, t, wrap_dek) refl) ∙ h in
          let fields = persist-fields k₁ in
          let last : persist k₁ ≡ k' = ap (λ m. m.1) out in
          let first : nonce ++ ct ≡ blob = cc (ap (λ m. m.0) out) in
          let (long, opened) =
            nonced-opens crypto k.master dek ct (some (encode eid)) k.tokens aead t in
          (
            sym (ap (λ k. k.master) last) ∙ fields.0,
            sym (ap (λ k. k.path) last) ∙ fields.1,
            subst (λ b. ltb (length b) 13 ≡ false) first long,
            subst
                (λ b.
                  crypto.aes_decrypt k.master (take 12 b) (drop 12 b) (some (encode eid)) ≡ ok dek)
                first opened,
          )

  refused :
      (eid : Str) (blob : Bytes) (k : LocalFileKms)
      → elem eid k.destroyed ≡ true
      → unwrap_dek crypto encode eid blob k ≡ raise (runtime_error (shredded_text crypto.repr eid))
  unfolding unwrap_dek
  refused eid blob k h = rw (h, unwrap_dek) refl

  -- A service that has nothing wrapped takes the blob that it is given.
  blank-opens :
      (eid : Str) (dek blob master : Bytes) (path : Option Str) (file : Option Saved) (n : ℕ)
      → ltb (length blob) 13 ≡ false
      → crypto.aes_decrypt master (take 12 blob) (drop 12 blob) (some (encode eid)) ≡ ok dek
      → unwrap_dek crypto encode eid blob (record {
        path = path;
        file = file;
        master = master;
        wrapped = [];
        destroyed = [];
        tokens = n;
      })
        ≡ ok dek
  unfolding unwrap_dek unlearning.Prelude.Dict.get
  blank-opens eid dek blob master path file n long opens = ground arith

  destroyed-file :
      (eid : Str) (k : LocalFileKms) (p : Str)
      → k.path ≡ some p
      → (destroy_entity_key eid k).file
        ≡ some (record {
          master = k.master;
          wrapped = remove eid k.wrapped;
          destroyed = add_shredded eid k.destroyed;
        })
  unfolding destroy_entity_key persist
  destroyed-file eid k p h = rw (h, destroy_entity_key) refl

  destroyed-marks :
      (eid : Str) (k : LocalFileKms)
      → (destroy_entity_key eid k).destroyed ≡ add_shredded eid k.destroyed
  unfolding destroy_entity_key persist
  destroyed-marks eid k = ground arith

  -- A key that was wrapped by a service with a file and a master key of 32 bytes, and then destroyed,
  -- over a cipher that opens what it sealed: the service and a service that is opened on the file
  -- refuse to unwrap it, and a service that is opened on the file with the same master key given as an
  -- argument unwraps it.
  pub destroyed-reopened :
      (eid : Str) (dek blob : Bytes) (k k' : LocalFileKms) (c : ℕ) (p : Str) (n : ℕ)
      → IsAead crypto
      → k.path ≡ some (c ∷ p)
      → length k.master ≡ 32
      → wrap_dek crypto encode eid dek k ≡ (ok blob, k')
      → (unwrap_dek crypto encode eid blob (destroy_entity_key eid k')
          ≡ raise (runtime_error (shredded_text crypto.repr eid)))
        × ((k₁ : LocalFileKms) × (new_local_kms crypto encode
                (some (c ∷ p))
                none
                (destroy_entity_key eid k').file
                n
              ≡ ok k₁)
            × (unwrap_dek crypto encode eid blob k₁
                ≡ raise (runtime_error (shredded_text crypto.repr eid))))
        × ((k₂ : LocalFileKms) × (new_local_kms crypto encode
                (some (c ∷ p))
                (some k.master)
                (destroy_entity_key eid k').file
                n
              ≡ ok k₂)
            × (unwrap_dek crypto encode eid blob k₂ ≡ ok dek))
  unfolding new_local_kms unwrap_dek destroy_entity_key persist fresh
  destroyed-reopened eid dek blob k k' c p n aead path size h =
      let (master, kept, long, opens) = wrap_dek-Wraps eid dek blob k k' aead h in
      let path' : k'.path ≡ some (c ∷ p) = kept ∙ path in
      let gone : elem eid (add_shredded eid k'.destroyed) ≡ true =
        ground (arith, str_beq_iff eid eid) in
      let k₁ : LocalFileKms = record {
        path = some (c ∷ p);
        file = (destroy_entity_key eid k').file;
        master = k'.master;
        wrapped = remove eid k'.wrapped;
        destroyed = add_shredded eid k'.destroyed;
        tokens = n;
      } in
      let empty : Saved = record { master = k.master; wrapped = []; destroyed = [] } in
      (
        refused eid blob (destroy_entity_key eid k')
            (ap (elem eid) (destroyed-marks eid k') ∙ gone),
        (k₁, rw (destroyed-file eid k' (c ∷ p) path') refl, refused eid blob k₁ gone),
        (
          fresh (some (c ∷ p)) (destroy_entity_key eid k').file k.master n,
          rw ((==_iff (length k.master) 32).1 size) refl,
          blank-opens eid dek blob k.master (some (c ∷ p)) (some empty) n long opens,
        ),
      )
