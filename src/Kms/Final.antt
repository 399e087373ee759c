-- ===== src/Kms/Final.antt =====
-- A shred over a key service (compliance/kms_backends.py), over any calls of the vault's methods and
-- whatever the service does.
use unlearning.Prelude.{
  ℕ, ◌≡◌, refl, ap, subst, ◌∙◌, true, false, none, List, [], ◌∷◌, arith, Bool-cases, Option-cases,
  Result-cases, inl, inr, Str, Exn, value_error, runtime_error, Result, ok, raise,
}
use unlearning.Prelude.Dict.{get, get-put, get-remove}
use unlearning.Prelude.Eq.{str_eq, str_beq, str_beq_iff, elem}
use unlearning.Prelude.Text.{codes, is_empty, strip}
use unlearning.Shred.{Bytes, Crypto, VectorArg, gone_text}
use unlearning.Kms
use unlearning.Kms.{Kms, KmsVault, no_provision_text}

-- A call of a method that may change the vault.
pub data VaultCall (crypto : Crypto) : Type 0 where
  provisioned : Str → VaultCall crypto
  encrypted : Str → Bytes → Bytes → VaultCall crypto
  vector_encrypted : Str → VectorArg crypto.F → VaultCall crypto
  decrypted : Str → Bytes → Bytes → VaultCall crypto
  shredded : Str → ℕ → VaultCall crypto

module _ (crypto : Crypto) (exn_text : Exn → Str) (kms : Kms) where
  abbrev pub run_call :
      VaultCall crypto → KmsVault crypto exn_text kms → KmsVault crypto exn_text kms
  run_call (provisioned e) v = (Kms.provision crypto exn_text kms e v).1
  run_call (encrypted e plaintext aad) v = (Kms.encrypt crypto exn_text kms e plaintext aad v).1
  run_call (vector_encrypted e vector) v = (Kms.encrypt_vector crypto exn_text kms e vector v).1
  run_call (decrypted e blob aad) v = (Kms.decrypt crypto exn_text kms e blob aad v).1
  run_call (shredded e ts) v = (Kms.shred crypto exn_text kms e ts v).1

  unfoldable pub run_calls :
      List (VaultCall crypto) → KmsVault crypto exn_text kms → KmsVault crypto exn_text kms
  run_calls [] v = v
  run_calls (c ∷ cs) v = run_calls cs (run_call c v)

  -- The entity has no wrapped key and will get none.
  abbrev Sealed : Str → KmsVault crypto exn_text kms → Type 0
  Sealed eid v = (elem eid v.shredded ≡ true) × (get eid v.records ≡ none)

  wrap_new-Sealed :
      (eid e : Str) (v : KmsVault crypto exn_text kms)
      → str_beq e eid ≡ false
      → Sealed eid v
      → Sealed eid (Kms.wrap_new crypto exn_text kms e v).1
  unfolding Kms.wrap_new
  wrap_new-Sealed eid e v other h =
      elim (Result-cases (kms.wrap_dek e (crypto.token_bytes 32 v.tokens) v.service).0) [
        | inr (x, t) ↦ rw (t, Kms.wrap_new) h
        | inl (blob, t) ↦ rw (t, Kms.wrap_new) (h.0, get-put e eid blob v.records ∙ rw other h.1)
      ]

  -- A name that is not shredded is not the one that is.
  other_name :
      (eid e : Str) (shreds : List Str)
      → elem eid shreds ≡ true
      → elem e shreds ≡ false
      → str_beq e eid ≡ false
  other_name eid e shreds there absent = elim (Bool-cases (str_beq e eid)) [
    | inr f ↦ f
    | inl t ↦ absurd (cc (ap (λ n. elem n shreds) ((str_beq_iff e eid).0 t)))
  ]

  provision-Sealed :
      (eid e : Str) (v : KmsVault crypto exn_text kms)
      → Sealed eid v
      → Sealed eid (Kms.provision crypto exn_text kms e v).1
  unfolding Kms.provision
  provision-Sealed eid e v h = elim (Bool-cases (is_empty (strip e))) [
    | inl t ↦ rw (t, Kms.provision) h
    | inr full ↦ elim (Bool-cases (elem (strip e) v.shredded)) [
      | inl t ↦ rw (full, t, Kms.provision) h
      | inr absent ↦ elim (Option-cases (get (strip e) v.records)) [
        | inr (wrapped, t) ↦ rw (full, absent, t, Kms.provision) h
        | inl t ↦
            rw (full, absent, t, Kms.provision)
              (wrap_new-Sealed eid (strip e) v (other_name eid (strip e) v.shredded h.0 absent) h)
      ]
    ]
  ]

  seal-fields :
      (plaintext aad : Bytes) (m : Result Bytes × KmsVault crypto exn_text kms)
      → ((Kms.seal crypto exn_text kms plaintext aad m).1.records ≡ m.1.records)
        × ((Kms.seal crypto exn_text kms plaintext aad m).1.shredded ≡ m.1.shredded)
  unfolding Kms.seal
  seal-fields plaintext aad (raise x, v) = (refl, refl)
  seal-fields plaintext aad (ok dek, v) = (refl, refl)

  encrypt-Sealed :
      (eid e : Str) (plaintext aad : Bytes) (v : KmsVault crypto exn_text kms)
      → Sealed eid v
      → Sealed eid (Kms.encrypt crypto exn_text kms e plaintext aad v).1
  unfolding Kms.encrypt
  encrypt-Sealed eid e plaintext aad v h =
      let (records, shreds) = seal-fields plaintext aad (Kms.provision crypto exn_text kms e v) in
      let s = provision-Sealed eid e v h in (ap (elem eid) shreds ∙ s.0, ap (get eid) records ∙ s.1)

  decrypt-Sealed :
      (eid e : Str) (blob aad : Bytes) (v : KmsVault crypto exn_text kms)
      → Sealed eid v
      → Sealed eid (Kms.decrypt crypto exn_text kms e blob aad v).1
  unfolding Kms.decrypt
  decrypt-Sealed eid e blob aad v h = elim (Bool-cases (elem (strip e) v.shredded)) [
    | inl t ↦ rw (t, Kms.decrypt) h
    | inr f ↦ elim (Option-cases (get (strip e) v.records)) [
      | inl t ↦ rw (f, t, Kms.decrypt) h
      | inr (wrapped, t) ↦ rw (f, t, Kms.decrypt) h
    ]
  ]

  shred-Sealed :
      (eid e : Str) (ts : ℕ) (v : KmsVault crypto exn_text kms)
      → Sealed eid v
      → Sealed eid (Kms.shred crypto exn_text kms e ts v).1
  unfolding Kms.shred
  shred-Sealed eid e ts v h =
      (ground (arith, h.0), ground (arith, h.1, get-remove (strip e) eid v.records))

  run_calls-Sealed :
      (eid : Str) (cs : List (VaultCall crypto)) (v : KmsVault crypto exn_text kms)
      → Sealed eid v
      → Sealed eid (run_calls cs v)
  unfolding run_calls Kms.encrypt_vector
  run_calls-Sealed eid [] v h = h
  run_calls-Sealed eid (provisioned e ∷ cs) v h =
      run_calls-Sealed eid cs _ (provision-Sealed eid e v h)
  run_calls-Sealed eid (encrypted e p aad ∷ cs) v h =
      run_calls-Sealed eid cs _ (encrypt-Sealed eid e p aad v h)
  run_calls-Sealed eid (vector_encrypted e p ∷ cs) v h =
      run_calls-Sealed eid cs _ (encrypt-Sealed eid e _ _ v h)
  run_calls-Sealed eid (decrypted e blob aad ∷ cs) v h =
      run_calls-Sealed eid cs _ (decrypt-Sealed eid e blob aad v h)
  run_calls-Sealed eid (shredded e ts ∷ cs) v h =
      run_calls-Sealed eid cs _ (shred-Sealed eid e ts v h)

  shred-starts :
      (e : Str) (ts : ℕ) (v : KmsVault crypto exn_text kms)
      → Sealed (strip e) (Kms.shred crypto exn_text kms e ts v).1
  unfolding Kms.shred
  shred-starts e ts v = (
    ground (arith, str_beq_iff (strip e) (strip e)),
    ground (arith, get-remove (strip e) (strip e) v.records, str_beq_iff (strip e) (strip e)),
  )

  provision-refused :
      (e : Str) (v : KmsVault crypto exn_text kms)
      → elem (strip e) v.shredded ≡ true
      → (x : Exn) × (Kms.provision crypto exn_text kms e v ≡ (raise x, v))
  unfolding Kms.provision
  provision-refused e v h = elim (Bool-cases (is_empty (strip e))) [
    | inl t ↦ (value_error (codes "entity_id required"), rw (t, Kms.provision))
    | inr n ↦ (runtime_error (no_provision_text crypto (strip e)), rw (n, h, Kms.provision))
  ]

  -- Behind a shred, whatever the key service does, and any calls of the vault after it: the vault holds
  -- no wrapped key of the entity, and a decryption or a new key for it is refused with an exception,
  -- before the service is asked and with the vault unchanged.
  pub kms_shred-final :
      (e : Str) (ts : ℕ) (v : KmsVault crypto exn_text kms) (cs : List (VaultCall crypto))
      (blob aad : Bytes) {v' : KmsVault crypto exn_text kms}
      → run_calls cs (Kms.shred crypto exn_text kms e ts v).1 ≡ v'
      → (get (strip e) v'.records ≡ none)
        × (Kms.decrypt crypto exn_text kms e blob aad v'
            ≡ (raise (runtime_error (gone_text crypto (strip e))), v'))
        × ((x : Exn) × (Kms.provision crypto exn_text kms e v' ≡ (raise x, v')))
  unfolding Kms.decrypt
  kms_shred-final e ts v cs blob aad {v'} ran =
      let s =
        run_calls-Sealed (strip e) cs (Kms.shred crypto exn_text kms e ts v).1
          (shred-starts e ts v) in
      let s' : Sealed (strip e) v' = subst (Sealed (strip e)) ran s in
      (s'.1, rw (s'.0, Kms.decrypt), provision-refused e v' s'.0)
