-- ===== src/Shred/Final.antt =====
-- The life of a key in the vault (compliance/crypto_shred.py), over any calls of its methods.
use unlearning.Prelude.{
  ℕ, ◌≡◌, refl, ap, ◌∙◌, true, none, List, [], ◌∷◌, arith, Bool-cases, inl, inr, Str, Exn,
  value_error, runtime_error, Result, ok, raise,
}
use unlearning.Prelude.Dict.{get, get-put, get-remove}
use unlearning.Prelude.Eq.{str_eq, str_beq_iff, elem}
use unlearning.Prelude.Text.{codes, strip, is_empty}
use unlearning.Shred.{
  Bytes, Crypto, Vault, gone_text, shredded_text, provision_key, provision, seal, encrypt, decrypt,
  encrypt_vector, VectorArg, add_shredded, shred,
}

-- A call of a method that may change the vault.
pub data VaultCall (crypto : Crypto) : Type 0 where
  provisioned : Str → VaultCall crypto
  encrypted : Str → Bytes → Bytes → VaultCall crypto
  vector_encrypted : Str → VectorArg crypto.F → VaultCall crypto
  shredded : Str → ℕ → VaultCall crypto

module _ (crypto : Crypto) where
  abbrev pub run_call : VaultCall crypto → Vault → Vault
  run_call (provisioned e) v = (provision crypto e v).1
  run_call (encrypted e plaintext aad) v = (encrypt crypto e plaintext aad v).1
  run_call (vector_encrypted e vector) v = (encrypt_vector crypto e vector v).1
  run_call (shredded e ts) v = (shred e ts v).1

  unfoldable pub run_calls : List (VaultCall crypto) → Vault → Vault
  run_calls [] v = v
  run_calls (c ∷ cs) v = run_calls cs (run_call c v)

  -- The entity has no key and will get none.
  abbrev Sealed : Str → Vault → Type 0
  Sealed eid v = (elem eid v.shredded ≡ true) × (get eid v.keys ≡ none)

  provision-Sealed : (eid e : Str) (v : Vault) → Sealed eid v → Sealed eid (provision crypto e v).1
  unfolding provision provision_key
  provision-Sealed eid e v h = ground (
    arith,
    get-put (strip e) eid (crypto.token_bytes 32 v.tokens) v.keys,
    str_beq_iff (strip e) eid,
  )

  pub seal-vault :
      (plaintext aad : Bytes) (m : Result Bytes × Vault)
      → ((seal crypto plaintext aad m).1.keys ≡ m.1.keys)
        × ((seal crypto plaintext aad m).1.shredded ≡ m.1.shredded)
  unfolding seal
  seal-vault plaintext aad (raise x, v) = (refl, refl)
  seal-vault plaintext aad (ok key, v) = (refl, refl)

  encrypt-Sealed :
      (eid e : Str) (plaintext aad : Bytes) (v : Vault)
      → Sealed eid v
      → Sealed eid (encrypt crypto e plaintext aad v).1
  unfolding encrypt
  encrypt-Sealed eid e plaintext aad v h =
      let (keys, shreds) = seal-vault plaintext aad (provision crypto e v) in
      let s = provision-Sealed eid e v h in (ap (elem eid) shreds ∙ s.0, ap (get eid) keys ∙ s.1)

  elem-add_shredded :
      (eid e : Str) (xs : List Str) → elem eid xs ≡ true → elem eid (add_shredded e xs) ≡ true
  elem-add_shredded eid e xs h = ground arith

  shred-Sealed : (eid e : Str) (ts : ℕ) (v : Vault) → Sealed eid v → Sealed eid (shred e ts v).1
  unfolding shred
  shred-Sealed eid e ts v h = (
    elem-add_shredded eid (strip e) v.shredded h.0,
    ground (arith, get-remove (strip e) eid v.keys),
  )

  run_calls-Sealed :
      (eid : Str) (cs : List (VaultCall crypto)) (v : Vault)
      → Sealed eid v
      → Sealed eid (run_calls cs v)
  unfolding run_calls encrypt_vector
  run_calls-Sealed eid [] v h = h
  run_calls-Sealed eid (provisioned e ∷ cs) v h =
      run_calls-Sealed eid cs _ (provision-Sealed eid e v h)
  run_calls-Sealed eid (encrypted e p aad ∷ cs) v h =
      run_calls-Sealed eid cs _ (encrypt-Sealed eid e p aad v h)
  run_calls-Sealed eid (vector_encrypted e p ∷ cs) v h =
      run_calls-Sealed eid cs _ (encrypt-Sealed eid e _ _ v h)
  run_calls-Sealed eid (shredded e ts ∷ cs) v h =
      run_calls-Sealed eid cs _ (shred-Sealed eid e ts v h)

  shred-starts : (e : Str) (ts : ℕ) (v : Vault) → Sealed (strip e) (shred e ts v).1
  unfolding shred
  shred-starts e ts v = (
    ground (arith, str_beq_iff (strip e) (strip e)),
    ground (arith, get-remove (strip e) (strip e) v.keys, str_beq_iff (strip e) (strip e)),
  )

  raise-provision :
      (f : Str) (v : Vault)
      → elem (strip f) v.shredded ≡ true
      → (x : Exn) × ((provision crypto f v).0 ≡ raise x)
  unfolding provision
  raise-provision f v h = elim (Bool-cases (is_empty (strip f))) [
    | inl t ↦ (value_error (codes "entity_id required"), rw (t, provision) refl)
    | inr n ↦ (runtime_error (shredded_text crypto (strip f)), rw (n, h, provision) refl)
  ]

  -- Behind a shred, and any calls after it, the vault holds no key of the entity; every decryption
  -- and every new key for it is refused with an exception.
  pub shred-final :
      (e : Str) (ts : ℕ) (v : Vault) (cs : List (VaultCall crypto)) (blob aad : Bytes)
      → (get (strip e) (run_calls cs (shred e ts v).1).keys ≡ none)
        × (decrypt crypto e blob aad (run_calls cs (shred e ts v).1)
            ≡ raise (runtime_error (gone_text crypto (strip e))))
        × ((x : Exn) × ((provision crypto e (run_calls cs (shred e ts v).1)).0 ≡ raise x))
  unfolding decrypt
  shred-final e ts v cs blob aad =
      let s = run_calls-Sealed (strip e) cs (shred e ts v).1 (shred-starts e ts v) in
      (s.1, rw (s.0, decrypt) refl, raise-provision e _ s.0)
