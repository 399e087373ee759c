-- ===== src/Shred/Kept.antt =====
-- A key that is not shredded is kept (compliance/crypto_shred.py), so its blobs stay readable.
use unlearning.Prelude.{
  ℕ, ◌≡◌, ◌≤◌, refl, sym, ap, ◌∙◌, subst, Bool, true, false, not, ◌&&◌, Option, some, List, [], ◌∷◌,
  ◌++◌, arith, length, take, drop, ltb, take-append, drop-append, length-append, Str, Result, ok,
  raise, >>=-eq-ok,
}
use unlearning.Prelude.Dict.{get, get-put, get-remove}
use unlearning.Prelude.Eq.{str_eq, str_beq, str_beq_iff, elem}
use unlearning.Prelude.Text.{strip}
use unlearning.Shred.{
  Bytes, Crypto, Vault, or_none, provision_key, provision, seal, encrypt, open_blob, decrypt,
  encrypt_vector, shred,
}
use unlearning.Shred.Final.{
  VaultCall, provisioned, encrypted, vector_encrypted, shredded, run_calls, seal-vault,
}

module _ (crypto : Crypto) where
  -- What the vault asks of its cipher: nonces of twelve bytes, a tag behind the text, and that what
  -- was encrypted is decrypted under the same key, nonce and data.
  pub record IsAead : Type 0 where
    pub nonce : (n : ℕ) → length (crypto.token_bytes 12 n) ≡ 12
    pub tagged :
        (key nonce plaintext : Bytes) (aad : Option Bytes) (ct : Bytes)
        → crypto.aes_encrypt key nonce plaintext aad ≡ ok ct
        → 1 ≤ length ct
    pub opens :
        (key nonce plaintext : Bytes) (aad : Option Bytes) (ct : Bytes)
        → crypto.aes_encrypt key nonce plaintext aad ≡ ok ct
        → crypto.aes_decrypt key nonce ct aad ≡ ok plaintext

  -- No call shreds the entity.
  unfoldable pub spares : Str → List (VaultCall crypto) → Bool
  spares eid [] = true
  spares eid (shredded e ts ∷ cs) = not (str_beq (strip e) eid) && spares eid cs
  spares eid (c ∷ cs) = spares eid cs

  abbrev Keeps : Str → Bytes → Vault → Type 0
  Keeps eid key v = (elem eid v.shredded ≡ false) × (get eid v.keys ≡ some key)

  provision-Keeps :
      (eid e : Str) (key : Bytes) (v : Vault)
      → Keeps eid key v
      → Keeps eid key (provision crypto e v).1
  unfolding provision provision_key
  provision-Keeps eid e key v h = ground (
    arith,
    get-put (strip e) eid (crypto.token_bytes 32 v.tokens) v.keys,
    str_beq_iff (strip e) eid,
  )

  encrypt-Keeps :
      (eid e : Str) (key plaintext aad : Bytes) (v : Vault)
      → Keeps eid key v
      → Keeps eid key (encrypt crypto e plaintext aad v).1
  unfolding encrypt
  encrypt-Keeps eid e key plaintext aad v h =
      let (keys, shreds) = seal-vault crypto plaintext aad (provision crypto e v) in
      let s = provision-Keeps eid e key v h in (ap (elem eid) shreds ∙ s.0, ap (get eid) keys ∙ s.1)

  shred-Keeps :
      (eid e : Str) (key : Bytes) (ts : ℕ) (v : Vault)
      → str_beq (strip e) eid ≡ false
      → Keeps eid key v
      → Keeps eid key (shred e ts v).1
  unfolding shred
  shred-Keeps eid e key ts v other h =
      (ground arith, ground (arith, get-remove (strip e) eid v.keys))

  run_calls-Keeps :
      (eid : Str) (key : Bytes) (cs : List (VaultCall crypto)) (v : Vault)
      → spares eid cs ≡ true
      → Keeps eid key v
      → Keeps eid key (run_calls crypto cs v)
  unfolding run_calls spares encrypt_vector
  run_calls-Keeps eid key [] v s h = h
  run_calls-Keeps eid key (provisioned e ∷ cs) v s h =
      run_calls-Keeps eid key cs _ s (provision-Keeps eid e key v h)
  run_calls-Keeps eid key (encrypted e p aad ∷ cs) v s h =
      run_calls-Keeps eid key cs _ s (encrypt-Keeps eid e key p aad v h)
  run_calls-Keeps eid key (vector_encrypted e p ∷ cs) v s h =
      run_calls-Keeps eid key cs _ s (encrypt-Keeps eid e key _ _ v h)
  run_calls-Keeps eid key (shredded e ts ∷ cs) v s h =
      let spared = split_and _ _ s in
      run_calls-Keeps eid key cs _ spared.1 (shred-Keeps eid e key ts v spared.0 h)
    where
      split_and : (a b : Bool) → (not a && b) ≡ true → (a ≡ false) × (b ≡ true)
      split_and a b h = ground arith

  provision-ok :
      (e : Str) (v v' : Vault) (key : Bytes)
      → provision crypto e v ≡ (ok key, v')
      → Keeps (strip e) key v'
  unfolding provision provision_key
  provision-ok e v v' key h = ground (
    arith,
    get-put (strip e) (strip e) (crypto.token_bytes 32 v.tokens) v.keys,
    str_beq_iff (strip e) (strip e),
  )

  -- What was encrypted under a drawn nonce is taken apart and decrypted again.
  pub nonced-opens :
      (key plaintext ct : Bytes) (aad : Option Bytes) (n : ℕ)
      → IsAead
      → crypto.aes_encrypt key (crypto.token_bytes 12 n) plaintext aad ≡ ok ct
      → (ltb (length (crypto.token_bytes 12 n ++ ct)) 13 ≡ false)
        × (crypto.aes_decrypt key
              (take 12 (crypto.token_bytes 12 n ++ ct))
              (drop 12 (crypto.token_bytes 12 n ++ ct))
              aad
            ≡ ok plaintext)
  nonced-opens key plaintext ct aad n aead sealed =
      let nonce = crypto.token_bytes 12 n in
      let twelve : length nonce ≡ 12 = aead.nonce n in
      let text : 1 ≤ length ct = aead.tagged key nonce plaintext aad ct sealed in
      let front : take 12 (nonce ++ ct) ≡ nonce =
        ap (λ n. take n (nonce ++ ct)) (sym twelve) ∙ take-append nonce ct in
      let back : drop 12 (nonce ++ ct) ≡ ct =
        ap (λ n. drop n (nonce ++ ct)) (sym twelve) ∙ drop-append nonce ct in
      (
        ground (arith, length-append nonce ct),
        ap (λ n. crypto.aes_decrypt key n (drop 12 (nonce ++ ct)) aad) front
            ∙ (ap (λ c. crypto.aes_decrypt key nonce c aad) back
                ∙ aead.opens key nonce plaintext aad ct sealed),
      )

  -- A blob that was sealed under the key opens with it.
  seal-open :
      (plaintext aad : Bytes) (key blob : Bytes) (v v' : Vault)
      → IsAead
      → seal crypto plaintext aad (ok key, v) ≡ (ok blob, v')
      → open_blob crypto key blob aad ≡ ok plaintext
  unfolding seal open_blob
  seal-open plaintext aad key blob v v' aead h =
      let nonce = crypto.token_bytes 12 v.tokens in
      let (ct, sealed, whole) =
        >>=-eq-ok (crypto.aes_encrypt key nonce plaintext (or_none aad)) (λ c. ok (nonce ++ c))
          (ap (λ m. m.0) h) in
      let split : nonce ++ ct ≡ blob = cc whole in
      let (long, opened) = nonced-opens key plaintext ct (or_none aad) v.tokens aead sealed in
      subst (λ b. open_blob crypto key b aad ≡ ok plaintext) split (rw (long, open_blob) opened)

  -- What `encrypt` returned is decrypted to the plaintext behind any calls that do not shred the
  -- entity, over a cipher whose nonces have twelve bytes, whose texts carry a tag, and that decrypts
  -- what it has encrypted.
  pub encrypt-decrypt :
      (e : Str) (plaintext aad blob : Bytes) (v v' : Vault) (cs : List (VaultCall crypto))
      → IsAead
      → encrypt crypto e plaintext aad v ≡ (ok blob, v')
      → spares (strip e) cs ≡ true
      → decrypt crypto e blob aad (run_calls crypto cs v') ≡ ok plaintext
  unfolding encrypt seal decrypt
  encrypt-decrypt e plaintext aad blob v v' cs aead h spared = by_key (provision crypto e v) refl h
    where
      by_key :
          (m : Result Bytes × Vault)
          → provision crypto e v ≡ m
          → seal crypto plaintext aad m ≡ (ok blob, v')
          → decrypt crypto e blob aad (run_calls crypto cs v') ≡ ok plaintext
      by_key (raise x, w) q k = absurd (cc (ap (λ m. m.0) k))
      by_key (ok key, w) q k =
          let (keys, shreds) = seal-vault crypto plaintext aad (ok key, w) in
          let now = provision-ok e v w key q in
          let same : (seal crypto plaintext aad (ok key, w)).1 ≡ v' = ap (λ m. m.1) k in
          let start : Keeps (strip e) key v' =
            subst (Keeps (strip e) key) same
              (ap (elem (strip e)) shreds ∙ now.0, ap (get (strip e)) keys ∙ now.1) in
          let later = run_calls-Keeps (strip e) key cs v' spared start in
          rw (later.0, later.1, decrypt) (seal-open plaintext aad key blob w v' aead k)
