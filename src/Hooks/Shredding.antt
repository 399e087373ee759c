-- ===== src/Hooks/Shredding.antt =====
-- The crypto-shred hook of integrations/hooks.py over the two vaults of compliance/crypto_shred.py and
-- compliance/kms_backends.py.
use unlearning.Prelude.{
  ℕ, suc, ◌≡◌, refl, sym, ap, subst, true, none, some, List, [], ◌∷◌, arith, map, Bool-cases, inl,
  inr, Str, Exn, runtime_error, ok, raise,
}
use unlearning.Prelude.Eq.{str_eq, str_beq, str_beq_iff, elem}
use unlearning.Prelude.Text.{strip}
use unlearning.Shred.{Bytes, Crypto, ShredReceipt, Vault, gone_text}
use unlearning.Shred
use unlearning.Shred.Final.{VaultCall, shredded, run_calls, shred-final}
use unlearning.Kms
use unlearning.Kms.{Kms, KmsVault}
use unlearning.Kms.Final as KmsFinal
use unlearning.Hooks.{
  ShredAnswer, receipt, ShredVault, ShredResult, failed_of, shred_one, shred_all, crypto_shred_hook,
}

-- A vault whose `shred` answers a receipt that says so, and behind which the entity is gone for good.
record IsShredding (vault : ShredVault) (Gone : Str → vault.V → Type 0) : Type 0 where
  there : vault.has_shred ≡ true
  answers :
      (e : Str) (v : vault.V)
      → (message : Str) × ((vault.shred e v).0 ≡ ok (receipt true (some message)))
  starts : (e : Str) (v : vault.V) → Gone e (vault.shred e v).1
  keeps : (e f : Str) (v : vault.V) → Gone e v → Gone e (vault.shred f v).1

module _ (vault : ShredVault) (Gone : Str → vault.V → Type 0) (is : IsShredding vault Gone)
    (exn_text : Exn → Str) (results_text : List ShredResult → Str) where
  shred_one-eq :
      (e : Str) (v : vault.V)
      → (message : Str) × (shred_one vault exn_text results_text e v ≡ (
        record { entity_id = e; shredded = true; message = some message; error = none },
        (vault.shred e v).1,
      ))
  unfolding shred_one
  shred_one-eq e v =
      let (message, a) = is.answers e v in (message, rw (is.there, a, shred_one) refl)

  shred_one-vault :
      (e : Str) (v : vault.V) → (shred_one vault exn_text results_text e v).1 ≡ (vault.shred e v).1
  shred_one-vault e v = ap (λ m. m.1) (shred_one-eq e v).1

  shred_all-results :
      (ids : List Str) (v : vault.V)
      → (failed_of (shred_all vault exn_text results_text ids v).0 ≡ [])
        × (map (λ r. r.entity_id) (shred_all vault exn_text results_text ids v).0 ≡ ids)
  unfolding shred_all failed_of
  shred_all-results [] v = (refl, refl)
  shred_all-results (e ∷ ids) v =
      let (message, q) = shred_one-eq e v in
      let rest = shred_all-results ids (vault.shred e v).1 in
      rw (q, shred_all) (rest.0, ap (λ es. e ∷ es) rest.1)

  shred_all-keeps :
      (e : Str) (ids : List Str) (v : vault.V)
      → Gone e v
      → Gone e (shred_all vault exn_text results_text ids v).1
  unfolding shred_all
  shred_all-keeps e [] v h = h
  shred_all-keeps e (f ∷ ids) v h =
      shred_all-keeps e ids _ (subst (Gone e) (sym (shred_one-vault f v)) (is.keeps e f v h))

  shred_all-Gone :
      (e : Str) (ids : List Str) (v : vault.V)
      → elem e ids ≡ true
      → Gone e (shred_all vault exn_text results_text ids v).1
  unfolding shred_all
  shred_all-Gone e [] v h = absurd (cc)
  shred_all-Gone e (f ∷ ids) v h = elim (Bool-cases (str_beq f e)) [
    | inl t ↦
        let same : f ≡ e = (str_beq_iff f e).0 t in
        shred_all-keeps e ids _ (
          subst (Gone e) (sym (shred_one-vault f v))
            (subst (λ x. Gone x (vault.shred f v).1) same (is.starts f v)))
    | inr t ↦ shred_all-Gone e ids _ (ground arith)
  ]

  hook-Gone :
      (ids : List Str) (v : vault.V)
      → (results : List ShredResult) × ((crypto_shred_hook vault exn_text results_text ids v).0
          ≡ ok results)
        × (map (λ r. r.entity_id) results ≡ ids)
        × ((e : Str)
            → elem e ids ≡ true
            → Gone e (crypto_shred_hook vault exn_text results_text ids v).1)
  unfolding crypto_shred_hook
  hook-Gone ids v =
      let (none_failed, named) = shred_all-results ids v in
      (
        (shred_all vault exn_text results_text ids v).0,
        rw (none_failed, crypto_shred_hook) refl,
        named,
        λ e there. shred_all-Gone e ids v there,
      )

abbrev pub receipt_answer : ShredReceipt → ShredAnswer
receipt_answer r = receipt r.shredded (some r.message)

-- `CryptoShredVault` for the hook, beside the number of readings of the clock; `time_ns n` is the clock's reading number `n`.
abbrev pub local_vault : (ℕ → ℕ) → ShredVault
local_vault time_ns = record {
  V = Vault × ℕ;
  has_shred = true;
  shred = λ eid (v, n).
      let (r, v') = Shred.shred eid (time_ns n) v in (ok (receipt_answer r), (v', suc n));
}

-- `KmsCryptoShredVault` for the hook
abbrev pub kms_vault : (crypto : Crypto) → (Exn → Str) → Kms → (ℕ → ℕ) → ShredVault
kms_vault crypto exn_text kms time_ns = record {
  V = KmsVault crypto exn_text kms × ℕ;
  has_shred = true;
  shred = λ eid (v, n).
      let (r, v') = Kms.shred crypto exn_text kms eid (time_ns n) v in
      (ok (receipt_answer r), (v', suc n));
}

module _ (crypto : Crypto) (time_ns : ℕ → ℕ) where
  -- No blob of the entity is decrypted, whatever is called first.
  abbrev pub Undecryptable : Str → Vault × ℕ → Type 0
  Undecryptable e (v, n) =
      (cs : List (VaultCall crypto)) (blob aad : Bytes)
      → Shred.decrypt crypto e blob aad (run_calls crypto cs v)
        ≡ raise (runtime_error (gone_text crypto (strip e)))

  local_vault-IsShredding : IsShredding (local_vault time_ns) Undecryptable
  unfolding Shred.shred run_calls
  local_vault-IsShredding = record {
    there = refl;
    answers = λ e (v, n). ((Shred.shred e (time_ns n) v).0.message, refl);
    starts = λ e (v, n) cs blob aad. (shred-final crypto e (time_ns n) v cs blob aad).1;
    keeps = λ e f (v, n) h cs blob aad. h (shredded f (time_ns n) ∷ cs) blob aad;
  }

  -- The crypto-shred hook on a vault of keys returns with one result for each id, and what was
  -- encrypted for any of the ids is not decrypted, behind the hook and any calls of the vault after it.
  pub crypto_shred_hook-final :
      (exn_text : Exn → Str) (results_text : List ShredResult → Str) (ids : List Str) (v : Vault)
      (n : ℕ) (e : Str) (cs : List (VaultCall crypto)) (blob aad : Bytes)
      → elem e ids ≡ true
      → (results : List ShredResult) × ((crypto_shred_hook
            (local_vault time_ns)
            exn_text
            results_text
            ids
            (v, n)).0
          ≡ ok results)
        × (map (λ r. r.entity_id) results ≡ ids)
        × (Shred.decrypt crypto e blob aad (
              run_calls crypto cs
                (crypto_shred_hook (local_vault time_ns) exn_text results_text ids (v, n)).1.0)
            ≡ raise (runtime_error (gone_text crypto (strip e))))
  crypto_shred_hook-final exn_text results_text ids v n e cs blob aad there =
      let (results, run, named, gone) =
        hook-Gone (local_vault time_ns) Undecryptable local_vault-IsShredding exn_text results_text
          ids (v, n) in
      (results, run, named, gone e there cs blob aad)

  module _ (exn_text : Exn → Str) (kms : Kms) where
    -- The vault refuses every blob of the entity, whatever is called first.
    abbrev pub Refused : Str → KmsVault crypto exn_text kms × ℕ → Type 0
    Refused e (v, n) =
        (cs : List (KmsFinal.VaultCall crypto)) (blob aad : Bytes)
        → (Kms.decrypt crypto exn_text kms e blob aad
            (KmsFinal.run_calls crypto exn_text kms cs v)).0
          ≡ raise (runtime_error (gone_text crypto (strip e)))

    kms_vault-IsShredding : IsShredding (kms_vault crypto exn_text kms time_ns) Refused
    unfolding Kms.shred KmsFinal.run_calls
    kms_vault-IsShredding = record {
      there = refl;
      answers = λ e (v, n). ((Kms.shred crypto exn_text kms e (time_ns n) v).0.message, refl);
      starts = λ e (v, n) cs blob aad.
          ap (λ m. m.0)
            (KmsFinal.kms_shred-final crypto exn_text kms e (time_ns n) v cs blob aad refl).1;
      keeps = λ e f (v, n) h cs blob aad. h (KmsFinal.shredded f (time_ns n) ∷ cs) blob aad;
    }

    -- The crypto-shred hook on a vault over a key service: it returns with one result for each id,
    -- also where the service raises at every call, and the vault refuses every blob of the ids, behind
    -- the hook and any calls of the vault after it.
    pub kms_hook-final :
        (results_text : List ShredResult → Str) (ids : List Str) (v : KmsVault crypto exn_text kms)
        (n : ℕ) (e : Str) (cs : List (KmsFinal.VaultCall crypto)) (blob aad : Bytes)
        → elem e ids ≡ true
        → (results : List ShredResult) × ((crypto_shred_hook
              (kms_vault crypto exn_text kms time_ns)
              exn_text
              results_text
              ids
              (v, n)).0
            ≡ ok results)
          × (map (λ r. r.entity_id) results ≡ ids)
          × ((Kms.decrypt crypto exn_text kms e blob aad (
                KmsFinal.run_calls crypto exn_text kms cs
                  (crypto_shred_hook
                    (kms_vault crypto exn_text kms time_ns)
                    exn_text
                    results_text
                    ids
                    (v, n)).1.0)).0
              ≡ raise (runtime_error (gone_text crypto (strip e))))
    kms_hook-final results_text ids v n e cs blob aad there =
        let (results, run, named, gone) =
          hook-Gone (kms_vault crypto exn_text kms time_ns) Refused kms_vault-IsShredding exn_text
            results_text ids (v, n) in
        (results, run, named, gone e there cs blob aad)
