-- ===== src/Kms.antt =====
-- compliance/kms_backends.py: the key services and the vault that keeps its keys wrapped by one.
-- A key service is an interface, which the local one and the cloud ones fill. AES-GCM and the random
-- tokens are those of the vault (`Crypto`); each object counts the tokens that it drew. `encode` is
-- `str.encode`.
pub mod Local
pub mod Cloud
pub mod Final
pub mod Reopen
mod Tests
use unlearning.Prelude.{
  ℕ, suc, Bool, true, none, some, List, [], ◌++◌, if◌then◌else◌, Str, Exn, value_error,
  runtime_error, Result, ok, raise, ◌>>=◌,
}
use unlearning.Prelude.Dict.{Dict, get, put, remove}
use unlearning.Prelude.Eq.{str_eq, elem}
use unlearning.Prelude.Text.{codes, is_empty, strip}
use unlearning.Shred.{
  Bytes, Crypto, ShredReceipt, VectorArg, gone_text, or_none, raw_of, vector_aad, add_shredded,
  open_blob,
}

-- `KeyManagementService`
pub record Kms : Type 1 where
  pub K : Type 0
  pub wrap_dek : Str → Bytes → K → Result Bytes × K
  pub unwrap_dek : Str → Bytes → K → Result Bytes × K
  pub destroy_entity_key : Str → K → Result (Unit {0}) × K

abbrev pub no_provision_text : Crypto → Str → Str
no_provision_text crypto eid =
    codes "entity " ++ (crypto.repr eid ++ codes " was crypto-shredded; cannot re-provision")

module _ (crypto : Crypto) (exn_text : Exn → Str) (kms : Kms) where
  -- `KmsCryptoShredVault`
  pub record KmsVault : Type 0 where
    pub service : kms.K
    -- `_EntityRecord.wrapped_dek`
    pub records : Dict Str Bytes
    pub shredded : List Str
    pub tokens : ℕ

  -- `__init__`
  unfoldable pub new_vault : kms.K → KmsVault
  new_vault k = record { service = k; records = []; shredded = []; tokens = 0 }

  -- The key of an entity that is not shredded and has none.
  unfoldable pub wrap_new : Str → KmsVault → Result Bytes × KmsVault
  wrap_new eid v =
      let dek = crypto.token_bytes 32 v.tokens in
      let (wrapped, k) = kms.wrap_dek eid dek v.service in
      elim wrapped [
        | raise x ↦ (raise x, record v { service = k; tokens = suc v.tokens })
        | ok blob ↦ (
          ok dek,
          record v { service = k; records = put eid blob v.records; tokens = suc v.tokens },
        )
      ]

  unfoldable pub provision : Str → KmsVault → Result Bytes × KmsVault
  unfolding wrap_new
  provision entity_id v =
      let eid = strip entity_id in
      if is_empty eid
      then (raise (value_error (codes "entity_id required")), v)
      else if elem eid v.shredded
      then (raise (runtime_error (no_provision_text crypto eid)), v)
      else elim (get eid v.records) [
        | none ↦ wrap_new eid v
        | some wrapped ↦
            let (dek, k) = kms.unwrap_dek eid wrapped v.service in (dek, record v { service = k })
      ]

  -- `nonce + ct`
  unfoldable pub seal : Bytes → Bytes → Result Bytes × KmsVault → Result Bytes × KmsVault
  seal plaintext aad (raise x, v) = (raise x, v)
  seal plaintext aad (ok dek, v) =
      let nonce = crypto.token_bytes 12 v.tokens in
      (
        (do ct ← crypto.aes_encrypt dek nonce plaintext (or_none aad); ok (nonce ++ ct)),
        record v { tokens = suc v.tokens },
      )

  unfoldable pub encrypt : Str → Bytes → Bytes → KmsVault → Result Bytes × KmsVault
  encrypt entity_id plaintext aad v = seal plaintext aad (provision entity_id v)

  unfoldable pub decrypt : Str → Bytes → Bytes → KmsVault → Result Bytes × KmsVault
  decrypt entity_id blob aad v =
      let eid = strip entity_id in
      if elem eid v.shredded
      then (raise (runtime_error (gone_text crypto eid)), v)
      else elim (get eid v.records) [
        | none ↦ (raise (runtime_error (gone_text crypto eid)), v)
        | some wrapped ↦
            let (unwrapped, k) = kms.unwrap_dek eid wrapped v.service in
            ((do dek ← unwrapped; open_blob crypto dek blob aad), record v { service = k })
      ]

  unfoldable pub encrypt_vector : Str → VectorArg crypto.F → KmsVault → Result Bytes × KmsVault
  encrypt_vector entity_id vector v = encrypt entity_id (raw_of crypto vector) (vector_aad crypto) v

  -- The message of `shred`, by how the call of the service ended.
  abbrev pub shred_message : Result (Unit {0}) → Str
  shred_message (ok u) = codes "KMS entity key destroyed; local DEK record dropped"
  shred_message (raise x) = codes "local drop ok; KMS destroy error: " ++ exn_text x

  unfoldable pub shred : Str → ℕ → KmsVault → ShredReceipt × KmsVault
  shred entity_id ts v =
      let eid = strip entity_id in
      let (out, k) = kms.destroy_entity_key eid v.service in
      (
        record {
          entity_id = eid;
          shredded = true;
          timestamp_unix_ns = ts;
          message = shred_message out;
        },
        record v {
          service = k;
          records = remove eid v.records;
          shredded = add_shredded eid v.shredded;
        },
      )

  unfoldable pub is_shredded : Str → KmsVault → Bool
  is_shredded entity_id v = elem (strip entity_id) v.shredded
