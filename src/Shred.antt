-- ===== src/Shred.antt =====
-- compliance/crypto_shred.py: the vault of per-entity keys. AES-GCM, the random tokens and the float
-- conversion of numpy are parameters; the clock is an argument. The master key, which no method
-- reads, is left out.
pub mod Final
pub mod Kept
pub mod Toy
mod Tests
use unlearning.Prelude.{
  ℕ, suc, Bool, true, Option, none, some, List, [], ◌∷◌, ◌++◌, length, take, drop, ltb,
  if◌then◌else◌, Str, value_error, runtime_error, Result, ok, raise, ◌>>=◌,
}
use unlearning.Prelude.Dict.{Dict, get, put, remove, is_some}
use unlearning.Prelude.Eq.{str_eq, elem}
use unlearning.Prelude.Text.{codes, is_empty, strip}

abbrev pub Bytes : Type 0
Bytes = List ℕ

pub record Crypto : Type 1 where
  pub F : Type 0
  -- `repr` of a string, which `!r` asks for
  pub repr : Str → Str
  -- `AESGCM(key).encrypt(nonce, data, aad)` and `.decrypt`
  pub aes_encrypt : Bytes → Bytes → Bytes → Option Bytes → Result Bytes
  pub aes_decrypt : Bytes → Bytes → Bytes → Option Bytes → Result Bytes
  -- `secrets.token_bytes(n)`, by how often it was called before
  pub token_bytes : ℕ → ℕ → Bytes
  -- `np.asarray(v, dtype=np.float32).tobytes()` and `np.frombuffer`
  pub to_bytes : List F → Bytes
  pub from_bytes : Bytes → Result (List F)

pub record ShredReceipt : Type 0 where
  pub entity_id : Str
  pub shredded : Bool
  pub timestamp_unix_ns : ℕ
  pub message : Str

pub record Vault : Type 0 where
  pub keys : Dict Str Bytes
  pub shredded : List Str
  pub tokens : ℕ

-- `__init__`
abbrev pub new_vault : Vault
new_vault = record { keys = []; shredded = []; tokens = 0 }

abbrev pub gone_text : Crypto → Str → Str
gone_text crypto eid =
    codes "crypto-shredded or unknown entity " ++ (crypto.repr eid ++ codes ": cannot decrypt")

abbrev pub shredded_text : Crypto → Str → Str
shredded_text crypto eid =
    codes "entity "
    ++ (crypto.repr eid
        ++ codes " was crypto-shredded; cannot re-provision without explicit admin recovery policy")

-- `aad or None`
abbrev pub or_none : Bytes → Option Bytes
or_none [] = none
or_none (b ∷ bs) = some (b ∷ bs)

pub data VectorArg (F : Type 0) : Type 0 where
  raw : Bytes → VectorArg F
  floats : List F → VectorArg F

module _ (crypto : Crypto) where
  -- The key of an entity that is not shredded: a new one, if there is none.
  unfoldable pub provision_key : Str → Vault → Bytes × Vault
  provision_key eid v = elim (get eid v.keys) [
    | some key ↦ (key, v)
    | none ↦
        let key = crypto.token_bytes 32 v.tokens in
        (key, record v { keys = put eid key v.keys; tokens = suc v.tokens })
  ]

  unfoldable pub provision : Str → Vault → Result Bytes × Vault
  provision entity_id v =
      let eid = strip entity_id in
      if is_empty eid
      then (raise (value_error (codes "entity_id required")), v)
      else if elem eid v.shredded
      then (raise (runtime_error (shredded_text crypto eid)), v)
      else (let (key, v') = provision_key eid v in (ok key, v'))

  -- `nonce + ct`, under the key of the entity
  unfoldable pub seal : Bytes → Bytes → Result Bytes × Vault → Result Bytes × Vault
  seal plaintext aad (raise x, v) = (raise x, v)
  seal plaintext aad (ok key, v) =
      let nonce = crypto.token_bytes 12 v.tokens in
      (
        (do ct ← crypto.aes_encrypt key nonce plaintext (or_none aad); ok (nonce ++ ct)),
        record v { tokens = suc v.tokens },
      )

  unfoldable pub encrypt : Str → Bytes → Bytes → Vault → Result Bytes × Vault
  encrypt entity_id plaintext aad v = seal plaintext aad (provision entity_id v)

  unfoldable pub open_blob : Bytes → Bytes → Bytes → Result Bytes
  open_blob key blob aad =
      if ltb (length blob) 13
      then raise (value_error (codes "ciphertext too short"))
      else crypto.aes_decrypt key (take 12 blob) (drop 12 blob) (or_none aad)

  unfoldable pub decrypt : Str → Bytes → Bytes → Vault → Result Bytes
  decrypt entity_id blob aad v =
      let eid = strip entity_id in
      if elem eid v.shredded
      then raise (runtime_error (gone_text crypto eid))
      else elim (get eid v.keys) [
        | none ↦ raise (runtime_error (gone_text crypto eid))
        | some key ↦ open_blob key blob aad
      ]

  abbrev pub vector_aad : Bytes
  vector_aad = codes "embedding/f32"

  abbrev pub raw_of : VectorArg crypto.F → Bytes
  raw_of (raw bytes) = bytes
  raw_of (floats xs) = crypto.to_bytes xs

  unfoldable pub encrypt_vector : Str → VectorArg crypto.F → Vault → Result Bytes × Vault
  encrypt_vector entity_id vector v = encrypt entity_id (raw_of vector) vector_aad v

  unfoldable pub decrypt_vector : Str → Bytes → Vault → Result (List crypto.F)
  decrypt_vector entity_id blob v = do
    bytes ← decrypt entity_id blob vector_aad v
    crypto.from_bytes bytes

-- `self._shredded.add(eid)`
abbrev pub add_shredded : Str → List Str → List Str
add_shredded eid xs = if elem eid xs then xs else eid ∷ xs

unfoldable pub shred : Str → ℕ → Vault → ShredReceipt × Vault
shred entity_id ts v =
    let eid = strip entity_id in
    (
      record {
        entity_id = eid;
        shredded = true;
        timestamp_unix_ns = ts;
        message =
            if is_some (get eid v.keys)
            then codes "DEK destroyed"
            else codes "no DEK present; marked shredded for fail-closed decrypt";
      },
      record v { keys = remove eid v.keys; shredded = add_shredded eid v.shredded },
    )

unfoldable pub is_shredded : Str → Vault → Bool
is_shredded entity_id v = elem (strip entity_id) v.shredded
