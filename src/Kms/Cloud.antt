-- ===== src/Kms/Cloud.antt =====
-- The cloud services of compliance/kms_backends.py. A client library is an interface; base64 is a
-- parameter. Each keeps its denylist of destroyed entities in memory. What the constructors ask of the
-- libraries, and the names of keys, are left out.
use unlearning.Prelude.{List, if◌then◌else◌, Str, runtime_error, Result, ok, raise, ◌>>=◌}
use unlearning.Prelude.Dict.{Dict, put, remove}
use unlearning.Prelude.Eq.{str_eq, elem}
use unlearning.Shred.{Bytes, add_shredded}
use unlearning.Kms.{Kms}
use unlearning.Kms.Local.{shredded_text}

-- A client's `encrypt` and `decrypt`, with the context that they are bound to.
pub record CloudClient : Type 1 where
  pub C : Type 0
  pub encrypt : Bytes → Bytes → C → Result Bytes × C
  pub decrypt : Bytes → Bytes → C → Result Bytes × C

module _ (cloud : CloudClient) (encode : Str → Bytes) (repr : Str → Str) where
  pub record AwsKms : Type 0 where
    pub client : cloud.C
    pub destroyed : List Str
    pub cache : Dict Str Bytes

  unfoldable pub aws_wrap_dek : Str → Bytes → AwsKms → Result Bytes × AwsKms
  aws_wrap_dek eid dek k =
      let (out, c) = cloud.encrypt dek (encode eid) k.client in
      if elem eid k.destroyed
      then (raise (runtime_error (shredded_text repr eid)), k)
      else elim out [
        | raise x ↦ (raise x, record k { client = c })
        | ok blob ↦ (ok blob, record k { client = c; cache = put eid blob k.cache })
      ]

  unfoldable pub aws_unwrap_dek : Str → Bytes → AwsKms → Result Bytes × AwsKms
  aws_unwrap_dek eid wrapped k =
      let (out, c) = cloud.decrypt wrapped (encode eid) k.client in
      if elem eid k.destroyed
      then (raise (runtime_error (shredded_text repr eid)), k)
      else (out, record k { client = c })

  unfoldable pub aws_destroy_entity_key : Str → AwsKms → AwsKms
  aws_destroy_entity_key eid k = record k {
    destroyed = add_shredded eid k.destroyed;
    cache = remove eid k.cache;
  }

  abbrev pub aws_kms : Kms
  aws_kms = record {
    K = AwsKms;
    wrap_dek = aws_wrap_dek;
    unwrap_dek = aws_unwrap_dek;
    destroy_entity_key = λ eid k. (ok tt, aws_destroy_entity_key eid k);
  }

  -- `GcpKmsBackend` and `VaultTransitBackend`
  pub record DenylistKms : Type 0 where
    pub client : cloud.C
    pub destroyed : List Str

  abbrev pub deny_destroy : Str → DenylistKms → DenylistKms
  deny_destroy eid k = record k { destroyed = add_shredded eid k.destroyed }

  unfoldable pub gcp_wrap_dek : Str → Bytes → DenylistKms → Result Bytes × DenylistKms
  gcp_wrap_dek eid dek k =
      let (out, c) = cloud.encrypt dek (encode eid) k.client in
      if elem eid k.destroyed
      then (raise (runtime_error (shredded_text repr eid)), k)
      else (out, record k { client = c })

  unfoldable pub gcp_unwrap_dek : Str → Bytes → DenylistKms → Result Bytes × DenylistKms
  gcp_unwrap_dek eid wrapped k =
      let (out, c) = cloud.decrypt wrapped (encode eid) k.client in
      if elem eid k.destroyed
      then (raise (runtime_error (shredded_text repr eid)), k)
      else (out, record k { client = c })

  abbrev pub gcp_kms : Kms
  gcp_kms = record {
    K = DenylistKms;
    wrap_dek = gcp_wrap_dek;
    unwrap_dek = gcp_unwrap_dek;
    destroy_entity_key = λ eid k. (ok tt, deny_destroy eid k);
  }

  module _ (b64encode : Bytes → Bytes) (b64decode : Bytes → Result Bytes) where
    unfoldable pub vault_wrap_dek : Str → Bytes → DenylistKms → Result Bytes × DenylistKms
    vault_wrap_dek eid dek k =
        let (out, c) = cloud.encrypt (b64encode dek) (b64encode (encode eid)) k.client in
        if elem eid k.destroyed
        then (raise (runtime_error (shredded_text repr eid)), k)
        else (out, record k { client = c })

    unfoldable pub vault_unwrap_dek : Str → Bytes → DenylistKms → Result Bytes × DenylistKms
    vault_unwrap_dek eid wrapped k =
        let (out, c) = cloud.decrypt wrapped (b64encode (encode eid)) k.client in
        if elem eid k.destroyed
        then (raise (runtime_error (shredded_text repr eid)), k)
        else ((do plaintext ← out; b64decode plaintext), record k { client = c })

    abbrev pub vault_kms : Kms
    vault_kms = record {
      K = DenylistKms;
      wrap_dek = vault_wrap_dek;
      unwrap_dek = vault_unwrap_dek;
      destroy_entity_key = λ eid k. (ok tt, deny_destroy eid k);
    }
