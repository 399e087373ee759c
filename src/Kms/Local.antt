-- ===== src/Kms/Local.antt =====
-- `LocalFileKMS` of compliance/kms_backends.py: a master key and the wrapped keys in a file. The file is
-- what was written to it: JSON and base64 are read back as written, and a write does not fail.
use unlearning.Prelude.{
  ℕ, suc, not, Option, none, some, List, [], ◌∷◌, ◌++◌, length, take, drop, ltb, ◌==◌,
  if◌then◌else◌, Str, value_error, runtime_error, Result, ok, raise,
}
use unlearning.Prelude.Dict.{Dict, get, put, remove}
use unlearning.Prelude.Eq.{str_eq, elem}
use unlearning.Prelude.Text.{codes}
use unlearning.Shred.{Bytes, Crypto, add_shredded}
use unlearning.Kms.{Kms}

-- the payload of `_persist`
pub record Saved : Type 0 where
  pub master : Bytes
  pub wrapped : Dict Str Bytes
  pub destroyed : List Str

pub record LocalFileKms : Type 0 where
  pub path : Option Str
  -- the content of the file at the path
  pub file : Option Saved
  pub master : Bytes
  pub wrapped : Dict Str Bytes
  pub destroyed : List Str
  pub tokens : ℕ

-- `Path(path) if path else None`
abbrev pub path_of : Option Str → Option Str
path_of none = none
path_of (some []) = none
path_of (some (c ∷ s)) = some (c ∷ s)

-- `_persist`
unfoldable pub persist : LocalFileKms → LocalFileKms
persist k = elim k.path [
  | none ↦ k
  | some p ↦ record k {
    file = some (record { master = k.master; wrapped = k.wrapped; destroyed = k.destroyed });
  }
]

-- A service with a master key and nothing wrapped, written to its file.
unfoldable pub fresh : Option Str → Option Saved → Bytes → ℕ → LocalFileKms
unfolding persist
fresh path file master tokens = persist (record {
  path = path;
  file = file;
  master = master;
  wrapped = [];
  destroyed = [];
  tokens = tokens;
})

-- A service from its file, if it has a path.
abbrev pub loaded : Option Str → Option Saved → ℕ → Option LocalFileKms
loaded none file tokens = none
loaded (some p) none tokens = none
loaded (some p) (some saved) tokens = some (record {
  path = some p;
  file = some saved;
  master = saved.master;
  wrapped = saved.wrapped;
  destroyed = saved.destroyed;
  tokens = tokens;
})

abbrev pub shredded_text : (Str → Str) → Str → Str
shredded_text repr eid = codes "entity " ++ (repr eid ++ codes " shredded")

unfoldable pub destroy_entity_key : Str → LocalFileKms → LocalFileKms
unfolding persist
destroy_entity_key eid k =
    persist (record k { wrapped = remove eid k.wrapped; destroyed = add_shredded eid k.destroyed })

module _ (crypto : Crypto) (encode : Str → Bytes) where
  -- `__init__`; `file` is what the path holds
  unfoldable pub new_local_kms : Option Str → Option Bytes → Option Saved → ℕ → Result LocalFileKms
  unfolding fresh
  new_local_kms path (some master_key) file tokens =
      if not (length master_key == 32)
      then raise (value_error (codes "master_key must be 32 bytes"))
      else ok (fresh (path_of path) file master_key tokens)
  new_local_kms path none file tokens = elim (loaded (path_of path) file tokens) [
    | some k ↦ ok k
    | none ↦ ok (fresh (path_of path) file (crypto.token_bytes 32 tokens) (suc tokens))
  ]

  unfoldable pub wrap_dek : Str → Bytes → LocalFileKms → Result Bytes × LocalFileKms
  unfolding persist
  wrap_dek eid dek k =
      let nonce = crypto.token_bytes 12 k.tokens in
      if elem eid k.destroyed
      then (raise (runtime_error (shredded_text crypto.repr eid)), k)
      else elim (crypto.aes_encrypt k.master nonce dek (some (encode eid))) [
        | raise x ↦ (raise x, record k { tokens = suc k.tokens })
        | ok ct ↦ (
          ok (nonce ++ ct),
          persist (record k { wrapped = put eid (nonce ++ ct) k.wrapped; tokens = suc k.tokens }),
        )
      ]

  -- The wrapped key that is stored goes first.
  abbrev pub wrapped_of : Str → Bytes → LocalFileKms → Bytes
  wrapped_of eid given k = elim (get eid k.wrapped) [ none ↦ given | some blob ↦ blob ]

  unfoldable pub unwrap_dek : Str → Bytes → LocalFileKms → Result Bytes
  unwrap_dek eid given k =
      let blob = wrapped_of eid given k in
      if elem eid k.destroyed
      then raise (runtime_error (shredded_text crypto.repr eid))
      else if ltb (length blob) 13
      then raise (value_error (codes "wrapped DEK too short"))
      else crypto.aes_decrypt k.master (take 12 blob) (drop 12 blob) (some (encode eid))

  abbrev pub local_kms : Kms
  local_kms = record {
    K = LocalFileKms;
    wrap_dek = wrap_dek;
    unwrap_dek = λ eid blob k. (unwrap_dek eid blob k, k);
    destroy_entity_key = λ eid k. (ok tt, destroy_entity_key eid k);
  }
