-- ===== src/Tenancy.antt =====
-- integrations/tenancy.py: tenant ids, their directories and keys. HMAC-SHA256 is a parameter; a tenant
-- id that passes the pattern is ASCII, so its UTF-8 image is its code points. A path is its text, and
-- of the file system the model keeps the names of the directories below `tenants`.
pub mod Names
pub mod Apart
mod Tests
use unlearning.Prelude.{
  ℕ, Bool, true, false, not, ◌&&◌, ◌||◌, Option, none, some, List, [], ◌∷◌, ◌++◌, all, length, leb,
  ◌==◌, if◌then◌else◌, Str, value_error, Result, ok, raise,
}
use unlearning.Prelude.Dict.{Dict, get, put}
use unlearning.Prelude.Eq.{str_eq, elem}
use unlearning.Prelude.Sort.{sorted}
use unlearning.Prelude.Text.{codes, strip, lower, is_empty}
use unlearning.Auth.{Env, get_or, signing_key}

unfoldable pub multi_tenant_enabled : Env → Bool
multi_tenant_enabled env =
    elem (lower (strip (get_or (codes "HEALER_MULTI_TENANT") [] env)))
      (codes "1" ∷ codes "true" ∷ codes "yes" ∷ codes "on" ∷ [])

abbrev pub is_alnum : ℕ → Bool
is_alnum c = (leb b'a' c && leb c b'z') || (leb b'A' c && leb c b'Z') || (leb b'0' c && leb c b'9')

abbrev pub is_name_char : ℕ → Bool
is_name_char c = is_alnum c || c == b'_' || c == b'.' || c == b':' || c == b'-'

-- `_TENANT_RE.match`, on a text with no line break at its end
unfoldable pub tenant_re : Str → Bool
tenant_re [] = false
tenant_re (c ∷ s) = is_alnum c && all is_name_char s && leb (length s) 63

abbrev pub or_empty : Option Str → Str
or_empty none = []
or_empty (some s) = s

unfoldable pub validate_tenant_id : Option Str → Result Str
validate_tenant_id tenant_id =
    let tid = strip (or_empty tenant_id) in
    if is_empty tid
    then raise (value_error (codes "tenant_id required"))
    else if not (tenant_re tid)
    then raise (value_error (codes "tenant_id must be 1-64 chars: alphanumeric, _ . : -"))
    else ok tid

pub record TenantContext : Type 0 where
  pub tenant_id : Str
  pub data_dir : Str
  pub signing_key : List ℕ

unfoldable pub receipts_path : TenantContext → Str
receipts_path t = t.data_dir ++ codes "/receipts.jsonl"

unfoldable pub registry_path : TenantContext → Str
registry_path t = t.data_dir ++ codes "/id_registry.json"

pub record TenantManager : Type 0 where
  pub base_dir : Str
  pub master : List ℕ
  pub cache : Dict Str TenantContext
  -- the directories in `base_dir/tenants`
  pub tenant_dirs : List Str

-- `master_signing_key or os.environ.get(…)`
abbrev pub master_of : Option (List ℕ) → Env → List ℕ
master_of none env = signing_key env
master_of (some []) env = signing_key env
master_of (some (b ∷ bs)) env = b ∷ bs

-- `__init__`, over the directories that are there
unfoldable pub new_manager : Str → Option (List ℕ) → Env → List Str → TenantManager
new_manager base_dir master_signing_key env dirs = record {
  base_dir = base_dir;
  master = master_of master_signing_key env;
  cache = [];
  tenant_dirs = dirs;
}

-- `mkdir(parents=True, exist_ok=True)`
abbrev pub make_dir : Str → List Str → List Str
make_dir name dirs = if elem name dirs then dirs else name ∷ dirs

abbrev pub tenant_dir : Str → Str → Str
tenant_dir base_dir tid = base_dir ++ (codes "/tenants/" ++ tid)

-- Without a tenant, or in single-tenant mode
abbrev pub single : Option Str → TenantManager → TenantContext
single tenant_id m = record {
  tenant_id = if is_empty (or_empty tenant_id) then codes "default" else or_empty tenant_id;
  data_dir = m.base_dir;
  signing_key = m.master;
}

module _ (hmac_sha256 : List ℕ → List ℕ → List ℕ) where
  unfoldable pub derive_tenant_signing_key : List ℕ → Str → Result (List ℕ)
  derive_tenant_signing_key master_key tenant_id = elim (validate_tenant_id (some tenant_id)) [
    | raise x ↦ raise x
    | ok tid ↦ ok (hmac_sha256 master_key tid)
  ]

  -- The tenant of a valid id: from the cache, or new.
  unfoldable pub get_valid : Str → TenantManager → Result TenantContext × TenantManager
  get_valid tid m = elim (get tid m.cache) [
    | some context ↦ (ok context, m)
    | none ↦ elim (derive_tenant_signing_key m.master tid) [
      | raise x ↦ (raise x, m)
      | ok key ↦
          let context : TenantContext = record {
            tenant_id = tid;
            data_dir = tenant_dir m.base_dir tid;
            signing_key = key;
          } in
          (
            ok context,
            record m { cache = put tid context m.cache; tenant_dirs = make_dir tid m.tenant_dirs },
          )
    ]
  ]

  -- the method `get`
  unfoldable pub get_tenant :
      Env → Option Str → TenantManager → Result TenantContext × TenantManager
  unfolding get_valid
  get_tenant env tenant_id m =
      if not (multi_tenant_enabled env) || is_empty (or_empty tenant_id)
      then (ok (single tenant_id m), m)
      else elim (validate_tenant_id tenant_id) [ raise x ↦ (raise x, m) | ok tid ↦ get_valid tid m ]
