-- ===== src/Auth.antt =====
-- api/auth.py: the API key of the HTTP service and the guard of its start. The environment is its
-- variables as a dictionary, read anew by each call; a request is its path and the two headers that
-- are read. `hmac.compare_digest` is equality of the texts, whose UTF-8 images are equal only for
-- equal texts.
pub mod Gate
pub mod Startup
mod Tests
use unlearning.Prelude.{
  ℕ, Bool, true, false, not, ◌&&◌, ◌||◌, Option, none, some, List, [], ◌∷◌, ◌++◌, drop, any, ◌==◌,
  if◌then◌else◌, Str, runtime_error, Result, ok, raise,
}
use unlearning.Prelude.Dict.{Dict, get}
use unlearning.Prelude.Eq.{str_eq, str_beq, elem}
use unlearning.Prelude.Text.{codes, strip, lower, is_empty, starts_with}

abbrev pub Env : Type 0
Env = Dict Str Str

unfoldable pub default_signing_key : Str
default_signing_key = codes "dev-only-placeholder-signing-key"

abbrev pub public_paths : List Str
public_paths =
    codes "/health"
    ∷ codes "/metrics"
    ∷ codes "/docs"
    ∷ codes "/openapi.json"
    ∷ codes "/redoc"
    ∷ codes "/favicon.ico"
    ∷ []

-- `env.get(name, default)`
abbrev pub get_or : Str → Str → Env → Str
get_or name default env = elim (get name env) [ none ↦ default | some raw ↦ raw ]

unfoldable pub env_flag : Str → Bool → Env → Bool
env_flag name default env = elim (get name env) [
  | none ↦ default
  | some raw ↦ elem (lower (strip raw)) (codes "1" ∷ codes "true" ∷ codes "yes" ∷ codes "on" ∷ [])
]

unfoldable pub is_production : Env → Bool
is_production env =
    elem (lower (strip (get_or (codes "HEALER_ENV") (codes "development") env)))
      (codes "production" ∷ codes "prod" ∷ [])

unfoldable pub allow_insecure : Env → Bool
allow_insecure env = env_flag (codes "HEALER_ALLOW_INSECURE") false env

-- `key or None`
abbrev pub non_empty : Str → Option Str
non_empty [] = none
non_empty (c ∷ s) = some (c ∷ s)

unfoldable pub get_api_key : Env → Option Str
get_api_key env = non_empty (strip (get_or (codes "HEALER_API_KEY") [] env))

unfoldable pub auth_required : Env → Bool
auth_required env =
    if allow_insecure env
    then false
    else if env_flag (codes "HEALER_REQUIRE_AUTH") false env
    then true
    else elim (get_api_key env) [ some key ↦ true | none ↦ is_production env ]

abbrev pub is_none : Option Str → Bool
is_none none = true
is_none (some key) = false

unfoldable pub signing_key : Env → Str
signing_key env = get_or (codes "HEALER_SIGNING_KEY") default_signing_key env

abbrev pub default_signing_text : Str
default_signing_text =
    codes
      "HEALER_ENV=production requires a non-default HEALER_SIGNING_KEY. Set a long random secret before starting the API."

abbrev pub no_api_key_text : Str
no_api_key_text =
    codes
      "HEALER_ENV=production requires HEALER_API_KEY (or HEALER_ALLOW_INSECURE=1 for emergency bypass)."

abbrev pub strong_signing_text : Str
strong_signing_text = codes "HEALER_REQUIRE_STRONG_SIGNING=1 rejects the default signing key"

unfoldable pub uses_default_key : Env → Bool
uses_default_key env = str_beq (signing_key env) default_signing_key

-- the last test of the guard
unfoldable pub strong_signing : Env → Result (Unit {0})
strong_signing env =
    if env_flag (codes "HEALER_REQUIRE_STRONG_SIGNING") false env && uses_default_key env
    then raise (runtime_error strong_signing_text)
    else ok tt

unfoldable pub validate_production_secrets : Env → Result (Unit {0})
validate_production_secrets env =
    if allow_insecure env
    then ok tt
    else if is_production env && uses_default_key env
    then raise (runtime_error default_signing_text)
    else if is_production env && is_none (get_api_key env)
    then raise (runtime_error no_api_key_text)
    else strong_signing env

pub record HttpRequest : Type 0 where
  pub path : Str
  pub x_api_key : Option Str
  pub authorization : Option Str

-- `auth[7:].strip()` of a bearer header
unfoldable pub bearer_key : Option Str → Option Str
bearer_key none = none
bearer_key (some auth) =
    if starts_with (lower auth) (codes "bearer ") then some (strip (drop 7 auth)) else none

unfoldable pub extract_presented_key : HttpRequest → Option Str
unfolding bearer_key
extract_presented_key r = elim r.x_api_key [
  | none ↦ bearer_key r.authorization
  | some header ↦ if is_empty header then bearer_key r.authorization else some (strip header)
]

abbrev pub keys_match : Str → Str → Bool
keys_match presented expected = str_beq presented expected

pub data Answer : Type 0 where
  -- `call_next`
  called_next : Answer
  -- a response with its status and detail
  refused : ℕ → Str → Answer

-- `path.rstrip("/") or "/"`
unfoldable pub rstrip_slash : Str → Str
rstrip_slash [] = []
rstrip_slash (c ∷ s) =
    let rest = rstrip_slash s in if c == b'/' && is_empty rest then [] else c ∷ rest

abbrev pub or_root : Str → Str
or_root [] = codes "/"
or_root (c ∷ s) = c ∷ s

unfoldable pub is_public : Str → Bool
is_public path = elem path public_paths || starts_with path (codes "/docs")

abbrev pub not_configured : Answer
not_configured = refused 503 (codes "auth required but HEALER_API_KEY is not configured")

abbrev pub bad_key : Answer
bad_key = refused 401 (codes "invalid or missing API key")

-- The test of the presented key: an empty one counts as missing.
abbrev pub key_is_good : Str → Option Str → Bool
key_is_good expected none = false
key_is_good expected (some presented) = not (is_empty presented) && keys_match presented expected

-- `assert_api_key_dependency`, and the part of `dispatch` behind the public paths
unfoldable pub check_key : Env → HttpRequest → Answer
check_key env r = if not (auth_required env) then called_next else elim (get_api_key env) [
  | none ↦ not_configured
  | some expected ↦ if key_is_good expected (extract_presented_key r) then called_next else bad_key
]

-- `ApiKeyMiddleware.dispatch`
unfoldable pub dispatch : Env → HttpRequest → Answer
unfolding check_key
dispatch env r =
    let path = or_root (rstrip_slash r.path) in
    if is_public path then called_next else check_key env r
