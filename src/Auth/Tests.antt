-- ===== src/Auth/Tests.antt =====
-- Requests to a production service (api/auth.py).
use unlearning.Prelude.{◌≡◌, ◌≢◌, ◌↔◌, ◌⊎◌, refl, true, false, none, some, [], ◌∷◌, Str, ok}
use unlearning.Prelude.Dict.{get}
use unlearning.Prelude.Text.{codes}
use unlearning.Auth.{
  Env, HttpRequest, env_flag, is_production, allow_insecure, get_api_key, auth_required,
  signing_key, default_signing_key, uses_default_key, strong_signing, validate_production_secrets,
  bearer_key, extract_presented_key, called_next, bad_key, or_root, rstrip_slash, is_public,
  check_key, dispatch,
}
use unlearning.Auth.Gate.{PresentsKey, dispatch-called_next_iff}
use unlearning.Auth.Startup.{validated-dispatch}

program : Unit {0}
unfolding get unlearning.Prelude.Text.is_space unlearning.Prelude.Text.lstrip
    unlearning.Prelude.Text.rstrip unlearning.Prelude.Text.strip unlearning.Prelude.Text.lower
    env_flag is_production allow_insecure get_api_key auth_required signing_key default_signing_key
    uses_default_key strong_signing validate_production_secrets bearer_key extract_presented_key
    rstrip_slash is_public check_key dispatch
program = tt

abbrev secret : Str
secret = codes "s3cret"

abbrev live : Env
live =
    (codes "HEALER_ENV", codes "Prod ")
    ∷ (codes "HEALER_API_KEY", codes " s3cret")
    ∷ (codes "HEALER_SIGNING_KEY", codes "long")
    ∷ []

abbrev bearer : HttpRequest
bearer = record {
  path = codes "/delete";
  x_api_key = none;
  authorization = some (codes "BEARER s3cret ");
}

abbrev anonymous : HttpRequest
anonymous = record { path = codes "/delete/"; x_api_key = none; authorization = none }

abbrev docs_page : HttpRequest
docs_page = record { path = codes "/health/"; x_api_key = none; authorization = none }

bearer_run : dispatch live bearer ≡ called_next
unfolding program
bearer_run = refl

anonymous_run : dispatch live anonymous ≡ bad_key
unfolding program
anonymous_run = refl

docs_run : dispatch live docs_page ≡ called_next
unfolding program
docs_run = refl

started : validate_production_secrets live ≡ ok tt
unfolding program
started = refl

in_production : is_production live ≡ true
unfolding program
in_production = refl

no_bypass : allow_insecure live ≡ false
unfolding program
no_bypass = refl

dispatch-called_next_iff_example : (dispatch live bearer ≡ called_next) ↔ (
    (is_public (or_root (rstrip_slash bearer.path)) ≡ true)
    ⊎ (auth_required live ≡ false)
    ⊎ PresentsKey live bearer)
dispatch-called_next_iff_example = dispatch-called_next_iff live bearer

validated-dispatch_example :
    (signing_key live ≢ default_signing_key)
    × (key : Str) × (get_api_key live ≡ some key)
    × ((r : HttpRequest)
        → is_public (or_root (rstrip_slash r.path)) ≡ false
        → ((extract_presented_key r ≡ some key) × (dispatch live r ≡ called_next))
          ⊎ ((extract_presented_key r ≢ some key) × (dispatch live r ≡ bad_key)))
validated-dispatch_example = validated-dispatch live started in_production no_bypass
