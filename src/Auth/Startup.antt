-- ===== src/Auth/Startup.antt =====
-- What the guard at the start of the HTTP service (api/auth.py) secures for its requests.
use unlearning.Prelude.{
  ◌≡◌, ◌≢◌, ◌⊎◌, inl, inr, true, false, some, arith, Str, Bool-cases, Option-cases, ok,
}
use unlearning.Prelude.Eq.{str_beq_iff}
use unlearning.Auth.{
  Env, HttpRequest, get_api_key, allow_insecure, is_production, auth_required, signing_key,
  default_signing_key, uses_default_key, validate_production_secrets, extract_presented_key,
  called_next, bad_key, or_root, rstrip_slash, is_public, dispatch,
}
use unlearning.Auth.Gate.{check_key_of_key}

not_default : (env : Env) → uses_default_key env ≡ false → signing_key env ≢ default_signing_key
unfolding uses_default_key
not_default env own same =
    let again : uses_default_key env ≡ true =
      (str_beq_iff (signing_key env) default_signing_key).1 same in
    cc

-- A production start that returns has a key of its own for receipts and an API key.
validated :
    (env : Env)
    → validate_production_secrets env ≡ ok tt
    → is_production env ≡ true
    → allow_insecure env ≡ false
    → (signing_key env ≢ default_signing_key) × (key : Str) × (get_api_key env ≡ some key)
unfolding validate_production_secrets
validated env h prod safe = elim (Bool-cases (uses_default_key env)) [
  | inl t ↦ absurd (ground (arith, rw (safe, prod, t, validate_production_secrets) at h))
  | inr own ↦ elim (Option-cases (get_api_key env)) [
    | inl unset ↦
        absurd (ground (arith, rw (safe, prod, own, unset, validate_production_secrets) at h))
    | inr (key, given) ↦ (not_default env own, key, given)
  ]
]

production-auth_required :
    (env : Env) → is_production env ≡ true → allow_insecure env ≡ false → auth_required env ≡ true
unfolding auth_required
production-auth_required env prod safe = ground arith

-- A service whose guard has returned, in production and without the emergency bypass, signs with a
-- key other than the default one and has an API key; of the requests to a path that is not public,
-- those that present this key pass, and every other gets 401. None is told that no key is
-- configured.
pub validated-dispatch :
    (env : Env)
    → validate_production_secrets env ≡ ok tt
    → is_production env ≡ true
    → allow_insecure env ≡ false
    → (signing_key env ≢ default_signing_key)
      × (key : Str) × (get_api_key env ≡ some key)
      × ((r : HttpRequest)
          → is_public (or_root (rstrip_slash r.path)) ≡ false
          → ((extract_presented_key r ≡ some key) × (dispatch env r ≡ called_next))
            ⊎ ((extract_presented_key r ≢ some key) × (dispatch env r ≡ bad_key)))
unfolding dispatch
validated-dispatch env h prod safe =
    let (own, key, given) = validated env h prod safe in
    let needed = production-auth_required env prod safe in
    (own, key, given, λ r closed. rw closed (check_key_of_key env r key needed given))
