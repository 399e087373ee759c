-- ===== src/Tenancy/Tests.antt =====
-- Two tenants of one manager (integrations/tenancy.py), with the concatenation as the HMAC.
use unlearning.Prelude.{ℕ, ◌≡◌, ◌≢◌, refl, true, Option, some, List, [], ◌∷◌, ◌++◌, Str, ok}
use unlearning.Prelude.Dict.{get, put}
use unlearning.Prelude.Text.{codes, strip, lstrip, rstrip, is_space, lower}
use unlearning.Auth.{Env, signing_key, default_signing_key}
use unlearning.Tenancy.{
  multi_tenant_enabled, tenant_re, validate_tenant_id, TenantContext, TenantManager, master_of,
  new_manager, derive_tenant_signing_key, get_valid, get_tenant,
}
use unlearning.Tenancy.Apart.{Outside, context_of, run_gets, tenants_apart}

program : Unit {0}
unfolding get put strip lstrip rstrip is_space lower signing_key default_signing_key
    multi_tenant_enabled tenant_re validate_tenant_id new_manager derive_tenant_signing_key
    get_valid get_tenant run_gets
program = tt

abbrev toy_hmac : List ℕ → List ℕ → List ℕ
toy_hmac key text = key ++ text

abbrev multi : Env
multi = (codes "HEALER_MULTI_TENANT", codes "On") ∷ []

abbrev base : Str
base = codes "/data"

abbrev before : List (Env × Option Str)
before = (multi, some (codes "zed")) ∷ (multi, some (codes "../zed")) ∷ []

abbrev start : TenantManager
start = run_gets toy_hmac before (new_manager base (some (1 ∷ [])) [] [])

abbrev first : TenantManager
first = (get_tenant toy_hmac multi (some (codes "acme")) start).1

abbrev acme : TenantContext
acme = context_of toy_hmac base (1 ∷ []) (codes "acme")

abbrev zed : TenantContext
zed = context_of toy_hmac base (1 ∷ []) (codes "zed")

multi_on : multi_tenant_enabled multi ≡ true
unfolding program
multi_on = refl

acme_run : get_tenant toy_hmac multi (some (codes "acme")) start ≡ (ok acme, first)
unfolding program
acme_run = refl

-- From the cache, under a name with a blank.
zed_run : (get_tenant toy_hmac multi (some (codes " zed")) (run_gets toy_hmac [] first)).0 ≡ ok zed
unfolding program
zed_run = refl

tenants_apart_example :
    (acme ≡ context_of toy_hmac base (master_of (some (1 ∷ [])) []) (strip (codes "acme")))
    × (zed ≡ context_of toy_hmac base (master_of (some (1 ∷ [])) []) (strip (codes " zed")))
    × (strip (codes "acme") ≢ strip (codes " zed")
        → (acme.data_dir ≢ zed.data_dir)
          × Outside acme.data_dir zed.data_dir
          × Outside zed.data_dir acme.data_dir)
tenants_apart_example =
    tenants_apart toy_hmac base (some (1 ∷ [])) [] multi multi [] before [] (codes "acme")
      (codes " zed") {context = acme} {context' = zed} {m = first} multi_on multi_on refl refl
      acme_run zed_run
