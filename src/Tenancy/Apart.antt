-- ===== src/Tenancy/Apart.antt =====
-- Tenants never share a directory (integrations/tenancy.py), whatever was asked of the manager before.
use mathlib.Core.List.{append_assoc, append_cancel_left}
use unlearning.Prelude.{
  ℕ, ◌≡◌, ◌≢◌, ◌⊎◌, Bool-cases, refl, sym, ap, ◌∙◌, subst, true, false, not, ◌||◌, Option, some,
  List, [], ◌∷◌, ◌++◌, arith, Str, ok, Option-cases, Result-cases, inl, inr,
}
use unlearning.Prelude.Dict.{get, get-put}
use unlearning.Prelude.Eq.{nat_eq, str_eq, str_beq_iff, elem}
use unlearning.Prelude.Text.{codes, strip, is_empty, starts_with}
use unlearning.Auth.{Env}
use unlearning.Tenancy.{
  multi_tenant_enabled, tenant_re, or_empty, validate_tenant_id, TenantContext, TenantManager,
  master_of, new_manager, tenant_dir, derive_tenant_signing_key, get_valid, get_tenant,
}
use unlearning.Tenancy.Names.{
  tenant_re-no_slash, validated_name, validate_again, starts-no_slash, starts-prefix,
}

-- One directory is not inside the other.
abbrev pub Outside : Str → Str → Type 0
Outside inner outer = starts_with inner (outer ++ b'/' ∷ []) ≡ false

module _ (hmac_sha256 : List ℕ → List ℕ → List ℕ) where
  -- The one context of a tenant.
  abbrev pub context_of : Str → List ℕ → Str → TenantContext
  context_of base_dir master tid = record {
    tenant_id = tid;
    data_dir = tenant_dir base_dir tid;
    signing_key = hmac_sha256 master tid;
  }

  -- The manager's base and key, and that its cache holds contexts of valid ids.
  record IsManager (base_dir : Str) (master : List ℕ) (m : TenantManager) : Type 0 where
    base : m.base_dir ≡ base_dir
    key : m.master ≡ master
    cached :
        (tid : Str) (context : TenantContext)
        → get tid m.cache ≡ some context
        → context ≡ context_of base_dir master tid

  get_valid-IsManager :
      (tid base_dir : Str) (master : List ℕ) (m : TenantManager)
      → validate_tenant_id (some tid) ≡ ok tid
      → IsManager base_dir master m
      → ((get_valid hmac_sha256 tid m).0 ≡ ok (context_of base_dir master tid))
        × IsManager base_dir master (get_valid hmac_sha256 tid m).1
  unfolding get_valid derive_tenant_signing_key
  get_valid-IsManager tid base_dir master m valid h = elim (Option-cases (get tid m.cache)) [
    | inr (context, e) ↦ rw (e, get_valid) (ap ok (h.cached tid context e), h)
    | inl e ↦
        rw (e, valid, get_valid)
          (
            ground (arith, h.base, h.key),
            record {
              base = h.base;
              key = h.key;
              cached = λ k context there. ground (
                arith,
                h.base,
                h.key,
                h.cached k context,
                str_beq_iff tid k,
                get-put tid k (context_of m.base_dir m.master tid) m.cache,
              );
            },
          )
  ]

  get_tenant-cases :
      (env : Env) (tenant_id : Option Str) (m : TenantManager)
      → ((get_tenant hmac_sha256 env tenant_id m).1 ≡ m)
        ⊎ ((tid : Str) × (validate_tenant_id tenant_id ≡ ok tid)
            × (get_tenant hmac_sha256 env tenant_id m ≡ get_valid hmac_sha256 tid m))
  unfolding get_tenant
  get_tenant-cases env tenant_id m =
      elim (Bool-cases (not (multi_tenant_enabled env) || is_empty (or_empty tenant_id))) [
        | inl t ↦ inl (rw t)
        | inr f ↦ elim (Result-cases (validate_tenant_id tenant_id)) [
          | inr (x, e) ↦ inl (rw f (rw e))
          | inl (tid, e) ↦ inr (tid, e, rw f (rw e))
        ]
      ]

  get_tenant-IsManager :
      (env : Env) (tenant_id : Option Str) (base_dir : Str) (master : List ℕ) (m : TenantManager)
      → IsManager base_dir master m
      → IsManager base_dir master (get_tenant hmac_sha256 env tenant_id m).1
  get_tenant-IsManager env tenant_id base_dir master m h = elim (get_tenant-cases env tenant_id m) [
    | inl same ↦ subst (IsManager base_dir master) (sym same) h
    | inr (tid, valid, ran) ↦
        subst (λ r. IsManager base_dir master r.1) (sym ran)
          (get_valid-IsManager tid base_dir master m (validate_again tenant_id valid) h).1
  ]

  -- A `get` of a named tenant in multi-tenant mode that returns.
  get_tenant-context :
      (env : Env) (name base_dir : Str) (master : List ℕ) (m : TenantManager)
      {context : TenantContext}
      → multi_tenant_enabled env ≡ true
      → is_empty name ≡ false
      → IsManager base_dir master m
      → (get_tenant hmac_sha256 env (some name) m).0 ≡ ok context
      → (tenant_re (strip name) ≡ true) × (context ≡ context_of base_dir master (strip name))
  unfolding get_tenant
  get_tenant-context env name base_dir master m {context} multi named h ran =
      elim (Result-cases (validate_tenant_id (some name))) [
        | inr (x, e) ↦ absurd (cc (rw (multi, named, e) at ran))
        | inl (tid, e) ↦
            let (own, fits) = validated_name (some name) e in
            let (there, later) =
              get_valid-IsManager tid base_dir master m (validate_again (some name) e) h in
            let found : (get_valid hmac_sha256 tid m).0 ≡ ok context =
              rw (multi, named, e) at ran in
            (ap tenant_re (sym own) ∙ fits, cc (own))
      ]

  unfoldable pub run_gets : List (Env × Option Str) → TenantManager → TenantManager
  run_gets [] m = m
  run_gets ((env, tenant_id) ∷ calls) m = run_gets calls (get_tenant hmac_sha256 env tenant_id m).1

  run_gets-IsManager :
      (calls : List (Env × Option Str)) (base_dir : Str) (master : List ℕ) (m : TenantManager)
      → IsManager base_dir master m
      → IsManager base_dir master (run_gets calls m)
  unfolding run_gets
  run_gets-IsManager [] base_dir master m h = h
  run_gets-IsManager ((env, tenant_id) ∷ calls) base_dir master m h =
      run_gets-IsManager calls base_dir master (get_tenant hmac_sha256 env tenant_id m).1
        (get_tenant-IsManager env tenant_id base_dir master m h)

  new_manager-IsManager :
      (base_dir : Str) (given : Option (List ℕ)) (env : Env) (dirs : List Str)
      → IsManager base_dir (master_of given env) (new_manager base_dir given env dirs)
  unfolding new_manager get
  new_manager-IsManager base_dir given env dirs = record {
    base = refl;
    key = refl;
    cached = λ tid context h. absurd (cc);
  }

module _ (base_dir : Str) where
  tenant_dir-injective : (a b : Str) → tenant_dir base_dir a ≡ tenant_dir base_dir b → a ≡ b
  tenant_dir-injective a b h =
      append_cancel_left (codes "/tenants/") a b (append_cancel_left base_dir _ _ h)

  tenant_dir-Outside :
      (a b : Str) → elem b'/' a ≡ false → Outside (tenant_dir base_dir a) (tenant_dir base_dir b)
  tenant_dir-Outside a b no_slash =
      rw (append_assoc base_dir (codes "/tenants/" ++ b) (b'/' ∷ [])) (
        rw (starts-prefix base_dir)
          (starts-prefix (codes "/tenants/") a (b ++ b'/' ∷ []) ∙ starts-no_slash a b no_slash))

-- Two tenants that a new manager was asked for in multi-tenant mode, with any calls before and between:
-- each gets the directory `tenants/<id>` of its stripped id below the base, and the key that is
-- derived from the master key for this id. If the stripped ids differ, so do the directories, and
-- neither is inside the other.
pub tenants_apart :
    (hmac_sha256 : List ℕ → List ℕ → List ℕ) (base_dir : Str) (given : Option (List ℕ))
    (made_in first_env second_env : Env) (dirs : List Str)
    (before between : List (Env × Option Str)) (a b : Str) {context context' : TenantContext}
    {m : TenantManager}
    → multi_tenant_enabled first_env ≡ true
    → multi_tenant_enabled second_env ≡ true
    → is_empty a ≡ false
    → is_empty b ≡ false
    → get_tenant hmac_sha256 first_env
        (some a)
        (run_gets hmac_sha256 before (new_manager base_dir given made_in dirs))
      ≡ (ok context, m)
    → (get_tenant hmac_sha256 second_env (some b) (run_gets hmac_sha256 between m)).0 ≡ ok context'
    → (context ≡ context_of hmac_sha256 base_dir (master_of given made_in) (strip a))
      × (context' ≡ context_of hmac_sha256 base_dir (master_of given made_in) (strip b))
      × (strip a ≢ strip b
          → (context.data_dir ≢ context'.data_dir)
            × Outside context.data_dir context'.data_dir
            × Outside context'.data_dir context.data_dir)
tenants_apart hmac_sha256 base_dir given made_in first_env second_env dirs before between a b
      {context} {context'} {m} multi multi' named named' ran ran' =
    let master = master_of given made_in in
    let fresh = new_manager base_dir given made_in dirs in
    let earlier =
      run_gets-IsManager hmac_sha256 before base_dir master fresh
        (new_manager-IsManager hmac_sha256 base_dir given made_in dirs) in
    let (fits, same) =
      get_tenant-context hmac_sha256 first_env a base_dir master (run_gets hmac_sha256 before fresh)
        multi named earlier (ap (λ r. r.0) ran) in
    let middle : IsManager hmac_sha256 base_dir master m =
      subst (λ r. IsManager hmac_sha256 base_dir master r.1) ran
        (get_tenant-IsManager hmac_sha256 first_env (some a) base_dir master
          (run_gets hmac_sha256 before fresh) earlier) in
    let (fits', same') =
      get_tenant-context hmac_sha256 second_env b base_dir master (run_gets hmac_sha256 between m)
        multi' named' (run_gets-IsManager hmac_sha256 between base_dir master m middle) ran' in
    (
      same,
      same',
      λ differ.
          rw (same, same')
            (
              λ e. differ (tenant_dir-injective base_dir (strip a) (strip b) e),
              tenant_dir-Outside base_dir (strip a) (strip b) (tenant_re-no_slash (strip a) fits),
              tenant_dir-Outside base_dir (strip b) (strip a) (tenant_re-no_slash (strip b) fits'),
            ),
    )
