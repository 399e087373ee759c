-- ===== src/Auth/Gate.antt =====
-- Who passes the middleware of api/auth.py.
use unlearning.Prelude.{
  ◌≡◌, ◌≢◌, ◌↔◌, ◌⊎◌, inl, inr, true, false, Option, none, some, arith, Str, Bool-cases,
  Option-cases,
}
use unlearning.Prelude.Eq.{str_beq_iff}
use unlearning.Prelude.Text.{is_empty}
use unlearning.Auth.{
  Env, HttpRequest, get_api_key, auth_required, extract_presented_key, key_is_good, called_next,
  not_configured, bad_key, or_root, rstrip_slash, is_public, check_key, dispatch,
}

-- A configured key is not empty.
pub api_key_non_empty : (env : Env) (key : Str) → get_api_key env ≡ some key → is_empty key ≡ false
unfolding get_api_key
api_key_non_empty env key h = ground arith

pub key_is_good_iff :
    (expected : Str) (presented : Option Str)
    → is_empty expected ≡ false
    → (key_is_good expected presented ≡ true) ↔ (presented ≡ some expected)
key_is_good_iff expected none full = (λ h. absurd (cc), λ h. absurd (cc))
key_is_good_iff expected (some p) full = ground (arith, str_beq_iff p expected)

-- What the middleware answers when a key is configured and asked for.
pub check_key_of_key :
    (env : Env) (r : HttpRequest) (key : Str)
    → auth_required env ≡ true
    → get_api_key env ≡ some key
    → ((extract_presented_key r ≡ some key) × (check_key env r ≡ called_next))
      ⊎ ((extract_presented_key r ≢ some key) × (check_key env r ≡ bad_key))
unfolding check_key
check_key_of_key env r key needed given =
    let good = key_is_good_iff key (extract_presented_key r) (api_key_non_empty env key given) in
    elim (Bool-cases (key_is_good key (extract_presented_key r))) [
      | inl t ↦ inl (good.0 t, rw (needed, given, check_key) (rw t))
      | inr f ↦ inr (λ same. cc (good.1 same), rw (needed, given, check_key) (rw f))
    ]

-- The request presents the configured key.
abbrev pub PresentsKey : Env → HttpRequest → Type 0
PresentsKey env r =
    (key : Str) × (get_api_key env ≡ some key) × (extract_presented_key r ≡ some key)

-- The answers of the check, and what they mean.
check_key_open :
    (env : Env) (r : HttpRequest) → auth_required env ≡ false → check_key env r ≡ called_next
unfolding check_key
check_key_open env r free = rw (free, check_key)

check_key_unset :
    (env : Env) (r : HttpRequest)
    → auth_required env ≡ true
    → get_api_key env ≡ none
    → check_key env r ≡ not_configured
unfolding check_key
check_key_unset env r needed unset = rw (needed, check_key) (rw unset)

check_key-called_next :
    (env : Env) (r : HttpRequest)
    → check_key env r ≡ called_next
    → (auth_required env ≡ false) ⊎ PresentsKey env r
check_key-called_next env r h = elim (Bool-cases (auth_required env)) [
  | inr free ↦ inl free
  | inl needed ↦ elim (Option-cases (get_api_key env)) [
    | inl unset ↦ absurd (cc (check_key_unset env r needed unset))
    | inr (key, given) ↦ elim (check_key_of_key env r key needed given) [
      | inl (same, ran) ↦ inr (key, given, same)
      | inr (differs, ran) ↦ absurd (cc)
    ]
  ]
]

called_next-check_key :
    (env : Env) (r : HttpRequest) → PresentsKey env r → check_key env r ≡ called_next
called_next-check_key env r (key, given, same) = elim (Bool-cases (auth_required env)) [
  | inr free ↦ check_key_open env r free
  | inl needed ↦ elim (check_key_of_key env r key needed given) [
    | inl (again, ran) ↦ ran
    | inr (differs, ran) ↦ absurd (differs same)
  ]
]

-- A request reaches the service exactly if its path is public, or no authentication is asked for, or
-- it presents the configured key.
pub dispatch-called_next_iff :
    (env : Env) (r : HttpRequest)
    → (dispatch env r ≡ called_next) ↔ (
        (is_public (or_root (rstrip_slash r.path)) ≡ true)
        ⊎ (auth_required env ≡ false)
        ⊎ PresentsKey env r)
unfolding dispatch
dispatch-called_next_iff env r = elim (Bool-cases (is_public (or_root (rstrip_slash r.path)))) [
  | inl t ↦ (λ h. inl t, λ h. rw t)
  | inr f ↦ (
    λ h. inr (check_key-called_next env r (rw f at h)),
    λ h. rw f (elim h [
      | inl t ↦ absurd (cc)
      | inr (inl free) ↦ check_key_open env r free
      | inr (inr held) ↦ called_next-check_key env r held
    ]),
  )
]
