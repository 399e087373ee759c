-- ===== src/Api.antt =====
-- The handlers of the HTTP service (api/main.py) and the retry on lock contention. A handler takes the
-- service's state and returns it beside its reply, also where it raises. The native module is a
-- parameter; FastAPI, timings and log output are left out.
pub mod Retry
pub mod Matrix
pub mod Ingest
pub mod Rows
pub mod Counting
pub mod Ordered
pub mod Placed
pub mod Loaded
pub mod Registered
pub mod Refused
pub mod Requests
pub mod Deletes
pub mod Told
pub mod Search
mod Tests
use unlearning.Prelude.{
  ℕ, zero, suc, ◌*◌, ◌^◌, ◌≡◌, refl, ◌⊎◌, inl, inr, Bool, List, [], ◌∷◌, ◌++◌, if◌then◌else◌, Str,
  Exn, value_error, key_error, runtime_error, struct_error, os_error, other, id_mapping_error,
  Result, ok, raise,
}

-- An `HTTPException`.
pub record HttpError : Type 0 where
  pub status_code : ℕ
  pub detail : Str

-- How a handler ends: with its answer, with an `HTTPException`, or with an exception that nothing in
-- the handler catches.
pub data Reply {ℓ} (A : Type ℓ) : Type ℓ where
  answer : A → Reply A
  http_error : HttpError → Reply A
  uncaught : Exn → Reply A

abbrev pub refuse {ℓ} : {A : Type ℓ} → ℕ → Str → Reply A
refuse code text = http_error (record { status_code = code; detail = text })

-- Behind a save of the registry, whose `OSError` is logged.
abbrev pub logged {ℓ} : {A : Type ℓ} → Result (Unit {0}) → A → Reply A
logged (ok u) a = answer a
logged (raise (os_error text)) a = answer a
logged (raise x) a = uncaught x

pub logged-cases {ℓ} :
    {A : Type ℓ} (out : Result (Unit {0})) (a : A)
    → (logged out a ≡ answer a) ⊎ ((x : Exn) × (logged out a ≡ uncaught x))
logged-cases (ok u) a = inl refl
logged-cases (raise (os_error text)) a = inl refl
logged-cases (raise (value_error text)) a = inr (_, refl)
logged-cases (raise (key_error text)) a = inr (_, refl)
logged-cases (raise (runtime_error text)) a = inr (_, refl)
logged-cases (raise (struct_error text)) a = inr (_, refl)
logged-cases (raise (other text)) a = inr (_, refl)
logged-cases (raise (id_mapping_error p)) a = inr (_, refl)

-- The world that `fn` changes, the count `lock_contention`, and the delays that were slept.
pub record Waiting (W : Type 0) : Type 0 where
  pub world : W
  pub contentions : ℕ
  pub slept : List ℕ

-- `attempts < 1` counts as one attempt.
abbrev pub at_least_one : ℕ → ℕ
at_least_one zero = 1
at_least_one (suc n) = suc n

-- `fn` is called with the world; `is_contention` tells a `LockContentionError`.
module _ {A W : Type 0} (is_contention : Exn → Bool) (fn : W → Result A × W) (base_delay : ℕ) where
  abbrev pub contended : Waiting W → W → Waiting W
  contended s w = record s { world = w; contentions = suc s.contentions }

  abbrev pub sleep : ℕ → Waiting W → Waiting W
  sleep attempt s = record s { slept = s.slept ++ ((base_delay * 2 ^ attempt) ∷ []) }

  -- The loop of `with_lock_retry`, at an attempt with that many more behind it.
  unfoldable pub attempt_from : ℕ → ℕ → Waiting W → Result A × Waiting W
  attempt_from zero attempt s =
      let (out, w) = fn s.world in
      elim out [
        | ok a ↦ (ok a, record s { world = w })
        | raise x ↦ (raise x, if is_contention x then contended s w else record s { world = w })
      ]
  attempt_from (suc more) attempt s =
      let (out, w) = fn s.world in
      let again = attempt_from more (suc attempt) (sleep attempt (contended s w)) in
      elim out [
        | ok a ↦ (ok a, record s { world = w })
        | raise x ↦ if is_contention x then again else (raise x, record s { world = w })
      ]

  abbrev pub attempts_left : ℕ → ℕ
  attempts_left zero = zero
  attempts_left (suc n) = n

  unfoldable pub with_lock_retry : ℕ → W → Result A × Waiting W
  unfolding attempt_from
  with_lock_retry max_attempts w =
      attempt_from (attempts_left max_attempts) 0
        (record { world = w; contentions = 0; slept = [] })
