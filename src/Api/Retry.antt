-- ===== src/Api/Retry.antt =====
-- How the retry on lock contention (`with_lock_retry` of api/main.py) ends.
use unlearning.Prelude.{
  ℕ, zero, suc, ◌+◌, ◌*◌, ◌^◌, ◌≤◌, ◌<◌, ◌≡◌, ◌⊎◌, refl, sym, ap, subst, ◌∙◌, Bool, true, false,
  List, [], ◌∷◌, ◌++◌, arith, if◌then◌else◌, Exn, Result, ok, raise, Bool-cases, Result-cases, inl,
  inr,
}
use mathlib.Core.List.{append_assoc, append-nil}
use unlearning.Api.{
  Waiting, contended, sleep, attempt_from, attempts_left, at_least_one, with_lock_retry,
}

module _ {A W : Type 0} (is_contention : Exn → Bool) (fn : W → Result A × W) (base_delay : ℕ) where
  abbrev pub contends : Result A → Bool
  contends (ok a) = false
  contends (raise x) = is_contention x

  -- So many calls of `fn`, one behind the other, that all end in contention.
  abbrev pub Contended : ℕ → W → W → Type 0
  Contended zero w w' = w ≡ w'
  Contended (suc k) w w' = (contends (fn w).0 ≡ true) × Contended k (fn w).1 w'

  -- The delays of so many sleeps, from an attempt on.
  abbrev pub delays : ℕ → ℕ → List ℕ
  delays attempt zero = []
  delays attempt (suc k) = (base_delay * 2 ^ attempt) ∷ delays (suc attempt) k

  -- `k` calls end in contention, the next one is the result, and it ends otherwise or is the last
  -- that is allowed.
  pub record Ends (more attempt : ℕ) (s : Waiting W) (out : Result A) (s' : Waiting W)
      : Type 0 where
    pub k : ℕ
    pub w : W
    pub few : k ≤ more
    pub before : Contended k s.world w
    pub result : out ≡ (fn w).0
    pub world : s'.world ≡ (fn w).1
    pub slept : s'.slept ≡ s.slept ++ delays attempt k
    pub counted : s'.contentions ≡ s.contentions + k + (if contends (fn w).0 then 1 else 0)
    pub last : (contends (fn w).0 ≡ false) ⊎ (k ≡ more)

  -- An attempt that does not end in contention is the last.
  settled :
      (more attempt : ℕ) (s : Waiting W)
      → contends (fn s.world).0 ≡ false
      → Ends more attempt s (fn s.world).0 (record s { world = (fn s.world).1 })
  settled more attempt s h = record {
    k = 0;
    w = s.world;
    few = omega arith;
    before = refl;
    result = refl;
    world = refl;
    slept = sym (append-nil s.slept);
    counted = rw h (omega arith);
    last = inl h;
  }

  -- So is the last one that is allowed.
  exhausted :
      (attempt : ℕ) (s : Waiting W)
      → contends (fn s.world).0 ≡ true
      → Ends 0 attempt s (fn s.world).0 (contended is_contention fn base_delay s (fn s.world).1)
  exhausted attempt s h = record {
    k = 0;
    w = s.world;
    few = omega arith;
    before = refl;
    result = refl;
    world = refl;
    slept = sym (append-nil s.slept);
    counted = rw h (omega arith);
    last = inr refl;
  }

  -- One more contention in front.
  once_more :
      (more attempt : ℕ) (s : Waiting W) {out : Result A} {s' : Waiting W}
      → contends (fn s.world).0 ≡ true
      → Ends more
          (suc attempt)
          (sleep is_contention fn base_delay attempt
            (contended is_contention fn base_delay s (fn s.world).1))
          out
          s'
      → Ends (suc more) attempt s out s'
  once_more more attempt s h e = record {
    k = suc e.k;
    w = e.w;
    few = omega (arith, e.few);
    before = (h, e.before);
    result = e.result;
    world = e.world;
    slept =
        e.slept ∙ append_assoc s.slept ((base_delay * 2 ^ attempt) ∷ []) (delays (suc attempt) e.k);
    counted = omega (arith, e.counted);
    last = elim e.last [ inl t ↦ inl t | inr t ↦ inr (ap suc t) ];
  }

  attempt-settled :
      (more attempt : ℕ) (s : Waiting W)
      → contends (fn s.world).0 ≡ false
      → ((fn s.world).0, record s { world = (fn s.world).1 })
        ≡ attempt_from is_contention fn base_delay more attempt s
  unfolding attempt_from
  attempt-settled zero attempt s h = ground arith
  attempt-settled (suc more) attempt s h = ground arith

  attempt-exhausted :
      (attempt : ℕ) (s : Waiting W)
      → contends (fn s.world).0 ≡ true
      → ((fn s.world).0, contended is_contention fn base_delay s (fn s.world).1)
        ≡ attempt_from is_contention fn base_delay 0 attempt s
  unfolding attempt_from
  attempt-exhausted attempt s h = ground arith

  attempt-again :
      (more attempt : ℕ) (s : Waiting W)
      → contends (fn s.world).0 ≡ true
      → attempt_from is_contention fn base_delay more (suc attempt) (
          sleep is_contention fn base_delay attempt
            (contended is_contention fn base_delay s (fn s.world).1))
        ≡ attempt_from is_contention fn base_delay (suc more) attempt s
  unfolding attempt_from
  attempt-again more attempt s h = elim (Result-cases (fn s.world).0) [
    | inl (a, q) ↦ absurd (cc (rw q at h))
    | inr (x, q) ↦ rw (q, rw q at h, attempt_from) refl
  ]

  attempt_from-Ends :
      (more attempt : ℕ) (s : Waiting W)
      → Ends more attempt s
          (attempt_from is_contention fn base_delay more attempt s).0
          (attempt_from is_contention fn base_delay more attempt s).1
  attempt_from-Ends zero attempt s = elim (Bool-cases (contends (fn s.world).0)) [
    | inr f ↦
        subst (λ (p : Result A × Waiting W). Ends 0 attempt s p.0 p.1)
          (attempt-settled 0 attempt s f) (settled 0 attempt s f)
    | inl t ↦
        subst (λ (p : Result A × Waiting W). Ends 0 attempt s p.0 p.1)
          (attempt-exhausted attempt s t) (exhausted attempt s t)
  ]
  attempt_from-Ends (suc more) attempt s = elim (Bool-cases (contends (fn s.world).0)) [
    | inr f ↦
        subst (λ (p : Result A × Waiting W). Ends (suc more) attempt s p.0 p.1)
          (attempt-settled (suc more) attempt s f) (settled (suc more) attempt s f)
    | inl t ↦
        subst (λ (p : Result A × Waiting W). Ends (suc more) attempt s p.0 p.1)
          (attempt-again more attempt s t)
          (once_more more attempt s t (attempt_from-Ends more (suc attempt) _))
  ]

  left_and_one : (n : ℕ) → suc (attempts_left is_contention fn base_delay n) ≡ at_least_one n
  left_and_one zero = refl
  left_and_one (suc n) = refl

  -- A retry ends as one call of `fn`, behind fewer other calls than it is allowed (at least one is),
  -- each of which ended in lock contention: that last call ended otherwise, or it was the last that is
  -- allowed. It slept once for each call before the last, twice as long each time, and it has counted
  -- the calls that ended in contention.
  pub with_lock_retry-calls :
      (max_attempts : ℕ) (w : W)
      → (k : ℕ) × (w' : W) × (k < at_least_one max_attempts)
        × Contended k w w'
        × ((with_lock_retry is_contention fn base_delay max_attempts w).0 ≡ (fn w').0)
        × ((with_lock_retry is_contention fn base_delay max_attempts w).1.world ≡ (fn w').1)
        × ((with_lock_retry is_contention fn base_delay max_attempts w).1.slept ≡ delays 0 k)
        × ((with_lock_retry is_contention fn base_delay max_attempts w).1.contentions
            ≡ k + (if contends (fn w').0 then 1 else 0))
        × ((contends (fn w').0 ≡ false) ⊎ (suc k ≡ at_least_one max_attempts))
  unfolding with_lock_retry
  with_lock_retry-calls max_attempts w =
      let e =
        attempt_from-Ends (attempts_left is_contention fn base_delay max_attempts) 0
          (record { world = w; contentions = 0; slept = [] }) in
      (
        e.k,
        e.w,
        omega (arith, e.few, left_and_one max_attempts),
        e.before,
        e.result,
        e.world,
        e.slept,
        omega (arith, e.counted),
        elim e.last [ inl t ↦ inl t | inr t ↦ inr (ap suc t ∙ left_and_one max_attempts) ],
      )
