-- ===== src/Strategy/Thresholds.antt =====
-- The decision table of integrations/delete_strategy.py, read off the counts.
use unlearning.Prelude.{ℕ, zero, suc, ◌*◌, ◌≤◌, ◌<◌, ◌≡◌, ◌↔◌, ◌⊎◌, Bool, true, false, arith}
use unlearning.Strategy.{
  recommend_delete_strategy, compact_mode_for_recommendation, fraction_of, always, never,
}

-- Given a non-empty batch, a non-empty index and a backend that can compact, the advice is to
-- always compact exactly when a twentieth of the index or more is deleted.
pub recommend-always_iff :
    (n size : ℕ) (heal allow : Bool)
    → 0 < n
    → 0 < size
    → (compact_mode_for_recommendation (recommend_delete_strategy n size true heal allow) true
        ≡ always)
      ↔ (size ≤ 20 * n)
unfolding recommend_delete_strategy compact_mode_for_recommendation fraction_of
recommend-always_iff n zero heal allow hn hs = absurd (omega arith)
recommend-always_iff n (suc k) heal allow hn hs = (λ h. ground arith, λ h. ground arith)

-- Healing is only ever recommended where it was allowed and the backend can heal; with a backend
-- that compacts, only below a hundredth of the index.
pub recommend-prefer_heal :
    (n size : ℕ) (compact heal allow : Bool)
    → (recommend_delete_strategy n size compact heal allow).prefer_heal ≡ true
    → (allow ≡ true) × (heal ≡ true) × ((compact ≡ false) ⊎ (100 * n < size))
unfolding recommend_delete_strategy fraction_of
recommend-prefer_heal n zero compact heal allow h = ground arith
recommend-prefer_heal n (suc k) compact heal allow h = ground arith

-- `never` is recommended exactly for an empty batch or a backend that cannot compact.
pub recommend-never_iff :
    (n size : ℕ) (compact heal allow : Bool)
    → (compact_mode_for_recommendation (recommend_delete_strategy n size compact heal allow) true
        ≡ never)
      ↔ ((n ≡ 0) ⊎ (compact ≡ false))
unfolding recommend_delete_strategy compact_mode_for_recommendation fraction_of
recommend-never_iff n zero compact heal allow = (λ h. ground arith, λ h. ground arith)
recommend-never_iff n (suc k) compact heal allow = (λ h. ground arith, λ h. ground arith)
