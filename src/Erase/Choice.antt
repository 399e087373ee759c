-- ===== src/Erase/Choice.antt =====
-- The compact mode of a call that names none (integrations/erase_service.py).
use unlearning.Prelude.{ℕ, ◌<◌, ◌≡◌, ◌≢◌, inl, inr, true, none, arith, Bool-cases}
use unlearning.Strategy.{
  never, adaptive_by_env, apply_strategy_to_delete_kwargs, heal_allowed_by_env,
}
use unlearning.Strategy.Thresholds.{recommend-never_iff}
use unlearning.Erase.Types.{Deps}
use unlearning.Erase.Compaction.{supports_compact}
use unlearning.Erase.Service.{choose_compact, supports_heal}

-- Given a batch that is not empty and a backend that can compact, a call that names no compact mode
-- is never run under the mode `never`, not even if that is the default the service was made with.
pub choose_compact-none :
    (deps : Deps) (n size : ℕ)
    → 0 < n
    → supports_compact deps ≡ true
    → (choose_compact deps none n size).mode ≢ never
unfolding choose_compact apply_strategy_to_delete_kwargs
choose_compact-none deps n size h c m =
    elim (Bool-cases (adaptive_by_env deps.env.adaptive_compact)) [
      | inr off ↦ absurd (cc (rw off at m))
      | inl on ↦
          elim ((recommend-never_iff n size (supports_compact deps) (supports_heal deps)
              (heal_allowed_by_env deps.env.allow_heal)).0
            (rw on at m)) [ inl z ↦ absurd (omega arith) | inr f ↦ absurd (cc (c, f)) ]
    ]
