-- ===== src/Strategy.antt =====
-- integrations/delete_strategy.py: which unlearning action fits a batch, and the compact mode that
-- follows from it. Fractions are exact quotients of counts, compared by cross-multiplication; the
-- source divides floats, which order such quotients alike below 2 ^ 50. The texts `details` are
-- for a reader of the recommendation and are left out.
pub mod Thresholds
mod Tests
use unlearning.Prelude.{
  ℕ, zero, ◌*◌, Bool, true, false, not, ◌&&◌, ◌||◌, Option, none, some, [], ◌∷◌, ltb, leb, ◌==◌,
  if◌then◌else◌, Str,
}
use unlearning.Prelude.Eq.{str_eq, elem}
use unlearning.Prelude.Text.{codes, strip, lower}

pub record Fraction : Type 0 where
  pub count : ℕ
  pub total : ℕ

-- `a >= b` on quotients
abbrev pub frac_ge : Fraction → Fraction → Bool
frac_ge a b = leb (b.count * a.total) (a.count * b.total)

abbrev pub low_frac : Fraction
low_frac = record { count = 1; total = 100 }

abbrev pub high_frac : Fraction
high_frac = record { count = 5; total = 100 }

abbrev pub critical_frac : Fraction
critical_frac = record { count = 10; total = 100 }

pub data StrategyAction : Type 0 where
  wipe_only wipe_and_heal wipe_and_compact wipe_heal_and_compact full_rebuild_recommended :
      StrategyAction

-- The `reason` texts.
pub data Reason : Type 0 where
  empty_batch no_compact_backend_heal_opt_in no_compact_backend critical_delete_fraction
        elevated_delete_fraction tiny_batch_heal_opt_in default_product_path :
      Reason

pub record Recommendation : Type 0 where
  pub action : StrategyAction
  pub reason : Reason
  pub delete_fraction : Fraction
  pub prefer_compact : Bool
  pub prefer_heal : Bool
  pub prefer_full_rebuild : Bool

-- `raw.strip().lower() in ("1", "true", "yes", "on")`
unfoldable pub is_truthy : Str → Bool
is_truthy raw = elem (lower (strip raw)) (codes "1" ∷ codes "true" ∷ codes "yes" ∷ codes "on" ∷ [])

-- `heal_allowed_by_env`, given the value of HEALER_ALLOW_HEAL
unfoldable pub heal_allowed_by_env : Option Str → Bool
heal_allowed_by_env none = false
heal_allowed_by_env (some raw) = is_truthy raw

unfoldable pub fraction_of : ℕ → ℕ → Fraction
fraction_of delete_count zero =
    if ltb 0 delete_count then record { count = 1; total = 1 } else record { count = 0; total = 1 }
fraction_of delete_count index_size = record { count = delete_count; total = index_size }

abbrev pub advise : StrategyAction → Reason → Fraction → Bool → Bool → Bool → Recommendation
advise action reason frac compact heal rebuild = record {
  action = action;
  reason = reason;
  delete_fraction = frac;
  prefer_compact = compact;
  prefer_heal = heal;
  prefer_full_rebuild = rebuild;
}

unfoldable pub recommend_delete_strategy : ℕ → ℕ → Bool → Bool → Bool → Recommendation
recommend_delete_strategy delete_count index_size supports_compact supports_heal allow_heal =
    let frac = fraction_of delete_count index_size in
    if delete_count == 0
    then advise wipe_only empty_batch frac false false false
    else if not supports_compact
    then (if allow_heal && supports_heal
        then advise wipe_and_heal no_compact_backend_heal_opt_in frac false true false
        else advise wipe_only no_compact_backend frac false false false)
    else if frac_ge frac critical_frac
    then advise full_rebuild_recommended critical_delete_fraction frac true false true
    else if frac_ge frac high_frac
    then advise wipe_and_compact elevated_delete_fraction frac true false true
    else if allow_heal && (supports_heal && not (frac_ge frac low_frac))
    then advise wipe_heal_and_compact tiny_batch_heal_opt_in frac true true false
    else advise wipe_and_compact default_product_path frac true false false

-- The `compact` argument of `ErasureService.delete`: a mode by name, or a bool.
pub data CompactMode : Type 0 where
  auto always never : CompactMode
  flag : Bool → CompactMode

unfoldable pub compact_mode_for_recommendation : Recommendation → Bool → CompactMode
compact_mode_for_recommendation rec coalesce_ok =
    if rec.prefer_full_rebuild
    then always
    else if rec.prefer_compact
    then (if frac_ge rec.delete_fraction high_frac || not coalesce_ok then always else auto)
    else never

-- `compact in ("auto", True)`
abbrev pub is_adaptable : CompactMode → Bool
is_adaptable auto = true
is_adaptable (flag true) = true
is_adaptable m = false

-- HEALER_ADAPTIVE_COMPACT, on by default; the empty text counts as on.
unfoldable pub adaptive_by_env : Option Str → Bool
adaptive_by_env none = true
adaptive_by_env (some raw) =
    elem (lower (strip raw)) (codes "1" ∷ codes "true" ∷ codes "yes" ∷ codes "on" ∷ [] ∷ [])

-- The two environment variables that this module reads.
pub record Env : Type 0 where
  pub allow_heal : Option Str
  pub adaptive_compact : Option Str

pub record Adapted : Type 0 where
  pub strategy : Recommendation
  pub compact : CompactMode

abbrev pub or_auto : Option CompactMode → CompactMode
or_auto none = auto
or_auto (some m) = m

-- `compact is not None and compact not in ("auto", True)`
abbrev pub is_fixed : Option CompactMode → Bool
is_fixed none = false
is_fixed (some m) = not (is_adaptable m)

unfoldable pub apply_strategy_to_delete_kwargs :
    Env → ℕ → ℕ → Bool → Bool → Option CompactMode → Adapted
apply_strategy_to_delete_kwargs env delete_count index_size supports_compact supports_heal compact =
    let rec =
      recommend_delete_strategy delete_count index_size supports_compact supports_heal
        (heal_allowed_by_env env.allow_heal) in
    if is_fixed compact
    then record { strategy = rec; compact = or_auto compact }
    else if not (adaptive_by_env env.adaptive_compact)
    then record { strategy = rec; compact = or_auto compact }
    else record { strategy = rec; compact = compact_mode_for_recommendation rec true }
