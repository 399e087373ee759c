-- ===== src/Strategy/Tests.antt =====
-- Instances for integrations/delete_strategy.py.
use unlearning.Prelude.{◌≡◌, refl, true}
use unlearning.Strategy.{recommend_delete_strategy, fraction_of}

healed : (recommend_delete_strategy 1 200 true true true).prefer_heal ≡ true
unfolding recommend_delete_strategy fraction_of
healed = refl
