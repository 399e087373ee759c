-- ===== src/Residual/Tests.antt =====
-- Instances for compliance/residual.py, with numbers in place of floats.
use unlearning.Prelude.{ℕ, ◌≡◌, refl, ◌↔◌, true, none, some, List, [], ◌∷◌, All, ◌==◌, leb, ◌+◌}
use unlearning.Prelude.Text.{codes}
use unlearning.Residual.{Floats, Files, prove_vector_erased}
use unlearning.Residual.Passed.{live_all_zeros_iff}

abbrev total : List ℕ → ℕ
total [] = 0
total (x ∷ xs) = x + total xs

-- A float is a byte, and its image is that byte.
abbrev pub toy_floats : Floats
toy_floats = record {
  F = ℕ;
  is_zero = λ x. x == 0;
  within = λ x atol. leb x atol;
  not_positive = λ atol. atol == 0;
  zero = 0;
  one = 1;
  norm = total;
  float32_bytes = λ v. v;
}

abbrev disk : Files
disk path = some (9 ∷ 7 ∷ 5 ∷ [])

live_all_zeros_run :
    ((prove_vector_erased toy_floats disk (codes "a") (0 ∷ 0 ∷ []) none none 0).live_all_zeros
      ≡ true)
    ↔ All (λ x. (x == 0) ≡ true) (0 ∷ 0 ∷ [])
live_all_zeros_run = live_all_zeros_iff toy_floats disk (codes "a") (0 ∷ 0 ∷ []) none none 0 refl
