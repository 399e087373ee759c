-- ===== src/Residual/Passed.antt =====
-- What a residual proof that passed says (compliance/residual.py).
use unlearning.Prelude.{
  ℕ, ◌≡◌, ◌≢◌, refl, ap, ◌↔◌, inl, inr, Bool, true, false, not, ◌&&◌, Option, some, List, [], ◌∷◌,
  ◌++◌, all, arith, if◌then◌else◌, Bool-cases, Str, All,
}
use unlearning.Prelude.Text.{is_empty, is_infix, is_infix-split, split-is_infix}
use unlearning.Residual.{Floats, Files, passed, scan_checkpoint, prove_vector_erased}

all_iff {ℓ} :
    {A : Type ℓ} (p : A → Bool) (xs : List A) → (all p xs ≡ true) ↔ All (λ x. p x ≡ true) xs
all_iff p [] = (λ h. tt, λ h. refl)
all_iff p (x ∷ xs) = ground (arith, all_iff p xs)

verdict :
    (b : Bool) (found absent : List Str)
    → (if◌then◌else◌ {A = Option Bool × List Str} b (some false, found) (some true, absent)).0
      ≡ some (not b)
verdict true found absent = refl
verdict false found absent = refl

both {ℓ κ} :
    {P : Type ℓ} {Q : Type κ} {a b : Bool}
    → (a ≡ true) ↔ P
    → (b ≡ true) ↔ Q
    → ((a && b) ≡ true) ↔ (P × Q)
both {a} {b} p q = (
  λ h. (p.0 (ground arith), q.0 (ground arith)),
  λ h. let x = p.1 h.0 in let y = q.1 h.1 in ground arith,
)

-- A text that is not found stands nowhere.
absent_iff :
    (pattern content : List ℕ)
    → (not (is_infix pattern content) ≡ true)
      ↔ ((pre post : List ℕ) → content ≢ pre ++ (pattern ++ post))
absent_iff pattern content = (
  λ h pre post e. ground (arith, ap (is_infix pattern) e, split-is_infix pattern pre post),
  λ h. elim (Bool-cases (is_infix pattern content)) [
    | inr no_match ↦ rw no_match
    | inl found ↦ let (pre, post, e) = is_infix-split pattern content found in absurd (h pre post e)
  ],
)

module _ (fl : Floats) (files : Files) (label : Str) where
  -- Without a tolerance the live part says that every component is zero.
  pub live_all_zeros_iff :
      (live : List fl.F) (original : Option (List fl.F)) (checkpoint : Option Str) (atol : fl.F)
      → fl.not_positive atol ≡ true
      → ((prove_vector_erased fl files label live original checkpoint atol).live_all_zeros ≡ true)
        ↔ All (λ x. fl.is_zero x ≡ true) live
  unfolding prove_vector_erased
  live_all_zeros_iff live original checkpoint atol h = rw h (all_iff fl.is_zero live)

  scan-verdict :
      (original : List fl.F) (path : Str) (content : List ℕ)
      → fl.is_zero (fl.norm original) ≡ false
      → is_empty (fl.float32_bytes original) ≡ false
      → files path ≡ some content
      → (scan_checkpoint fl files (some original) (some path)).0
        ≡ some (not (is_infix (fl.float32_bytes original) content))
  unfolding scan_checkpoint
  scan-verdict original path content nz ne there =
      rw (nz, there, ne) (verdict (is_infix (fl.float32_bytes original) content) _ _)

  passed-eq :
      (live original : List fl.F) (path : Str) (content : List ℕ) (atol : fl.F)
      → fl.not_positive atol ≡ true
      → fl.is_zero (fl.norm original) ≡ false
      → is_empty (fl.float32_bytes original) ≡ false
      → files path ≡ some content
      → passed (prove_vector_erased fl files label live (some original) (some path) atol)
        ≡ (all fl.is_zero live && not (is_infix (fl.float32_bytes original) content))
  unfolding prove_vector_erased passed
  passed-eq live original path content atol h nz ne there =
      rw (scan-verdict original path content nz ne there, h) refl

  -- With the original at hand, not zero, and its float32 image not empty, and a checkpoint that is
  -- there, a proof passes exactly when every live component is zero and the file is not of the form
  -- `pre ++ image ++ post`.
  pub passed_iff :
      (live original : List fl.F) (path : Str) (content : List ℕ) (atol : fl.F)
      → fl.not_positive atol ≡ true
      → fl.is_zero (fl.norm original) ≡ false
      → is_empty (fl.float32_bytes original) ≡ false
      → files path ≡ some content
      → (passed (prove_vector_erased fl files label live (some original) (some path) atol) ≡ true)
        ↔ (All (λ x. fl.is_zero x ≡ true) live
            × ((pre post : List ℕ) → content ≢ pre ++ (fl.float32_bytes original ++ post)))
  passed_iff live original path content atol h nz ne there =
      rw (passed-eq live original path content atol h nz ne there)
        (both (all_iff fl.is_zero live) (absent_iff (fl.float32_bytes original) content))
