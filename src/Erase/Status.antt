-- ===== src/Erase/Status.antt =====
-- `_derive_status` of integrations/erase_service.py: the status of a receipt from the counts, the
-- texts of the errors, and the residual proof. `compacted` and `compact_mode` are not read.
use unlearning.Prelude.{
  ℕ, Bool, true, false, not, ◌&&◌, ◌||◌, Option, none, some, List, [], ◌∷◌, all, any, ltb, ◌==◌,
  if◌then◌else◌, Str,
}
use unlearning.Prelude.Text.{codes, starts_with, is_infix}
use unlearning.Erase.Types.{
  ReceiptStatus, complete, partial, failed, ProofMode, off, sample, full, unknown_mode,
}

abbrev pub no_compact_method : Str
no_compact_method = codes "compact requested but backend"

unfoldable pub is_skip : Str → Bool
is_skip e = starts_with e (codes "skip ")

unfoldable pub is_compact_failure : Str → Bool
is_compact_failure e = starts_with e (codes "compact failed") || is_infix no_compact_method e

unfoldable pub is_erase_failure : Str → Bool
is_erase_failure e =
    not (starts_with e (codes "skip "))
    && (not (starts_with e (codes "residual_proof"))
        && (not (starts_with e (codes "compact")) && not (is_infix no_compact_method e)))

abbrev pub is_off : ProofMode → Bool
is_off off = true
is_off sample = false
is_off full = false
is_off (unknown_mode text) = false

-- `proof_passed is not True`
abbrev pub is_true : Option Bool → Bool
is_true none = false
is_true (some b) = b

abbrev pub is_nil {ℓ} : {A : Type ℓ} → List A → Bool
is_nil [] = true
is_nil (x ∷ xs) = false

unfoldable pub derive_status : ℕ → ℕ → List Str → ProofMode → Option Bool → Bool → ReceiptStatus
derive_status requested erased errors proof_mode proof_passed deferred_compact =
    let compact_failed = any is_compact_failure errors in
    let proof_failed = not (is_off proof_mode) && (ltb 0 erased && not (is_true proof_passed)) in
    let erase_failed = any is_erase_failure errors in
    let only_skips = not (is_nil errors) && all is_skip errors in
    let all_requested_erased = erased == requested && not erase_failed in
    if requested == 0
    then complete
    else if erased == 0
    then (if only_skips then partial else failed)
    else if all_requested_erased && (not compact_failed && (not proof_failed && is_nil errors))
    then complete
    else if all_requested_erased
        && (not compact_failed
            && (not proof_failed
                && (deferred_compact
                    && (not only_skips && not (any (λ e. not (is_skip e)) errors)))))
    then complete
    else partial
