-- ===== src/Erase/Complete.antt =====
-- When a receipt is complete, partial or failed (`_derive_status` of
-- integrations/erase_service.py).
use unlearning.Prelude.{
  ℕ, ◌≡◌, ◌≢◌, refl, ◌↔◌, ◌⊎◌, Bool, true, false, not, Option, none, some, List, [], ◌∷◌, all, any,
  arith, Str,
}
use unlearning.Erase.Types.{complete, failed, ProofMode, off}
use unlearning.Erase.Status.{is_skip, derive_status}

not-all-any-not : (errors : List Str) → any (λ e. not (is_skip e)) errors ≡ not (all is_skip errors)
not-all-any-not [] = refl
not-all-any-not (e ∷ errors) = ground (arith, not-all-any-not errors)

-- What a complete receipt stands for: nothing was requested; or everything was erased, no error was
-- noted, and the residual proof passed unless it was off.
abbrev pub IsComplete : ℕ → ℕ → List Str → ProofMode → Option Bool → Type 0
IsComplete requested erased errors mode passed =
    (requested ≡ 0) ⊎ ((erased ≡ requested) × (errors ≡ []) × ((mode ≡ off) ⊎ (passed ≡ some true)))

complete→ :
    (requested erased : ℕ) (errors : List Str) (mode : ProofMode) (passed : Option Bool)
    (deferred : Bool)
    → derive_status requested erased errors mode passed deferred ≡ complete
    → IsComplete requested erased errors mode passed
unfolding derive_status
complete→ requested erased [] off passed deferred h = ground arith
complete→ requested erased [] mode none deferred h = ground arith
complete→ requested erased [] mode (some b) deferred h = ground arith
complete→ requested erased (e ∷ errors) mode passed deferred h =
    ground (arith, not-all-any-not (e ∷ errors))

complete← :
    (requested erased : ℕ) (errors : List Str) (mode : ProofMode) (passed : Option Bool)
    (deferred : Bool)
    → IsComplete requested erased errors mode passed
    → derive_status requested erased errors mode passed deferred ≡ complete
unfolding derive_status
complete← requested erased [] off passed deferred h = ground arith
complete← requested erased [] mode none deferred h = ground arith
complete← requested erased [] mode (some b) deferred h = ground arith
complete← requested erased (e ∷ errors) mode passed deferred h = ground arith

-- A receipt is complete exactly if nothing was requested, or everything was erased, no error was
-- noted and the residual proof passed or was off. A deferred rebuild makes no difference.
pub derive_status-complete_iff :
    (requested erased : ℕ) (errors : List Str) (mode : ProofMode) (passed : Option Bool)
    (deferred : Bool)
    → (derive_status requested erased errors mode passed deferred ≡ complete)
      ↔ IsComplete requested erased errors mode passed
derive_status-complete_iff requested erased errors mode passed deferred = (
  complete→ requested erased errors mode passed deferred,
  complete← requested erased errors mode passed deferred,
)

failed→ :
    (requested erased : ℕ) (errors : List Str) (mode : ProofMode) (passed : Option Bool)
    (deferred : Bool)
    → derive_status requested erased errors mode passed deferred ≡ failed
    → (requested ≢ 0) × (erased ≡ 0) × ((errors ≡ []) ⊎ (all is_skip errors ≡ false))
unfolding derive_status
failed→ requested erased [] mode passed deferred h = ground arith
failed→ requested erased (e ∷ errors) mode passed deferred h = ground arith

failed← :
    (requested erased : ℕ) (errors : List Str) (mode : ProofMode) (passed : Option Bool)
    (deferred : Bool)
    → (requested ≢ 0) × (erased ≡ 0) × ((errors ≡ []) ⊎ (all is_skip errors ≡ false))
    → derive_status requested erased errors mode passed deferred ≡ failed
unfolding derive_status
failed← requested erased [] mode passed deferred h = ground arith
failed← requested erased (e ∷ errors) mode passed deferred h = ground arith

-- A receipt has failed exactly if something was requested, nothing was erased, and the errors are
-- none or not all of the soft kind.
pub derive_status-failed_iff :
    (requested erased : ℕ) (errors : List Str) (mode : ProofMode) (passed : Option Bool)
    (deferred : Bool)
    → (derive_status requested erased errors mode passed deferred ≡ failed)
      ↔ ((requested ≢ 0) × (erased ≡ 0) × ((errors ≡ []) ⊎ (all is_skip errors ≡ false)))
derive_status-failed_iff requested erased errors mode passed deferred = (
  failed→ requested erased errors mode passed deferred,
  failed← requested erased errors mode passed deferred,
)
