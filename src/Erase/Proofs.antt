-- ===== src/Erase/Proofs.antt =====
-- `_run_residual_proofs` and `_env_residual_proof_mode` of integrations/erase_service.py.
use unlearning.Prelude.{
  ℕ, suc, ◌-◌, ◌/◌, Option, none, some, List, [], ◌∷◌, ◌++◌, length, get_elem?, ltb, ◌==◌,
  if◌then◌else◌, Str, Result, ok, raise, ◌>>=◌,
}
use unlearning.Prelude.Dict.{Dict, get}
use unlearning.Prelude.Eq.{nat_eq, str_eq, elem}
use unlearning.Prelude.Text.{codes, strip, lower}
use unlearning.Residual.{ResidualProof, passed, prove_vector_erased}
use unlearning.Erase.Types.{Deps, ProofMode, off, sample, full, ProofSummary}
use unlearning.Erase.Status.{is_nil}

-- `_env_residual_proof_mode`, given HEALER_RESIDUAL_PROOF
unfoldable pub env_residual_proof_mode : Str → ProofMode
env_residual_proof_mode value =
    let raw = lower (strip value) in
    if elem raw (codes "off" ∷ codes "0" ∷ codes "false" ∷ codes "no" ∷ [])
    then off
    else if elem raw (codes "full" ∷ codes "all" ∷ [])
    then full
    else sample

-- `[xs[i] for i in indices]`
unfoldable pub pick {ℓ} : {A : Type ℓ} → List ℕ → List A → List A
pick [] xs = []
pick (i ∷ is) xs = elim (get_elem? xs i) [ none ↦ pick is xs | some x ↦ x ∷ pick is xs ]

-- First, middle and last of more than three; otherwise all.
unfoldable pub sampled {ℓ} : {A : Type ℓ} → ProofMode → List A → List A
unfolding pick
sampled sample xs =
    if ltb 3 (length xs) then pick (0 ∷ (length xs / 2) ∷ (length xs - 1) ∷ []) xs else xs
sampled mode xs = xs

unfoldable pub zip {ℓ κ} : {A : Type ℓ} {B : Type κ} → List A → List B → List (A × B)
zip [] ys = []
zip (x ∷ xs) [] = []
zip (x ∷ xs) (y ∷ ys) = (x, y) ∷ zip xs ys

unfoldable pub count_failed : List ResidualProof → ℕ
count_failed [] = 0
count_failed (p ∷ ps) = let rest = count_failed ps in if passed p then rest else suc rest

module _ (deps : Deps) (collection : Str) (world : deps.World) where
  open deps use {floats}

  -- `verify_zeroed` in place of a vector that cannot be read
  unfoldable pub fallback_vector : ℕ → Result (List floats.F)
  fallback_vector label = do
    live_ok ← deps.verify_zeroed collection label world
    ok ((if live_ok then floats.zero else floats.one) ∷ [])

  unfoldable pub live_vector : ℕ → Result (List floats.F)
  unfolding fallback_vector
  live_vector label = elim deps.get_vector [
    | none ↦ fallback_vector label
    | some read ↦ elim (read label world) [ ok vec ↦ ok vec | raise x ↦ fallback_vector label ]
  ]

  unfoldable pub prove_all :
      Dict ℕ (List floats.F) → Option Str → List (ℕ × Str) → Result (List ResidualProof)
  prove_all originals checkpoint [] = ok []
  prove_all originals checkpoint ((label, ext) ∷ items) = do
    live ← live_vector label
    rest ← prove_all originals checkpoint items
    ok (
        prove_vector_erased floats (deps.files world) ext live (get label originals) checkpoint
          floats.zero
        ∷ rest)

  unfoldable pub summarise : ProofMode → List ResidualProof → ProofSummary
  unfolding count_failed
  summarise mode proofs =
      let bad = count_failed proofs in
      record {
        mode = mode;
        passed = some (bad == 0);
        checked = length proofs;
        failed = bad;
        proofs = proofs;
        details =
            if is_nil proofs
            then codes "no proofs run"
            else codes "checked="
              ++ (deps.int_text (length proofs) ++ (codes " failed=" ++ deps.int_text bad));
      }

  abbrev pub skipped : ProofMode → Str → ProofSummary
  skipped mode text = record {
    mode = mode;
    passed = none;
    checked = 0;
    failed = 0;
    proofs = [];
    details = text;
  }

  unfoldable pub proofs_on :
      ProofMode → List ℕ → List Str → Dict ℕ (List floats.F) → Option Str → Result ProofSummary
  unfolding prove_all summarise
  proofs_on mode labels exts originals checkpoint =
      if is_nil labels then ok (skipped mode (codes "no labels erased")) else do
        proofs ← prove_all originals checkpoint (zip (sampled mode labels) (sampled mode exts))
        ok (summarise mode proofs)

  unfoldable pub run_residual_proofs :
      ProofMode → List ℕ → List Str → Dict ℕ (List floats.F) → Option Str → Result ProofSummary
  unfolding proofs_on
  run_residual_proofs off labels exts originals checkpoint = ok (skipped off (codes "skipped"))
  run_residual_proofs mode labels exts originals checkpoint =
      proofs_on mode labels exts originals checkpoint
