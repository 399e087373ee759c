-- ===== src/Residual.antt =====
-- compliance/residual.py: the residual proof of one erased vector. Floats (numpy) are a parameter:
-- the tests of single numbers, the norm and the float32 image. The file system is the argument
-- `files`, from paths to contents.
pub mod Passed
pub mod Tests
use unlearning.Prelude.{
  ℕ, Bool, true, false, not, ◌&&◌, ◌||◌, Option, none, some, List, [], ◌∷◌, ◌++◌, all,
  if◌then◌else◌, Str,
}
use unlearning.Prelude.Text.{codes, is_empty, is_infix}

pub record Floats : Type 1 where
  pub F : Type 0
  -- `x == 0.0`
  pub is_zero : F → Bool
  -- `abs(x) <= atol`
  pub within : F → F → Bool
  -- `atol <= 0`
  pub not_positive : F → Bool
  pub zero : F
  pub one : F
  -- `np.linalg.norm`
  pub norm : List F → F
  -- `np.asarray(v, dtype=np.float32).tobytes(order="C")`
  pub float32_bytes : List F → List ℕ

pub record ResidualProof : Type 0 where
  pub label_or_id : Str
  pub live_all_zeros : Bool
  pub file_pattern_absent : Option Bool
  -- `original_norm == 0.0`
  pub original_norm_zero : Bool
  pub details : List Str

-- the property `passed`
unfoldable pub passed : ResidualProof → Bool
passed p = elim p.file_pattern_absent [
  | none ↦ p.live_all_zeros
  | some absent ↦ p.live_all_zeros && absent
]

abbrev pub Files : Type 0
Files = Str → Option (List ℕ)

-- A pattern that is empty, or a file that is not there, is never found.
unfoldable pub file_contains_bytes : Option (List ℕ) → List ℕ → Bool
file_contains_bytes none pattern = false
file_contains_bytes (some content) pattern =
    if is_empty pattern then false else is_infix pattern content

module _ (fl : Floats) where
  open fl use {F, is_zero, within, not_positive, norm, float32_bytes}

  unfoldable pub vector_all_zeros : List F → F → Bool
  vector_all_zeros vec atol =
      if not_positive atol then all is_zero vec else all (λ x. within x atol) vec

  unfoldable pub original_is_zero : Option (List F) → Bool
  original_is_zero none = is_zero fl.zero
  original_is_zero (some v) = is_zero (norm v)

  -- The scan of the checkpoint: its verdict and what is noted of it.
  unfoldable pub scan_checkpoint : Files → Option (List F) → Option Str → Option Bool × List Str
  unfolding file_contains_bytes
  scan_checkpoint files original none = (none, [])
  scan_checkpoint files none (some path) = (none, [])
  scan_checkpoint files (some original) (some path) =
      if is_zero (norm original)
      then (some true, codes "original was zero; file scan skipped" ∷ [])
      else elim (files path) [
        | none ↦ (none, (codes "checkpoint missing: " ++ path) ∷ [])
        | some content ↦
            if file_contains_bytes (some content) (float32_bytes original)
            then (some false, codes "ORIGINAL PATTERN STILL PRESENT in checkpoint" ∷ [])
            else (some true, codes "original float32 pattern ABSENT from checkpoint" ∷ [])
      ]

  -- `details` are the parts that the source joins by "; ".
  unfoldable pub prove_vector_erased :
      Files → Str → List F → Option (List F) → Option Str → F → ResidualProof
  unfolding vector_all_zeros original_is_zero scan_checkpoint
  prove_vector_erased files label live original checkpoint atol =
      let live_ok = vector_all_zeros live atol in
      let (file_ok, notes) = scan_checkpoint files original checkpoint in
      record {
        label_or_id = label;
        live_all_zeros = live_ok;
        file_pattern_absent = file_ok;
        original_norm_zero = original_is_zero original;
        details =
            (if live_ok
              then codes "live vector is all zeros"
              else codes "live vector still has non-zero components")
            ∷ notes;
      }

  unfoldable pub prove_batch_zeroed : Files → List (Str × List F) → F → List ResidualProof
  prove_batch_zeroed files [] atol = []
  prove_batch_zeroed files ((i, v) ∷ items) atol =
      prove_vector_erased files i v none none atol ∷ prove_batch_zeroed files items atol
