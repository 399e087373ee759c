-- ===== src/Index/Wipe.antt =====
-- The hard delete of the adapters (integrations/hnswlib_adapter.py, integrations/faiss_adapter.py):
-- what it leaves in the matrix, whatever the index and the heal mirror do.
use unlearning.Prelude.{
  ℕ, ◌≡◌, ◌≢◌, ◌⊎◌, refl, ◌∙◌, Bool, true, false, some, List, arith, Option-cases, inl, inr, Exn,
  Result, ok, raise, runtime_error, sym,
}
use unlearning.Prelude.Dict.{get}
use unlearning.Prelude.Eq.{nat_eq, elem}
use unlearning.Residual.{Floats}
use unlearning.Erase.Types.{BackendEraseResult}
use unlearning.Index.{HealMirror, Matrix, add_label, get_vector, zero_row, verify_zeroed}
use unlearning.Index.Rows.{
  IsMatrix, row-lt, row-apart, get_elem?-zero_row, get_elem?-zero_row-other, zero_row-length,
}
use unlearning.Index.Hnswlib
use unlearning.Index.Hnswlib.{HnswlibIndex, Hnswlib, except_runtime}
use unlearning.Index.Faiss
use unlearning.Index.Faiss.{FaissIndex, Faiss}

module _ (floats : Floats) where
  -- The row of the label is zero, and no other label has lost or changed its own.
  pub record IsWiped (label : ℕ) (m m' : Matrix floats.F) : Type 0 where
    pub zeroed : verify_zeroed floats label m' ≡ true
    pub others : (k : ℕ) → k ≢ label → get_vector k m' ≡ get_vector k m
    pub kept : IsMatrix m'

  abbrev wiped : ℕ → List ℕ → Matrix floats.F → Matrix floats.F
  wiped i labels m = record m { vectors = zero_row floats i m.vectors; deleted = labels }

  wiped-IsWiped :
      (label i : ℕ) (labels : List ℕ) (m : Matrix floats.F)
      → floats.is_zero floats.zero ≡ true
      → IsMatrix m
      → get label m.label_to_row ≡ some i
      → IsWiped label m (wiped i labels m)
  unfolding verify_zeroed get_vector
  wiped-IsWiped label i labels m z h at_i = record {
    zeroed =
        let (row, there, zeros) =
          get_elem?-zero_row floats i m.vectors (row-lt m h label i at_i) z in
        rw (at_i, verify_zeroed) (rw there zeros);
    others = others;
    kept = record {
      same = h.same ∙ sym (zero_row-length floats i m.vectors);
      back = h.back;
      distinct = h.distinct;
    };
  }
    where
      others : (k : ℕ) → k ≢ label → get_vector k (wiped i labels m) ≡ get_vector k m
      others k other = elim (Option-cases (get k m.label_to_row)) [
        | inl e ↦ rw (e, get_vector)
        | inr (j, e) ↦
            rw (e, get_vector)
              (rw (
                get_elem?-zero_row-other floats i j m.vectors
                  (row-apart m h label k i j at_i e (λ same. other (sym same)))))
      ]

pub elem-add_label : (label : ℕ) (xs : List ℕ) → elem label (add_label label xs) ≡ true
elem-add_label label xs = ground (arith, nat_eq.beq_iff label label)

except_runtime-cases :
    (out : Result (Unit {0}))
    → (except_runtime out ≡ ok tt) ⊎ ((x : Exn) × (except_runtime out ≡ raise x) × (out ≡ raise x))
except_runtime-cases (ok u) = inl refl
except_runtime-cases (raise (runtime_error t)) = inl refl
except_runtime-cases (raise x) = inr (x, refl, refl)

module _ (floats : Floats) (heal : HealMirror floats.F) (lib : HnswlibIndex floats.F) where
  -- `mark_deleted` fails only by an exception that is no `RuntimeError`.
  mark-cases :
      (label : ℕ) (known : Bool) (index : lib.I)
      → ((Hnswlib.mark floats heal lib label known index).0 ≡ ok tt)
        ⊎ ((x : Exn) × ((Hnswlib.mark floats heal lib label known index).0 ≡ raise x)
            × ((lib.mark_deleted label index).0 ≡ raise x))
  unfolding Hnswlib.mark
  mark-cases label true index = inl refl
  mark-cases label false index = except_runtime-cases (lib.mark_deleted label index).0

  -- How a call of `hard_delete_label` ends for a label that is there.
  abbrev pub Ends :
      ℕ → Hnswlib floats heal lib → Result BackendEraseResult × Hnswlib floats heal lib → Type 0
  Ends label a m =
      ((out : BackendEraseResult) × (m.0 ≡ ok out)
        × (out.success ≡ true)
        × (out.label ≡ label)
        × (elem label m.1.matrix.deleted ≡ true))
      ⊎ ((x : Exn) × (m.0 ≡ raise x)
          × ((lib.mark_deleted label a.index).0 ≡ raise x)
          × (m.1.matrix.deleted ≡ a.matrix.deleted))

  after_mark-Ends :
      (label i max_m : ℕ) (a : Hnswlib floats heal lib) (marked : Result (Unit {0}) × lib.I)
      → floats.is_zero floats.zero ≡ true
      → IsMatrix a.matrix
      → get label a.matrix.label_to_row ≡ some i
      → (marked.0 ≡ ok tt)
        ⊎ ((x : Exn) × (marked.0 ≡ raise x) × ((lib.mark_deleted label a.index).0 ≡ raise x))
      → IsWiped floats label a.matrix
          (Hnswlib.after_mark floats heal lib label i max_m a marked).1.matrix
        × Ends label a (Hnswlib.after_mark floats heal lib label i max_m a marked)
  unfolding Hnswlib.after_mark
  after_mark-Ends label i max_m a (raise x, index) z h at_i (inl e) = absurd (cc)
  after_mark-Ends label i max_m a (raise x, index) z h at_i (inr (y, e, f)) =
      (wiped-IsWiped floats label i _ a.matrix z h at_i, inr (x, refl, f ∙ sym e, refl))
  after_mark-Ends label i max_m a (ok u, index) z h at_i c = (
    wiped-IsWiped floats label i _ a.matrix z h at_i,
    inl (_, refl, refl, refl, elem-add_label label a.matrix.deleted),
  )

  -- A hard delete of a label that the adapter has, over a well-formed matrix, and where the number
  -- zero tests as zero: the row of the label is zero behind the call, every other label
  -- reads the row that it had, and the matrix stays well-formed. The call returns success and has
  -- noted the label as deleted, or it raises the exception of `mark_deleted` and has not.
  pub hnswlib_delete-IsWiped :
      (label i max_m : ℕ) (a : Hnswlib floats heal lib)
      → floats.is_zero floats.zero ≡ true
      → IsMatrix a.matrix
      → get label a.matrix.label_to_row ≡ some i
      → IsWiped floats label a.matrix
          (Hnswlib.hard_delete_label floats heal lib label max_m a).1.matrix
        × Ends label a (Hnswlib.hard_delete_label floats heal lib label max_m a)
  unfolding Hnswlib.hard_delete_label
  hnswlib_delete-IsWiped label i max_m a z h at_i =
      rw (at_i, Hnswlib.hard_delete_label)
        (after_mark-Ends label i max_m a _ z h at_i
          (mark-cases label (elem label a.matrix.deleted) a.index))

module _ (floats : Floats) (heal : HealMirror floats.F) (lib : FaissIndex floats.F) where
  -- With FAISS no exception of the index leaves the call.
  pub faiss_delete-IsWiped :
      (label i max_m : ℕ) (a : Faiss floats heal lib)
      → floats.is_zero floats.zero ≡ true
      → IsMatrix a.matrix
      → get label a.matrix.label_to_row ≡ some i
      → (out : BackendEraseResult) × ((Faiss.hard_delete_label floats heal lib label max_m a).0
          ≡ ok out)
        × (out.success ≡ true)
        × ((Faiss.hard_delete_label floats heal lib label max_m a).1.matrix.deleted
            ≡ add_label label a.matrix.deleted)
        × IsWiped floats label a.matrix
            (Faiss.hard_delete_label floats heal lib label max_m a).1.matrix
  unfolding Faiss.hard_delete_label
  faiss_delete-IsWiped label i max_m a z h at_i =
      rw (at_i, Faiss.hard_delete_label)
        (_, refl, refl, refl, wiped-IsWiped floats label i _ a.matrix z h at_i)
