-- ===== src/Api/Rows.antt =====
-- Where a vector of an ingest (api/main.py) stands in the rows that are loaded: the dense matrix.
use unlearning.Prelude.{
  ℕ, zero, suc, ◌≤◌, ◌<◌, ◌≡◌, refl, ap, true, Option, none, some, List, [], ◌∷◌, arith, length,
  get_elem?, ◌==◌, if◌then◌else◌, Bool-cases, Option-cases, inl, inr,
}
use unlearning.Prelude.Eq.{nat_eq, elem}
use unlearning.Api.Matrix.{set_row, fill_rows, replicate, max_label}

module _ {A : Type 0} where
  -- The last vector under a label.
  unfoldable pub last_row : ℕ → List ℕ → List A → Option A
  last_row i (l ∷ labels) (v ∷ vecs) =
      let rest = last_row i labels vecs in
      elim rest [ some w ↦ some w | none ↦ if l == i then some v else none ]
  last_row i labels vecs = none

  abbrev pub or_row : Option A → Option A → Option A
  or_row (some v) b = some v
  or_row none b = b

  length-set_row : (rows : List A) (l : ℕ) (v : A) → length (set_row rows l v) ≡ length rows
  unfolding set_row
  length-set_row [] l v = refl
  length-set_row (row ∷ rows) zero v = refl
  length-set_row (row ∷ rows) (suc l) v = ap suc (length-set_row rows l v)

  get-set_row :
      (rows : List A) (l i : ℕ) (v : A)
      → i < length rows
      → get_elem? (set_row rows l v) i ≡ (if l == i then some v else get_elem? rows i)
  unfolding set_row
  get-set_row [] l i v h = absurd (omega arith)
  get-set_row (row ∷ rows) zero zero v h = ground arith
  get-set_row (row ∷ rows) zero (suc i) v h = ground arith
  get-set_row (row ∷ rows) (suc l) zero v h = ground arith
  get-set_row (row ∷ rows) (suc l) (suc i) v h = ground (arith, get-set_row rows l i v)

  pub get-fill_rows :
      (labels : List ℕ) (vecs rows : List A) (i : ℕ)
      → i < length rows
      → get_elem? (fill_rows labels vecs rows) i
        ≡ or_row (last_row i labels vecs) (get_elem? rows i)
  unfolding fill_rows last_row
  get-fill_rows [] vecs rows i h = refl
  get-fill_rows (l ∷ labels) [] rows i h = refl
  get-fill_rows (l ∷ labels) (v ∷ vecs) rows i h = ground (
    arith,
    get-fill_rows labels vecs (set_row rows l v) i,
    get-set_row rows l i v,
    length-set_row rows l v,
  )

  pub length-replicate : (n : ℕ) (v : A) → length (replicate n v) ≡ n
  unfolding replicate
  length-replicate zero v = refl
  length-replicate (suc n) v = ap suc (length-replicate n v)

  -- A label that is there has a last vector.
  pub last_row-some :
      (i : ℕ) (labels : List ℕ) (vecs : List A)
      → length labels ≡ length vecs
      → elem i labels ≡ true
      → (v : A) × (last_row i labels vecs ≡ some v)
  unfolding last_row
  last_row-some i [] vecs h t = absurd (cc)
  last_row-some i (l ∷ labels) [] h t = absurd (omega arith)
  last_row-some i (l ∷ labels) (v ∷ vecs) h t = elim (Option-cases (last_row i labels vecs)) [
    | inr (w, q) ↦ (w, rw (q, last_row) refl)
    | inl q ↦ elim (Bool-cases (l == i)) [
      | inl e ↦ (v, rw (q, e, last_row) refl)
      | inr f ↦
          let (w, there) = last_row-some i labels vecs (omega (arith, h)) (ground arith) in
          absurd (cc (rw q at there))
    ]
  ]

pub elem-le-max_label : (i : ℕ) (labels : List ℕ) → elem i labels ≡ true → i ≤ max_label labels
unfolding max_label
elem-le-max_label i [] h = absurd (cc)
elem-le-max_label i (l ∷ labels) h = ground (arith, elem-le-max_label i labels)
