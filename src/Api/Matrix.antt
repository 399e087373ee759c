-- ===== src/Api/Matrix.antt =====
-- The rows that `ingest_vectors` of api/main.py loads, as lists: numpy's matrix is its rows. The order of
-- equal labels under `argsort` plays no part, since that path is taken for distinct labels. Labels are
-- natural numbers, as in the requests of Ingest.
use unlearning.Prelude.{
  ℕ, zero, suc, ◌+◌, ◌-◌, ◌%◌, max, Bool, ◌&&◌, List, [], ◌∷◌, all, length, leb, ◌==◌,
  if◌then◌else◌,
}
use unlearning.Prelude.Eq.{nat_eq, str_eq, elem}

unfoldable pub max_label : List ℕ → ℕ
max_label [] = 0
max_label (l ∷ labels) = max l (max_label labels)

module _ {A : Type 0} where
  -- `dense[lab] = row`, at a label that is not negative
  unfoldable pub set_row : List A → ℕ → A → List A
  set_row [] l v = []
  set_row (row ∷ rows) zero v = v ∷ rows
  set_row (row ∷ rows) (suc l) v = row ∷ set_row rows l v

  unfoldable pub fill_rows : List ℕ → List A → List A → List A
  fill_rows (l ∷ labels) (v ∷ vecs) rows = fill_rows labels vecs (set_row rows l v)
  fill_rows labels vecs rows = rows

  unfoldable pub replicate : ℕ → A → List A
  replicate zero v = []
  replicate (suc n) v = v ∷ replicate n v

  -- Rows in the order of their labels.
  unfoldable pub insert_row : ℕ → A → List (ℕ × A) → List (ℕ × A)
  insert_row l v [] = (l, v) ∷ []
  insert_row l v ((k, w) ∷ rows) =
      let rest = insert_row l v rows in if leb l k then (l, v) ∷ (k, w) ∷ rows else (k, w) ∷ rest

  unfoldable pub sort_rows : List ℕ → List A → List (ℕ × A)
  sort_rows (l ∷ labels) (v ∷ vecs) = insert_row l v (sort_rows labels vecs)
  sort_rows labels vecs = []

  unfoldable pub rows_of : List (ℕ × A) → List A
  rows_of [] = []
  rows_of ((l, v) ∷ rows) = v ∷ rows_of rows

-- `k, k + 1, …`, so many
unfoldable pub range_from : ℕ → ℕ → List ℕ
range_from k zero = []
range_from k (suc n) = k ∷ range_from (suc k) n

-- `set(xs) == set(ys)`
abbrev pub same_set : List ℕ → List ℕ → Bool
same_set xs ys = all (λ x. elem x ys) xs && all (λ y. elem y xs) ys

-- The labels are those from 0 to `n - 1`.
unfoldable pub is_dense : List ℕ → ℕ → Bool
is_dense labels n = suc (max_label labels) == n && same_set labels (range_from 0 n)

-- `np.asarray(vectors)`
pub data Shape : Type 0 where
  flat ragged : Shape
  matrix : ℕ → ℕ → Shape

unfoldable pub shape_of {ℓ} : {F : Type ℓ} → List (List F) → Shape
shape_of [] = flat
shape_of (v ∷ vecs) =
    if all (λ w. length w == length v) vecs then matrix (suc (length vecs)) (length v) else ragged

-- `(i - 1) % n`, `(i + 1) % n`, `(i + 2) % n`
abbrev pub ring_of : ℕ → ℕ → List ℕ
ring_of n i = ((i + n - 1) % n) ∷ ((i + 1) % n) ∷ ((i + 2) % n) ∷ []
