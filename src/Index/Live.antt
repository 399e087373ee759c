-- ===== src/Index/Live.antt =====
-- The live rows of the matrix that the adapters (integrations/hnswlib_adapter.py,
-- integrations/faiss_adapter.py) rebuild their index from.
use unlearning.Prelude.{
  ℕ, ◌≡◌, refl, true, false, Option, none, some, List, [], ◌∷◌, arith, get_elem?, if◌then◌else◌, ok,
  raise,
}
use unlearning.Prelude.Dict.{Dict, get, keys, elem-keys}
use unlearning.Prelude.Eq.{nat_eq, elem, IsDistinct}
use unlearning.Residual.{Floats}
use unlearning.Index.{Matrix, get_vector, is_zero_row, live_items}
use unlearning.Index.Rows.{IsMatrix}

module _ (floats : Floats) where
  -- The row that a rebuild may keep: that of a label that is not deleted, if it is not all zeros.
  unfoldable pub live_row : ℕ → Matrix floats.F → Option (List floats.F)
  live_row label m = if elem label m.deleted then none else elim (get_vector label m) [
    | raise x ↦ none
    | ok row ↦ if is_zero_row floats row then none else some row
  ]

  pub deleted_row :
      (label : ℕ) (m : Matrix floats.F) → elem label m.deleted ≡ true → live_row label m ≡ none
  unfolding live_row
  deleted_row label m h = rw (h, live_row)

  pub same_row :
      (l : ℕ) (m m' : Matrix floats.F)
      → elem l m'.deleted ≡ elem l m.deleted
      → get_vector l m' ≡ get_vector l m
      → live_row l m' ≡ live_row l m
  unfolding live_row
  same_row l m m' d v = rw (d, v, live_row)

  -- `get` finds nothing under a key that is not there.
  get-none : (l : ℕ) (d : Dict ℕ (List floats.F)) → elem l (keys d) ≡ false → get l d ≡ none
  get-none l d h = ground (arith, elem-keys l d)

  row_at : ℕ → Matrix floats.F → ℕ → Option (List floats.F)
  row_at l m i = if elem l m.deleted then none else elim (get_elem? m.vectors i) [
    | none ↦ none
    | some row ↦ if is_zero_row floats row then none else some row
  ]

  live_items-get :
      (l : ℕ) (m : Matrix floats.F) (d : Dict ℕ ℕ)
      → IsDistinct (keys d)
      → get l (live_items floats m d) ≡ elim (get l d) [ none ↦ none | some i ↦ row_at l m i ]
  unfolding live_items get row_at
  live_items-get l m [] h = refl
  live_items-get l m ((k, i) ∷ d) h =
      ground (arith, nat_eq.beq_iff k l, live_items-get l m d h.1, elem-keys l d)

  live_items-keys :
      (l : ℕ) (m : Matrix floats.F) (d : Dict ℕ ℕ)
      → elem l (keys d) ≡ false
      → elem l (keys (live_items floats m d)) ≡ false
  unfolding live_items
  live_items-keys l m [] h = refl
  live_items-keys l m ((k, i) ∷ d) h = ground (arith, live_items-keys l m d)

  pub live_items-IsDistinct :
      (m : Matrix floats.F) (d : Dict ℕ ℕ)
      → IsDistinct (keys d)
      → IsDistinct (keys (live_items floats m d))
  unfolding live_items
  live_items-IsDistinct m [] h = tt
  live_items-IsDistinct m ((k, i) ∷ d) h =
      ground (arith, live_items-keys k m d h.0, live_items-IsDistinct m d h.1)

  -- A rebuild takes up each live row once, and nothing else.
  pub live_items-live_row :
      (l : ℕ) (m : Matrix floats.F)
      → IsMatrix m
      → get l (live_items floats m m.label_to_row) ≡ live_row l m
  unfolding live_row row_at get_vector
  live_items-live_row l m h = ground (arith, live_items-get l m m.label_to_row h.distinct)
