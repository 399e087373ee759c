-- ===== src/Index/Rows.antt =====
-- The matrix of the adapters: each label has a row of its own, and each deleted label a row of zeros.
use unlearning.Prelude.{
  ℕ, zero, suc, ◌+◌, ◌<◌, ◌≡◌, ◌≢◌, refl, sym, ap, ◌∙◌, not, ◌&&◌, true, some, List, [], ◌∷◌, ◌++◌,
  arith, map, length, length-append, get_elem?, Bool-cases, Option-cases, inl, inr, ok,
}
use unlearning.Prelude.Dict.{get, put, keys, get-put, put-IsDistinct}
use unlearning.Prelude.Eq.{nat_eq, elem, IsDistinct}
use unlearning.Residual.{Floats}
use unlearning.Index.{
  Matrix, no_rows, discard, set_row, append_row, get_vector, is_zero_row, zero_row,
}

module _ {ℓ} {A : Type ℓ} where
  pub get_elem?-lt : (xs : List A) (i : ℕ) (a : A) → get_elem? xs i ≡ some a → i < length xs
  get_elem?-lt [] i a h = absurd (cc)
  get_elem?-lt (x ∷ xs) zero a h = omega arith
  get_elem?-lt (x ∷ xs) (suc i) a h = let ih = get_elem?-lt xs i a h in omega arith

  get_elem?-append :
      (xs ys : List A) (i : ℕ) (a : A) → get_elem? xs i ≡ some a → get_elem? (xs ++ ys) i ≡ some a
  get_elem?-append [] ys i a h = absurd (cc)
  get_elem?-append (x ∷ xs) ys zero a h = h
  get_elem?-append (x ∷ xs) ys (suc i) a h = get_elem?-append xs ys i a h

  get_elem?-last : (xs : List A) (a : A) → get_elem? (xs ++ a ∷ []) (length xs) ≡ some a
  get_elem?-last [] a = refl
  get_elem?-last (x ∷ xs) a = get_elem?-last xs a

  pub get_elem?-some : (xs : List A) (i : ℕ) → i < length xs → (a : A) × (get_elem? xs i ≡ some a)
  get_elem?-some [] i h = absurd (omega arith)
  get_elem?-some (x ∷ xs) zero h = (x, refl)
  get_elem?-some (x ∷ xs) (suc i) h = get_elem?-some xs i (omega arith)

  length-set_row : (i : ℕ) (a : A) (xs : List A) → length (set_row i a xs) ≡ length xs
  unfolding set_row
  length-set_row i a [] = refl
  length-set_row zero a (x ∷ xs) = refl
  length-set_row (suc i) a (x ∷ xs) = ap suc (length-set_row i a xs)

  pub get_elem?-set_row :
      (i : ℕ) (a : A) (xs : List A) → i < length xs → get_elem? (set_row i a xs) i ≡ some a
  unfolding set_row
  get_elem?-set_row i a [] h = absurd (omega arith)
  get_elem?-set_row zero a (x ∷ xs) h = refl
  get_elem?-set_row (suc i) a (x ∷ xs) h = get_elem?-set_row i a xs (omega arith)

  get_elem?-set_row-other :
      (i j : ℕ) (a : A) (xs : List A) → i ≢ j → get_elem? (set_row i a xs) j ≡ get_elem? xs j
  unfolding set_row
  get_elem?-set_row-other i j a [] h = refl
  get_elem?-set_row-other zero zero a (x ∷ xs) h = absurd (h refl)
  get_elem?-set_row-other zero (suc j) a (x ∷ xs) h = refl
  get_elem?-set_row-other (suc i) zero a (x ∷ xs) h = refl
  get_elem?-set_row-other (suc i) (suc j) a (x ∷ xs) h =
      get_elem?-set_row-other i j a xs (λ e. h (ap suc e))

pub elem-discard :
    (l k : ℕ) (xs : List ℕ) → elem l (discard k xs) ≡ (not (nat_eq.beq k l) && elem l xs)
unfolding discard
elem-discard l k [] = ground arith
elem-discard l k (x ∷ xs) =
    ground (arith, elem-discard l k xs, nat_eq.beq_iff x k, nat_eq.beq_iff x l, nat_eq.beq_iff k l)

module _ (floats : Floats) where
  open floats use {F}

  pub zero_row-length :
      (i : ℕ) (rows : List (List F)) → length (zero_row floats i rows) ≡ length rows
  unfolding zero_row
  zero_row-length i [] = refl
  zero_row-length zero (r ∷ rows) = refl
  zero_row-length (suc i) (r ∷ rows) = ap suc (zero_row-length i rows)

  pub get_elem?-zero_row-other :
      (i j : ℕ) (rows : List (List F))
      → i ≢ j
      → get_elem? (zero_row floats i rows) j ≡ get_elem? rows j
  unfolding zero_row
  get_elem?-zero_row-other i j [] h = refl
  get_elem?-zero_row-other zero zero (r ∷ rows) h = absurd (h refl)
  get_elem?-zero_row-other zero (suc j) (r ∷ rows) h = refl
  get_elem?-zero_row-other (suc i) zero (r ∷ rows) h = refl
  get_elem?-zero_row-other (suc i) (suc j) (r ∷ rows) h =
      get_elem?-zero_row-other i j rows (λ e. h (ap suc e))

  zeros-is_zero_row :
      floats.is_zero floats.zero ≡ true
      → (row : List F) → is_zero_row floats (map (λ x. floats.zero) row) ≡ true
  zeros-is_zero_row z [] = refl
  zeros-is_zero_row z (x ∷ row) = rw z (zeros-is_zero_row z row)

  pub get_elem?-zero_row :
      (i : ℕ) (rows : List (List F))
      → i < length rows
      → floats.is_zero floats.zero ≡ true
      → (row : List F) × (get_elem? (zero_row floats i rows) i ≡ some row)
        × (is_zero_row floats row ≡ true)
  unfolding zero_row
  get_elem?-zero_row i [] h z = absurd (omega arith)
  get_elem?-zero_row zero (r ∷ rows) h z = (map (λ x. floats.zero) r, refl, zeros-is_zero_row z r)
  get_elem?-zero_row (suc i) (r ∷ rows) h z = get_elem?-zero_row i rows (omega arith) z

-- Each label has a row of its own.
pub record IsMatrix {F : Type 0} (m : Matrix F) : Type 0 where
  pub same : length m.row_to_label ≡ length m.vectors
  pub back : (l i : ℕ) → get l m.label_to_row ≡ some i → get_elem? m.row_to_label i ≡ some l
  pub distinct : IsDistinct (keys m.label_to_row)

pub no_rows-IsMatrix : {F : Type 0} → IsMatrix (no_rows {F = F})
unfolding get
no_rows-IsMatrix = record { same = refl; back = λ l i h. absurd (cc); distinct = tt }

module _ {F : Type 0} (m : Matrix F) (h : IsMatrix m) where
  -- A label that is known has a row.
  pub row-lt : (l i : ℕ) → get l m.label_to_row ≡ some i → i < length m.vectors
  row-lt l i g =
      let below = get_elem?-lt m.row_to_label i l (h.back l i g) in let same = h.same in omega arith

  -- Two labels never share a row.
  pub row-apart :
      (l k i j : ℕ) → get l m.label_to_row ≡ some i → get k m.label_to_row ≡ some j → l ≢ k → i ≢ j
  row-apart l k i j g g' other e =
      other (cc (h.back l i g, ap (get_elem? m.row_to_label) e, h.back k j g'))

  -- The labels that are known stay, with their rows; a new label gets the next row.
  pub append_row-IsMatrix : (label : ℕ) (row : List F) → IsMatrix (append_row label row m)
  unfolding append_row
  append_row-IsMatrix label row = elim (Option-cases (get label m.label_to_row)) [
    | inr (i, e) ↦
        rw (e, append_row)
          (record {
            same = h.same ∙ sym (length-set_row i row m.vectors);
            back = h.back;
            distinct = h.distinct;
          })
    | inl e ↦
        rw (e, append_row)
          (record {
            same = same;
            back = back;
            distinct = put-IsDistinct label (length m.vectors) m.label_to_row h.distinct;
          })
  ]
    where
      same : length (m.row_to_label ++ label ∷ []) ≡ length (m.vectors ++ row ∷ [])
      same =
          length-append m.row_to_label (label ∷ [])
          ∙ (ap (λ n. n + 1) h.same ∙ sym (length-append m.vectors (row ∷ [])))

      back :
          (l i : ℕ)
          → get l (put label (length m.vectors) m.label_to_row) ≡ some i
          → get_elem? (m.row_to_label ++ label ∷ []) i ≡ some l
      back l i g = elim (Bool-cases (nat_eq.beq label l)) [
        | inr other ↦
            get_elem?-append m.row_to_label (label ∷ []) i l
              (h.back l i (rw (get-put label l (length m.vectors) m.label_to_row, other) at g))
        | inl t ↦
            let at_end : some (length m.vectors) ≡ some i =
              rw (get-put label l (length m.vectors) m.label_to_row, t) at g in
            let own : label ≡ l = (nat_eq.beq_iff label l).0 t in
            let place : length m.row_to_label ≡ i = h.same ∙ cc at_end in
            ap (get_elem? (m.row_to_label ++ label ∷ [])) (sym place)
            ∙ (get_elem?-last m.row_to_label label ∙ ap some own)
      ]

  -- What `append_row` stores is read back.
  pub append_row-get_vector :
      (label : ℕ) (row : List F) → get_vector label (append_row label row m) ≡ ok row
  unfolding append_row get_vector
  append_row-get_vector label row = elim (Option-cases (get label m.label_to_row)) [
    | inr (i, e) ↦
        rw (e, append_row)
          (rw (e, get_elem?-set_row i row m.vectors (row-lt label i e), get_vector) refl)
    | inl e ↦
        rw (e, append_row)
          (rw
            (
              get-put label label (length m.vectors) m.label_to_row,
              (nat_eq.beq_iff label label).1 refl,
              get_elem?-last m.vectors row,
              get_vector,
            )
            refl)
  ]
