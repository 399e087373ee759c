-- ===== src/Api/Placed.antt =====
-- Where the vectors of an ingest (api/main.py) stand in the rows that are loaded, whichever way these
-- are built.
use unlearning.Prelude.{
  ℕ, suc, ◌<◌, ◌≡◌, refl, sym, ap, ◌∙◌, Bool, true, ◌&&◌, some, List, [], ◌∷◌, arith, all, map,
  length, get_elem?, ◌==◌, ==_iff, Bool-cases, inl, inr, Str,
}
use unlearning.Prelude.Eq.{nat_eq, str_eq, str_beq, str_beq_iff, elem}
use unlearning.Api.Matrix.{is_dense, max_label, replicate, shape_of, matrix}
use unlearning.Api.Ingest.{Site, dense_rows, index_rows}
use unlearning.Api.Rows.{
  last_row, get-fill_rows, length-replicate, last_row-some, elem-le-max_label,
}
use unlearning.Api.Ordered.{get-ordered}

pub length-map : {A B : Type 0} (f : A → B) (xs : List A) → length (map f xs) ≡ length xs
length-map f [] = refl
length-map f (x ∷ xs) = ap suc (length-map f xs)

pub elem-map :
    (f : Str → ℕ) (e : Str) (ids : List Str) → elem e ids ≡ true → elem (f e) (map f ids) ≡ true
elem-map f e [] h = absurd (cc)
elem-map f e (i ∷ ids) h = elim (Bool-cases (str_beq i e)) [
  | inl t ↦
      let same : nat_eq.beq (f i) (f e) ≡ true =
        (==_iff (f i) (f e)).1 (ap f ((str_beq_iff i e).0 t)) in
      rw same refl
  | inr n ↦
      let rest : elem (f e) (map f ids) ≡ true = elem-map f e ids (sym (rw n refl) ∙ h) in
      ground (arith, rest)
]

pub shape-matrix :
    {F : Type 0} (vecs : List (List F)) {n d : ℕ} → shape_of vecs ≡ matrix n d → length vecs ≡ n
unfolding shape_of
shape-matrix [] h = absurd (cc)
shape-matrix (v ∷ vecs) h = elim (Bool-cases (all (λ w. length w == length v) vecs)) [
  | inl t ↦ cc (rw (t, shape_of) at h)
  | inr f ↦ absurd (cc (rw (f, shape_of) at h))
]

module _ (site : Site) where
  get-dense_rows :
      (labels : List ℕ) (vecs : List (List site.F)) (d i : ℕ)
      → length labels ≡ length vecs
      → elem i labels ≡ true
      → (v : List site.F) × (last_row i labels vecs ≡ some v)
        × (get_elem? (dense_rows site labels vecs d).0 i ≡ some v)
  unfolding dense_rows
  get-dense_rows labels vecs d i len t =
      let (v, last) = last_row-some i labels vecs len t in
      let zeros = replicate (suc (max_label labels)) (replicate d site.fzero) in
      let inside : i < length zeros = omega (
        arith,
        length-replicate (suc (max_label labels)) (replicate d site.fzero),
        elem-le-max_label i labels t,
      ) in
      (v, last, get-fill_rows labels vecs zeros i inside ∙ rw last refl)

  pub get-index_rows :
      (replace : Bool) (labels : List ℕ) (vecs : List (List site.F)) (n d i : ℕ)
      → length labels ≡ n
      → length vecs ≡ n
      → elem i labels ≡ true
      → (v : List site.F) × (last_row i labels vecs ≡ some v)
        × (get_elem? (index_rows site replace labels vecs n d).0 i ≡ some v)
  unfolding index_rows
  get-index_rows replace labels vecs n d i len len' t =
      elim (Bool-cases (replace && is_dense labels n)) [
        | inr f ↦
            let (v, last, there) = get-dense_rows labels vecs d i (len ∙ sym len') t in
            (v, last, rw (f, index_rows) there)
        | inl dense ↦
            let (v, last) = last_row-some i labels vecs (len ∙ sym len') t in
            (
              v,
              last,
              rw (dense, index_rows) (get-ordered n labels vecs i len len' (ground arith) ∙ last),
            )
      ]
