-- ===== src/Api/Ordered.antt =====
-- The rows in the order of their labels, which `ingest_vectors` (api/main.py) loads where the labels are
-- those from 0 on: each stands at its label.
use unlearning.Prelude.{
  ℕ, zero, suc, ◌+◌, ◌≤◌, ◌<◌, ◌≡◌, refl, sym, ap, ◌∙◌, true, false, none, some, List, [], ◌∷◌,
  arith, all, All, length, get_elem?, leb, ◌==◌, if◌then◌else◌, Bool-cases, inl, inr,
}
use unlearning.Prelude.Dict.{get, keys}
use unlearning.Prelude.Eq.{nat_eq, elem}
use unlearning.Api.Matrix.{insert_row, sort_rows, rows_of, range_from, is_dense, max_label}
use unlearning.Api.Rows.{last_row}
use unlearning.Api.Counting.{
  split_and, count, Climbs, count_of_elem, All-weaken, covers-eq, count-range_from, all-range_from,
  All-zero,
}

module _ {A : Type 0} where
  count-insert_row :
      (a l : ℕ) (v : A) (rows : List (ℕ × A))
      → count a (keys (insert_row l v rows)) ≡ count a (l ∷ keys rows)
  unfolding count insert_row
  count-insert_row a l v [] = refl
  count-insert_row a l v ((k, w) ∷ rows) = ground (arith, count-insert_row a l v rows)

  All-insert_row :
      (b l : ℕ) (v : A) (rows : List (ℕ × A))
      → b ≤ l
      → All (λ m. b ≤ m) (keys rows)
      → All (λ m. b ≤ m) (keys (insert_row l v rows))
  unfolding insert_row
  All-insert_row b l v [] le h = (le, tt)
  All-insert_row b l v ((k, w) ∷ rows) le h = ground (arith, All-insert_row b l v rows le h.1)

  insert_row-Climbs :
      (l : ℕ) (v : A) (rows : List (ℕ × A))
      → Climbs (keys rows)
      → Climbs (keys (insert_row l v rows))
  unfolding insert_row
  insert_row-Climbs l v [] c = (tt, tt)
  insert_row-Climbs l v ((k, w) ∷ rows) c = elim (Bool-cases (leb l k)) [
    | inl t ↦
        let le : l ≤ k = ground arith in
        rw (t, insert_row) ((le, All-weaken l k (keys rows) le c.0), c)
    | inr f ↦
        rw (f, insert_row)
          (All-insert_row k l v rows (ground arith) c.0, insert_row-Climbs l v rows c.1)
  ]

  get-insert_row :
      (i l : ℕ) (v : A) (rows : List (ℕ × A))
      → get i (insert_row l v rows) ≡ (if l == i then some v else get i rows)
  unfolding insert_row get
  get-insert_row i l v [] = refl
  get-insert_row i l v ((k, w) ∷ rows) = ground (arith, get-insert_row i l v rows)

  length-insert_row :
      (l : ℕ) (v : A) (rows : List (ℕ × A))
      → length (keys (insert_row l v rows)) ≡ suc (length (keys rows))
  unfolding insert_row
  length-insert_row l v [] = refl
  length-insert_row l v ((k, w) ∷ rows) = ground (arith, length-insert_row l v rows)

  sort_rows-Climbs : (labels : List ℕ) (vecs : List A) → Climbs (keys (sort_rows labels vecs))
  unfolding sort_rows
  sort_rows-Climbs [] vecs = tt
  sort_rows-Climbs (l ∷ labels) [] = tt
  sort_rows-Climbs (l ∷ labels) (v ∷ vecs) =
      insert_row-Climbs l v (sort_rows labels vecs) (sort_rows-Climbs labels vecs)

  count-sort_rows :
      (a : ℕ) (labels : List ℕ) (vecs : List A)
      → length labels ≡ length vecs
      → (count a (keys (sort_rows labels vecs)) ≡ count a labels)
        × (length (keys (sort_rows labels vecs)) ≡ length labels)
  unfolding sort_rows count
  count-sort_rows a [] vecs h = (refl, refl)
  count-sort_rows a (l ∷ labels) [] h = absurd (omega (arith, h))
  count-sort_rows a (l ∷ labels) (v ∷ vecs) h =
      let (c, n) = count-sort_rows a labels vecs (omega (arith, h)) in
      (
        count-insert_row a l v (sort_rows labels vecs) ∙ ground (arith, c),
        length-insert_row l v (sort_rows labels vecs) ∙ ap suc n,
      )

  last_row-none :
      (a : ℕ) (labels : List ℕ) (vecs : List A) → count a labels ≡ 0 → last_row a labels vecs ≡ none
  unfolding last_row count
  last_row-none a [] vecs h = refl
  last_row-none a (l ∷ labels) [] h = refl
  last_row-none a (l ∷ labels) (v ∷ vecs) h = ground (arith, last_row-none a labels vecs)

  get-sort_rows :
      (a : ℕ) (labels : List ℕ) (vecs : List A)
      → count a labels ≤ 1
      → get a (sort_rows labels vecs) ≡ last_row a labels vecs
  unfolding sort_rows last_row count get
  get-sort_rows a [] vecs h = refl
  get-sort_rows a (l ∷ labels) [] h = refl
  get-sort_rows a (l ∷ labels) (v ∷ vecs) h =
      get-insert_row a l v (sort_rows labels vecs)
      ∙ ground (arith, get-sort_rows a labels vecs, last_row-none a labels vecs)

  get-skip :
      (l j : ℕ) (v : A) (rows : List (ℕ × A))
      → (l == j) ≡ false
      → get j ((l, v) ∷ rows) ≡ get j rows
  unfolding get
  get-skip l j v rows f = rw (f, get) refl

  get-rows_of :
      (k n i : ℕ) (rows : List (ℕ × A))
      → keys rows ≡ range_from k n
      → get_elem? (rows_of rows) i ≡ get (k + i) rows
  unfolding rows_of get range_from
  get-rows_of k n i [] h = refl
  get-rows_of k zero i ((l, v) ∷ rows) h = absurd (cc)
  get-rows_of k (suc n) zero ((l, v) ∷ rows) h = let e : l ≡ k = cc h in ground (arith, e)
  get-rows_of k (suc n) (suc i) ((l, v) ∷ rows) h =
      let e : l ≡ k = cc h in
      let rest : keys rows ≡ range_from (suc k) n = cc h in
      let next : suc k + i ≡ k + suc i = omega arith in
      let other : (l == k + suc i) ≡ false = ground (arith, e) in
      get-rows_of (suc k) n i rows rest
      ∙ (ap (λ j. get j rows) next ∙ sym (get-skip l (k + suc i) v rows other))

  -- Where the labels are those from 0 on, the rows in the order of their labels have each vector at its
  -- label.
  pub get-ordered :
      (n : ℕ) (labels : List ℕ) (vecs : List A) (i : ℕ)
      → length labels ≡ n
      → length vecs ≡ n
      → is_dense labels n ≡ true
      → get_elem? (rows_of (sort_rows labels vecs)) i ≡ last_row i labels vecs
  unfolding is_dense
  get-ordered n labels vecs i len len' dense =
      let (top, both) = split_and (suc (max_label labels) == n) _ dense in
      let (within, covered) = split_and (all (λ x. elem x (range_from 0 n)) labels) _ both in
      let rows = sort_rows labels vecs in
      let sorted = λ (a : ℕ). count-sort_rows a labels vecs (len ∙ sym len') in
      let there : (a : ℕ) → 0 ≤ a → a < 0 + n → 1 ≤ count a (keys rows) = λ a le lt. omega (
        arith,
        (sorted a).0,
        count_of_elem a labels (all-range_from 0 n a (λ y. elem y labels) covered le lt),
      ) in
      let eq : keys rows ≡ range_from 0 n =
        covers-eq 0 n (keys rows) (sort_rows-Climbs labels vecs) (All-zero (keys rows))
          ((sorted 0).1 ∙ len) there in
      let once : count i labels ≤ 1 =
        omega (arith, (sorted i).0, ap (count i) eq, count-range_from i 0 n) in
      let same : 0 + i ≡ i = omega arith in
      get-rows_of 0 n i rows eq ∙ ap (λ j. get j rows) same ∙ get-sort_rows i labels vecs once
