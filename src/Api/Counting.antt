-- ===== src/Api/Counting.antt =====
-- Climbing lists of labels and how often a label is in a list: a list that is as long as the numbers
-- that it covers is those numbers (the dense labels of `ingest_vectors`, api/main.py).
use unlearning.Prelude.{
  ℕ, zero, suc, ◌+◌, ◌≤◌, ◌<◌, ◌≡◌, refl, sym, ap, ◌∙◌, Bool, true, ◌&&◌, List, [], ◌∷◌, arith, all,
  All, length, ltb, ◌==◌, ==_iff, if◌then◌else◌, Bool-cases, inl, inr,
}
use unlearning.Prelude.Eq.{nat_eq, elem}
use unlearning.Api.Matrix.{range_from}

pub split_and : (a b : Bool) → (a && b) ≡ true → (a ≡ true) × (b ≡ true)
split_and a b h = ground arith

unfoldable pub count : ℕ → List ℕ → ℕ
count a [] = 0
count a (x ∷ xs) = let rest = count a xs in if x == a then suc rest else rest

-- No element is above one behind it.
abbrev pub Climbs : List ℕ → Type 0
Climbs [] = Unit
Climbs (x ∷ xs) = All (λ m. x ≤ m) xs × Climbs xs

pub count_of_elem : (a : ℕ) (xs : List ℕ) → elem a xs ≡ true → 1 ≤ count a xs
unfolding count
count_of_elem a [] h = absurd (cc)
count_of_elem a (x ∷ xs) h = ground (arith, count_of_elem a xs)

count-below : (a b : ℕ) (xs : List ℕ) → All (λ m. b ≤ m) xs → a < b → count a xs ≡ 0
unfolding count
count-below a b [] h lt = refl
count-below a b (x ∷ xs) h lt = ground (arith, count-below a b xs h.1, h.0)

pub All-weaken : (a b : ℕ) (xs : List ℕ) → a ≤ b → All (λ m. b ≤ m) xs → All (λ m. a ≤ m) xs
All-weaken a b [] le h = tt
All-weaken a b (x ∷ xs) le h = (omega (arith, h.0), All-weaken a b xs le h.1)

-- A list that holds so many numbers, one behind the other, is that long.
length-covers :
    (j m : ℕ) (ks : List ℕ)
    → Climbs ks
    → ((i : ℕ) → j ≤ i → i < j + m → 1 ≤ count i ks)
    → m ≤ length ks
unfolding count
length-covers j zero ks c h = omega arith
length-covers j (suc m) [] c h = absurd (omega (arith, h j (omega arith) (omega arith)))
length-covers j (suc m) (x ∷ xs) c h = elim (Bool-cases (x == j)) [
  | inl t ↦ omega (
    arith,
    length-covers (suc j) m xs c.1 (λ i le lt. ground (arith, h i (omega arith) (omega arith))),
  )
  | inr f ↦ elim (Bool-cases (ltb x j)) [
    | inl below ↦ omega (
      arith,
      length-covers j (suc m) xs c.1 (λ i le lt. ground (arith, h i (omega arith) (omega arith))),
    )
    | inr above ↦ absurd (ground (arith, h j (omega arith) (omega arith), count-below j x xs c.0))
  ]
]

-- If so many numbers above `k` are in a list that is as long, `k` is not in it.
above_first :
    (k n : ℕ) (xs : List ℕ)
    → Climbs xs
    → All (λ m. k ≤ m) xs
    → length xs ≡ n
    → ((i : ℕ) → suc k ≤ i → i < suc k + n → 1 ≤ count i xs)
    → All (λ m. suc k ≤ m) xs
unfolding count
above_first k n [] c above len h = tt
above_first k n (y ∷ ys) c above len h = elim (Bool-cases (y == k)) [
  | inr f ↦
      let higher : suc k ≤ y = ground (arith, above.0) in
      (higher, All-weaken (suc k) y ys higher c.0)
  | inl t ↦
      absurd
        (omega (arith, length-covers (suc k) n ys c.1 (λ i le lt. ground (arith, h i le lt)), len))
]

-- So many numbers from `k` on, all of which are there, are those.
pub covers-eq :
    (k n : ℕ) (ks : List ℕ)
    → Climbs ks
    → All (λ m. k ≤ m) ks
    → length ks ≡ n
    → ((i : ℕ) → k ≤ i → i < k + n → 1 ≤ count i ks)
    → ks ≡ range_from k n
unfolding count range_from
covers-eq k zero [] c above len h = refl
covers-eq k zero (x ∷ xs) c above len h = absurd (omega (arith, len))
covers-eq k (suc n) [] c above len h = absurd (omega (arith, len))
covers-eq k (suc n) (x ∷ xs) c above len h = elim (Bool-cases (x == k)) [
  | inr f ↦ absurd (
      ground (
        arith,
        above.0,
        h k (omega arith) (omega arith),
        λ (lt : k < x). count-below k x xs c.0 lt,
      ))
  | inl t ↦
      let first : x ≡ k = (==_iff x k).0 t in
      let there : (i : ℕ) → suc k ≤ i → i < suc k + n → 1 ≤ count i xs =
        λ i le lt. ground (arith, h i (omega arith) (omega arith)) in
      let low : All (λ m. k ≤ m) xs = All-weaken k x xs (omega (arith, first)) c.0 in
      let long : length xs ≡ n = omega (arith, len) in
      rw (first, covers-eq (suc k) n xs c.1 (above_first k n xs c.1 low long there) long there) refl
]

pub count-range_from : (a k n : ℕ) → count a (range_from k n) ≤ 1
unfolding count range_from
count-range_from a k zero = omega arith
count-range_from a k (suc n) = ground (arith, count-range_from a (suc k) n, none_below a (suc k) n)
  where
    none_below : (a k n : ℕ) → a < k → count a (range_from k n) ≡ 0
    none_below a k zero lt = refl
    none_below a k (suc n) lt = ground (arith, none_below a (suc k) n)

pub all-range_from :
    (k n i : ℕ) (p : ℕ → Bool) → all p (range_from k n) ≡ true → k ≤ i → i < k + n → p i ≡ true
unfolding range_from
all-range_from k zero i p h le lt = absurd (omega arith)
all-range_from k (suc n) i p h le lt = elim (Bool-cases (k == i)) [
  | inl t ↦ let same : k ≡ i = (==_iff k i).0 t in ap p (sym same) ∙ (split_and (p k) _ h).0
  | inr f ↦ all-range_from (suc k) n i p (split_and (p k) _ h).1 (ground arith) (omega arith)
]

pub All-zero : (xs : List ℕ) → All (λ m. 0 ≤ m) xs
All-zero [] = tt
All-zero (x ∷ xs) = (omega arith, All-zero xs)
