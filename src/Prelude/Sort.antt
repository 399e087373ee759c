-- ===== src/Prelude/Sort.antt =====
-- `sorted` on numbers.
use Prim.Native.Nat.{ℕ, ◌<◌}
use mathlib.Core.Path.{◌≡◌, refl, ◌∙◌}
use mathlib.Core.Bool.{false, ◌||◌}
use mathlib.Core.List.{List, [], ◌∷◌}
use native.Mathlib.Omega.{arith}
use unlearning.Prelude.Tests.{leb, ◌==◌, if◌then◌else◌}
use unlearning.Prelude.Lists.{All}
use unlearning.Prelude.Eq.{nat_eq, elem, IsDistinct}

-- Insertion before the first element that is not smaller.
unfoldable pub insert_sorted : ℕ → List ℕ → List ℕ
insert_sorted n [] = n ∷ []
insert_sorted n (m ∷ ms) = if leb n m then n ∷ m ∷ ms else m ∷ insert_sorted n ms

unfoldable pub sorted : List ℕ → List ℕ
unfolding insert_sorted
sorted [] = []
sorted (n ∷ ns) = insert_sorted n (sorted ns)

-- Each number is below all that follow.
abbrev pub IsAscending : List ℕ → Type 0
IsAscending [] = Unit
IsAscending (n ∷ ns) = All (λ m. n < m) ns × IsAscending ns

elem-insert_sorted : (a n : ℕ) (ms : List ℕ) → elem a (insert_sorted n ms) ≡ (n == a || elem a ms)
unfolding insert_sorted
elem-insert_sorted a n [] = refl
elem-insert_sorted a n (m ∷ ms) = ground (arith, elem-insert_sorted a n ms)

pub elem-sorted : (a : ℕ) (ns : List ℕ) → elem a (sorted ns) ≡ elem a ns
unfolding sorted
elem-sorted a [] = refl
elem-sorted a (n ∷ ns) = ground (arith, elem-insert_sorted a n (sorted ns), elem-sorted a ns)

All-insert_sorted :
    (k n : ℕ) (ms : List ℕ) → k < n → All (λ m. k < m) ms → All (λ m. k < m) (insert_sorted n ms)
unfolding insert_sorted
All-insert_sorted k n [] h a = (h, tt)
All-insert_sorted k n (m ∷ ms) h a = ground (arith, All-insert_sorted k n ms h a.1)

All-lt_trans : (n m : ℕ) (ms : List ℕ) → n < m → All (λ k. m < k) ms → All (λ k. n < k) ms
All-lt_trans n m [] h a = tt
All-lt_trans n m (k ∷ ms) h a = (omega arith, All-lt_trans n m ms h a.1)

insert_sorted-IsAscending :
    (n : ℕ) (ms : List ℕ) → elem n ms ≡ false → IsAscending ms → IsAscending (insert_sorted n ms)
unfolding insert_sorted
insert_sorted-IsAscending n [] h a = (tt, tt)
insert_sorted-IsAscending n (m ∷ ms) h a =
    ground (arith, insert_sorted-IsAscending n ms, All-insert_sorted m n ms, All-lt_trans n m ms)

pub sorted-IsAscending : (ns : List ℕ) → IsDistinct ns → IsAscending (sorted ns)
unfolding sorted
sorted-IsAscending [] h = tt
sorted-IsAscending (n ∷ ns) h =
    insert_sorted-IsAscending n (sorted ns) (elem-sorted n ns ∙ h.0) (sorted-IsAscending ns h.1)
