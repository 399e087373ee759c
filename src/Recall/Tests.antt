-- ===== src/Recall/Tests.antt =====
-- A search over five nodes (compliance/recall_bounds.py): node 2 is deleted, and node 4 is cut off.
use unlearning.Prelude.{ℕ, ◌≡◌, ◌≢◌, ◌↔◌, refl, Bool, true, false, some, List, [], ◌∷◌, length}
use unlearning.Prelude.Eq.{nat_eq, elem, IsDistinct}
use unlearning.Recall.{
  flatnonzero, start_of, neighbours, push_all, visit, unpushed, seen_from, fraction_of_seen,
  unreachable_of, bfs_unreachable_fraction,
}
use unlearning.Recall.Walk.{Walk}
use unlearning.Recall.Count.{bfs_unreachable_fraction-Walk}

abbrev graph : List (List ℕ)
graph = (1 ∷ 2 ∷ []) ∷ (0 ∷ 3 ∷ []) ∷ (4 ∷ []) ∷ (1 ∷ []) ∷ []

abbrev mask : List Bool
mask = true ∷ true ∷ false ∷ true ∷ true ∷ []

abbrev first : List ℕ → ℕ
first [] = 0
first (a ∷ active) = a

program : Unit {0}
unfolding flatnonzero neighbours push_all visit unpushed seen_from unreachable_of
    bfs_unreachable_fraction
program = tt

search_run : bfs_unreachable_fraction first graph mask 0 ≡ some (record { num = 1; den = 4 }, 3, 4)
unfolding program
search_run = refl

-- An entry that is deleted: the search starts elsewhere.
other_entry_run :
    bfs_unreachable_fraction first graph mask 2 ≡ some (record { num = 1; den = 4 }, 3, 4)
unfolding program
other_entry_run = refl

some_active : flatnonzero 0 mask ≢ []
unfolding program
some_active h = cc

first_active : elem (first (flatnonzero 0 mask)) (flatnonzero 0 mask) ≡ true
unfolding program
first_active = refl

bfs_unreachable_fraction-Walk_example :
    (out : List ℕ) × (bfs_unreachable_fraction first graph mask 0
      ≡ some (fraction_of_seen (length (flatnonzero 0 mask)) out))
    × IsDistinct out
    × ((v : ℕ)
        → (elem v out ≡ true)
          ↔ Walk graph (flatnonzero 0 mask) (start_of first (flatnonzero 0 mask) 0) v)
bfs_unreachable_fraction-Walk_example = bfs_unreachable_fraction-Walk first graph mask 0 some_active
