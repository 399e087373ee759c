-- ===== src/Recall.antt =====
-- compliance/recall_bounds.py: the search for unreachable nodes, and the bound that it gives for the
-- recall. Nodes and neighbours are natural numbers, as indices of the mask are; quotients are exact;
-- the set of active nodes is the list of its members. Numpy's distances are left out.
pub mod Walk
pub mod Search
pub mod Count
mod Tests
use unlearning.Prelude.{
  ℕ, zero, suc, ◌+◌, ◌-◌, ◌*◌, Bool, true, false, not, ◌&&◌, ◌||◌, Option, none, some, List, [],
  ◌∷◌, length, get_elem?, ltb, ◌==◌, if◌then◌else◌, Str, other, Result, ok, raise,
}
use unlearning.Prelude.Eq.{nat_eq, elem}
use unlearning.Prelude.Text.{codes}
use Prim.Native.Nat.{min}
use mathlib.Core.Option

-- `num / float(den)`
pub record Quotient : Type 0 where
  pub num : ℕ
  pub den : ℕ

pub record FragmentationBound : Type 0 where
  pub n_active : ℕ
  pub n_unreachable : ℕ
  pub recall_at_1_upper_bound : Quotient

unfoldable pub from_counts : ℕ → ℕ → FragmentationBound
from_counts n_active n_unreachable =
    if n_active == 0
    then record {
      n_active = 0;
      n_unreachable = 0;
      recall_at_1_upper_bound = record { num = 0; den = 1 };
    }
    else record {
      n_active = n_active;
      n_unreachable = min n_unreachable n_active;
      recall_at_1_upper_bound = record {
        num = n_active - min n_unreachable n_active;
        den = n_active;
      };
    }

-- `a > b + tol`
abbrev pub exceeds : Quotient → Quotient → Quotient → Bool
exceeds a b tol = ltb ((b.num * tol.den + tol.num * b.den) * a.den) (a.num * (b.den * tol.den))

-- The text of the error leaves its numbers out.
unfoldable pub assert_theorem2_bound : Quotient → ℕ → ℕ → Quotient → Result FragmentationBound
assert_theorem2_bound recall_at_1 n_active n_unreachable tol =
    let bound = from_counts n_active n_unreachable in
    if exceeds recall_at_1 bound.recall_at_1_upper_bound tol
    then raise (other (codes "exceeds fragmentation bound"))
    else ok bound

-- `np.flatnonzero(mask)`, from the index `i` on
unfoldable pub flatnonzero : ℕ → List Bool → List ℕ
flatnonzero i [] = []
flatnonzero i (true ∷ mask) = i ∷ flatnonzero (suc i) mask
flatnonzero i (false ∷ mask) = flatnonzero (suc i) mask

-- `adjacency[u]`, where there is one
unfoldable pub neighbours : List (List ℕ) → ℕ → List ℕ
neighbours adjacency u = elim (get_elem? adjacency u) [ none ↦ [] | some vs ↦ vs ]

-- The inner loop: the top of the stack stands first.
unfoldable pub push_all : List ℕ → List ℕ → List ℕ → List ℕ → List ℕ
push_all active seen [] stack = stack
push_all active seen (v ∷ vs) stack =
    push_all active seen vs (if elem v active && not (elem v seen) then v ∷ stack else stack)

-- The outer loop, on fuel; `none` means that the fuel ran out.
unfoldable pub visit : ℕ → List (List ℕ) → List ℕ → List ℕ → List ℕ → Option (List ℕ)
visit zero adjacency active seen stack = none
visit (suc fuel) adjacency active seen [] = some seen
visit (suc fuel) adjacency active seen (u ∷ stack) = elim (elem u seen || not (elem u active)) [
  | true ↦ visit fuel adjacency active seen stack
  | false ↦
      visit fuel adjacency active (u ∷ seen)
        (push_all active (u ∷ seen) (neighbours adjacency u) stack)
]

-- The neighbours that active nodes have yet to push.
unfoldable pub unpushed : List (List ℕ) → List ℕ → List ℕ → ℕ
unpushed adjacency seen [] = 0
unpushed adjacency seen (a ∷ active) =
    (if elem a seen then 0 else length (neighbours adjacency a)) + unpushed adjacency seen active

-- `next_iter` is `next(iter(active))`, some member of the set.
abbrev pub start_of : (List ℕ → ℕ) → List ℕ → ℕ → ℕ
start_of next_iter active entry = if elem entry active then entry else next_iter active

-- The nodes that the loop has seen, from the start node, with fuel for each push and two more.
unfoldable pub seen_from : List (List ℕ) → List ℕ → ℕ → Option (List ℕ)
seen_from adjacency active start =
    visit (unpushed adjacency [] active + 2) adjacency active [] (start ∷ [])

-- The numbers that are returned for the nodes that were seen.
abbrev pub fraction_of_seen : ℕ → List ℕ → Quotient × ℕ × ℕ
fraction_of_seen n_act seen =
    (record { num = n_act - length seen; den = n_act }, length seen, n_act)

-- `bfs_unreachable_fraction` for a set of active nodes
unfoldable pub unreachable_of :
    (List ℕ → ℕ) → List (List ℕ) → ℕ → List ℕ → Option (Quotient × ℕ × ℕ)
unfolding seen_from
unreachable_of next_iter adjacency entry [] = some (record { num = 1; den = 1 }, 0, 0)
unreachable_of next_iter adjacency entry (a ∷ active) =
    Option.map (fraction_of_seen (length (a ∷ active)))
      (seen_from adjacency (a ∷ active) (start_of next_iter (a ∷ active) entry))

unfoldable pub bfs_unreachable_fraction :
    (List ℕ → ℕ) → List (List ℕ) → List Bool → ℕ → Option (Quotient × ℕ × ℕ)
unfolding unreachable_of
bfs_unreachable_fraction next_iter adjacency active_mask entry =
    unreachable_of next_iter adjacency entry (flatnonzero 0 active_mask)
