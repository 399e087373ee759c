-- ===== src/Recall/Count.antt =====
-- The numbers that compliance/recall_bounds.py makes of its search.
use unlearning.Prelude.{
  ℕ, suc, ◌+◌, ◌-◌, ◌≤◌, ◌<◌, ◌≡◌, ◌≢◌, ◌↔◌, refl, ap, Bool, true, some, List, [], ◌∷◌, length,
  arith, if◌then◌else◌,
}
use unlearning.Prelude.Eq.{nat_eq, elem, IsDistinct}
use unlearning.Recall.{
  Quotient, from_counts, flatnonzero, start_of, fraction_of_seen, unreachable_of,
  bfs_unreachable_fraction,
}
use unlearning.Recall.Walk.{Walk, here, Walk-active}
use unlearning.Recall.Search.{seen_from-Walk}

-- A list without its first `x`.
without : ℕ → List ℕ → List ℕ
without x [] = []
without x (y ∷ ys) = if nat_eq.beq y x then ys else y ∷ without x ys

length-without : (x : ℕ) (ys : List ℕ) → elem x ys ≡ true → suc (length (without x ys)) ≡ length ys
unfolding without
length-without x [] h = absurd (cc)
length-without x (y ∷ ys) h = ground (arith, length-without x ys)

elem-without : (v x : ℕ) (ys : List ℕ) → v ≢ x → elem v ys ≡ true → elem v (without x ys) ≡ true
unfolding without
elem-without v x [] other h = h
elem-without v x (y ∷ ys) other h =
    ground (arith, nat_eq.beq_iff y x, nat_eq.beq_iff y v, elem-without v x ys other)

-- A list with no element twice is no longer than one that has all its elements.
length-le :
    (xs ys : List ℕ)
    → IsDistinct xs
    → ((v : ℕ) → elem v xs ≡ true → elem v ys ≡ true)
    → length xs ≤ length ys
length-le [] ys d h = omega arith
length-le (x ∷ xs) ys (once, d) h =
    let rest =
      length-le xs (without x ys) d
        (λ v e. elem-without v x ys (λ same. cc (ap (λ y. elem y xs) same)) (h v (ground arith))) in
    let there = length-without x ys (h x (ground (arith, nat_eq.beq_iff x x))) in omega arith

unreachable_of-Walk :
    (next_iter : List ℕ → ℕ) (adjacency : List (List ℕ)) (entry : ℕ) (active : List ℕ)
    → active ≢ []
    → (out : List ℕ) × (unreachable_of next_iter adjacency entry active
        ≡ some (fraction_of_seen (length active) out))
      × IsDistinct out
      × ((v : ℕ) → (elem v out ≡ true) ↔ Walk adjacency active (start_of next_iter active entry) v)
unfolding unreachable_of
unreachable_of-Walk next_iter adjacency entry [] full = absurd (full refl)
unreachable_of-Walk next_iter adjacency entry (a ∷ active) full =
    let (out, ran, once, exactly) =
      seen_from-Walk adjacency (a ∷ active) (start_of next_iter (a ∷ active) entry) in
    (out, rw (ran, unreachable_of), once, exactly)

-- With an active node there is, the search ends and returns its numbers for a list of nodes without
-- repetition: exactly those to which a walk over active nodes leads from the start node, the entry if
-- that is active.
pub bfs_unreachable_fraction-Walk :
    (next_iter : List ℕ → ℕ) (adjacency : List (List ℕ)) (active_mask : List Bool) (entry : ℕ)
    → flatnonzero 0 active_mask ≢ []
    → (out : List ℕ) × (bfs_unreachable_fraction next_iter adjacency active_mask entry
        ≡ some (fraction_of_seen (length (flatnonzero 0 active_mask)) out))
      × IsDistinct out
      × ((v : ℕ)
          → (elem v out ≡ true)
            ↔ Walk adjacency
                (flatnonzero 0 active_mask)
                (start_of next_iter (flatnonzero 0 active_mask) entry)
                v)
unfolding bfs_unreachable_fraction
bfs_unreachable_fraction-Walk next_iter adjacency active_mask entry full =
    unreachable_of-Walk next_iter adjacency entry (flatnonzero 0 active_mask) full

length_pos : (w : ℕ) (xs : List ℕ) → elem w xs ≡ true → 0 < length xs
length_pos w [] h = absurd (cc)
length_pos w (x ∷ xs) h = omega arith

start_of-active :
    (next_iter : List ℕ → ℕ) (active : List ℕ) (entry : ℕ)
    → elem (next_iter active) active ≡ true
    → elem (start_of next_iter active entry) active ≡ true
start_of-active next_iter active entry h = ground arith

-- With an active node there is, and an iterator that yields a member of the set: the search reaches at
-- least one node and at most the active ones, its quotient counts the others, and the bound that
-- `from_counts` gives for its numbers is the share of the nodes that were reached.
pub bfs_unreachable_fraction_bounds :
    (next_iter : List ℕ → ℕ) (adjacency : List (List ℕ)) (active_mask : List Bool) (entry : ℕ)
    → elem (next_iter (flatnonzero 0 active_mask)) (flatnonzero 0 active_mask) ≡ true
    → (unreached : Quotient) × (n_reach : ℕ) × (n_act : ℕ) × (bfs_unreachable_fraction next_iter
          adjacency active_mask entry
        ≡ some (unreached, n_reach, n_act))
      × (0 < n_reach)
      × (n_reach ≤ n_act)
      × (unreached.num + n_reach ≡ n_act)
      × (unreached.den ≡ n_act)
      × ((from_counts n_act (n_act - n_reach)).recall_at_1_upper_bound
          ≡ record { num = n_reach; den = n_act })
unfolding from_counts
bfs_unreachable_fraction_bounds next_iter adjacency active_mask entry picks =
    let active = flatnonzero 0 active_mask in
    let (out, ran, once, exactly) =
      bfs_unreachable_fraction-Walk next_iter adjacency active_mask entry
        (λ none_there. cc (ap (elem (next_iter active)) none_there)) in
    let inside = length-le out active once (λ v e. Walk-active ((exactly v).0 e)) in
    let first = start_of next_iter active entry in
    let some_there =
      length_pos first out
        ((exactly first).1 (here (start_of-active next_iter active entry picks))) in
    (_, _, _, ran, some_there, inside, omega arith, refl, ground arith)
