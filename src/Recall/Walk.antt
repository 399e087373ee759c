-- ===== src/Recall/Walk.antt =====
-- What it means that a node is reached (compliance/recall_bounds.py): a walk over active nodes.
use unlearning.Prelude.{ℕ, ◌≡◌, true, List}
use unlearning.Prelude.Eq.{nat_eq, elem}
use unlearning.Recall.{neighbours}

pub data Walk (adjacency : List (List ℕ)) (active : List ℕ) (start : ℕ) : ℕ → Type 0 where
  here : elem start active ≡ true → Walk adjacency active start start
  next :
      {u v : ℕ}
      → Walk adjacency active start u
      → elem v (neighbours adjacency u) ≡ true
      → elem v active ≡ true
      → Walk adjacency active start v

pub Walk-active :
    {adjacency : List (List ℕ)} {active : List ℕ} {start v : ℕ}
    → Walk adjacency active start v
    → elem v active ≡ true
Walk-active (here h) = h
Walk-active (next w e h) = h
