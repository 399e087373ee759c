-- ===== src/Recall/Search.antt =====
-- The search of compliance/recall_bounds.py sees exactly the nodes that a walk reaches, and ends.
use unlearning.Prelude.{
  ℕ, zero, suc, ◌+◌, ◌≤◌, ◌<◌, ◌≡◌, ◌↔◌, refl, true, false, not, ◌&&◌, ◌||◌, some, List, [], ◌∷◌,
  length, arith, if◌then◌else◌, Bool-cases, inl, inr, ◌⊎◌, subst, ap, ◌∙◌,
}
use unlearning.Prelude.Eq.{nat_eq, elem, IsDistinct}
use unlearning.Recall.{neighbours, push_all, visit, unpushed, seen_from}
use unlearning.Recall.Walk.{Walk, here, next}

elem-push_all :
    (w : ℕ) (active seen vs stack : List ℕ)
    → elem w (push_all active seen vs stack)
      ≡ (elem w stack || (elem w vs && (elem w active && not (elem w seen))))
unfolding push_all
elem-push_all w active seen [] stack = ground arith
elem-push_all w active seen (v ∷ vs) stack = ground (
  arith,
  nat_eq.beq_iff v w,
  elem-push_all w active seen vs (if elem v active && not (elem v seen) then v ∷ stack else stack),
)

length-push_all :
    (active seen vs stack : List ℕ)
    → length (push_all active seen vs stack) ≤ length stack + length vs
unfolding push_all
length-push_all active seen [] stack = omega arith
length-push_all active seen (v ∷ vs) stack = ground (
  arith,
  length-push_all active seen vs (if elem v active && not (elem v seen) then v ∷ stack else stack),
)

unpushed-le :
    (adjacency : List (List ℕ)) (u : ℕ) (seen active : List ℕ)
    → unpushed adjacency (u ∷ seen) active ≤ unpushed adjacency seen active
unfolding unpushed
unpushed-le adjacency u seen [] = omega arith
unpushed-le adjacency u seen (a ∷ active) = ground (arith, unpushed-le adjacency u seen active)

-- A node that is seen for the first time has pushed its neighbours.
unpushed-seen :
    (adjacency : List (List ℕ)) (u : ℕ) (seen active : List ℕ)
    → elem u active ≡ true
    → elem u seen ≡ false
    → unpushed adjacency (u ∷ seen) active + length (neighbours adjacency u)
      ≤ unpushed adjacency seen active
unfolding unpushed
unpushed-seen adjacency u seen [] h g = absurd (cc)
unpushed-seen adjacency u seen (a ∷ active) h g = ground (
  arith,
  nat_eq.beq_iff a u,
  nat_eq.beq_iff u a,
  unpushed-seen adjacency u seen active,
  unpushed-le adjacency u seen active,
)

elem-cons : (w u : ℕ) (xs : List ℕ) → elem w (u ∷ xs) ≡ true → (u ≡ w) ⊎ (elem w xs ≡ true)
elem-cons w u xs h = elim (Bool-cases (nat_eq.beq u w)) [
  | inl t ↦ inl ((nat_eq.beq_iff u w).0 t)
  | inr f ↦ inr (ground arith)
]

-- What waits behind a push waited before, or is a neighbour.
elem-pushed :
    (w : ℕ) (active seen vs stack : List ℕ)
    → elem w (push_all active seen vs stack) ≡ true
    → (elem w stack ≡ true) ⊎ (elem w vs ≡ true)
elem-pushed w active seen vs stack h = elim (Bool-cases (elem w stack)) [
  | inl t ↦ inl t
  | inr f ↦ inr (ground (arith, elem-push_all w active seen vs stack))
]

module _ (adjacency : List (List ℕ)) (active : List ℕ) (start : ℕ) where
  -- The loop's invariant: what was seen or waits and is active is reached; a neighbour of a node that
  -- was seen, and the start, was seen or waits.
  record Invariant (seen stack : List ℕ) : Type 0 where
    sound : (w : ℕ) → elem w seen ≡ true → Walk adjacency active start w
    waiting : (w : ℕ) → elem w stack ≡ true → elem w active ≡ true → Walk adjacency active start w
    closed :
        (u v : ℕ)
        → elem u seen ≡ true
        → elem v (neighbours adjacency u) ≡ true
        → elem v active ≡ true
        → (elem v seen || elem v stack) ≡ true
    started : elem start active ≡ true → (elem start seen || elem start stack) ≡ true
    distinct : IsDistinct seen

  first-Invariant : Invariant [] (start ∷ [])
  first-Invariant = record {
    sound = λ w h. absurd (cc);
    waiting = λ w h a. elim (elem-cons w start [] h) [
      | inl e ↦ subst (Walk adjacency active start) e (here (ap (λ x. elem x active) e ∙ a))
      | inr t ↦ absurd (cc)
    ];
    closed = λ u v h. absurd (cc);
    started = λ h. ground (arith, nat_eq.beq_iff start start);
    distinct = tt;
  }

  -- A node that was seen, or is not active, leaves the stack.
  skip-Invariant :
      (u : ℕ) (seen stack : List ℕ)
      → (elem u seen || not (elem u active)) ≡ true
      → Invariant seen (u ∷ stack)
      → Invariant seen stack
  skip-Invariant u seen stack skip h = record {
    sound = h.sound;
    waiting = λ w e a. h.waiting w (ground arith) a;
    closed = λ x v e n a. ground (arith, h.closed x v e n a, nat_eq.beq_iff u v);
    started = λ a. ground (arith, h.started a, nat_eq.beq_iff u start);
    distinct = h.distinct;
  }

  -- A new active node is seen, and its neighbours wait.
  take-Invariant :
      (u : ℕ) (seen stack : List ℕ)
      → (elem u seen || not (elem u active)) ≡ false
      → Invariant seen (u ∷ stack)
      → Invariant (u ∷ seen) (push_all active (u ∷ seen) (neighbours adjacency u) stack)
  take-Invariant u seen stack new h =
      let fresh : elem u seen ≡ false = ground arith in
      let live : elem u active ≡ true = ground arith in
      let reached : Walk adjacency active start u =
        h.waiting u (ground (arith, nat_eq.beq_iff u u)) live in
      let vs = neighbours adjacency u in
      record {
        sound = λ w e. elim (elem-cons w u seen e) [
          | inl same ↦ subst (Walk adjacency active start) same reached
          | inr old ↦ h.sound w old
        ];
        waiting = λ w e a. elim (elem-pushed w active (u ∷ seen) vs stack e) [
          | inl old ↦ h.waiting w (ground arith) a
          | inr near ↦ next reached near a
        ];
        closed = λ x v e n a. elim (elem-cons x u seen e) [
          | inl same ↦
              let near : elem v vs ≡ true = ap (λ y. elem v (neighbours adjacency y)) same ∙ n in
              ground (arith, elem-push_all v active (u ∷ seen) vs stack)
          | inr old ↦
              ground (arith, h.closed x v old n a, elem-push_all v active (u ∷ seen) vs stack)
        ];
        started = λ a. ground (arith, h.started a, elem-push_all start active (u ∷ seen) vs stack);
        distinct = (fresh, h.distinct);
      }

  -- With fuel for what waits and what is yet to be pushed, the loop ends with an empty stack.
  visit-Invariant :
      (fuel : ℕ) (seen stack : List ℕ)
      → length stack + unpushed adjacency seen active < fuel
      → Invariant seen stack
      → (out : List ℕ) × (visit fuel adjacency active seen stack ≡ some out) × Invariant out []
  unfolding visit
  visit-Invariant zero seen stack enough h = absurd (omega arith)
  visit-Invariant (suc fuel) seen [] enough h = (seen, refl, h)
  visit-Invariant (suc fuel) seen (u ∷ stack) enough h =
      elim (Bool-cases (elem u seen || not (elem u active))) [
        | inl skip ↦
            rw (skip, visit)
              (visit-Invariant fuel seen stack (omega arith) (skip-Invariant u seen stack skip h))
        | inr new ↦
            let grows = length-push_all active (u ∷ seen) (neighbours adjacency u) stack in
            let falls = unpushed-seen adjacency u seen active (ground arith) (ground arith) in
            rw (new, visit)
              (visit-Invariant fuel (u ∷ seen)
                (push_all active (u ∷ seen) (neighbours adjacency u) stack) (omega arith)
                (take-Invariant u seen stack new h))
      ]

  Walk-seen :
      {v : ℕ} (out : List ℕ) → Invariant out [] → Walk adjacency active start v → elem v out ≡ true
  Walk-seen out h (here a) = ground (arith, h.started a)
  Walk-seen out h (next {u = u} {v = v} w near a) =
      ground (arith, h.closed u v (Walk-seen out h w) near a)

  -- The search ends, and has seen each node that a walk over active nodes reaches, once, and no other.
  pub seen_from-Walk :
      (out : List ℕ) × (seen_from adjacency active start ≡ some out)
      × IsDistinct out
      × ((v : ℕ) → (elem v out ≡ true) ↔ Walk adjacency active start v)
  unfolding seen_from
  seen_from-Walk =
      let (out, ran, h) =
        visit-Invariant (unpushed adjacency [] active + 2) [] (start ∷ []) (omega arith)
          first-Invariant in
      (out, ran, h.distinct, λ v. (h.sound v, λ w. Walk-seen out h w))
