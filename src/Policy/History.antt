-- ===== src/Policy/History.antt =====
-- The compact policy against the history of its calls: what it counts, and how long a delete can
-- wait for a rebuild.
use unlearning.Prelude.{
  ℕ, ◌+◌, ◌≤◌, ◌<◌, ◌≡◌, refl, ◌⊎◌, ◌↔◌, ◌&&◌, ltb, leb, ◌∙◌, true, false, Option, none, some, List,
  [], ◌∷◌, arith, ◌==◌, if◌then◌else◌,
}
use unlearning.Policy.{
  Policy, coalesce, note_deletes, decide, mark_compacted, age_of, decision, no_pending, by_every_n,
  by_max_age, waiting,
}

-- A call that changes the policy: `n` deletes noted at a time, or a rebuild.
pub data Call : Type 0 where
  note : ℕ → ℕ → Call
  mark : Call

unfoldable pub apply : Call → Policy → Policy
apply (note n now) p = note_deletes n now p
apply mark p = mark_compacted p

-- The calls in order, the last one first.
unfoldable pub run : List Call → Policy → Policy
unfolding apply
run [] p = p
run (c ∷ cs) p = apply c (run cs p)

-- The deletes that no rebuild has followed.
unfoldable pub unbuilt : List Call → ℕ
unbuilt [] = 0
unbuilt (note n now ∷ cs) = unbuilt cs + n
unbuilt (mark ∷ cs) = 0

-- The time of the oldest of them.
unfoldable pub oldest : List Call → Option ℕ
oldest [] = none
oldest (note n now ∷ cs) = elim (oldest cs) [
  | some t ↦ some t
  | none ↦ if n == 0 then none else some now
]
oldest (mark ∷ cs) = none

abbrev pub IsFresh : Policy → Type 0
IsFresh p = (p.pending ≡ 0) × (p.first_pending ≡ none)

coalesce_iff :
    (count every age old : ℕ)
    → ((if count == 0
          then decision false no_pending 0
          else if leb every count
          then decision true by_every_n count
          else if ltb 0 age && leb age old
          then decision true by_max_age count
          else decision false waiting count).should_compact
        ≡ true)
      ↔ ((0 < count) × ((every ≤ count) ⊎ ((0 < age) × (age ≤ old))))
coalesce_iff count every age old = (λ h. ground arith, λ h. ground arith)

decide-coalesce :
    (now : ℕ) (q : Policy) (count : ℕ) (first : Option ℕ) (every age : ℕ)
    → q.mode ≡ coalesce
    → q.pending ≡ count
    → q.first_pending ≡ first
    → q.every_n ≡ every
    → q.max_age ≡ age
    → ((decide false now q).should_compact ≡ true)
      ↔ ((0 < count) × ((every ≤ count) ⊎ ((0 < age) × (age ≤ age_of first now))))
unfolding decide
decide-coalesce now q count first every age m a b c d =
    rw (← a, ← b, ← c, ← d)
      (rw (m, decide) (coalesce_iff q.pending q.every_n q.max_age (age_of q.first_pending now)))

record Tracks (cs : List Call) (p q : Policy) : Type 0 where
  pub counted : q.pending ≡ unbuilt cs
  pub timed : q.first_pending ≡ oldest cs
  pub empty_none : unbuilt cs ≡ 0 → oldest cs ≡ none
  pub none_empty : oldest cs ≡ none → unbuilt cs ≡ 0
  pub same : (q.mode ≡ p.mode) × (q.every_n ≡ p.every_n) × (q.max_age ≡ p.max_age)

run-Tracks : (cs : List Call) (p : Policy) → IsFresh p → Tracks cs p (run cs p)
unfolding run unbuilt oldest note_deletes mark_compacted
run-Tracks [] p h = record {
  counted = h.0;
  timed = h.1;
  empty_none = λ e. refl;
  none_empty = λ e. refl;
  same = (refl, refl, refl);
}
run-Tracks (mark ∷ cs) p h =
    let ih = run-Tracks cs p h in
    record {
      counted = refl;
      timed = refl;
      empty_none = λ e. refl;
      none_empty = λ e. refl;
      same = ih.same;
    }
run-Tracks (note n now ∷ cs) p h =
    let ih = run-Tracks cs p h in
    record {
      counted = ground (arith, ih.counted);
      timed = ground (arith, ih.counted, ih.timed, ih.empty_none, ih.none_empty);
      empty_none = λ e. ground (arith, ih.empty_none);
      none_empty = λ e. ground (arith, ih.none_empty);
      same = ground (arith, ih.same);
    }

-- Whatever was noted and rebuilt since the policy was made: it counts exactly the deletes since the
-- last rebuild, and keeps the time of the first of them.
pub run-pending :
    (cs : List Call) (p : Policy)
    → IsFresh p
    → ((run cs p).pending ≡ unbuilt cs) × ((run cs p).first_pending ≡ oldest cs)
run-pending cs p h = let t = run-Tracks cs p h in (t.counted, t.timed)

-- In coalesce mode a policy that was made without pending deletes asks for a rebuild exactly when there are deletes without one and
-- they are `every_n` or more, or the age limit is set and the oldest has reached it.
pub decide-run :
    (cs : List Call) (p : Policy) (now : ℕ)
    → IsFresh p
    → p.mode ≡ coalesce
    → ((decide false now (run cs p)).should_compact ≡ true) ↔ (
        (0 < unbuilt cs)
        × ((p.every_n ≤ unbuilt cs) ⊎ ((0 < p.max_age) × (p.max_age ≤ age_of (oldest cs) now))))
decide-run cs p now h m =
    let t = run-Tracks cs p h in
    decide-coalesce now (run cs p) (unbuilt cs) (oldest cs) p.every_n p.max_age (t.same.0 ∙ m)
      t.counted t.timed t.same.1 t.same.2
