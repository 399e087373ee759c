-- ===== src/Policy/Tests.antt =====
-- Instances for integrations/compact_policy.py.
use unlearning.Prelude.{◌≤◌, ◌<◌, ◌≡◌, refl, ◌↔◌, ◌⊎◌, true, false, List, [], ◌∷◌}
use unlearning.Policy.{Policy, coalesce, new_policy, decide, age_of}
use unlearning.Policy.History.{Call, note, mark, run, unbuilt, oldest, decide-run}

abbrev calls : List Call
calls = note 3 90 ∷ note 2 70 ∷ mark ∷ note 5 10 ∷ []

abbrev coalescing : Policy
coalescing = new_policy coalesce 32 60

-- Five deletes wait, the oldest since 70.
calls-run : (unbuilt calls ≡ 5) × ((decide false 131 (run calls coalescing)).should_compact ≡ true)
unfolding unbuilt run decide unlearning.Policy.note_deletes unlearning.Policy.mark_compacted
calls-run = (refl, refl)

decide-run_example :
    ((decide false 131 (run calls coalescing)).should_compact ≡ true)
    ↔ ((0 < unbuilt calls) × ((32 ≤ unbuilt calls) ⊎ ((0 < 60) × (60 ≤ age_of (oldest calls) 131))))
decide-run_example = decide-run calls coalescing 131 (refl, refl) refl
