-- ===== src/Replica/Tests.antt =====
-- A run of integrations/replica_fanout.py: three replicas, one of which refuses.
use mathlib.Core.List.{Permᴰ}
use mathlib.Core.List.Permᴰ.{swap}
use unlearning.Prelude.{
  ℕ, zero, suc, ◌≡◌, refl, ◌↔◌, ◌≤◌, arith, Bool, true, false, none, some, List, [], ◌∷◌, length,
  if◌then◌else◌, Str, Exn, ok, raise,
}
use unlearning.Prelude.Eq.{str_eq, str_beq}
use unlearning.Prelude.Text.{codes}
use unlearning.Replica.{
  DeleteIntent, Site, ReplicaWorker, Workers, FanoutResult, Coordinator, publish, send_in_process,
}
use unlearning.Replica.Quorum.{count_if, has_applied, publish-quorum_met}

-- The callbacks count their calls; that of the replica `c` refuses.
abbrev toy_site : Site
toy_site = record {
  World = ℕ;
  apply_fn = λ replica collection ids reason max_m n. (
    ok (if str_beq replica (codes "c") then (false, codes "offline") else (true, codes "ok")),
    suc n,
  );
  exn_text = λ x. codes "error";
}

abbrev worker : Str → ReplicaWorker toy_site
worker name = record { replica_id = name; seen = []; world = 0 }

abbrev workers : Workers toy_site
workers =
    (codes "a", worker (codes "a"))
    ∷ (codes "b", worker (codes "b"))
    ∷ (codes "c", worker (codes "c"))
    ∷ []

abbrev intent : DeleteIntent
intent = record {
  request_id = codes "r1";
  collection = codes "docs";
  external_ids = codes "alice" ∷ [];
  reason = none;
  max_m = 16;
  timestamp_unix_ns = 1;
}

abbrev team : Coordinator
team = record { replica_ids = codes "a" ∷ codes "b" ∷ codes "c" ∷ []; quorum = 2 }

-- The replica `b` answers first, then `a`, then `c`.
abbrev completed : List Str
completed = codes "b" ∷ codes "a" ∷ codes "c" ∷ []

completed-Permᴰ : Permᴰ completed team.replica_ids
completed-Permᴰ = swap refl refl

publish-quorum_met_example :
    (r : FanoutResult) × ((publish (send_in_process toy_site) team intent completed workers).0
      ≡ ok r)
    × (length r.acks ≡ length team.replica_ids)
    × ((r.quorum_met ≡ true) ↔ (
        team.quorum
        ≤ count_if
            (has_applied toy_site intent
              (publish (send_in_process toy_site) team intent completed workers).1)
            team.replica_ids))
publish-quorum_met_example =
    publish-quorum_met toy_site intent team completed workers (refl, (refl, (refl, tt)))
      completed-Permᴰ

program : Unit {0}
unfolding unlearning.Prelude.Dict.get unlearning.Prelude.Dict.put unlearning.Replica.after_apply
    unlearning.Replica.handle unlearning.Replica.send_in_process unlearning.Replica.send_all
    unlearning.Replica.successes unlearning.Replica.publish unlearning.Replica.Quorum.count_if
program = tt

applied_run :
    count_if
      (has_applied toy_site intent
        (publish (send_in_process toy_site) team intent completed workers).1)
      team.replica_ids
    ≡ 2
unfolding program
applied_run = refl
