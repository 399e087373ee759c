-- ===== src/Replica.antt =====
-- integrations/replica_fanout.py: intents, workers, the two transports and the coordinator. The
-- sends of `publish` run in a thread pool; here they run one after the other, in the order in which
-- they complete, which is an argument. Latencies are left out. What a worker applies, and the HTTP
-- call, are parameters.
pub mod Quorum
mod Tests
use mathlib.Core.List.{reverse}
use unlearning.Prelude.{
  ℕ, zero, suc, ◌+◌, ◌/◌, Bool, true, false, Option, none, some, List, [], ◌∷◌, ◌++◌, length, leb,
  max, ◌==◌, if◌then◌else◌, Str, Exn, value_error, os_error, Result, ok, raise, ◌>>=◌,
}
use unlearning.Prelude.Dict.{Dict, get, put}
use unlearning.Prelude.Eq.{str_eq, elem}
use unlearning.Prelude.Text.{codes, is_empty}

pub record DeleteIntent : Type 0 where
  pub request_id : Str
  pub collection : Str
  pub external_ids : List Str
  pub reason : Option Str
  pub max_m : ℕ
  pub timestamp_unix_ns : ℕ

pub record ReplicaAck : Type 0 where
  pub replica_id : Str
  pub request_id : Str
  pub success : Bool
  pub message : Str

abbrev pub ack : Str → DeleteIntent → Bool → Str → ReplicaAck
ack replica_id intent success message = record {
  replica_id = replica_id;
  request_id = intent.request_id;
  success = success;
  message = message;
}

-- What the workers of one process share: the callbacks, by replica, and what they change.
pub record Site : Type 1 where
  pub World : Type 0
  -- `apply_fn(collection, ids, reason, max_m)` of a replica
  pub apply_fn : Str → Str → List Str → Option Str → ℕ → World → Result (Bool × Str) × World
  pub exn_text : Exn → Str

module _ (site : Site) where
  pub record ReplicaWorker : Type 0 where
    pub replica_id : Str
    pub seen : List Str
    pub world : site.World

  -- `self._seen.add(request_id)`
  abbrev pub add_seen : Str → List Str → List Str
  add_seen rid seen = if elem rid seen then seen else rid ∷ seen

  -- Behind the callback.
  unfoldable pub after_apply :
      DeleteIntent → ReplicaWorker → Result (Bool × Str) × site.World → ReplicaAck × ReplicaWorker
  after_apply intent w (ok (success, message), world) = (
    ack w.replica_id intent success message,
    record w {
      seen = if success then add_seen intent.request_id w.seen else w.seen;
      world = world;
    },
  )
  after_apply intent w (raise x, world) =
      (ack w.replica_id intent false (site.exn_text x), record w { world = world })

  unfoldable pub handle : DeleteIntent → ReplicaWorker → ReplicaAck × ReplicaWorker
  handle intent w =
      if elem intent.request_id w.seen
      then (ack w.replica_id intent true (codes "idempotent_replay"), w)
      else after_apply intent w (
          site.apply_fn w.replica_id intent.collection intent.external_ids intent.reason
            intent.max_m w.world)

  abbrev pub Workers : Type 0
  Workers = Dict Str ReplicaWorker

  -- `InProcessTransport.send`
  unfoldable pub send_in_process : Str → DeleteIntent → Workers → Result ReplicaAck × Workers
  send_in_process replica_id intent workers = elim (get replica_id workers) [
    | none ↦ (ok (ack replica_id intent false (codes "unknown replica " ++ replica_id)), workers)
    | some w ↦ let (a, w') = handle intent w in (ok a, put replica_id w' workers)
  ]

-- `base.rstrip("/")`
abbrev pub drop_slashes : Str → Str
drop_slashes [] = []
drop_slashes (c ∷ s) = if c == 47 then drop_slashes s else c ∷ s

abbrev pub rstrip_slashes : Str → Str
rstrip_slashes s = reverse (drop_slashes (reverse s))

-- `urlopen` and the reading of the body: its `success` and `message`.
pub record Network : Type 1 where
  pub World : Type 0
  pub post : Str → DeleteIntent → World → Result (Bool × Str) × World
  pub exn_text : Exn → Str

pub record Endpoints : Type 0 where
  pub urls : Dict Str Str
  pub path : Str

module _ (net : Network) where
  -- `URLError`, `HTTPError` and `TimeoutError` are kinds of `OSError`; others are the caller's.
  unfoldable pub after_post :
      Str → DeleteIntent → Result (Bool × Str) × net.World → Result ReplicaAck × net.World
  after_post replica_id intent (ok (success, message), world) =
      (ok (ack replica_id intent success message), world)
  after_post replica_id intent (raise (os_error text), world) =
      (ok (ack replica_id intent false (net.exn_text (os_error text))), world)
  after_post replica_id intent (raise (value_error text), world) =
      (ok (ack replica_id intent false (net.exn_text (value_error text))), world)
  after_post replica_id intent (raise x, world) = (raise x, world)

  abbrev pub base_url : Str → Endpoints → Str
  base_url replica_id e = elim (get replica_id e.urls) [ none ↦ [] | some base ↦ base ]

  -- `HttpReplicaTransport.send`
  unfoldable pub send_http :
      Endpoints → Str → DeleteIntent → net.World → Result ReplicaAck × net.World
  unfolding after_post
  send_http e replica_id intent world =
      if is_empty (base_url replica_id e)
      then (ok (ack replica_id intent false (codes "unknown replica endpoint")), world)
      else after_post replica_id intent
          (net.post (rstrip_slashes (base_url replica_id e) ++ e.path) intent world)

pub record FanoutResult : Type 0 where
  pub request_id : Str
  pub quorum : ℕ
  pub acks : List ReplicaAck
  pub quorum_met : Bool

-- `FanoutResult.successes`, and the count of `publish`
unfoldable pub successes : List ReplicaAck → ℕ
successes [] = 0
successes (a ∷ acks) = let rest = successes acks in if a.success then suc rest else rest

pub record Coordinator : Type 0 where
  pub replica_ids : List Str
  pub quorum : ℕ

abbrev pub majority : ℕ → ℕ
majority n = max 1 (suc (n / 2))

-- `__init__`
unfoldable pub new_coordinator : List Str → Option ℕ → Result Coordinator
new_coordinator [] quorum = raise (value_error (codes "replica_ids must be non-empty"))
new_coordinator (r ∷ rs) (some quorum) = ok (record { replica_ids = r ∷ rs; quorum = quorum })
new_coordinator (r ∷ rs) none =
    ok (record { replica_ids = r ∷ rs; quorum = majority (length (r ∷ rs)) })

module _ {S : Type 0} (send : Str → DeleteIntent → S → Result ReplicaAck × S) where
  -- The sends, in the order of their completion; every one runs, and an exception of one is raised
  -- when its future is read.
  unfoldable pub send_all : DeleteIntent → List Str → S → Result (List ReplicaAck) × S
  send_all intent [] s = (ok [], s)
  send_all intent (rid ∷ rids) s =
      let (a, s₁) = send rid intent s in
      let (rest, s₂) = send_all intent rids s₁ in
      ((do first ← a; others ← rest; ok (first ∷ others)), s₂)

  -- `publish`, given the intent and the order of completion
  unfoldable pub publish : Coordinator → DeleteIntent → List Str → S → Result FanoutResult × S
  publish c intent order s =
      let (acks, s') = send_all intent order s in
      (
        (do
          as_ ← acks
          ok (record {
            request_id = intent.request_id;
            quorum = c.quorum;
            acks = as_;
            quorum_met = leb c.quorum (successes as_);
          })),
        s',
      )

  unfoldable pub publish_after_local :
      Bool → Coordinator → DeleteIntent → List Str → S → Result FanoutResult × S
  publish_after_local false c intent order s = (
    ok (record {
      request_id = intent.request_id;
      quorum = c.quorum;
      acks = [];
      quorum_met = false;
    }),
    s,
  )
  publish_after_local true c intent order s = publish c intent order s
