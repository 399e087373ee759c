-- ===== src/Replica/Quorum.antt =====
-- What the quorum of a fan-out over `InProcessTransport` says of the workers
-- (integrations/replica_fanout.py).
use mathlib.Core.List.{Permᴰ}
use mathlib.Core.List.Permᴰ.{nil, cons, swap, trans}
use unlearning.Prelude.{
  ℕ, suc, ◌≤◌, ◌≡◌, refl, sym, ap, ◌∙◌, ◌↔◌, Bool, true, false, none, some, List, [], ◌∷◌, arith,
  length, leb, if◌then◌else◌, Bool-cases, Option-cases, inl, inr, Str, Result, ok, raise,
}
use unlearning.Prelude.Dict.{get, put, get-put}
use unlearning.Prelude.Eq.{str_eq, str_beq, str_beq_iff, elem, IsDistinct}
use unlearning.Replica.{
  DeleteIntent, ReplicaAck, Site, ReplicaWorker, add_seen, after_apply, handle, Workers,
  send_in_process, FanoutResult, successes, Coordinator, send_all, publish,
}

-- How many elements pass.
unfoldable pub count_if : (Str → Bool) → List Str → ℕ
count_if p [] = 0
count_if p (x ∷ xs) = let rest = count_if p xs in if p x then suc rest else rest

count_if-Permᴰ : (p : Str → Bool) {xs ys : List Str} → Permᴰ xs ys → count_if p xs ≡ count_if p ys
unfolding count_if
count_if-Permᴰ p nil = refl
count_if-Permᴰ p (cons e d) = let ih = count_if-Permᴰ p d in ground (arith, ap p e)
count_if-Permᴰ p (swap e f) = ground (arith, ap p e, ap p f)
count_if-Permᴰ p (trans c d) = count_if-Permᴰ p c ∙ count_if-Permᴰ p d

length-Permᴰ : {xs ys : List Str} → Permᴰ xs ys → length xs ≡ length ys
length-Permᴰ nil = refl
length-Permᴰ (cons e d) = ap suc (length-Permᴰ d)
length-Permᴰ (swap e f) = refl
length-Permᴰ (trans c d) = length-Permᴰ c ∙ length-Permᴰ d

module _ (site : Site) (intent : DeleteIntent) where
  -- Whether the worker of a replica has applied the request.
  abbrev pub has_applied : Workers site → Str → Bool
  has_applied ws rid = elim (get rid ws) [ none ↦ false | some w ↦ elem intent.request_id w.seen ]

  elem-add_seen : (rid : Str) (seen : List Str) → elem rid (add_seen site rid seen) ≡ true
  elem-add_seen rid seen = ground (arith, str_beq_iff rid rid)

  handle-success :
      (w : ReplicaWorker site)
      → (handle site intent w).0.success ≡ elem intent.request_id (handle site intent w).1.seen
  unfolding handle after_apply
  handle-success w = elim (Bool-cases (elem intent.request_id w.seen)) [
    | inl t ↦ rw (t, handle) (sym t)
    | inr f ↦
        rw (f, handle)
          (applied f (
            site.apply_fn w.replica_id intent.collection intent.external_ids intent.reason
              intent.max_m w.world))
  ]
    where
      applied :
          elem intent.request_id w.seen ≡ false
          → (m : Result (Bool × Str) × site.World)
          → (after_apply site intent w m).0.success
            ≡ elem intent.request_id (after_apply site intent w m).1.seen
      applied f (ok (true, message), world) = sym (elem-add_seen intent.request_id w.seen)
      applied f (ok (false, message), world) = sym f
      applied f (raise x, world) = sym f

  -- One send: its acknowledgement says whether the replica has applied the request now.
  record Sent (rid : Str) (ws : Workers site) (m : Result ReplicaAck × Workers site) : Type 0 where
    a : ReplicaAck
    returned : m.0 ≡ ok a
    success : a.success ≡ has_applied m.1 rid
    others : (j : Str) → str_beq rid j ≡ false → get j m.1 ≡ get j ws

  send-Sent : (rid : Str) (ws : Workers site) → Sent rid ws (send_in_process site rid intent ws)
  unfolding send_in_process
  send-Sent rid ws = elim (Option-cases (get rid ws)) [
    | inl e ↦
        rw (e, send_in_process)
          (record {
            a = _;
            returned = refl;
            success =
                sym (ap (λ o. elim o [ none ↦ false | some w ↦ elem intent.request_id w.seen ]) e);
            others = λ j other. refl;
          })
    | inr (w, e) ↦
        let after : get rid (put rid (handle site intent w).1 ws) ≡ some (handle site intent w).1 =
          get-put rid rid (handle site intent w).1 ws ∙ rw ((str_beq_iff rid rid).1 refl) refl in
        rw (e, send_in_process)
          (record {
            a = (handle site intent w).0;
            returned = refl;
            success =
                handle-success w
                ∙ sym (
                    ap (λ o. elim o [ none ↦ false | some w ↦ elem intent.request_id w.seen ])
                      after);
            others = λ j other. get-put rid j (handle site intent w).1 ws ∙ rw other refl;
          })
  ]

  abbrev pub sends : List Str → Workers site → Result (List ReplicaAck) × Workers site
  sends = send_all (send_in_process site) intent

  -- Sends to other replicas leave a worker alone.
  get-sends :
      (rids : List Str) (ws : Workers site) (j : Str)
      → elem j rids ≡ false
      → get j (sends rids ws).1 ≡ get j ws
  unfolding send_all
  get-sends [] ws j h = refl
  get-sends (rid ∷ rids) ws j h =
      get-sends rids (send_in_process site rid intent ws).1 j (ground arith)
      ∙ (send-Sent rid ws).others j (ground arith)

  has_applied-eq :
      (j : Str) (v w : Workers site) → get j v ≡ get j w → has_applied v j ≡ has_applied w j
  has_applied-eq j v w e =
      ap (λ o. elim o [ none ↦ false | some w ↦ elem intent.request_id w.seen ]) e

  record Sends (rids : List Str) (m : Result (List ReplicaAck) × Workers site) : Type 0 where
    acks : List ReplicaAck
    returned : m.0 ≡ ok acks
    counted : successes acks ≡ count_if (has_applied m.1) rids
    all_of_them : length acks ≡ length rids

  sends-Sends : (rids : List Str) (ws : Workers site) → IsDistinct rids → Sends rids (sends rids ws)
  unfolding send_all count_if successes
  sends-Sends [] ws d = record { acks = []; returned = refl; counted = refl; all_of_them = refl }
  sends-Sends (rid ∷ rids) ws d =
      let one = send-Sent rid ws in
      let ws₁ = (send_in_process site rid intent ws).1 in
      let rest = sends-Sends rids ws₁ d.1 in
      let kept = has_applied-eq rid (sends rids ws₁).1 ws₁ (get-sends rids ws₁ rid d.0) in
      record {
        acks = one.a ∷ rest.acks;
        returned = rw (one.returned, rest.returned) refl;
        counted = rw (rest.counted, one.success, kept) refl;
        all_of_them = ap suc rest.all_of_them;
      }

  -- A fan-out to distinct workers of the same process, over `InProcessTransport` and not over HTTP,
  -- returns, in whatever order its sends complete: there is one acknowledgement for each worker, and
  -- the quorum is met exactly if at least as many workers as it asks for have applied the request now.
  pub publish-quorum_met :
      (c : Coordinator) (order : List Str) (ws : Workers site)
      → IsDistinct order
      → Permᴰ order c.replica_ids
      → (r : FanoutResult) × ((publish (send_in_process site) c intent order ws).0 ≡ ok r)
        × (length r.acks ≡ length c.replica_ids)
        × ((r.quorum_met ≡ true) ↔ (
            c.quorum
            ≤ count_if
                (has_applied (publish (send_in_process site) c intent order ws).1)
                c.replica_ids))
  unfolding publish
  publish-quorum_met c order ws d perm =
      let s = sends-Sends order ws d in
      let count = s.counted ∙ count_if-Permᴰ (has_applied (sends order ws).1) perm in
      (
        record {
          request_id = intent.request_id;
          quorum = c.quorum;
          acks = s.acks;
          quorum_met = leb c.quorum (successes s.acks);
        },
        rw (s.returned) refl,
        s.all_of_them ∙ length-Permᴰ perm,
        rw count (leb_iff c.quorum (count_if (has_applied (sends order ws).1) c.replica_ids)),
      )
    where
      leb_iff : (a b : ℕ) → (leb a b ≡ true) ↔ (a ≤ b)
      leb_iff a b = ground arith
