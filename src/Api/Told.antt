-- ===== src/Api/Told.antt =====
-- What the replies of `enterprise_delete` and `replica_delete_intent` (api/main.py) tell of the call of
-- `delete` behind them.
use unlearning.Prelude.{
  ℕ, ◌≡◌, ◌≢◌, ◌↔◌, ◌⊎◌, inl, inr, refl, ap, ◌∙◌, Bool, true, false, Option, none, some, length,
  Bool-cases, Str, Exn, id_mapping_error, Result, ok, raise,
}
use unlearning.Registry.Ops.{Registry}
use unlearning.Strategy.{CompactMode}
use unlearning.Replica.{DeleteIntent}
use unlearning.Erase.Types.{Deps, Receipt}
use unlearning.Erase.Complete.{IsComplete}
use unlearning.Erase.Service.{Request, Ambient, Service, choose_proof, delete}
use unlearning.Erase.Receipts.{delete-success}
use unlearning.Api.{Reply, answer, uncaught, http_error}
use unlearning.Api.Deletes.{
  EnterpriseDeleteRequest, CompactArg, proof_arg, compact_mode, intent_args, IntentReply,
  intent_reply, replica_delete_intent,
}

-- `is_loaded` asks the native index, `is_contention` tells a `LockContentionError`, `repr` is Python's.
module _ (deps : Deps) (is_loaded : deps.World → Bool) (is_contention : Exn → Bool)
    (save_registry : Registry → deps.World → Result (Unit {0}) × deps.World)
    (repr : Str → Str) where
  abbrev pub is_mapping_error : Exn → Bool
  is_mapping_error (id_mapping_error p) = true
  is_mapping_error x = false

  -- The code for an exception: an id that is not known, a lock that is contended, any other.
  abbrev pub IsCodeOf : Exn → ℕ → Type 0
  IsCodeOf x code =
      ((is_mapping_error x ≡ true) × (code ≡ 404))
      ⊎ (((is_mapping_error x ≡ false) × (is_contention x ≡ true) × (code ≡ 503))
          ⊎ ((is_mapping_error x ≡ false) × (is_contention x ≡ false) × (code ≡ 500)))

  -- The guards of the handler let `delete` be called.
  abbrev pub Admits : Str → EnterpriseDeleteRequest → Service deps → Type 0
  Admits collection body s = (body.collection ≡ collection) × (is_loaded s.world ≡ true)

  abbrev pub SameMode : Option CompactArg → Option CompactMode → Type 0
  SameMode none m = m ≡ none
  SameMode (some arg) m =
      (mode : CompactMode) × (compact_mode deps is_loaded is_contention save_registry repr arg
        ≡ ok mode)
      × (m ≡ some mode)

  -- The service is asked for what the body says.
  pub record Asks (collection : Str) (body : EnterpriseDeleteRequest) (req : Request) : Type 0 where
    pub collection_of : req.collection ≡ collection
    pub ids : req.ids ≡ body.ids
    pub reason : req.reason ≡ body.reason
    pub request_id : req.request_id ≡ body.request_id
    pub max_m : req.max_m ≡ body.max_m
    pub idempotent : req.idempotent ≡ true
    pub compact : SameMode body.compact req.compact
    pub residual_proof : req.residual_proof ≡ proof_arg body.residual_proof
    pub checkpoint_path : req.checkpoint_path ≡ none

  -- What a call of `delete` with the body's arguments does: it is asked for what the body says, or it
  -- raises for the compact mode and changes nothing.
  abbrev pub Calls :
      Str
      → EnterpriseDeleteRequest
      → Ambient
      → Service deps
      → Result Receipt × Service deps
      → Type 0
  Calls collection body amb s p =
      ((req : Request) × Asks collection body req × (delete deps req amb s ≡ p))
      ⊎ ((arg : CompactArg) × (x : Exn) × (body.compact ≡ some arg)
          × (compact_mode deps is_loaded is_contention save_registry repr arg ≡ raise x)
          × (p ≡ (raise x, s)))

  -- What a reply tells of the call of `delete`.
  abbrev pub Tells :
      Str → EnterpriseDeleteRequest → Ambient → Service deps → Reply Receipt × Service deps → Type 0
  Tells collection body amb s (answer r, s') =
      Admits collection body s
      × ((t : Service deps) × Calls collection body amb s (ok r, t) × (s'.registry ≡ t.registry))
      × ((r.success ≡ true)
          ↔ IsComplete (length r.external_ids) (length r.labels) r.errors
              (choose_proof deps (proof_arg body.residual_proof)) r.residual_proof.passed)
  Tells collection body amb s (http_error e, s') =
      ((e.status_code ≡ 400) × (body.collection ≢ collection) × (s' ≡ s))
      ⊎ (((e.status_code ≡ 409)
            × (body.collection ≡ collection)
            × (is_loaded s.world ≡ false)
            × (s' ≡ s))
          ⊎ (Admits collection body s
              × ((x : Exn) × (t : Service deps) × Calls collection body amb s (raise x, t)
                  × IsCodeOf x e.status_code
                  × (s'.registry ≡ t.registry)
                  × (s'.world ≡ t.world))))
  Tells collection body amb s (uncaught x, s') =
      Admits collection body s
      × ((r : Receipt) × (t : Service deps) × Calls collection body amb s (ok r, t)
          × (s'.registry ≡ t.registry))

  -- A replica that answers an intent with success has made the delete, and the receipt is complete.
  pub replica_delete_intent-success :
      (intent : DeleteIntent) (amb : Ambient) (s : Service deps) {reply : IntentReply}
      {s' : Service deps}
      → replica_delete_intent deps is_loaded is_contention save_registry repr (ok intent) amb s
        ≡ (answer reply, s')
      → reply.success ≡ true
      → (r : Receipt) × (delete deps (intent_args intent) amb s ≡ (ok r, s'))
        × IsComplete
            (length r.external_ids)
            (length r.labels)
            r.errors
            (choose_proof deps none)
            r.residual_proof.passed
  unfolding replica_delete_intent
  replica_delete_intent-success intent amb s {reply} {s'} h success =
      elim (Bool-cases (is_loaded s.world)) [
        | inr f ↦ absurd (cc (rw (f, replica_delete_intent) at h))
        | inl l ↦
            replied (delete deps (intent_args intent) amb s) refl
              (rw (l, replica_delete_intent) at h)
      ]
    where
      replied :
          (p : Result Receipt × Service deps)
          → delete deps (intent_args intent) amb s ≡ p
          → intent_reply deps is_loaded is_contention save_registry repr intent p
            ≡ (answer reply, s')
          → (r : Receipt) × (delete deps (intent_args intent) amb s ≡ (ok r, s'))
            × IsComplete
                (length r.external_ids)
                (length r.labels)
                r.errors
                (choose_proof deps none)
                r.residual_proof.passed
      replied (raise x, t) q e =
          let failed : false ≡ reply.success = cc e in absurd (cc (failed ∙ success))
      replied (ok r, t) q e =
          let told : r.success ≡ reply.success = cc e in
          let left : t ≡ s' = cc e in
          let called : delete deps (intent_args intent) amb s ≡ (ok r, s') =
            q ∙ ap (λ (u : Service deps). (ok r, u)) left in
          (r, called, (delete-success deps (intent_args intent) amb s called).0 (told ∙ success))
