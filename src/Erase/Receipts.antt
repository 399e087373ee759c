-- ===== src/Erase/Receipts.antt =====
-- What a receipt of `ErasureService.delete` (integrations/erase_service.py) certifies.
use mathlib.Core.List.{append_assoc, append-nil}
use unlearning.Prelude.{
  ℕ, ◌+◌, ◌≤◌, ◌≡◌, refl, sym, ap, ◌∙◌, Bool, true, ◌↔◌, List, [], ◌∷◌, ◌++◌, arith, length,
  length-append, Bool-cases, Option-cases, Result-cases, inl, inr, Str, Result, ok, raise,
}
use unlearning.Policy.{Policy}
use unlearning.Registry.Ops.{Registry}
use unlearning.Strategy.{CompactMode}
use unlearning.Erase.Types.{
  Deps, Receipt, ReceiptStatus, complete, partial, failed, ProofMode, ProofSummary, Metric,
}
use unlearning.Erase.Status.{derive_status}
use unlearning.Erase.Complete.{IsComplete, derive_status-complete_iff}
use unlearning.Erase.Batch.{Progress, erase_all}
use unlearning.Erase.Compaction.{
  Plan, Rebuilt, note_batch, plan_compact, run_compact, after_compact, no_method_text,
}
use unlearning.Erase.Loop.{erase_all-Tally}
use unlearning.Erase.Accounts.{Accounts}
use unlearning.Erase.Accounted.{erase_all-AllAdded}
use unlearning.Erase.Service.{
  Request, Ambient, Service, clean_ids, choose_compact, choose_proof, index_size, need_originals,
  start, proof_errors, make_receipt, sign, log_receipt, finish, after_proofs, after_batch,
  after_loop, delete, is_complete,
}

module _ (deps : Deps) (req : Request) (amb : Ambient) where
  -- Where a receipt comes from: the loop that ended, the compact step and the proofs.
  pub record Origin (s : Service deps) (receipt : Receipt) (s' : Service deps) : Type 0 where
    pub p : Progress deps
    pub looped :
        erase_all deps req.collection req.max_m req.idempotent
          (need_originals deps (choose_proof deps req.residual_proof))
          (clean_ids req.ids)
          (start deps s
            (choose_compact deps req.compact (length (clean_ids req.ids)) (
              index_size deps req.collection s.registry s.world
                (length (clean_ids req.ids)))).notes)
        ≡ (ok tt, p)
    pub deferred : Bool
    pub built : Rebuilt deps
    pub more : List Str
    pub kept : built.errors ≡ p.errors ++ more
    pub summary : ProofSummary
    pub made :
        receipt
        ≡ sign deps (
            make_receipt deps req amb
              (clean_ids req.ids)
              (choose_proof deps req.residual_proof)
              deferred
              p
              built
              summary)
    pub registry : s'.registry ≡ p.registry
    pub policy : s'.policy ≡ built.policy

  finish-ok :
      (r : Receipt) (registry : Registry) (built : Rebuilt deps) (metrics : List Metric)
      {receipt : Receipt} {s' : Service deps}
      → finish deps r registry built metrics ≡ (ok receipt, s')
      → (receipt ≡ r) × (s'.registry ≡ registry) × (s'.policy ≡ built.policy)
  unfolding finish
  finish-ok r registry built metrics h = elim (Result-cases (log_receipt deps r built.world).0) [
    | inr (x, e) ↦ absurd (cc (ap (λ m. m.0) (rw (e, finish) at h)))
    | inl (u, e) ↦
        let h' = rw (e, finish) at h in
        (
          sym (cc (ap (λ m. m.0) h')),
          sym (ap (λ m. m.1.registry) h'),
          sym (ap (λ m. m.1.policy) h'),
        )
  ]

  errors-after_compact :
      (pl : Plan) (policy : Policy) (messages errors : List Str) (r : Result ℕ × deps.World)
      → (more : List Str) × ((after_compact deps pl policy messages errors r).errors
          ≡ errors ++ more)
  unfolding after_compact
  errors-after_compact pl policy messages errors (ok n, world) = ([], sym (append-nil errors))
  errors-after_compact pl policy messages errors (raise x, world) = (_, refl)

  -- The compact step adds to the errors of the loop.
  errors-run_compact :
      (pl : Plan) (world : deps.World) (policy : Policy) (messages errors : List Str)
      → (more : List Str) × ((run_compact deps pl world policy messages errors).errors
          ≡ errors ++ more)
  unfolding run_compact
  errors-run_compact pl world policy messages errors = elim (Bool-cases pl.should_compact) [
    | inr no_compact ↦ rw (no_compact, run_compact) ([], sym (append-nil errors))
    | inl wanted ↦ elim (Option-cases deps.compact) [
      | inl e ↦ rw (wanted, e, run_compact) (no_method_text deps ∷ [], refl)
      | inr (compact, e) ↦
          rw (wanted, e, run_compact)
            (errors-after_compact pl policy messages errors (compact world))
    ]
  ]

  after_proofs-ok :
      (exts : List Str) (mode : ProofMode) (deferred : Bool) (metrics : List Metric)
      (p : Progress deps) (built : Rebuilt deps) (m : Result ProofSummary) {receipt : Receipt}
      {s' : Service deps}
      → after_proofs deps req amb exts mode deferred metrics p built m ≡ (ok receipt, s')
      → (summary : ProofSummary) × (receipt
          ≡ sign deps (make_receipt deps req amb exts mode deferred p built summary))
        × (s'.registry ≡ p.registry)
        × (s'.policy ≡ built.policy)
  unfolding after_proofs
  after_proofs-ok exts mode deferred metrics p built (raise x) h = absurd (cc (ap (λ m. m.0) h))
  after_proofs-ok exts mode deferred metrics p built (ok summary) h =
      let made =
        finish-ok (sign deps (make_receipt deps req amb exts mode deferred p built summary))
          p.registry built _ h in
      (summary, made.0, made.1, made.2)

  after_loop-ok :
      (exts : List Str) (compact_mode : CompactMode) (mode : ProofMode) (policy : Policy)
      (metrics : List Metric) (r : Result (Unit {0}) × Progress deps) {receipt : Receipt}
      {s' : Service deps}
      → after_loop deps req amb exts compact_mode mode policy metrics r ≡ (ok receipt, s')
      → (p : Progress deps) × (r ≡ (ok tt, p))
        × (after_batch deps req amb exts compact_mode mode policy metrics p ≡ (ok receipt, s'))
  unfolding after_loop
  after_loop-ok exts compact_mode mode policy metrics (raise x, p) h = absurd (cc (ap (λ m. m.0) h))
  after_loop-ok exts compact_mode mode policy metrics (ok u, p) h = (p, refl, h)

  delete-Origin :
      (s : Service deps) {receipt : Receipt} {s' : Service deps}
      → delete deps req amb s ≡ (ok receipt, s')
      → Origin s receipt s'
  unfolding delete after_batch
  delete-Origin s {receipt} {s'} h =
      let (p, looped, rest) =
        after_loop-ok (clean_ids req.ids) _ (choose_proof deps req.residual_proof) s.policy
          s.metrics _ h in
      let noted = note_batch deps amb.tick p.labels s.policy in
      let pl = plan_compact deps amb.tick' p.labels _ noted in
      let built = run_compact deps pl p.world noted p.messages p.errors in
      let (more, kept) = errors-run_compact pl p.world noted p.messages p.errors in
      let (summary, made, registry, policy) =
        after_proofs-ok (clean_ids req.ids) (choose_proof deps req.residual_proof) pl.deferred
          s.metrics p built _ rest in
      record {
        p = p;
        looped = looped;
        deferred = pl.deferred;
        built = built;
        more = more;
        kept = kept;
        summary = summary;
        made = made;
        registry = registry;
        policy = policy;
      }

  -- The fields of a receipt that its status goes by.
  receipt-fields :
      (s : Service deps) {receipt : Receipt} {s' : Service deps} (o : Origin s receipt s')
      → (receipt.external_ids ≡ clean_ids req.ids)
        × (receipt.labels ≡ o.p.labels)
        × (receipt.errors
            ≡ o.built.errors ++ proof_errors deps (choose_proof deps req.residual_proof) o.summary)
        × (receipt.residual_proof ≡ o.summary)
        × (receipt.status
            ≡ derive_status
                (length (clean_ids req.ids))
                (length o.p.labels)
                (o.built.errors
                  ++ proof_errors deps (choose_proof deps req.residual_proof) o.summary)
                (choose_proof deps req.residual_proof)
                o.summary.passed
                o.deferred)
        × (receipt.success ≡ is_complete deps receipt.status)
  unfolding sign make_receipt
  receipt-fields s {receipt} o = (
    ap (λ r. r.external_ids) o.made,
    ap (λ r. r.labels) o.made,
    ap (λ r. r.errors) o.made,
    ap (λ r. r.residual_proof) o.made,
    ap (λ r. r.status) o.made,
    ap (λ r. r.success) o.made ∙ sym (ap (λ r. is_complete deps r.status) o.made),
  )

  is_complete_iff : (status : ReceiptStatus) → is_complete deps status ≡ true → status ≡ complete
  is_complete_iff complete h = refl
  is_complete_iff partial h = absurd (cc)
  is_complete_iff failed h = absurd (cc)

  -- A receipt that is returned lists the ids of the request, stripped and without the blank
  -- ones. Its labels, and the errors it begins with, are those of the ids in their turn: for each id the
  -- label that the id has in the registry at the start, or an error about that id, or both; the errors
  -- behind these are not of the loop. So it has at most as many labels as ids, and at least as many
  -- labels and errors together.
  pub delete-Accounts :
      (s : Service deps) {receipt : Receipt} {s' : Service deps}
      → delete deps req amb s ≡ (ok receipt, s')
      → (receipt.external_ids ≡ clean_ids req.ids)
        × (length receipt.labels ≤ length receipt.external_ids)
        × (length receipt.external_ids ≤ length receipt.labels + length receipt.errors)
        × ((errors : List Str) × (others : List Str) × (receipt.errors ≡ errors ++ others)
            × Accounts deps req.collection s.registry receipt.external_ids receipt.labels errors)
  delete-Accounts s {receipt} h =
      let o = delete-Origin s h in
      let fields = receipt-fields s o in
      let tally =
        erase_all-Tally deps req.collection req.max_m req.idempotent _ (clean_ids req.ids) _
          o.looped in
      let added =
        erase_all-AllAdded deps req.collection s.registry req.max_m req.idempotent _
          (clean_ids req.ids) _ (λ c e l h. h) o.looped in
      let proofs = proof_errors deps (choose_proof deps req.residual_proof) o.summary in
      let ids = ap length fields.0 in
      let ls = ap length fields.1 in
      let es = ap length fields.2 in
      let sum = length-append o.built.errors proofs in
      let kept = ap length o.kept ∙ length-append o.p.errors o.more in
      let same_errors : receipt.errors ≡ added.es ++ (o.more ++ proofs) =
        fields.2
        ∙ ap (λ e. e ++ proofs) (o.kept ∙ ap (λ e. e ++ o.more) added.adds.errors)
        ∙ append_assoc added.es o.more proofs in
      (
        fields.0,
        omega (arith, tally.most),
        omega (arith, tally.least),
        (
          added.es,
          o.more ++ proofs,
          same_errors,
          rw (fields.0, fields.1, added.adds.labels) added.accounts,
        ),
      )

  -- A receipt that is returned says success exactly if it has no ids, or as many labels as ids,
  -- no error, and a residual proof that passed unless proofs were off.
  pub delete-success :
      (s : Service deps) {receipt : Receipt} {s' : Service deps}
      → delete deps req amb s ≡ (ok receipt, s')
      → (receipt.success ≡ true)
        ↔ IsComplete
            (length receipt.external_ids)
            (length receipt.labels)
            receipt.errors
            (choose_proof deps req.residual_proof)
            receipt.residual_proof.passed
  delete-success s {receipt} h =
      let o = delete-Origin s h in
      let f = receipt-fields s o in
      let mode = choose_proof deps req.residual_proof in
      let iff =
        derive_status-complete_iff (length receipt.external_ids) (length receipt.labels)
          receipt.errors mode receipt.residual_proof.passed o.deferred in
      let status : receipt.status
          ≡ derive_status (length receipt.external_ids) (length receipt.labels) receipt.errors mode
              receipt.residual_proof.passed o.deferred =
        rw (f.0, f.1, f.2, f.3) f.4 in
      (
        λ h. iff.0 (sym status ∙ is_complete_iff receipt.status (sym f.5 ∙ h)),
        λ c. f.5 ∙ ap (is_complete deps) (status ∙ iff.1 c),
      )
