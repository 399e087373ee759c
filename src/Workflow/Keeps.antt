-- ===== src/Workflow/Keeps.antt =====
-- A ticket through the steps of the runner, and the store of tickets through its calls
-- (integrations/workflow.py).
use unlearning.Prelude.{
  ℕ, suc, ◌≡◌, ◌≢◌, refl, ap, ◌∙◌, inl, inr, Bool, true, false, not, Option, none, some, subst,
  if◌then◌else◌, Bool-cases, Option-cases, Str, Result, ok, raise,
}
use unlearning.Prelude.Dict.{get, put, get-put}
use unlearning.Prelude.Eq.{str_eq, str_beq, str_beq_iff}
use unlearning.Prelude.Text.{codes}
use unlearning.Erase.Types.{Receipt, ProofMode, off, sample, full, unknown_mode}
use unlearning.Workflow.{
  StepStatus, skipped, is_done, ErasureStep, live_hard_delete, residual_proof, ErasureWorkflow,
  step, Surfaces,
}
use unlearning.Workflow.Runner.{
  Run, Outcome, with_step, stamp, after_delete, live_delete, mirror_proof, mirror_step, after_hook,
  no_hook, optional_step,
}
use unlearning.Workflow.Closed.{Has, SameOrder}

module _ (sf : Surfaces) where
  -- What a step of the runner does to a ticket: its own entry gets a status with `P`, all else stays.
  pub record Touches (P : StepStatus → Type 0) (name : Str) (v w : ErasureWorkflow sf.H)
      : Type 0 where
    pub own : Has P name w
    pub others : (j : Str) → str_beq name j ≡ false → get j w.steps ≡ get j v.steps
    pub order : SameOrder v w

  put-Touches :
      (P : StepStatus → Type 0) (name : Str) (v w : ErasureWorkflow sf.H) (s : ErasureStep sf.H)
      → w.steps ≡ put name s v.steps
      → P s.status
      → SameOrder v w
      → Touches P name v w
  put-Touches P name v w s e p o = record {
    own = record {
      it = s;
      there =
          ap (get name) e
          ∙ (get-put name name s v.steps ∙ rw ((str_beq_iff name name).1 refl) refl);
      holds = p;
    };
    others = λ j other. ap (get j) e ∙ (get-put name j s v.steps ∙ rw other refl);
    order = o;
  }

  abbrev same : (v : ErasureWorkflow sf.H) → SameOrder v v
  same v = (refl, refl, refl, refl, refl)

  -- A ticket whose step already has `P`.
  there-Touches :
      (P : StepStatus → Type 0) (name : Str) (s : ErasureStep sf.H) (v : ErasureWorkflow sf.H)
      → get name v.steps ≡ some s
      → P s.status
      → Touches P name v v
  there-Touches P name s v e p = record {
    own = record { it = s; there = e; holds = p };
    others = λ j other. refl;
    order = same v;
  }

  abbrev pub AnyStatus : StepStatus → Type 0
  AnyStatus s = Unit

  pub with_step-Touches :
      (P : StepStatus → Type 0) (name : Str) (k : ErasureStep sf.H → Run sf → Outcome sf)
      (r : Run sf) {r' : Run sf}
      → ((s : ErasureStep sf.H) → get name r.wf.steps ≡ some s → Touches P name r.wf (k s r).1.wf)
      → with_step sf name k r ≡ (ok tt, r')
      → Touches P name r.wf r'.wf
  unfolding step
  with_step-Touches P name k r keep h = elim (Option-cases (get name r.wf.steps)) [
    | inl e ↦ absurd (cc (ap (λ m. m.0) (rw (e, with_step) at h)))
    | inr (s, e) ↦
        subst (λ (m : Outcome sf). Touches P name r.wf m.1.wf) (rw (e, with_step) at h) (keep s e)
  ]

  after_delete-Touches :
      (s : ErasureStep sf.H) (r : Run sf) (m : Result Receipt × sf.World)
      → Touches AnyStatus live_hard_delete r.wf (after_delete sf s r m).1.wf
  unfolding after_delete
  after_delete-Touches s r (raise x, world) =
      put-Touches AnyStatus live_hard_delete r.wf _ _ refl tt (same r.wf)
  after_delete-Touches s r (ok receipt, world) = elim (Bool-cases receipt.success) [
    | inl t ↦
        rw (t, after_delete) (put-Touches AnyStatus live_hard_delete r.wf _ _ refl tt (same r.wf))
    | inr f ↦
        rw (f, after_delete) (put-Touches AnyStatus live_hard_delete r.wf _ _ refl tt (same r.wf))
  ]

  pub live_delete-Touches :
      (max_m : ℕ) (s : ErasureStep sf.H) (r : Run sf)
      → get live_hard_delete r.wf.steps ≡ some s
      → Touches AnyStatus live_hard_delete r.wf (live_delete sf max_m s r).1.wf
  unfolding live_delete
  live_delete-Touches max_m s r e = elim (Bool-cases (is_done s.status)) [
    | inl t ↦ rw (t, live_delete) (there-Touches AnyStatus live_hard_delete s r.wf e tt)
    | inr f ↦
        rw (f, live_delete)
          (after_delete-Touches (record s { updated_unix_ns = sf.unix_ns r.readings })
            (record r { readings = suc r.readings })
            (sf.delete r.wf.collection r.wf.external_ids r.wf.reason r.wf.request_id max_m r.world))
  ]

  mirror_proof-Touches :
      (receipt : Option Receipt) (s : ErasureStep sf.H) (r : Run sf)
      → get residual_proof r.wf.steps ≡ some s
      → Touches AnyStatus residual_proof r.wf (mirror_proof sf receipt s r).1.wf
  unfolding mirror_proof
  mirror_proof-Touches none s r e =
      put-Touches AnyStatus residual_proof r.wf _ _ refl tt (same r.wf)
  mirror_proof-Touches (some receipt) s r e =
      by_proof receipt.residual_proof.mode receipt.residual_proof.passed refl refl
    where
      by_proof :
          (mode : ProofMode) (passed : Option Bool)
          → receipt.residual_proof.mode ≡ mode
          → receipt.residual_proof.passed ≡ passed
          → Touches AnyStatus residual_proof r.wf (mirror_proof sf (some receipt) s r).1.wf
      by_proof off passed m p =
          rw (m, mirror_proof) (put-Touches AnyStatus residual_proof r.wf _ _ refl tt (same r.wf))
      by_proof sample none m p =
          rw (m, p, mirror_proof)
            (put-Touches AnyStatus residual_proof r.wf _ _ refl tt (same r.wf))
      by_proof sample (some true) m p =
          rw (m, p, mirror_proof)
            (put-Touches AnyStatus residual_proof r.wf _ _ refl tt (same r.wf))
      by_proof sample (some false) m p =
          rw (m, p, mirror_proof)
            (put-Touches AnyStatus residual_proof r.wf _ _ refl tt (same r.wf))
      by_proof full none m p =
          rw (m, p, mirror_proof)
            (put-Touches AnyStatus residual_proof r.wf _ _ refl tt (same r.wf))
      by_proof full (some true) m p =
          rw (m, p, mirror_proof)
            (put-Touches AnyStatus residual_proof r.wf _ _ refl tt (same r.wf))
      by_proof full (some false) m p =
          rw (m, p, mirror_proof)
            (put-Touches AnyStatus residual_proof r.wf _ _ refl tt (same r.wf))
      by_proof (unknown_mode text) none m p =
          rw (m, p, mirror_proof)
            (put-Touches AnyStatus residual_proof r.wf _ _ refl tt (same r.wf))
      by_proof (unknown_mode text) (some true) m p =
          rw (m, p, mirror_proof)
            (put-Touches AnyStatus residual_proof r.wf _ _ refl tt (same r.wf))
      by_proof (unknown_mode text) (some false) m p =
          rw (m, p, mirror_proof)
            (put-Touches AnyStatus residual_proof r.wf _ _ refl tt (same r.wf))

  pub mirror_step-Touches :
      (s : ErasureStep sf.H) (r : Run sf)
      → get residual_proof r.wf.steps ≡ some s
      → Touches AnyStatus residual_proof r.wf (mirror_step sf s r).1.wf
  unfolding mirror_step
  mirror_step-Touches s r e = elim (Bool-cases (is_done s.status)) [
    | inl t ↦ rw (t, mirror_step) (there-Touches AnyStatus residual_proof s r.wf e tt)
    | inr f ↦ rw (f, mirror_step) (mirror_proof-Touches r.wf.receipt s r e)
  ]

  abbrev pub UnskippedIf : Bool → StepStatus → Type 0
  UnskippedIf required s = required ≡ true → s ≢ skipped

  after_hook-Touches :
      (name : Str) (s : ErasureStep sf.H) (r : Run sf) (m : Result sf.H × sf.World)
      → Touches (UnskippedIf true) name r.wf (after_hook sf name s r m).1.wf
  unfolding after_hook
  after_hook-Touches name s r (ok art, world) =
      put-Touches (UnskippedIf true) name r.wf _ _ refl (λ h. cc) (same r.wf)
  after_hook-Touches name s r (raise x, world) =
      put-Touches (UnskippedIf true) name r.wf _ _ refl (λ h. cc) (same r.wf)

  no_hook-Touches :
      (name : Str) (skip : Bool) (s : ErasureStep sf.H) (r : Run sf)
      → Touches (UnskippedIf true) name r.wf (no_hook sf name skip s r).1.wf
  unfolding no_hook
  no_hook-Touches name true s r =
      put-Touches (UnskippedIf true) name r.wf _ _ refl (λ h. cc) (same r.wf)
  no_hook-Touches name false s r =
      put-Touches (UnskippedIf true) name r.wf _ _ refl (λ h. cc) (same r.wf)

  is_done-unskipped : (required : Bool) (s : StepStatus) → is_done s ≡ true → UnskippedIf required s
  is_done-unskipped required s h n e = cc (h, ap is_done e)

  pub optional_step-Touches :
      (name : Str) (required : Bool) (hook : Option (sf.World → Result sf.H × sf.World))
      (skip : Bool) (s : ErasureStep sf.H) (r : Run sf)
      → get name r.wf.steps ≡ some s
      → Touches (UnskippedIf required) name r.wf (optional_step sf name required hook skip s r).1.wf
  unfolding optional_step
  optional_step-Touches name required hook skip s r e = elim (Bool-cases (is_done s.status)) [
    | inl t ↦
        rw (t, optional_step)
          (there-Touches (UnskippedIf required) name s r.wf e
            (is_done-unskipped required s.status t))
    | inr f ↦ rw (f, optional_step) (unfinished required hook)
  ]
    where
      unfinished :
          (required : Bool) (hook : Option (sf.World → Result sf.H × sf.World))
          → Touches
              (UnskippedIf required)
              name
              r.wf
              (if not required
                then stamp sf name
                    (record s { status = skipped; detail = codes "not required by policy" })
                    r
                else elim hook [
                  | none ↦ no_hook sf name skip s r
                  | some call ↦ after_hook sf name s r (call r.world)
                ]).1.wf
      unfinished false hook =
          put-Touches (UnskippedIf false) name r.wf _ _ refl (λ h. absurd (cc)) (same r.wf)
      unfinished true none = no_hook-Touches name skip s r
      unfinished true (some call) = after_hook-Touches name s r (call r.world)
