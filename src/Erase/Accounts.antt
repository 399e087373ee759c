-- ===== src/Erase/Accounts.antt =====
-- Who the labels and the errors of the loop in `ErasureService.delete` belong to
-- (integrations/erase_service.py).
use mathlib.Core.List.{append_assoc, append-nil}
use unlearning.Prelude.{
  ℕ, ◌≡◌, refl, sym, ap, ◌∙◌, Bool, true, false, Option, some, List, [], ◌∷◌, ◌++◌, arith,
  Bool-cases, Option-cases, Result-cases, inl, inr, Str, Exn, Result, ok, raise,
}
use unlearning.Prelude.Text.{codes}
use unlearning.Registry.Ops.{
  Registry, ResolvedId, label_of, external_at, resolve, unbind, del_forward, del_reverse, drop,
}
use unlearning.Registry.Views.{label_of-unbind}
use unlearning.Registry.Effects.{resolve-eq-ok, resolve_of_label}
use unlearning.Erase.Types.{BackendEraseResult, Deps}
use unlearning.Erase.Batch.{
  erase_failed_text, not_zeroed_text, skip_text, Progress, add_error, snapshot, wipe, forget,
  settle, verify, judge, erase_resolved, isolate,
}
use unlearning.Erase.Loop.{Same, snapshot-Same, wipe-Same, forget-Same}

-- What resolves in `r'` resolves to the same in `r`.
abbrev pub Shrinks : Registry → Registry → Type 0
Shrinks r r' = (c e : Str) (l : ℕ) → label_of r' c e ≡ some l → label_of r c e ≡ some l

drop-Shrinks : (collection ext : Str) (r : Registry) → Shrinks r (drop collection ext r).1
unfolding drop del_reverse
drop-Shrinks collection ext r = elim (Result-cases (resolve collection ext r)) [
  | inr (x, e) ↦ rw (e, drop) (λ c f l h. h)
  | inl (id, e) ↦
      rw (e, drop)
        (elim (Option-cases (external_at r id.collection id.label)) [
          | inl q ↦ rw (q, unbind) (gone id)
          | inr (f, q) ↦ rw (q, unbind) (gone id)
        ])
]
  where
    gone : (id : ResolvedId) → Shrinks r (del_reverse id (del_forward id r))
    gone id c e l h = ground (arith, label_of-unbind id r c e)

pub resolve-Shrinks :
    (collection ext : Str) (r r' : Registry) {id : ResolvedId}
    → Shrinks r r'
    → resolve collection ext r' ≡ ok id
    → resolve collection ext r ≡ ok id
resolve-Shrinks collection ext r r' {id} shrinks h =
    let (a, b, bound) = resolve-eq-ok collection ext r' h in
    resolve_of_label collection ext r a b
    ∙ rw (shrinks id.collection id.external_id id.label bound) refl

module _ (deps : Deps) where
  -- An error of the loop that is about an id, by its text or by the id's label.
  pub data IsAbout (collection : Str) (r : Registry) (ext : Str) : Str → Type 0 where
    unknown : (x : Exn) → IsAbout collection r ext (skip_text deps ext x)
    not_erased :
        (label : ℕ) (message : Option Str)
        → IsAbout collection r ext (erase_failed_text deps ext label message)
    not_zeroed :
        (id : ResolvedId)
        → resolve collection ext r ≡ ok id
        → IsAbout collection r ext (not_zeroed_text deps id.label)
    raised : (x : Exn) → IsAbout collection r ext (ext ++ (codes ": " ++ deps.exn_text x))

  -- What the receipt has of one id: its own label, an error about it, or both.
  pub data Account (collection : Str) (r : Registry) (ext : Str) : List ℕ → List Str → Type 0 where
    erased :
        (id : ResolvedId)
        → resolve collection ext r ≡ ok id
        → Account collection r ext (id.label ∷ []) []
    erased_and_raised :
        {text : Str} (id : ResolvedId)
        → resolve collection ext r ≡ ok id
        → IsAbout collection r ext text
        → Account collection r ext (id.label ∷ []) (text ∷ [])
    failed : {text : Str} → IsAbout collection r ext text → Account collection r ext [] (text ∷ [])

  -- The labels and the errors of a list of ids, each id's in its turn.
  pub data Accounts (collection : Str) (r : Registry) : List Str → List ℕ → List Str → Type 0 where
    no_ids : Accounts collection r [] [] []
    and_then :
        {ext : Str} {exts : List Str} {ls ls' : List ℕ} {es es' : List Str}
        → Account collection r ext ls es
        → Accounts collection r exts ls' es'
        → Accounts collection r (ext ∷ exts) (ls ++ ls') (es ++ es')

  -- What a step adds.
  pub record Adds (ls : List ℕ) (es : List Str) (p q : Progress deps) : Type 0 where
    pub labels : q.labels ≡ p.labels ++ ls
    pub errors : q.errors ≡ p.errors ++ es
    pub shrinks : Shrinks p.registry q.registry

  pub Adds-nothing : (p q : Progress deps) → Same deps p q → Adds [] [] p q
  Adds-nothing p q s = record {
    labels = s.0 ∙ sym (append-nil p.labels);
    errors = s.1 ∙ sym (append-nil p.errors);
    shrinks = λ c e l h. rw (sym s.3) h;
  }

  pub Adds-both :
      {ls ls' : List ℕ} {es es' : List Str} (p q t : Progress deps)
      → Adds ls es p q
      → Adds ls' es' q t
      → Adds (ls ++ ls') (es ++ es') p t
  Adds-both {ls} {ls'} {es} {es'} p q t a b = record {
    labels = b.labels ∙ ap (λ x. x ++ ls') a.labels ∙ append_assoc p.labels ls ls';
    errors = b.errors ∙ ap (λ x. x ++ es') a.errors ∙ append_assoc p.errors es es';
    shrinks = λ c e l h. a.shrinks c e l (b.shrinks c e l h);
  }

  pub Adds-error : (text : Str) (p : Progress deps) → Adds [] (text ∷ []) p (add_error deps text p)
  Adds-error text p = record {
    labels = sym (append-nil p.labels);
    errors = refl;
    shrinks = λ c e l h. h;
  }

  forget-Adds :
      (collection ext : Str) (p : Progress deps) → Adds [] [] p (forget deps collection ext p).1
  unfolding forget
  forget-Adds collection ext p =
      let same = forget-Same deps collection ext p in
      record {
        labels = same.0 ∙ sym (append-nil p.labels);
        errors = same.1 ∙ sym (append-nil p.errors);
        shrinks = registry;
      }
    where
      registry : Shrinks p.registry (forget deps collection ext p).1.registry
      registry = elim (Bool-cases deps.drop_mappings) [
        | inr f ↦ rw (f, forget) (λ c e l h. h)
        | inl t ↦ elim (Result-cases (drop collection ext p.registry).0) [
          | inl (l, q) ↦ rw (t, q, forget) (drop-Shrinks collection ext p.registry)
          | inr (x, q) ↦ rw (t, q, forget) (drop-Shrinks collection ext p.registry)
        ]
      ]

  module _ (collection : Str) (r : Registry) (ext : Str) (id : ResolvedId)
      (resolves : resolve collection ext r ≡ ok id) where
    -- What the body of the `try` adds for the id, by how it ends.
    pub data Tried : List ℕ → List Str → Result (Unit {0}) → Type 0 where
      counted : {m : Result (Unit {0})} → Tried (id.label ∷ []) [] m
      noted :
          {text : Str} {u : Unit {0}} → IsAbout collection r ext text → Tried [] (text ∷ []) (ok u)
      thrown : {x : Exn} → Tried [] [] (raise x)

    pub record Body (p : Progress deps) (m : Result (Unit {0}) × Progress deps) : Type 0 where
      ls : List ℕ
      es : List Str
      adds : Adds ls es p m.1
      tried : Tried ls es m.0

    settle-Body :
        (br : BackendEraseResult) (p : Progress deps)
        → Body p (settle deps collection ext id.label br p)
    unfolding settle
    settle-Body br p = record {
      ls = id.label ∷ [];
      es = [];
      adds =
          Adds-both p _ _
            (record { labels = refl; errors = sym (append-nil p.errors); shrinks = λ c e l h. h })
            (forget-Adds collection ext _);
      tried = counted;
    }

    verify-Body :
        (br : BackendEraseResult) (p : Progress deps)
        → Body p (verify deps collection ext id.label br p)
    unfolding verify
    verify-Body br p = elim (Bool-cases br.success) [
      | inr f ↦
          rw (f, verify)
            (record {
              ls = [];
              es = _;
              adds = Adds-error _ p;
              tried = noted (not_erased id.label br.message);
            })
      | inl t ↦ elim (Result-cases (deps.verify_zeroed collection id.label p.world)) [
        | inr (x, e) ↦
            rw (t, e, verify)
              (record {
                ls = [];
                es = [];
                adds = Adds-nothing p p (refl, refl, refl, refl);
                tried = thrown;
              })
        | inl (true, e) ↦ rw (t, e, verify) (settle-Body br p)
        | inl (false, e) ↦
            rw (t, e, verify)
              (record {
                ls = [];
                es = _;
                adds = Adds-error _ p;
                tried = noted (not_zeroed id resolves);
              })
      ]
    ]

    judge-Body :
        (w : Result BackendEraseResult × Progress deps)
        → Body w.1 (judge deps collection ext id.label w)
    unfolding judge
    judge-Body (ok br, p) = verify-Body br p
    judge-Body (raise x, p) = record {
      ls = [];
      es = [];
      adds = Adds-nothing p p (refl, refl, refl, refl);
      tried = thrown;
    }

    pub erase_resolved-Body :
        (max_m : ℕ) (need : Bool) (p : Progress deps)
        → Body p (erase_resolved deps collection ext id.label max_m need p)
    unfolding erase_resolved
    erase_resolved-Body max_m need p =
        let p₁ = snapshot deps need id.label p in
        let w = wipe deps collection id.label max_m p₁ in
        let body = judge-Body w in
        record {
          ls = body.ls;
          es = body.es;
          adds = Adds-both p p₁ _ (Adds-nothing p p₁ (snapshot-Same deps need id.label p)) (
              Adds-both p₁ w.1 _ (Adds-nothing p₁ w.1 (wipe-Same deps collection id.label max_m p₁))
                body.adds);
          tried = body.tried;
        }

    pub isolate-Account :
        (p : Progress deps) (m : Result (Unit {0}) × Progress deps)
        → Body p m
        → (ls : List ℕ) × (es : List Str) × Account collection r ext ls es
          × Adds ls es p (isolate deps ext m)
    unfolding isolate
    isolate-Account p (ok u, q) body = by_tried body.tried body.adds
      where
        by_tried :
            {ls : List ℕ} {es : List Str}
            → Tried ls es (ok u)
            → Adds ls es p q
            → (ls : List ℕ) × (es : List Str) × Account collection r ext ls es × Adds ls es p q
        by_tried counted a = (_, _, erased id resolves, a)
        by_tried (noted about) a = (_, _, failed about, a)
    isolate-Account p (raise x, q) body = by_tried body.tried body.adds
      where
        text : Str
        text = ext ++ (codes ": " ++ deps.exn_text x)

        by_tried :
            {ls : List ℕ} {es : List Str}
            → Tried ls es (raise x)
            → Adds ls es p q
            → (ls : List ℕ) × (es : List Str) × Account collection r ext ls es
              × Adds ls es p (add_error deps text q)
        by_tried counted a =
            (_, _, erased_and_raised id resolves (raised x), Adds-both p q _ a (Adds-error text q))
        by_tried thrown a = (_, _, failed (raised x), Adds-both p q _ a (Adds-error text q))
