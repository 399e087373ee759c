-- ===== src/Erase/Accounted.antt =====
-- The whole loop of `ErasureService.delete` (integrations/erase_service.py): what it adds for each id.
use unlearning.Prelude.{
  ℕ, ◌≡◌, refl, ap, Bool, true, List, [], ◌∷◌, subst, Result-cases, inl, inr, Str, Exn,
  id_mapping_error, ok,
}
use unlearning.Registry.Ops.{Registry, resolve}
use unlearning.Erase.Types.{Deps}
use unlearning.Erase.Batch.{
  skip_text, Progress, isolate, erase_resolved, unresolved, erase_one, erase_all,
}
use unlearning.Erase.Loop.{next_id-ok}
use unlearning.Erase.Accounts.{
  Shrinks, resolve-Shrinks, unknown, Account, failed, Accounts, no_ids, and_then, Adds,
  Adds-nothing, Adds-both, Adds-error, erase_resolved-Body, isolate-Account,
}

module _ (deps : Deps) (collection : Str) (r : Registry) where
  -- What one id adds, in full.
  record Added (ext : Str) (p q : Progress deps) : Type 0 where
    ls : List ℕ
    es : List Str
    account : Account deps collection r ext ls es
    adds : Adds deps ls es p q

  unresolved-Added :
      (idempotent : Bool) (ext : Str) (x : Exn) (p : Progress deps) {u : Unit {0}}
      {q : Progress deps}
      → unresolved deps idempotent ext x p ≡ (ok u, q)
      → Added ext p q
  unfolding unresolved
  unresolved-Added true ext (id_mapping_error problem) p h =
      subst (Added ext p) (ap (λ m. m.1) h) (record {
        ls = [];
        es = skip_text deps ext (id_mapping_error problem) ∷ [];
        account = failed (unknown (id_mapping_error problem));
        adds = Adds-error deps _ p;
      })
  unresolved-Added idempotent ext x p h = absurd (cc (ap (λ m. m.0) h))

  erase_one-Added :
      (max_m : ℕ) (idempotent need : Bool) (ext : Str) (p : Progress deps) {u : Unit {0}}
      {q : Progress deps}
      → Shrinks r p.registry
      → erase_one deps collection max_m idempotent need ext p ≡ (ok u, q)
      → Added ext p q
  unfolding erase_one
  erase_one-Added max_m idempotent need ext p {u} {q} shrinks h =
      elim (Result-cases (resolve collection ext p.registry)) [
        | inr (x, e) ↦ unresolved-Added idempotent ext x p (rw (e, erase_one) at h)
        | inl (id, e) ↦
            let m = erase_resolved deps collection ext id.label max_m need p in
            let resolves = resolve-Shrinks collection ext r p.registry shrinks e in
            let (ls, es, account, adds) =
              isolate-Account deps collection r ext id resolves p m
                (erase_resolved-Body deps collection r ext id resolves max_m need p) in
            let done : isolate deps ext m ≡ q = ap (λ m. m.1) (rw (e, erase_one) at h) in
            subst (Added ext p) done (record { ls = ls; es = es; account = account; adds = adds })
      ]

  -- What the loop adds for its ids, in full.
  pub record AllAdded (exts : List Str) (p q : Progress deps) : Type 0 where
    pub ls : List ℕ
    pub es : List Str
    pub accounts : Accounts deps collection r exts ls es
    pub adds : Adds deps ls es p q

  -- A loop that ends without an exception has added, for each id in its turn, the label that the id has
  -- in the registry `r`, or an error about it, or both.
  pub erase_all-AllAdded :
      (max_m : ℕ) (idempotent need : Bool) (exts : List Str) (p : Progress deps) {u : Unit {0}}
      {q : Progress deps}
      → Shrinks r p.registry
      → erase_all deps collection max_m idempotent need exts p ≡ (ok u, q)
      → AllAdded exts p q
  unfolding erase_all
  erase_all-AllAdded max_m idempotent need [] p shrinks h =
      subst (AllAdded [] p) (ap (λ m. m.1) h) (record {
        ls = [];
        es = [];
        accounts = no_ids;
        adds = Adds-nothing deps p p (refl, refl, refl, refl);
      })
  erase_all-AllAdded max_m idempotent need (ext ∷ exts) p {u} {q} shrinks h =
      let (p₁, first, rest) =
        next_id-ok deps (erase_all deps collection max_m idempotent need exts)
          (erase_one deps collection max_m idempotent need ext p) h in
      let one = erase_one-Added max_m idempotent need ext p shrinks first in
      let more =
        erase_all-AllAdded max_m idempotent need exts p₁
          (λ c e l h. shrinks c e l (one.adds.shrinks c e l h)) rest in
      record {
        ls = _;
        es = _;
        accounts = and_then one.account more.accounts;
        adds = Adds-both deps p p₁ q one.adds more.adds;
      }
