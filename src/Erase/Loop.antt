-- ===== src/Erase/Loop.antt =====
-- Counting in the loop of `ErasureService.delete` (integrations/erase_service.py).
use unlearning.Prelude.{
  ℕ, suc, ◌+◌, ◌≤◌, ◌≡◌, refl, ap, Bool, true, false, List, [], ◌∷◌, ◌++◌, arith, length,
  length-append, Bool-cases, Result-cases, inl, inr, Str, Exn, id_mapping_error, subst, Result, ok,
  raise,
}
use unlearning.Registry.Ops.{resolve}
use unlearning.Erase.Types.{BackendEraseResult, Deps}
use unlearning.Prelude.Text.{codes}
use unlearning.Erase.Batch.{
  message_list, not_zeroed_text, skip_text, next_id, Progress, add_error, snapshot, wipe, forget,
  settle, verify, judge, erase_resolved, isolate, unresolved, erase_one, erase_all,
}

module _ (deps : Deps) where
  -- What a step before the verdict leaves as it is.
  abbrev pub Same : Progress deps → Progress deps → Type 0
  Same p q =
      (q.labels ≡ p.labels)
      × (q.errors ≡ p.errors)
      × (q.erased_ext ≡ p.erased_ext)
      × (q.registry ≡ p.registry)

  pub snapshot-Same : (b : Bool) (label : ℕ) (p : Progress deps) → Same p (snapshot deps b label p)
  unfolding snapshot
  snapshot-Same false label p = (refl, refl, refl, refl)
  snapshot-Same true label p = ground arith

  pub wipe-Same :
      (collection : Str) (label max_m : ℕ) (p : Progress deps)
      → Same p (wipe deps collection label max_m p).1
  unfolding wipe
  wipe-Same collection label max_m p = ground arith

  pub forget-Same :
      (collection ext : Str) (p : Progress deps)
      → ((forget deps collection ext p).1.labels ≡ p.labels)
        × ((forget deps collection ext p).1.errors ≡ p.errors)
        × ((forget deps collection ext p).1.erased_ext ≡ p.erased_ext)
  unfolding forget
  forget-Same collection ext p = ground arith

  -- One for an id that is done with, none for an exception that is still to be noted.
  abbrev credit : Result (Unit {0}) → ℕ
  credit (ok u) = 1
  credit (raise x) = 0

  -- `n` ids later.
  pub record Tally (n : ℕ) (p q : Progress deps) : Type 0 where
    pub most : length q.labels ≤ n + length p.labels
    pub least : n + length p.labels + length p.errors ≤ length q.labels + length q.errors
    pub paired : length q.erased_ext + length p.labels ≡ length q.labels + length p.erased_ext

  record Balance (p : Progress deps) (r : Result (Unit {0}) × Progress deps) : Type 0 where
    most : length r.1.labels ≤ suc (length p.labels)
    least : credit r.0 + length p.labels + length p.errors ≤ length r.1.labels + length r.1.errors
    paired : length r.1.erased_ext + length p.labels ≡ length r.1.labels + length p.erased_ext

  credit-le : (r : Result (Unit {0})) → credit r ≤ 1
  credit-le (ok u) = omega arith
  credit-le (raise x) = omega arith

  settle-Balance :
      (collection ext : Str) (label : ℕ) (br : BackendEraseResult) (p : Progress deps)
      → Balance p (settle deps collection ext label br p)
  unfolding settle
  settle-Balance collection ext label br p =
      let p₁ : Progress deps = record p {
        bytes_total = p.bytes_total + br.bytes_wiped;
        labels = p.labels ++ label ∷ [];
        erased_ext = p.erased_ext ++ ext ∷ [];
        messages = p.messages ++ message_list deps br.message;
      } in
      let same = forget-Same collection ext p₁ in
      let ls = ap length same.0 in
      let es = ap length same.1 in
      let xs = ap length same.2 in
      let one = length-append p.labels (label ∷ []) in
      let two = length-append p.erased_ext (ext ∷ []) in
      record {
        most = omega arith;
        least = omega (arith, credit-le (forget deps collection ext p₁).0);
        paired = omega arith;
      }

  add_error-Balance : (text : Str) (p : Progress deps) → Balance p (ok tt, add_error deps text p)
  add_error-Balance text p = record {
    most = omega arith;
    least = omega (arith, length-append p.errors (text ∷ []));
    paired = omega arith;
  }

  verify-Balance :
      (collection ext : Str) (label : ℕ) (br : BackendEraseResult) (p : Progress deps)
      → Balance p (verify deps collection ext label br p)
  unfolding verify
  verify-Balance collection ext label br p = elim (Bool-cases br.success) [
    | inr no_success ↦ rw (no_success, verify) (add_error-Balance _ p)
    | inl success ↦ elim (Result-cases (deps.verify_zeroed collection label p.world)) [
      | inr (x, e) ↦
          rw (success, e, verify)
            (record { most = omega arith; least = omega arith; paired = omega arith })
      | inl (zeroed, e) ↦ rw (success, e, verify) (by zeroed)
    ]
  ]
    where
      by :
          (zeroed : Bool)
          → Balance p (elim (ok zeroed) as (λ r. Result (Unit {0}) × Progress deps) [
            | raise x ↦ (raise x, p)
            | ok false ↦ (ok tt, add_error deps (not_zeroed_text deps label) p)
            | ok true ↦ settle deps collection ext label br p
          ])
      by true = settle-Balance collection ext label br p
      by false = add_error-Balance _ p

  Balance-Same :
      (p p₁ : Progress deps) (r : Result (Unit {0}) × Progress deps)
      → Same p p₁
      → Balance p₁ r
      → Balance p r
  Balance-Same p p₁ r s b =
      let ls = ap length s.0 in
      let es = ap length s.1 in
      let xs = ap length s.2 in
      record {
        most = omega (arith, b.most);
        least = omega (arith, b.least);
        paired = omega (arith, b.paired);
      }

  judge-Balance :
      (collection ext : Str) (label : ℕ) (w : Result BackendEraseResult × Progress deps)
      → Balance w.1 (judge deps collection ext label w)
  unfolding judge
  judge-Balance collection ext label (ok br, p) = verify-Balance collection ext label br p
  judge-Balance collection ext label (raise x, p) = record {
    most = omega arith;
    least = omega arith;
    paired = omega arith;
  }

  erase_resolved-Balance :
      (collection ext : Str) (label max_m : ℕ) (need : Bool) (p : Progress deps)
      → Balance p (erase_resolved deps collection ext label max_m need p)
  unfolding erase_resolved
  erase_resolved-Balance collection ext label max_m need p =
      let p₁ = snapshot deps need label p in
      let w = wipe deps collection label max_m p₁ in
      Balance-Same p p₁ (judge deps collection ext label w) (snapshot-Same need label p) (
        Balance-Same p₁ w.1 (judge deps collection ext label w)
          (wipe-Same collection label max_m p₁) (judge-Balance collection ext label w))

  isolate-Tally :
      (ext : Str) (p : Progress deps) (r : Result (Unit {0}) × Progress deps)
      → Balance p r
      → Tally 1 p (isolate deps ext r)
  unfolding isolate
  isolate-Tally ext p (ok u, q) b = record {
    most = omega (arith, b.most);
    least = omega (arith, b.least);
    paired = omega (arith, b.paired);
  }
  isolate-Tally ext p (raise x, q) b = record {
    most = omega (arith, b.most);
    least =
        omega
          (arith, b.least, length-append q.errors ((ext ++ (codes ": " ++ deps.exn_text x)) ∷ []));
    paired = omega (arith, b.paired);
  }

  unresolved-Tally :
      (idempotent : Bool) (ext : Str) (x : Exn) (p : Progress deps) {u : Unit {0}}
      {q : Progress deps}
      → unresolved deps idempotent ext x p ≡ (ok u, q)
      → Tally 1 p q
  unfolding unresolved
  unresolved-Tally true ext (id_mapping_error problem) p {u} {q} h =
      let e : add_error deps (skip_text deps ext (id_mapping_error problem)) p ≡ q =
        ap (λ r. r.1) h in
      subst (Tally 1 p) e (record {
        most = omega arith;
        least =
            omega
              (arith, length-append p.errors (skip_text deps ext (id_mapping_error problem) ∷ []));
        paired = omega arith;
      })
  unresolved-Tally idempotent ext x p h = absurd (cc (ap (λ r. r.0) h))

  pub erase_one-Tally :
      (collection : Str) (max_m : ℕ) (idempotent need : Bool) (ext : Str) (p : Progress deps)
      {u : Unit {0}} {q : Progress deps}
      → erase_one deps collection max_m idempotent need ext p ≡ (ok u, q)
      → Tally 1 p q
  unfolding erase_one
  erase_one-Tally collection max_m idempotent need ext p {u} {q} h =
      elim (Result-cases (resolve collection ext p.registry)) [
        | inr (x, e) ↦ unresolved-Tally idempotent ext x p (rw (e, erase_one) at h)
        | inl (id, e) ↦
            let r = erase_resolved deps collection ext id.label max_m need p in
            let done : isolate deps ext r ≡ q = ap (λ m. m.1) (rw (e, erase_one) at h) in
            subst (Tally 1 p) done
              (isolate-Tally ext p r (erase_resolved-Balance collection ext id.label max_m need p))
      ]

  Tally-suc : (n : ℕ) {p q r : Progress deps} → Tally 1 p q → Tally n q r → Tally (suc n) p r
  Tally-suc n a b = record {
    most = omega (arith, a.most, b.most);
    least = omega (arith, a.least, b.least);
    paired = omega (arith, a.paired, b.paired);
  }

  pub next_id-ok :
      (more : Progress deps → Result (Unit {0}) × Progress deps)
      (r : Result (Unit {0}) × Progress deps) {u : Unit {0}} {q : Progress deps}
      → next_id deps more r ≡ (ok u, q)
      → (p : Progress deps) × (r ≡ (ok tt, p)) × (more p ≡ (ok u, q))
  next_id-ok more (ok v, p) h = (p, refl, h)
  next_id-ok more (raise x, p) h = absurd (cc (ap (λ r. r.0) h))

  -- A loop that ends without an exception has counted every id: at most one label for each, and at
  -- least one label or one error for each; labels and erased ids stay in step.
  pub erase_all-Tally :
      (collection : Str) (max_m : ℕ) (idempotent need : Bool) (exts : List Str) (p : Progress deps)
      {u : Unit {0}} {q : Progress deps}
      → erase_all deps collection max_m idempotent need exts p ≡ (ok u, q)
      → Tally (length exts) p q
  unfolding erase_all
  erase_all-Tally collection max_m idempotent need [] p {u} {q} h =
      subst (Tally 0 p) (ap (λ r. r.1) h)
        (record { most = omega arith; least = omega arith; paired = omega arith })
  erase_all-Tally collection max_m idempotent need (ext ∷ exts) p h =
      let (p₁, first, rest) =
        next_id-ok (erase_all deps collection max_m idempotent need exts)
          (erase_one deps collection max_m idempotent need ext p) h in
      Tally-suc (length exts) (erase_one-Tally collection max_m idempotent need ext p first)
        (erase_all-Tally collection max_m idempotent need exts p₁ rest)
