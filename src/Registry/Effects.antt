-- ===== src/Registry/Effects.antt =====
-- What `register`, `resolve` and `drop` of integrations/id_registry.py do together.
use unlearning.Prelude.{
  ℕ, suc, ◌≡◌, refl, sym, ap, ◌∙◌, Bool, ◌&&◌, Option, none, some, arith, max, ◌==◌, if◌then◌else◌,
  Option-cases, Result-cases, inl, inr, Str, Result, ok, raise, id_mapping_error, unknown_id,
  if-cases, >>=-eq-ok,
}
use unlearning.Prelude.Eq.{nat_eq, str_eq, str_beq, str_beq_iff}
use unlearning.Registry.Names.{norm_collection, norm_external, norm_collection_idem}
use unlearning.Registry.Ops.{
  Registry, ResolvedId, ensured, ensure_collection, next_of, label_of, external_at, bind_label,
  register_new, register_existing, register_in, register, resolve, del_forward, del_reverse, unbind,
  drop,
}
use unlearning.Registry.Views.{forward_of-ensured, label_of-bind_label, label_of-unbind}
use unlearning.Registry.Sound.{IsSound, unbind-IsSound}

abbrev pub at_key : Str → Str → Str → Str → Bool
at_key coll ext c e = str_beq coll c && str_beq ext e

-- What the normalised names of a resolved id are bound to.
pub resolve-eq-ok :
    (collection external_id : Str) (r : Registry) {id : ResolvedId}
    → resolve collection external_id r ≡ ok id
    → (norm_collection collection ≡ ok id.collection)
      × (norm_external external_id ≡ ok id.external_id)
      × (label_of r id.collection id.external_id ≡ some id.label)
unfolding resolve
resolve-eq-ok collection external_id r {id} h =
    let (coll, a, h₁) = >>=-eq-ok (norm_collection collection) _ h in
    let (ext, b, h₂) = >>=-eq-ok (norm_external external_id) _ h₁ in
    elim (Option-cases (label_of r coll ext)) [
      | inl none_there ↦ absurd (ground arith)
      | inr (label, e) ↦ (ground arith, ground arith, ground arith)
    ]

pub resolve_of_label :
    (collection external_id : Str) (r : Registry) {coll ext : Str}
    → norm_collection collection ≡ ok coll
    → norm_external external_id ≡ ok ext
    → resolve collection external_id r ≡ elim (label_of r coll ext) [
      | none ↦ raise (id_mapping_error (unknown_id ext coll))
      | some label ↦ ok (record { collection = coll; external_id = ext; label = label })
    ]
unfolding resolve
resolve_of_label collection external_id r a b = rw (a, b)

-- Dropping an id that resolves.
pub drop-eq :
    (collection external_id : Str) (r : Registry) {id : ResolvedId}
    → IsSound r
    → resolve collection external_id r ≡ ok id
    → drop collection external_id r ≡ (ok id.label, del_reverse id (del_forward id r))
unfolding drop
drop-eq collection external_id r {id} s h =
    let (a, b, bound) = resolve-eq-ok collection external_id r h in
    rw (h, drop) (rw (s.back id.collection id.external_id id.label bound, unbind) refl)

-- On a sound registry `drop` returns the label that `resolve` finds, keeps the invariant, and
-- forgets this id and no other; resolving it again raises the error for an unknown id.
pub drop-resolve :
    (collection external_id : Str) (r : Registry) {id : ResolvedId}
    → IsSound r
    → resolve collection external_id r ≡ ok id
    → (r' : Registry) × (drop collection external_id r ≡ (ok id.label, r'))
      × IsSound r'
      × (resolve collection external_id r'
          ≡ raise (id_mapping_error (unknown_id id.external_id id.collection)))
      × ((c e : Str)
          → label_of r' c e
            ≡ (if at_key id.collection id.external_id c e then none else label_of r c e))
drop-resolve collection external_id r {id} s h =
    let (a, b, bound) = resolve-eq-ok collection external_id r h in
    let r' = del_reverse id (del_forward id r) in
    let gone : label_of r' id.collection id.external_id ≡ none =
      label_of-unbind id r id.collection id.external_id
      ∙ rw
          (
            (str_beq_iff id.collection id.collection).1 refl,
            (str_beq_iff id.external_id id.external_id).1 refl,
          )
          refl in
    (
      r',
      drop-eq collection external_id r s h,
      unbind-IsSound id r bound s,
      resolve_of_label collection external_id r' a b ∙ rw gone refl,
      λ c e. label_of-unbind id r c e,
    )

ensure_collection_of_name :
    (coll : Str) (r : Registry)
    → norm_collection coll ≡ ok coll
    → ensure_collection coll r ≡ (ok tt, ensured coll r)
unfolding ensure_collection
ensure_collection_of_name coll r a = rw (a, ensure_collection)

-- `register` behind the normalisation of its names.
pub register_of_names :
    (collection external_id : Str) (label : Option ℕ) (r : Registry) {coll ext : Str}
    → norm_collection collection ≡ ok coll
    → norm_external external_id ≡ ok ext
    → register collection external_id label r ≡ register_in coll ext label (ensured coll r)
unfolding register
register_of_names collection external_id label r {coll} {ext} a b =
    rw (a, register)
      (rw b (
        ap (λ m. register_in coll ext label m.1)
          (ensure_collection_of_name coll r (norm_collection_idem collection a))))

pub register_names :
    (collection external_id : Str) (label : Option ℕ) (r : Registry) {l : ℕ} {r' : Registry}
    → register collection external_id label r ≡ (ok l, r')
    → (coll : Str) × (ext : Str) × (norm_collection collection ≡ ok coll)
      × (norm_external external_id ≡ ok ext)
unfolding register
register_names collection external_id label r h = elim (Result-cases (norm_collection collection)) [
  | inr (x, a) ↦ absurd (ground arith)
  | inl (coll, a) ↦ elim (Result-cases (norm_external external_id)) [
    | inr (x, b) ↦ absurd (ground arith)
    | inl (ext, b) ↦ (coll, ext, a, b)
  ]
]

bound-label :
    (coll ext : Str) (label next : ℕ) (r : Registry) {l : ℕ} {r' : Registry}
    → ◌≡◌ {A = Result ℕ × Registry} (ok label, bind_label coll ext label next r) (ok l, r')
    → (c e : Str) → label_of r' c e ≡ (if at_key coll ext c e then some l else label_of r c e)
bound-label coll ext label next r {l} {r'} h c e =
    let same : label ≡ l = cc (ap (λ p. p.0) h) in
    let state = ap (λ p. p.1) h in
    rw (← same, ← state) (label_of-bind_label coll ext label next r c e)

register_new-label :
    (coll ext : Str) (label : Option ℕ) (r : Registry) {l : ℕ} {r' : Registry}
    → register_new coll ext label r ≡ (ok l, r')
    → (c e : Str) → label_of r' c e ≡ (if at_key coll ext c e then some l else label_of r c e)
unfolding register_new
register_new-label coll ext none r h c e =
    bound-label coll ext (next_of coll r) (suc (next_of coll r)) r h c e
register_new-label coll ext (some label) r h c e = elim (Option-cases (external_at r coll label)) [
  | inr (other, t) ↦ absurd (ground arith)
  | inl t ↦
      bound-label coll ext label (max (next_of coll r) (suc label)) r (rw (t, register_new) at h) c
        e
]

pub register_existing-ok :
    (ext : Str) (existing : ℕ) (label : Option ℕ) (r : Registry) {l : ℕ} {r' : Registry}
    → register_existing ext existing label r ≡ (ok l, r')
    → (l ≡ existing) × (r' ≡ r)
unfolding register_existing
register_existing-ok ext existing none r h = (cc (ap (λ p. p.0) h), sym (ap (λ p. p.1) h))
register_existing-ok ext existing (some label) r h = elim (if-cases (label == existing) h) [
  | inl (t, g) ↦ (cc (ap (λ p. p.0) g), sym (ap (λ p. p.1) g))
  | inr (f, g) ↦ absurd (cc (ap (λ p. p.0) g))
]

register_in-label :
    (coll ext : Str) (label : Option ℕ) (r : Registry) {l : ℕ} {r' : Registry}
    → register_in coll ext label r ≡ (ok l, r')
    → (c e : Str) → label_of r' c e ≡ (if at_key coll ext c e then some l else label_of r c e)
unfolding register_in
register_in-label coll ext label r {l} {r'} h c e = elim (Option-cases (label_of r coll ext)) [
  | inl free ↦ register_new-label coll ext label r (rw (free, register_in) at h) c e
  | inr (existing, t) ↦
      let (same, state) = register_existing-ok ext existing label r (rw (t, register_in) at h) in
      rw (state, same) (kept coll ext existing r t c e)
]
  where
    kept :
        (coll ext : Str) (existing : ℕ) (r : Registry)
        → label_of r coll ext ≡ some existing
        → (c e : Str)
        → label_of r c e ≡ (if at_key coll ext c e then some existing else label_of r c e)
    kept coll ext existing r t c e = ground (arith, str_beq_iff coll c, str_beq_iff ext e)

-- A `register` that returns has bound its normalised id to the label that it returns: `resolve`
-- finds it, and every other id is resolved as before.
pub register-resolve :
    (collection external_id : Str) (label : Option ℕ) (r : Registry) {l : ℕ} {r' : Registry}
    → register collection external_id label r ≡ (ok l, r')
    → (id : ResolvedId) × (id.label ≡ l)
      × (resolve collection external_id r' ≡ ok id)
      × ((c e : Str)
          → label_of r' c e
            ≡ (if at_key id.collection id.external_id c e then some l else label_of r c e))
register-resolve collection external_id label r {l} {r'} h =
    let (coll, ext, a, b) = register_names collection external_id label r h in
    let after =
      register_in-label coll ext label (ensured coll r)
        (sym (register_of_names collection external_id label r a b) ∙ h) in
    let view = λ (c e : Str). after c e ∙ rw (forward_of-ensured coll r c) refl in
    let here : label_of r' coll ext ≡ some l =
      view coll ext ∙ rw ((str_beq_iff coll coll).1 refl, (str_beq_iff ext ext).1 refl) refl in
    (
      record { collection = coll; external_id = ext; label = l },
      refl,
      resolve_of_label collection external_id r' a b ∙ rw here refl,
      view,
    )
