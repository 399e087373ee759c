-- ===== src/Registry/Kept.antt =====
-- A label stays with its id while others are registered (integrations/id_registry.py).
use unlearning.Prelude.{
  ℕ, ◌≡◌, refl, sym, ◌∙◌, Bool, true, ◌&&◌, Option, some, arith, Str, ok, Bool-cases, inl, inr,
}
use unlearning.Prelude.Eq.{str_eq, str_beq, str_beq_iff}
use unlearning.Registry.Ops.{
  Registry, ResolvedId, ensured, label_of, register_in, register, resolve,
}
use unlearning.Registry.Views.{forward_of-ensured}
use unlearning.Registry.Effects.{
  at_key, register_existing-ok, register_of_names, register-resolve, resolve-eq-ok,
  resolve_of_label,
}

register_in-existing :
    (coll ext : Str) (label : Option ℕ) (r : Registry) (m : ℕ) {l : ℕ} {r' : Registry}
    → register_in coll ext label r ≡ (ok l, r')
    → label_of r coll ext ≡ some m
    → r' ≡ r
unfolding register_in
register_in-existing coll ext label r m h t =
    (register_existing-ok ext m label r (rw (t, register_in) at h)).1

-- A `register` that returns changes no label that is there.
pub register-label_of :
    (collection external_id : Str) (label : Option ℕ) (r : Registry) (c e : Str) (m : ℕ) {l : ℕ}
    {r' : Registry}
    → register collection external_id label r ≡ (ok l, r')
    → label_of r c e ≡ some m
    → label_of r' c e ≡ some m
register-label_of collection external_id label r c e m {l} {r'} h had =
    let (id, same, found, view) = register-resolve collection external_id label r h in
    let (a, b, bound) = resolve-eq-ok collection external_id r' found in
    let inner : register_in id.collection id.external_id label (ensured id.collection r)
        ≡ (ok l, r') =
      sym (register_of_names collection external_id label r a b) ∙ h in
    elim (Bool-cases (at_key id.collection id.external_id c e)) [
      | inr f ↦ view c e ∙ rw f had
      | inl t ↦
          let at_c : id.collection ≡ c =
            (str_beq_iff id.collection c).0 (both (str_beq id.collection c) _ t).0 in
          let at_e : id.external_id ≡ e =
            (str_beq_iff id.external_id e).0 (both (str_beq id.collection c) _ t).1 in
          let there : label_of (ensured id.collection r) id.collection id.external_id ≡ some m =
            rw (forward_of-ensured id.collection r id.collection, at_c, at_e) had in
          let unchanged =
            register_in-existing id.collection id.external_id label (ensured id.collection r) m
              inner there in
          rw (unchanged, forward_of-ensured id.collection r c) had
    ]
  where
    both : (x y : Bool) → (x && y) ≡ true → (x ≡ true) × (y ≡ true)
    both x y h = ground arith

-- An id that is resolved is resolved as before.
pub register-resolved :
    (collection external_id : Str) (label : Option ℕ) (r : Registry) (coll e : Str) {l : ℕ}
    {r' : Registry} {id : ResolvedId}
    → register collection external_id label r ≡ (ok l, r')
    → resolve coll e r ≡ ok id
    → resolve coll e r' ≡ ok id
register-resolved collection external_id label r coll e {l} {r'} {id} h was =
    let (a, b, bound) = resolve-eq-ok coll e r was in
    let stays =
      register-label_of collection external_id label r id.collection id.external_id id.label h
        bound in
    resolve_of_label coll e r' a b ∙ rw stays refl
