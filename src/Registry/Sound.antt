-- ===== src/Registry/Sound.antt =====
-- The invariant of the registry (integrations/id_registry.py): in each collection ids and labels
-- are in bijection, and every label is below the next one to allocate.
use unlearning.Prelude.{
  ℕ, suc, ◌≤◌, ◌<◌, ◌≡◌, refl, Option, none, some, arith, max, Option-cases, Result-cases, inl, inr,
  Str,
}
use unlearning.Prelude.Dict.{get}
use unlearning.Prelude.Eq.{nat_eq, str_eq, str_beq_iff}
use unlearning.Registry.Names.{norm_collection, norm_external}
use unlearning.Registry.Ops.{
  Registry, ResolvedId, empty, ensured, ensure_collection, next_of, label_of, external_at,
  bind_label, register_new, register_existing, register_in, register, del_forward, del_reverse,
}
use unlearning.Registry.Views.{
  forward_of-ensured, reverse_of-ensured, next_of-ensured, label_of-bind_label,
  external_at-bind_label, next_of-bind_label, label_of-unbind, external_at-unbind, next_of-unbind,
}

pub record IsSound (r : Registry) : Type 0 where
  pub back : (c e : Str) (l : ℕ) → label_of r c e ≡ some l → external_at r c l ≡ some e
  pub forth : (c e : Str) (l : ℕ) → external_at r c l ≡ some e → label_of r c e ≡ some l
  pub below : (c e : Str) (l : ℕ) → label_of r c e ≡ some l → l < next_of c r

pub empty-IsSound : IsSound empty
unfolding get
empty-IsSound = record { back = λ c e l. cc; forth = λ c e l. cc; below = λ c e l h. absurd (cc) }

pub ensured-IsSound : (coll : Str) (r : Registry) → IsSound r → IsSound (ensured coll r)
ensured-IsSound coll r s = record {
  back = λ c e l. rw (forward_of-ensured coll r c, reverse_of-ensured coll r c) (s.back c e l);
  forth = λ c e l. rw (forward_of-ensured coll r c, reverse_of-ensured coll r c) (s.forth c e l);
  below = λ c e l. rw (forward_of-ensured coll r c, next_of-ensured coll r c) (s.below c e l);
}

module _ (coll ext : Str) (label next : ℕ) (r : Registry) where
  -- A new pair keeps the bijection if neither side of it is in use.
  pub bind_label-IsSound :
      label_of r coll ext ≡ none
      → external_at r coll label ≡ none
      → label < next
      → next_of coll r ≤ next
      → IsSound r
      → IsSound (bind_label coll ext label next r)
  bind_label-IsSound free unused lt le s = record {
    back = λ c e l h. ground (
      arith,
      label_of-bind_label coll ext label next r c e,
      external_at-bind_label coll ext label next r c l,
      str_beq_iff coll c,
      str_beq_iff ext e,
      s.back c e l,
    );
    forth = λ c e l h. ground (
      arith,
      label_of-bind_label coll ext label next r c e,
      external_at-bind_label coll ext label next r c l,
      str_beq_iff coll c,
      str_beq_iff ext e,
      s.forth c e l,
    );
    below = λ c e l h. ground (
      arith,
      label_of-bind_label coll ext label next r c e,
      next_of-bind_label coll ext label next r c,
      str_beq_iff coll c,
      s.below c e l,
    );
  }

-- A free label of a sound registry: the next one.
pub external_at-next : (r : Registry) (c : Str) → IsSound r → external_at r c (next_of c r) ≡ none
external_at-next r c s = elim (Option-cases (external_at r c (next_of c r))) [
  | inl e ↦ e
  | inr (e, taken) ↦
      absurd (omega (arith, s.below c e (next_of c r) (s.forth c e (next_of c r) taken)))
]

register_new-IsSound :
    (coll ext : Str) (label : Option ℕ) (r : Registry)
    → label_of r coll ext ≡ none
    → IsSound r
    → IsSound (register_new coll ext label r).1
unfolding register_new
register_new-IsSound coll ext none r free s =
    bind_label-IsSound coll ext (next_of coll r) (suc (next_of coll r)) r free
      (external_at-next r coll s) (omega arith) (omega arith) s
register_new-IsSound coll ext (some label) r free s =
    elim (Option-cases (external_at r coll label)) [
      | inl e ↦
          rw (e, register_new)
            (bind_label-IsSound coll ext label (max (next_of coll r) (suc label)) r free e
              (omega arith) (omega arith) s)
      | inr (other, e) ↦ rw (e, register_new) s
    ]

pub register_existing-same :
    (ext : Str) (existing : ℕ) (label : Option ℕ) (r : Registry)
    → (register_existing ext existing label r).1 ≡ r
unfolding register_existing
register_existing-same ext existing none r = refl
register_existing-same ext existing (some label) r = ground arith

register_in-IsSound :
    (coll ext : Str) (label : Option ℕ) (r : Registry)
    → IsSound r
    → IsSound (register_in coll ext label r).1
unfolding register_in
register_in-IsSound coll ext label r s = elim (Option-cases (label_of r coll ext)) [
  | inl e ↦ rw (e, register_in) (register_new-IsSound coll ext label r e s)
  | inr (existing, e) ↦ rw (e, register_in) (rw (register_existing-same ext existing label r) s)
]

pub ensure_collection-IsSound :
    (collection : Str) (r : Registry) → IsSound r → IsSound (ensure_collection collection r).1
unfolding ensure_collection
ensure_collection-IsSound collection r s = elim (Result-cases (norm_collection collection)) [
  | inl (coll, e) ↦ rw (e, ensure_collection) (ensured-IsSound coll r s)
  | inr (x, e) ↦ rw (e, ensure_collection) s
]

-- `register` keeps the invariant on every branch, also when it raises.
pub register-IsSound :
    (collection external_id : Str) (label : Option ℕ) (r : Registry)
    → IsSound r
    → IsSound (register collection external_id label r).1
unfolding register
register-IsSound collection external_id label r s =
    elim (Result-cases (norm_collection collection)) [
      | inr (x, e) ↦ rw (e, register) s
      | inl (coll, e) ↦ elim (Result-cases (norm_external external_id)) [
        | inr (x, f) ↦ rw (e, f, register) s
        | inl (ext, f) ↦
            rw (e, f, register)
              (register_in-IsSound coll ext label (ensure_collection coll r).1
                (ensure_collection-IsSound coll r s))
      ]
    ]

pub unbind-IsSound :
    (id : ResolvedId) (r : Registry)
    → label_of r id.collection id.external_id ≡ some id.label
    → IsSound r
    → IsSound (del_reverse id (del_forward id r))
unbind-IsSound id r bound s = record {
  back = λ c e l h. ground (
    arith,
    label_of-unbind id r c e,
    external_at-unbind id r c l,
    str_beq_iff id.collection c,
    str_beq_iff id.external_id e,
    s.back c e l,
    s.forth c e l,
    s.forth c id.external_id l,
    s.back id.collection id.external_id id.label bound,
  );
  forth = λ c e l h. ground (
    arith,
    label_of-unbind id r c e,
    external_at-unbind id r c l,
    str_beq_iff id.collection c,
    str_beq_iff id.external_id e,
    s.forth c e l,
  );
  below = λ c e l h. ground (arith, label_of-unbind id r c e, next_of-unbind id r c, s.below c e l);
}
