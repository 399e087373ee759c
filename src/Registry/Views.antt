-- ===== src/Registry/Views.antt =====
-- What the methods of the registry (integrations/id_registry.py) do to its two maps and to the next label, key by key.
use unlearning.Prelude.{ℕ, ◌≡◌, refl, ◌&&◌, none, some, [], arith, if◌then◌else◌, Str, ◌==◌}
use unlearning.Prelude.Dict.{put, remove, get-put, get-remove}
use unlearning.Prelude.Eq.{nat_eq, str_eq, str_beq, str_beq_iff}
use unlearning.Registry.Ops.{
  Registry, ResolvedId, ensured, forward_of, reverse_of, next_of, label_of, external_at, bind_label,
  del_forward, del_reverse,
}

module _ (coll : Str) (r : Registry) (c : Str) where
  pub forward_of-ensured : forward_of c (ensured coll r) ≡ forward_of c r
  unfolding ensured
  forward_of-ensured = ground (arith, str_beq_iff coll c, get-put coll c [] r.forward)

  pub reverse_of-ensured : reverse_of c (ensured coll r) ≡ reverse_of c r
  unfolding ensured
  reverse_of-ensured = ground (arith, str_beq_iff coll c, get-put coll c [] r.reverse)

  pub next_of-ensured : next_of c (ensured coll r) ≡ next_of c r
  unfolding ensured
  next_of-ensured = ground (arith, str_beq_iff coll c, get-put coll c 0 r.next_label)

module _ (coll ext : Str) (label next : ℕ) (r : Registry) (c : Str) where
  pub label_of-bind_label :
      (e : Str)
      → label_of (bind_label coll ext label next r) c e
        ≡ (if str_beq coll c && str_beq ext e then some label else label_of r c e)
  unfolding bind_label
  label_of-bind_label e = ground (
    arith,
    str_beq_iff coll c,
    get-put coll c (put ext label (forward_of coll r)) r.forward,
    get-put ext e label (forward_of coll r),
  )

  pub external_at-bind_label :
      (l : ℕ)
      → external_at (bind_label coll ext label next r) c l
        ≡ (if str_beq coll c && label == l then some ext else external_at r c l)
  unfolding bind_label
  external_at-bind_label l = ground (
    arith,
    str_beq_iff coll c,
    get-put coll c (put label ext (reverse_of coll r)) r.reverse,
    get-put label l ext (reverse_of coll r),
  )

  pub next_of-bind_label :
      next_of c (bind_label coll ext label next r) ≡ (if str_beq coll c then next else next_of c r)
  unfolding bind_label
  next_of-bind_label = ground (arith, get-put coll c next r.next_label)

module _ (id : ResolvedId) (r : Registry) (c : Str) where
  pub label_of-unbind :
      (e : Str)
      → label_of (del_reverse id (del_forward id r)) c e
        ≡ (if str_beq id.collection c && str_beq id.external_id e then none else label_of r c e)
  unfolding del_reverse del_forward
  label_of-unbind e = ground (
    arith,
    str_beq_iff id.collection c,
    get-put id.collection c (remove id.external_id (forward_of id.collection r)) r.forward,
    get-remove id.external_id e (forward_of id.collection r),
  )

  pub external_at-unbind :
      (l : ℕ)
      → external_at (del_reverse id (del_forward id r)) c l
        ≡ (if str_beq id.collection c && id.label == l then none else external_at r c l)
  unfolding del_reverse del_forward
  external_at-unbind l = ground (
    arith,
    str_beq_iff id.collection c,
    get-put id.collection c (remove id.label (reverse_of id.collection r)) r.reverse,
    get-remove id.label l (reverse_of id.collection r),
  )

  pub next_of-unbind : next_of c (del_reverse id (del_forward id r)) ≡ next_of c r
  unfolding del_reverse del_forward
  next_of-unbind = refl
