-- ===== src/Registry/Ops.antt =====
-- The methods of `CollectionIdRegistry` (integrations/id_registry.py). A method returns the new
-- registry beside its result; one that raises returns the registry as the exception leaves it.
use unlearning.Prelude.{
  ℕ, suc, Bool, Option, none, some, List, [], ◌∷◌, max, ◌==◌, if◌then◌else◌, Str, unknown_id,
  already_mapped, label_in_use, unknown_label, id_mapping_error, key_error, Result, ok, raise,
  ◌>>=◌,
}
use unlearning.Prelude.Dict.{Dict, get, put, remove, keys, is_some}
use unlearning.Prelude.Eq.{nat_eq, str_eq}
use unlearning.Prelude.Sort.{sorted}
use unlearning.Prelude.Text.{codes}
use unlearning.Registry.Names.{norm_collection, norm_external}

pub record ResolvedId : Type 0 where
  pub collection : Str
  pub external_id : Str
  pub label : ℕ

pub record Registry : Type 0 where
  pub forward : Dict Str (Dict Str ℕ)
  pub reverse : Dict Str (Dict ℕ Str)
  pub next_label : Dict Str ℕ

-- `__init__`
abbrev pub empty : Registry
empty = record { forward = []; reverse = []; next_label = [] }

-- `d.setdefault(k, v)`
abbrev pub setdefault {ℓ} : {V : Type ℓ} → Str → V → Dict Str V → Dict Str V
setdefault k v d = elim (get k d) [ none ↦ put k v d | some w ↦ d ]

-- The body of `ensure_collection`, behind the normalisation.
unfoldable pub ensured : Str → Registry → Registry
ensured coll r = record {
  forward = setdefault coll [] r.forward;
  reverse = setdefault coll [] r.reverse;
  next_label = setdefault coll 0 r.next_label;
}

unfoldable pub ensure_collection : Str → Registry → Result (Unit {0}) × Registry
unfolding ensured
ensure_collection collection r = elim (norm_collection collection) [
  | raise x ↦ (raise x, r)
  | ok coll ↦ (ok tt, ensured coll r)
]

-- `self._forward[coll]`, `self._reverse[coll]`, `self._next_label[coll]` and their lookups. Behind
-- `ensure_collection` the collection is there; a read of a missing one finds nothing here.
abbrev pub forward_of : Str → Registry → Dict Str ℕ
forward_of coll r = elim (get coll r.forward) [ none ↦ [] | some m ↦ m ]

abbrev pub reverse_of : Str → Registry → Dict ℕ Str
reverse_of coll r = elim (get coll r.reverse) [ none ↦ [] | some m ↦ m ]

abbrev pub next_of : Str → Registry → ℕ
next_of coll r = elim (get coll r.next_label) [ none ↦ 0 | some n ↦ n ]

abbrev pub label_of : Registry → Str → Str → Option ℕ
label_of r coll ext = get ext (forward_of coll r)

abbrev pub external_at : Registry → Str → ℕ → Option Str
external_at r coll label = get label (reverse_of coll r)

-- The last writes of `register`.
unfoldable pub bind_label : Str → Str → ℕ → ℕ → Registry → Registry
bind_label coll ext label next r = record {
  forward = put coll (put ext label (forward_of coll r)) r.forward;
  reverse = put coll (put label ext (reverse_of coll r)) r.reverse;
  next_label = put coll next r.next_label;
}

-- `register` when the id has no label yet.
unfoldable pub register_new : Str → Str → Option ℕ → Registry → Result ℕ × Registry
register_new coll ext none r =
    (ok (next_of coll r), bind_label coll ext (next_of coll r) (suc (next_of coll r)) r)
register_new coll ext (some label) r = elim (external_at r coll label) [
  | some other ↦ (raise (id_mapping_error (label_in_use label coll other)), r)
  | none ↦ (ok label, bind_label coll ext label (max (next_of coll r) (suc label)) r)
]

-- `register` when the id has a label.
unfoldable pub register_existing : Str → ℕ → Option ℕ → Registry → Result ℕ × Registry
register_existing ext existing none r = (ok existing, r)
register_existing ext existing (some label) r =
    if label == existing
    then (ok existing, r)
    else (raise (id_mapping_error (already_mapped ext existing label)), r)

-- `register` on normal names, behind `ensure_collection`.
unfoldable pub register_in : Str → Str → Option ℕ → Registry → Result ℕ × Registry
unfolding register_new register_existing
register_in coll ext label r = elim (label_of r coll ext) [
  | some existing ↦ register_existing ext existing label r
  | none ↦ register_new coll ext label r
]

unfoldable pub register : Str → Str → Option ℕ → Registry → Result ℕ × Registry
register collection external_id label r = elim (norm_collection collection) [
  | raise x ↦ (raise x, r)
  | ok coll ↦ elim (norm_external external_id) [
    | raise x ↦ (raise x, r)
    | ok ext ↦ register_in coll ext label (ensure_collection coll r).1
  ]
]

unfoldable pub register_many : Str → List Str → Registry → Result (List ℕ) × Registry
register_many collection [] r = (ok [], r)
register_many collection (eid ∷ eids) r =
    let (first, r₁) = register collection eid none r in
    elim first [
      | raise x ↦ (raise x, r₁)
      | ok label ↦
          let (others, r₂) = register_many collection eids r₁ in
          ((do ls ← others; ok (label ∷ ls)), r₂)
    ]

unfoldable pub resolve : Str → Str → Registry → Result ResolvedId
resolve collection external_id r = do
  coll ← norm_collection collection
  ext ← norm_external external_id
  elim (label_of r coll ext) [
    | none ↦ raise (id_mapping_error (unknown_id ext coll))
    | some label ↦ ok (record { collection = coll; external_id = ext; label = label })
  ]

unfoldable pub resolve_many : Str → List Str → Registry → Result (List ResolvedId)
resolve_many collection [] r = ok []
resolve_many collection (eid ∷ eids) r = do
  first ← resolve collection eid r
  others ← resolve_many collection eids r
  ok (first ∷ others)

unfoldable pub external_of : Str → ℕ → Registry → Result Str
external_of collection label r = do
  coll ← norm_collection collection
  elim (external_at r coll label) [
    | none ↦ raise (id_mapping_error (unknown_label label coll))
    | some ext ↦ ok ext
  ]

-- The two `del` statements of `drop`.
unfoldable pub del_forward : ResolvedId → Registry → Registry
del_forward id r = record r {
  forward = put id.collection (remove id.external_id (forward_of id.collection r)) r.forward;
}

unfoldable pub del_reverse : ResolvedId → Registry → Registry
del_reverse id r = record r {
  reverse = put id.collection (remove id.label (reverse_of id.collection r)) r.reverse;
}

-- `del` raises a `KeyError` on a missing key.
unfoldable pub unbind : ResolvedId → Registry → Result ℕ × Registry
unbind id r = elim (external_at r id.collection id.label) [
  | none ↦ (raise (key_error (codes "label")), del_forward id r)
  | some ext ↦ (ok id.label, del_reverse id (del_forward id r))
]

unfoldable pub drop : Str → Str → Registry → Result ℕ × Registry
unfolding unbind
drop collection external_id r = elim (resolve collection external_id r) [
  | raise x ↦ (raise x, r)
  | ok id ↦ unbind id r
]

unfoldable pub contains : Str → Str → Registry → Result Bool
contains collection external_id r = do
  coll ← norm_collection collection
  ext ← norm_external external_id
  ok (is_some (label_of r coll ext))

unfoldable pub labels : Str → Registry → Result (List ℕ)
labels collection r = do coll ← norm_collection collection; ok (sorted (keys (reverse_of coll r)))
