-- ===== src/Index/Shared.antt =====
-- Two collections of one adapter (integrations/faiss_adapter.py) share its matrix, while the registry
-- (integrations/id_registry.py) counts the labels of each collection from zero.
use unlearning.Prelude.{
  ℕ, ◌≡◌, ◌≢◌, refl, ap, ◌∙◌, false, Option, none, some, List, [], ◌∷◌, ==_iff, if◌then◌else◌, Str,
  ok, Bool-cases, inl, inr,
}
use unlearning.Prelude.Eq.{nat_eq, elem, str_beq, str_beq_iff}
use unlearning.Residual.{Floats}
use unlearning.Registry.Names.{norm_collection}
use unlearning.Registry.Ops.{Registry, ResolvedId, register, resolve, label_of}
use unlearning.Registry.Effects.{at_key, resolve-eq-ok, resolve_of_label, register-resolve}
use unlearning.Index.{HealMirror, append_row, get_vector, chosen}
use unlearning.Index.Rows.{IsMatrix, append_row-get_vector}
use unlearning.Index.Faiss
use unlearning.Index.Faiss.{FaissIndex, Faiss}
use unlearning.Index.Clean.{push_items-Pushed}

apart : (name coll c e ext : Str) → name ≡ coll → name ≢ c → at_key coll ext c e ≡ false
apart name coll c e ext same other = elim (Bool-cases (str_beq coll c)) [
  | inl t ↦ absurd (other (same ∙ (str_beq_iff coll c).0 t))
  | inr f ↦ rw f
]

-- An id of another collection resolves behind a `register` as it did before.
resolve-register_other :
    (coll ext c e : Str) (r r' : Registry) (l : ℕ) {id : ResolvedId} {name : Str}
    → resolve c e r ≡ ok id
    → register coll ext none r ≡ (ok l, r')
    → norm_collection coll ≡ ok name
    → name ≢ id.collection
    → resolve c e r' ≡ ok id
resolve-register_other coll ext c e r r' l {id} {name} at reg named other =
    let (bc, be, bound) = resolve-eq-ok c e r at in
    let (new, lab, there, view) = register-resolve coll ext none r reg in
    let (nc, ne, nbound) = resolve-eq-ok coll ext r' there in
    let same : name ≡ new.collection = cc in
    let kept : label_of r' id.collection id.external_id ≡ some id.label =
      view id.collection id.external_id
      ∙ rw (apart name new.collection id.collection id.external_id new.external_id same other)
          bound in
    resolve_of_label c e r' bc be ∙ rw kept refl

module _ (floats : Floats) (heal : HealMirror floats.F) (lib : FaissIndex floats.F) where
  abbrev pushed_items : ℕ → List floats.F → Faiss floats heal lib → List (ℕ × List floats.F)
  pushed_items l row a = if elem l (append_row l row a.matrix).deleted then [] else (l, row) ∷ []

  add_rows-one :
      (coll ext : Str) (row : List floats.F) (a : Faiss floats heal lib) {l : ℕ} {r' : Registry}
      → register coll ext none a.registry ≡ (ok l, r')
      → Faiss.add_rows floats heal lib coll (ext ∷ []) (row ∷ []) a ≡ (
        ok (l ∷ [], pushed_items l row a),
        record a { registry = r'; matrix = append_row l row a.matrix },
      )
  unfolding Faiss.add_rows
  add_rows-one coll ext row a reg = rw (reg, Faiss.add_rows) (rw reg)

  -- In the FAISS adapter, over a well-formed matrix, where an id of one collection resolves to a label
  -- and the registry gives the same label to an id of another collection: behind the `add` of that id,
  -- whatever the index and the mirror do, the first id still resolves to the label, and the label reads
  -- the row of the second.
  pub add-other_collection :
      (collection : Option Str) (ext c e : Str) (row : List floats.F) (a : Faiss floats heal lib)
      {id : ResolvedId} {name : Str} {r' : Registry}
      → IsMatrix a.matrix
      → resolve c e a.registry ≡ ok id
      → register (chosen collection a.default) ext none a.registry ≡ (ok id.label, r')
      → norm_collection (chosen collection a.default) ≡ ok name
      → name ≢ id.collection
      → (resolve c e
            (Faiss.add floats heal lib
              (ext ∷ [])
              (record { width = a.dim; rows = row ∷ [] })
              collection
              a).1.registry
          ≡ ok id)
        × (get_vector id.label
              (Faiss.add floats heal lib
                (ext ∷ [])
                (record { width = a.dim; rows = row ∷ [] })
                collection
                a).1.matrix
            ≡ ok row)
  unfolding Faiss.add
  add-other_collection collection ext c e row a {id} {name} {r'} h at reg named other =
      let ran = add_rows-one (chosen collection a.default) ext row a reg in
      let a' : Faiss floats heal lib = record a {
        registry = r';
        matrix = append_row id.label row a.matrix;
      } in
      let pushed =
        push_items-Pushed floats heal lib (id.label ∷ []) (pushed_items id.label row a) a' in
      rw ((==_iff a.dim a.dim).1 refl, ran, Faiss.add)
        (rw ran (
          ap (resolve c e) pushed.registry
              ∙ resolve-register_other (chosen collection a.default) ext c e a.registry r' id.label
                  at reg named other,
          ap (get_vector id.label) pushed.matrix ∙ append_row-get_vector a.matrix h id.label row,
        ))
