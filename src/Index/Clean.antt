-- ===== src/Index/Clean.antt =====
-- The rebuild of integrations/faiss_adapter.py: what `compact` puts into the new index.
use unlearning.Prelude.{
  ℕ, ◌≡◌, ◌≢◌, ◌⊎◌, ◌∙◌, ap, sym, refl, Exn, Result-cases, true, none, some, List, [], ◌∷◌, arith,
  length, inl, inr, Result, ok, raise,
}
use unlearning.Prelude.Dict.{Dict, get, keys}
use unlearning.Prelude.Eq.{nat_eq, elem, IsDistinct}
use unlearning.Residual.{Floats}
use unlearning.Index.{HealMirror, Matrix, add_label, live_items, sync_heal_mirror}
use unlearning.Index.Rows.{IsMatrix}
use unlearning.Index.Live.{
  live_row, live_items-live_row, live_items-IsDistinct, deleted_row, same_row,
}
use unlearning.Index.Wipe.{faiss_delete-IsWiped, elem-add_label}
use unlearning.Index.Faiss
use unlearning.Index.Faiss.{FaissIndex, Faiss}

module _ (floats : Floats) (heal : HealMirror floats.F) (lib : FaissIndex floats.F) where
  -- An index that is new but for the items.
  pub built : Dict ℕ (List floats.F) → lib.I
  built [] = lib.new_index
  built (item ∷ items) = (lib.add_with_ids (item ∷ items) lib.new_index).1

  -- What the tail of a method leaves of its value and state: the mirror may change, and an exception
  -- may take the value's place.
  pub record Pushed {A : Type 0} (v : A) (a : Faiss floats heal lib)
      (m : Result A × Faiss floats heal lib) : Type 0 where
    pub value : (m.0 ≡ ok v) ⊎ ((x : Exn) × (m.0 ≡ raise x))
    pub matrix : m.1.matrix ≡ a.matrix
    pub registry : m.1.registry ≡ a.registry

  synced-Pushed :
      {A : Type 0} (v : A) (a : Faiss floats heal lib)
      → Pushed v a (Faiss.synced floats heal lib v a)
  unfolding Faiss.synced
  synced-Pushed v a = record {
    value = elim (Result-cases (sync_heal_mirror floats heal a.dim a.matrix a.mirror).0) [
      | inl (u, e) ↦ inl (rw (e, Faiss.synced))
      | inr (x, e) ↦ inr (x, rw (e, Faiss.synced))
    ];
    matrix = refl;
    registry = refl;
  }

  synced-index :
      {A : Type 0} (v : A) (a : Faiss floats heal lib)
      → (Faiss.synced floats heal lib v a).1.index ≡ a.index
  unfolding Faiss.synced
  synced-index v a = refl

  pub push_items-Pushed :
      {A : Type 0} (v : A) (items : Dict ℕ (List floats.F)) (a : Faiss floats heal lib)
      → Pushed v a (Faiss.push_items floats heal lib v items a)
  unfolding Faiss.push_items
  push_items-Pushed v [] a = synced-Pushed v a
  push_items-Pushed v (item ∷ items) a =
      elim (Result-cases (lib.add_with_ids (item ∷ items) a.index).0) [
        | inr (x, e) ↦
            rw (e, Faiss.push_items)
              (record { value = inr (x, refl); matrix = refl; registry = refl })
        | inl (u, e) ↦
            let a' : Faiss floats heal lib = record a {
              index = (lib.add_with_ids (item ∷ items) a.index).1;
            } in
            let s = synced-Pushed v a' in
            rw (e, Faiss.push_items)
              (record { value = s.value; matrix = s.matrix; registry = s.registry })
      ]

  push_items-index :
      {A : Type 0} (v : A) (items : Dict ℕ (List floats.F)) (a : Faiss floats heal lib)
      → a.index ≡ lib.new_index
      → (Faiss.push_items floats heal lib v items a).1.index ≡ built items
  unfolding Faiss.push_items built
  push_items-index v [] a e = synced-index v a ∙ e
  push_items-index v (item ∷ items) a e =
      elim (Result-cases (lib.add_with_ids (item ∷ items) a.index).0) [
        | inr (x, t) ↦ rw (t, Faiss.push_items) (rw e)
        | inl (u, t) ↦
            rw (t, Faiss.push_items)
              (synced-index v (record a { index = (lib.add_with_ids (item ∷ items) a.index).1 })
                ∙ rw e)
      ]

  -- Each live row of the matrix once, and nothing else.
  pub record Holds (m : Matrix floats.F) (items : Dict ℕ (List floats.F)) : Type 0 where
    pub distinct : IsDistinct (keys items)
    pub rows : (l : ℕ) → get l items ≡ live_row floats l m

  -- A rebuild, whatever the index and the mirror do: the index is a new one into which just the live
  -- rows were put, each once; the matrix stays; the call returns their number, or raises.
  pub compact-Holds :
      (a : Faiss floats heal lib)
      → IsMatrix a.matrix
      → (items : Dict ℕ (List floats.F)) × Holds a.matrix items
        × ((Faiss.compact floats heal lib a).1.index ≡ built items)
        × ((Faiss.compact floats heal lib a).1.matrix ≡ a.matrix)
        × (((Faiss.compact floats heal lib a).0 ≡ ok (length items))
            ⊎ ((x : Exn) × ((Faiss.compact floats heal lib a).0 ≡ raise x)))
  unfolding Faiss.compact
  compact-Holds a h =
      let items = live_items floats a.matrix a.matrix.label_to_row in
      let fresh : Faiss floats heal lib = record a { index = lib.new_index } in
      let pushed = push_items-Pushed (length items) items fresh in
      (
        items,
        record {
          distinct = live_items-IsDistinct floats a.matrix a.matrix.label_to_row h.distinct;
          rows = λ l. live_items-live_row floats l a.matrix h;
        },
        push_items-index (length items) items fresh refl,
        pushed.matrix,
        pushed.value,
      )

  other-add_label :
      (k label : ℕ) (xs : List ℕ) → k ≢ label → elem k (add_label label xs) ≡ elem k xs
  other-add_label k label xs other =
      ground (arith, nat_eq.beq_iff label k, λ (e : label ≡ k). other (sym e))

  -- A hard delete of a label that the adapter has, over a well-formed matrix, and where the number
  -- zero tests as zero, and then a rebuild, whatever the index and the mirror do: the new index holds no row of the label, and of every other label the live row that
  -- it had before, each once. The rebuild returns the number of these rows, or raises.
  pub compact-hard_delete_label :
      (label i max_m : ℕ) (a : Faiss floats heal lib)
      → floats.is_zero floats.zero ≡ true
      → IsMatrix a.matrix
      → get label a.matrix.label_to_row ≡ some i
      → (items : Dict ℕ (List floats.F)) × IsDistinct (keys items)
        × ((Faiss.compact floats heal lib
              (Faiss.hard_delete_label floats heal lib label max_m a).1).1.index
            ≡ built items)
        × (get label items ≡ none)
        × ((k : ℕ) → k ≢ label → get k items ≡ live_row floats k a.matrix)
        × (((Faiss.compact floats heal lib
                (Faiss.hard_delete_label floats heal lib label max_m a).1).0
              ≡ ok (length items))
            ⊎ ((x : Exn) × ((Faiss.compact floats heal lib
                    (Faiss.hard_delete_label floats heal lib label max_m a).1).0
                  ≡ raise x)))
  compact-hard_delete_label label i max_m a z h at_i =
      let (out, ran, good, noted, w) =
        faiss_delete-IsWiped floats heal lib label i max_m a z h at_i in
      let a' = (Faiss.hard_delete_label floats heal lib label max_m a).1 in
      let gone : elem label a'.matrix.deleted ≡ true =
        ap (elem label) noted ∙ elem-add_label label a.matrix.deleted in
      let (items, holds, index, same, value) = compact-Holds a' w.kept in
      (
        items,
        holds.distinct,
        index,
        holds.rows label ∙ deleted_row floats label a'.matrix gone,
        λ k other.
            holds.rows k
            ∙ same_row floats k a.matrix a'.matrix
                (ap (elem k) noted ∙ other-add_label k label a.matrix.deleted other)
                (w.others k other),
        value,
      )
