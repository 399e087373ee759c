-- ===== src/Index/Tests.antt =====
-- Runs of the adapters (integrations/hnswlib_adapter.py, integrations/faiss_adapter.py) over numbers,
-- with a list of items as the index and no heal mirror.
use unlearning.Prelude.{
  ℕ, suc, ◌≡◌, ◌≢◌, ◌⊎◌, refl, true, Option, none, some, List, [], ◌∷◌, ◌++◌, arith, length, Str,
  Exn, Result, ok, raise, other,
}
use unlearning.Prelude.Dict.{Dict, get, keys}
use unlearning.Prelude.Eq.{nat_eq, str_eq, str_beq, str_beq_iff, IsDistinct}
use unlearning.Prelude.Text.{codes}
use unlearning.Residual.Tests.{toy_floats}
use unlearning.Registry.Names.{norm_collection}
use unlearning.Registry.Ops.{Registry, ResolvedId, empty, register, resolve}
use unlearning.Index.{HealMirror, Matrix, no_rows, append_row, get_vector}
use unlearning.Index.Rows.{IsMatrix, no_rows-IsMatrix, append_row-IsMatrix}
use unlearning.Index.Wipe.{IsWiped, Ends, hnswlib_delete-IsWiped}
use unlearning.Index.Live.{live_row}
use unlearning.Index.Clean.{built, compact-hard_delete_label}
use unlearning.Index.Shared.{add-other_collection}
use unlearning.Index.Hnswlib
use unlearning.Index.Hnswlib.{HnswlibIndex, Hnswlib}
use unlearning.Index.Faiss
use unlearning.Index.Faiss.{FaissIndex, Faiss}

abbrev toy_heal : HealMirror ℕ
toy_heal = record {
  M = Unit {0};
  is_loaded = λ m. true;
  num_elements = λ m. 9;
  load_index = λ rows dim n m. (ok tt, tt);
  set_neighbors = λ i nbrs m. (ok tt, tt);
  erase_node = λ i max_m m. (ok tt, tt);
  exn_text = λ x. [];
}

abbrev toy_hnswlib : HnswlibIndex ℕ
toy_hnswlib = record {
  I = List ℕ;
  new_index = λ cap. [];
  add_items = λ items index. (ok tt, keys items ++ index);
  mark_deleted = λ label index. (ok tt, index);
  blank = [];
  load_file = λ path cap index. (ok tt, index);
}

abbrev toy_faiss : FaissIndex ℕ
toy_faiss = record {
  I = List ℕ;
  new_index = [];
  add_with_ids = λ items index. (ok tt, keys items ++ index);
  remove_ids = λ label index. (ok 1, index);
  read_index = λ path. ok [];
}

-- Two labels with their rows.
abbrev two_rows : Matrix ℕ
two_rows = append_row 1 (5 ∷ 6 ∷ []) (append_row 0 (3 ∷ 4 ∷ []) no_rows)

two_rows-IsMatrix : IsMatrix two_rows
two_rows-IsMatrix =
    append_row-IsMatrix (append_row 0 (3 ∷ 4 ∷ []) no_rows)
      (append_row-IsMatrix no_rows no_rows-IsMatrix 0 (3 ∷ 4 ∷ [])) 1 (5 ∷ 6 ∷ [])

row_of_one : get 1 two_rows.label_to_row ≡ some 1
unfolding append_row get unlearning.Prelude.Dict.put
row_of_one = refl

abbrev shop : Hnswlib toy_floats toy_heal toy_hnswlib
shop = record {
  dim = 2;
  max_elements = 10;
  default = codes "docs";
  registry = empty;
  matrix = two_rows;
  index = 1 ∷ 0 ∷ [];
  mirror = some tt;
}

hnswlib_delete-IsWiped_example :
    IsWiped toy_floats 1 two_rows
      (Hnswlib.hard_delete_label toy_floats toy_heal toy_hnswlib 1 16 shop).1.matrix
    × Ends toy_floats toy_heal toy_hnswlib 1 shop
        (Hnswlib.hard_delete_label toy_floats toy_heal toy_hnswlib 1 16 shop)
hnswlib_delete-IsWiped_example =
    hnswlib_delete-IsWiped toy_floats toy_heal toy_hnswlib 1 1 16 shop refl two_rows-IsMatrix
      row_of_one

abbrev store : Faiss toy_floats toy_heal toy_faiss
store = record {
  dim = 2;
  default = codes "docs";
  registry = empty;
  matrix = two_rows;
  index = 1 ∷ 0 ∷ [];
  mirror = some tt;
}

abbrev wiped_store : Faiss toy_floats toy_heal toy_faiss
wiped_store = (Faiss.hard_delete_label toy_floats toy_heal toy_faiss 1 16 store).1

compact-hard_delete_label_example :
    (items : Dict ℕ (List ℕ)) × IsDistinct (keys items)
    × ((Faiss.compact toy_floats toy_heal toy_faiss wiped_store).1.index
        ≡ built toy_floats toy_heal toy_faiss items)
    × (get 1 items ≡ none)
    × ((k : ℕ) → k ≢ 1 → get k items ≡ live_row toy_floats k two_rows)
    × (((Faiss.compact toy_floats toy_heal toy_faiss wiped_store).0 ≡ ok (length items))
        ⊎ ((x : Exn) × ((Faiss.compact toy_floats toy_heal toy_faiss wiped_store).0 ≡ raise x)))
compact-hard_delete_label_example =
    compact-hard_delete_label toy_floats toy_heal toy_faiss 1 1 16 store refl two_rows-IsMatrix
      row_of_one

abbrev docs : Str
docs = codes "docs"

abbrev mail : Str
mail = codes "mail"

abbrev alice : Str
alice = codes "alice"

-- The first id of the collection `docs` has the label 0 and the row 3 4.
abbrev with_alice : Faiss toy_floats toy_heal toy_faiss
with_alice = record {
  dim = 2;
  default = docs;
  registry = (register docs alice none empty).1;
  matrix = append_row 0 (3 ∷ 4 ∷ []) no_rows;
  index = 0 ∷ [];
  mirror = none;
}

abbrev alice_id : ResolvedId
alice_id = record { collection = docs; external_id = alice; label = 0 }

registry_run : Unit {0}
unfolding get unlearning.Prelude.Dict.put unlearning.Prelude.Text.strip
    unlearning.Prelude.Text.lstrip unlearning.Prelude.Text.rstrip unlearning.Prelude.Text.is_space
    unlearning.Registry.Names.norm_collection unlearning.Registry.Names.norm_external
    unlearning.Registry.Ops.ensured unlearning.Registry.Ops.ensure_collection
    unlearning.Registry.Ops.bind_label unlearning.Registry.Ops.register_new
    unlearning.Registry.Ops.register_in register resolve
registry_run = tt

alice_found : resolve docs alice with_alice.registry ≡ ok alice_id
unfolding registry_run
alice_found = refl

abbrev both : Registry
both = (register mail (codes "bob") none with_alice.registry).1

bob_registered : register mail (codes "bob") none with_alice.registry ≡ (ok 0, both)
unfolding registry_run
bob_registered = refl

mail_named : norm_collection mail ≡ ok mail
unfolding registry_run
mail_named = refl

mail-ne-docs : mail ≢ docs
mail-ne-docs h = let e : str_beq mail docs ≡ true = (str_beq_iff mail docs).1 h in cc

-- The first id of another collection gets the label 0 too, and its row takes the place of the other.
add-other_collection_example :
    (resolve docs alice
        (Faiss.add toy_floats toy_heal toy_faiss
          (codes "bob" ∷ [])
          (record { width = 2; rows = (7 ∷ 8 ∷ []) ∷ [] })
          (some mail)
          with_alice).1.registry
      ≡ ok alice_id)
    × (get_vector 0
          (Faiss.add toy_floats toy_heal toy_faiss
            (codes "bob" ∷ [])
            (record { width = 2; rows = (7 ∷ 8 ∷ []) ∷ [] })
            (some mail)
            with_alice).1.matrix
        ≡ ok (7 ∷ 8 ∷ []))
add-other_collection_example =
    add-other_collection toy_floats toy_heal toy_faiss (some mail) (codes "bob") docs alice
      (7 ∷ 8 ∷ []) with_alice (append_row-IsMatrix no_rows no_rows-IsMatrix 0 (3 ∷ 4 ∷ []))
      alice_found bob_registered mail_named mail-ne-docs
