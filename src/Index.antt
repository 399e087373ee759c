-- ===== src/Index.antt =====
-- The matrix that integrations/hnswlib_adapter.py and integrations/faiss_adapter.py have in common:
-- the authoritative rows, the rows of the labels, and the deleted labels. Floats are a parameter;
-- `nbytes` counts four bytes for a float32. The numbers in the texts of exceptions are left out. The heal mirror (the native `HNSWIndexProxy`) is an
-- interface.
pub mod Hnswlib
pub mod Faiss
pub mod Rows
pub mod Wipe
pub mod Live
pub mod Clean
pub mod Shared
mod Tests
use unlearning.Prelude.{
  ℕ, zero, suc, ◌+◌, ◌-◌, ◌*◌, ◌%◌, Bool, true, false, not, ◌&&◌, Option, none, some, List, [], ◌∷◌,
  ◌++◌, map, all, length, get_elem?, ltb, if◌then◌else◌, Str, Exn, key_error, other, Result, ok,
  raise,
}
use unlearning.Prelude.Dict.{Dict, get, put, is_some}
use unlearning.Prelude.Eq.{nat_eq, elem}
use unlearning.Prelude.Text.{codes}
use unlearning.Residual.{Floats}

-- `HNSWIndexProxy`, as the adapters call it.
pub record HealMirror (F : Type 0) : Type 1 where
  pub M : Type 0
  pub is_loaded : M → Bool
  pub num_elements : M → ℕ
  pub load_index : List (List F) → ℕ → ℕ → M → Result (Unit {0}) × M
  pub set_neighbors : ℕ → List ℕ → M → Result (Unit {0}) × M
  pub erase_node : ℕ → ℕ → M → Result (Unit {0}) × M
  pub exn_text : Exn → Str

pub record Matrix (F : Type 0) : Type 0 where
  pub vectors : List (List F)
  pub label_to_row : Dict ℕ ℕ
  pub row_to_label : List ℕ
  pub deleted : List ℕ

abbrev pub no_rows : {F : Type 0} → Matrix F
no_rows = record { vectors = []; label_to_row = []; row_to_label = []; deleted = [] }

-- The next call, unless an exception left the one before.
abbrev pub then_do : {A S : Type 0} → (S → Result A × S) → Result (Unit {0}) × S → Result A × S
then_do k (ok u, s) = k s
then_do k (raise x, s) = (raise x, s)

-- `collection or self.collection`
abbrev pub chosen : Option Str → Str → Str
chosen none default = default
chosen (some []) default = default
chosen (some (c ∷ cs)) default = c ∷ cs

-- `xs.discard(label)`, `xs.add(label)`
unfoldable pub discard : ℕ → List ℕ → List ℕ
discard label [] = []
discard label (x ∷ xs) =
    let rest = discard label xs in if nat_eq.beq x label then rest else x ∷ rest

abbrev pub add_label : ℕ → List ℕ → List ℕ
add_label label xs = if elem label xs then xs else label ∷ xs

-- `rows[i] = row`
unfoldable pub set_row {ℓ} : {A : Type ℓ} → ℕ → A → List A → List A
set_row i row [] = []
set_row zero row (r ∷ rs) = row ∷ rs
set_row (suc i) row (r ∷ rs) = r ∷ set_row i row rs

module _ {F : Type 0} where
  -- `_append_row`
  unfoldable pub append_row : ℕ → List F → Matrix F → Matrix F
  append_row label vector m = elim (get label m.label_to_row) [
    | some i ↦ record m { vectors = set_row i vector m.vectors; deleted = discard label m.deleted }
    | none ↦ record m {
      vectors = m.vectors ++ vector ∷ [];
      label_to_row = put label (length m.vectors) m.label_to_row;
      row_to_label = m.row_to_label ++ label ∷ [];
    }
  ]

  -- `get_vector`
  unfoldable pub get_vector : ℕ → Matrix F → Result (List F)
  get_vector label m = elim (get label m.label_to_row) [
    | none ↦ raise (key_error (codes "label"))
    | some i ↦ elim (get_elem? m.vectors i) [
      | none ↦ raise (other (codes "index out of bounds"))
      | some row ↦ ok row
    ]
  ]

module _ (floats : Floats) where
  abbrev pub zeros : List floats.F → List floats.F
  zeros row = map (λ x. floats.zero) row

  -- `np.all(row == 0.0)`
  abbrev pub is_zero_row : List floats.F → Bool
  is_zero_row row = all floats.is_zero row

  -- The row is overwritten with zeros.
  unfoldable pub zero_row : ℕ → List (List floats.F) → List (List floats.F)
  zero_row i [] = []
  zero_row zero (row ∷ rows) = zeros row ∷ rows
  zero_row (suc i) (row ∷ rows) = row ∷ zero_row i rows

  unfoldable pub verify_zeroed : ℕ → Matrix floats.F → Bool
  verify_zeroed label m = elim (get label m.label_to_row) [
    | none ↦ false
    | some i ↦ elim (get_elem? m.vectors i) [ none ↦ false | some row ↦ is_zero_row row ]
  ]

  -- `original.nbytes`
  abbrev pub nbytes : ℕ → List (List floats.F) → ℕ
  nbytes i rows = elim (get_elem? rows i) [ none ↦ 0 | some row ↦ 4 * length row ]

  -- The labels and rows that `compact` keeps.
  unfoldable pub live_items : Matrix floats.F → Dict ℕ ℕ → List (ℕ × List floats.F)
  live_items m [] = []
  live_items m ((label, i) ∷ d) =
      let rest = live_items m d in
      if elem label m.deleted then rest else elim (get_elem? m.vectors i) [
        | none ↦ rest
        | some row ↦ if is_zero_row row then rest else (label, row) ∷ rest
      ]

  -- The image of the matrix in which the deleted rows are zero.
  unfoldable pub wiped_rows : List ℕ → Matrix floats.F → List (List floats.F)
  wiped_rows [] m = m.vectors
  wiped_rows (label ∷ labels) m =
      let rows = wiped_rows labels m in
      elim (get label m.label_to_row) [ none ↦ rows | some i ↦ zero_row i rows ]

  module _ (heal : HealMirror floats.F) where
    -- The ring adjacency of `n` rows, from row `i` on; `(i - 1) % n` counts down from `n` at 0.
    unfoldable pub ring : ℕ → ℕ → ℕ → heal.M → Result (Unit {0}) × heal.M
    ring n i zero h = (ok tt, h)
    ring n i (suc todo) h =
        then_do (ring n (suc i) todo)
          (heal.set_neighbors i (((i + (n - 1)) % n) ∷ (suc i % n) ∷ ((i + 2) % n) ∷ []) h)

    -- `_sync_heal_mirror`; the width of a row is the adapter's `dim`.
    unfoldable pub sync_heal_mirror :
        ℕ → Matrix floats.F → Option heal.M → Result (Unit {0}) × Option heal.M
    sync_heal_mirror dim m none = (ok tt, none)
    sync_heal_mirror dim m (some h) =
        let n = length m.vectors in
        let (out, h') = then_do (ring n 0 n) (heal.load_index (wiped_rows m.deleted m) dim n h) in
        if nat_eq.beq n 0 then (ok tt, some h) else (out, some h')

    -- The heal of one erased row, and what it adds to the message.
    unfoldable pub heal_row : ℕ → ℕ → Option heal.M → Str × Option heal.M
    heal_row i max_m none = ([], none)
    heal_row i max_m (some h) =
        let (out, h') = heal.erase_node i max_m h in
        if heal.is_loaded h && ltb i (heal.num_elements h)
        then elim out [
          | ok u ↦ (codes "+mn_ru_heal", some h')
          | raise x ↦ (codes "+heal_error(" ++ (heal.exn_text x ++ codes ")"), some h')
        ]
        else ([], some h)
