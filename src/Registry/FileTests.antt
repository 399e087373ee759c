-- ===== src/Registry/FileTests.antt =====
-- A run of `save` and `load` of integrations/id_registry.py, over a text format of counted fields.
use unlearning.Prelude.{
  ℕ, zero, suc, ◌≡◌, refl, some, [], ◌∷◌, ◌++◌, length, take, drop, Bool-cases, inl, inr, Str, ok,
}
use unlearning.Prelude.Dict.{Dict, get}
use unlearning.Prelude.Eq.{nat_eq, str_eq, str_beq}
use unlearning.Registry.Tests
use unlearning.Registry.Tests.{docs, alice}
use unlearning.Registry.Ops
use unlearning.Registry.Ops.{
  Registry, empty, ensure_collection, register, forward_of, next_of, label_of, external_at,
}
use unlearning.Registry.Sound.{IsSound, empty-IsSound, register-IsSound}
use unlearning.Registry.Files.{
  Json, or_empty, invert_into, invert_all, max_value, fill_next, payload_of, save, load,
}
use unlearning.Registry.Saved.{Keeps, load-save}
use unlearning.Registry.Reuse.{
  Reach, here, next, dropped, ensured_collection, reloaded, Reach-IsSound,
}
use unlearning.Prelude.Text.{codes}

-- Each field is one more than its length, and its values; a zero ends an object.
unfoldable print_labels : Dict Str ℕ → Str
print_labels [] = 0 ∷ []
print_labels ((e, l) ∷ m) = suc (length e) ∷ e ++ l ∷ print_labels m

unfoldable print_all : Dict Str (Dict Str ℕ) → Str
print_all [] = 0 ∷ []
print_all ((c, m) ∷ d) = suc (length c) ∷ c ++ print_labels m ++ print_all d

unfoldable read_labels : ℕ → Str → Dict Str ℕ × Str
read_labels zero text = ([], text)
read_labels (suc fuel) [] = ([], [])
read_labels (suc fuel) (zero ∷ text) = ([], text)
read_labels (suc fuel) (suc n ∷ text) = elim (drop n text) [
  | [] ↦ ([], [])
  | l ∷ more ↦ let (m, rest) = read_labels fuel more in ((take n text, l) ∷ m, rest)
]

unfoldable read_all : ℕ → Str → Dict Str (Dict Str ℕ) × Str
read_all zero text = ([], text)
read_all (suc fuel) [] = ([], [])
read_all (suc fuel) (zero ∷ text) = ([], text)
read_all (suc fuel) (suc n ∷ text) =
    let (m, more) = read_labels fuel (drop n text) in
    let (d, rest) = read_all fuel more in ((take n text, m) ∷ d, rest)

abbrev toy_json : Json
toy_json = record {
  dumps = λ p. print_all (or_empty p.collections) ++ print_labels (or_empty p.next_label);
  loads = λ text.
      let (d, rest) = read_all 9 text in
      ok (record { collections = some d; next_label = some (read_labels 9 rest).0 });
}

abbrev stored : Registry
stored = (register docs alice (some 2) empty).1

stored-IsSound : IsSound stored
stored-IsSound = register-IsSound docs alice (some 2) empty empty-IsSound

stored-Keeps : Keeps toy_json (payload_of stored)
unfolding unlearning.Registry.Tests.program print_labels print_all read_labels read_all
stored-Keeps = record {
  read = payload_of stored;
  loads-dumps = refl;
  entries = λ c e. refl;
  next = λ c. refl;
  distinct = λ c. elim (Bool-cases (str_beq docs c)) [
    | inl t ↦ rw (t, forward_of, get) (refl, tt)
    | inr f ↦ rw (f, forward_of, get) tt
  ];
}

load-save_example :
    (r' : Registry) × (load toy_json (save toy_json stored) ≡ ok r')
    × IsSound r'
    × ((c e : Str) → label_of r' c e ≡ label_of stored c e)
    × ((c : Str) (l : ℕ) → external_at r' c l ≡ external_at stored c l)
    × ((c : Str) → next_of c r' ≡ next_of c stored)
load-save_example = load-save toy_json stored stored-Keeps stored-IsSound

loaded_run : load toy_json (save toy_json stored) ≡ ok stored
unfolding unlearning.Registry.Tests.program load save print_labels print_all read_labels read_all
    invert_into invert_all fill_next max_value
loaded_run = refl

-- A restart, a new collection and a drop.
reached : Reach stored (Ops.drop docs alice (ensure_collection (codes "notes") stored).1).1
reached =
    next
      (next (next here (reloaded toy_json stored-Keeps loaded_run))
        (ensured_collection (codes "notes")))
      (dropped docs alice)

Reach-IsSound_example : IsSound (Ops.drop docs alice (ensure_collection (codes "notes") stored).1).1
Reach-IsSound_example = Reach-IsSound stored-IsSound reached
