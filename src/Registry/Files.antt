-- ===== src/Registry/Files.antt =====
-- `save` and `load` of integrations/id_registry.py: the payload that is written as JSON, and the registry
-- that is made of what was read. The JSON text is a parameter.
use unlearning.Prelude.{ℕ, suc, max, Option, none, some, [], ◌∷◌, Str, Result, ok, raise}
use unlearning.Prelude.Dict.{Dict, put}
use unlearning.Prelude.Eq.{nat_eq, str_eq}
use unlearning.Registry.Ops.{Registry, setdefault}

-- A key that is missing is `none`.
pub record Payload : Type 0 where
  pub collections : Option (Dict Str (Dict Str ℕ))
  pub next_label : Option (Dict Str ℕ)

-- `json.dumps(payload, indent=2, sort_keys=True)` and `json.loads`
pub record Json : Type 0 where
  pub dumps : Payload → Str
  pub loads : Str → Result Payload

-- `payload.get(key, {})`
abbrev pub or_empty {ℓ} : {V : Type ℓ} → Option (Dict Str V) → Dict Str V
or_empty none = []
or_empty (some d) = d

-- `{lab: ext for ext, lab in m.items()}`
unfoldable pub invert_into : Dict ℕ Str → Dict Str ℕ → Dict ℕ Str
invert_into acc [] = acc
invert_into acc ((ext, lab) ∷ m) = invert_into (put lab ext acc) m

unfoldable pub invert_all : Dict Str (Dict Str ℕ) → Dict Str (Dict ℕ Str)
invert_all [] = []
invert_all ((c, m) ∷ forward) = (c, invert_into [] m) ∷ invert_all forward

unfoldable pub max_value : Dict Str ℕ → ℕ
max_value [] = 0
max_value ((e, l) ∷ m) = max l (max_value m)

-- `(max(m.values()) + 1) if m else 0`
abbrev pub first_free : Dict Str ℕ → ℕ
first_free [] = 0
first_free ((e, l) ∷ m) = suc (max_value ((e, l) ∷ m))

-- The last loop of `load`.
unfoldable pub fill_next : Dict Str ℕ → Dict Str (Dict Str ℕ) → Dict Str ℕ
fill_next next [] = next
fill_next next ((c, m) ∷ forward) = fill_next (setdefault c (first_free m) next) forward

abbrev pub of_payload : Payload → Registry
of_payload p = record {
  forward = or_empty p.collections;
  reverse = invert_all (or_empty p.collections);
  next_label = fill_next (or_empty p.next_label) (or_empty p.collections);
}

abbrev pub payload_of : Registry → Payload
payload_of r = record { collections = some r.forward; next_label = some r.next_label }

-- The text of the file.
unfoldable pub save : Json → Registry → Str
save json r = json.dumps (payload_of r)

-- What `load` makes of a file's text; the maps from before are replaced.
unfoldable pub load : Json → Str → Result Registry
load json text = elim (json.loads text) [ raise x ↦ raise x | ok p ↦ ok (of_payload p) ]
