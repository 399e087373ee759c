-- ===== src/Prelude/Outcome.antt =====
-- What a Python call does: it returns a value or it raises. The exceptions are those that the
-- modelled code raises or catches by name; `other` is any further one, by its text.
use Prim.Native.Nat.{ℕ}
use mathlib.Core.Path.{◌≡◌, refl}
use mathlib.Core.Logic.{◌⊎◌, inl, inr}
use mathlib.Core.List.{List}

-- The code points of a Python `str`, and the values of a `bytes`.
abbrev pub Str : Type 0
Str = List ℕ

-- What an `IdMappingError` of integrations/id_registry.py says.
pub data IdProblem : Type 0 where
  unknown_id : Str → Str → IdProblem
  already_mapped : Str → ℕ → ℕ → IdProblem
  label_in_use : ℕ → Str → Str → IdProblem
  unknown_label : ℕ → Str → IdProblem

pub data Exn : Type 0 where
  value_error key_error runtime_error struct_error os_error other : Str → Exn
  id_mapping_error : IdProblem → Exn

pub data Result {ℓ} (A : Type ℓ) : Type ℓ where
  ok : A → Result A
  raise : Exn → Result A

infixl 5 ◌>>=◌ ◌>>◌
abbrev pub ◌>>=◌ {ℓ κ} : {A : Type ℓ} {B : Type κ} → Result A → (A → Result B) → Result B
raise exn >>= rest = raise exn
ok mid >>= rest = rest mid

abbrev pub ◌>>◌ {ℓ} : {B : Type ℓ} → Result (Unit {0}) → Result B → Result B
call >> rest = call >>= λ u. rest

pub Result-cases {ℓ} :
    {A : Type ℓ} (m : Result A) → ((a : A) × (m ≡ ok a)) ⊎ ((x : Exn) × (m ≡ raise x))
Result-cases (ok a) = inl (a, refl)
Result-cases (raise x) = inr (x, refl)

-- A call and its continuation that returned have both returned.
pub >>=-eq-ok {ℓ κ} :
    {A : Type ℓ} {B : Type κ} (call : Result A) (rest : A → Result B) {out : B}
    → (call >>= rest) ≡ ok out
    → (mid : A) × (call ≡ ok mid) × (rest mid ≡ ok out)
>>=-eq-ok (raise exn) rest e = absurd (cc)
>>=-eq-ok (ok mid) rest e = (mid, refl, e)
