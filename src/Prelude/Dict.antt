-- ===== src/Prelude/Dict.antt =====
-- Python's `dict`, as an association list in insertion order, over keys with an equality test.
use mathlib.Core.Path.{◌≡◌, refl}
use mathlib.Core.Bool.{Bool, true, false, ◌||◌}
use mathlib.Core.Option.{Option, none, some}
use mathlib.Core.List.{List, [], ◌∷◌}
use native.Mathlib.Omega.{arith}
use unlearning.Prelude.Tests.{if◌then◌else◌}
use unlearning.Prelude.Eq.{Eq, elem, IsDistinct}

abbrev pub Dict {ℓ κ} : Type ℓ → Type κ → Type (ℓ ⊔ κ)
Dict K V = List (K × V)

-- `d.keys()`
abbrev pub keys {ℓ κ} : {K : Type ℓ} {V : Type κ} → Dict K V → List K
keys [] = []
keys ((k, v) ∷ d) = k ∷ keys d

abbrev pub is_some {ℓ} : {A : Type ℓ} → Option A → Bool
is_some none = false
is_some (some a) = true

module _ {ℓ κ} {K : Type ℓ} {V : Type κ} ⦃e : Eq K⦄ where
  -- `d.get(k)`
  unfoldable pub get : K → Dict K V → Option V
  get k [] = none
  get k ((j, v) ∷ d) = if e.beq j k then some v else get k d

  -- `d[k] = v`: a key that is there keeps its place
  unfoldable pub put : K → V → Dict K V → Dict K V
  put k v [] = (k, v) ∷ []
  put k v ((j, w) ∷ d) = if e.beq j k then (k, v) ∷ d else (j, w) ∷ put k v d

  -- `del d[k]`, `d.pop(k, None)`
  unfoldable pub remove : K → Dict K V → Dict K V
  remove k [] = []
  remove k ((j, w) ∷ d) = let rest = remove k d in if e.beq j k then rest else (j, w) ∷ rest

  pub get-put :
      (k j : K) (v : V) (d : Dict K V) → get j (put k v d) ≡ (if e.beq k j then some v else get j d)
  unfolding get put
  get-put k j v [] = refl
  get-put k j v ((i, w) ∷ d) =
      ground (arith, e.beq_iff k j, e.beq_iff i k, e.beq_iff i j, get-put k j v d)

  pub get-remove :
      (k j : K) (d : Dict K V) → get j (remove k d) ≡ (if e.beq k j then none else get j d)
  unfolding get remove
  get-remove k j [] = ground arith
  get-remove k j ((i, w) ∷ d) =
      ground (arith, e.beq_iff k j, e.beq_iff i k, e.beq_iff i j, get-remove k j d)

  -- `k in d` is what `d.get(k)` finds.
  pub elem-keys : (k : K) (d : Dict K V) → elem k (keys d) ≡ is_some (get k d)
  unfolding get
  elem-keys k [] = refl
  elem-keys k ((j, v) ∷ d) = ground (arith, elem-keys k d)

  pub elem-keys-put :
      (k j : K) (v : V) (d : Dict K V) → elem j (keys (put k v d)) ≡ e.beq k j || elem j (keys d)
  unfolding put
  elem-keys-put k j v [] = refl
  elem-keys-put k j v ((i, w) ∷ d) =
      ground (arith, e.beq_iff k j, e.beq_iff i k, e.beq_iff i j, elem-keys-put k j v d)

  -- A key is stored once.
  pub put-IsDistinct :
      (k : K) (v : V) (d : Dict K V) → IsDistinct (keys d) → IsDistinct (keys (put k v d))
  unfolding put
  put-IsDistinct k v [] h = (refl, tt)
  put-IsDistinct k v ((j, w) ∷ d) h =
      ground (arith, e.beq_iff j k, e.beq_iff k j, elem-keys-put k j v d, put-IsDistinct k v d h.1)

  pub elem-keys-remove :
      (k j : K) (d : Dict K V)
      → elem j (keys (remove k d)) ≡ (if e.beq k j then false else elem j (keys d))
  unfolding remove
  elem-keys-remove k j [] = ground arith
  elem-keys-remove k j ((i, w) ∷ d) =
      ground (arith, e.beq_iff k j, e.beq_iff i k, e.beq_iff i j, elem-keys-remove k j d)

  pub remove-IsDistinct :
      (k : K) (d : Dict K V) → IsDistinct (keys d) → IsDistinct (keys (remove k d))
  unfolding remove
  remove-IsDistinct k [] h = tt
  remove-IsDistinct k ((j, w) ∷ d) h =
      ground (arith, e.beq_iff j k, elem-keys-remove k j d, remove-IsDistinct k d h.1)
