-- ===== src/Registry/Reuse.antt =====
-- Labels over the life of a registry (integrations/id_registry.py): any sequence of `register`, `drop`
-- and `ensure_collection`, successful or not, and of a `load` of the text that `save` has just written.
use unlearning.Prelude.{
  ℕ, suc, ◌≤◌, ◌<◌, ◌≡◌, refl, sym, ap, ◌∙◌, Option, none, some, arith, max, subst, Option-cases,
  Result-cases, inl, inr, Str, Result, ok,
}
use unlearning.Prelude.Eq.{str_beq_iff}
use unlearning.Registry.Names.{norm_collection, norm_external}
use unlearning.Registry.Ops.{
  Registry, ensure_collection, next_of, label_of, external_at, bind_label, register_new,
  register_in, register, resolve, del_forward, unbind, drop,
}
use unlearning.Registry.Views.{
  forward_of-ensured, next_of-ensured, next_of-bind_label, next_of-unbind,
}
use unlearning.Registry.Files.{Json, payload_of, save, load}
use unlearning.Registry.Saved.{Keeps, load-save}
use unlearning.Registry.Sound.{
  IsSound, ensure_collection-IsSound, register_existing-same, register-IsSound,
}
use unlearning.Registry.Effects.{register_of_names, drop-resolve}

-- One call of a method that changes the registry, whatever it returns or raises.
pub data Step (r : Registry) : Registry → Type 0 where
  registered :
      (collection external_id : Str) (label : Option ℕ)
      → Step r (register collection external_id label r).1
  dropped : (collection external_id : Str) → Step r (drop collection external_id r).1
  ensured_collection : (collection : Str) → Step r (ensure_collection collection r).1
  -- A restart: `load` of the text that `save` wrote.
  reloaded :
      {r' : Registry} (json : Json)
      → Keeps json (payload_of r)
      → load json (save json r) ≡ ok r'
      → Step r r'

pub data Reach (r : Registry) : Registry → Type 0 where
  here : Reach r r
  next : {s t : Registry} → Reach r s → Step s t → Reach r t

next-le-bind_label :
    (coll ext : Str) (label n : ℕ) (r : Registry) (c : Str)
    → next_of coll r ≤ n
    → next_of c r ≤ next_of c (bind_label coll ext label n r)
next-le-bind_label coll ext label n r c h =
    ground (arith, next_of-bind_label coll ext label n r c, str_beq_iff coll c)

next-le-register_in :
    (coll ext : Str) (label : Option ℕ) (r : Registry) (c : Str)
    → next_of c r ≤ next_of c (register_in coll ext label r).1
unfolding register_in register_new
next-le-register_in coll ext label r c = elim (Option-cases (label_of r coll ext)) [
  | inr (existing, t) ↦
      rw (t, register_in) (rw (register_existing-same ext existing label r) (omega arith))
  | inl t ↦ rw (t, register_in) (new label)
]
  where
    new : (label : Option ℕ) → next_of c r ≤ next_of c (register_new coll ext label r).1
    new none = next-le-bind_label coll ext (next_of coll r) (suc (next_of coll r)) r c (omega arith)
    new (some l) = elim (Option-cases (external_at r coll l)) [
      | inr (other, u) ↦ rw (u, register_new) (omega arith)
      | inl u ↦
          rw (u, register_new)
            (next-le-bind_label coll ext l (max (next_of coll r) (suc l)) r c (omega arith))
    ]

next-le-ensure_collection :
    (collection : Str) (r : Registry) (c : Str)
    → next_of c r ≤ next_of c (ensure_collection collection r).1
unfolding ensure_collection
next-le-ensure_collection collection r c = elim (Result-cases (norm_collection collection)) [
  | inl (coll, e) ↦ rw (e, ensure_collection) (omega (arith, next_of-ensured coll r c))
  | inr (x, e) ↦ rw (e, ensure_collection) (omega arith)
]

next-le-register :
    (collection external_id : Str) (label : Option ℕ) (r : Registry) (c : Str)
    → next_of c r ≤ next_of c (register collection external_id label r).1
unfolding register
next-le-register collection external_id label r c =
    elim (Result-cases (norm_collection collection)) [
      | inr (x, e) ↦ rw (e, register) (omega arith)
      | inl (coll, e) ↦ elim (Result-cases (norm_external external_id)) [
        | inr (x, f) ↦ rw (e, f, register) (omega arith)
        | inl (ext, f) ↦
            rw (e, f, register)
              (omega (
                arith,
                next-le-ensure_collection coll r c,
                next-le-register_in coll ext label (ensure_collection coll r).1 c,
              ))
      ]
    ]

next-drop :
    (collection external_id : Str) (r : Registry) (c : Str)
    → next_of c (drop collection external_id r).1 ≡ next_of c r
unfolding drop del_forward
next-drop collection external_id r c = elim (Result-cases (resolve collection external_id r)) [
  | inr (x, e) ↦ rw (e, drop)
  | inl (id, e) ↦
      rw (e, drop)
        (elim (Option-cases (external_at r id.collection id.label)) [
          | inl u ↦ rw (u, unbind) refl
          | inr (ext, u) ↦ rw (u, unbind) (next_of-unbind id r c)
        ])
]

next-le-Step : {r s : Registry} (c : Str) → IsSound r → Step r s → next_of c r ≤ next_of c s
next-le-Step {r} c sound (registered collection external_id label) =
    next-le-register collection external_id label r c
next-le-Step {r} c sound (dropped collection external_id) =
    omega (arith, next-drop collection external_id r c)
next-le-Step {r} c sound (ensured_collection collection) = next-le-ensure_collection collection r c
next-le-Step {r} c sound (reloaded {r' = r'} json keeps loaded) =
    let (s, same, s_sound, labels, ids, nexts) = load-save json r keeps sound in
    let eq : s ≡ r' = cc (sym same ∙ loaded) in
    subst (λ s. next_of c r ≤ next_of c s) eq (omega (arith, nexts c))

drop-IsSound :
    (collection external_id : Str) (r : Registry)
    → IsSound r
    → IsSound (drop collection external_id r).1
unfolding drop
drop-IsSound collection external_id r s = elim (Result-cases (resolve collection external_id r)) [
  | inr (x, e) ↦ rw (e, drop) s
  | inl (id, e) ↦
      let (r', done, sound, gone, view) = drop-resolve collection external_id r s e in
      subst (λ (p : Result ℕ × Registry). IsSound p.1) (sym done) sound
]

-- Over any `register`, `drop` and `ensure_collection`, whatever they return or raise, and any reload of
-- the registry that was just saved, a sound registry stays sound, if JSON keeps the entries of an
-- object.
pub Reach-IsSound : {r s : Registry} → IsSound r → Reach r s → IsSound s
Reach-IsSound h here = h
Reach-IsSound h (next {s} reach (registered collection external_id label)) =
    register-IsSound collection external_id label s (Reach-IsSound h reach)
Reach-IsSound h (next {s} reach (dropped collection external_id)) =
    drop-IsSound collection external_id s (Reach-IsSound h reach)
Reach-IsSound h (next {s} reach (ensured_collection collection)) =
    ensure_collection-IsSound collection s (Reach-IsSound h reach)
Reach-IsSound h (next {s} reach (reloaded {r' = r'} json keeps loaded)) =
    let (q, same, sound, labels, ids, nexts) = load-save json s keeps (Reach-IsSound h reach) in
    let eq : q ≡ r' = cc (sym same ∙ loaded) in subst IsSound eq sound

next-le-Reach : {r s : Registry} (c : Str) → IsSound r → Reach r s → next_of c r ≤ next_of c s
next-le-Reach c sound here = omega arith
next-le-Reach c sound (next reach step) =
    omega (arith, next-le-Reach c sound reach, next-le-Step c (Reach-IsSound sound reach) step)

register-next :
    (collection external_id : Str) (r : Registry) {coll ext : Str}
    → norm_collection collection ≡ ok coll
    → norm_external external_id ≡ ok ext
    → label_of r coll ext ≡ none
    → (register collection external_id none r).0 ≡ ok (next_of coll r)
unfolding register_in register_new
register-next collection external_id r {coll} {ext} a b free =
    rw (register_of_names collection external_id none r a b) (
      rw (forward_of-ensured coll r coll ∙ refl, register_in)
        (rw free (ap ok (next_of-ensured coll r coll))))

-- A label is never given out twice: an id that had the label once, whatever steps were taken since, and a new id of the collection that `register` gives a label without being asked
-- for one: the new label is the larger.
pub register-lt :
    (coll ext : Str) (l : ℕ) (r s : Registry) (collection external_id new_ext : Str)
    → IsSound r
    → label_of r coll ext ≡ some l
    → Reach r s
    → norm_collection collection ≡ ok coll
    → norm_external external_id ≡ ok new_ext
    → label_of s coll new_ext ≡ none
    → (l' : ℕ) × ((register collection external_id none s).0 ≡ ok l') × (l < l')
register-lt coll ext l r s collection external_id new_ext sound had reach a b free = (
  next_of coll s,
  register-next collection external_id s a b free,
  omega (arith, sound.below coll ext l had, next-le-Reach coll sound reach),
)
