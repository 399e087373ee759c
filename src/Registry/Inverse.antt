-- ===== src/Registry/Inverse.antt =====
-- The reverse map and the next labels that `load` of integrations/id_registry.py makes.
use unlearning.Prelude.{
  ℕ, ◌≡◌, ◌⊎◌, inl, inr, refl, sym, ap, ◌∙◌, true, false, Option, none, some, [], ◌∷◌, ◌==◌, ==_iff,
  Bool-cases, Option-cases, Str,
}
use unlearning.Prelude.Dict.{Dict, get, put, keys, get-put, is_some, elem-keys}
use unlearning.Prelude.Eq.{nat_eq, str_eq, str_beq, str_beq_iff, elem, IsDistinct}
use unlearning.Registry.Ops.{setdefault, forward_of, reverse_of}
use unlearning.Registry.Files.{invert_into, invert_all, first_free, fill_next}

get-later :
    (e f : Str) (l m : ℕ) (d : Dict Str ℕ)
    → elem e (keys d) ≡ false
    → get f d ≡ some m
    → get f ((e, l) ∷ d) ≡ some m
unfolding get
get-later e f l m d fresh h = elim (Bool-cases (str_beq e f)) [
  | inr other ↦ rw (other, get) h
  | inl t ↦
      let there : is_some (get e d) ≡ true = rw ((str_beq_iff e f).0 t, h) refl in
      absurd (cc (sym fresh ∙ elem-keys e d ∙ there))
]

-- What an inverted map has comes from the map, or was there.
pub get-invert_into :
    (m : Dict Str ℕ) (acc : Dict ℕ Str) (l : ℕ) (e : Str)
    → IsDistinct (keys m)
    → get l (invert_into acc m) ≡ some e
    → (get l acc ≡ some e) ⊎ (get e m ≡ some l)
unfolding invert_into get
get-invert_into [] acc l e d h = inl h
get-invert_into ((f, k) ∷ m) acc l e d h = elim (get-invert_into m (put k f acc) l e d.1 h) [
  | inr later ↦ inr (get-later f e k l m d.0 later)
  | inl now ↦ elim (Bool-cases (k == l)) [
    | inr other ↦
        let aside : get l (put k f acc) ≡ get l acc = get-put k l f acc ∙ rw other refl in
        inl (sym aside ∙ now)
    | inl t ↦
        let here : get l (put k f acc) ≡ some f = get-put k l f acc ∙ rw t refl in
        let same : f ≡ e = cc (sym here ∙ now) in
        inr (rw ((str_beq_iff f e).1 same, get) (ap some ((==_iff k l).0 t)))
  ]
]

-- The only id of a label is what the inverted map has there.
pub invert_into-only :
    (m : Dict Str ℕ) (acc : Dict ℕ Str) (l : ℕ) (e : Str)
    → IsDistinct (keys m)
    → ((f : Str) → get f m ≡ some l → f ≡ e)
    → (get l acc ≡ some e) ⊎ (get e m ≡ some l)
    → get l (invert_into acc m) ≡ some e
unfolding invert_into get
invert_into-only [] acc l e d only (inl h) = h
invert_into-only [] acc l e d only (inr h) = absurd (cc h)
invert_into-only ((f, k) ∷ m) acc l e d only h =
    let rest : (g : Str) → get g m ≡ some l → g ≡ e =
      λ g there. only g (get-later f g k l m d.0 there) in
    elim (Bool-cases (k == l)) [
      | inl t ↦
          let first : get f ((f, k) ∷ m) ≡ some l =
            rw ((str_beq_iff f f).1 refl, get) (ap some ((==_iff k l).0 t)) in
          invert_into-only m (put k f acc) l e d.1 rest
            (inl (get-put k l f acc ∙ rw t (ap some (only f first))))
      | inr other ↦
          let aside : get l (put k f acc) ≡ get l acc = get-put k l f acc ∙ rw other refl in
          invert_into-only m (put k f acc) l e d.1 rest (elim h [
            | inl there ↦ inl (aside ∙ there)
            | inr there ↦ elim (Bool-cases (str_beq f e)) [
              | inr n ↦
                  let skip : get e ((f, k) ∷ m) ≡ get e m = rw (n, get) refl in
                  inr (sym skip ∙ there)
              | inl t ↦
                  let eq : k ≡ l = cc (rw (t, get) at there) in
                  absurd (cc (sym other ∙ (==_iff k l).1 eq))
            ]
          ])
    ]

pub reverse_of-invert_all :
    (c : Str) (forward : Dict Str (Dict Str ℕ)) (next : Dict Str ℕ)
    → reverse_of c (record { forward = forward; reverse = invert_all forward; next_label = next })
      ≡ invert_into []
          (forward_of c (record { forward = forward; reverse = []; next_label = next }))
unfolding invert_all get invert_into
reverse_of-invert_all c [] next = refl
reverse_of-invert_all c ((d, m) ∷ forward) next = elim (Bool-cases (str_beq d c)) [
  | inl t ↦ rw (t, reverse_of, forward_of, get) refl
  | inr f ↦ rw (f, reverse_of, forward_of, get) (reverse_of-invert_all c forward next)
]

-- A next label that is there stays.
pub get-fill_next :
    (c : Str) (n : ℕ) (next : Dict Str ℕ) (forward : Dict Str (Dict Str ℕ))
    → get c next ≡ some n
    → get c (fill_next next forward) ≡ some n
unfolding fill_next
get-fill_next c n next [] h = h
get-fill_next c n next ((d, m) ∷ forward) h =
    get-fill_next c n (setdefault d (first_free m) next) forward
      (get-setdefault c n d (first_free m) next h)
  where
    get-setdefault :
        (c : Str) (n : ℕ) (d : Str) (v : ℕ) (next : Dict Str ℕ)
        → get c next ≡ some n
        → get c (setdefault d v next) ≡ some n
    get-setdefault c n d v next h = elim (Option-cases (get d next)) [
      | inr (w, q) ↦ rw (setdefault, q) h
      | inl q ↦ elim (Bool-cases (str_beq d c)) [
        | inr f ↦ rw (setdefault, q) (get-put d c v next ∙ rw f h)
        | inl t ↦ absurd (cc (sym q ∙ ap (λ x. get x next) ((str_beq_iff d c).0 t) ∙ h))
      ]
    ]

unfoldable pub or_zero : Option ℕ → ℕ
or_zero none = 0
or_zero (some n) = n

-- One that is not there is 0 where the collection is empty.
pub fill_next-zero :
    (c : Str) (next : Dict Str ℕ) (forward : Dict Str (Dict Str ℕ))
    → get c next ≡ none
    → ((m : Dict Str ℕ) → get c forward ≡ some m → first_free m ≡ 0)
    → or_zero (get c (fill_next next forward)) ≡ 0
unfolding fill_next or_zero get
fill_next-zero c next [] h free = rw h refl
fill_next-zero c next ((d, m) ∷ forward) h free = elim (Bool-cases (str_beq d c)) [
  | inl t ↦
      let eq = (str_beq_iff d c).0 t in
      let zero_free : first_free m ≡ 0 = free m (rw (t, get) refl) in
      let missing : get d next ≡ none = ap (λ x. get x next) eq ∙ h in
      let now : get c (setdefault d (first_free m) next) ≡ some 0 =
        rw (setdefault, missing) (get-put d c (first_free m) next ∙ rw t (ap some zero_free)) in
      rw (get-fill_next c 0 (setdefault d (first_free m) next) forward now) refl
  | inr f ↦
      let still : get c (setdefault d (first_free m) next) ≡ none =
        elim (Option-cases (get d next)) [
          | inr (w, q) ↦ rw (setdefault, q) h
          | inl q ↦ rw (setdefault, q) (get-put d c (first_free m) next ∙ rw f h)
        ] in
      fill_next-zero c (setdefault d (first_free m) next) forward still
        (λ k there. free k (rw (f, get) there))
]
