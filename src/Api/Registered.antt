-- ===== src/Api/Registered.antt =====
-- What the registrations of an ingest (`ingest_vectors` of api/main.py) leave behind.
use unlearning.Prelude.{
  ℕ, ◌≡◌, refl, sym, ap, ◌∙◌, subst, true, Option, none, some, List, [], ◌∷◌, arith, length, ==_iff,
  Bool-cases, Result-cases, inl, inr, Str, Result, ok,
}
use unlearning.Prelude.Dict.{Dict, get, put, get-put}
use unlearning.Prelude.Eq.{nat_eq, str_eq, str_beq, str_beq_iff, elem}
use unlearning.Registry.Ops.{Registry, ResolvedId, register, resolve}
use unlearning.Registry.Effects.{register-resolve}
use unlearning.Registry.Kept.{register-resolved}
use unlearning.Api.Ingest.{register_loop, labels_fit, id_pairs, with_labels, label_in}

-- The ids of a mapping resolve to its labels.
abbrev pub Bound : Str → Dict Str ℕ → Registry → Type 0
Bound collection mapping r =
    (e : Str) (l : ℕ)
    → get e mapping ≡ some l
    → (id : ResolvedId) × (resolve collection e r ≡ ok id) × (id.label ≡ l)

abbrev pub HasKey : Str → Dict Str ℕ → Type 0
HasKey e mapping = (l : ℕ) × (get e mapping ≡ some l)

-- The ids of the pairs are in the mapping.
abbrev Listed : List (Str × Option ℕ) → Dict Str ℕ → Type 0
Listed [] mapping = Unit
Listed ((e, label) ∷ pairs) mapping = HasKey e mapping × Listed pairs mapping

put-Bound :
    (collection e : Str) (label : Option ℕ) (mapping : Dict Str ℕ) (r : Registry) {l : ℕ}
    {r' : Registry}
    → register collection e label r ≡ (ok l, r')
    → Bound collection mapping r
    → Bound collection (put e l mapping) r'
put-Bound collection e label mapping r {l} {r'} h b f m there = elim (Bool-cases (str_beq e f)) [
  | inl t ↦
      let same : e ≡ f = (str_beq_iff e f).0 t in
      let (id, lab, found, view) = register-resolve collection e label r h in
      let found_here : get f (put e l mapping) ≡ some l = get-put e f l mapping ∙ rw t refl in
      let here : l ≡ m = cc (sym found_here ∙ there) in
      (id, subst (λ x. resolve collection x r' ≡ ok id) same found, lab ∙ here)
  | inr n ↦
      let aside : get f (put e l mapping) ≡ get f mapping = get-put e f l mapping ∙ rw n refl in
      let (id, found, lab) = b f m (sym aside ∙ there) in
      (id, register-resolved collection e label r collection f h found, lab)
]

abbrev Kept : Dict Str ℕ → Dict Str ℕ → Type 0
Kept mapping m = (f : Str) → HasKey f mapping → HasKey f m

put-HasKey :
    (e f : Str) (l : ℕ) (mapping : Dict Str ℕ) → HasKey f mapping → HasKey f (put e l mapping)
put-HasKey e f l mapping (k, q) = elim (Bool-cases (str_beq e f)) [
  | inl t ↦ (l, get-put e f l mapping ∙ rw t refl)
  | inr n ↦ (k, get-put e f l mapping ∙ rw n q)
]

-- What a loop of registrations that ends leaves behind.
register_loop-Bound :
    (collection : Str) (pairs : List (Str × Option ℕ)) (mapping : Dict Str ℕ) (r : Registry)
    {m : Dict Str ℕ} {r' : Registry}
    → register_loop collection pairs mapping r ≡ (ok m, r')
    → Bound collection mapping r
    → Bound collection m r' × Kept mapping m × Listed pairs m
unfolding register_loop
register_loop-Bound collection [] mapping r {m} {r'} h b =
    let same : mapping ≡ m = cc h in
    let left : r ≡ r' = cc h in
    (
      subst (Bound collection m) left (subst (λ x. Bound collection x r) same b),
      λ f q. subst (HasKey f) same q,
      tt,
    )
register_loop-Bound collection ((e, label) ∷ pairs) mapping r {m} {r'} h b =
    let out = register collection e label r in
    elim (Result-cases out.0) [
      | inr (x, q) ↦ absurd (cc (rw (q, register_loop) at h))
      | inl (l, q) ↦
          let done : register collection e label r ≡ (ok l, out.1) =
            ap (λ (p : Result ℕ). (p, out.1)) q in
          let (bound, kept, listed) =
            register_loop-Bound collection pairs (put e l mapping) out.1
              (rw (q, register_loop) at h) (put-Bound collection e label mapping r done b) in
          let found : get e (put e l mapping) ≡ some l =
            get-put e e l mapping ∙ rw ((str_beq_iff e e).1 refl) refl in
          (bound, λ f q. kept f (put-HasKey e f l mapping q), (kept e (l, found), listed))
    ]

fit_labels :
    (ids : List Str) (labels : List ℕ) (mapping : Dict Str ℕ)
    → length labels ≡ length ids
    → Listed (with_labels ids labels) mapping
    → (e : Str) → elem e ids ≡ true
    → HasKey e mapping
unfolding with_labels
fit_labels [] labels mapping n h e t = absurd (cc)
fit_labels (i ∷ ids) [] mapping n h e t = absurd (omega (arith, n))
fit_labels (i ∷ ids) (l ∷ labels) mapping n h e t = elim (Bool-cases (str_beq i e)) [
  | inl same ↦ subst (λ x. HasKey x mapping) ((str_beq_iff i e).0 same) h.0
  | inr other ↦ fit_labels ids labels mapping (omega (arith, n)) h.1 e (sym (rw other refl) ∙ t)
]

no_labels :
    (ids : List Str) (mapping : Dict Str ℕ)
    → Listed (id_pairs ids none) mapping
    → (e : Str) → elem e ids ≡ true
    → HasKey e mapping
no_labels [] mapping h e t = absurd (cc)
no_labels (i ∷ ids) mapping h e t = elim (Bool-cases (str_beq i e)) [
  | inl same ↦ subst (λ x. HasKey x mapping) ((str_beq_iff i e).0 same) h.0
  | inr other ↦ no_labels ids mapping h.1 e (sym (rw other refl) ∙ t)
]

empty-Bound : (collection : Str) (r : Registry) → Bound collection [] r
unfolding get
empty-Bound collection r e l h = absurd (cc h)

key_of :
    (ids : List Str) (labels : Option (List ℕ)) (mapping : Dict Str ℕ)
    → labels_fit ids labels ≡ true
    → Listed (id_pairs ids labels) mapping
    → (e : Str) → elem e ids ≡ true
    → HasKey e mapping
key_of ids none mapping fit listed e t = no_labels ids mapping listed e t
key_of ids (some ls) mapping fit listed e t =
    fit_labels ids ls mapping ((==_iff (length ls) (length ids)).0 fit) listed e t

-- Each id of a request is in the mapping, and resolves to its label there.
pub registered_ids :
    (collection : Str) (ids : List Str) (labels : Option (List ℕ)) (r : Registry)
    {mapping : Dict Str ℕ} {r' : Registry}
    → labels_fit ids labels ≡ true
    → register_loop collection (id_pairs ids labels) [] r ≡ (ok mapping, r')
    → (e : Str) → elem e ids ≡ true
    → (id : ResolvedId) × (resolve collection e r' ≡ ok id) × (id.label ≡ label_in mapping e)
registered_ids collection ids labels r {mapping} {r'} fit h e t =
    let (bound, kept, listed) =
      register_loop-Bound collection (id_pairs ids labels) [] r h (empty-Bound collection r) in
    let (l, there) = key_of ids labels mapping fit listed e t in
    let (id, found, at) = bound e l there in
    let same : label_in mapping e ≡ l = rw (label_in, there) refl in (id, found, at ∙ sym same)
