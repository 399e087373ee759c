-- ===== src/Registry/Saved.antt =====
-- A registry that was saved and is loaded again (integrations/id_registry.py).
use unlearning.Prelude.{
  ℕ, ◌<◌, ◌≡◌, inl, inr, refl, sym, ap, subst, ◌∙◌, some, [], ◌∷◌, arith, Option-cases, Str, ok,
}
use unlearning.Prelude.Dict.{Dict, get, keys}
use unlearning.Prelude.Eq.{nat_eq, str_eq, str_beq_iff, IsDistinct}
use unlearning.Registry.Ops.{Registry, forward_of, next_of, label_of, external_at}
use unlearning.Registry.Sound.{IsSound}
use unlearning.Registry.Files.{
  Payload, Json, or_empty, invert_into, first_free, fill_next, of_payload, payload_of, save, load,
}
use unlearning.Registry.Inverse.{
  get-invert_into, invert_into-only, reverse_of-invert_all, get-fill_next, or_zero, fill_next-zero,
}

-- What `json.loads` makes of the text of a payload: an object with the same entries, whose keys are
-- distinct, in any order.
pub record Keeps (json : Json) (p : Payload) : Type 0 where
  pub read : Payload
  pub loads-dumps : json.loads (json.dumps p) ≡ ok read
  pub entries : (c e : Str) → label_of (of_payload read) c e ≡ label_of (of_payload p) c e
  pub next : (c : Str) → get c (or_empty read.next_label) ≡ get c (or_empty p.next_label)
  pub distinct : (c : Str) → IsDistinct (keys (forward_of c (of_payload read)))

module _ (json : Json) (r : Registry) (keeps : Keeps json (payload_of r)) (sound : IsSound r) where
  loaded : Registry
  loaded = of_payload keeps.read

  label_of-loaded : (c e : Str) → label_of loaded c e ≡ label_of r c e
  unfolding loaded
  label_of-loaded c e = keeps.entries c e

  external_at-loaded : (c : Str) (l : ℕ) → external_at loaded c l ≡ external_at r c l
  unfolding loaded get
  external_at-loaded c l =
      let p = keeps.read in
      let m = forward_of c loaded in
      let inverted : external_at loaded c l ≡ get l (invert_into [] m) = ap (get l) (
        reverse_of-invert_all c (or_empty p.collections)
          (fill_next (or_empty p.next_label) (or_empty p.collections))) in
      let from : (e : Str) → get e m ≡ some l → external_at r c l ≡ some e =
        λ e there. sound.back c e l (sym (label_of-loaded c e) ∙ there) in
      elim (Option-cases (external_at r c l)) [
        | inr (e, q) ↦
            let there : get e m ≡ some l = label_of-loaded c e ∙ sound.forth c e l q in
            let only : (f : Str) → get f m ≡ some l → f ≡ e = λ f h. cc (sym (from f h) ∙ q) in
            inverted ∙ invert_into-only m [] l e (keeps.distinct c) only (inr there) ∙ sym q
        | inl q ↦ elim (Option-cases (get l (invert_into [] m))) [
          | inl none_there ↦ inverted ∙ none_there ∙ sym q
          | inr (e, h) ↦ elim (get-invert_into m [] l e (keeps.distinct c) h) [
            | inl before ↦ absurd (cc before)
            | inr there ↦ absurd (cc (sym q ∙ from e there))
          ]
        ]
      ]

  next_of-loaded : (c : Str) → next_of c loaded ≡ next_of c r
  unfolding loaded or_zero get
  next_of-loaded c =
      let p = keeps.read in
      let same : get c (or_empty p.next_label) ≡ get c r.next_label = keeps.next c in
      let forward = or_empty p.collections in
      elim (Option-cases (get c r.next_label)) [
        | inr (n, q) ↦
            let kept = get-fill_next c n (or_empty p.next_label) forward (same ∙ q) in
            rw (next_of, kept, q) refl
        | inl q ↦
            let none_next : next_of c r ≡ 0 = rw (next_of, q) refl in
            let free : (m : Dict Str ℕ) → get c forward ≡ some m → first_free m ≡ 0 =
              λ m h. no_ids c none_next m h in
            fill_next-zero c (or_empty p.next_label) forward (same ∙ q) free ∙ sym none_next
      ]
    where
      no_ids :
          (c : Str)
          → next_of c r ≡ 0
          → (m : Dict Str ℕ) → get c (or_empty keeps.read.collections) ≡ some m
          → first_free m ≡ 0
      no_ids c z [] h = refl
      no_ids c z ((e, l) ∷ m) h =
          let there : label_of loaded c e ≡ some l =
            rw (h, label_of, forward_of, loaded, get, (str_beq_iff e e).1 refl) refl in
          absurd (omega (arith, sound.below c e l (sym (label_of-loaded c e) ∙ there), z))

  -- A sound registry that was saved is loaded again with the same labels, the same ids at them, and the
  -- same next label of each collection, and is sound, if JSON keeps the entries of an object and its
  -- keys are distinct.
  pub load-save :
      (r' : Registry) × (load json (save json r) ≡ ok r')
      × IsSound r'
      × ((c e : Str) → label_of r' c e ≡ label_of r c e)
      × ((c : Str) (l : ℕ) → external_at r' c l ≡ external_at r c l)
      × ((c : Str) → next_of c r' ≡ next_of c r)
  unfolding load save loaded
  load-save = (
    loaded,
    rw (keeps.loads-dumps, load) refl,
    record {
      back = λ c e l h. external_at-loaded c l ∙ sound.back c e l (sym (label_of-loaded c e) ∙ h);
      forth = λ c e l h. label_of-loaded c e ∙ sound.forth c e l (sym (external_at-loaded c l) ∙ h);
      below = λ c e l h.
          subst (λ n. l < n) (sym (next_of-loaded c))
            (sound.below c e l (sym (label_of-loaded c e) ∙ h));
    },
    label_of-loaded,
    external_at-loaded,
    next_of-loaded,
  )
