-- ===== src/Outbox/Drain.antt =====
-- Rounds of the dispatcher over the folders (`dispatch_pending` of integrations/outbox.py).
use unlearning.Prelude.{
  ℕ, zero, suc, ◌+◌, ◌≤◌, ◌<◌, ◌≡◌, refl, sym, ap, ◌∙◌, ◌⊎◌, true, false, Option, none, some, List,
  [], ◌∷◌, arith, subst, length, take, take_of_length-le, All, Bool-cases, inl, inr, Str, map,
}
use unlearning.Prelude.Dict.{get, keys, elem-keys, is_some}
use unlearning.Prelude.Eq.{str_eq, str_beq, str_beq_iff, elem, IsDistinct}
use unlearning.Outbox.{
  OutboxEnvelope, Folder, sorted_files, values, Sender, FileOutbox, list_pending, dispatch_pending,
  pending_left,
}
use unlearning.Outbox.Files.{
  get-sorted_files, sorted_files-IsDistinct, length-sorted_files, IsKeyed,
}
use unlearning.Outbox.Round.{
  Same, Fate, delivered, given_up, retried, Round, AllPending, dispatch_all-Round,
}

abbrev ids : List OutboxEnvelope → List Str
ids = map (λ e. e.envelope_id)

ids-values : (d : Folder) → IsDistinct (keys d) → IsKeyed d → ids (values d) ≡ keys d
unfolding values get
ids-values [] h k = refl
ids-values ((j, e) ∷ d) h k =
    let own : e.envelope_id ≡ j = k j e (rw ((str_beq_iff j j).1 refl, get) refl) in
    rw (own, ids-values d h.1 (tail j e d h.0 k)) refl
  where
    tail :
        (j : Str) (e : OutboxEnvelope) (d : Folder)
        → elem j (keys d) ≡ false
        → IsKeyed ((j, e) ∷ d)
        → IsKeyed d
    tail j e d out k i f g = k i f (ground (arith, elem-keys j d, str_beq_iff j i))

values-there :
    (d big : Folder)
    → IsDistinct (keys d)
    → IsKeyed big
    → ((j : Str) (e : OutboxEnvelope) → get j d ≡ some e → get j big ≡ some e)
    → All (λ e. get e.envelope_id big ≡ some e) (values d)
unfolding values get
values-there [] big h k sub = tt
values-there ((j, e) ∷ d) big h k sub =
    let at : get j big ≡ some e = sub j e (rw ((str_beq_iff j j).1 refl, get) refl) in
    (
      ap (λ i. get i big) (k j e at) ∙ at,
      values-there d big h.1 k (λ i f g. sub i f (ground (arith, elem-keys j d, str_beq_iff j i))),
    )

All-take {ℓ κ} : {A : Type ℓ} (P : A → Type κ) (n : ℕ) (xs : List A) → All P xs → All P (take n xs)
All-take P zero xs h = tt
All-take P (suc n) [] h = tt
All-take P (suc n) (x ∷ xs) h = (h.0, All-take P n xs h.1)

elem-ids-take :
    (j : Str) (n : ℕ) (es : List OutboxEnvelope)
    → elem j (ids es) ≡ false
    → elem j (ids (take n es)) ≡ false
elem-ids-take j zero es h = refl
elem-ids-take j (suc n) [] h = refl
elem-ids-take j (suc n) (e ∷ es) h = ground (arith, elem-ids-take j n es)

ids-take-IsDistinct :
    (n : ℕ) (es : List OutboxEnvelope) → IsDistinct (ids es) → IsDistinct (ids (take n es))
ids-take-IsDistinct zero es h = tt
ids-take-IsDistinct (suc n) [] h = tt
ids-take-IsDistinct (suc n) (e ∷ es) h =
    (elem-ids-take e.envelope_id n es h.0, ids-take-IsDistinct n es h.1)

length-values : (d : Folder) → length (values d) ≡ length d
unfolding values
length-values [] = refl
length-values ((j, e) ∷ d) = ap suc (length-values d)

module _ (snd : Sender) where
  -- Each file of the pending folder is there once, under its envelope's id.
  pub record IsFiled (b : FileOutbox snd) : Type 0 where
    pub distinct : IsDistinct (keys b.pending)
    pub keyed : IsKeyed b.pending

  listed-AllPending : (b : FileOutbox snd) → IsFiled b → AllPending snd b (list_pending snd b)
  unfolding list_pending
  listed-AllPending b h =
      values-there (sorted_files b.pending) b.pending (sorted_files-IsDistinct b.pending h.distinct)
        h.keyed (λ j e g. sym (get-sorted_files j b.pending h.distinct) ∙ g)

  sorted-IsKeyed : (b : FileOutbox snd) → IsFiled b → IsKeyed (sorted_files b.pending)
  sorted-IsKeyed b h j e g = h.keyed j e (sym (get-sorted_files j b.pending h.distinct) ∙ g)

  ids-listed :
      (b : FileOutbox snd) → IsFiled b → ids (list_pending snd b) ≡ keys (sorted_files b.pending)
  unfolding list_pending
  ids-listed b h =
      ids-values (sorted_files b.pending) (sorted_files-IsDistinct b.pending h.distinct)
        (sorted-IsKeyed b h)

  pub dispatch_pending-Round :
      (limit : ℕ) (b : FileOutbox snd)
      → IsFiled b
      → Round snd (take limit (list_pending snd b)) b (dispatch_pending snd limit b).1
  unfolding dispatch_pending
  dispatch_pending-Round limit b h =
      dispatch_all-Round snd (take limit (list_pending snd b)) _ b
        (All-take _ limit (list_pending snd b) (listed-AllPending b h))
        (ids-take-IsDistinct limit (list_pending snd b)
          (subst IsDistinct (sym (ids-listed b h)) (sorted_files-IsDistinct b.pending h.distinct)))

  fate-of :
      (j : Str) (es : List OutboxEnvelope) (b b' : FileOutbox snd)
      → All (λ e. Fate snd e.envelope_id e b b') es
      → AllPending snd b es
      → elem j (ids es) ≡ true
      → (e : OutboxEnvelope) × Fate snd j e b b' × (get j b.pending ≡ some e)
  fate-of j [] b b' fs all_ h = absurd (cc)
  fate-of j (e ∷ es) b b' fs all_ h = elim (Bool-cases (str_beq e.envelope_id j)) [
    | inr other ↦ fate-of j es b b' fs.1 all_.1 (ground arith)
    | inl here ↦
        let same = (str_beq_iff e.envelope_id j).0 here in
        (
          e,
          subst (λ i. Fate snd i e b b') same fs.0,
          subst (λ i. get i b.pending ≡ some e) same all_.0,
        )
  ]

  -- What became of the files under an id.
  pub round-at :
      (limit : ℕ) (j : Str) (b : FileOutbox snd)
      → IsFiled b
      → ((e : OutboxEnvelope) × Fate snd j e b (dispatch_pending snd limit b).1
          × (get j b.pending ≡ some e))
        ⊎ (Same snd j b (dispatch_pending snd limit b).1
            × (elem j (ids (take limit (list_pending snd b))) ≡ false))
  round-at limit j b h =
      let round = dispatch_pending-Round limit b h in
      elim (Bool-cases (elem j (ids (take limit (list_pending snd b))))) [
        | inl here ↦ inl (
            fate-of j (take limit (list_pending snd b)) b (dispatch_pending snd limit b).1
              round.fates (All-take _ limit (list_pending snd b) (listed-AllPending b h)) here)
        | inr out ↦ inr (round.others j out, out)
      ]

  dispatch_pending-IsFiled :
      (limit : ℕ) (b : FileOutbox snd) → IsFiled b → IsFiled (dispatch_pending snd limit b).1
  dispatch_pending-IsFiled limit b h = record {
    distinct = (dispatch_pending-Round limit b h).distinct h.distinct;
    keyed = λ j e g. elim (round-at limit j b h) [
      | inr (s, out) ↦ h.keyed j e (sym s.pending ∙ g)
      | inl (d, fate, at) ↦ by_fate j d e fate at g
    ];
  }
    where
      by_fate :
          (j : Str) (d e : OutboxEnvelope)
          → Fate snd j d b (dispatch_pending snd limit b).1
          → get j b.pending ≡ some d
          → get j (dispatch_pending snd limit b).1.pending ≡ some e
          → e.envelope_id ≡ j
      by_fate j d e (delivered p q r) at g = absurd (cc (p, g))
      by_fate j d e (given_up d' l p q r) at g = absurd (cc (p, g))
      by_fate j d e (retried d' l n i p q r) at g =
          let same : d' ≡ e = cc (p, g) in ap (λ x. x.envelope_id) (sym same) ∙ (i ∙ h.keyed j d at)

  -- How many folders hold a file under an id.
  abbrev pub one_if : Option OutboxEnvelope → ℕ
  one_if none = 0
  one_if (some e) = 1

  abbrev pub copies : Str → FileOutbox snd → ℕ
  copies j b = one_if (get j b.pending) + (one_if (get j b.done) + one_if (get j b.failed))

  -- A round of the dispatcher, whatever the callback returns or raises, loses no envelope and doubles
  -- none: an id that is in one folder, or in none, is in as many behind it.
  pub dispatch_pending-copies :
      (limit : ℕ) (j : Str) (b : FileOutbox snd)
      → IsFiled b
      → copies j b ≤ 1
      → copies j (dispatch_pending snd limit b).1 ≡ copies j b
  dispatch_pending-copies limit j b h once = elim (round-at limit j b h) [
    | inr (s, out) ↦ rw (s.pending, s.done, s.failed) refl
    | inl (e, fate, at) ↦ by_fate e fate at once
  ]
    where
      by_fate :
          (e : OutboxEnvelope)
          → Fate snd j e b (dispatch_pending snd limit b).1
          → get j b.pending ≡ some e
          → copies j b ≤ 1
          → copies j (dispatch_pending snd limit b).1 ≡ copies j b
      by_fate e (delivered p q r) at once =
          let once' : 1 + (one_if (get j b.done) + one_if (get j b.failed)) ≤ 1 = rw at at once in
          rw (p, q, r, at) (omega arith)
      by_fate e (given_up e' l p q r) at once =
          let once' : 1 + (one_if (get j b.done) + one_if (get j b.failed)) ≤ 1 = rw at at once in
          rw (p, q, r, at) (omega arith)
      by_fate e (retried e' l n i p q r) at once = rw (p, q, r, at) refl

  -- `n` rounds, one after the other.
  unfoldable pub rounds : ℕ → ℕ → FileOutbox snd → FileOutbox snd
  rounds zero limit b = b
  rounds (suc n) limit b = (dispatch_pending snd limit (rounds n limit b)).1

  -- A round over all files: what is still there was tried once more and may be tried again.
  retried-at :
      (limit : ℕ) (j : Str) (b : FileOutbox snd) (e : OutboxEnvelope)
      → IsFiled b
      → length b.pending ≤ limit
      → get j (dispatch_pending snd limit b).1.pending ≡ some e
      → (d : OutboxEnvelope) × (get j b.pending ≡ some d)
        × (e.attempts ≡ suc d.attempts)
        × (suc d.attempts < snd.max_attempts)
  unfolding list_pending
  retried-at limit j b e h all_ g = elim (round-at limit j b h) [
    | inl (d, fate, at) ↦ by_fate d fate at
    | inr (s, out) ↦
        let listed : length (list_pending snd b) ≤ limit = omega (arith, length-list_pending) in
        let absent : elem j (keys b.pending) ≡ false =
          rw (take_of_length-le limit (list_pending snd b) listed, ids-listed b h, elem-sorted) at
            out in
        absurd (cc (sym (elem-keys j b.pending) ∙ absent, ap is_some (sym s.pending ∙ g)))
  ]
    where
      length-list_pending : length (list_pending snd b) ≡ length b.pending
      length-list_pending = length-values (sorted_files b.pending) ∙ length-sorted_files b.pending

      elem-sorted : elem j (keys (sorted_files b.pending)) ≡ elem j (keys b.pending)
      elem-sorted =
          elem-keys j (sorted_files b.pending)
          ∙ (ap is_some (get-sorted_files j b.pending h.distinct) ∙ sym (elem-keys j b.pending))

      by_fate :
          (d : OutboxEnvelope)
          → Fate snd j d b (dispatch_pending snd limit b).1
          → get j b.pending ≡ some d
          → (d : OutboxEnvelope) × (get j b.pending ≡ some d)
            × (e.attempts ≡ suc d.attempts)
            × (suc d.attempts < snd.max_attempts)
      by_fate d (delivered p q r) at = absurd (cc (p, g))
      by_fate d (given_up e' l p q r) at = absurd (cc (p, g))
      by_fate d (retried e' l n i p q r) at =
          let same : e' ≡ e = cc (p, g) in (d, at, ap (λ x. x.attempts) (sym same) ∙ n, l)

  record Tried (n limit : ℕ) (b : FileOutbox snd) : Type 0 where
    filed : IsFiled b
    small : length b.pending ≤ limit
    tried : (j : Str) (e : OutboxEnvelope) → get j b.pending ≡ some e → n ≤ e.attempts

  rounds-Tried :
      (n limit : ℕ) (b : FileOutbox snd)
      → IsFiled b
      → length b.pending ≤ limit
      → Tried n limit (rounds n limit b)
  unfolding rounds
  rounds-Tried zero limit b h small = record {
    filed = h;
    small = small;
    tried = λ j e g. omega arith;
  }
  rounds-Tried (suc n) limit b h small =
      let ih = rounds-Tried n limit b h small in
      let c = rounds n limit b in
      record {
        filed = dispatch_pending-IsFiled limit c ih.filed;
        small = omega (arith, (dispatch_pending-Round limit c ih.filed).shorter, ih.small);
        tried = λ j e g.
            let (d, at, more, l) = retried-at limit j c e ih.filed ih.small g in
            omega (arith, ih.tried j d at);
      }

  pending-nil : (d : Folder) → ((j : Str) → get j d ≡ none) → d ≡ []
  unfolding get
  pending-nil [] h = refl
  pending-nil ((k, e) ∷ d) h = absurd (ground (arith, h k, str_beq_iff k k))

  -- Without new intents, `max_attempts` rounds over the whole folder leave nothing pending.
  pub rounds-pending_left :
      (n limit : ℕ) (b : FileOutbox snd)
      → IsFiled b
      → length b.pending ≤ limit
      → snd.max_attempts ≤ suc n
      → pending_left snd (rounds (suc n) limit b) ≡ 0
  unfolding rounds list_pending
  rounds-pending_left n limit b h small enough =
      let before = rounds-Tried n limit b h small in
      let c = rounds n limit b in
      let empty =
        pending-nil (dispatch_pending snd limit c).1.pending
          (λ j. nothing j (get j (dispatch_pending snd limit c).1.pending) refl) in
      length-values (sorted_files (dispatch_pending snd limit c).1.pending)
      ∙ (length-sorted_files (dispatch_pending snd limit c).1.pending ∙ ap length empty)
    where
      nothing :
          (j : Str) (o : Option OutboxEnvelope)
          → get j (dispatch_pending snd limit (rounds n limit b)).1.pending ≡ o
          → get j (dispatch_pending snd limit (rounds n limit b)).1.pending ≡ none
      nothing j none g = g
      nothing j (some e) g =
          let before = rounds-Tried n limit b h small in
          let (d, at, more, l) =
            retried-at limit j (rounds n limit b) e before.filed before.small g in
          absurd (omega (arith, before.tried j d at))
