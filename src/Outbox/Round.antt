-- ===== src/Outbox/Round.antt =====
-- One round of the dispatcher (integrations/outbox.py): what becomes of each envelope.
use unlearning.Prelude.{
  suc, ◌≤◌, ◌<◌, ◌≡◌, refl, ap, ◌∙◌, false, none, some, List, [], ◌∷◌, arith, length, leb, All,
  Bool-cases, inl, inr, Str, Result, ok, raise, map,
}
use unlearning.Prelude.Dict.{
  get, put, remove, keys, get-put, get-remove, put-IsDistinct, remove-IsDistinct,
}
use unlearning.Prelude.Eq.{str_eq, str_beq, str_beq_iff, elem, IsDistinct}
use unlearning.Outbox.{
  OutboxEnvelope, Folder, Report, is_ok, message_of, Sender, FileOutbox, Tallies, count_attempt,
  mark_done, mark_failed, note_failure, after_dispatch, dispatch_one, dispatch_all,
}

length-put-present :
    (k : Str) (v w : OutboxEnvelope) (d : Folder) → get k d ≡ some w → length (put k v d) ≡ length d
unfolding get put
length-put-present k v w [] h = absurd (cc)
length-put-present k v w ((j, u) ∷ d) h = ground (arith, length-put-present k v w d)

length-remove : (k : Str) (d : Folder) → length (remove k d) ≤ length d
unfolding remove
length-remove k [] = omega arith
length-remove k ((j, u) ∷ d) = ground (arith, length-remove k d)

module _ (snd : Sender) where
  -- The files under one id, and what a round does to them.
  pub record Same (j : Str) (b b' : FileOutbox snd) : Type 0 where
    pub pending : get j b'.pending ≡ get j b.pending
    pub done : get j b'.done ≡ get j b.done
    pub failed : get j b'.failed ≡ get j b.failed

  pub data Fate (j : Str) (e : OutboxEnvelope) (b b' : FileOutbox snd) : Type 0 where
    delivered :
        get j b'.pending ≡ none
        → get j b'.done ≡ some e
        → get j b'.failed ≡ get j b.failed
        → Fate j e b b'
    given_up :
        (e' : OutboxEnvelope)
        → snd.max_attempts ≤ suc e.attempts
        → get j b'.pending ≡ none
        → get j b'.done ≡ get j b.done
        → get j b'.failed ≡ some e'
        → Fate j e b b'
    retried :
        (e' : OutboxEnvelope)
        → suc e.attempts < snd.max_attempts
        → e'.attempts ≡ suc e.attempts
        → e'.envelope_id ≡ e.envelope_id
        → get j b'.pending ≡ some e'
        → get j b'.done ≡ get j b.done
        → get j b'.failed ≡ get j b.failed
        → Fate j e b b'

  -- One dispatch: the fate of its envelope, and the other ids.
  pub record Handled (e : OutboxEnvelope) (b b' : FileOutbox snd) : Type 0 where
    pub fate : Fate e.envelope_id e b b'
    pub others : (j : Str) → str_beq e.envelope_id j ≡ false → Same j b b'
    pub shorter : length b'.pending ≤ length b.pending
    pub distinct : IsDistinct (keys b.pending) → IsDistinct (keys b'.pending)

  at_own : (k : Str) (v : OutboxEnvelope) (d : Folder) → get k (put k v d) ≡ some v
  at_own k v d = get-put k k v d ∙ rw ((str_beq_iff k k).1 refl) refl

  gone : (k : Str) (d : Folder) → get k (remove k d) ≡ none
  gone k d = get-remove k k d ∙ rw ((str_beq_iff k k).1 refl) refl

  mark_done-Handled :
      (e : OutboxEnvelope) (b c : FileOutbox snd)
      → get e.envelope_id c.pending ≡ some e
      → c.pending ≡ b.pending
      → c.done ≡ b.done
      → c.failed ≡ b.failed
      → Handled e b (mark_done snd e c)
  unfolding mark_done
  mark_done-Handled e b c h p d f =
      rw (h, mark_done)
        (record {
          fate =
              delivered (gone e.envelope_id c.pending) (at_own e.envelope_id e c.done)
                (ap (get e.envelope_id) f);
          others = λ j other. record {
            pending = get-remove e.envelope_id j c.pending ∙ rw (other, p) refl;
            done = get-put e.envelope_id j e c.done ∙ rw (other, d) refl;
            failed = ap (get j) f;
          };
          shorter = omega (arith, length-remove e.envelope_id c.pending, ap length p);
          distinct = λ h. remove-IsDistinct e.envelope_id c.pending (rw p h);
        })

  mark_failed-Handled :
      (e : OutboxEnvelope) (text : Str) (b c : FileOutbox snd)
      → snd.max_attempts ≤ suc e.attempts
      → get e.envelope_id c.pending ≡ some e
      → c.pending ≡ b.pending
      → c.done ≡ b.done
      → c.failed ≡ b.failed
      → Handled e b (mark_failed snd e text c)
  unfolding mark_failed
  mark_failed-Handled e text b c last h p d f =
      rw (h, mark_failed)
        (record {
          fate =
              given_up (count_attempt snd text e) last (gone e.envelope_id c.pending)
                (ap (get e.envelope_id) d)
                (at_own e.envelope_id (count_attempt snd text e) c.failed);
          others = λ j other. record {
            pending = get-remove e.envelope_id j c.pending ∙ rw (other, p) refl;
            done = ap (get j) d;
            failed =
                get-put e.envelope_id j (count_attempt snd text e) c.failed ∙ rw (other, f) refl;
          };
          shorter = omega (arith, length-remove e.envelope_id c.pending, ap length p);
          distinct = λ h. remove-IsDistinct e.envelope_id c.pending (rw p h);
        })

  note_failure-Handled :
      (e : OutboxEnvelope) (text : Str) (t : Tallies snd) (b c : FileOutbox snd)
      → get e.envelope_id c.pending ≡ some e
      → c.pending ≡ b.pending
      → c.done ≡ b.done
      → c.failed ≡ b.failed
      → Handled e b (note_failure snd e text (t, c)).1
  unfolding note_failure
  note_failure-Handled e text t b c h p d f =
      elim (Bool-cases (leb snd.max_attempts (suc e.attempts))) [
        | inl last ↦ rw (last, note_failure) (mark_failed-Handled e text b c (ground arith) h p d f)
        | inr more ↦
            rw (more, note_failure)
              (record {
                fate =
                    retried (count_attempt snd text e) (ground arith) refl refl
                      (at_own e.envelope_id (count_attempt snd text e) c.pending)
                      (ap (get e.envelope_id) d) (ap (get e.envelope_id) f);
                others = λ j other. record {
                  pending =
                      get-put e.envelope_id j (count_attempt snd text e) c.pending
                      ∙ rw (other, p) refl;
                  done = ap (get j) d;
                  failed = ap (get j) f;
                };
                shorter = omega (
                  arith,
                  length-put-present e.envelope_id (count_attempt snd text e) e c.pending h,
                  ap length p,
                );
                distinct =
                    λ h. put-IsDistinct e.envelope_id (count_attempt snd text e) c.pending (rw p h);
              })
      ]

  dispatch_one-Handled :
      (e : OutboxEnvelope) (t : Tallies snd) (b : FileOutbox snd)
      → get e.envelope_id b.pending ≡ some e
      → Handled e b (dispatch_one snd e (t, b)).1
  unfolding dispatch_one after_dispatch
  dispatch_one-Handled e t b h = by_result (snd.dispatch_fn e b.world)
    where
      by_result : (m : Result Report × snd.World) → Handled e b (after_dispatch snd e (t, b) m).1
      by_result (raise x, world) =
          note_failure-Handled e (snd.exn_text x) t b (record b { world = world }) h refl refl refl
      by_result (ok report, world) = elim (Bool-cases (is_ok report)) [
        | inl fine ↦
            rw (fine, after_dispatch)
              (mark_done-Handled e b (record b { world = world }) h refl refl refl)
        | inr bad ↦
            rw (bad, after_dispatch)
              (note_failure-Handled e (message_of report) t b (record b { world = world }) h refl
                refl refl)
      ]

  -- The ids of a list of envelopes.
  abbrev pub ids_of : List OutboxEnvelope → List Str
  ids_of = map (λ e. e.envelope_id)

  abbrev pub AllPending : FileOutbox snd → List OutboxEnvelope → Type 0
  AllPending b es = All (λ e. get e.envelope_id b.pending ≡ some e) es

  still_pending :
      (e : OutboxEnvelope) (b b' : FileOutbox snd) (es : List OutboxEnvelope)
      → Handled e b b'
      → elem e.envelope_id (ids_of es) ≡ false
      → AllPending b es
      → AllPending b' es
  still_pending e b b' [] h out all_ = tt
  still_pending e b b' (d ∷ es) h out all_ = (
    (h.others d.envelope_id (
          ground (
            arith,
            str_beq_iff e.envelope_id d.envelope_id,
            str_beq_iff d.envelope_id e.envelope_id,
          ))).pending
        ∙ all_.0,
    still_pending e b b' es h (ground arith) all_.1,
  )

  -- The fates of the envelopes of a round.
  pub record Round (es : List OutboxEnvelope) (b b' : FileOutbox snd) : Type 0 where
    pub fates : All (λ e. Fate e.envelope_id e b b') es
    pub others : (j : Str) → elem j (ids_of es) ≡ false → Same j b b'
    pub shorter : length b'.pending ≤ length b.pending
    pub distinct : IsDistinct (keys b.pending) → IsDistinct (keys b'.pending)

  Same-Fate :
      (j : Str) (e : OutboxEnvelope) (a b c : FileOutbox snd)
      → Fate j e a b
      → Same j b c
      → Fate j e a c
  Same-Fate j e a b c (delivered p d f) s = delivered (s.pending ∙ p) (s.done ∙ d) (s.failed ∙ f)
  Same-Fate j e a b c (given_up e' l p d f) s =
      given_up e' l (s.pending ∙ p) (s.done ∙ d) (s.failed ∙ f)
  Same-Fate j e a b c (retried e' l n i p d f) s =
      retried e' l n i (s.pending ∙ p) (s.done ∙ d) (s.failed ∙ f)

  Fate-Same :
      (j : Str) (e : OutboxEnvelope) (a b c : FileOutbox snd)
      → Same j a b
      → Fate j e b c
      → Fate j e a c
  Fate-Same j e a b c s (delivered p d f) = delivered p d (f ∙ s.failed)
  Fate-Same j e a b c s (given_up e' l p d f) = given_up e' l p (d ∙ s.done) f
  Fate-Same j e a b c s (retried e' l n i p d f) = retried e' l n i p (d ∙ s.done) (f ∙ s.failed)

  fates-before :
      (e : OutboxEnvelope) (a b c : FileOutbox snd) (es : List OutboxEnvelope)
      → Handled e a b
      → elem e.envelope_id (ids_of es) ≡ false
      → All (λ d. Fate d.envelope_id d b c) es
      → All (λ d. Fate d.envelope_id d a c) es
  fates-before e a b c [] h out fs = tt
  fates-before e a b c (d ∷ es) h out fs = (
    Fate-Same d.envelope_id d a b c
        (h.others d.envelope_id (
          ground (
            arith,
            str_beq_iff e.envelope_id d.envelope_id,
            str_beq_iff d.envelope_id e.envelope_id,
          )))
        fs.0,
    fates-before e a b c es h (ground arith) fs.1,
  )

  pub dispatch_all-Round :
      (es : List OutboxEnvelope) (t : Tallies snd) (b : FileOutbox snd)
      → AllPending b es
      → IsDistinct (ids_of es)
      → Round es b (dispatch_all snd es (t, b)).1
  unfolding dispatch_all
  dispatch_all-Round [] t b all_ d = record {
    fates = tt;
    others = λ j out. record { pending = refl; done = refl; failed = refl };
    shorter = omega arith;
    distinct = λ h. h;
  }
  dispatch_all-Round (e ∷ es) t b all_ d =
      let h = dispatch_one-Handled e t b all_.0 in
      let (t₁, b₁) = dispatch_one snd e (t, b) in
      let rest = dispatch_all-Round es t₁ b₁ (still_pending e b b₁ es h d.0 all_.1) d.1 in
      let b₂ = (dispatch_all snd es (t₁, b₁)).1 in
      record {
        fates = (
          Same-Fate e.envelope_id e b b₁ b₂ h.fate (rest.others e.envelope_id d.0),
          fates-before e b b₁ b₂ es h d.0 rest.fates,
        );
        others = λ j out.
            let s₁ = h.others j (ground arith) in
            let s₂ = rest.others j (ground arith) in
            record {
              pending = s₂.pending ∙ s₁.pending;
              done = s₂.done ∙ s₁.done;
              failed = s₂.failed ∙ s₁.failed;
            };
        shorter = omega (arith, h.shorter, rest.shorter);
        distinct = λ k. rest.distinct (h.distinct k);
      }
