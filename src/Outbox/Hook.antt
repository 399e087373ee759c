-- ===== src/Outbox/Hook.antt =====
-- The replica hook that dispatches (`make_outbox_replica_hook` of integrations/outbox.py).
use unlearning.Prelude.{◌≡◌, refl, ◌∙◌, true, false, some, List, ◌∷◌, arith, take, map}
use unlearning.Prelude.Dict.{get, get-put, put-IsDistinct}
use unlearning.Prelude.Eq.{str_eq, str_beq, str_beq_iff, elem}
use unlearning.Outbox.{OutboxEnvelope, Sender, FileOutbox, enqueue, list_pending, hook}
use unlearning.Outbox.Drain.{IsFiled, dispatch_pending-Round}

module _ (snd : Sender) where
  enqueue-IsFiled :
      (env : OutboxEnvelope) (b : FileOutbox snd) → IsFiled snd b → IsFiled snd (enqueue snd env b)
  unfolding enqueue
  enqueue-IsFiled env b h = record {
    distinct = put-IsDistinct env.envelope_id env b.pending h.distinct;
    keyed = λ j e g. ground (
      arith,
      get-put env.envelope_id j env b.pending,
      h.keyed j e,
      str_beq_iff env.envelope_id j,
    );
  }

  -- With an older envelope pending whose file name comes first, the hook dispatches that one: the
  -- intent that it was called for is still pending and untried behind it, whatever the hook returned.
  pub hook-pending :
      (env old : OutboxEnvelope) (rest : List OutboxEnvelope) (b : FileOutbox snd)
      → IsFiled snd b
      → list_pending snd (enqueue snd env b) ≡ old ∷ rest
      → str_beq old.envelope_id env.envelope_id ≡ false
      → get env.envelope_id (hook snd true env b).1.pending ≡ some env
  unfolding hook enqueue
  hook-pending env old rest b h listed other =
      let round = dispatch_pending-Round snd 1 (enqueue snd env b) (enqueue-IsFiled env b h) in
      let out : elem env.envelope_id
            (map (λ e. e.envelope_id) (take 1 (list_pending snd (enqueue snd env b))))
          ≡ false =
        rw listed (rw other refl) in
      (round.others env.envelope_id out).pending
      ∙ (get-put env.envelope_id env.envelope_id env b.pending
          ∙ rw ((str_beq_iff env.envelope_id env.envelope_id).1 refl) refl)
