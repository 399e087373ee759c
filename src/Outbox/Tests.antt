-- ===== src/Outbox/Tests.antt =====
-- Runs of integrations/outbox.py: an outbox of two intents whose callback refuses one of them.
use unlearning.Prelude.{
  ℕ, zero, suc, ◌≡◌, ◌≤◌, refl, arith, Bool, true, false, Option, none, some, List, [], ◌∷◌, length,
  if◌then◌else◌, Str, Exn, ok, raise,
}
use unlearning.Prelude.Dict.{Dict, get}
use unlearning.Prelude.Eq.{str_eq, str_beq, str_beq_iff}
use unlearning.Prelude.Text.{codes}
use unlearning.Outbox.{
  OutboxEnvelope, Sender, FileOutbox, enqueue, list_pending, dispatch_pending, pending_left, hook,
}
use unlearning.Outbox.Drain.{IsFiled, copies, rounds, dispatch_pending-copies, rounds-pending_left}

-- The world counts the calls; the intent `b` is refused.
abbrev toy_sender : Sender
toy_sender = record {
  World = ℕ;
  dispatch_fn = λ env n. (
    ok (record {
      success = some (if str_beq env.envelope_id (codes "b") then false else true);
      quorum_met = none;
      message = some (codes "refused");
      text = [];
    }),
    suc n,
  );
  exn_text = λ x. codes "error";
  max_attempts = 2;
}

abbrev envelope : Str → OutboxEnvelope
envelope name = record {
  envelope_id = name;
  request_id = codes "r1";
  collection = codes "docs";
  external_ids = codes "alice" ∷ [];
  reason = none;
  max_m = 16;
  attempts = 0;
  created_unix_ns = 1;
  last_error = [];
}

abbrev box : FileOutbox toy_sender
box = record {
  pending = (codes "b", envelope (codes "b")) ∷ (codes "a", envelope (codes "a")) ∷ [];
  done = [];
  failed = [];
  world = 0;
}

box-IsFiled : IsFiled toy_sender box
unfolding get
box-IsFiled = record {
  distinct = (refl, (refl, tt));
  keyed = λ j e g. ground (arith, str_beq_iff (codes "b") j, str_beq_iff (codes "a") j);
}

filed_once : copies toy_sender (codes "b") box ≤ 1
unfolding get
filed_once = omega arith

dispatch_pending-copies_example :
    copies toy_sender (codes "b") (dispatch_pending toy_sender 10 box).1
    ≡ copies toy_sender (codes "b") box
dispatch_pending-copies_example =
    dispatch_pending-copies toy_sender 10 (codes "b") box box-IsFiled filed_once

rounds-pending_left_example : pending_left toy_sender (rounds toy_sender 2 10 box) ≡ 0
rounds-pending_left_example =
    rounds-pending_left toy_sender 1 10 box box-IsFiled (omega arith) (omega arith)

program : Unit {0}
unfolding unlearning.Prelude.Dict.get unlearning.Prelude.Dict.put unlearning.Prelude.Dict.remove
    unlearning.Outbox.str_leb unlearning.Outbox.insert_file unlearning.Outbox.sorted_files
    unlearning.Outbox.values unlearning.Outbox.enqueue unlearning.Outbox.list_pending
    unlearning.Outbox.mark_done unlearning.Outbox.mark_failed unlearning.Outbox.note_failure
    unlearning.Outbox.after_dispatch unlearning.Outbox.dispatch_one unlearning.Outbox.dispatch_all
    unlearning.Outbox.dispatch_pending unlearning.Outbox.hook unlearning.Outbox.Drain.rounds
program = tt

calls_run : (rounds toy_sender 2 10 box).world ≡ 3
unfolding program
calls_run = refl

-- A third intent, behind the two in the order of the file names.
abbrev late : OutboxEnvelope
late = envelope (codes "c")

late-listed :
    list_pending toy_sender (enqueue toy_sender late box)
    ≡ envelope (codes "a") ∷ envelope (codes "b") ∷ late ∷ []
unfolding program
late-listed = refl
