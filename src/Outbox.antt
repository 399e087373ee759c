-- ===== src/Outbox.antt =====
-- integrations/outbox.py: the outbox of delete intents as three folders of envelopes, its dispatcher,
-- and the replica hook over both. A folder is its files by their stems; the JSON of an envelope is
-- read back as it was written. The dispatch callback is a parameter, with the world that it changes.
pub mod Files
pub mod Round
pub mod Drain
pub mod Hook
mod Tests
use unlearning.Prelude.{
  ℕ, zero, suc, ◌+◌, Bool, true, false, not, ◌&&◌, ◌||◌, Option, none, some, List, [], ◌∷◌, ◌++◌,
  take, length, leb, ltb, ◌==◌, if◌then◌else◌, Str, Exn, runtime_error, Result, ok, raise,
}
use unlearning.Prelude.Dict.{Dict, get, put, remove, is_some}
use unlearning.Prelude.Eq.{str_eq}
use unlearning.Prelude.Text.{codes}

pub record OutboxEnvelope : Type 0 where
  pub envelope_id : Str
  pub request_id : Str
  pub collection : Str
  pub external_ids : List Str
  pub reason : Option Str
  pub max_m : ℕ
  pub attempts : ℕ
  pub created_unix_ns : ℕ
  pub last_error : Str

abbrev pub Folder : Type 0
Folder = Dict Str OutboxEnvelope

-- `s <= t` on texts
unfoldable pub str_leb : Str → Str → Bool
str_leb [] t = true
str_leb (c ∷ s) [] = false
str_leb (c ∷ s) (d ∷ t) = ltb c d || (c == d && str_leb s t)

-- File names are compared.
abbrev pub name_leb : Str → Str → Bool
name_leb j k = str_leb (j ++ codes ".json") (k ++ codes ".json")

unfoldable pub insert_file : Str → OutboxEnvelope → Folder → Folder
insert_file k e [] = (k, e) ∷ []
insert_file k e ((j, d) ∷ files) =
    let rest = insert_file k e files in
    if name_leb k j then (k, e) ∷ (j, d) ∷ files else (j, d) ∷ rest

-- `sorted(folder.glob("*.json"))`
unfoldable pub sorted_files : Folder → Folder
sorted_files [] = []
sorted_files ((k, e) ∷ files) = insert_file k e (sorted_files files)

unfoldable pub values : Folder → List OutboxEnvelope
values [] = []
values ((k, e) ∷ files) = e ∷ values files

-- What a callback returns: the entries of its dict that are read, and its text.
pub record Report : Type 0 where
  pub success : Option Bool
  pub quorum_met : Option Bool
  pub message : Option Str
  pub text : Str

-- `bool(result.get("success", result.get("quorum_met", True)))`
abbrev pub is_ok : Report → Bool
is_ok r = elim r.success [ some b ↦ b | none ↦ elim r.quorum_met [ some b ↦ b | none ↦ true ] ]

-- `str(result.get("message", result))`
abbrev pub message_of : Report → Str
message_of r = elim r.message [ some m ↦ m | none ↦ r.text ]

pub record Sender : Type 1 where
  pub World : Type 0
  pub dispatch_fn : OutboxEnvelope → World → Result Report × World
  pub exn_text : Exn → Str
  pub max_attempts : ℕ

module _ (snd : Sender) where
  pub record FileOutbox : Type 0 where
    pub pending : Folder
    pub done : Folder
    pub failed : Folder
    pub world : snd.World

  -- The arguments of `enqueue`; the id and the time are given to it.
  unfoldable pub new_envelope : Str → Str → List Str → Str → Option Str → ℕ → ℕ → OutboxEnvelope
  new_envelope envelope_id collection ids request_id reason max_m now = record {
    envelope_id = envelope_id;
    request_id = request_id;
    collection = collection;
    external_ids = ids;
    reason = reason;
    max_m = max_m;
    attempts = 0;
    created_unix_ns = now;
    last_error = [];
  }

  unfoldable pub enqueue : OutboxEnvelope → FileOutbox → FileOutbox
  enqueue env box = record box { pending = put env.envelope_id env box.pending }

  unfoldable pub list_pending : FileOutbox → List OutboxEnvelope
  list_pending box = values (sorted_files box.pending)

  -- `shutil.move`, where the source is there
  unfoldable pub mark_done : OutboxEnvelope → FileOutbox → FileOutbox
  mark_done env box = elim (get env.envelope_id box.pending) [
    | none ↦ box
    | some file ↦ record box {
      pending = remove env.envelope_id box.pending;
      done = put env.envelope_id file box.done;
    }
  ]

  abbrev pub count_attempt : Str → OutboxEnvelope → OutboxEnvelope
  count_attempt error env = record env { attempts = suc env.attempts; last_error = error }

  unfoldable pub mark_failed : OutboxEnvelope → Str → FileOutbox → FileOutbox
  mark_failed env error box = elim (get env.envelope_id box.pending) [
    | none ↦ box
    | some file ↦ record box {
      pending = remove env.envelope_id box.pending;
      failed = put env.envelope_id (count_attempt error env) box.failed;
    }
  ]

  unfoldable pub requeue_failed : Str → FileOutbox → FileOutbox
  requeue_failed envelope_id box = elim (get envelope_id box.failed) [
    | none ↦ box
    | some file ↦ record box {
      failed = remove envelope_id box.failed;
      pending = put envelope_id file box.pending;
    }
  ]

  -- The counts of a round.
  pub record Tallies : Type 0 where
    pub done : ℕ
    pub failed : ℕ
    pub errors : List Str

  -- A failed attempt, by a report or by an exception: the last one moves the file.
  unfoldable pub note_failure : OutboxEnvelope → Str → Tallies × FileOutbox → Tallies × FileOutbox
  unfolding mark_failed
  note_failure env text (t, box) =
      if leb snd.max_attempts (suc env.attempts)
      then (record t { failed = suc t.failed }, mark_failed env text box)
      else (
        record t { errors = t.errors ++ text ∷ [] },
        record box { pending = put env.envelope_id (count_attempt text env) box.pending },
      )

  unfoldable pub after_dispatch :
      OutboxEnvelope → Tallies × FileOutbox → Result Report × snd.World → Tallies × FileOutbox
  unfolding note_failure mark_done
  after_dispatch env (t, box) (raise x, world) =
      note_failure env (snd.exn_text x) (t, record box { world = world })
  after_dispatch env (t, box) (ok report, world) =
      if is_ok report
      then (record t { done = suc t.done }, mark_done env (record box { world = world }))
      else note_failure env (message_of report) (t, record box { world = world })

  unfoldable pub dispatch_one : OutboxEnvelope → Tallies × FileOutbox → Tallies × FileOutbox
  unfolding after_dispatch
  dispatch_one env (t, box) = after_dispatch env (t, box) (snd.dispatch_fn env box.world)

  unfoldable pub dispatch_all : List OutboxEnvelope → Tallies × FileOutbox → Tallies × FileOutbox
  dispatch_all [] s = s
  dispatch_all (env ∷ envs) s = dispatch_all envs (dispatch_one env s)

  -- `dispatch_pending`: the round goes over the files that were there when it began.
  unfoldable pub dispatch_pending : ℕ → FileOutbox → Tallies × FileOutbox
  unfolding dispatch_all
  dispatch_pending limit box =
      dispatch_all (take limit (list_pending box))
        (record { done = 0; failed = 0; errors = [] }, box)

  abbrev pub pending_left : FileOutbox → ℕ
  pending_left box = length (list_pending box)

  -- The hook of `make_outbox_replica_hook`, on its envelope; the flag says whether it dispatches.
  unfoldable pub hook : Bool → OutboxEnvelope → FileOutbox → Result Str × FileOutbox
  hook false env box = (ok env.envelope_id, enqueue env box)
  hook true env box =
      let (t, box') = dispatch_pending 1 (enqueue env box) in
      (
        (if ltb 0 t.failed
            then raise (runtime_error (codes "outbox dispatch failed"))
            else ok env.envelope_id),
        box',
      )
