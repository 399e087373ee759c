-- ===== src/Queue.antt =====
-- integrations/queue_transports.py: the queues of messages. A folder is its files by their stems, and
-- JSON is read back as it was written. The ids (`uuid4`) and the clock are arguments.
pub mod Moves
mod Tests
use unlearning.Prelude.{
  ℕ, Option, none, some, List, [], ◌∷◌, take, if◌then◌else◌, Str, Result, ◌>>=◌,
}
use unlearning.Prelude.Dict.{Dict, get, put, remove, keys}
use unlearning.Prelude.Eq.{str_eq}
use unlearning.Prelude.Text.{codes}
use unlearning.Outbox.{name_leb}

-- Where a message that was delivered lies: no handle, the file of the stem in `processing`, or the
-- handle of a service.
pub data ReceiptHandle : Type 0 where
  no_handle : ReceiptHandle
  in_processing : Str → ReceiptHandle
  of_service : Str → ReceiptHandle

pub record QueueMessage (Body : Type 0) : Type 0 where
  pub message_id : Str
  pub body : Body
  pub receipt_handle : ReceiptHandle
  pub enqueued_unix_ns : ℕ

unfoldable pub insert_name : Str → List Str → List Str
insert_name k [] = k ∷ []
insert_name k (j ∷ names) =
    let rest = insert_name k names in if name_leb k j then k ∷ j ∷ names else j ∷ rest

-- `sorted(folder.glob("*.json"))`, by the stems
unfoldable pub sorted_names : List Str → List Str
sorted_names [] = []
sorted_names (k ∷ names) = insert_name k (sorted_names names)

module _ (Body : Type 0) where
  -- `FileQueueTransport`
  pub record FileQueue : Type 0 where
    pub pending : Dict Str (QueueMessage Body)
    pub processing : Dict Str (QueueMessage Body)
    pub done : Dict Str (QueueMessage Body)

  -- `enqueue`, with the id that was drawn
  unfoldable pub enqueue : Str → ℕ → Body → FileQueue → Str × FileQueue
  enqueue mid now body q =
      let msg : QueueMessage Body = record {
        message_id = mid;
        body = body;
        receipt_handle = no_handle;
        enqueued_unix_ns = now;
      } in
      (mid, record q { pending = put mid msg q.pending })

  -- `path.replace(dest)`, for a file of `pending`
  abbrev pub start_processing : Str → QueueMessage Body → FileQueue → FileQueue
  start_processing name msg q = record q {
    pending = remove name q.pending;
    processing = put name msg q.processing;
  }

  -- The loop of `dequeue` over the names that were listed, each of a file that is there.
  unfoldable pub deliver : List Str → FileQueue → List (QueueMessage Body) × FileQueue
  deliver [] q = ([], q)
  deliver (name ∷ names) q = elim (get name q.pending) [
    | none ↦ deliver names q
    | some msg ↦
        let (out, q') = deliver names (start_processing name msg q) in
        (record msg { receipt_handle = in_processing name } ∷ out, q')
  ]

  unfoldable pub dequeue : ℕ → FileQueue → List (QueueMessage Body) × FileQueue
  dequeue max_messages q = deliver (take max_messages (sorted_names (keys q.pending))) q

  -- `src.replace(dest)`, if the file is there
  abbrev pub finish : Str → FileQueue → FileQueue
  finish name q = elim (get name q.processing) [
    | none ↦ q
    | some msg ↦ record q { processing = remove name q.processing; done = put name msg q.done }
  ]

  unfoldable pub ack : QueueMessage Body → FileQueue → FileQueue
  ack message q = elim message.receipt_handle [
    | no_handle ↦ q
    | of_service h ↦ q
    | in_processing name ↦ finish name q
  ]

-- `enqueue_delete_intent`, over the `enqueue` of any transport
pub record DeleteIntentBody : Type 0 where
  pub kind : Str
  pub request_id : Str
  pub collection : Str
  pub external_ids : List Str
  pub reason : Option Str
  pub max_m : ℕ

unfoldable pub enqueue_delete_intent {ℓ} :
    {T : Type ℓ}
    → (DeleteIntentBody → T → Result Str × T)
    → Str
    → List Str
    → Str
    → Option Str
    → ℕ
    → T
    → Result Str × T
enqueue_delete_intent send collection external_ids request_id reason max_m t =
    send
      (record {
        kind = codes "hnsw_healer.delete_intent";
        request_id = request_id;
        collection = collection;
        external_ids = external_ids;
        reason = reason;
        max_m = max_m;
      })
      t
