-- ===== src/Queue/Tests.antt =====
-- A run of the file queue of integrations/queue_transports.py.
use unlearning.Prelude.{◌≡◌, refl, some, List, [], ◌∷◌, ℕ}
use unlearning.Prelude.Text.{codes}
use unlearning.Queue.{QueueMessage, in_processing, FileQueue, enqueue}
use unlearning.Queue.Moves.{
  QueueCall, enqueued, dequeued, acked, run_calls, found, new_message, enqueue-found,
}

abbrev empty : FileQueue ℕ
empty = record { pending = []; processing = []; done = [] }

abbrev first : QueueMessage ℕ
first = record {
  message_id = codes "a";
  body = 7;
  receipt_handle = in_processing (codes "a");
  enqueued_unix_ns = 1;
}

abbrev calls : List (QueueCall ℕ)
calls = enqueued (codes "b") 2 8 ∷ dequeued 1 ∷ acked first ∷ dequeued 5 ∷ []

enqueue-found_example :
    found ℕ (codes "a") (run_calls ℕ calls (enqueue ℕ (codes "a") 1 7 empty).1)
    ≡ some (new_message ℕ (codes "a") 1 7)
unfolding unlearning.Queue.Moves.avoids
enqueue-found_example = enqueue-found ℕ (codes "a") 1 7 empty calls refl
