-- ===== src/Queue/Moves.antt =====
-- Where a message of the file queue (integrations/queue_transports.py) lies, over any calls.
use unlearning.Prelude.{
  ℕ, ◌≡◌, refl, sym, ap, ◌∙◌, Bool, true, false, not, ◌&&◌, Option, none, some, List, [], ◌∷◌,
  arith, take, Bool-cases, Option-cases, inl, inr, Str, if◌then◌else◌,
}
use unlearning.Prelude.Dict.{get, get-put, get-remove, keys}
use unlearning.Prelude.Eq.{str_eq, str_beq, str_beq_iff}
use unlearning.Queue.{
  QueueMessage, ReceiptHandle, no_handle, in_processing, of_service, FileQueue, enqueue,
  start_processing, deliver, dequeue, finish, ack, sorted_names,
}

-- A call of the transport.
pub data QueueCall (Body : Type 0) : Type 0 where
  enqueued : Str → ℕ → Body → QueueCall Body
  dequeued : ℕ → QueueCall Body
  acked : QueueMessage Body → QueueCall Body

module _ (Body : Type 0) where
  unfoldable pub run_calls : List (QueueCall Body) → FileQueue Body → FileQueue Body
  run_calls [] q = q
  run_calls (enqueued mid now body ∷ cs) q = run_calls cs (enqueue Body mid now body q).1
  run_calls (dequeued max_messages ∷ cs) q = run_calls cs (dequeue Body max_messages q).1
  run_calls (acked message ∷ cs) q = run_calls cs (ack Body message q)

  -- No call enqueues under the id.
  unfoldable pub avoids : Str → List (QueueCall Body) → Bool
  avoids mid [] = true
  avoids mid (enqueued m now body ∷ cs) = not (str_beq m mid) && avoids mid cs
  avoids mid (dequeued max_messages ∷ cs) = avoids mid cs
  avoids mid (acked message ∷ cs) = avoids mid cs

  unfoldable pub first_of :
      Option (QueueMessage Body)
      → Option (QueueMessage Body)
      → Option (QueueMessage Body)
      → Option (QueueMessage Body)
  first_of (some m) b c = some m
  first_of none (some m) c = some m
  first_of none none c = c

  -- The file of a message, in the first folder that has it.
  unfoldable pub found : Str → FileQueue Body → Option (QueueMessage Body)
  found n q = first_of (get n q.pending) (get n q.processing) (get n q.done)

  first_of-started :
      (m : QueueMessage Body) (b c : Option (QueueMessage Body))
      → first_of none (some m) c ≡ first_of (some m) b c
  unfolding first_of
  first_of-started m b c = refl

  first_of-finished :
      (m : QueueMessage Body) (a c : Option (QueueMessage Body))
      → first_of a none (some m) ≡ first_of a (some m) c
  unfolding first_of
  first_of-finished m none c = refl
  first_of-finished m (some a) c = refl

  found-start_processing :
      (n name : Str) (msg : QueueMessage Body) (q : FileQueue Body)
      → get name q.pending ≡ some msg
      → found n (start_processing Body name msg q) ≡ found n q
  unfolding found
  found-start_processing n name msg q h = elim (Bool-cases (str_beq name n)) [
    | inr f ↦ rw (get-remove name n q.pending, get-put name n msg q.processing, f) refl
    | inl t ↦
        let same : get n q.pending ≡ some msg =
          ap (λ k. get k q.pending) (sym ((str_beq_iff name n).0 t)) ∙ h in
        rw (get-remove name n q.pending, get-put name n msg q.processing, t, same)
          (first_of-started msg (get n q.processing) (get n q.done))
  ]

  found-finish : (n name : Str) (q : FileQueue Body) → found n (finish Body name q) ≡ found n q
  unfolding found
  found-finish n name q = elim (Option-cases (get name q.processing)) [
    | inl t ↦ rw (t, finish) refl
    | inr (msg, t) ↦ elim (Bool-cases (str_beq name n)) [
      | inr f ↦ rw (t, finish, get-remove name n q.processing, get-put name n msg q.done, f) refl
      | inl e ↦
          let same : get n q.processing ≡ some msg =
            ap (λ k. get k q.processing) (sym ((str_beq_iff name n).0 e)) ∙ t in
          rw (t, finish, get-remove name n q.processing, get-put name n msg q.done, e, same)
            (first_of-finished msg (get n q.pending) (get n q.done))
    ]
  ]

  found-deliver :
      (n : Str) (names : List Str) (q : FileQueue Body)
      → found n (deliver Body names q).1 ≡ found n q
  unfolding deliver
  found-deliver n [] q = refl
  found-deliver n (name ∷ names) q = elim (Option-cases (get name q.pending)) [
    | inl t ↦ rw (t, deliver) (found-deliver n names q)
    | inr (msg, t) ↦
        rw (t, deliver)
          (found-deliver n names (start_processing Body name msg q)
            ∙ found-start_processing n name msg q t)
  ]

  found-dequeue :
      (n : Str) (max_messages : ℕ) (q : FileQueue Body)
      → found n (dequeue Body max_messages q).1 ≡ found n q
  unfolding dequeue
  found-dequeue n max_messages q =
      found-deliver n (take max_messages (sorted_names (keys q.pending))) q

  -- The message that `enqueue` writes.
  abbrev pub new_message : Str → ℕ → Body → QueueMessage Body
  new_message mid now body = record {
    message_id = mid;
    body = body;
    receipt_handle = no_handle;
    enqueued_unix_ns = now;
  }

  found-enqueue :
      (n mid : Str) (now : ℕ) (body : Body) (q : FileQueue Body)
      → str_beq mid n ≡ false
      → found n (enqueue Body mid now body q).1 ≡ found n q
  unfolding found enqueue
  found-enqueue n mid now body q f = rw (get-put mid n (new_message mid now body) q.pending, f) refl

  found-ack :
      (n : Str) (message : QueueMessage Body) (q : FileQueue Body)
      → found n (ack Body message q) ≡ found n q
  unfolding ack
  found-ack n message q = by_handle message.receipt_handle
    where
      by_handle :
          (h : ReceiptHandle)
          → found n (elim h [
            | no_handle ↦ q
            | of_service s ↦ q
            | in_processing name ↦ finish Body name q
          ])
            ≡ found n q
      by_handle no_handle = refl
      by_handle (of_service s) = refl
      by_handle (in_processing name) = found-finish n name q

  split_and : (a b : Bool) → (not a && b) ≡ true → (a ≡ false) × (b ≡ true)
  split_and a b h = ground arith

  found-run_calls :
      (mid : Str) (cs : List (QueueCall Body)) (q : FileQueue Body)
      → avoids mid cs ≡ true
      → found mid (run_calls cs q) ≡ found mid q
  unfolding run_calls avoids
  found-run_calls mid [] q h = refl
  found-run_calls mid (enqueued m now body ∷ cs) q h =
      let (other, rest) = split_and (str_beq m mid) (avoids mid cs) h in
      found-run_calls mid cs _ rest ∙ found-enqueue mid m now body q other
  found-run_calls mid (dequeued max_messages ∷ cs) q h =
      found-run_calls mid cs _ h ∙ found-dequeue mid max_messages q
  found-run_calls mid (acked message ∷ cs) q h =
      found-run_calls mid cs _ h ∙ found-ack mid message q

  -- A file that is not in `pending` is not put there by a delivery.
  deliver-pending :
      (n : Str) (names : List Str) (q : FileQueue Body)
      → get n q.pending ≡ none
      → get n (deliver Body names q).1.pending ≡ none
  unfolding deliver
  deliver-pending n [] q h = h
  deliver-pending n (name ∷ names) q h = elim (Option-cases (get name q.pending)) [
    | inl t ↦ rw (t, deliver) (deliver-pending n names q h)
    | inr (msg, t) ↦
        rw (t, deliver)
          (deliver-pending n names (start_processing Body name msg q)
            (rw (get-remove name n q.pending, h) (if_none (str_beq name n))))
  ]
    where
      if_none : (b : Bool) → ◌≡◌ {A = Option (QueueMessage Body)} (if b then none else none) none
      if_none true = refl
      if_none false = refl

  ack-pending :
      (n : Str) (message : QueueMessage Body) (q : FileQueue Body)
      → get n (ack Body message q).pending ≡ get n q.pending
  unfolding ack
  ack-pending n message q = ground arith

  -- A message that has left `pending` does not come back, over calls that do not enqueue under its id.
  pub run_calls-pending :
      (mid : Str) (cs : List (QueueCall Body)) (q : FileQueue Body)
      → avoids mid cs ≡ true
      → get mid q.pending ≡ none
      → get mid (run_calls cs q).pending ≡ none
  unfolding run_calls avoids enqueue dequeue
  run_calls-pending mid [] q a h = h
  run_calls-pending mid (enqueued m now body ∷ cs) q a h =
      let (other, rest) = split_and (str_beq m mid) (avoids mid cs) a in
      run_calls-pending mid cs _ rest
        (rw (get-put m mid (new_message m now body) q.pending, other) h)
  run_calls-pending mid (dequeued max_messages ∷ cs) q a h =
      run_calls-pending mid cs _ a (deliver-pending mid _ q h)
  run_calls-pending mid (acked message ∷ cs) q a h =
      run_calls-pending mid cs _ a (ack-pending mid message q ∙ h)

  found-written :
      (mid : Str) (now : ℕ) (body : Body) (q : FileQueue Body)
      → found mid (enqueue Body mid now body q).1 ≡ some (new_message mid now body)
  unfolding found enqueue first_of
  found-written mid now body q =
      ap (λ m. first_of m (get mid q.processing) (get mid q.done))
        (get-put mid mid (new_message mid now body) q.pending
          ∙ if_true (str_beq mid mid) (get mid q.pending) ((str_beq_iff mid mid).1 refl))
    where
      if_true :
          (b : Bool) (y : Option (QueueMessage Body))
          → b ≡ true
          → (if b then some (new_message mid now body) else y) ≡ some (new_message mid now body)
      if_true true y h = refl
      if_true false y h = absurd (cc)

  -- A message that was enqueued lies in one of the folders as it was written, over any calls that do
  -- not enqueue under its id again.
  pub enqueue-found :
      (mid : Str) (now : ℕ) (body : Body) (q : FileQueue Body) (cs : List (QueueCall Body))
      → avoids mid cs ≡ true
      → found mid (run_calls cs (enqueue Body mid now body q).1) ≡ some (new_message mid now body)
  enqueue-found mid now body q cs a =
      found-run_calls mid cs (enqueue Body mid now body q).1 a ∙ found-written mid now body q
