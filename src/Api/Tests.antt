-- ===== src/Api/Tests.antt =====
-- Runs of the retry and of the handlers of api/main.py.
use unlearning.Prelude.{
  Str, ℕ, suc, ◌+◌, ◌<◌, ◌≡◌, ◌⊎◌, refl, Bool, true, false, none, List, [], ◌∷◌, length, ltb,
  if◌then◌else◌, Exn, runtime_error, Result, ok, raise,
}
use unlearning.Prelude.Eq.{nat_eq, str_eq}
use unlearning.Prelude.Text.{codes}
use unlearning.Registry.Ops.{Registry, empty}
use unlearning.Replica.{DeleteIntent}
use unlearning.Erase.Types.{Receipt}
use unlearning.Erase.Complete.{IsComplete}
use unlearning.Erase.Service.{Service, choose_proof, delete}
use unlearning.Erase.Tests
use unlearning.Erase.Tests.{toy_deps, docs, service, ambient}
use unlearning.Workflow.{create}
use unlearning.Workflow.Tests.{toy_surfaces, ticket, start}
use unlearning.Api.{Reply, answer, http_error, uncaught, HttpError, at_least_one, with_lock_retry}
use unlearning.Api.Retry.{contends, Contended, delays, with_lock_retry-calls}
use unlearning.Api.Ingest.{Site, IngestRequest, IngestResponse, Desk, append_text, ingest_vectors}
use unlearning.Api.Refused.{OnlyRegistered, ingest_vectors-refused}
use unlearning.Api.Requests.{
  create_erasure_request, not_loaded_text, Created, create_erasure_request-Filed,
}
use unlearning.Api.Deletes.{
  EnterpriseDeleteRequest, IntentReply, intent_args, replica_delete_intent,
}
use unlearning.Api.Told.{replica_delete_intent-success}
use unlearning.Api.Search.{Searcher, search, search-retries}

-- Busy for the first two calls; the world counts the calls.
abbrev busy_twice : ℕ → Result ℕ × ℕ
busy_twice n = (if ltb n 2 then raise (runtime_error (codes "busy")) else ok n, suc n)

abbrev always : Exn → Bool
always x = true

with_lock_retry-calls_example :
    (k : ℕ) × (w' : ℕ) × (k < at_least_one 5)
    × Contended always busy_twice 10 k 0 w'
    × ((with_lock_retry always busy_twice 10 5 0).0 ≡ (busy_twice w').0)
    × ((with_lock_retry always busy_twice 10 5 0).1.world ≡ (busy_twice w').1)
    × ((with_lock_retry always busy_twice 10 5 0).1.slept ≡ delays always busy_twice 10 0 k)
    × ((with_lock_retry always busy_twice 10 5 0).1.contentions
        ≡ k + (if contends always busy_twice 10 (busy_twice w').0 then 1 else 0))
    × ((contends always busy_twice 10 (busy_twice w').0 ≡ false) ⊎ (suc k ≡ at_least_one 5))
with_lock_retry-calls_example = with_lock_retry-calls always busy_twice 10 5 0

slept_run : (with_lock_retry always busy_twice 10 5 0).1.slept ≡ 10 ∷ 20 ∷ []
unfolding with_lock_retry
slept_run = refl

abbrev searcher : Searcher
searcher = record {
  Query = Unit {0};
  Hits = ℕ;
  W = ℕ;
  is_loaded = λ n. true;
  search_knn = λ q n. busy_twice n;
  is_contention = always;
  exn_text = λ x. codes "busy";
}

searched : search searcher 5 10 tt 0 ≡ (answer (record { hits = 2; retries = 2 }), 3)
unfolding search with_lock_retry
searched = refl

searched_calls :
    (v : ℕ) × (2 < at_least_one 5)
    × Contended always busy_twice 10 2 0 v
    × (busy_twice v ≡ (ok 2, 3))
searched_calls = search-retries searcher 5 10 tt 0 searched

-- A native module whose memory is what was loaded last.
abbrev toy_site : Site
toy_site = record {
  F = ℕ;
  fzero = 0;
  W = List (List ℕ);
  is_loaded = λ rows. ltb 0 (length rows);
  load_index = λ rows d n w. (ok tt, rows);
  set_neighbors = λ i level nodes w. (ok tt, w);
  save_initial_checkpoint = λ w. (ok tt, w);
  save_registry = λ r w. (ok tt, w);
  exn_text = λ x. codes "error";
  ragged_text = codes "ragged";
}

abbrev batch : Bool → IngestRequest toy_site
batch replace = record {
  collection = codes "docs";
  ids = codes "alice" ∷ codes "bob" ∷ [];
  vectors = (7 ∷ 8 ∷ []) ∷ (9 ∷ 9 ∷ []) ∷ [];
  labels = none;
  replace_index = replace;
  checkpoint = true;
}

abbrev desk : List (List ℕ) → Desk toy_site
desk rows = record { registry = empty; world = rows; counted = [] }

abbrev is_answer : {A : Type 0} → Reply A → Bool
is_answer (answer a) = true
is_answer (http_error e) = false
is_answer (uncaught x) = false

abbrev or_blank : {A : Type 0} → A → Reply A → A
or_blank b (answer a) = a
or_blank b (http_error e) = b
or_blank b (uncaught x) = b

answer-eq :
    {A S : Type 0} (b : A) (p : Reply A × S)
    → is_answer p.0 ≡ true
    → p ≡ (answer (or_blank b p.0), p.1)
answer-eq b (answer a, s) h = refl
answer-eq b (http_error e, s) h = absurd (cc)
answer-eq b (uncaught x, s) h = absurd (cc)

abbrev ingested : Reply (IngestResponse toy_site) × Desk toy_site
ingested = ingest_vectors toy_site (batch false) (desk [])

abbrev no_response : IngestResponse toy_site
no_response = record {
  collection = [];
  count = 0;
  dim = 0;
  mapping = [];
  index_loaded = false;
  checkpointed = false;
}

loads : Unit {0}
unfolding unlearning.Erase.Tests.program unlearning.Api.Ingest.register_loop
    unlearning.Api.Matrix.max_label unlearning.Api.Matrix.set_row unlearning.Api.Matrix.fill_rows
    unlearning.Api.Matrix.replicate unlearning.Api.Matrix.range_from unlearning.Api.Matrix.shape_of
    unlearning.Api.Ingest.dense_rows unlearning.Api.Ingest.index_rows
    unlearning.Api.Ingest.link_ring unlearning.Api.Ingest.load_and_link
    unlearning.Api.Ingest.checkpointed unlearning.Api.Ingest.after_load
    unlearning.Api.Ingest.load_vectors unlearning.Api.Ingest.register_and_load
    unlearning.Api.Ingest.ingest_vectors
loads = tt

ingested_run : ingested.1.world ≡ (7 ∷ 8 ∷ []) ∷ (9 ∷ 9 ∷ []) ∷ []
unfolding loads
ingested_run = refl

abbrev conflict : HttpError
conflict = record { status_code = 409; detail = append_text toy_site }

refused_run : (ingest_vectors toy_site (batch false) (desk ((1 ∷ []) ∷ []))).0 ≡ http_error conflict
unfolding loads
refused_run = refl

ingest_vectors-refused_example :
    OnlyRegistered toy_site
      (batch false)
      (desk ((1 ∷ []) ∷ []))
      (ingest_vectors toy_site (batch false) (desk ((1 ∷ []) ∷ []))).1
ingest_vectors-refused_example =
    ingest_vectors-refused toy_site (batch false) (desk ((1 ∷ []) ∷ [])) refused_run refl

abbrev loaded_from : ℕ → Bool
loaded_from n = ltb 0 n

create_erasure_request-Filed_example :
    Created toy_surfaces loaded_from start
      (create toy_surfaces ticket start.store).0
      (create_erasure_request toy_surfaces loaded_from ticket true 16 start)
create_erasure_request-Filed_example =
    create_erasure_request-Filed toy_surfaces loaded_from ticket true 16 start

abbrev body : EnterpriseDeleteRequest
body = record {
  collection = docs;
  ids = codes "alice" ∷ [];
  reason = none;
  request_id = none;
  max_m = 16;
  compact = none;
  residual_proof = none;
}

abbrev has_rows : List ℕ → Bool
has_rows rows = ltb 0 (length rows)

abbrev toy_repr : Str → Str
toy_repr t = t

abbrev saves : Registry → List ℕ → Result (Unit {0}) × List ℕ
saves r rows = (ok tt, rows)

abbrev intent : DeleteIntent
intent = record {
  request_id = codes "r1";
  collection = docs;
  external_ids = codes "alice" ∷ [];
  reason = none;
  max_m = 16;
  timestamp_unix_ns = 1;
}

abbrev replied : Reply IntentReply × Service toy_deps
replied = replica_delete_intent toy_deps has_rows always saves toy_repr (ok intent) ambient service

abbrev no_reply : IntentReply
no_reply = record {
  success = false;
  message = [];
  request_id = [];
  bytes_wiped_total = none;
  status = none;
}

replied-answers : is_answer replied.0 ≡ true
unfolding unlearning.Erase.Tests.program replica_delete_intent
replied-answers = refl

replied-success : (or_blank no_reply replied.0).success ≡ true
unfolding unlearning.Erase.Tests.program replica_delete_intent
replied-success = refl

replied_receipt :
    (r : Receipt) × (delete toy_deps (intent_args intent) ambient service ≡ (ok r, replied.1))
    × IsComplete
        (length r.external_ids)
        (length r.labels)
        r.errors
        (choose_proof toy_deps none)
        r.residual_proof.passed
replied_receipt =
    replica_delete_intent-success toy_deps has_rows always saves toy_repr intent ambient service
      (answer-eq no_reply replied replied-answers) replied-success

-- Without an index the ticket is refused, and stays in its file.
unloaded_run :
    (create_erasure_request toy_surfaces loaded_from ticket true 16 start).0
    ≡ http_error (record { status_code = 409; detail = not_loaded_text toy_surfaces loaded_from })
unfolding create_erasure_request unlearning.Api.Requests.created_reply create
    unlearning.Workflow.save
unloaded_run = refl
