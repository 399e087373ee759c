-- ===== src/Lib.antt =====
-- Verification of the hard-delete control plane: the Python code that erases a vector by its
-- business id, proves the erasure and issues a receipt, and the log that makes a delete durable.
--
-- The parts and how they interact. `ErasureService.delete` (integrations/erase_service.py) takes a
-- batch of business ids. The registry (integrations/id_registry.py) resolves them to labels; the
-- backend or the durable engine wipes a label; the registry forgets the id; the policy
-- (integrations/compact_policy.py), under the advice of the strategy
-- (integrations/delete_strategy.py), says whether the index is rebuilt; the residual proofs
-- (compliance/residual.py) read the wiped vectors back; the status of the receipt sums this up.
-- The durable engine (api/persistence.py) keeps a write-ahead log (api/wal.py) of deletes that
-- began and committed, publishes the index by a rename, and replays what is uncommitted at startup.
-- The backend may be an adapter over hnswlib or FAISS (integrations/hnswlib_adapter.py and
-- integrations/faiss_adapter.py), which keeps the vectors in a matrix of its own beside the index of
-- the library. Above the service stands the erasure workflow (integrations/workflow.py): a ticket on
-- disk whose steps are the delete, its proof and the calls of hooks. One hook fans the delete out to
-- replicas (integrations/replica_fanout.py), directly or over an outbox on disk
-- (integrations/outbox.py), another destroys the key of an entity (compliance/crypto_shred.py). The
-- HTTP service (api/main.py) asks its requests for a key (api/auth.py); its handlers register ids and
-- load their vectors, call the erasure service or the workflow, and turn exceptions into codes.
--
-- The files.
-- - Prelude: strings as code points, `Result` for Python's exceptions, dictionaries as association
--   lists, equality tests, sorting, lists over the native numbers.
-- - Wal (api/wal.py): Codec is the record format (`struct.pack`, the checksums), Scan is
--   `iter_records`, Log the object with `append_begin_delete` and `append_commit`, Pending is
--   `uncommitted_deletes`. Roundtrip, Torn, Fresh and Lifecycle hold the proofs. A file is its bytes;
--   a file that is not there is `none`.
-- - Registry (integrations/id_registry.py): Names is the normalisation, Ops the methods, Files
--   `save` and `load`. Views, Sound, Effects, Kept, Reuse and Saved hold the proofs.
-- - Strategy (integrations/delete_strategy.py) and Policy (integrations/compact_policy.py): one
--   function per function or method, under the source's names.
-- - Residual (compliance/residual.py): the proof of one vector.
-- - Erase (integrations/erase_service.py, integrations/backends.py): Types is the data and the
--   interface `Deps` of the objects that the service calls; Batch is the loop over the ids,
--   Compaction the rebuild, Proofs `_run_residual_proofs`, Status `_derive_status`, Service the
--   handler `delete`. Complete, Loop, Accounts, Accounted, Receipts and Choice hold the proofs.
-- - Persist (api/persistence.py): the durable engine over the native index `Native`, from
--   `hard_delete_and_heal` to `bootstrap`. Flush, Durable, Recovery and Total hold the proofs.
-- - Workflow (integrations/workflow.py): the ticket, its steps and the store; Runner is `advance` with
--   the methods it calls. Closed, Keeps, Sound and Files hold the proofs.
-- - Replica (integrations/replica_fanout.py): workers, transports and the coordinator; Quorum holds
--   the proof.
-- - Outbox (integrations/outbox.py): the folders, the dispatcher and the hook. Files, Round, Drain and
--   Hook hold the proofs.
-- - Shred (compliance/crypto_shred.py): the vault of keys; Final and Kept hold the proofs, Toy a
--   cipher for the runs.
-- - Kms (compliance/kms_backends.py): the vault whose keys a key service wraps; Local is the local
--   service with its file, Cloud the calls of the cloud services. Final and Reopen hold the proofs.
-- - Index (integrations/hnswlib_adapter.py, integrations/faiss_adapter.py): the matrix that both
--   adapters keep; Hnswlib and Faiss are the adapters. Rows, Live, Wipe, Clean and Shared hold the
--   proofs.
-- - Auth (api/auth.py): the environment tests, the guard of the start and the middleware; Gate and
--   Startup hold the proofs.
-- - Recall (compliance/recall_bounds.py): the search for unreachable nodes and the bound; Walk,
--   Search and Count hold the proofs.
-- - Tenancy (integrations/tenancy.py): tenant ids, contexts and the manager; Names and Apart hold the
--   proofs.
-- - Hooks (integrations/hooks.py): the hooks for the workflow's steps; Shredding holds the proofs on
--   the crypto-shred hook over both vaults, Config is integrations/hooks_config.py.
-- - ReceiptLog (integrations/receipt_log.py): the log of receipts as the text of its file; Kept holds
--   the proofs.
-- - Queue (integrations/queue_transports.py): the file queue; Moves holds the proofs.
-- - Api (api/main.py): a reply is an answer, an `HTTPException` or an exception that leaves the
--   handler. Api itself is `with_lock_retry`, Ingest `register_ids` and `ingest_vectors` with Matrix
--   for their rows, Search `search`, Deletes `enterprise_delete` and `replica_delete_intent`, Requests
--   the endpoints of the erasure tickets. Retry, Registered, Rows, Counting, Ordered, Placed, Loaded,
--   Refused, Search, Told and Requests hold the proofs. The delay of the retry is a natural number of
--   some unit.
-- The Tests modules run the definitions on concrete inputs.
--
-- How the code is read. A method that changes an object takes it and returns the new one, also
-- where it raises. SHA-256 is a function into 32 bytes; floats, the vector backend, the
-- native index, the service's receipt log, JSON, AES-GCM, the HMAC, HTTP, the cloud clients and the
-- clock are parameters; the service sees the engine through its interface. The scan of the log runs on
-- fuel, one more than the length of the file, and each record takes at least eight bytes. Fractions of the strategy and of
-- the recall bounds are exact quotients. The search for unreachable nodes runs on fuel for each
-- neighbour of an active node and two more, which is shown to be enough. Numbers of
-- the log's records are bounded by their columns as `struct.pack` bounds them.
--
-- Not modelled: locks (each method is one step), fsync, timings, log output, the text of JSON, a
-- write of a ticket that breaks off half-way, an ingest request with a negative label (the source
-- registers it, and numpy counts it from the end of the matrix), the looking up of a ticket under a
-- name that the file system refuses, and
-- the parts of the repository outside these files: of the HTTP service the plain delete of a node, the
-- set-up, the dispatch of the outbox and what only reads; the metrics, the adapters of vector databases
-- behind a network, the Redis and SQS queues, the constructors of the cloud key services, and the C++
-- index.
pub mod Prelude
pub mod Wal
pub mod Registry
pub mod Strategy
pub mod Policy
pub mod Residual
pub mod Erase
pub mod Outbox
pub mod Persist
pub mod Replica
pub mod Workflow
pub mod Shred
pub mod Index
pub mod Auth
pub mod Recall
pub mod Tenancy
pub mod Kms
pub mod Hooks
pub mod Api
pub mod Queue
pub mod ReceiptLog
