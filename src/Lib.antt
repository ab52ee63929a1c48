-- ===== src/Lib.antt =====
-- OS-Scanner: the endpoint agent, its durable state and decisions, and the state of the cloud service.
--
-- The agent scans a machine, stores the results in a local SQLite database and delivers them to a
-- cloud service. Results that must reach the service go through a durable upload queue, whose
-- operators' actions are recorded in a hash-chained audit log.
--
--   Storage/Retry       app/storage/retry.py: RetryPolicy and delay_for_attempt
--   Storage/Identifier  app/storage/serialization.py: clean_identifier
--   Storage/Runtime     what the code takes from Python: json, hashlib, str.casefold, re. These are
--                       parameters; nothing is assumed of them.
--   Storage/Audit       app/storage/audit.py. Chain and Tamper hold its theorems.
--   Storage/Uploads     app/storage/upload_queue.py, queue.py and the tables of migrations.py.
--                       Causal: _causal_group and _backfill_causal_links. Enqueue, Claim, Settle,
--                       Resync, Requeue, Purge: one module for each group of operations. Table,
--                       LeaseRun, Invariant, Leasing, Exclusion, Staleness and Failing hold the
--                       theorems.
--
--   Storage/Snapshots   app/storage/snapshots.py: normalize_snapshot and snapshot_hash; Changes:
--                       compare_snapshots. Normal and Listing hold the theorems.
--   Storage/Scans       the tables of endpoints, jobs, history, findings and collector states, and
--                       base.py's placeholders; Jobs, Records and Findings: app/storage/jobs.py. Laws
--                       holds the theorem.
--   Storage/Results     app/storage/results.py, up to get_snapshot_change_for_scan. Store:
--                       store_snapshot. Envelope: snapshot_upload_payload. Kept holds the theorems.
--                       Pruning: prune_completed_scan_records, with the theorems in Pruning/Kept and
--                       Pruning/Linked.
--
--   Policies            app/policies/engine.py: PolicyEngine._matches and _resolve_values, and the
--                       conditions of app/policies/models.py. Conditions: the tests of one value.
--                       Engine: the engine and its budget. Budget, Meaning, Answers, Decided and
--                       Negation hold the theorems, Examples the examples.
--
--   Orchestrator        app/orchestrator/status.py: overall_status, with the states of
--                       app/models/enums.py. Order holds the theorem, Examples the examples.
--
--   Analyzers           app/analyzers/risk.py: the risk bands. Bands holds the theorem.
--
--   Transport/Worker    app/transport/worker.py: UploadWorker.run_once drains the queue. It calls the
--                       operations of Storage/Uploads; Runs, Accounts and Outcomes hold its theorems.
--   Cloud/Dict          Python's dict, as the repository uses it.
--   Cloud/Repository    cloud_service/repository.py: InMemoryRepository. Enrollment: grants, endpoints
--                       and credentials. Jobs: claim_next_job. Scans: the creation of scans,
--                       their statuses and final reports. Tasks: the analysis tasks. Ingestion:
--                       ingest_scan. Refusals: record_rejection and finalize_scan_report_failure.
--                       Reads: the reading operations.
--   Cloud/Filed         tables whose entries are filed under their own ids.
--   Cloud/Service       histories of all the calls that change the repository: Writes and Claims say how
--                       a call changes the scans, Untouched, Others, Ingested and Cases which
--                       tables a call leaves alone; History, States, Grants, Settled and
--                       Finalization hold the theorems, Finishing and Handovers examples.
--   Cloud/Bounded       cloud_service/models.py: bounded_json. Limits holds its theorem.
--   Cloud/Inventory     cloud_service/repository.py: reconstruct_inventory; Checks: the reading of its
--                       envelope. Digest, Base, Delta, Sections, Names, Restore and Accepted hold the
--                       theorems. Exchange and Evidence hold the examples.
--
-- The policy engine decides conditions on a report; the data are JSON documents, without datetimes,
-- and Decimal and the clock are parameters.
--
-- The worker claims an upload from the queue, sends it, and settles it by what the service answers. At
-- the service, an endpoint enrols with a grant, is handed the scans that are authorized for it, and
-- workers analyse the evidence as tasks under leases. The evidence carries the endpoint's inventory:
-- the agent stores each snapshot under its hash, compares it with the one before and sends the changed
-- sections; the service applies them to the snapshot that it holds and checks the hash. The theorem on
-- this exchange starts from the recorded difference and the snapshot as documents. That the serializer
-- sorts keys, so that two objects with the same sections have the same text, is its hypothesis; that
-- the texts in the agent's database parse back to these documents is outside it.
--
-- A table is the list of its rows in the order of their ids, next to the value that AUTOINCREMENT
-- gives next. A transaction is a function from the tables to a result: an exception is an `err`, after
-- which the tables are as before, as the rollback leaves them. Checks that the schema makes (UNIQUE
-- columns and indices) are written out where an insertion can fail on them. Times are whole
-- microseconds and random draws, clocks and uuid4 are arguments. The floats of the retry policy are
-- exact numbers, but for the power of its multiplier, which raises OverflowError as the float does. Loops are recursion on lists, so no
-- fuel is needed; the stack of bounded_json recurses on the number of values still allowed, which the
-- code checks first; the worker's loop recurses on the number of uploads that it may still claim. The
-- in-memory repository has no rollback, so its operations return the tables next to what they return or
-- raise.
--
-- Not modelled: SQLite's file handling and locking (transactions are serial), the migrations of older
-- databases, the collectors and tool adapters, which drive the operating system and other programs,
-- the HTTP client, the risk score and the posture analysis, the rest of the policy engine (evaluate
-- with applicability and findings, loading, synchronization), the rest of results.py (whole results
-- and policy documents), the repository's PostgreSQL twin, the reports and the user
-- interface.
mod Prelude
pub mod Json
pub mod Storage
pub mod Policies
pub mod Orchestrator
pub mod Analyzers
pub mod Transport
pub mod Cloud
