-- ===== src/Lib.antt =====
-- Sentinel Edge: an incident engine for hazards that runs at the edge, with its durable journal and
-- the scheduler of its workloads.
--
-- An analysis of a hazard reaches `IncidentEventEngine`, directly or, while the engine is down,
-- through `CriticalAnalysisSpool`. The engine keeps the current incident of each hazard and commits
-- every change, together with its notification, to `IncidentJournalStore`, whose authority journal
-- numbers and links the writes of all tables. Operators change incidents by status commands and
-- reviews. A dispatcher sends the pending notifications. `WorkloadScheduler` admits and orders the
-- analysis jobs, and books each one in `OpportunityLedger`. Clients follow the incidents through the
-- signed snapshots of `ProjectionService`. `ConfigurationManager` puts bundles of workloads in force,
-- `KeyLifecycleRegistry` decides which signatures count, and `OfflineUpdateManager` puts signed bundles
-- of the program in force.
--
-- Prelude: Boolean tests, lists, results of code that raises, dictionaries as association lists,
--   sorted sets of texts, and the parameter that stands for floating-point numbers.
-- Domain: the enumerations and records of src/sentinel_edge/domain/models.py.
-- Incidents: src/sentinel_edge/incidents/engine.py. `Engine` is the object's state: its store, the
--   dictionary `_current` and the notification budget. Analysis is `apply_analysis`; Requests and
--   Commands are `apply_status_command` with the validators of its models; Review is `review`.
--   Lifecycle, Replay, Concurrency, Idempotence, Guarantees, Projection and Restart hold the
--   proofs.
-- Storage.Journal: `IncidentJournalStore` of src/sentinel_edge/storage/sqlite_store.py. Each table is
--   the list of its rows in the order of insertion. Reads and Writes are its queries and
--   transactions, Delivery is the outbox with the dispatcher and the sink of
--   src/sentinel_edge/incidents/human_factors.py, Chain is `authority_conformance`, History replays
--   sequences of writes.
-- Storage.Sources: `SourceCursorStore` of src/sentinel_edge/storage/sqlite_store.py, the cursors of the
--   sources and the log of their health; Events is the order in which the log is read.
-- Storage.Spool: src/sentinel_edge/storage/spool.py.
-- Runtime.Scheduler: src/sentinel_edge/runtime/scheduler.py. The heap is the sorted list of its items;
--   Admission is `register`, `submit`, `_admissible` and `complete`, Dispatch is `dispatch`;
--   Remaining compares the queue after a dispatch with the items that were not started, Tickets is the
--   order of a queue without ties. `elapsed_ms` is
--   tested as whole nanoseconds, where the source rounds a quotient.
-- Runtime.Opportunities, Runtime.Watchdog, Runtime.Timer, Runtime.DeadLetter: opportunities.py,
--   watchdog.py, timer_policy.py and dead_letter.py of src/sentinel_edge/runtime.
--
-- Incidents.Conformance: `projection_conformance` of the engine, which compares the in-memory
--   incidents with the durable ones, and the watermark of src/sentinel_edge/authority.py.
-- Incidents.Authorized: `apply_authorized_review`, a review bound to an authorization decision.
-- Security.Authentication, Security.Authorization: `AuthManager` and `CommandAuthorizer` of
--   src/sentinel_edge/security/auth.py; SHA-256 and HMAC are parameters, HMAC in `Macs`.
-- Security.Keys: `KeyLifecycleRegistry` of src/sentinel_edge/security/key_lifecycle.py. Registration
--   is `register` and `transition`, Verification is `signing_allowed` and `verify`; Acceptance,
--   Generations and Rotation hold the proofs. Base64, SHA-256 and Ed25519 are the parameter `Crypto`.
-- Projections: src/sentinel_edge/projections/service.py. Buffer is `ProjectionClientBuffer`; Service is
--   `ProjectionService`, whose digest and authentication tag are the parameter `Signing`. The signed
--   payload is built twice, from the state by `snapshot` and from the snapshot's fields by `verify`.
-- Configuration: `ConfigurationManager` of src/sentinel_edge/configuration/manager.py over the
--   `ConfigurationStore` of src/sentinel_edge/storage/sqlite_store.py. The artifact store, the
--   self-test and the digest of a difference are arguments. `Setting` is the value of
--   `available_memory_mb`: absent, one that `int` refuses, or a number.
-- Update: `OfflineUpdateManager` of src/sentinel_edge/update/manager.py. Verification checks a bundle,
--   Manager stages and activates it. `StagedPath` is the resolved path that activation is given: outside
--   of the staging root, the root, a staged bundle, or a directory inside of one. The state is the directories of the update root, each the
--   contents of its files. Cryptography, JSON, `int` and `lower` are the parameter `Tools`, whose
--   one law is that its test of two byte strings decides their equality. An
--   archive that cannot be opened and paths that clash as files and directories are left out.
--
-- State is passed explicitly: an operation takes the state and returns its result, a value or an
-- error, with the state after it. A transaction that raises leaves the store alone. Clock readings and
-- fresh identities are arguments. UUIDs and instants are natural numbers, instants in microseconds and
-- monotonic readings in nanoseconds. Digests, canonical JSON and name-based UUIDs are the parameters
-- in `Externals`, floating-point numbers are the parameter `Floats`; no law of these two is assumed.
-- Every loop runs over a finite list and is structural recursion, so that no fuel is needed.
--
-- Not modelled: SQLite and its locking, the gateway and the command line, the numeric analyses and
-- the feeds, cryptography, and the tables of evidence, claims, media and identity decisions.
pub mod Prelude
pub mod Domain
pub mod Incidents
pub mod Storage
pub mod Runtime
pub mod Security
pub mod Projections
pub mod Configuration
pub mod Update
