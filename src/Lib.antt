-- ===== src/Lib.antt =====
-- AutoLean's control plane: the records that decide what a worker may do, and what was done.
--
-- The control plane keeps one SQLite database. The lease store hands out leases on jobs, each with
-- a fencing token. The event store appends immutable events to streams, under an idempotency key,
-- an attestation nonce and, for a worker, a current lease; it also keeps the projection that binds
-- a contract revision to a bundle. Both stores share the database, and a fenced append reads the
-- lease row in the transaction that writes the events. The dashboard rebuilds its view of each
-- bundle from the log alone. A bundle carries graphs of its mathematics, its formal declarations
-- and its execution, which are checked when they are built. Blobs are kept by the artifact store
-- under their digests, and a worker's calls of a model are paid from a signed capability whose
-- budget a ledger accounts for, in the same database and under the worker's lease.
--
-- Files, under packages/control_plane/src/autolean_control_plane/ where no other path is given:
--   Base: the exceptions of errors.py as a result type (Outcome), SQL tables as association lists
--     (Sql), Boolean tests, list and text helpers, and the integers of Python (Int).
--   Leases: leases.py, `LeaseStore`. A transaction is a function from the tables to a result;
--     an exception rolls back, so an error carries no tables. Inversion, Fencing, Calls and
--     Holding hold the proofs. `release` checks and deletes in two transactions:
--     `delete_lease` is the second.
--   Json: the JSON values, and `canonical_json` and its readers of events.py. The encoder and the
--     decoder of the standard library are the parameter `Codec`; `DecodesTexts` says that a list of
--     texts is decoded as it was encoded. Equality holds one codec that meets it, for the examples.
--   Events: events.py, `EventStore`. Read has the queries and idempotency lookups, Append `append`
--     with `_append_locked`, Fenced `append_fenced`, Registration
--     `append_contract_revision_registration`. Log holds the proofs: what each transaction does
--     (Writes, Effect, Outcomes, Registrations) and what holds over histories of transactions.
--     Startup has `_initialize_contract_revision_bindings`, which runs when a store opens.
--   Graphs: packages/contracts/src/autolean_contracts/graphs.py, the graphs of a bundle and the
--     checks that run when one is built, with `_validate_graph` in Validation. Counting, Visits,
--     Dictionaries, Acyclic and Ending hold the proofs on its cycle check.
--     The loop of the check runs on fuel, the number of nodes: each round visits a node of its own.
--   Feedback: projection.py, `_phase_feedback`, which replays the log into one state for each
--     registered bundle: State, Replay and Summary. Changes, Verdicts and Available hold the
--     proofs.
--   Artifacts: artifacts.py, `ArtifactStore`, on a table of paths that stands for the file system.
--     Chunks, Refusals and Blobs hold the proofs on single operations; Contract and Refinement
--     those on a store as a map from digests to contents.
--   Authorization: model_authorization.py, the ledger of `ModelExecutionAuthorizationService`, with
--     the capability of packages/contracts/src/autolean_contracts/authorization.py. Ledger replays
--     the rows and totals them, Circuit reads and writes the provider health, Operations has
--     `issue`'s transaction and `revoke`, Reservations has `preflight`, `reserve`, `settle` and
--     `abandon`. States, Within, Records and Keeps carry the invariant of the ledger, Inversion,
--     Endings and Issues say what an operation wrote, Growth and Extension that the tables only
--     grow; Bounds, Finality, Release and Revocation hold the theorems on histories, Health and
--     Reopening those on the circuit.
--   Service: service.py, `ControlPlane.verify_submission` on the stores above. Payload and
--     Binding read stored events, Verification has the report and its failures, Verdicts the
--     command. What the command leaves in the artifact store stands beside its result.
--     Boundary, Recorded, Terms, Stored and Acceptance hold the proofs.
--   Examples: runs on small inputs.
--
-- Times are instants in whole microseconds, as `recorded_at` and the leases print them; a lease's
-- duration is a whole number of them, and the rounding of floats is not modelled. A clock reading
-- is an argument (`Reading`, naive or aware), and `Env` holds the readings of one transaction and
-- the identifiers that uuid4 gives. Integers of the callers are unbounded, as in Python. All
-- functions but the cycle check recur on lists, so that no fuel is needed. SQLite's IMMEDIATE
-- transactions run one after the other, which is what a history of steps states.
--
-- Not modelled: the OverflowError of a lease's expiry past the year 9999, connections, PRAGMAs and
-- the triggers that forbid updates and deletions (no operation attempts one), the text of error
-- messages, and hashes of requests, which the callers compute. Of the dashboard projection, the
-- snapshot around the phase feedback, the counts of dependent nodes and the exported file.
-- Temporary files, and crashes within an operation on the artifact store. Of model authorization,
-- what `issue` checks before it signs, the registry of operator approvals and the limits of the
-- settings; texts and hashes of models and the verifier of signatures are the parameter
-- `Encoding`. Of the service, the commands other than `verify_submission`; its check of a
-- verifier's signed evidence is a field of the parameter `Gateway`. The signing gateway. The
-- Builder, the Prover, the web dashboard and the scripts, which are adapters around the contracts
-- and the control plane.
pub mod Artifacts
pub mod Authorization
pub mod Base
pub mod Events
pub mod Examples
pub mod Feedback
pub mod Graphs
pub mod Json
pub mod Leases
pub mod Service
