-- ===== src/Service.antt =====
-- packages/control_plane/src/autolean_control_plane/service.py: `ControlPlane` on the event store,
-- the lease store and the artifact store. Payload reads the JSON of stored events, Binding the
-- frozen task of a registered bundle, Verification the report and its failures, and Verdicts has
-- `verify_submission`. Boundary, Recorded and Acceptance hold the proofs.
pub mod Payload
pub mod Binding
pub mod Verification
pub mod Verdicts
pub mod Boundary
pub mod Terms
pub mod Stored
pub mod Recorded
pub mod Acceptance
