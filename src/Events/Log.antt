-- ===== src/Events/Log.antt =====
-- events.py: what holds of the log after any history of writes.
pub mod Writes
pub mod Rows
pub mod Effect
pub mod Sequences
pub mod Identifiers
pub mod Answers
pub mod Replay
pub mod Nonces
pub mod Versions
pub mod Outcomes
pub mod Registrations
pub mod History
pub mod Authority
pub mod Projection
pub mod Bindings
pub mod Agreement
pub mod Startup
