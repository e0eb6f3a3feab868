-- ===== src/Examples.antt =====
-- Runs of the modelled operations on small inputs, and the theorems at these inputs.
mod Leases
mod Encodings
mod Authorization
mod Circuits
mod Artifacts
mod Events
mod Workers
mod Service
mod Bindings
mod Feedback
mod Graphs
