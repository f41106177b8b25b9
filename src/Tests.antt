-- ===== src/Tests.antt =====
-- Runs of the model at concrete inputs, and the theorems at inputs that meet their hypotheses.
mod Data
mod Parsing
mod Tracking
mod Mirroring
mod Simulating
mod Wiring
mod Serving
mod Interleaving
mod Delivering
mod Ordering
mod Running
