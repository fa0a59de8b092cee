-- ===== src/Bridge.antt =====
-- internal/relay/bridge.go. The children hold the classification of a pump's exit (`Classify`), the
-- bridge as a machine driven by a schedule (`Machine`), and the proofs.
pub mod Classify
pub mod Labels
pub mod Machine
pub mod Invariant
pub mod First
pub mod Outcome
pub mod Bytes
pub mod Progress
