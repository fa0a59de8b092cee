-- ===== src/Arc.antt =====
-- internal/arc/arc.go: the requests to the HybridConnectivity API (`Client`, `Credentials`), the set-up of the commands (`Setup`), the dial with its retries and its
-- progress log (`Dial`, with its proofs in `Waits`), and what is taken out of error texts (`Redact`).
pub mod Client
pub mod Setup
pub mod Credentials
pub mod Dial
pub mod Waits
pub mod Redact
