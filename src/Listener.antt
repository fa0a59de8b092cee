-- ===== src/Listener.antt =====
-- internal/listener/listener.go. The children hold the allowlist (`Allow`), the classification of
-- dial errors (`Dial`), the handler of one connection (`Connection`), and the proofs.
pub mod HostPort
pub mod Allow
pub mod Permits
pub mod Dial
pub mod Connection
pub mod Outcome
