-- ===== src/Examples.antt =====
-- Runs at concrete inputs: the theorems' hypotheses can hold. No source file corresponds to these.
mod Bridges
mod Sessions
mod Handshakes
mod Targets
mod Connections
mod Ends
mod Labels
mod Meetings
mod Mocks
mod Copies
mod Queries
