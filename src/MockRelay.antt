-- ===== src/MockRelay.antt =====
-- mockrelay/server, the relay that aztunnel's tests run against: the hub (`Hub`, `Traffic`, with its proofs in
-- `Robin` and `Slots`), the rendezvous (`Rendezvous`, with its proofs in `Pairing`, `Ownership`, `Taking`, `Handover`,
-- `Endings` and `Unstuck`), the delays (`Delay`, `Timing`), the tokens (`Auth`, with its proofs in `Tokens` and
-- `Bearer`), the bridge
-- (`Pipeline` and `BridgeWs`, with their proofs in `Flow`, `Closings`, `Duplex` and `Unblocked`), the addresses
-- (`Routes`, `Addresses`) and the control session (`Listen`, `Sessions`).
pub mod Hub
pub mod Robin
pub mod Traffic
pub mod Slots
pub mod Rendezvous
pub mod Pairing
pub mod Ownership
pub mod Taking
pub mod Handover
pub mod Endings
pub mod Unstuck
pub mod Delay
pub mod Timing
pub mod Auth
pub mod Tokens
pub mod Bearer
pub mod Pipeline
pub mod Flow
pub mod BridgeWs
pub mod Closings
pub mod Duplex
pub mod Unblocked
pub mod Routes
pub mod Addresses
pub mod Listen
pub mod Sessions
