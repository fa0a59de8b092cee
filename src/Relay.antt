-- ===== src/Relay.antt =====
-- internal/relay without the bridge: the limit on connections (`Semaphore`), the dial with its
-- retries (`Dial`; `Rounds` is a single dial), the address of the relay (`Endpoint`), the SAS token (`Sas`), what is taken out of
-- error texts (`Redact`), the token cache (`Token`, with its proofs in `SingleFlight` and `Waiters`), the renewal of the
-- token (`Renew`), one control session (`Control`, with its proofs in `Opening`, `Permits`,
-- `ControlEnd` and `ControlProgress`) and the loop around the sessions (`Serve`).
pub mod Rounds
pub mod Sas
pub mod Redact
pub mod Endpoint
pub mod Semaphore
pub mod Dial
pub mod Token
pub mod SingleFlight
pub mod Waiters
pub mod Renew
pub mod Control
pub mod Opening
pub mod Permits
pub mod ControlEnd
pub mod ControlProgress
pub mod Serve
