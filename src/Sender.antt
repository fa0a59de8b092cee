-- ===== src/Sender.antt =====
-- internal/sender: the exchange of the envelope (`Exchange`), the port-forward and connect modes
-- (`Modes`), the SOCKS5 mode (`Proxy`), the accept loops (`Accepting`), and the proofs.
pub mod Accepting
pub mod Exchange
pub mod Modes
pub mod Proxy
pub mod Outcome
pub mod Replies
pub mod EndToEnd
