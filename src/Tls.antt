-- ===== src/Tls.antt =====
-- The TLS analysis layer of src/securemailscope/tls.
pub mod Wire
pub mod Loop
pub mod Extensions
pub mod Records
pub mod Handshake
