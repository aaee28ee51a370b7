-- ===== src/Protocols.antt =====
-- src/securemailscope/protocols: views over reconstructed bytes and record framing.
pub mod Buffer
pub mod Framing
pub mod Cursor
pub mod Dialogue
pub mod Redaction
pub mod Parser
pub mod Smtp
