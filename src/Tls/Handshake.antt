-- ===== src/Tls/Handshake.antt =====
-- tls/handshake.py: messages reassembled from record bodies, and the message bodies.
pub mod Stream
pub mod Messages
pub mod Hello
pub mod Certificates
