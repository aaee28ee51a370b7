-- ===== src/Network/Reassembly.antt =====
-- network/reassembly.py: payload reconstruction of one direction of a connection.
pub mod Intervals
pub mod Walk
pub mod Limits
pub mod Directional
