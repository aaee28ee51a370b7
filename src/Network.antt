-- ===== src/Network.antt =====
-- TCP reconstruction, src/securemailscope/network.
pub mod SequenceSpace
pub mod ByteBudget
pub mod Flows
pub mod Reassembly
pub mod Sessions
