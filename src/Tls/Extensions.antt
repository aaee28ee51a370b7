-- ===== src/Tls/Extensions.antt =====
-- tls/extensions.py: the values that the hello extensions carry, and the parser of the block.
pub mod Values
pub mod Dispatch
pub mod Block
pub mod Names
pub mod Rounds
