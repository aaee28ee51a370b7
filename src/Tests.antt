-- ===== src/Tests.antt =====
-- The theorems at concrete inputs.
mod Stores
mod Numbers
mod Records
mod Cursors
mod Scores
mod Handshakes
mod Sessions
mod Mail
