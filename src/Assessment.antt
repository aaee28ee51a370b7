-- ===== src/Assessment.antt =====
-- src/securemailscope/assessment: what is concluded from the rule results.
pub mod Scoring
