-- ===== src/Reputation.antt =====
-- The reputation package: how endpoints are ranked and picked.
pub mod Selector
