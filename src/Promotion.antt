-- ===== src/Promotion.antt =====
-- cosheaf/gates/promotion_readiness.py: whether an artifact may be promoted.
pub mod Reasons
pub mod Evidence
pub mod Report
pub mod Readiness
pub mod Dedupe
pub mod Quiet
pub mod QuietGates
pub mod Ready
pub mod Targets
pub mod OneTarget
