-- ===== src/Context.antt =====
-- cosheaf/services/context_policy.py: what a provider or an agent may be shown.
pub mod Preview
pub mod Exposure
