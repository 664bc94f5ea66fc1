-- ===== src/Issues.antt =====
-- cosheaf/issues: the repository's own issues.
pub mod Service
pub mod Files
