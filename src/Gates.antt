-- ===== src/Gates.antt =====
-- cosheaf/gates: the validation gates.
pub mod Failure
pub mod Dependency
pub mod DependencyLaws
pub mod Distinct
pub mod FormalLink
pub mod FormalRules
pub mod Reproducible
pub mod ReproducibleRules
pub mod Whole
pub mod DependencyRules
pub mod StatusPath
pub mod SourceMetadata
pub mod RecordRules
pub mod Gatekeeper
pub mod Report
pub mod Judges
pub mod Verdict
