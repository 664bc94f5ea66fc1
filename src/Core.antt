-- ===== src/Core.antt =====
-- cosheaf/core
pub mod PurePath
pub mod Status
pub mod Paths
pub mod PathLaws
pub mod Regex
pub mod Ids
pub mod Artifact
pub mod Validate
pub mod PathText
pub mod WellFormed
