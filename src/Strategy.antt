-- ===== src/Strategy.antt =====
-- cosheaf/strategy: the strategy plan of an issue, its task graph and its ranked next steps.
pub mod Texts
pub mod Models
pub mod Sources
pub mod Planner
pub mod Ranking
pub mod Plan
pub mod Nodes
pub mod Consistent
pub mod Edges
pub mod Ranked
