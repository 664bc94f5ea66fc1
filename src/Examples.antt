-- ===== src/Examples.antt =====
-- The development run on concrete records.
mod Samples
mod CoreRuns
mod GateRuns
mod CampaignRuns
mod ContextRuns
mod GraphRuns
mod IssueRuns
mod MetadataRuns
mod StrategyRuns
mod PromotionRuns
mod WorkflowRuns
