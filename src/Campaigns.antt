-- ===== src/Campaigns.antt =====
-- cosheaf/campaigns: bounded campaigns, their attempts and the controller's stop policies.
pub mod Texts
pub mod Records
pub mod Campaign
pub mod Control
pub mod Scorecard
pub mod Stored
pub mod Kept
pub mod Lifecycle
pub mod Terminal
pub mod Final
pub mod Counted
