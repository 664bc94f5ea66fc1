-- ===== src/Campaigns/Scorecard.antt =====
-- cosheaf/campaigns/models.py: `build_campaign_scorecard`.
use tcs_cosheaf.Base.{
  String, ℕ, ◌+◌, Bool, true, false, ◌||◌, List, [], ◌∷◌, ◌++◌, keep, collect, leb, length, str_eq,
}
use tcs_cosheaf.Core.Artifact.{Timestamp}
use tcs_cosheaf.Campaigns.Records.{
  AttemptOutcome, result, failure, inconclusive, blocked, RiskSeverity, blocker, RiskFinding,
  CampaignAttempt,
}
use tcs_cosheaf.Campaigns.Campaign.{CampaignStatus, budget_exhausted, ResearchCampaign}
use tcs_cosheaf.Campaigns.Control.{same_status, draft_output_count}

pub record CampaignScorecard : Type 0 where
  pub campaign_id : String
  pub issue_id : String
  pub status : CampaignStatus
  pub generated_at : Timestamp
  pub attempt_count : ℕ
  pub result_count : ℕ
  pub failure_count : ℕ
  pub inconclusive_count : ℕ
  pub blocked_count : ℕ
  pub risk_finding_count : ℕ
  pub blocker_count : ℕ
  pub draft_proposal_count : ℕ
  pub check_report_count : ℕ
  pub comparison_count : ℕ
  pub budget_spent : Bool

unfoldable pub outcome_value : AttemptOutcome → String
outcome_value result = "result"
outcome_value failure = "failure"
outcome_value inconclusive = "inconclusive"
outcome_value blocked = "blocked"

-- `sum(1 for attempt in attempts if attempt.outcome is outcome)`
unfoldable pub outcome_count : AttemptOutcome → List CampaignAttempt → ℕ
unfolding keep outcome_value
outcome_count outcome attempts =
    length (keep (λ a. str_eq (outcome_value a.outcome) (outcome_value outcome)) attempts)

abbrev pub is_blocker : RiskSeverity → Bool
is_blocker blocker = true
is_blocker _ = false

unfoldable pub all_findings : ResearchCampaign → List RiskFinding
unfolding collect
all_findings c = collect (λ a. a.risk_findings) c.attempts ++ c.risk_findings

unfoldable pub check_report_count : List CampaignAttempt → ℕ
check_report_count [] = 0
check_report_count (a ∷ rest) = length a.check_report_refs + check_report_count rest

unfoldable pub build_campaign_scorecard : ResearchCampaign → CampaignScorecard
unfolding outcome_count all_findings keep draft_output_count check_report_count same_status
build_campaign_scorecard c = record {
  campaign_id = c.campaign_id;
  issue_id = c.issue_id;
  status = c.status;
  generated_at = c.updated_at;
  attempt_count = length c.attempts;
  result_count = outcome_count result c.attempts;
  failure_count = outcome_count failure c.attempts;
  inconclusive_count = outcome_count inconclusive c.attempts;
  blocked_count = outcome_count blocked c.attempts;
  risk_finding_count = length (all_findings c);
  blocker_count = length (keep (λ f. is_blocker f.severity) (all_findings c));
  draft_proposal_count = draft_output_count c.attempts;
  check_report_count = check_report_count c.attempts;
  comparison_count = length c.comparisons;
  budget_spent =
      same_status c.status budget_exhausted || leb c.budget.max_attempts (length c.attempts);
}
