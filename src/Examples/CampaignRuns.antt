-- ===== src/Examples/CampaignRuns.antt =====
-- Runs of the campaign operations of cosheaf/campaigns.
use tcs_cosheaf.Gates.Dependency.{distinct}
use tcs_cosheaf.Core.Ids.{validate_artifact_id}
use tcs_cosheaf.Base.{
  String, ◌⊎◌, suc, ◌+◌, ◌<◌, Bool, true, false, [], ◌≡◌, ◌↔◌, refl, none, some, ok, err, length,
  join, starts_with,
}
use tcs_cosheaf.Core.PurePath.{path_parts, is_rooted, windows_as_posix}
use tcs_cosheaf.Core.Artifact.{Timestamp}
use tcs_cosheaf.Core.Validate.{targets_accepted}
use tcs_cosheaf.Campaigns.Texts.{
  normalize_timestamp, validate_safe_reference, looks_like_path, leaves_repository,
  normalize_repo_path,
}
use tcs_cosheaf.Campaigns.Records.{
  CampaignBudget, OperatorPolicy, private_research, Host, CampaignAttempt, result, failure,
  inconclusive, blocked, validate_finding, RiskFinding, info, authority_notice,
}
use tcs_cosheaf.Campaigns.Campaign.{
  dumped, running, ResearchCampaign, is_terminal, new_campaign, validate_campaign, start,
  add_attempt,
}
use tcs_cosheaf.Campaigns.Control.{
  run_campaign, run_blocked, scan_budget_state, effective_max_attempts, draft_budget_exhausted,
}
use tcs_cosheaf.Campaigns.Scorecard.{build_campaign_scorecard}
use tcs_cosheaf.Campaigns.Lifecycle.{attempt, Runs, begin, then_on, IsSound, Runs-IsSound}
use tcs_cosheaf.Campaigns.Terminal.{appended, add_attempt_iff, run_campaign-running}
use tcs_cosheaf.Campaigns.Final.{IsFinal, IsClosing, Step-IsFinal}
use tcs_cosheaf.Campaigns.Counted.{one_if, total, severe, build_campaign_scorecard-add_attempt}

abbrev morning : Timestamp
morning = record { instant = 5000000; aware = true }

abbrev night : Timestamp
night = record { instant = 9000000; aware = true }

abbrev two_attempts : CampaignBudget
two_attempts = record {
  max_attempts = 2;
  max_runtime_minutes = none;
  max_failure_repeats = some 1;
  max_draft_outputs = none;
  max_checker_errors = none;
  max_private_findings = none;
  notes = none;
}

abbrev private_policy : OperatorPolicy
private_policy = record { policy_mode = private_research; notes = none }

-- No path has a drive, and an attempt is written as its direction.
abbrev no_drive : String → Bool
no_drive path = false

abbrev plain_host : Host
plain_host = record { windows_absolute = no_drive; encode = λ a. a.attempted_direction }

abbrev fresh : ResearchCampaign
fresh =
    new_campaign "campaign.example.0001" "issue.example.0001" two_attempts private_policy morning

abbrev first_try : CampaignAttempt
first_try = record {
  attempt_id = "campaign.example.0001.attempt.1";
  campaign_id = "campaign.example.0001";
  attempt_number = 1;
  outcome = failure;
  policy_mode = private_research;
  attempted_direction = "induction";
  started_at = none;
  completed_at = night;
  result_summary = none;
  failure_summary = some "no base case";
  inconclusive_reason = none;
  blocked_reason = none;
  actions_taken = [];
  workflow_refs = [];
  check_report_refs = [];
  proof_obligation_refs = [];
  draft_proposal_refs = [];
  handoff_refs = [];
  benchmark_report_refs = [];
  risk_findings = [];
  notice = authority_notice;
}

start_run :
    start plain_host "campaign.example.0001" "issue.example.0001" two_attempts private_policy
      morning
    ≡ ok fresh
unfolding start validate_artifact_id distinct
start_run = refl

fresh_stored : validate_campaign plain_host dumped fresh ≡ ok fresh
unfolding validate_campaign validate_artifact_id distinct
fresh_stored = refl

attempt_run : add_attempt plain_host first_try fresh ≡ ok (appended first_try fresh)
unfolding add_attempt validate_artifact_id distinct
attempt_run = refl

abbrev Tried : Type 0
Tried = Runs plain_host (appended first_try fresh)

tried_run : Tried
tried_run =
    then_on
      (begin "campaign.example.0001" "issue.example.0001" two_attempts private_policy morning
        start_run)
      (attempt first_try attempt_run)

Runs-IsSound_example : IsSound (appended first_try fresh)
Runs-IsSound_example = Runs-IsSound tried_run

fresh_open : is_terminal fresh.status ≡ false
unfolding is_terminal
fresh_open = refl

night_whole : normalize_timestamp night ≡ ok night
unfolding normalize_timestamp
night_whole = refl

add_attempt_iff_example :
    (add_attempt plain_host first_try fresh ≡ ok (appended first_try fresh)) ↔ (
      (is_terminal fresh.status ≡ false)
      × (length fresh.attempts < two_attempts.max_attempts)
      × (first_try.campaign_id ≡ fresh.campaign_id)
      × (first_try.attempt_number ≡ suc (length fresh.attempts))
      × (appended first_try fresh ≡ appended first_try fresh))
add_attempt_iff_example =
    add_attempt_iff plain_host first_try fresh (appended first_try fresh) fresh_stored night_whole

controlled :
    run_campaign plain_host night "campaigns/campaign.example.0001.json" [] none fresh
    ≡ ok (record fresh { status = running; updated_at = night })
unfolding run_campaign validate_artifact_id distinct
controlled = refl

run_campaign-running_example :
    (run_blocked (scan_budget_state "campaigns/campaign.example.0001.json" fresh []) ≡ false)
    × (length fresh.attempts < effective_max_attempts two_attempts none)
    × (draft_budget_exhausted fresh ≡ false)
run_campaign-running_example =
    run_campaign-running plain_host night "campaigns/campaign.example.0001.json" [] none fresh
      (record fresh { status = running; updated_at = night }) controlled refl

-- The attempt closes no campaign.
Step-IsFinal_example :
    (¬ IsFinal fresh.status)
    × ((¬ IsFinal (appended first_try fresh).status)
        ⊎ IsClosing plain_host fresh (appended first_try fresh))
Step-IsFinal_example = Step-IsFinal (attempt first_try attempt_run)

build_campaign_scorecard-add_attempt_example :
    (let s = build_campaign_scorecard fresh in
      let t = build_campaign_scorecard (appended first_try fresh) in
      (t.attempt_count ≡ suc s.attempt_count)
      × (t.result_count ≡ s.result_count + one_if result first_try.outcome)
      × (t.failure_count ≡ s.failure_count + one_if failure first_try.outcome)
      × (t.inconclusive_count ≡ s.inconclusive_count + one_if inconclusive first_try.outcome)
      × (t.blocked_count ≡ s.blocked_count + one_if blocked first_try.outcome)
      × (t.draft_proposal_count ≡ s.draft_proposal_count + length first_try.draft_proposal_refs)
      × (t.check_report_count ≡ s.check_report_count + length first_try.check_report_refs)
      × (t.risk_finding_count ≡ s.risk_finding_count + length first_try.risk_findings)
      × (t.blocker_count ≡ s.blocker_count + total severe first_try.risk_findings))
build_campaign_scorecard-add_attempt_example =
    build_campaign_scorecard-add_attempt plain_host first_try fresh (appended first_try fresh)
      attempt_run

-- A finding whose path begins with a backslash is accepted with an absolute path, which is refused
-- when the finding is validated again.
abbrev backslash_finding : RiskFinding
backslash_finding = record {
  finding_id = "finding.example.1";
  severity = info;
  code = "note";
  message = "fine";
  path = some "\\etc\\passwd";
}

finding_run :
    validate_finding no_drive backslash_finding
    ≡ ok (record backslash_finding { path = some "/etc/passwd" })
unfolding validate_finding validate_safe_reference looks_like_path leaves_repository is_rooted
    normalize_repo_path windows_as_posix join starts_with path_parts targets_accepted
    validate_artifact_id
finding_run = refl

finding_again :
    validate_finding no_drive (record backslash_finding { path = some "/etc/passwd" })
    ≡ err "campaign references must be repository-local"
unfolding validate_finding validate_safe_reference looks_like_path leaves_repository is_rooted
    normalize_repo_path windows_as_posix join starts_with path_parts targets_accepted
    validate_artifact_id
finding_again = refl

reference_run : validate_safe_reference no_drive "docs//notes.md" ≡ ok "docs/notes.md"
unfolding validate_safe_reference looks_like_path leaves_repository is_rooted normalize_repo_path
    windows_as_posix join starts_with path_parts targets_accepted
reference_run = refl

-- A reference that starts with a backslash is returned as an absolute path.
rooted_reference_run : validate_safe_reference no_drive "\\etc\\passwd" ≡ ok "/etc/passwd"
unfolding validate_safe_reference looks_like_path leaves_repository is_rooted normalize_repo_path
    windows_as_posix join starts_with path_parts targets_accepted
rooted_reference_run = refl
