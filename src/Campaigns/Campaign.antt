-- ===== src/Campaigns/Campaign.antt =====
-- cosheaf/campaigns/models.py: `ResearchCampaign`. `_replace` dumps a campaign to plain data, puts the
-- new values in, and validates the whole again: the nested records that were dumped pass their
-- validators once more, while pydantic takes a record that is an instance already as it is. The times
-- that the source reads from the clock are arguments.
use tcs_cosheaf.Base.{
  String, ℕ, suc, Bool, true, false, not, ◌&&◌, List, [], ◌∷◌, ◌++◌, Option, none, some,
  if◌then◌else◌, any, blank, strip, str_eq, leb, ltb, ◌==◌, Result, ok, ◌>>=◌, ◌>>◌, require,
  is_empty, map_result, concat, decimal, length,
}
use tcs_cosheaf.Core.Artifact.{Timestamp}
use tcs_cosheaf.Campaigns.Texts.{
  safe_text, safe_optional_text, text_sequence, normalize_timestamp, normalize_optional,
}
use tcs_cosheaf.Campaigns.Records.{
  authority_notice, RiskFinding, CampaignBudget, OperatorPolicy, StopCondition, CampaignComparison,
  CampaignAttempt, Host, validate_id, validate_budget, validate_policy, validate_stop_condition,
  validate_finding, validate_comparison, validate_attempt,
}

pub data CampaignStatus : Type 0 where
  created running paused held budget_exhausted finalized abandoned failed : CampaignStatus

unfoldable pub status_value : CampaignStatus → String
status_value created = "created"
status_value running = "running"
status_value paused = "paused"
status_value held = "blocked"
status_value budget_exhausted = "budget_exhausted"
status_value finalized = "finalized"
status_value abandoned = "abandoned"
status_value failed = "failed"

-- `status.value in _TERMINAL_CAMPAIGN_STATUSES`
unfoldable pub is_terminal : CampaignStatus → Bool
unfolding any status_value
is_terminal status =
    any (λ s. str_eq (status_value status) s) ("finalized" ∷ "abandoned" ∷ "failed" ∷ [])

pub record ResearchCampaign : Type 0 where
  pub campaign_id : String
  pub issue_id : String
  pub status : CampaignStatus
  pub budget : CampaignBudget
  pub operator_policy : OperatorPolicy
  pub stop_conditions : List StopCondition
  pub attempts : List CampaignAttempt
  pub risk_findings : List RiskFinding
  pub comparisons : List CampaignComparison
  pub created_at : Timestamp
  pub updated_at : Timestamp
  pub finalized_at : Option Timestamp
  pub notes : Option String
  pub limitations : List String
  pub notice : String

abbrev pub not_before : Option Timestamp → Timestamp → Bool
not_before none t = true
not_before (some s) t = leb t.instant s.instant

abbrev pub is_dated : Option Timestamp → Bool
is_dated none = false
is_dated (some t) = true

-- `_campaign_consistency`
unfoldable pub campaign_consistency : ResearchCampaign → Result ResearchCampaign
unfolding any is_terminal
campaign_consistency c = do
  require (leb (length c.attempts) c.budget.max_attempts)
      "campaign attempts exceed budget.max_attempts"
  require (not_before c.finalized_at c.created_at) "finalized_at cannot be before created_at"
  if is_terminal c.status
      then require (is_dated c.finalized_at) "terminal campaigns require finalized_at"
      else require (not (is_dated c.finalized_at)) "non-terminal campaigns cannot have finalized_at"
  require (any (λ l. str_eq l authority_notice) c.limitations)
      "limitations must include campaign authority notice"
  require (str_eq c.notice authority_notice) "authority_notice must preserve campaign boundary"
  ok c

-- The campaign that `start` asks for.
abbrev pub new_campaign :
    String → String → CampaignBudget → OperatorPolicy → Timestamp → ResearchCampaign
new_campaign campaign_id issue_id budget operator_policy timestamp = record {
  campaign_id = campaign_id;
  issue_id = issue_id;
  status = created;
  budget = budget;
  operator_policy = operator_policy;
  stop_conditions = [];
  attempts = [];
  risk_findings = [];
  comparisons = [];
  created_at = timestamp;
  updated_at = timestamp;
  finalized_at = none;
  notes = none;
  limitations = authority_notice ∷ [];
  notice = authority_notice;
}

abbrev pub terminal_message : String
terminal_message = "terminal campaigns cannot be modified"

-- `_ensure_mutable`
unfoldable pub ensure_mutable : ResearchCampaign → Result (Unit {0})
unfolding is_terminal
ensure_mutable c = require (not (is_terminal c.status)) terminal_message

-- A comparison names attempts that there are, once there are any.
unfoldable pub names_unknown : List CampaignAttempt → List String → Bool
unfolding any
names_unknown attempts ids =
    not (is_empty attempts) && any (λ i. not (any (λ a. str_eq a.attempt_id i) attempts)) ids

abbrev pub status_after : ℕ → ℕ → CampaignStatus
status_after number max_attempts = if leb max_attempts number then budget_exhausted else running

abbrev note_text : Option String → String
note_text none = ""
note_text (some note) = note

-- The note of a campaign that is finalized for a reason.
unfoldable pub final_note : Option String → Option String → Result (Option String)
unfolding safe_text strip
final_note note none = ok note
final_note note (some reason) =
    let checked = safe_text reason in
    if blank reason then ok note else (do
      text ← checked
      ok (some (strip (concat (note_text note ∷ "\nFinalized: " ∷ text ∷ [])))))

-- The fields of the data that hold instances, which are not validated again.
pub record Given : Type 0 where
  pub settings : Bool
  pub stops : Bool
  pub attempts : Bool
  pub findings : Bool
  pub comparisons : Bool

-- Data that was dumped, or read from a file.
abbrev pub dumped : Given
dumped = record {
  settings = false;
  stops = false;
  attempts = false;
  findings = false;
  comparisons = false;
}

unfoldable pub unless_given : {A : Type 0} → Bool → (A → Result A) → A → Result A
unless_given true check x = ok x
unless_given false check x = check x

module _ (host : Host) where
  -- `ResearchCampaign.model_validate`
  unfoldable pub validate_campaign : Given → ResearchCampaign → Result ResearchCampaign
  unfolding validate_id normalize_timestamp normalize_optional safe_text safe_optional_text
      text_sequence campaign_consistency unless_given map_result validate_budget validate_policy
      validate_stop_condition validate_attempt validate_finding validate_comparison
  validate_campaign given c = do
    campaign_id ← validate_id c.campaign_id
    issue_id ← validate_id c.issue_id
    budget ← unless_given given.settings validate_budget c.budget
    operator_policy ← unless_given given.settings validate_policy c.operator_policy
    stop_conditions ←
        unless_given given.stops (map_result validate_stop_condition) c.stop_conditions
    attempts ←
        unless_given given.attempts
          (map_result (validate_attempt host.windows_absolute host.encode)) c.attempts
    risk_findings ←
        unless_given given.findings (map_result (validate_finding host.windows_absolute))
          c.risk_findings
    comparisons ← unless_given given.comparisons (map_result validate_comparison) c.comparisons
    created_at ← normalize_timestamp c.created_at
    updated_at ← normalize_timestamp c.updated_at
    finalized_at ← normalize_optional c.finalized_at
    notes ← safe_optional_text c.notes
    limitations ← text_sequence safe_text c.limitations
    campaign_consistency (record {
      campaign_id = campaign_id;
      issue_id = issue_id;
      status = c.status;
      budget = budget;
      operator_policy = operator_policy;
      stop_conditions = stop_conditions;
      attempts = attempts;
      risk_findings = risk_findings;
      comparisons = comparisons;
      created_at = created_at;
      updated_at = updated_at;
      finalized_at = finalized_at;
      notes = notes;
      limitations = limitations;
      notice = c.notice;
    })

  unfoldable pub start :
      String → String → CampaignBudget → OperatorPolicy → Timestamp → Result ResearchCampaign
  unfolding normalize_timestamp validate_campaign
  start campaign_id issue_id budget operator_policy now = do
    timestamp ← normalize_timestamp now
    validate_campaign (record dumped { settings = true })
        (new_campaign campaign_id issue_id budget operator_policy timestamp)

  unfoldable pub with_stop_condition :
      Timestamp → StopCondition → ResearchCampaign → Result ResearchCampaign
  unfolding ensure_mutable validate_campaign
  with_stop_condition now condition c = do
    ensure_mutable c
    validate_campaign (record dumped { stops = true })
        (record c { stop_conditions = c.stop_conditions ++ (condition ∷ []); updated_at = now })

  unfoldable pub with_risk_finding :
      Timestamp → RiskFinding → ResearchCampaign → Result ResearchCampaign
  unfolding ensure_mutable validate_campaign
  with_risk_finding now finding c = do
    ensure_mutable c
    validate_campaign (record dumped { findings = true })
        (record c { risk_findings = c.risk_findings ++ (finding ∷ []); updated_at = now })

  unfoldable pub with_comparison :
      Timestamp → CampaignComparison → ResearchCampaign → Result ResearchCampaign
  unfolding ensure_mutable names_unknown validate_campaign
  with_comparison now comparison c = do
    ensure_mutable c
    require (not (names_unknown c.attempts comparison.attempt_ids))
        "campaign comparison references unknown attempt_id"
    validate_campaign (record dumped { comparisons = true })
        (record c { comparisons = c.comparisons ++ (comparison ∷ []); updated_at = now })

  unfoldable pub add_attempt : CampaignAttempt → ResearchCampaign → Result ResearchCampaign
  unfolding ensure_mutable validate_campaign
  add_attempt attempt c = do
    ensure_mutable c
    require (ltb (length c.attempts) c.budget.max_attempts) (
        concat
          ("Cannot add attempt: max_attempts=" ∷ decimal c.budget.max_attempts ∷ " reached" ∷ []))
    require (str_eq attempt.campaign_id c.campaign_id) (
        concat
          ("Attempt campaign_id mismatch: " ∷ attempt.campaign_id ∷ " != " ∷ c.campaign_id ∷ []))
    let expected_number = suc (length c.attempts)
    require (attempt.attempt_number == expected_number)
        (concat ("attempt_number must be " ∷ decimal expected_number ∷ []))
    validate_campaign (record dumped { attempts = true })
        (record c {
          status = status_after expected_number c.budget.max_attempts;
          attempts = c.attempts ++ (attempt ∷ []);
          updated_at = attempt.completed_at;
        })

  unfoldable pub finalize :
      CampaignStatus → Timestamp → Option String → ResearchCampaign → Result ResearchCampaign
  unfolding ensure_mutable is_terminal final_note normalize_timestamp validate_campaign
  finalize status now reason c = do
    ensure_mutable c
    require (is_terminal status) "finalize requires finalized, abandoned, or failed status"
    note ← final_note c.notes reason
    timestamp ← normalize_timestamp now
    validate_campaign dumped (record c {
      status = status;
      updated_at = timestamp;
      finalized_at = some timestamp;
      notes = note;
    })
