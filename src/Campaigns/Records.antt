-- ===== src/Campaigns/Records.antt =====
-- cosheaf/campaigns/models.py: budgets, stop conditions, findings, comparisons and attempts, with
-- their validators. The fields that only ever hold `False` are left out. `json.dumps` of an attempt
-- is a parameter of the public-only check.
use Prim.Native.Char.{code}
use tcs_cosheaf.Base.{
  String, ℕ, Bool, true, false, not, ◌&&◌, ◌||◌, List, [], ◌∷◌, Option, none, some, any, blank,
  codes, has_part, lower, strip, str_eq, leb, Result, ok, ◌>>=◌, ◌>>◌, require, map_result,
  is_empty,
}
use tcs_cosheaf.Core.Ids.{validate_artifact_id}
use tcs_cosheaf.Core.Artifact.{Timestamp}
use tcs_cosheaf.Campaigns.Texts.{
  safe_text, safe_optional_text, text_sequence, validate_safe_reference, normalize_timestamp,
  normalize_optional,
}

abbrev pub authority_notice : String
authority_notice =
    "Campaign records are review context only; they are not proof, verifier pass, gate pass, human review, source metadata, accepted status, accepted refutation, or promotion authority. Campaign success never means accepted promotion."

pub data AttemptOutcome : Type 0 where
  result failure inconclusive blocked : AttemptOutcome

pub data RiskSeverity : Type 0 where
  info warning blocker : RiskSeverity

pub data PolicyMode : Type 0 where
  public_only private_research : PolicyMode

pub record CampaignBudget : Type 0 where
  pub max_attempts : ℕ
  pub max_runtime_minutes : Option ℕ
  pub max_failure_repeats : Option ℕ
  pub max_draft_outputs : Option ℕ
  pub max_checker_errors : Option ℕ
  pub max_private_findings : Option ℕ
  pub notes : Option String

-- `Field(default=None, ge=1)`
abbrev pub is_positive : Option ℕ → Bool
is_positive none = true
is_positive (some n) = leb 1 n

unfoldable pub validate_budget : CampaignBudget → Result CampaignBudget
unfolding safe_optional_text
validate_budget b = do
  require (leb 1 b.max_attempts && leb b.max_attempts 1000) "max_attempts"
  require (is_positive b.max_runtime_minutes) "max_runtime_minutes"
  require (is_positive b.max_failure_repeats) "max_failure_repeats"
  require (is_positive b.max_draft_outputs) "max_draft_outputs"
  require (is_positive b.max_checker_errors) "max_checker_errors"
  require (is_positive b.max_private_findings) "max_private_findings"
  notes ← safe_optional_text b.notes
  ok (record b { notes = notes })

pub record StopCondition : Type 0 where
  pub condition_id : String
  pub kind : String
  pub description : String
  pub triggered : Bool
  pub triggered_at : Option Timestamp

abbrev is_set : {A : Type 0} → Option A → Bool
is_set none = false
is_set (some a) = true

-- `validate_artifact_id(value.strip())`
unfoldable pub validate_id : String → Result String
unfolding strip
validate_id value = validate_artifact_id (strip value)

unfoldable pub validate_stop_condition : StopCondition → Result StopCondition
unfolding safe_text validate_id normalize_optional
validate_stop_condition c = do
  condition_id ← validate_id c.condition_id
  kind ← safe_text c.kind
  description ← safe_text c.description
  triggered_at ← normalize_optional c.triggered_at
  require (not c.triggered || is_set triggered_at) "triggered stop conditions require triggered_at"
  ok (record {
    condition_id = condition_id;
    kind = kind;
    description = description;
    triggered = c.triggered;
    triggered_at = triggered_at;
  })

pub record OperatorPolicy : Type 0 where
  pub policy_mode : PolicyMode
  pub notes : Option String

-- `CampaignOperatorPolicy`
unfoldable pub validate_policy : OperatorPolicy → Result OperatorPolicy
unfolding safe_optional_text
validate_policy p = do notes ← safe_optional_text p.notes; ok (record p { notes = notes })

pub record RiskFinding : Type 0 where
  pub finding_id : String
  pub severity : RiskSeverity
  pub code : String
  pub message : String
  pub path : Option String

pub record CampaignComparison : Type 0 where
  pub comparison_id : String
  pub attempt_ids : List String
  pub summary : Option String
  pub preferred_attempt_id : Option String
  pub rationale : Option String

unfoldable pub validate_optional_id : Option String → Result (Option String)
validate_optional_id none = ok none
validate_optional_id (some value) = do i ← validate_id value; ok (some i)

-- `preferred_attempt_id` is one of the attempts, where it is given.
abbrev prefers : Option String → List String → Bool
unfolding any
prefers none ids = true
prefers (some i) ids = any (λ x. str_eq x i) ids

unfoldable pub validate_comparison : CampaignComparison → Result CampaignComparison
unfolding validate_id text_sequence safe_optional_text any prefers validate_optional_id
validate_comparison c = do
  comparison_id ← validate_id c.comparison_id
  attempt_ids ← text_sequence validate_artifact_id c.attempt_ids
  require (not (is_empty attempt_ids)) "campaign comparisons require attempt_ids"
  require (is_set c.summary) "summary"
  summary ← safe_optional_text c.summary
  preferred ← validate_optional_id c.preferred_attempt_id
  rationale ← safe_optional_text c.rationale
  require (prefers preferred attempt_ids) "preferred_attempt_id must be one of attempt_ids"
  ok (record {
    comparison_id = comparison_id;
    attempt_ids = attempt_ids;
    summary = summary;
    preferred_attempt_id = preferred;
    rationale = rationale;
  })

pub record CampaignAttempt : Type 0 where
  pub attempt_id : String
  pub campaign_id : String
  pub attempt_number : ℕ
  pub outcome : AttemptOutcome
  pub policy_mode : PolicyMode
  pub attempted_direction : String
  pub started_at : Option Timestamp
  pub completed_at : Timestamp
  pub result_summary : Option String
  pub failure_summary : Option String
  pub inconclusive_reason : Option String
  pub blocked_reason : Option String
  pub actions_taken : List String
  pub workflow_refs : List String
  pub check_report_refs : List String
  pub proof_obligation_refs : List String
  pub draft_proposal_refs : List String
  pub handoff_refs : List String
  pub benchmark_report_refs : List String
  pub risk_findings : List RiskFinding
  pub notice : String

-- What is not the repository's: pathlib's test for absolute Windows paths, and `json.dumps`.
pub record Host : Type 0 where
  pub windows_absolute : String → Bool
  pub encode : CampaignAttempt → String

-- A text that counts as true.
abbrev pub is_told : Option String → Bool
is_told none = false
is_told (some text) = not (blank text)

-- The summary or reason that the outcome asks for.
unfoldable pub explains : AttemptOutcome → CampaignAttempt → Bool
explains result a = is_told a.result_summary
explains failure a = is_told a.failure_summary
explains inconclusive a = is_told a.inconclusive_reason
explains blocked a = is_told a.blocked_reason

abbrev pub unexplained : AttemptOutcome → String
unexplained result = "result attempts require result_summary"
unexplained failure = "failure attempts require failure_summary"
unexplained inconclusive = "inconclusive attempts require inconclusive_reason"
unexplained blocked = "blocked attempts require blocked_reason"

abbrev pub is_public : PolicyMode → Bool
is_public public_only = true
is_public private_research = false

abbrev pub started_before : Option Timestamp → Timestamp → Bool
started_before none t = true
started_before (some s) t = leb s.instant t.instant

-- The markers, as they stand in JSON text.
abbrev private_markers : List String
private_markers =
    "kb/private" ∷ "kb\\\\private" ∷ "/private/" ∷ "\\\\private\\\\" ∷ "private." ∷ "private:" ∷ []

module _ (encode : CampaignAttempt → String) where
  -- `_ensure_no_private_markers`
  unfoldable pub has_private_marker : CampaignAttempt → Bool
  unfolding any has_part lower
  has_private_marker a = any (λ m. has_part (codes m) (lower (encode a))) private_markers

  -- `_attempt_consistency`
  unfoldable pub attempt_consistency : CampaignAttempt → Result CampaignAttempt
  unfolding explains
  attempt_consistency a = do
    require (started_before a.started_at a.completed_at) "completed_at cannot be before started_at"
    require (explains a.outcome a) (unexplained a.outcome)
    require (str_eq a.notice authority_notice) "authority_notice must preserve campaign boundary"
    require (not (is_public a.policy_mode && has_private_marker a))
        "public_only campaign attempts cannot include private refs"
    ok a

module _ (windows_absolute : String → Bool) where
  unfoldable pub optional_reference : Option String → Result (Option String)
  unfolding validate_safe_reference
  optional_reference none = ok none
  optional_reference (some value) = do
    r ← validate_safe_reference windows_absolute value
    ok (some r)

  unfoldable pub validate_finding : RiskFinding → Result RiskFinding
  unfolding validate_id safe_text optional_reference
  validate_finding f = do
    finding_id ← validate_id f.finding_id
    code ← safe_text f.code
    message ← safe_text f.message
    path ← optional_reference f.path
    ok (record {
      finding_id = finding_id;
      severity = f.severity;
      code = code;
      message = message;
      path = path;
    })

  -- `CampaignAttempt(...)`
  unfoldable pub validate_attempt :
      (encode : CampaignAttempt → String) → CampaignAttempt → Result CampaignAttempt
  unfolding validate_id safe_text safe_optional_text text_sequence validate_safe_reference
      normalize_timestamp normalize_optional validate_finding map_result attempt_consistency
  validate_attempt encode a = do
    attempt_id ← validate_id a.attempt_id
    campaign_id ← validate_id a.campaign_id
    require (leb 1 a.attempt_number) "attempt_number"
    direction ← safe_text a.attempted_direction
    started_at ← normalize_optional a.started_at
    completed_at ← normalize_timestamp a.completed_at
    result_summary ← safe_optional_text a.result_summary
    failure_summary ← safe_optional_text a.failure_summary
    inconclusive_reason ← safe_optional_text a.inconclusive_reason
    blocked_reason ← safe_optional_text a.blocked_reason
    actions_taken ← text_sequence safe_text a.actions_taken
    workflow_refs ← text_sequence (validate_safe_reference windows_absolute) a.workflow_refs
    check_report_refs ← text_sequence (validate_safe_reference windows_absolute) a.check_report_refs
    proof_obligation_refs ←
        text_sequence (validate_safe_reference windows_absolute) a.proof_obligation_refs
    draft_proposal_refs ←
        text_sequence (validate_safe_reference windows_absolute) a.draft_proposal_refs
    handoff_refs ← text_sequence (validate_safe_reference windows_absolute) a.handoff_refs
    benchmark_report_refs ←
        text_sequence (validate_safe_reference windows_absolute) a.benchmark_report_refs
    risk_findings ← map_result validate_finding a.risk_findings
    attempt_consistency encode (record {
      attempt_id = attempt_id;
      campaign_id = campaign_id;
      attempt_number = a.attempt_number;
      outcome = a.outcome;
      policy_mode = a.policy_mode;
      attempted_direction = direction;
      started_at = started_at;
      completed_at = completed_at;
      result_summary = result_summary;
      failure_summary = failure_summary;
      inconclusive_reason = inconclusive_reason;
      blocked_reason = blocked_reason;
      actions_taken = actions_taken;
      workflow_refs = workflow_refs;
      check_report_refs = check_report_refs;
      proof_obligation_refs = proof_obligation_refs;
      draft_proposal_refs = draft_proposal_refs;
      handoff_refs = handoff_refs;
      benchmark_report_refs = benchmark_report_refs;
      risk_findings = risk_findings;
      notice = a.notice;
    })
