-- ===== src/Gates/Gatekeeper.antt =====
-- cosheaf/gates/gatekeeper.py: gate results, the report and its verdict. The results of the
-- verifiers and of the reproducibility and formal-link gates, the checklist's headings and the
-- times are inputs. Of a gate's details only the verifier results are kept, which
-- cosheaf/gates/promotion_readiness.py reads.
use tcs_cosheaf.Base.{
  String, ℕ, Bool, Option, not, List, [], ◌∷◌, if◌then◌else◌, concat, decimal, length, is_empty,
  keep, map, any, str_eq, ◌==◌,
}
use tcs_cosheaf.Gates.Failure.{ValidationFailure}
use tcs_cosheaf.Gates.SourceMetadata.{SourceMetadataResult}

pub data GateStatus : Type 0 where
  pass fail skipped not_applicable : GateStatus

pub data GateVerdict : Type 0 where
  pass fail : GateVerdict

pub data Severity : Type 0 where
  blocking nonblocking : Severity

-- cosheaf/verification/result.py: the parts of a verifier result that the gates read. Of the exit
-- code and the time limit they read only whether there is one.
pub data VerificationStatus : Type 0 where
  pass fail error skipped : VerificationStatus

unfoldable pub verification_value : VerificationStatus → String
verification_value VerificationStatus.pass = "pass"
verification_value VerificationStatus.fail = "fail"
verification_value VerificationStatus.error = "error"
verification_value VerificationStatus.skipped = "skipped"

pub record VerificationResult : Type 0 where
  pub verifier : String
  pub artifact_id : String
  pub status : VerificationStatus
  pub command : Option (List String)
  pub cwd : Option String
  pub has_exit_code : Bool
  pub stdout_path : Option String
  pub stderr_path : Option String
  pub evidence_paths : List String
  pub has_timeout : Bool
  pub input_paths : List String
  pub output_paths : List String
  pub tool_name : Option String
  pub seed : Option String
  pub message : String

pub record GateIssue : Type 0 where
  pub gate_id : String
  pub gate_name : String
  pub source_path : String
  pub artifact_id : String
  pub message : String
  pub severity : Severity

pub record GateResult : Type 0 where
  pub gate_id : String
  pub name : String
  pub status : GateStatus
  pub summary : String
  pub blocking_issues : List GateIssue
  pub nonblocking_issues : List GateIssue
  pub details : List VerificationResult

pub record GatekeeperReport : Type 0 where
  pub verdict : GateVerdict
  pub blocking_issues : List GateIssue
  pub nonblocking_issues : List GateIssue
  pub records_checked : ℕ
  pub gates_total : ℕ
  pub gates_passed : ℕ
  pub gates_failed : ℕ
  pub gates_skipped : ℕ
  pub gates_not_applicable : ℕ
  pub gates : List GateResult

unfoldable pub issue_from_failure : Severity → String → String → ValidationFailure → GateIssue
issue_from_failure severity gate_id gate_name failure = record {
  gate_id = gate_id;
  gate_name = gate_name;
  source_path = failure.source_path;
  artifact_id = failure.artifact_id;
  message = failure.message;
  severity = severity;
}

abbrev pub gate :
    String → String → GateStatus → List String → List GateIssue → List GateIssue → GateResult
gate gate_id name status summary blocked open_issues = record {
  gate_id = gate_id;
  name = name;
  status = status;
  summary = concat summary;
  blocking_issues = blocked;
  nonblocking_issues = open_issues;
  details = [];
}

unfoldable pub gate_from_failures :
    String → String → List String → List ValidationFailure → GateResult
gate_from_failures gate_id name pass_summary failures =
    let issues = map (issue_from_failure Severity.blocking gate_id name) failures in
    if is_empty issues
    then gate gate_id name GateStatus.pass pass_summary [] []
    else gate gate_id name GateStatus.fail (decimal (length issues) ∷ " blocking issue(s)." ∷ [])
        issues []

-- A pull request's checklist: no path was given, the file is absent, or its headings.
pub data Checklist : Type 0 where
  not_provided : Checklist
  absent : (source_label : String) → Checklist
  given : (source_label : String) (headings : List String) → Checklist

abbrev pub required_sections : List String
required_sections =
    "summary" ∷ "changed files" ∷ "tests run" ∷ "risks" ∷ "interface changes"
    ∷ "documentation changes" ∷ "artifact/schema changes" ∷ "gatekeeper result" ∷ []

-- The required sections that are no heading.
unfoldable pub missing_sections : List String → List String
unfolding keep any
missing_sections headings =
    keep (λ section. not (any (λ h. str_eq h section) headings)) required_sections

abbrev checklist_issue : Severity → String → List String → GateIssue
checklist_issue severity source_label message = record {
  gate_id = "G8";
  gate_name = "PR checklist gate";
  source_path = source_label;
  artifact_id = "";
  message = concat message;
  severity = severity;
}

unfoldable pub pr_checklist_gate : Checklist → GateResult
unfolding missing_sections
pr_checklist_gate not_provided =
    gate "G8" "PR checklist gate" GateStatus.skipped
      ("Skipped: No PR checklist source was provided." ∷ []) []
      (checklist_issue Severity.nonblocking "" ("No PR checklist source was provided." ∷ []) ∷ [])
pr_checklist_gate (absent label) =
    gate "G8" "PR checklist gate" GateStatus.fail ("PR checklist source is unavailable." ∷ [])
      (checklist_issue Severity.blocking label ("PR checklist source does not exist: " ∷ label ∷ [])
        ∷ [])
      []
pr_checklist_gate (given label headings) =
    let missing = missing_sections headings in
    if is_empty missing
    then gate "G8" "PR checklist gate" GateStatus.pass
        ("PR checklist includes all "
          ∷ decimal (length required_sections)
          ∷ " required section(s)."
          ∷ [])
        [] []
    else gate "G8" "PR checklist gate" GateStatus.fail
        (decimal (length missing) ∷ " required PR checklist section(s) missing." ∷ [])
        (map
          (λ section.
            checklist_issue Severity.blocking label
              ("missing PR checklist section: " ∷ section ∷ []))
          missing)
        []

unfoldable pub source_metadata_gate : SourceMetadataResult → GateResult
source_metadata_gate result =
    let issues =
      map (issue_from_failure Severity.blocking "G9" "source metadata gate") result.failures in
    if not (is_empty result.failures)
    then gate "G9" "source metadata gate" GateStatus.fail
        (decimal (length issues) ∷ " source metadata issue(s)." ∷ []) issues []
    else if not (str_eq result.policy_reason "")
    then gate "G9" "source metadata gate" GateStatus.not_applicable (result.policy_reason ∷ []) []
        []
    else if length result.checks == 0
    then gate "G9" "source metadata gate" GateStatus.not_applicable
        ("No accepted public artifacts require source metadata." ∷ []) [] []
    else gate "G9" "source metadata gate" GateStatus.pass
        ("Source metadata passed for "
          ∷ decimal (length result.checks)
          ∷ " accepted public artifact(s)."
          ∷ [])
        [] []
