-- ===== src/Gates/Report.antt =====
-- cosheaf/gates/gatekeeper.py: the verifier, reproducibility and formal-link gates, and the report.
use tcs_cosheaf.Base.{
  String, ℕ, suc, Bool, true, false, not, List, [], ◌∷◌, ◌++◌, if◌then◌else◌, concat, decimal,
  length, is_empty, keep, map, collect, ◌==◌,
}
use tcs_cosheaf.Storage.{LoadedRecord}
use tcs_cosheaf.Gates.Failure.{ValidationFailure, sort_failures}
use tcs_cosheaf.Gates.Dependency.{validate_id_uniqueness, validate_dependencies}
use tcs_cosheaf.Gates.StatusPath.{FileSystem, validate_status_paths, validate_evidence_paths}
use tcs_cosheaf.Gates.SourceMetadata.{WorkspacePolicy, validate_source_metadata_policy}
use tcs_cosheaf.Gates.Gatekeeper.{
  GateStatus, GateVerdict, Severity, VerificationStatus, verification_value, VerificationResult,
  GateIssue, GateResult, GatekeeperReport, issue_from_failure, gate, gate_from_failures, Checklist,
  pr_checklist_gate, source_metadata_gate,
}

-- A repository validation: `validate_repository` after the schema gate has loaded the records.
module _ (files : FileSystem) where
  unfoldable pub validate_repository :
      List ValidationFailure → List LoadedRecord → List ValidationFailure
  validate_repository schema_failures records = sort_failures (
      schema_failures
      ++ (validate_id_uniqueness records
          ++ (validate_status_paths records
              ++ (validate_dependencies records ++ validate_evidence_paths files records))))

-- `result.status in {FAIL, ERROR}`
unfoldable pub is_blocking_status : VerificationStatus → Bool
is_blocking_status VerificationStatus.fail = true
is_blocking_status VerificationStatus.error = true
is_blocking_status _ = false

unfoldable pub is_skipped_status : VerificationStatus → Bool
is_skipped_status VerificationStatus.skipped = true
is_skipped_status _ = false

unfoldable pub issue_from_verification_result : VerificationResult → GateIssue
issue_from_verification_result result = record {
  gate_id = "G6";
  gate_name = "verifier gate";
  source_path = "";
  artifact_id = result.artifact_id;
  message =
      concat
        (result.verifier ∷ " " ∷ verification_value result.status ∷ ": " ∷ result.message ∷ []);
  severity = if is_skipped_status result.status then Severity.nonblocking else Severity.blocking;
}

-- The gate of some verifier results.
unfoldable pub judged_verifier_gate : List VerificationResult → GateResult
judged_verifier_gate results =
    let stopping =
      map issue_from_verification_result (keep (λ r. is_blocking_status r.status) results) in
    let passed_over =
      map issue_from_verification_result (keep (λ r. is_skipped_status r.status) results) in
    let judged =
      if not (is_empty stopping)
      then gate "G6" "verifier gate" GateStatus.fail
          (decimal (length stopping) ∷ " blocking verifier issue(s)." ∷ []) stopping passed_over
      else if not (is_empty passed_over)
      then gate "G6" "verifier gate" GateStatus.skipped
          (decimal (length passed_over) ∷ " verifier result(s) skipped." ∷ []) [] passed_over
      else gate "G6" "verifier gate" GateStatus.pass
          ("Verifier gate passed for " ∷ decimal (length results) ∷ " result(s)." ∷ []) [] [] in
    record judged { details = results }

abbrev no_adapter : GateIssue
no_adapter = record {
  gate_id = "G6";
  gate_name = "verifier gate";
  source_path = "";
  artifact_id = "";
  message = "No verifier adapters were applicable.";
  severity = Severity.nonblocking;
}

unfoldable pub verifier_gate : List VerificationResult → GateResult
unfolding judged_verifier_gate
verifier_gate [] =
    gate "G6" "verifier gate" GateStatus.skipped
      ("Skipped: no verifier adapters were applicable." ∷ []) [] (no_adapter ∷ [])
verifier_gate (r ∷ rs) = judged_verifier_gate (r ∷ rs)

-- What a metadata gate found: failures, warnings and the number of applicable checks.
pub record Findings : Type 0 where
  pub failures : List ValidationFailure
  pub warnings : List ValidationFailure
  pub applicable_count : ℕ

unfoldable pub reproducibility_metadata_gate : Findings → GateResult
reproducibility_metadata_gate result =
    let issues =
      map (issue_from_failure Severity.blocking "G7" "reproducibility metadata gate")
        result.failures in
    if not (is_empty result.failures)
    then gate "G7" "reproducibility metadata gate" GateStatus.fail
        (decimal (length issues) ∷ " blocking reproducibility metadata issue(s)." ∷ []) issues []
    else if result.applicable_count == 0
    then gate "G7" "reproducibility metadata gate" GateStatus.not_applicable
        ("No executable evidence requires reproducibility metadata." ∷ []) [] []
    else gate "G7" "reproducibility metadata gate" GateStatus.pass
        ("Reproducibility metadata passed for "
          ∷ decimal result.applicable_count
          ∷ " executable evidence item(s)."
          ∷ [])
        [] []

abbrev warning_suffix : List GateIssue → List String
warning_suffix [] = []
warning_suffix (w ∷ ws) = " with " ∷ decimal (length (w ∷ ws)) ∷ " warning(s)" ∷ []

unfoldable pub formal_link_gate : Findings → GateResult
formal_link_gate result =
    let stopping =
      map (issue_from_failure Severity.blocking "G10" "formal link gate") result.failures in
    let warned =
      map (issue_from_failure Severity.nonblocking "G10" "formal link gate") result.warnings in
    if not (is_empty stopping)
    then gate "G10" "formal link gate" GateStatus.fail
        (decimal (length stopping) ∷ " formal-link policy issue(s)." ∷ []) stopping warned
    else if result.applicable_count == 0
    then gate "G10" "formal link gate" GateStatus.not_applicable
        ("No formal-link policy metadata requires G10 checks." ∷ []) [] []
    else gate "G10" "formal link gate" GateStatus.pass
        ("Formal-link metadata passed for "
          ∷ decimal result.applicable_count
          ∷ " artifact(s)"
          ∷ (warning_suffix warned ++ "." ∷ []))
        [] warned

-- What the run of the gates starts from.
pub record GateInputs : Type 0 where
  pub schema_failures : List ValidationFailure
  pub records : List LoadedRecord
  pub files : FileSystem
  pub verification_results : List VerificationResult
  pub reproducibility : Findings
  pub checklist : Checklist
  pub policy : WorkspacePolicy
  pub formal_links : Findings

unfoldable pub run_gates : GateInputs → List GateResult
run_gates i =
    gate_from_failures "G1" "schema gate"
      ("Schema/model parsing passed for " ∷ decimal (length i.records) ∷ " loaded record(s)." ∷ [])
      i.schema_failures
    ∷ gate_from_failures "G2" "ID uniqueness gate"
        ("All loaded record IDs are globally unique." ∷ []) (validate_id_uniqueness i.records)
    ∷ gate_from_failures "G3" "status/path gate"
        ("All loaded artifact statuses match their paths." ∷ []) (validate_status_paths i.records)
    ∷ gate_from_failures "G4" "dependency gate" ("All loaded artifact dependencies are valid." ∷ [])
        (validate_dependencies i.records)
    ∷ gate_from_failures "G5" "evidence path gate" ("All local evidence paths exist." ∷ [])
        (validate_evidence_paths i.files i.records)
    ∷ verifier_gate i.verification_results
    ∷ reproducibility_metadata_gate i.reproducibility
    ∷ pr_checklist_gate i.checklist
    ∷ source_metadata_gate (validate_source_metadata_policy i.policy i.records)
    ∷ formal_link_gate i.formal_links
    ∷ []

unfoldable pub same_gate_status : GateStatus → GateStatus → Bool
same_gate_status GateStatus.pass GateStatus.pass = true
same_gate_status GateStatus.fail GateStatus.fail = true
same_gate_status GateStatus.skipped GateStatus.skipped = true
same_gate_status GateStatus.not_applicable GateStatus.not_applicable = true
same_gate_status _ _ = false

-- `sum(1 for gate in gates if gate.status == status)`
unfoldable pub count_status : GateStatus → List GateResult → ℕ
unfolding same_gate_status
count_status status [] = 0
count_status status (g ∷ gs) =
    let rest = count_status status gs in if same_gate_status g.status status then suc rest else rest

unfoldable pub build_report : ℕ → List GateResult → GatekeeperReport
unfolding collect count_status
build_report records_checked gates =
    let stopping = collect (λ (g : GateResult). g.blocking_issues) gates in
    record {
      verdict = if is_empty stopping then GateVerdict.pass else GateVerdict.fail;
      blocking_issues = stopping;
      nonblocking_issues = collect (λ (g : GateResult). g.nonblocking_issues) gates;
      records_checked = records_checked;
      gates_total = length gates;
      gates_passed = count_status GateStatus.pass gates;
      gates_failed = count_status GateStatus.fail gates;
      gates_skipped = count_status GateStatus.skipped gates;
      gates_not_applicable = count_status GateStatus.not_applicable gates;
      gates = gates;
    }

unfoldable pub run_gatekeeper : GateInputs → GatekeeperReport
unfolding build_report
run_gatekeeper i = build_report (length i.records) (run_gates i)
