-- ===== src/Promotion/Report.antt =====
-- cosheaf/gates/promotion_readiness.py: the reasons of the gate report, and the readiness report.
use tcs_cosheaf.Base.{
  String, Bool, true, false, not, ◌&&◌, ◌||◌, List, [], ◌∷◌, if◌then◌else◌, collect, any, keep,
  sort, not_gt, key_order, str_eq, blank,
}
use tcs_cosheaf.Gates.Gatekeeper.{
  GateIssue, GateResult, GatekeeperReport, VerificationResult, verification_value,
}
use tcs_cosheaf.Promotion.Reasons.{Reason, ReasonSeverity, blocking, warning, reason}

-- `gate_id in {"G4", "G6", "G9"}`
unfoldable pub is_handled_gate : String → Bool
is_handled_gate gate_id = str_eq gate_id "G4" || str_eq gate_id "G6" || str_eq gate_id "G9"

unfoldable pub reason_from_gate_issue : GateIssue → Reason
reason_from_gate_issue found =
    let r =
      reason (if str_eq found.gate_id "G10" then "formal_link_policy" else "gate_blocker") blocking
        found.artifact_id (found.message ∷ []) in
    record r { source_path = found.source_path; gate_id = found.gate_id }

-- One round of the loop over the target's own blocking issues.
unfoldable pub target_reasons_of : String → GateIssue → List Reason
target_reasons_of artifact_id found =
    if not (str_eq found.artifact_id artifact_id)
    then []
    else if is_handled_gate found.gate_id
    then []
    else reason_from_gate_issue found ∷ []

unfoldable pub target_gate_reasons : GatekeeperReport → String → List Reason
target_gate_reasons report artifact_id =
    collect (target_reasons_of artifact_id) report.blocking_issues

-- `issue.artifact_id or issue.source_path or "repository"`
abbrev issue_location : GateIssue → String
issue_location found =
    if not (blank found.artifact_id)
    then found.artifact_id
    else if not (blank found.source_path)
    then found.source_path
    else "repository"

-- One round of the loop over the other blocking issues.
unfoldable pub repository_reasons_of : String → GateIssue → List Reason
repository_reasons_of artifact_id found =
    if str_eq found.artifact_id artifact_id
    then []
    else (let r = reason "repository_gate_blocker" blocking artifact_id (
          "repository gatekeeper blocker prevents promotion: "
          ∷ found.gate_id
          ∷ " "
          ∷ issue_location found
          ∷ ": "
          ∷ found.message
          ∷ []) in
        record r { source_path = found.source_path; gate_id = found.gate_id })
      ∷ []

unfoldable pub repository_gate_reasons : GatekeeperReport → String → List Reason
repository_gate_reasons report artifact_id =
    collect (repository_reasons_of artifact_id) report.blocking_issues

abbrev pub result_le : VerificationResult → VerificationResult → Bool
result_le a b = not_gt (
    key_order (a.verifier ∷ verification_value a.status ∷ a.message ∷ [])
      (b.verifier ∷ verification_value b.status ∷ b.message ∷ []))

-- One round of the loop over the gates.
unfoldable pub verifier_details : String → GateResult → List VerificationResult
verifier_details artifact_id g =
    if not (str_eq g.gate_id "G6")
    then []
    else keep (λ (detail : VerificationResult). str_eq detail.artifact_id artifact_id) g.details

unfoldable pub target_verifier_results : GatekeeperReport → String → List VerificationResult
target_verifier_results report artifact_id =
    sort result_le (collect (verifier_details artifact_id) report.gates)

abbrev pub same_severity : ReasonSeverity → ReasonSeverity → Bool
same_severity blocking blocking = true
same_severity warning warning = true
same_severity _ _ = false

-- Equal keys of `_dedupe_reasons`.
unfoldable pub same_reason : Reason → Reason → Bool
same_reason a b =
    str_eq a.code b.code
    && same_severity a.severity b.severity
    && str_eq a.message b.message
    && str_eq a.source_path b.source_path
    && str_eq a.status b.status

-- The loop that drops a reason seen before.
unfoldable pub first_reasons : List Reason → List Reason → List Reason
first_reasons seen [] = []
first_reasons seen (r ∷ rs) =
    if any (same_reason r) seen then first_reasons seen rs else r ∷ first_reasons (r ∷ seen) rs

abbrev severity_key : ReasonSeverity → String
severity_key blocking = "0"
severity_key warning = "1"

abbrev pub reason_le : Reason → Reason → Bool
reason_le a b = not_gt (
    key_order (severity_key a.severity ∷ a.code ∷ a.artifact_id ∷ a.source_path ∷ a.message ∷ [])
      (severity_key b.severity ∷ b.code ∷ b.artifact_id ∷ b.source_path ∷ b.message ∷ []))

unfoldable pub dedupe_reasons : List Reason → List Reason
dedupe_reasons reasons = sort reason_le (first_reasons [] reasons)
