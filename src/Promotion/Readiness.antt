-- ===== src/Promotion/Readiness.antt =====
-- cosheaf/gates/promotion_readiness.py: the report of an artifact and of a target. The loaded
-- records, the gatekeeper's report, the evidence records and the plans are what the services it
-- calls first return. The two report paths and the schema version are left out.
use tcs_cosheaf.Base.{
  String, Bool, false, not, ◌&&◌, List, [], ◌∷◌, ◌++◌, Option, none, some, if◌then◌else◌, is_empty,
  collect, any, keep, map, sort, not_gt, text_order, str_eq, Result, ok, err,
}
use tcs_cosheaf.Core.Status.{ArtifactStatus, ArtifactType}
use tcs_cosheaf.Core.Artifact.{BaseArtifact, ReviewState}
use tcs_cosheaf.Storage.{
  LoadedRecord, LoadedModel, IssueRecord, issue, record_id, as_artifact, is_artifact,
}
use tcs_cosheaf.Gates.SourceMetadata.{WorkspacePolicy, missing_required_source_metadata}
use tcs_cosheaf.Gates.Gatekeeper.{GateVerdict, GatekeeperReport, VerificationResult}
use tcs_cosheaf.Promotion.Reasons.{
  Reason, blocking, reason, is_blocking, status_reasons, review_reasons, readonly_reasons,
  source_metadata_required, source_metadata_reasons, dependency_reasons, verifier_reasons,
}
use tcs_cosheaf.Promotion.Evidence.{
  CheckedEvidence, LoadedPlan, failure_memory_reasons, checked_counterexample_evidence_reasons,
  strategy_open_blocker_reasons,
}
use tcs_cosheaf.Promotion.Report.{
  target_gate_reasons, repository_gate_reasons, target_verifier_results, dedupe_reasons,
}

-- What the report reads.
pub record PromotionInputs : Type 0 where
  pub records : List LoadedRecord
  pub gatekeeper : GatekeeperReport
  pub policy : WorkspacePolicy
  pub evidence : List CheckedEvidence
  pub plans : List LoadedPlan

pub record ArtifactPromotionReadiness : Type 0 where
  pub artifact_id : String
  pub source_path : String
  pub artifact_type : ArtifactType
  pub status : ArtifactStatus
  pub kb_root : String
  pub kb_root_readonly : Bool
  pub review_state : ReviewState
  pub checker_required : Bool
  pub source_metadata_required : Bool
  pub missing_source_metadata : List String
  pub gate_verdict : GateVerdict
  pub verifier_results : List VerificationResult
  pub reasons : List Reason

-- `ArtifactPromotionReadiness.ready`
unfoldable pub artifact_ready : ArtifactPromotionReadiness → Bool
artifact_ready report = not (any is_blocking report.reasons)

abbrev root_label : Option String → String
root_label none = ""
root_label (some name) = name

module _ (inputs : PromotionInputs) where
  abbrev pub missing_metadata : LoadedRecord → BaseArtifact → List String
  missing_metadata loaded artifact =
      if source_metadata_required inputs.policy loaded
      then missing_required_source_metadata artifact
      else []

  -- The reasons of an artifact, before they are deduplicated.
  unfoldable pub artifact_reasons : LoadedRecord → BaseArtifact → List Reason
  artifact_reasons loaded artifact =
      status_reasons artifact
      ++ (review_reasons artifact
          ++ (readonly_reasons loaded
              ++ (source_metadata_reasons artifact (source_metadata_required inputs.policy loaded)
                    (missing_metadata loaded artifact)
                  ++ (dependency_reasons inputs.records loaded artifact
                      ++ (verifier_reasons artifact artifact.verification_policy.require_lean_check
                            (target_verifier_results inputs.gatekeeper artifact.id)
                          ++ (failure_memory_reasons artifact
                              ++ (checked_counterexample_evidence_reasons inputs.evidence artifact
                                  ++ (strategy_open_blocker_reasons inputs.plans artifact
                                      ++ (repository_gate_reasons inputs.gatekeeper artifact.id
                                          ++ target_gate_reasons inputs.gatekeeper
                                              artifact.id)))))))))

  unfoldable pub artifact_report : LoadedRecord → BaseArtifact → ArtifactPromotionReadiness
  artifact_report loaded artifact = record {
    artifact_id = artifact.id;
    source_path = loaded.source_path;
    artifact_type = artifact.type;
    status = artifact.status;
    kb_root = root_label loaded.kb_root_name;
    kb_root_readonly = loaded.kb_root_readonly;
    review_state = artifact.review.state;
    checker_required = artifact.verification_policy.require_lean_check;
    source_metadata_required = source_metadata_required inputs.policy loaded;
    missing_source_metadata = missing_metadata loaded artifact;
    gate_verdict = inputs.gatekeeper.verdict;
    verifier_results = target_verifier_results inputs.gatekeeper artifact.id;
    reasons = dedupe_reasons (artifact_reasons loaded artifact);
  }

abbrev pub first : {A : Type 0} → List A → Option A
first [] = none
first (x ∷ xs) = some x

unfoldable pub find_artifact : List LoadedRecord → String → Option LoadedRecord
find_artifact records artifact_id = first (
    sort (λ (a : LoadedRecord) b. not_gt (text_order a.source_path b.source_path))
      (keep (λ r. str_eq (record_id r) artifact_id && is_artifact r) records))

abbrev as_issue : LoadedModel → List IssueRecord
as_issue (issue found) = found ∷ []
as_issue _ = []

-- The issues compared here all carry the identifier that is the sorting key.
unfoldable pub find_issue : List LoadedRecord → String → Option IssueRecord
find_issue records issue_id = first (
    collect (λ (r : LoadedRecord). as_issue r.model)
      (keep (λ r. str_eq (record_id r) issue_id) records))

unfoldable pub missing_target_reasons : List LoadedRecord → List String → List Reason
missing_target_reasons records artifact_ids =
    map
      (λ artifact_id.
        reason "artifact_not_found" blocking artifact_id
          ("artifact not found: " ∷ artifact_id ∷ []))
      (keep (λ artifact_id. not (any (λ r. str_eq (record_id r) artifact_id) records)) artifact_ids)

module _ (inputs : PromotionInputs) where
  -- One round of the loop over the targets.
  unfoldable pub target_report : String → List ArtifactPromotionReadiness
  target_report target_id = elim (find_artifact inputs.records target_id) [
    | none ↦ []
    | some loaded ↦ elim (as_artifact loaded) [
      | none ↦ []
      | some artifact ↦ artifact_report inputs loaded artifact ∷ []
    ]
  ]

  unfoldable pub artifact_reports : List String → List ArtifactPromotionReadiness
  artifact_reports artifact_ids =
      sort (λ (a : ArtifactPromotionReadiness) b. not_gt (text_order a.artifact_id b.artifact_id))
        (collect target_report artifact_ids)

pub data TargetMode : Type 0 where
  artifact_target issue_target : TargetMode

pub record PromotionReadinessReport : Type 0 where
  pub target_mode : TargetMode
  pub artifact_id : String
  pub issue_id : String
  pub artifacts : List ArtifactPromotionReadiness
  pub reasons : List Reason
  pub accepted_write_performed : Bool

-- `PromotionReadinessReport.ready`
unfoldable pub is_ready : PromotionReadinessReport → Bool
is_ready report =
    not (is_empty report.artifacts)
    && not (
        any is_blocking (
          report.reasons
          ++ collect (λ (r : ArtifactPromotionReadiness). r.reasons) report.artifacts))

abbrev issue_report :
    String → List ArtifactPromotionReadiness → List Reason → PromotionReadinessReport
issue_report issue_id artifacts reasons = record {
  target_mode = issue_target;
  artifact_id = "";
  issue_id = issue_id;
  artifacts = artifacts;
  reasons = reasons;
  accepted_write_performed = false;
}

-- The report of an issue that was found.
unfoldable pub related_report : PromotionInputs → String → List String → PromotionReadinessReport
related_report inputs issue_id [] = issue_report issue_id [] (
    reason "issue_has_no_related_artifacts" blocking ""
      ("issue has no related_artifacts to evaluate for promotion readiness" ∷ [])
    ∷ [])
related_report inputs issue_id (id ∷ ids) =
    issue_report issue_id (artifact_reports inputs (id ∷ ids))
      (missing_target_reasons inputs.records (id ∷ ids))

-- The report of one artifact.
abbrev pub artifact_mode : PromotionInputs → String → PromotionReadinessReport
artifact_mode inputs artifact_id = record {
  target_mode = artifact_target;
  artifact_id = artifact_id;
  issue_id = "";
  artifacts = artifact_reports inputs (artifact_id ∷ []);
  reasons = missing_target_reasons inputs.records (artifact_id ∷ []);
  accepted_write_performed = false;
}

unfoldable pub build_promotion_readiness_report :
    PromotionInputs → Option String → Option String → Result PromotionReadinessReport
build_promotion_readiness_report inputs none none =
    err "provide exactly one of artifact_id or issue_id"
build_promotion_readiness_report inputs (some a) (some i) =
    err "provide exactly one of artifact_id or issue_id"
build_promotion_readiness_report inputs (some artifact_id) none =
    ok (artifact_mode inputs artifact_id)
build_promotion_readiness_report inputs none (some issue_id) =
    elim (find_issue inputs.records issue_id) [
      | none ↦ ok (
          issue_report issue_id []
            (reason "issue_not_found" blocking "" ("issue not found: " ∷ issue_id ∷ []) ∷ []))
      | some found ↦ ok (related_report inputs issue_id found.related_artifacts)
    ]
