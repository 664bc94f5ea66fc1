-- ===== src/Promotion/Reasons.antt =====
-- cosheaf/gates/promotion_readiness.py: the reasons that an artifact's own record and its
-- dependencies give.
use tcs_cosheaf.Base.{
  String, Bool, true, false, not, ◌&&◌, ◌||◌, List, [], ◌∷◌, ◌++◌, none, some, if◌then◌else◌,
  concat, join, strip, is_empty, collect, keep,
}
use tcs_cosheaf.Core.Status.{
  ArtifactStatus, raw, draft, locally_tested, adversarially_tested, machine_checked, human_reviewed,
  status_value, status_in, is_accepted_status,
}
use tcs_cosheaf.Core.Artifact.{BaseArtifact, ReviewState, review_value}
use tcs_cosheaf.Core.Validate.{is_external_dependency_ref}
use tcs_cosheaf.Storage.{LoadedRecord, record_id, as_artifact, is_artifact}
use tcs_cosheaf.Gates.Dependency.{get_by_id, root_is, public_depends_on_private}
use tcs_cosheaf.Gates.SourceMetadata.{WorkspacePolicy, no_sources}
use tcs_cosheaf.Gates.Report.{is_blocking_status, is_skipped_status}
use tcs_cosheaf.Gates.Gatekeeper.{VerificationResult, verification_value}

pub data ReasonSeverity : Type 0 where
  blocking warning : ReasonSeverity

pub record Reason : Type 0 where
  pub code : String
  pub severity : ReasonSeverity
  pub message : String
  pub artifact_id : String
  pub source_path : String
  pub gate_id : String
  pub verifier : String
  pub status : String

-- `PromotionReadinessReason.blocking`
unfoldable pub is_blocking : Reason → Bool
is_blocking r = elim r.severity [ blocking ↦ true | warning ↦ false ]

-- A reason whose other fields are empty.
abbrev pub reason : String → ReasonSeverity → String → List String → Reason
reason code severity artifact_id message = record {
  code = code;
  severity = severity;
  message = concat message;
  artifact_id = artifact_id;
  source_path = "";
  gate_id = "";
  verifier = "";
  status = "";
}

abbrev draft_statuses : List ArtifactStatus
draft_statuses = raw ∷ draft ∷ []

abbrev pub ready_preaccepted_statuses : List ArtifactStatus
ready_preaccepted_statuses =
    locally_tested ∷ adversarially_tested ∷ machine_checked ∷ human_reviewed ∷ []

unfoldable pub status_reasons : BaseArtifact → List Reason
status_reasons artifact =
    if status_in artifact.status ready_preaccepted_statuses
    then []
    else if status_in artifact.status draft_statuses
    then (let r = reason "draft_status" blocking artifact.id (
          "artifact is still raw/draft; readiness requires a review-grade pre-accepted status before accepted promotion"
          ∷ []) in
        record r { status = status_value artifact.status })
      ∷ []
    else if is_accepted_status artifact.status
    then (let r =
          reason "already_accepted" blocking artifact.id
            ("artifact is already accepted; no promotion readiness remains" ∷ []) in
        record r { status = status_value artifact.status })
      ∷ []
    else (let r =
          reason "not_promotable_status" blocking artifact.id
            ("artifact status is not promotable: " ∷ status_value artifact.status ∷ []) in
        record r { status = status_value artifact.status })
      ∷ []

-- `artifact.review.state in PROMOTION_REVIEW_STATES`
unfoldable pub is_promotion_review : ReviewState → Bool
is_promotion_review ReviewState.human_reviewed = true
is_promotion_review ReviewState.accepted = true
is_promotion_review _ = false

unfoldable pub review_reasons : BaseArtifact → List Reason
review_reasons artifact =
    if is_promotion_review artifact.review.state
    then []
    else (let r = reason "missing_review" blocking artifact.id (
          "review.state must be human_reviewed or accepted; AI/provider output cannot satisfy the human review requirement"
          ∷ []) in
        record r { status = review_value artifact.review.state })
      ∷ []

unfoldable pub readonly_reasons : LoadedRecord → List Reason
readonly_reasons loaded =
    if not loaded.kb_root_readonly
    then []
    else (let r = reason "readonly_kb_root" blocking (record_id loaded) (
          "artifact is loaded from a readonly KB root; promotion would need to occur in a writable lifecycle root"
          ∷ []) in
        record r { source_path = loaded.source_path })
      ∷ []

unfoldable pub source_metadata_required : WorkspacePolicy → LoadedRecord → Bool
source_metadata_required policy loaded =
    policy.accepted_requires_source && root_is "public" loaded.kb_root_name

unfoldable pub source_metadata_reasons : BaseArtifact → Bool → List String → List Reason
source_metadata_reasons artifact required missing =
    if not required || is_empty missing
    then []
    else reason "missing_source_metadata" blocking artifact.id (
        if no_sources missing
        then "accepted public artifact requires source metadata before promotion" ∷ []
        else "accepted public artifact has incomplete source metadata: " ∷ join ", " missing ∷ [])
      ∷ []

-- What a dependency that was found gives.
unfoldable pub found_dependency_reasons :
    LoadedRecord → BaseArtifact → String → LoadedRecord → BaseArtifact → List Reason
found_dependency_reasons loaded artifact dependency_id dependency target =
    (if public_depends_on_private loaded dependency
      then (let r =
            reason "private_dependency" blocking artifact.id
              ("public artifact depends on private artifact: " ∷ dependency_id ∷ []) in
          record r { source_path = dependency.source_path })
        ∷ []
      else [])
    ++ (if is_accepted_status target.status
        then []
        else (let r = reason "dependency_risk" blocking artifact.id (
              "dependency is not accepted: "
              ∷ dependency_id
              ∷ " has status "
              ∷ status_value target.status
              ∷ []) in
            record r { source_path = dependency.source_path; status = status_value target.status })
          ∷ [])

abbrev missing_dependency : BaseArtifact → String → List Reason
missing_dependency artifact dependency_id =
    reason "dependency_risk" blocking artifact.id ("dependency is missing: " ∷ dependency_id ∷ [])
    ∷ []

-- One round of the loop over the dependencies.
unfoldable pub dependency_reasons_of :
    List LoadedRecord → LoadedRecord → BaseArtifact → String → List Reason
dependency_reasons_of artifacts loaded artifact dependency_id =
    if is_external_dependency_ref dependency_id
    then []
    else elim (get_by_id dependency_id artifacts) [
      | none ↦ missing_dependency artifact dependency_id
      | some dependency ↦ elim (as_artifact dependency) [
        | none ↦ missing_dependency artifact dependency_id
        | some target ↦ found_dependency_reasons loaded artifact dependency_id dependency target
      ]
    ]

unfoldable pub dependency_reasons : List LoadedRecord → LoadedRecord → BaseArtifact → List Reason
dependency_reasons records loaded artifact =
    collect (dependency_reasons_of (keep is_artifact records) loaded artifact) artifact.depends_on

abbrev skipped_suffix : Bool → String
skipped_suffix true =
    "Skipped verifier evidence is not a pass; checker-required readiness remains unsatisfied."
skipped_suffix false = "Skipped verifier evidence is not a pass."

abbrev skipped_severity : Bool → ReasonSeverity
skipped_severity true = blocking
skipped_severity false = warning

-- One round of the loop over the verifier results.
unfoldable pub verifier_reasons_of : BaseArtifact → Bool → VerificationResult → List Reason
verifier_reasons_of artifact checker_required result =
    (if is_blocking_status result.status
      then (let r = reason "failed_verifier" blocking artifact.id (
            strip (
              concat (
                result.verifier
                ∷ " "
                ∷ verification_value result.status
                ∷ ": "
                ∷ strip result.message
                ∷ []))
            ∷ []) in
          record r { verifier = result.verifier; status = verification_value result.status })
        ∷ []
      else [])
    ++ (if is_skipped_status result.status
        then (let r = reason "skipped_verifier" (skipped_severity checker_required) artifact.id (
              strip (concat (result.verifier ∷ " skipped: " ∷ strip result.message ∷ []))
              ∷ " "
              ∷ skipped_suffix checker_required
              ∷ []) in
            record r { verifier = result.verifier; status = verification_value result.status })
          ∷ []
        else [])

unfoldable pub verifier_reasons : BaseArtifact → Bool → List VerificationResult → List Reason
verifier_reasons artifact checker_required results =
    collect (verifier_reasons_of artifact checker_required) results
