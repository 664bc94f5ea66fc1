-- ===== src/Gates/FormalLink.antt =====
-- cosheaf/gates/formal_link_gate.py. The lookup of the manifest is an input; of a manifest, the
-- identifiers of its libraries are read.
use tcs_cosheaf.Base.{
  String, ℕ, Bool, true, false, not, ◌&&◌, ◌||◌, List, [], ◌∷◌, ◌++◌, Option, none, some,
  if◌then◌else◌, any, keep, collect, map, blank, strip, str_eq, concat, join, sort, not_gt,
  text_order, key_order, is_empty, length, ltb, ◌==◌,
}
use tcs_cosheaf.Core.Status.{status_value, is_accepted_status}
use tcs_cosheaf.Core.Artifact.{
  BaseArtifact, FormalizationRef, LinkStatus, planned, linked, checked, broken, deprecated,
  CheckMode, external_library_ref, local_file, AlignmentStatus, PolicyLevel, source_reviewed,
  source_reviewed_with_formal_link, machine_checked, lean_required,
}
use tcs_cosheaf.Storage.{LoadedRecord, per_artifact, record_le}
use tcs_cosheaf.Gates.Failure.{ValidationFailure, sort_failures}
use tcs_cosheaf.Gates.Dependency.{distinct, text_le}
use tcs_cosheaf.Gates.Gatekeeper.{VerificationResult, VerificationStatus}
use tcs_cosheaf.Gates.Report.{Findings}

pub data LinkCheckStatus : Type 0 where
  pass fail warning not_applicable : LinkCheckStatus

unfoldable pub link_value : LinkStatus → String
link_value planned = "planned"
link_value linked = "linked"
link_value checked = "checked"
link_value broken = "broken"
link_value deprecated = "deprecated"

unfoldable pub alignment_value : AlignmentStatus → String
alignment_value AlignmentStatus.unreviewed = "none"
alignment_value AlignmentStatus.requested = "requested"
alignment_value AlignmentStatus.human_reviewed = "human_reviewed"
alignment_value AlignmentStatus.rejected = "rejected"

unfoldable pub level_value : PolicyLevel → String
level_value source_reviewed = "source_reviewed"
level_value source_reviewed_with_formal_link = "source_reviewed_with_formal_link"
level_value machine_checked = "machine_checked"
level_value lean_required = "lean_required"

pub record FormalLinkCheck : Type 0 where
  pub artifact_id : String
  pub source_path : String
  pub artifact_status : String
  pub policy_level : String
  pub formalization_count : ℕ
  pub checked_formalization_count : ℕ
  pub resolved_library_ref_count : ℕ
  pub lean_check_pass_count : ℕ
  pub alignment_status : String
  pub status : LinkCheckStatus
  pub blocking_messages : List String
  pub warning_messages : List String

pub record ManifestLookup : Type 0 where
  pub manifest : Option (List String)
  pub issue : String

abbrev pub is_checked : LinkStatus → Bool
is_checked checked = true
is_checked _ = false

-- `ref.status in {"linked", "checked"}`
abbrev pub is_linked : LinkStatus → Bool
is_linked linked = true
is_linked checked = true
is_linked _ = false

-- `ref.status in ACTIVE_FORMALIZATION_STATUSES`
abbrev pub is_active : LinkStatus → Bool
is_active planned = true
is_active s = is_linked s

-- `ref.status in {"broken", "deprecated"}`
abbrev pub is_dead : LinkStatus → Bool
is_dead broken = true
is_dead deprecated = true
is_dead _ = false

abbrev pub is_pass : VerificationStatus → Bool
is_pass VerificationStatus.pass = true
is_pass _ = false

abbrev pub is_lean_required : PolicyLevel → Bool
is_lean_required lean_required = true
is_lean_required _ = false

abbrev pub is_source_reviewed : PolicyLevel → Bool
is_source_reviewed source_reviewed = true
is_source_reviewed _ = false

abbrev formalization_label : String → String
formalization_label id = concat ("formalization:" ∷ id ∷ [])

-- `text in texts`
abbrev listed : String → List String → Bool
unfolding any
listed text texts = any (λ t. str_eq t text) texts

-- `_has_passing_lean_library_ref`
unfoldable pub has_passing_lean_library_ref : BaseArtifact → String → List VerificationResult → Bool
unfolding any listed
has_passing_lean_library_ref artifact id results =
    any
      (λ r.
        str_eq r.artifact_id artifact.id
        && (str_eq r.verifier "lean_library_ref"
            && (is_pass r.status
                && (listed (formalization_label id) r.evidence_paths
                    || listed (formalization_label id) r.input_paths))))
      results

-- `_has_matching_lean_pass`
unfoldable pub has_matching_lean_pass :
    BaseArtifact → String → CheckMode → List VerificationResult → Bool
unfolding has_passing_lean_library_ref any
has_matching_lean_pass artifact id external_library_ref results =
    has_passing_lean_library_ref artifact id results
has_matching_lean_pass artifact id local_file results =
    any (λ r. str_eq r.artifact_id artifact.id && (str_eq r.verifier "lean" && is_pass r.status))
      results

-- `_lean_check_pass_count`
unfoldable pub lean_check_pass_count : BaseArtifact → List VerificationResult → ℕ
unfolding keep has_matching_lean_pass
lean_check_pass_count artifact results = length (
    keep (λ r. is_checked r.status && has_matching_lean_pass artifact r.id r.check_mode results)
      artifact.formalizations)

unfoldable pub checked_count : BaseArtifact → ℕ
unfolding keep
checked_count artifact = length (keep (λ r. is_checked r.status) artifact.formalizations)

unfoldable pub active_count : BaseArtifact → ℕ
unfolding keep
active_count artifact = length (keep (λ r. is_active r.status) artifact.formalizations)

-- `if test: messages.append(message)`
abbrev pub when : Bool → List String → List String
when test message = if test then concat message ∷ [] else []

abbrev pub is_human_reviewed : AlignmentStatus → Bool
is_human_reviewed AlignmentStatus.human_reviewed = true
is_human_reviewed _ = false

abbrev pub is_rejected : AlignmentStatus → Bool
is_rejected AlignmentStatus.rejected = true
is_rejected _ = false

abbrev is_requested : AlignmentStatus → Bool
is_requested AlignmentStatus.requested = true
is_requested _ = false

-- The blocking messages before the loop over the formalizations.
unfoldable pub policy_messages : BaseArtifact → List VerificationResult → List String
unfolding checked_count lean_check_pass_count
policy_messages a results =
    let policy = a.verification_policy in
    when (policy.require_formal_link && is_empty a.formalizations)
      ("verification_policy requires a formal link but has no formalizations" ∷ [])
    ++ (when (policy.require_alignment_review && not (is_human_reviewed a.alignment.status)) (
          "verification_policy requires alignment review but alignment.status is "
          ∷ alignment_value a.alignment.status
          ∷ [])
        ++ (when (policy.require_lean_check && checked_count a == 0)
              ("verification_policy requires a Lean check but no formalization is checked" ∷ [])
            ++ (when
                  (policy.require_lean_check
                    && (ltb 0 (checked_count a) && lean_check_pass_count a results == 0))
                  ("verification_policy requires a Lean check but no Lean verifier result passed for a checked formalization"
                    ∷ [])
                ++ (when (is_lean_required policy.level && not policy.require_formal_link)
                      ("lean_required policy must require a formal link" ∷ [])
                    ++ (when (is_lean_required policy.level && not policy.require_lean_check)
                          ("lean_required policy must require a Lean check" ∷ [])
                        ++ when (is_accepted_status a.status && is_rejected a.alignment.status)
                            ("accepted artifact has rejected formal alignment" ∷ []))))))

-- `_formal_link_is_not_required`
unfoldable pub formal_link_is_not_required : BaseArtifact → Bool
formal_link_is_not_required a =
    is_source_reviewed a.verification_policy.level && not a.verification_policy.require_formal_link

abbrev planned_status : LinkStatus → Bool
planned_status planned = true
planned_status _ = false

abbrev is_external_mode : CheckMode → Bool
is_external_mode external_library_ref = true
is_external_mode _ = false

-- `require_library_ref` on the identifiers of a manifest: the message of a reference that is not there.
unfoldable pub library_messages : ManifestLookup → FormalizationRef → List String
unfolding any listed
library_messages lookup ref = elim lookup.manifest [
  | none ↦ []
  | some ids ↦ when (not (listed ref.library_ref ids)) (
      "formalization "
      ∷ ref.id
      ∷ " references unknown library_ref: "
      ∷ ref.library_ref
      ∷ "; available library_ref ids: "
      ∷ join ", " ids
      ∷ [])
]

-- The message of a broken or deprecated formalization blocks where no active one replaces it.
abbrev dead_blocks : BaseArtifact → Bool
unfolding active_count
dead_blocks a = a.verification_policy.require_formal_link && active_count a == 0

-- The blocking messages of one round of the loop.
unfoldable pub ref_messages : ManifestLookup → BaseArtifact → FormalizationRef → List String
unfolding strip library_messages dead_blocks
ref_messages lookup a ref =
    when (not (blank lookup.issue)) (lookup.issue ∷ [])
    ++ (when (is_linked ref.status && blank (strip ref.import_path)) (
          "formalization "
          ∷ ref.id
          ∷ " has empty import_path while status is "
          ∷ link_value ref.status
          ∷ [])
        ++ (when (is_linked ref.status && blank (strip ref.symbol)) (
              "formalization "
              ∷ ref.id
              ∷ " has empty symbol while status is "
              ∷ link_value ref.status
              ∷ [])
            ++ (library_messages lookup ref
                ++ when (is_dead ref.status && dead_blocks a)
                    ("formalization " ∷ ref.id ∷ " has status " ∷ link_value ref.status ∷ []))))

-- The warnings of one round.
unfoldable pub ref_warnings :
    BaseArtifact → List VerificationResult → FormalizationRef → List String
unfolding has_passing_lean_library_ref dead_blocks
ref_warnings a results ref =
    when
      (is_checked ref.status
        && (is_external_mode ref.check_mode && not (has_passing_lean_library_ref a ref.id results)))
      ("formalization " ∷ ref.id
        ∷ " is checked through external_library_ref without verifier evidence linkage" ∷ [])
    ++ (when (is_accepted_status a.status && planned_status ref.status)
          ("accepted artifact has a planned formalization" ∷ [])
        ++ when (is_dead ref.status && not (dead_blocks a))
            ("formalization " ∷ ref.id ∷ " has status " ∷ link_value ref.status ∷ []))

abbrev pub ref_le : FormalizationRef → FormalizationRef → Bool
ref_le a b = not_gt (text_order a.id b.id)

abbrev pub sorted_refs : BaseArtifact → List FormalizationRef
sorted_refs a = sort ref_le a.formalizations

unfoldable pub blocking_of : ManifestLookup → BaseArtifact → List VerificationResult → List String
unfolding policy_messages ref_messages collect sort
blocking_of lookup a results =
    policy_messages a results ++ collect (ref_messages lookup a) (sorted_refs a)

unfoldable pub warnings_of : BaseArtifact → List VerificationResult → List String
unfolding formal_link_is_not_required ref_warnings collect sort
warnings_of a results =
    when (is_accepted_status a.status && is_requested a.alignment.status)
      ("accepted artifact has requested formal alignment review" ∷ [])
    ++ (when (not (is_empty a.formalizations) && formal_link_is_not_required a)
          ("formalizations are present but verification_policy does not require a formal link" ∷ [])
        ++ collect (ref_warnings a results) (sorted_refs a))

abbrev is_unreviewed : AlignmentStatus → Bool
is_unreviewed AlignmentStatus.unreviewed = true
is_unreviewed _ = false

-- `_is_applicable`
unfoldable pub is_applicable : BaseArtifact → Bool
is_applicable a =
    not (is_empty a.formalizations)
    || (not (is_unreviewed a.alignment.status)
        || (not (is_source_reviewed a.verification_policy.level)
            || (a.verification_policy.require_formal_link
                || (a.verification_policy.require_lean_check
                    || a.verification_policy.require_alignment_review))))

unfoldable pub check_status : List String → List String → Bool → LinkCheckStatus
check_status (b ∷ bs) warnings applicable = LinkCheckStatus.fail
check_status [] (w ∷ ws) applicable = LinkCheckStatus.warning
check_status [] [] applicable =
    if applicable then LinkCheckStatus.pass else LinkCheckStatus.not_applicable

-- How many library references the manifest resolves.
unfoldable pub resolved_count : ManifestLookup → List FormalizationRef → ℕ
unfolding any listed keep
resolved_count lookup refs = elim lookup.manifest [
  | none ↦ 0
  | some ids ↦ length (keep (λ r. listed r.library_ref ids) refs)
]

-- `_check_artifact`
unfoldable pub check_artifact :
    ManifestLookup → List VerificationResult → LoadedRecord → BaseArtifact → FormalLinkCheck
unfolding blocking_of warnings_of check_status is_applicable resolved_count distinct sort
check_artifact lookup results loaded a =
    let blocking = blocking_of lookup a results in
    let warnings = warnings_of a results in
    record {
      artifact_id = a.id;
      source_path = loaded.source_path;
      artifact_status = status_value a.status;
      policy_level = level_value a.verification_policy.level;
      formalization_count = length a.formalizations;
      checked_formalization_count = checked_count a;
      resolved_library_ref_count = resolved_count lookup a.formalizations;
      lean_check_pass_count = lean_check_pass_count a results;
      alignment_status = alignment_value a.alignment.status;
      status = check_status blocking warnings (is_applicable a);
      blocking_messages = sort text_le (distinct blocking);
      warning_messages = sort text_le (distinct warnings);
    }

abbrev failures_from_messages : FormalLinkCheck → List String → List ValidationFailure
failures_from_messages check messages =
    map
      (λ m. record {
        gate = "formal link";
        source_path = check.source_path;
        artifact_id = check.artifact_id;
        message = m;
      })
      messages

abbrev pub check_le : FormalLinkCheck → FormalLinkCheck → Bool
unfolding key_order
check_le a b =
    not_gt (key_order (a.source_path ∷ a.artifact_id ∷ []) (b.source_path ∷ b.artifact_id ∷ []))

abbrev is_applied : LinkCheckStatus → Bool
is_applied LinkCheckStatus.not_applicable = false
is_applied _ = true

pub record FormalLinkResult : Type 0 where
  pub checks : List FormalLinkCheck
  pub failures : List ValidationFailure
  pub warnings : List ValidationFailure

module _ (lookup : ManifestLookup) (results : List VerificationResult) where
  -- The failures of one artifact.
  unfoldable pub link_failures : LoadedRecord → BaseArtifact → List ValidationFailure
  unfolding check_artifact
  link_failures loaded a =
      let check = check_artifact lookup results loaded a in
      failures_from_messages check check.blocking_messages

  unfoldable pub link_warnings : LoadedRecord → BaseArtifact → List ValidationFailure
  unfolding check_artifact
  link_warnings loaded a =
      let check = check_artifact lookup results loaded a in
      failures_from_messages check check.warning_messages

  unfoldable pub validate_formal_link_policy : List LoadedRecord → FormalLinkResult
  unfolding link_failures link_warnings sort collect check_artifact
  validate_formal_link_policy records =
      let sorted = sort record_le records in
      record {
        checks = sort check_le (
            collect (per_artifact (λ loaded a. check_artifact lookup results loaded a ∷ []))
              sorted);
        failures = sort_failures (collect (per_artifact link_failures) sorted);
        warnings = sort_failures (collect (per_artifact link_warnings) sorted);
      }

-- What the gatekeeper reads of the result.
unfoldable pub link_findings : FormalLinkResult → Findings
unfolding keep
link_findings result = record {
  failures = result.failures;
  warnings = result.warnings;
  applicable_count = length (keep (λ (c : FormalLinkCheck). is_applied c.status) result.checks);
}
