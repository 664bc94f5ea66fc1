-- ===== src/Core/Artifact.antt =====
-- cosheaf/core/artifact.py: the records of an artifact. A `Literal` or an enumeration is a data
-- type with its words for constructors.
use tcs_cosheaf.Base.{String, ℕ, Bool, List, Option}
use tcs_cosheaf.Core.Status.{ArtifactType, ArtifactStatus}

-- A `datetime`: microseconds since the first year, and whether it carries a time zone. An aware
-- one is counted in UTC.
pub record Timestamp : Type 0 where
  pub instant : ℕ
  pub aware : Bool

pub record Evidence : Type 0 where
  pub kind : String
  pub path : String
  pub summary : String

pub data ReviewState : Type 0 where
  unreviewed requested in_review approved changes_requested human_reviewed accepted : ReviewState

unfoldable pub review_value : ReviewState → String
review_value ReviewState.unreviewed = "none"
review_value ReviewState.requested = "requested"
review_value ReviewState.in_review = "in_review"
review_value ReviewState.approved = "approved"
review_value ReviewState.changes_requested = "changes_requested"
review_value ReviewState.human_reviewed = "human_reviewed"
review_value ReviewState.accepted = "accepted"

pub record ReviewRef : Type 0 where
  pub state : ReviewState
  pub notes : String

pub data SourceKind : Type 0 where
  paper book survey lecture_note website internal_note other : SourceKind

pub record SourceMetadata : Type 0 where
  pub kind : SourceKind
  pub title : String
  pub authors : List String
  pub year : Option ℕ
  pub doi : String
  pub arxiv : String
  pub url : String
  pub theorem_number : String
  pub page : String
  pub notes : String

pub data FormalSystem : Type 0 where
  lean4 : FormalSystem

pub data DeclarationKind : Type 0 where
  definition theorem lemma instance_of structure other : DeclarationKind

pub data LinkStatus : Type 0 where
  planned linked checked broken deprecated : LinkStatus

pub data CheckMode : Type 0 where
  external_library_ref local_file : CheckMode

pub record FormalizationRef : Type 0 where
  pub id : String
  pub system : FormalSystem
  pub library : String
  pub library_ref : String
  pub import_path : String
  pub symbol : String
  pub declaration_kind : DeclarationKind
  pub status : LinkStatus
  pub check_mode : CheckMode
  pub expected_type : String
  pub notes : String

pub data AlignmentStatus : Type 0 where
  unreviewed requested human_reviewed rejected : AlignmentStatus

pub record AlignmentReview : Type 0 where
  pub status : AlignmentStatus
  pub reviewer : String
  pub reviewed_at : Option Timestamp
  pub convention_notes : List String
  pub limitations : String

pub data PolicyLevel : Type 0 where
  source_reviewed source_reviewed_with_formal_link machine_checked lean_required : PolicyLevel

pub record VerificationPolicy : Type 0 where
  pub level : PolicyLevel
  pub require_formal_link : Bool
  pub require_lean_check : Bool
  pub require_alignment_review : Bool

pub data RiskLevel : Type 0 where
  low medium high : RiskLevel

pub record Risk : Type 0 where
  pub level : RiskLevel
  pub notes : String

pub data FailureOrigin : Type 0 where
  human agent provider verifier imported_bundle : FailureOrigin

unfoldable pub origin_value : FailureOrigin → String
origin_value human = "human"
origin_value agent = "agent"
origin_value provider = "provider"
origin_value verifier = "verifier"
origin_value imported_bundle = "imported_bundle"

pub data AttemptKind : Type 0 where
  proof_attempt reduction_attempt construction_attempt counterexample_search : AttemptKind
  formalization_attempt verifier_attempt retrieval_attempt other : AttemptKind

unfoldable pub attempt_value : AttemptKind → String
attempt_value AttemptKind.proof_attempt = "proof_attempt"
attempt_value AttemptKind.reduction_attempt = "reduction_attempt"
attempt_value AttemptKind.construction_attempt = "construction_attempt"
attempt_value AttemptKind.counterexample_search = "counterexample_search"
attempt_value AttemptKind.formalization_attempt = "formalization_attempt"
attempt_value AttemptKind.verifier_attempt = "verifier_attempt"
attempt_value AttemptKind.retrieval_attempt = "retrieval_attempt"
attempt_value AttemptKind.other = "other"

pub data FailureStatus : Type 0 where
  open_failure superseded invalidated resolved archived : FailureStatus

unfoldable pub failure_value : FailureStatus → String
failure_value open_failure = "open"
failure_value superseded = "superseded"
failure_value invalidated = "invalidated"
failure_value resolved = "resolved"
failure_value archived = "archived"

pub record FailureLogEntry : Type 0 where
  pub failure_id : String
  pub attempted_at : Timestamp
  pub recorded_by : String
  pub origin : FailureOrigin
  pub attempt_kind : AttemptKind
  pub target : String
  pub direction : String
  pub summary : String
  pub failed_because : String
  pub evidence_paths : List String
  pub related_verifier_results : List String
  pub related_counterexample_candidates : List String
  pub next_possible_directions : List String
  pub status : FailureStatus
  pub limitations : String

pub record BaseArtifact : Type 0 where
  pub id : String
  pub type : ArtifactType
  pub title : String
  pub domain : List String
  pub status : ArtifactStatus
  pub created_at : Timestamp
  pub updated_at : Timestamp
  pub authors : List String
  pub depends_on : List String
  pub supersedes : List String
  pub tags : List String
  pub statement : String
  pub evidence : List Evidence
  pub sources : List SourceMetadata
  pub formalizations : List FormalizationRef
  pub alignment : AlignmentReview
  pub verification_policy : VerificationPolicy
  pub review : ReviewRef
  pub risk : Risk
  pub failure_log : List FailureLogEntry
