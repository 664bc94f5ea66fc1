-- ===== src/Gates/SourceMetadata.antt =====
-- cosheaf/gates/source_metadata_gate.py: accepted public artifacts cite complete sources.
use tcs_cosheaf.Base.{
  String, ℕ, suc, Bool, true, false, not, ◌&&◌, List, [], ◌∷◌, ◌++◌, Option, none, some,
  if◌then◌else◌, concat, join, sort, blank, is_empty, length, key_order, not_gt, str_eq, any,
  decimal, collect,
}
use tcs_cosheaf.Core.Status.{is_accepted_status}
use tcs_cosheaf.Core.Artifact.{BaseArtifact, SourceMetadata}
use tcs_cosheaf.Storage.{LoadedRecord, per_artifact, record_le}
use tcs_cosheaf.Gates.Failure.{ValidationFailure, sort_failures}
use tcs_cosheaf.Gates.Dependency.{root_is}

-- cosheaf/config/workspace.py: the part of a workspace configuration that the gates read.
pub record WorkspacePolicy : Type 0 where
  pub configured : Bool
  pub accepted_requires_source : Bool

pub data CheckStatus : Type 0 where
  pass fail : CheckStatus

pub record SourceMetadataCheck : Type 0 where
  pub artifact_id : String
  pub source_path : String
  pub kb_root : String
  pub status : CheckStatus
  pub source_count : ℕ
  pub missing_metadata : List String

pub record SourceMetadataResult : Type 0 where
  pub checks : List SourceMetadataCheck
  pub failures : List ValidationFailure
  pub policy_reason : String

unfoldable pub has_citation_locator : SourceMetadata → Bool
unfolding any
has_citation_locator s =
    any (λ t. not (blank t)) (s.doi ∷ s.arxiv ∷ s.url ∷ s.theorem_number ∷ s.page ∷ [])

abbrev absent : Bool → List String → List String
absent test field = if test then concat field ∷ [] else []

abbrev is_none : Option ℕ → Bool
is_none none = true
is_none (some n) = false

-- One round of the loop over the sources.
unfoldable pub missing_in_source : ℕ → SourceMetadata → List String
unfolding has_citation_locator
missing_in_source index s =
    absent (blank s.title) ("source[" ∷ decimal index ∷ "].title" ∷ [])
    ++ (absent (is_empty s.authors) ("source[" ∷ decimal index ∷ "].authors" ∷ [])
        ++ (absent (is_none s.year) ("source[" ∷ decimal index ∷ "].year" ∷ [])
            ++ absent (not (has_citation_locator s))
                ("source[" ∷ decimal index ∷ "].citation_locator" ∷ [])))

unfoldable pub missing_from : ℕ → List SourceMetadata → List String
unfolding missing_in_source
missing_from index [] = []
missing_from index (s ∷ ss) = missing_in_source index s ++ missing_from (suc index) ss

unfoldable pub missing_in_sources : List SourceMetadata → List String
unfolding missing_from
missing_in_sources [] = "sources" ∷ []
missing_in_sources (s ∷ ss) = missing_from 0 (s ∷ ss)

unfoldable pub missing_required_source_metadata : BaseArtifact → List String
unfolding missing_in_sources
missing_required_source_metadata artifact = missing_in_sources artifact.sources

unfoldable pub requires_source_metadata : LoadedRecord → BaseArtifact → Bool
requires_source_metadata loaded artifact =
    root_is "public" loaded.kb_root_name && is_accepted_status artifact.status

abbrev text_or_empty : Option String → String
text_or_empty none = ""
text_or_empty (some s) = s

unfoldable pub source_check : LoadedRecord → BaseArtifact → SourceMetadataCheck
source_check loaded artifact = record {
  artifact_id = artifact.id;
  source_path = loaded.source_path;
  kb_root = text_or_empty loaded.kb_root_name;
  status = if is_empty (missing_required_source_metadata artifact) then pass else fail;
  source_count = length artifact.sources;
  missing_metadata = missing_required_source_metadata artifact;
}

-- The checks that the loop over the records makes.
unfoldable pub source_checks_of : LoadedRecord → BaseArtifact → List SourceMetadataCheck
source_checks_of loaded artifact =
    if requires_source_metadata loaded artifact then source_check loaded artifact ∷ [] else []

-- `missing_metadata == ("sources",)`
abbrev pub no_sources : List String → Bool
no_sources (s ∷ []) = str_eq s "sources"
no_sources _ = false

unfoldable pub failure_from_check : SourceMetadataCheck → ValidationFailure
failure_from_check check = record {
  gate = "source metadata";
  source_path = check.source_path;
  artifact_id = check.artifact_id;
  message =
      if no_sources check.missing_metadata
      then "accepted public artifact requires source metadata"
      else concat ("incomplete source metadata: " ∷ join ", " check.missing_metadata ∷ []);
}

-- A check that misses something is a failure.
unfoldable pub failures_of_check : SourceMetadataCheck → List ValidationFailure
unfolding failure_from_check
failures_of_check check =
    if is_empty check.missing_metadata then [] else failure_from_check check ∷ []

unfoldable pub check_le : SourceMetadataCheck → SourceMetadataCheck → Bool
unfolding key_order
check_le a b =
    not_gt (key_order (a.source_path ∷ a.artifact_id ∷ []) (b.source_path ∷ b.artifact_id ∷ []))

abbrev legacy_source_policy_reason : String
legacy_source_policy_reason =
    "Legacy single-root mode has no public KB root; source metadata policy is not enforced."

abbrev disabled_source_policy_reason : String
disabled_source_policy_reason =
    "accepted_requires_source is false; source metadata policy is not enforced."

abbrev unenforced : String → SourceMetadataResult
unenforced reason = record { checks = []; failures = []; policy_reason = reason }

unfoldable pub validate_source_metadata_policy :
    WorkspacePolicy → List LoadedRecord → SourceMetadataResult
validate_source_metadata_policy policy records =
    let checks = collect (per_artifact source_checks_of) (sort record_le records) in
    if not policy.configured
    then unenforced legacy_source_policy_reason
    else if not policy.accepted_requires_source
    then unenforced disabled_source_policy_reason
    else record {
      checks = sort check_le checks;
      failures = sort_failures (collect failures_of_check checks);
      policy_reason = "";
    }
