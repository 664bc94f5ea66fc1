-- ===== src/Gates/StatusPath.antt =====
-- cosheaf/gates/status_gate.py: a record's status fits its path, and its evidence is there.
-- The file system is a parameter: which resolved paths lie in the repository, and which exist.
use tcs_cosheaf.Base.{
  String, Bool, not, ◌||◌, List, [], ◌∷◌, none, some, if◌then◌else◌, collect, concat, join, sort,
  map, codes, codes_eq, lower, starts_with, strip, blank,
}
use tcs_cosheaf.Core.Status.{ArtifactStatus, status_value, status_in, expected_status_for_path}
use tcs_cosheaf.Core.Artifact.{BaseArtifact, Evidence}
use tcs_cosheaf.Storage.{LoadedRecord, per_artifact}
use tcs_cosheaf.Gates.Failure.{ValidationFailure}
use tcs_cosheaf.Gates.Dependency.{text_le}

-- `_status_path_for_loaded_record`
unfoldable pub status_path : LoadedRecord → String
status_path loaded = elim loaded.kb_relative_path [
  | none ↦ loaded.source_path
  | some relative ↦ if blank relative then "kb" else concat ("kb/" ∷ relative ∷ [])
]

unfoldable pub format_statuses : List ArtifactStatus → String
format_statuses statuses = join ", " (sort text_le (map status_value statuses))

abbrev failure : String → LoadedRecord → BaseArtifact → List String → ValidationFailure
failure gate loaded artifact message = record {
  gate = gate;
  source_path = loaded.source_path;
  artifact_id = artifact.id;
  message = concat message;
}

unfoldable pub status_failures : LoadedRecord → BaseArtifact → List ValidationFailure
status_failures loaded artifact =
    let allowed = expected_status_for_path (status_path loaded) in
    if status_in artifact.status allowed
    then []
    else failure "status/path" loaded artifact (
        "status/path mismatch: status "
        ∷ status_value artifact.status
        ∷ " is not allowed here; expected one of "
        ∷ format_statuses allowed
        ∷ [])
      ∷ []

unfoldable pub validate_status_paths : List LoadedRecord → List ValidationFailure
validate_status_paths records = collect (per_artifact status_failures) records

unfoldable pub is_external_evidence : Evidence → Bool
unfolding codes_eq lower starts_with strip
is_external_evidence evidence =
    codes_eq (lower (strip evidence.kind)) (codes "external")
    || starts_with (lower (strip evidence.path)) (codes "external:")

-- What the gate asks of the file system about a path, resolved against the repository's root.
pub record FileSystem : Type 0 where
  pub inside_root : String → Bool
  pub exists : String → Bool

module _ (files : FileSystem) where
  unfoldable pub validate_one_evidence_path :
      LoadedRecord → BaseArtifact → Evidence → List ValidationFailure
  unfolding strip
  validate_one_evidence_path loaded artifact evidence =
      if blank (strip evidence.path)
      then failure "evidence path" loaded artifact ("missing evidence path: <empty>" ∷ []) ∷ []
      else if not (files.inside_root evidence.path)
      then failure "evidence path" loaded artifact
          ("evidence path escapes repository: " ∷ evidence.path ∷ [])
        ∷ []
      else if files.exists evidence.path
      then []
      else failure "evidence path" loaded artifact ("missing evidence path: " ∷ evidence.path ∷ [])
        ∷ []

  -- One round of the loop over `record.evidence`.
  unfoldable pub evidence_failures : LoadedRecord → BaseArtifact → Evidence → List ValidationFailure
  unfolding validate_one_evidence_path
  evidence_failures loaded artifact evidence =
      if is_external_evidence evidence
      then []
      else validate_one_evidence_path loaded artifact evidence

  unfoldable pub validate_evidence_paths : List LoadedRecord → List ValidationFailure
  validate_evidence_paths records =
      collect
        (per_artifact
          (λ loaded artifact. collect (evidence_failures loaded artifact) artifact.evidence))
        records
