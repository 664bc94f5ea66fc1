-- ===== src/Examples/CoreRuns.antt =====
-- Runs of the validators of cosheaf/core.
use tcs_cosheaf.Base.{
  true, List, ◌∷◌, ◌≡◌, refl, some, ok, err, All, In, codes, any, ℕ, join, concat, strip,
  map_result,
}
use tcs_cosheaf.Core.Status.{ArtifactType, ArtifactStatus, status_in, expected_status_for_path}
use tcs_cosheaf.Core.Paths.{lifecycle_artifact_path}
use tcs_cosheaf.Core.PathLaws.{admits, expected-lifecycle}
use tcs_cosheaf.Core.Ids.{
  id_message, validate_artifact_id, validate_artifact_id_chars, is_id_char, is_letter,
}
use tcs_cosheaf.Core.Validate.{
  validate_timestamp, validate_dependency_ref, validate_source, validate_alignment, validate_policy,
  validate_failure_entry, required_text, validate_target, validate_failure_log_path,
  validate_artifact, has_drive, targets_accepted,
}
use tcs_cosheaf.Core.WellFormed.{
  IsSafePath, IsWellFormed, failure_log_path_safe, validate_artifact-IsWellFormed,
}
use tcs_cosheaf.Core.PurePath.{windows_as_posix, is_rooted, path_parts}
use tcs_cosheaf.Examples.Samples.{new_claim}

id_accepted : validate_artifact_id "claim.example.k-3.0001" ≡ ok "claim.example.k-3.0001"
unfolding validate_artifact_id
id_accepted = refl

id_refused : validate_artifact_id "claim" ≡ err id_message
unfolding validate_artifact_id
id_refused = refl

lifecycle_run :
    lifecycle_artifact_path ArtifactType.claim ArtifactStatus.accepted "claim.example.0001"
    ≡ some "kb/accepted/claims/claim.example.0001.yaml"
unfolding lifecycle_artifact_path join concat
lifecycle_run = refl

expected-lifecycle_example :
    status_in ArtifactStatus.draft
      (expected_status_for_path "kb/accepted/claims/claim.example.0001.yaml")
    ≡ admits ArtifactStatus.accepted ArtifactStatus.draft
expected-lifecycle_example =
    expected-lifecycle ArtifactType.claim ArtifactStatus.accepted "claim.example.0001"
      ArtifactStatus.draft lifecycle_run

validate_artifact_id_chars_example :
    All (λ c. is_id_char c ≡ true) (codes "claim.example.k-3.0001")
    × ((c : ℕ) × (rest : List ℕ) × (codes "claim.example.k-3.0001" ≡ c ∷ rest)
        × (is_letter c ≡ true))
    × In b'.' (codes "claim.example.k-3.0001")
validate_artifact_id_chars_example = validate_artifact_id_chars "claim.example.k-3.0001" id_accepted

path_run : validate_failure_log_path " notes//attempt.md " ≡ ok "notes/attempt.md"
unfolding validate_failure_log_path windows_as_posix strip is_rooted has_drive any path_parts
    targets_accepted join
path_run = refl

failure_log_path_safe_example : IsSafePath "notes/attempt.md"
failure_log_path_safe_example =
    failure_log_path_safe " notes//attempt.md " "notes/attempt.md" path_run

artifact_run : validate_artifact new_claim ≡ ok new_claim
unfolding validate_artifact validate_artifact_id validate_timestamp map_result
    validate_dependency_ref validate_source validate_alignment validate_policy
    validate_failure_entry required_text validate_target validate_failure_log_path windows_as_posix
    strip is_rooted has_drive any path_parts targets_accepted join
artifact_run = refl

validate_artifact-IsWellFormed_example : IsWellFormed new_claim
validate_artifact-IsWellFormed_example =
    validate_artifact-IsWellFormed new_claim new_claim artifact_run
