-- ===== src/Core/Paths.antt =====
-- cosheaf/core/paths.py: repository paths and where the record of a status is kept.
-- A `ValueError` of the source is `none`.
use tcs_cosheaf.Base.{String, Option, none, some, [], ◌∷◌, concat, join}
use tcs_cosheaf.Core.Status.{
  ArtifactType, definition, claim, theorem, conjecture, proof, proof_attempt, construction,
  algorithm, reduction, counterexample, experiment, verifier, ArtifactStatus, accepted, refuted,
  obsolete, superseded,
}

-- `ARTIFACT_TYPE_DIRECTORIES[artifact_type]`
unfoldable pub artifact_type_directory : ArtifactType → Option String
artifact_type_directory definition = some "definitions"
artifact_type_directory claim = some "claims"
artifact_type_directory theorem = some "theorems"
artifact_type_directory conjecture = some "conjectures"
artifact_type_directory proof = some "proofs"
artifact_type_directory proof_attempt = some "proof_attempts"
artifact_type_directory construction = some "constructions"
artifact_type_directory algorithm = some "algorithms"
artifact_type_directory reduction = some "reductions"
artifact_type_directory counterexample = some "counterexamples"
artifact_type_directory experiment = some "experiments"
artifact_type_directory verifier = some "verifiers"
artifact_type_directory _ = none

abbrev pub yaml_name : String → String
yaml_name artifact_id = concat (artifact_id ∷ ".yaml" ∷ [])

-- `Path("kb") / folder / directory / name`, with no slash in the name.
abbrev pub in_directory : String → String → Option String → Option String
in_directory folder artifact_id none = none
in_directory folder artifact_id (some directory) =
    some (join "/" ("kb" ∷ folder ∷ directory ∷ yaml_name artifact_id ∷ []))

unfoldable pub lifecycle_artifact_path : ArtifactType → ArtifactStatus → String → Option String
unfolding artifact_type_directory
lifecycle_artifact_path t accepted artifact_id =
    in_directory "accepted" artifact_id (artifact_type_directory t)
lifecycle_artifact_path t refuted artifact_id =
    some (join "/" ("kb" ∷ "refuted" ∷ yaml_name artifact_id ∷ []))
lifecycle_artifact_path t obsolete artifact_id =
    some (join "/" ("kb" ∷ "obsolete" ∷ yaml_name artifact_id ∷ []))
lifecycle_artifact_path t superseded artifact_id =
    some (join "/" ("kb" ∷ "obsolete" ∷ yaml_name artifact_id ∷ []))
lifecycle_artifact_path t _ artifact_id =
    in_directory "draft" artifact_id (artifact_type_directory t)
