-- ===== src/Examples/MetadataRuns.antt =====
-- Runs of the formal-link and reproducibility gates.
use tcs_cosheaf.Gates.Failure.{sort_failures}
use tcs_cosheaf.Gates.SourceMetadata.{
  failures_of_check, has_citation_locator, missing_from, missing_in_source, missing_in_sources,
  missing_required_source_metadata, requires_source_metadata, source_check, source_checks_of,
  validate_source_metadata_policy,
}
use tcs_cosheaf.Core.PurePath.{path_parts}
use tcs_cosheaf.Core.Validate.{is_external_dependency_ref}
use tcs_cosheaf.Core.Status.{
  expected_status_for_path, is_accepted_status, is_preaccepted_status, status_in,
}
use tcs_cosheaf.Gates.StatusPath.{
  evidence_failures, is_external_evidence, status_failures, status_path, validate_evidence_paths,
  validate_one_evidence_path, validate_status_paths,
}
use tcs_cosheaf.Gates.Dependency.{
  dependency_failures, duplicate_failures, get_by_id, layer_failures, path_failures, paths_of,
  public_depends_on_private, record_failures, validate_dependencies, validate_id_uniqueness,
}
use tcs_cosheaf.Base.{true, [], ◌∷◌, ◌≡◌, ◌↔◌, refl, inl, some, In, any, collect, keep, sort}
use tcs_cosheaf.Core.Artifact.{BaseArtifact, Evidence}
use tcs_cosheaf.Storage.{LoadedRecord, as_artifact, per_artifact, record_id, record_le}
use tcs_cosheaf.Gates.Gatekeeper.{
  GateVerdict, not_provided, gate_from_failures, pr_checklist_gate, source_metadata_gate,
}
use tcs_cosheaf.Gates.Report.{
  run_gatekeeper, build_report, formal_link_gate, is_blocking_status, is_skipped_status,
  judged_verifier_gate, reproducibility_metadata_gate, run_gates, verifier_gate,
}
use tcs_cosheaf.Gates.FormalLink.{ManifestLookup, validate_formal_link_policy, link_findings}
use tcs_cosheaf.Gates.FormalRules.{IsLinked, validate_formal_link_policy_iff}
use tcs_cosheaf.Gates.Reproducible.{
  is_executable, reproducibility_failures, reproducibility_findings,
}
use tcs_cosheaf.Gates.ReproducibleRules.{IsReproducible, reproducibility_failures_iff}
use tcs_cosheaf.Gates.Whole.{gate_inputs, gate_inputs-pass}
use tcs_cosheaf.Examples.Samples.{
  known_claim, known_record, all_records, full_disk, strict_policy, passed,
}

abbrev one_library : ManifestLookup
one_library = record { manifest = some ("mathlib-main" ∷ []); issue = "" }

validate_formal_link_policy_iff_example :
    ((validate_formal_link_policy one_library (passed ∷ []) all_records).failures ≡ []) ↔ (
      (loaded : LoadedRecord) (a : BaseArtifact)
      → In loaded all_records
      → as_artifact loaded ≡ some a
      → IsLinked one_library (passed ∷ []) a)
validate_formal_link_policy_iff_example =
    validate_formal_link_policy_iff one_library (passed ∷ []) all_records

reproducibility_failures_iff_example : (reproducibility_failures (passed ∷ []) all_records ≡ []) ↔ (
    (loaded : LoadedRecord) (a : BaseArtifact) (evidence : Evidence)
    → In loaded all_records
    → as_artifact loaded ≡ some a
    → In evidence a.evidence
    → is_executable evidence ≡ true
    → IsReproducible (passed ∷ []) a evidence)
reproducibility_failures_iff_example = reproducibility_failures_iff (passed ∷ []) all_records

whole_run :
    (run_gatekeeper (
      gate_inputs [] all_records full_disk
        (passed ∷ [])
        not_provided
        strict_policy
        one_library)).verdict
    ≡ GateVerdict.pass
unfolding run_gatekeeper run_gates build_report gate_from_failures validate_id_uniqueness sort
    record_id duplicate_failures path_failures paths_of validate_status_paths per_artifact
    status_failures status_in expected_status_for_path status_path validate_dependencies record_le
    record_failures dependency_failures layer_failures get_by_id is_external_dependency_ref
    public_depends_on_private is_accepted_status is_preaccepted_status path_parts
    validate_evidence_paths evidence_failures validate_one_evidence_path is_external_evidence
    collect keep any verifier_gate judged_verifier_gate is_blocking_status is_skipped_status
    reproducibility_metadata_gate pr_checklist_gate source_metadata_gate
    validate_source_metadata_policy source_checks_of requires_source_metadata source_check
    missing_required_source_metadata missing_in_sources missing_from missing_in_source
    has_citation_locator failures_of_check sort_failures formal_link_gate gate_inputs
    reproducibility_findings validate_formal_link_policy link_findings
whole_run = refl

gate_inputs-pass_example :
    IsLinked one_library (passed ∷ []) known_claim
    × ((evidence : Evidence)
        → In evidence known_claim.evidence
        → is_executable evidence ≡ true
        → IsReproducible (passed ∷ []) known_claim evidence)
gate_inputs-pass_example =
    gate_inputs-pass [] all_records full_disk (passed ∷ []) not_provided strict_policy one_library
      whole_run known_record known_claim (inl refl) refl
