-- ===== src/Examples/GateRuns.antt =====
-- Runs of the gates.
use tcs_cosheaf.Base.{
  ◌∷◌, length, concat, join, some_inj, inr, inl, subst, String, true, [], ◌≡◌, ◌↔◌, ◌+◌, refl, some,
  In, sort, keep, any, collect,
}
use tcs_cosheaf.Core.PurePath.{path_parts}
use tcs_cosheaf.Core.Validate.{is_external_dependency_ref}
use tcs_cosheaf.Core.Status.{
  ArtifactStatus, accepted, accepted, is_accepted_status, is_preaccepted_status, status_in,
  expected_status_for_path,
}
use tcs_cosheaf.Core.Artifact.{BaseArtifact, Evidence}
use tcs_cosheaf.Core.Paths.{lifecycle_artifact_path}
use tcs_cosheaf.Core.PathLaws.{admits}
use tcs_cosheaf.Storage.{LoadedRecord, as_artifact, record_id, per_artifact, record_le}
use tcs_cosheaf.Gates.Dependency.{
  record_failures, dependency_failures, layer_failures, get_by_id, public_depends_on_private,
  duplicate_failures, path_failures, paths_of, validate_id_uniqueness, validate_dependencies,
}
use tcs_cosheaf.Gates.DependencyLaws.{IsUnique, validate_id_uniqueness_iff}
use tcs_cosheaf.Gates.DependencyRules.{IsAllowed, validate_dependencies_iff}
use tcs_cosheaf.Gates.StatusPath.{
  status_failures, evidence_failures, validate_one_evidence_path, is_external_evidence, status_path,
  validate_status_paths, validate_evidence_paths,
}
use tcs_cosheaf.Gates.SourceMetadata.{
  source_checks_of, requires_source_metadata, source_check, missing_in_sources, missing_from,
  missing_in_source, has_citation_locator, failures_of_check, missing_required_source_metadata,
  validate_source_metadata_policy,
}
use tcs_cosheaf.Gates.RecordRules.{
  IsKept, validate_status_paths-lifecycle, IsPresent, validate_evidence_paths_iff, IsSourced,
  missing_required_source_metadata_iff, validate_source_metadata_policy_iff,
}
use tcs_cosheaf.Gates.Gatekeeper.{
  GateStatus, GateVerdict, gate_from_failures, pr_checklist_gate, source_metadata_gate,
}
use tcs_cosheaf.Gates.Failure.{sort_failures}
use tcs_cosheaf.Gates.Report.{
  run_gates, build_report, verifier_gate, judged_verifier_gate, is_blocking_status,
  is_skipped_status, reproducibility_metadata_gate, formal_link_gate, run_gatekeeper,
}
use tcs_cosheaf.Gates.Verdict.{IsClean, tally, run_gatekeeper-pass_iff, run_gatekeeper-counts}
use tcs_cosheaf.Examples.Samples.{
  known_claim, known_record, all_records, full_disk, strict_policy, sample_run,
}

uniqueness_run : validate_id_uniqueness all_records ≡ []
unfolding validate_id_uniqueness sort record_id duplicate_failures path_failures paths_of
uniqueness_run = refl

verdict_run : (run_gatekeeper sample_run).verdict ≡ GateVerdict.pass
unfolding run_gatekeeper run_gates build_report gate_from_failures validate_id_uniqueness sort
    record_id duplicate_failures path_failures paths_of validate_status_paths per_artifact
    status_failures status_in expected_status_for_path status_path validate_dependencies record_le
    record_failures dependency_failures layer_failures get_by_id is_external_dependency_ref
    public_depends_on_private is_accepted_status is_preaccepted_status path_parts
    validate_evidence_paths evidence_failures validate_one_evidence_path is_external_evidence
    collect keep any verifier_gate judged_verifier_gate is_blocking_status is_skipped_status
    reproducibility_metadata_gate pr_checklist_gate source_metadata_gate
    validate_source_metadata_policy source_checks_of requires_source_metadata source_check
    missing_required_source_metadata missing_in_sources missing_from missing_in_source
    has_citation_locator failures_of_check sort_failures formal_link_gate
verdict_run = refl

validate_id_uniqueness_iff_example :
    (validate_id_uniqueness all_records ≡ []) ↔ IsUnique all_records
validate_id_uniqueness_iff_example = validate_id_uniqueness_iff all_records

validate_dependencies_iff_example : (validate_dependencies all_records ≡ []) ↔ (
    (loaded : LoadedRecord) (a : BaseArtifact) (d : String)
    → In loaded all_records
    → as_artifact loaded ≡ some a
    → In d a.depends_on
    → IsAllowed all_records loaded a d)
validate_dependencies_iff_example =
    validate_dependencies_iff all_records
      ((validate_id_uniqueness_iff all_records).0 uniqueness_run)

-- The known claim in a root of the knowledge base.
abbrev rooted_record : LoadedRecord
rooted_record = record known_record {
  source_path = "roots/public/accepted/claims/claim.example.0001.yaml";
  kb_relative_path = some "accepted/claims/claim.example.0001.yaml";
}

abbrev among_accepted : LoadedRecord → ArtifactStatus
among_accepted loaded = accepted

rooted_place : IsKept rooted_record known_claim accepted
unfolding lifecycle_artifact_path join concat
rooted_place = (
  "kb/accepted/claims/claim.example.0001.yaml",
  refl,
  inr ("accepted/claims/claim.example.0001.yaml", refl, refl, refl),
)

all-IsKept :
    (loaded : LoadedRecord) (a : BaseArtifact)
    → In loaded (rooted_record ∷ [])
    → as_artifact loaded ≡ some a
    → IsKept loaded a (among_accepted loaded)
all-IsKept loaded a (inl same) e =
    subst (λ l. as_artifact l ≡ some a → IsKept l a accepted) same
      (λ f. subst (λ b. IsKept rooted_record b accepted) (some_inj f) rooted_place) e
all-IsKept loaded a (inr m) e = elim m [ ]

validate_status_paths-lifecycle_example : (validate_status_paths (rooted_record ∷ []) ≡ []) ↔ (
    (loaded : LoadedRecord) (a : BaseArtifact)
    → In loaded (rooted_record ∷ [])
    → as_artifact loaded ≡ some a
    → admits (among_accepted loaded) a.status ≡ true)
validate_status_paths-lifecycle_example =
    validate_status_paths-lifecycle (rooted_record ∷ []) among_accepted all-IsKept

validate_evidence_paths_iff_example : (validate_evidence_paths full_disk all_records ≡ []) ↔ (
    (loaded : LoadedRecord) (a : BaseArtifact) (e : Evidence)
    → In loaded all_records
    → as_artifact loaded ≡ some a
    → In e a.evidence
    → IsPresent full_disk e)
validate_evidence_paths_iff_example = validate_evidence_paths_iff full_disk all_records

missing_required_source_metadata_iff_example :
    (missing_required_source_metadata known_claim ≡ []) ↔ IsSourced known_claim
missing_required_source_metadata_iff_example = missing_required_source_metadata_iff known_claim

validate_source_metadata_policy_iff_example :
    ((validate_source_metadata_policy strict_policy all_records).failures ≡ []) ↔ (
      (loaded : LoadedRecord) (a : BaseArtifact)
      → In loaded all_records
      → as_artifact loaded ≡ some a
      → loaded.kb_root_name ≡ some "public"
      → a.status ≡ accepted
      → IsSourced a)
validate_source_metadata_policy_iff_example =
    validate_source_metadata_policy_iff strict_policy all_records refl refl

run_gatekeeper-pass_iff_example :
    ((run_gatekeeper sample_run).verdict ≡ GateVerdict.pass) ↔ IsClean sample_run
run_gatekeeper-pass_iff_example = run_gatekeeper-pass_iff sample_run

run_gatekeeper-counts_example :
    let r = run_gatekeeper sample_run in
    (r.gates_total ≡ 10)
    × (length r.gates ≡ 10)
    × (r.gates_passed ≡ tally GateStatus.pass r.gates)
    × (r.gates_failed ≡ tally GateStatus.fail r.gates)
    × (r.gates_skipped ≡ tally GateStatus.skipped r.gates)
    × (r.gates_not_applicable ≡ tally GateStatus.not_applicable r.gates)
    × (r.gates_passed + r.gates_failed + r.gates_skipped + r.gates_not_applicable ≡ r.gates_total)
    × ((r.gates_failed ≡ 0) ↔ (r.verdict ≡ GateVerdict.pass))
run_gatekeeper-counts_example = run_gatekeeper-counts sample_run
