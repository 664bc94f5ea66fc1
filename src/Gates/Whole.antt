-- ===== src/Gates/Whole.antt =====
-- cosheaf/gates/gatekeeper.py: `run_gatekeeper` with the metadata gates that it calls.
use tcs_cosheaf.Base.{List, ◌≡◌, In, true, some}
use tcs_cosheaf.Core.Artifact.{BaseArtifact, Evidence}
use tcs_cosheaf.Storage.{LoadedRecord, as_artifact}
use tcs_cosheaf.Gates.Failure.{ValidationFailure}
use tcs_cosheaf.Gates.StatusPath.{FileSystem}
use tcs_cosheaf.Gates.SourceMetadata.{WorkspacePolicy}
use tcs_cosheaf.Gates.Gatekeeper.{VerificationResult, GateVerdict, Checklist}
use tcs_cosheaf.Gates.Report.{GateInputs, run_gatekeeper}
use tcs_cosheaf.Gates.Verdict.{run_gatekeeper-pass_iff}
use tcs_cosheaf.Gates.FormalLink.{ManifestLookup, validate_formal_link_policy, link_findings}
use tcs_cosheaf.Gates.FormalRules.{IsLinked, validate_formal_link_policy_iff}
use tcs_cosheaf.Gates.Reproducible.{is_executable, reproducibility_findings}
use tcs_cosheaf.Gates.ReproducibleRules.{IsReproducible, reproducibility_failures_iff}

-- The inputs of the ten gates, for the records, the verifier results and the manifest.
unfoldable pub gate_inputs :
    List ValidationFailure
    → List LoadedRecord
    → FileSystem
    → List VerificationResult
    → Checklist
    → WorkspacePolicy
    → ManifestLookup
    → GateInputs
unfolding reproducibility_findings link_findings validate_formal_link_policy
gate_inputs schema_failures records files results checklist policy lookup = record {
  schema_failures = schema_failures;
  records = records;
  files = files;
  verification_results = results;
  reproducibility = reproducibility_findings results records;
  checklist = checklist;
  policy = policy;
  formal_links = link_findings (validate_formal_link_policy lookup results records);
}

-- A run that passes has found executable evidence of every loaded artifact reproducible, and every
-- loaded artifact linked as its verification policy asks.
pub gate_inputs-pass :
    (schema_failures : List ValidationFailure) (records : List LoadedRecord) (files : FileSystem)
    (results : List VerificationResult) (checklist : Checklist) (policy : WorkspacePolicy)
    (lookup : ManifestLookup)
    → (run_gatekeeper
        (gate_inputs schema_failures records files results checklist policy lookup)).verdict
      ≡ GateVerdict.pass
    → (loaded : LoadedRecord) (a : BaseArtifact) → In loaded records
    → as_artifact loaded ≡ some a
    → IsLinked lookup results a
      × ((evidence : Evidence)
          → In evidence a.evidence
          → is_executable evidence ≡ true
          → IsReproducible results a evidence)
unfolding gate_inputs reproducibility_findings link_findings
gate_inputs-pass schema_failures records files results checklist policy lookup h loaded a m e =
    let clean =
      (run_gatekeeper-pass_iff
          (gate_inputs schema_failures records files results checklist policy lookup)).0
        h in
    (
      (validate_formal_link_policy_iff lookup results records).0 clean.formal_links loaded a m e,
      λ evidence n p.
          (reproducibility_failures_iff results records).0 clean.reproducible loaded a evidence m e
            n p,
    )
