-- ===== src/Examples/Samples.antt =====
-- The records that the examples run on: an accepted public claim with a source, a reviewed draft
-- that depends on it, and an issue about the draft.
use tcs_cosheaf.Base.{true, false, List, [], ◌∷◌, none, some}
use tcs_cosheaf.Core.Status.{ArtifactType, ArtifactStatus}
use tcs_cosheaf.Core.Artifact.{
  Timestamp, ReviewState, SourceKind, SourceMetadata, AlignmentStatus, PolicyLevel, RiskLevel,
  FailureOrigin, AttemptKind, FailureLogEntry, BaseArtifact, open_failure,
}
use tcs_cosheaf.Storage.{LoadedRecord, IssueRecord, artifact, issue, open_issue, private_scope}
use tcs_cosheaf.Gates.StatusPath.{FileSystem}
use tcs_cosheaf.Gates.SourceMetadata.{WorkspacePolicy}
use tcs_cosheaf.Gates.Gatekeeper.{VerificationResult, VerificationStatus, not_provided}
use tcs_cosheaf.Gates.Report.{Findings, GateInputs, run_gatekeeper}
use tcs_cosheaf.Promotion.Readiness.{PromotionInputs}

abbrev noon : Timestamp
noon = record { instant = 12; aware = true }

abbrev evening : Timestamp
evening = record { instant = 18; aware = true }

abbrev book : SourceMetadata
book = record {
  kind = SourceKind.book;
  title = "Sheaves";
  authors = "A. Author" ∷ [];
  year = some 1999;
  doi = "10.1000/1";
  arxiv = "";
  url = "";
  theorem_number = "3.1";
  page = "";
  notes = "";
}

abbrev pub failed_attempt : FailureLogEntry
failed_attempt = record {
  failure_id = "failure.example.0001";
  attempted_at = noon;
  recorded_by = "agent";
  origin = FailureOrigin.agent;
  attempt_kind = AttemptKind.proof_attempt;
  target = "claim.example.0002";
  direction = "induction";
  summary = "a try";
  failed_because = "no base case";
  evidence_paths = "notes/attempt.md" ∷ [];
  related_verifier_results = [];
  related_counterexample_candidates = [];
  next_possible_directions = "duality" ∷ [];
  status = open_failure;
  limitations = "local only";
}

abbrev pub known_claim : BaseArtifact
known_claim = record {
  id = "claim.example.0001";
  type = ArtifactType.claim;
  title = "A known claim";
  domain = "topology" ∷ [];
  status = ArtifactStatus.accepted;
  created_at = noon;
  updated_at = evening;
  authors = "A. Author" ∷ [];
  depends_on = [];
  supersedes = [];
  tags = [];
  statement = "It holds.";
  evidence = [];
  sources = book ∷ [];
  formalizations = [];
  alignment = record {
    status = AlignmentStatus.unreviewed;
    reviewer = "";
    reviewed_at = none;
    convention_notes = [];
    limitations = "";
  };
  verification_policy = record {
    level = PolicyLevel.source_reviewed;
    require_formal_link = false;
    require_lean_check = false;
    require_alignment_review = false;
  };
  review = record { state = ReviewState.accepted; notes = "" };
  risk = record { level = RiskLevel.low; notes = "" };
  failure_log = [];
}

abbrev pub new_claim : BaseArtifact
new_claim = record known_claim {
  id = "claim.example.0002";
  title = "A new claim";
  status = ArtifactStatus.human_reviewed;
  depends_on = "claim.example.0001" ∷ "external:lemma-7" ∷ [];
  evidence = record { kind = "note"; path = "notes/proof.md"; summary = "" } ∷ [];
  review = record { state = ReviewState.human_reviewed; notes = "" };
  failure_log = failed_attempt ∷ [];
}

abbrev pub known_record : LoadedRecord
known_record = record {
  source_path = "kb/accepted/claims/claim.example.0001.yaml";
  model = artifact known_claim;
  kb_root_name = some "public";
  kb_root_readonly = false;
  kb_relative_path = none;
}

abbrev pub new_record : LoadedRecord
new_record = record {
  source_path = "kb/draft/claims/claim.example.0002.yaml";
  model = artifact new_claim;
  kb_root_name = some "public";
  kb_root_readonly = false;
  kb_relative_path = none;
}

abbrev pub new_issue : IssueRecord
new_issue = record {
  id = "issue.example.0001";
  title = "Prove it";
  status = open_issue;
  summary = "";
  created_at = noon;
  updated_at = noon;
  authors = [];
  severity = RiskLevel.medium;
  labels = [];
  related_artifacts = "claim.example.0002" ∷ [];
  related_sources = [];
  parent_issue = none;
  external_links = [];
  scope = private_scope;
  close_reason = none;
}

abbrev issue_loaded : LoadedRecord
issue_loaded = record {
  source_path = "issues/open/issue.example.0001.yaml";
  model = issue new_issue;
  kb_root_name = none;
  kb_root_readonly = false;
  kb_relative_path = none;
}

abbrev pub all_records : List LoadedRecord
all_records = known_record ∷ new_record ∷ issue_loaded ∷ []

-- Every local path lies in the repository and exists.
abbrev pub full_disk : FileSystem
full_disk = record { inside_root = λ p. true; exists = λ p. true }

abbrev pub strict_policy : WorkspacePolicy
strict_policy = record { configured = true; accepted_requires_source = true }

abbrev nothing_found : Findings
nothing_found = record { failures = []; warnings = []; applicable_count = 0 }

abbrev pub passed : VerificationResult
passed = record {
  verifier = "lean";
  artifact_id = "claim.example.0002";
  status = VerificationStatus.pass;
  command = some ("lean" ∷ []);
  cwd = some ".";
  has_exit_code = true;
  stdout_path = some "out.txt";
  stderr_path = some "err.txt";
  evidence_paths = [];
  has_timeout = true;
  input_paths = "proof.lean" ∷ [];
  output_paths = "proof.olean" ∷ [];
  tool_name = some "lean";
  seed = none;
  message = "ok";
}

abbrev pub sample_run : GateInputs
sample_run = record {
  schema_failures = [];
  records = all_records;
  files = full_disk;
  verification_results = passed ∷ [];
  reproducibility = nothing_found;
  checklist = not_provided;
  policy = strict_policy;
  formal_links = nothing_found;
}

abbrev pub sample_target : PromotionInputs
sample_target = record {
  records = all_records;
  gatekeeper = run_gatekeeper sample_run;
  policy = strict_policy;
  evidence = [];
  plans = [];
}
