-- ===== src/Gates/Reproducible.antt =====
-- cosheaf/gates/reproducibility_gate.py.
use tcs_cosheaf.Base.{
  String, Bool, true, false, not, ◌&&◌, ◌||◌, List, [], ◌∷◌, ◌++◌, Option, none, some,
  if◌then◌else◌, any, keep, collect, map, blank, strip, lower, codes, has_part, str_eq, concat,
  join, sort, not_gt, key_order, is_empty, length,
}
use tcs_cosheaf.Core.Status.{type_value}
use tcs_cosheaf.Core.Artifact.{BaseArtifact, Evidence}
use tcs_cosheaf.Storage.{LoadedRecord, record_id, per_artifact}
use tcs_cosheaf.Gates.Failure.{ValidationFailure, sort_failures}
use tcs_cosheaf.Gates.Dependency.{distinct, text_le}
use tcs_cosheaf.Gates.Gatekeeper.{VerificationResult, VerificationStatus}
use tcs_cosheaf.Gates.Report.{Findings, is_skipped_status}

pub data ReproducibilityStatus : Type 0 where
  pass fail not_applicable : ReproducibilityStatus

-- The fields of a verifier result that may be required.
pub data Field : Type 0 where
  command cwd timeout_seconds input_paths stdout_path stderr_path output_paths tool_name : Field
  evidence_paths exit_code : Field

unfoldable pub field_name : Field → String
field_name command = "command"
field_name cwd = "cwd"
field_name timeout_seconds = "timeout_seconds"
field_name input_paths = "input_paths"
field_name stdout_path = "stdout_path"
field_name stderr_path = "stderr_path"
field_name output_paths = "output_paths"
field_name tool_name = "tool_name"
field_name evidence_paths = "evidence_paths"
field_name exit_code = "exit_code"

abbrev pub required_executed_metadata : List Field
required_executed_metadata =
    command ∷ cwd ∷ timeout_seconds ∷ input_paths ∷ stdout_path ∷ stderr_path ∷ output_paths
    ∷ tool_name ∷ []

abbrev pub required_skipped_metadata : List Field
required_skipped_metadata = command ∷ cwd ∷ evidence_paths ∷ tool_name ∷ []

abbrev executable_evidence_kinds : List String
executable_evidence_kinds =
    "python_checker" ∷ "sat" ∷ "sat_solver" ∷ "sat_checker" ∷ "smt" ∷ "smt_solver" ∷ "smt_checker"
    ∷ "lean" ∷ "lean4" ∷ "lean_checker" ∷ "lean_proof" ∷ []

unfoldable pub is_executable : Evidence → Bool
unfolding any
is_executable evidence = any (λ k. str_eq evidence.kind k) executable_evidence_kinds

abbrev no_text : Option String → Bool
unfolding strip
no_text none = true
no_text (some text) = blank (strip text)

abbrev no_items : Option (List String) → Bool
no_items none = true
no_items (some items) = is_empty items

-- A field that is `None`, an empty tuple or a blank text.
unfoldable pub lacks : VerificationResult → Field → Bool
unfolding no_text
lacks r command = no_items r.command
lacks r cwd = no_text r.cwd
lacks r timeout_seconds = not r.has_timeout
lacks r input_paths = is_empty r.input_paths
lacks r stdout_path = no_text r.stdout_path
lacks r stderr_path = no_text r.stderr_path
lacks r output_paths = is_empty r.output_paths
lacks r tool_name = no_text r.tool_name
lacks r evidence_paths = is_empty r.evidence_paths
lacks r exit_code = not r.has_exit_code

-- `result.status in {PASS, FAIL}`
abbrev pub has_finished : VerificationStatus → Bool
has_finished VerificationStatus.pass = true
has_finished VerificationStatus.fail = true
has_finished _ = false

-- `_missing_metadata`
unfoldable pub missing_metadata : VerificationResult → List Field → List String
unfolding keep lacks field_name
missing_metadata r required = map field_name (
    keep (lacks r) required
    ++ (if has_finished r.status then keep (lacks r) (exit_code ∷ []) else []))

-- The fields that a result of its status must have.
unfoldable pub required_metadata : VerificationResult → List Field
unfolding is_skipped_status
required_metadata r =
    if is_skipped_status r.status then required_skipped_metadata else required_executed_metadata

abbrev randomness_markers : List String
randomness_markers =
    "random" ∷ "randomized" ∷ "randomised" ∷ "randomness" ∷ "stochastic" ∷ "monte carlo" ∷ []

-- `_is_randomized`
unfoldable pub is_randomized : BaseArtifact → Evidence → Bool
unfolding any has_part lower
is_randomized a evidence =
    let text = lower (
      join " " (
        type_value a.type
        ∷ a.statement
        ∷ join " " a.tags
        ∷ evidence.kind
        ∷ evidence.summary
        ∷ [])) in
    any (λ m. has_part (codes m) text) randomness_markers

-- `bool(result.seed)`
abbrev pub seed_recorded : Option String → Bool
seed_recorded none = false
seed_recorded (some seed) = not (blank seed)

unfoldable pub result_key_le : VerificationResult → VerificationResult → Bool
unfolding key_order
result_key_le a b = not_gt (
    key_order (a.artifact_id ∷ a.verifier ∷ a.message ∷ [])
      (b.artifact_id ∷ b.verifier ∷ b.message ∷ []))

-- `_results_by_artifact(results).get(artifact_id, ())`
unfoldable pub results_of_artifact : List VerificationResult → String → List VerificationResult
unfolding sort keep
results_of_artifact results artifact_id =
    sort result_key_le (keep (λ r. str_eq r.artifact_id artifact_id) results)

unfoldable pub matches_evidence : Evidence → VerificationResult → Bool
unfolding any
matches_evidence evidence r =
    any (λ p. str_eq p evidence.path) r.evidence_paths
    || (any (λ p. str_eq p evidence.path) r.input_paths || is_empty r.evidence_paths)

-- `_matching_results`
unfoldable pub matching_results : List VerificationResult → Evidence → List VerificationResult
unfolding sort keep matches_evidence
matching_results results evidence = sort result_key_le (keep (matches_evidence evidence) results)

pub record ReproducibilityCheck : Type 0 where
  pub artifact_id : String
  pub source_path : String
  pub evidence_kind : String
  pub evidence_path : String
  pub status : ReproducibilityStatus
  pub required_metadata : List String
  pub missing_metadata : List String
  pub randomized : Bool
  pub seed_recorded : Bool

-- What `_check_evidence_result` finds missing, the seed of a randomized run included.
unfoldable pub missing_of : BaseArtifact → Evidence → VerificationResult → List String
unfolding missing_metadata required_metadata is_randomized
missing_of a evidence r =
    missing_metadata r (required_metadata r)
    ++ (if is_randomized a evidence && not (seed_recorded r.seed) then "seed" ∷ [] else [])

-- `_check_evidence_result`
unfoldable pub check_evidence_result :
    LoadedRecord → BaseArtifact → Evidence → VerificationResult → ReproducibilityCheck
unfolding missing_of required_metadata is_randomized sort distinct field_name
check_evidence_result loaded a evidence r =
    let missing = missing_of a evidence r in
    record {
      artifact_id = a.id;
      source_path = loaded.source_path;
      evidence_kind = evidence.kind;
      evidence_path = evidence.path;
      status = if is_empty missing then ReproducibilityStatus.pass else ReproducibilityStatus.fail;
      required_metadata = map field_name (required_metadata r);
      missing_metadata = sort text_le (distinct missing);
      randomized = is_randomized a evidence;
      seed_recorded = seed_recorded r.seed;
    }

abbrev pub no_result_check : LoadedRecord → BaseArtifact → Evidence → ReproducibilityCheck
unfolding is_randomized field_name
no_result_check loaded a evidence = record {
  artifact_id = a.id;
  source_path = loaded.source_path;
  evidence_kind = evidence.kind;
  evidence_path = evidence.path;
  status = ReproducibilityStatus.fail;
  required_metadata = map field_name required_executed_metadata;
  missing_metadata = "verification_result" ∷ [];
  randomized = is_randomized a evidence;
  seed_recorded = false;
}

-- `_not_applicable_check`
abbrev pub not_applicable_check : LoadedRecord → String → String → ReproducibilityCheck
unfolding record_id
not_applicable_check loaded kind path = record {
  artifact_id = record_id loaded;
  source_path = loaded.source_path;
  evidence_kind = kind;
  evidence_path = path;
  status = ReproducibilityStatus.not_applicable;
  required_metadata = [];
  missing_metadata = [];
  randomized = false;
  seed_recorded = false;
}

abbrev is_seed_only : List String → Bool
is_seed_only (m ∷ []) = str_eq m "seed"
is_seed_only _ = false

abbrev has_seed_and_more : List String → Bool
unfolding any
has_seed_and_more (m ∷ n ∷ rest) = any (λ s. str_eq s "seed") (m ∷ n ∷ rest)
has_seed_and_more _ = false

-- `_failure_from_check`
unfoldable pub failure_from_check : ReproducibilityCheck → ValidationFailure
unfolding has_seed_and_more
failure_from_check check = record {
  gate = "reproducibility metadata";
  source_path = check.source_path;
  artifact_id = check.artifact_id;
  message = concat (
      (if is_seed_only check.missing_metadata
        then "randomized evidence requires seed metadata"
        else concat ("missing reproducibility metadata: " ∷ join ", " check.missing_metadata ∷ []))
      ∷ (if has_seed_and_more check.missing_metadata
          then "; randomized evidence requires seed metadata"
          else "")
      ∷ []);
}

abbrev pub is_failed : ReproducibilityStatus → Bool
is_failed ReproducibilityStatus.fail = true
is_failed _ = false

module _ (results : List VerificationResult) where
  abbrev pub first_check :
      LoadedRecord → BaseArtifact → Evidence → List VerificationResult → ReproducibilityCheck
  unfolding no_result_check check_evidence_result
  first_check loaded a evidence [] = no_result_check loaded a evidence
  first_check loaded a evidence (r ∷ rs) = check_evidence_result loaded a evidence r

  -- The check of one evidence.
  unfoldable pub evidence_check : LoadedRecord → BaseArtifact → Evidence → ReproducibilityCheck
  unfolding is_executable not_applicable_check first_check matching_results results_of_artifact
  evidence_check loaded a evidence =
      let executed =
        first_check loaded a evidence
          (matching_results (results_of_artifact results a.id) evidence) in
      if is_executable evidence
      then executed
      else not_applicable_check loaded evidence.kind evidence.path

  -- The checks of one artifact.
  unfoldable pub artifact_checks : LoadedRecord → BaseArtifact → List ReproducibilityCheck
  unfolding evidence_check not_applicable_check
  artifact_checks loaded a =
      if is_empty a.evidence
      then not_applicable_check loaded "" "" ∷ []
      else map (evidence_check loaded a) a.evidence

  abbrev check_key_le : ReproducibilityCheck → ReproducibilityCheck → Bool
  unfolding key_order
  check_key_le a b = not_gt (
      key_order (a.source_path ∷ a.artifact_id ∷ a.evidence_path ∷ [])
        (b.source_path ∷ b.artifact_id ∷ b.evidence_path ∷ []))

  -- All checks, in the order of the records.
  unfoldable pub all_checks : List LoadedRecord → List ReproducibilityCheck
  unfolding collect artifact_checks
  all_checks records = collect (per_artifact artifact_checks) records

  unfoldable pub reproducibility_checks : List LoadedRecord → List ReproducibilityCheck
  unfolding sort check_key_le all_checks
  reproducibility_checks records = sort check_key_le (all_checks records)

  unfoldable pub reproducibility_failures : List LoadedRecord → List ValidationFailure
  unfolding sort_failures keep all_checks failure_from_check
  reproducibility_failures records =
      sort_failures (map failure_from_check (keep (λ c. is_failed c.status) (all_checks records)))

  abbrev is_applicable : ReproducibilityStatus → Bool
  is_applicable ReproducibilityStatus.not_applicable = false
  is_applicable _ = true

  -- What the gatekeeper reads of the result.
  unfoldable pub reproducibility_findings : List LoadedRecord → Findings
  unfolding reproducibility_failures reproducibility_checks keep
  reproducibility_findings records = record {
    failures = reproducibility_failures records;
    warnings = [];
    applicable_count = length (keep (λ c. is_applicable c.status) (reproducibility_checks records));
  }
