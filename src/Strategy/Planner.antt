-- ===== src/Strategy/Planner.antt =====
-- cosheaf/strategy/planner.py: the tasks of a plan, as they are before their validation.
use tcs_cosheaf.Base.{
  String, Bool, true, false, not, ◌||◌, List, [], ◌∷◌, if◌then◌else◌, any, map, keep, is_empty,
  codes, starts_with, has_part, concat,
}
use tcs_cosheaf.Core.Artifact.{BaseArtifact, FailureLogEntry, FailureStatus}
use tcs_cosheaf.Core.Status.{status_value}
use tcs_cosheaf.Storage.{LoadedRecord}
use tcs_cosheaf.Gates.Dependency.{root_is}
use tcs_cosheaf.Promotion.Evidence.{StrategyTaskStatus, CheckedEvidence}
use tcs_cosheaf.Strategy.Models.{StrategyTaskScope, StrategyTaskNodeKind, StrategyTaskNode}
use tcs_cosheaf.Strategy.Sources.{ResearchRunRecord}

-- The defaults of `StrategyTaskNode`.
abbrev task_node :
    String
    → StrategyTaskNodeKind
    → String
    → StrategyTaskStatus
    → StrategyTaskScope
    → StrategyTaskNode
task_node node_id kind title status scope = record {
  node_id = node_id;
  kind = kind;
  title = title;
  status = status;
  scope = scope;
  description = "";
  depends_on = [];
  blocked_by = [];
  expected_evidence_kinds = [];
  related_artifacts = [];
  related_failure_log_entries = [];
  related_candidate_counterexamples = [];
  related_checked_counterexample_evidence = [];
  related_research_run_ids = [];
  command = [];
  input_paths = [];
  write_paths = [];
  references = [];
  notes = [];
}

abbrev workspace_node :
    String → StrategyTaskNodeKind → String → StrategyTaskStatus → StrategyTaskNode
workspace_node node_id kind title status =
    task_node node_id kind title status StrategyTaskScope.workspace_task

-- `READY if known else DEFERRED`
abbrev ready_if : Bool → StrategyTaskStatus
ready_if known = if known then StrategyTaskStatus.ready else StrategyTaskStatus.deferred

abbrev pub context_node : String → StrategyTaskNode
context_node issue_id =
    let node =
      workspace_node "task.context-build" StrategyTaskNodeKind.retrieval_context
        "Build bounded issue context" StrategyTaskStatus.ready in
    record node {
      description = "Build a bounded context pack before changing research state.";
      expected_evidence_kinds = "context_pack" ∷ "retrieval_audit" ∷ [];
      command = "cosheaf" ∷ "context" ∷ "build" ∷ issue_id ∷ [];
      notes = "Context build is guidance input only, not review or proof." ∷ [];
    }

abbrev pub validation_node : StrategyTaskNode
validation_node =
    let node =
      workspace_node "task.validate" StrategyTaskNodeKind.validation "Run repository validation"
        StrategyTaskStatus.ready in
    record node {
      expected_evidence_kinds = "validation_report" ∷ [];
      command = "cosheaf" ∷ "validate" ∷ [];
      notes = "Validation success is not human review." ∷ [];
    }

abbrev pub gate_node : StrategyTaskNode
gate_node =
    let node =
      workspace_node "task.gate" StrategyTaskNodeKind.gate "Run gatekeeper"
        StrategyTaskStatus.ready in
    record node {
      expected_evidence_kinds = "gate_report" ∷ [];
      command = "cosheaf" ∷ "gate" ∷ "run" ∷ [];
      notes = "Skipped gate rows are not passes." ∷ [];
    }

unfoldable pub scope_for_loaded : LoadedRecord → StrategyTaskScope
unfolding has_part starts_with
scope_for_loaded loaded =
    let source = codes loaded.source_path in
    if has_part (codes "/private/") source || starts_with source (codes "kb/private/")
    then StrategyTaskScope.private_task
    else if has_part (codes "/public/") source || starts_with source (codes "kb/public/")
    then StrategyTaskScope.public_task
    else if root_is "public" loaded.kb_root_name
    then StrategyTaskScope.public_task
    else if root_is "private" loaded.kb_root_name
    then StrategyTaskScope.private_task
    else StrategyTaskScope.workspace_task

unfoldable pub artifact_node : LoadedRecord × BaseArtifact → StrategyTaskNode
unfolding scope_for_loaded status_value
artifact_node (loaded, artifact) =
    let node =
      task_node (concat ("artifact." ∷ artifact.id ∷ [])) StrategyTaskNodeKind.understand
        (concat ("Read " ∷ artifact.id ∷ [])) StrategyTaskStatus.ready (scope_for_loaded loaded) in
    record node {
      description = artifact.title;
      expected_evidence_kinds = "operator_note" ∷ [];
      related_artifacts = artifact.id ∷ [];
      input_paths = loaded.source_path ∷ [];
      notes =
          concat (status_value artifact.status ∷ " artifact; use as scoped context only." ∷ [])
          ∷ [];
    }

unfoldable pub is_open_failure : BaseArtifact × FailureLogEntry → Bool
is_open_failure (a, entry) = elim entry.status [
  | FailureStatus.open_failure ↦ true
  | FailureStatus.superseded ↦ false
  | FailureStatus.invalidated ↦ false
  | FailureStatus.resolved ↦ false
  | FailureStatus.archived ↦ false
]

abbrev failure_note : BaseArtifact × FailureLogEntry → String
failure_note (a, entry) =
    concat (entry.direction ∷ ": known failed direction; avoid retry unless retryable." ∷ [])

-- `notes or (default,)`
abbrev notes_or : String → List String → List String
notes_or default [] = default ∷ []
notes_or default (n ∷ ns) = n ∷ ns

unfoldable pub failure_review_node : List (BaseArtifact × FailureLogEntry) → StrategyTaskNode
unfolding keep is_open_failure
failure_review_node entries =
    let failure_ids = map (λ (e : BaseArtifact × FailureLogEntry). e.1.failure_id) entries in
    let node =
      workspace_node "task.review-failures" StrategyTaskNodeKind.review_decision
        "Review known failed directions" (ready_if (not (is_empty failure_ids))) in
    record node {
      description = "Inspect failure memory before selecting a next proof route.";
      expected_evidence_kinds = "failure_log_review" ∷ [];
      related_failure_log_entries = failure_ids;
      related_artifacts = map (λ (e : BaseArtifact × FailureLogEntry). e.0.id) entries;
      notes =
          notes_or "No issue-related failure memory was found in the current workspace."
            (map failure_note (keep is_open_failure entries));
    }

abbrev pub counterexample_review_node : List String → List CheckedEvidence → StrategyTaskNode
counterexample_review_node candidate_ids checked =
    let checked_ids = map (λ (e : CheckedEvidence). e.evidence_id) checked in
    let node =
      workspace_node "task.counterexample-review" StrategyTaskNodeKind.counterexample_search
        "Review counterexample candidates and checked evidence"
        (ready_if (not (is_empty candidate_ids) || not (is_empty checked_ids))) in
    record node {
      expected_evidence_kinds = "candidate_counterexample" ∷ "checked_counterexample_evidence" ∷ [];
      related_candidate_counterexamples = candidate_ids;
      related_checked_counterexample_evidence = checked_ids;
      notes =
          "Candidate counterexamples are candidate only."
          ∷ "Checked counterexample records are checked evidence only."
          ∷ "Neither label creates accepted refutation or promotion authority." ∷ [];
    }

abbrev pub research_run_review_node : List ResearchRunRecord → StrategyTaskNode
research_run_review_node runs =
    let run_ids = map (λ (r : ResearchRunRecord). r.run_id) runs in
    let node =
      workspace_node "task.review-runs" StrategyTaskNodeKind.run_review
        "Review related research-run provenance" (ready_if (not (is_empty run_ids))) in
    record node {
      expected_evidence_kinds = "research_run_record" ∷ [];
      related_research_run_ids = run_ids;
      notes = "Research runs are provenance only, not proof or review." ∷ [];
    }

unfoldable pub proof_attempt_node :
    List String → List (BaseArtifact × FailureLogEntry) → StrategyTaskNode
unfolding any is_open_failure
proof_attempt_node related entries =
    let has_open_failure = any is_open_failure entries in
    let node =
      task_node "task.proof-attempt" StrategyTaskNodeKind.proof_attempt
        "Choose a bounded proof attempt"
        (if has_open_failure then StrategyTaskStatus.blocked else StrategyTaskStatus.ready)
        StrategyTaskScope.private_task in
    record node {
      description = "Attempt only after reviewing context, gates, and known failures.";
      blocked_by = if has_open_failure then "task.review-failures" ∷ [] else [];
      expected_evidence_kinds = "proof_note" ∷ "review_request" ∷ [];
      related_artifacts = related;
      notes =
          (if has_open_failure
            then "Known failed direction present; choose a new route before retrying."
            else "No directly related open failed direction was found.")
          ∷ [];
    }
