-- ===== src/Strategy/Models.antt =====
-- cosheaf/strategy/models.py: the plan, its task graph and its steps, with their validators in the
-- order in which pydantic runs them. Every score that the planner gives is a whole number, which
-- rounding keeps.
use tcs_cosheaf.Base.{
  String, ℕ, Bool, true, false, not, ◌&&◌, List, [], ◌∷◌, if◌then◌else◌, any, all, map, keep, blank,
  strip, str_eq, leb, ◌==◌, concat, sort, length, Result, ok, err, ◌>>=◌, ◌>>◌, require, map_result,
}
use tcs_cosheaf.Core.Artifact.{Timestamp}
use tcs_cosheaf.Core.Ids.{validate_artifact_id}
use tcs_cosheaf.Core.Validate.{strip_nonempty}
use tcs_cosheaf.Gates.Dependency.{distinct, text_le}
use tcs_cosheaf.Promotion.Evidence.{StrategyTaskStatus}
use tcs_cosheaf.Campaigns.Texts.{text_sequence, normalize_timestamp}
use tcs_cosheaf.Strategy.Texts.{safe_text, safe_texts, validate_repo_local_path}

abbrev pub strategy_authority_notice : String
strategy_authority_notice =
    "Strategy plans are guidance for review only; they are not proof, evidence, verifier pass, gate pass, human review, accepted status, or promotion authority."

pub data StrategyTaskScope : Type 0 where
  public_task private_task workspace_task framework_task unknown_task : StrategyTaskScope

pub data StrategyTaskNodeKind : Type 0 where
  understand retrieval_context proof_attempt construction_search : StrategyTaskNodeKind
  counterexample_search verification formalization_attempt : StrategyTaskNodeKind
  literature_source_lookup review_decision blocked_deferred validation : StrategyTaskNodeKind
  gate run_review : StrategyTaskNodeKind

unfoldable pub kind_value : StrategyTaskNodeKind → String
kind_value understand = "understand"
kind_value retrieval_context = "retrieval_context"
kind_value proof_attempt = "proof_attempt"
kind_value construction_search = "construction_search"
kind_value counterexample_search = "counterexample_search"
kind_value verification = "verification"
kind_value formalization_attempt = "formalization_attempt"
kind_value literature_source_lookup = "literature_source_lookup"
kind_value review_decision = "review_decision"
kind_value blocked_deferred = "blocked_deferred"
kind_value validation = "validation"
kind_value gate = "gate"
kind_value run_review = "run_review"

pub data StrategyTaskReferenceKind : Type 0 where
  command_reference context_pack research_run artifact_reference : StrategyTaskReferenceKind
  checked_counterexample_evidence review_export validation_report : StrategyTaskReferenceKind
  gate_report failure_log other_reference : StrategyTaskReferenceKind

pub data StrategyEdgeKind : Type 0 where
  prerequisite evidence_dependency blocked_by_edge : StrategyEdgeKind

pub record StrategyProblem : Type 0 where
  pub issue_id : String
  pub title : String
  pub description : String
  pub domains : List String
  pub tags : List String
  pub target_artifacts : List String
  pub known_constraints : List String
  pub public_private_scope_labels : List StrategyTaskScope

pub record StrategyTaskReference : Type 0 where
  pub kind : StrategyTaskReferenceKind
  pub identifier : String
  pub path : String
  pub status : String
  pub summary : String

pub record StrategyTaskNode : Type 0 where
  pub node_id : String
  pub kind : StrategyTaskNodeKind
  pub title : String
  pub status : StrategyTaskStatus
  pub scope : StrategyTaskScope
  pub description : String
  pub depends_on : List String
  pub blocked_by : List String
  pub expected_evidence_kinds : List String
  pub related_artifacts : List String
  pub related_failure_log_entries : List String
  pub related_candidate_counterexamples : List String
  pub related_checked_counterexample_evidence : List String
  pub related_research_run_ids : List String
  pub command : List String
  pub input_paths : List String
  pub write_paths : List String
  pub references : List StrategyTaskReference
  pub notes : List String

pub record StrategyTaskEdge : Type 0 where
  pub from_node : String
  pub to_node : String
  pub kind : StrategyEdgeKind
  pub reason : String

pub record StrategyTaskGraph : Type 0 where
  pub nodes : List StrategyTaskNode
  pub edges : List StrategyTaskEdge

pub record StrategyNextStep : Type 0 where
  pub rank : ℕ
  pub node_id : String
  pub score : ℕ
  pub reasons : List String
  pub command : List String

pub record StrategyPlan : Type 0 where
  pub plan_id : String
  pub issue_id : String
  pub created_at : Timestamp
  pub problem : StrategyProblem
  pub graph : StrategyTaskGraph
  pub next_steps : List StrategyNextStep
  pub authority_notice : String

-- `validate_artifact_id(value.strip())`
unfoldable pub node_ref : String → Result String
unfolding strip
node_ref value = validate_artifact_id (strip value)

unfoldable pub validate_problem : StrategyProblem → Result StrategyProblem
unfolding node_ref safe_text
validate_problem p = do
  issue_id ← node_ref p.issue_id
  title ← safe_text p.title
  domains ← safe_texts p.domains
  tags ← safe_texts p.tags
  target_artifacts ← text_sequence validate_artifact_id p.target_artifacts
  known_constraints ← safe_texts p.known_constraints
  ok (record p {
    issue_id = issue_id;
    title = title;
    description = strip p.description;
    domains = domains;
    tags = tags;
    target_artifacts = target_artifacts;
    known_constraints = known_constraints;
  })

-- `StrategyTaskReference._safe_optional_text`
unfoldable pub optional_text : String → Result String
unfolding safe_text
optional_text value =
    let normalized = strip value in if blank normalized then ok "" else safe_text normalized

module _ (windows_absolute : String → Bool) where
  unfoldable pub validate_reference : StrategyTaskReference → Result StrategyTaskReference
  unfolding optional_text validate_repo_local_path
  validate_reference r = do
    identifier ← optional_text r.identifier
    path ←
        if blank (strip r.path)
        then ok ""
        else validate_repo_local_path windows_absolute true (strip r.path)
    status ← optional_text r.status
    summary ← optional_text r.summary
    ok (record r { identifier = identifier; path = path; status = status; summary = summary })

  unfoldable pub validate_node : StrategyTaskNode → Result StrategyTaskNode
  unfolding node_ref safe_text validate_repo_local_path map_result
  validate_node n = do
    node_id ← node_ref n.node_id
    title ← safe_text n.title
    depends_on ← safe_texts n.depends_on
    blocked_by ← safe_texts n.blocked_by
    expected_evidence_kinds ← safe_texts n.expected_evidence_kinds
    related_artifacts ← text_sequence validate_artifact_id n.related_artifacts
    related_failure_log_entries ← safe_texts n.related_failure_log_entries
    related_candidate_counterexamples ← safe_texts n.related_candidate_counterexamples
    related_checked_counterexample_evidence ← safe_texts n.related_checked_counterexample_evidence
    related_research_run_ids ← safe_texts n.related_research_run_ids
    command ← safe_texts n.command
    input_paths ←
        map_result (validate_repo_local_path windows_absolute false) (strip_nonempty n.input_paths)
    write_paths ←
        map_result (validate_repo_local_path windows_absolute true) (strip_nonempty n.write_paths)
    references ← map_result validate_reference n.references
    notes ← safe_texts n.notes
    ok (record n {
      node_id = node_id;
      title = title;
      description = strip n.description;
      depends_on = depends_on;
      blocked_by = blocked_by;
      expected_evidence_kinds = expected_evidence_kinds;
      related_artifacts = related_artifacts;
      related_failure_log_entries = related_failure_log_entries;
      related_candidate_counterexamples = related_candidate_counterexamples;
      related_checked_counterexample_evidence = related_checked_counterexample_evidence;
      related_research_run_ids = related_research_run_ids;
      command = command;
      input_paths = input_paths;
      write_paths = write_paths;
      references = references;
      notes = notes;
    })

unfoldable pub validate_edge : StrategyTaskEdge → Result StrategyTaskEdge
unfolding node_ref safe_text
validate_edge e = do
  from_node ← node_ref e.from_node
  to_node ← node_ref e.to_node
  reason ← safe_text e.reason
  ok (record e { from_node = from_node; to_node = to_node; reason = reason })

-- `value in ids`
abbrev pub among : List String → String → Bool
among ids value = any (λ id. str_eq id value) ids

unfoldable pub node_ids : List StrategyTaskNode → List String
node_ids nodes = map (λ n. n.node_id) nodes

-- `sorted(set(values).difference(ids))`
unfoldable pub unknown_among : List String → List String → List String
unfolding keep
unknown_among ids values = sort text_le (keep (λ v. not (among ids v)) (distinct values))

unfoldable pub require_known : String → List String → Result (Unit {0})
require_known what [] = ok tt
require_known what (first ∷ rest) = err (concat (what ∷ first ∷ []))

unfoldable pub check_nodes : List String → List StrategyTaskNode → Result (Unit {0})
unfolding unknown_among require_known
check_nodes ids [] = ok tt
check_nodes ids (n ∷ ns) = do
  require_known "unknown task dependency: " (unknown_among ids n.depends_on)
  require_known "unknown task blocker: " (unknown_among ids n.blocked_by)
  check_nodes ids ns

-- `_graph_consistency`
unfoldable pub graph_consistency : StrategyTaskGraph → Result StrategyTaskGraph
unfolding check_nodes node_ids all distinct
graph_consistency g = do
  let ids = node_ids g.nodes
  require (length (distinct ids) == length ids) "duplicate task node id"
  check_nodes ids g.nodes
  require (all (λ (e : StrategyTaskEdge). among ids e.from_node && among ids e.to_node) g.edges)
      "task graph edges must reference existing nodes"
  ok g

unfoldable pub validate_next_step : StrategyNextStep → Result StrategyNextStep
unfolding node_ref
validate_next_step s = do
  require (leb 1 s.rank) "rank must be positive"
  node_id ← node_ref s.node_id
  reasons ← safe_texts s.reasons
  command ← safe_texts s.command
  ok (record s { node_id = node_id; reasons = reasons; command = command })

-- `StrategyPlan.model_validate`, of a plan whose problem, graph and steps are validated.
unfoldable pub validate_plan : StrategyPlan → Result StrategyPlan
unfolding node_ref node_ids all
validate_plan p = do
  plan_id ← node_ref p.plan_id
  issue_id ← node_ref p.issue_id
  created_at ← normalize_timestamp p.created_at
  require (str_eq p.problem.issue_id issue_id) "problem issue_id must match strategy issue_id"
  require (str_eq p.authority_notice strategy_authority_notice)
      "authority_notice must preserve strategy boundary"
  require (all (λ (s : StrategyNextStep). among (node_ids p.graph.nodes) s.node_id) p.next_steps)
      "next steps must reference graph nodes"
  ok (record p { plan_id = plan_id; issue_id = issue_id; created_at = created_at })
