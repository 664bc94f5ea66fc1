-- ===== src/Strategy/Plan.antt =====
-- cosheaf/strategy/planner.py: `build_strategy_plan`. A `StrategyError` and a validation error both
-- leave it with their message. What `datetime.astimezone` returns is a parameter.
use tcs_cosheaf.Base.{
  String, Bool, true, false, List, [], ◌∷◌, ◌++◌, Option, none, some, map, keep, collect, concat,
  sort, Result, err, ◌>>=◌, map_result, not,
}
use tcs_cosheaf.Core.Artifact.{BaseArtifact, FailureLogEntry, Timestamp}
use tcs_cosheaf.Storage.{LoadedRecord, IssueRecord}
use tcs_cosheaf.Gates.Dependency.{distinct, text_le}
use tcs_cosheaf.Strategy.Models.{
  StrategyTaskScope, StrategyTaskNode, StrategyPlan, StrategyProblem, validate_node, validate_edge,
  validate_problem, validate_next_step, validate_plan, graph_consistency, strategy_authority_notice,
}
use tcs_cosheaf.Strategy.Sources.{
  Repository, issue_of, issue_related_artifact_ids, one_hop_dependency_ids, base_artifacts_for_ids,
  failure_entries, candidate_counterexample_ids, checked_evidence_for_issue,
  research_runs_for_issue,
}
use tcs_cosheaf.Strategy.Planner.{
  context_node, validation_node, gate_node, artifact_node, failure_review_node,
  counterexample_review_node, research_run_review_node, proof_attempt_node, scope_for_loaded,
}
use tcs_cosheaf.Strategy.Ranking.{edges, rank_next_steps}

abbrev pub same_scope : StrategyTaskScope → StrategyTaskScope → Bool
same_scope StrategyTaskScope.public_task StrategyTaskScope.public_task = true
same_scope StrategyTaskScope.private_task StrategyTaskScope.private_task = true
same_scope StrategyTaskScope.workspace_task StrategyTaskScope.workspace_task = true
same_scope StrategyTaskScope.framework_task StrategyTaskScope.framework_task = true
same_scope StrategyTaskScope.unknown_task StrategyTaskScope.unknown_task = true
same_scope _ _ = false

-- `tuple(dict.fromkeys(scopes))`
unfoldable pub distinct_scopes : List StrategyTaskScope → List StrategyTaskScope
unfolding keep
distinct_scopes [] = []
distinct_scopes (s ∷ ss) = s ∷ keep (λ t. not (same_scope s t)) (distinct_scopes ss)

abbrev pub scopes_or : List StrategyTaskScope → List StrategyTaskScope
scopes_or [] = StrategyTaskScope.workspace_task ∷ []
scopes_or (s ∷ ss) = s ∷ ss

unfoldable pub scopes_for_loaded : List LoadedRecord → List StrategyTaskScope
unfolding scope_for_loaded
scopes_for_loaded records = scopes_or (distinct_scopes (map scope_for_loaded records))

-- `sorted({domain for artifact in artifacts for domain in artifact.domain})`
unfoldable pub domains_of : List BaseArtifact → List String
unfolding sort distinct collect
domains_of artifacts = sort text_le (distinct (collect (λ (a : BaseArtifact). a.domain) artifacts))

-- What the planner reads about an issue.
pub record Related : Type 0 where
  pub related_ids : List String
  pub entries : List (LoadedRecord × BaseArtifact)
  pub failures : List (BaseArtifact × FailureLogEntry)

unfoldable pub related_of : Repository → IssueRecord → Related
unfolding issue_related_artifact_ids one_hop_dependency_ids base_artifacts_for_ids distinct
    failure_entries
related_of repo issue =
    let related_ids = issue_related_artifact_ids repo.records issue.related_artifacts in
    let dependency_ids = one_hop_dependency_ids repo.records related_ids in
    let entries = base_artifacts_for_ids repo.records (distinct (related_ids ++ dependency_ids)) in
    record {
      related_ids = related_ids;
      entries = entries;
      failures = failure_entries (map (λ (e : LoadedRecord × BaseArtifact). e.1) entries);
    }

unfoldable pub plan_nodes : Repository → IssueRecord → Related → List StrategyTaskNode
unfolding candidate_counterexample_ids checked_evidence_for_issue research_runs_for_issue
plan_nodes repo issue related =
    let candidate_ids = candidate_counterexample_ids related.failures in
    let checked = checked_evidence_for_issue repo.evidence related.related_ids candidate_ids in
    context_node issue.id
    ∷ validation_node
    ∷ gate_node
    ∷ (map artifact_node related.entries
        ++ (failure_review_node related.failures
            ∷ counterexample_review_node candidate_ids checked
            ∷ research_run_review_node (research_runs_for_issue repo.runs issue.id)
            ∷ proof_attempt_node related.related_ids related.failures
            ∷ []))

unfoldable pub plan_problem : IssueRecord → Related → StrategyProblem
unfolding sort distinct
plan_problem issue related = record {
  issue_id = issue.id;
  title = issue.title;
  description = issue.summary;
  domains = domains_of (map (λ (e : LoadedRecord × BaseArtifact). e.1) related.entries);
  tags = sort text_le (distinct issue.labels);
  target_artifacts = related.related_ids;
  known_constraints =
      strategy_authority_notice
      ∷ "Do not write accepted knowledge or bypass review, validation, gates, or promotion." ∷ [];
  public_private_scope_labels =
      scopes_for_loaded (map (λ (e : LoadedRecord × BaseArtifact). e.0) related.entries);
}

module _ (windows_absolute : String → Bool) (to_utc : Timestamp → Timestamp) where
  -- The body of `build_strategy_plan` once the issue is found.
  unfoldable pub plan_of : Repository → IssueRecord → Result StrategyPlan
  unfolding related_of plan_nodes plan_problem map_result validate_node validate_edge
      graph_consistency rank_next_steps validate_next_step validate_problem validate_plan edges
  plan_of repo issue = do
    let related = related_of repo issue
    nodes ← map_result (validate_node windows_absolute) (plan_nodes repo issue related)
    links ← map_result validate_edge (edges nodes)
    graph ← graph_consistency (record { nodes = nodes; edges = links })
    next_steps ← map_result validate_next_step (rank_next_steps graph.nodes related.failures)
    problem ← validate_problem (plan_problem issue related)
    validate_plan (record {
      plan_id = concat ("strategy." ∷ issue.id ∷ ".plan" ∷ []);
      issue_id = issue.id;
      created_at = to_utc issue.updated_at;
      problem = problem;
      graph = graph;
      next_steps = next_steps;
      authority_notice = strategy_authority_notice;
    })

  -- The issue that was looked up.
  unfoldable pub plan_found : Repository → String → Option IssueRecord → Result StrategyPlan
  plan_found repo issue_id none = err (concat ("issue not found: " ∷ issue_id ∷ []))
  plan_found repo issue_id (some issue) = plan_of repo issue

  unfoldable pub build_strategy_plan : Repository → String → Result StrategyPlan
  build_strategy_plan repo issue_id = plan_found repo issue_id (issue_of repo.records issue_id)
