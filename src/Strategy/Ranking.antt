-- ===== src/Strategy/Ranking.antt =====
-- cosheaf/strategy/planner.py: the edges of the task graph, and the ranking of the next steps.
use tcs_cosheaf.Base.{
  String, ℕ, suc, Bool, not, List, [], ◌∷◌, ◌++◌, if◌then◌else◌, map, keep, collect, is_empty,
  codes, starts_with, str_eq, leb, ◌==◌, concat, sort, ◌&&◌, ◌||◌,
}
use tcs_cosheaf.Core.Artifact.{BaseArtifact, FailureLogEntry}
use tcs_cosheaf.Gates.Dependency.{text_le}
use tcs_cosheaf.Strategy.Models.{
  StrategyEdgeKind, StrategyTaskNode, StrategyTaskEdge, StrategyNextStep, kind_value, among,
  node_ids,
}

abbrev pub edge : StrategyTaskNode → StrategyEdgeKind → String → String → StrategyTaskEdge
edge node kind reason from_node = record {
  from_node = from_node;
  to_node = node.node_id;
  kind = kind;
  reason = reason;
}

unfoldable pub node_edges : List String → StrategyTaskNode → List StrategyTaskEdge
unfolding keep
node_edges ids node =
    map (edge node StrategyEdgeKind.prerequisite "task dependency")
      (keep (among ids) node.depends_on)
    ++ map (edge node StrategyEdgeKind.blocked_by_edge "blocked until reviewed")
        (keep (among ids) node.blocked_by)

-- `_edges`
unfoldable pub edges : List StrategyTaskNode → List StrategyTaskEdge
unfolding collect node_ids
edges nodes = collect (node_edges (node_ids nodes)) nodes

unfoldable pub base_score : StrategyTaskNode → ℕ
base_score node =
    if str_eq node.node_id "task.context-build"
    then 100
    else if str_eq node.node_id "task.validate"
    then 95
    else if str_eq node.node_id "task.gate"
    then 90
    else if str_eq node.node_id "task.review-failures"
    then (if not (is_empty node.related_failure_log_entries) then 82 else 30)
    else if str_eq node.node_id "task.counterexample-review"
    then (if not (is_empty node.related_candidate_counterexamples)
          || not (is_empty node.related_checked_counterexample_evidence)
        then 78
        else 28)
    else if str_eq node.node_id "task.review-runs"
    then (if not (is_empty node.related_research_run_ids) then 70 else 25)
    else if str_eq node.node_id "task.proof-attempt"
    then 74
    else 10

abbrev said_if : Bool → String → List String
said_if test reason = if test then reason ∷ [] else []

unfoldable pub least_of : ℕ → ℕ → ℕ
least_of a b = if leb a b then a else b

-- `node.node_id == "task.proof-attempt" and failure_entries`
unfoldable pub is_retry : List (BaseArtifact × FailureLogEntry) → StrategyTaskNode → Bool
is_retry entries node = str_eq node.node_id "task.proof-attempt" && not (is_empty entries)

unfoldable pub step_score : List (BaseArtifact × FailureLogEntry) → StrategyTaskNode → ℕ
unfolding base_score is_retry least_of
step_score entries node =
    if is_retry entries node then least_of (base_score node) 20 else base_score node

unfoldable pub step_reasons : List (BaseArtifact × FailureLogEntry) → StrategyTaskNode → List String
unfolding kind_value is_retry
step_reasons entries node =
    concat (kind_value node.kind ∷ " task" ∷ [])
      ∷ said_if (not (is_empty node.command)) "first-class CLI command"
    ++ (said_if (not (is_empty node.related_failure_log_entries)) "surfaces known failed directions"
        ++ (said_if (not (is_empty node.related_candidate_counterexamples))
              "preserves candidate counterexample labels"
            ++ (said_if (not (is_empty node.related_checked_counterexample_evidence))
                  "preserves checked evidence labels"
                ++ (said_if (not (is_empty node.related_research_run_ids))
                      "uses research-run provenance"
                    ++ said_if (is_retry entries node)
                        "known failed direction must be reviewed before retry"))))

pub record Scored : Type 0 where
  pub score : ℕ
  pub node : StrategyTaskNode
  pub reasons : List String

-- `(-item[0], item[1].node_id)`
unfoldable pub scored_le : Scored → Scored → Bool
scored_le a b =
    if a.score == b.score then text_le a.node.node_id b.node.node_id else leb b.score a.score

unfoldable pub is_task : StrategyTaskNode → Bool
unfolding starts_with
is_task node = starts_with (codes node.node_id) (codes "task.")

unfoldable pub scored_of : List (BaseArtifact × FailureLogEntry) → StrategyTaskNode → Scored
unfolding step_score
scored_of entries node = record {
  score = step_score entries node;
  node = node;
  reasons = step_reasons entries node;
}

-- `enumerate(ordered, start)`
unfoldable pub number_from : ℕ → List Scored → List StrategyNextStep
number_from n [] = []
number_from n (s ∷ rest) =
    record {
      rank = n;
      node_id = s.node.node_id;
      score = s.score;
      reasons = s.reasons;
      command = s.node.command;
    }
    ∷ number_from (suc n) rest

-- `_rank_next_steps`, before the steps are validated.
unfoldable pub rank_next_steps :
    List StrategyTaskNode → List (BaseArtifact × FailureLogEntry) → List StrategyNextStep
unfolding number_from sort keep scored_le scored_of
rank_next_steps nodes entries =
    number_from 1 (sort scored_le (map (scored_of entries) (keep is_task nodes)))
