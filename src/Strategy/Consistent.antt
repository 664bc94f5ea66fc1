-- ===== src/Strategy/Consistent.antt =====
-- cosheaf/strategy/planner.py: what holds of every plan that `build_strategy_plan` returns.
use tcs_cosheaf.Base.{
  String, Bool, true, not, ◌&&◌, List, [], ◌∷◌, Option, none, some, keep, ◌≡◌, refl, subst, arith,
  sym, inl, inr, Bool-cases, All, All-of_In, In, In-keep_of, all, all-true, length, sort-eq-nil,
  str_eq, eq_iff, ◌==◌, ok, after, require, map_result, ok_inj, concat,
}
use tcs_cosheaf.Core.Artifact.{Timestamp}
use tcs_cosheaf.Storage.{IssueRecord}
use tcs_cosheaf.Campaigns.Stored.{require-true}
use tcs_cosheaf.Campaigns.Texts.{normalize_timestamp}
use tcs_cosheaf.Gates.Dependency.{distinct, text_le}
use tcs_cosheaf.Gates.DependencyLaws.{In-distinct_of}
use tcs_cosheaf.Strategy.Models.{
  StrategyTaskNode, StrategyTaskEdge, StrategyTaskGraph, StrategyNextStep, StrategyPlan,
  StrategyProblem, among, node_ids, unknown_among, require_known, check_nodes, graph_consistency,
  validate_plan, node_ref, validate_node, validate_edge, validate_next_step, validate_problem,
  strategy_authority_notice,
}
use tcs_cosheaf.Strategy.Sources.{Repository, issue_of}
use tcs_cosheaf.Strategy.Ranking.{edges, rank_next_steps}
use tcs_cosheaf.Strategy.Plan.{
  related_of, plan_nodes, plan_problem, plan_of, plan_found, build_strategy_plan,
}

-- All texts of a list are among the identifiers.
abbrev pub AllAmong : List String → List String → Type 0
AllAmong ids values = All (λ v. among ids v ≡ true) values

pub record IsGraph (g : StrategyTaskGraph) : Type 0 where
  pub distinct_ids : length (distinct (node_ids g.nodes)) ≡ length (node_ids g.nodes)
  pub dependencies : All (λ n. AllAmong (node_ids g.nodes) n.depends_on) g.nodes
  pub blockers : All (λ n. AllAmong (node_ids g.nodes) n.blocked_by) g.nodes
  pub edges_known :
      All
        (λ e. (among (node_ids g.nodes) e.from_node && among (node_ids g.nodes) e.to_node) ≡ true)
        g.edges

require_known-nil : (what : String) (xs : List String) → require_known what xs ≡ ok tt → xs ≡ []
unfolding require_known
require_known-nil what [] h = refl
require_known-nil what (x ∷ xs) h = cc

unknown_among-AllAmong :
    (ids values : List String) → unknown_among ids values ≡ [] → AllAmong ids values
unfolding unknown_among
unknown_among-AllAmong ids values h = All-of_In _ values λ v at. elim (Bool-cases (among ids v)) [
  | inl e ↦ e
  | inr e ↦ absurd (
      let left : In v (keep (λ w. not (among ids w)) (distinct values)) =
        In-keep_of (λ w. not (among ids w)) (distinct values) v (In-distinct_of values v at)
          (rw e refl) in
      subst (λ xs. In v xs) (sort-eq-nil text_le _ h) left)
]

check_nodes-known :
    (ids : List String) (ns : List StrategyTaskNode)
    → check_nodes ids ns ≡ ok tt
    → All (λ n. AllAmong ids n.depends_on) ns × All (λ n. AllAmong ids n.blocked_by) ns
unfolding check_nodes
check_nodes-known ids [] h = (tt, tt)
check_nodes-known ids (n ∷ ns) h =
    after (require_known _ (unknown_among ids n.depends_on)) _ h λ u p h.
      after (require_known _ (unknown_among ids n.blocked_by)) _ h λ v q h.
        let (ds, bs) = check_nodes-known ids ns h in
        (
          (unknown_among-AllAmong ids n.depends_on (require_known-nil _ _ p), ds),
          (unknown_among-AllAmong ids n.blocked_by (require_known-nil _ _ q), bs),
        )

graph_consistency-IsGraph :
    (g h : StrategyTaskGraph) → graph_consistency g ≡ ok h → (h ≡ g) × IsGraph g
unfolding graph_consistency
graph_consistency-IsGraph g h e =
    after (require (length (distinct (node_ids g.nodes)) == length (node_ids g.nodes)) _) _ e
      λ u p e. after (check_nodes (node_ids g.nodes) g.nodes) _ e λ v q e.
        after
          (require
            (all
              (λ (x : StrategyTaskEdge).
                among (node_ids g.nodes) x.from_node && among (node_ids g.nodes) x.to_node)
              g.edges)
            _)
          _ e
          λ w r e.
            let known = check_nodes-known (node_ids g.nodes) g.nodes q in
            (
              sym (ok_inj e),
              record {
                distinct_ids = let t = require-true _ _ _ p in ground arith;
                dependencies = known.0;
                blockers = known.1;
                edges_known = all-true _ g.edges (require-true _ _ _ r);
              },
            )

module _ (windows_absolute : String → Bool) (to_utc : Timestamp → Timestamp) where
  -- What a plan of an issue is made of.
  pub record Built (repo : Repository) (issue : IssueRecord) (p : StrategyPlan) : Type 0 where
    pub graph : IsGraph p.graph
    pub nodes :
        map_result (validate_node windows_absolute) (plan_nodes repo issue (related_of repo issue))
        ≡ ok p.graph.nodes
    pub links : map_result validate_edge (edges p.graph.nodes) ≡ ok p.graph.edges
    pub steps :
        map_result validate_next_step
          (rank_next_steps p.graph.nodes (related_of repo issue).failures)
        ≡ ok p.next_steps
    pub problem : validate_problem (plan_problem issue (related_of repo issue)) ≡ ok p.problem
    pub about_it : p.problem.issue_id ≡ p.issue_id
    pub steps_known : All (λ s. among (node_ids p.graph.nodes) s.node_id ≡ true) p.next_steps
    pub notice : p.authority_notice ≡ strategy_authority_notice

  plan_of-Built :
      (repo : Repository) (issue : IssueRecord) (p : StrategyPlan)
      → plan_of windows_absolute to_utc repo issue ≡ ok p
      → Built repo issue p
  unfolding plan_of validate_plan
  plan_of-Built repo issue p e =
      let related = related_of repo issue in
      after (map_result (validate_node windows_absolute) (plan_nodes repo issue related)) _ e
        λ nodes at_nodes e. after (map_result validate_edge (edges nodes)) _ e λ links at_links e.
          after (graph_consistency (record { nodes = nodes; edges = links })) _ e
            λ graph at_graph e.
              after (map_result validate_next_step (rank_next_steps graph.nodes related.failures)) _
                e
                λ steps at_steps e.
                  after (validate_problem (plan_problem issue related)) _ e λ problem at_problem e.
                    let (same, is_graph) = graph_consistency-IsGraph _ graph at_graph in
                    finish nodes links graph steps problem same is_graph at_nodes at_links at_steps
                      at_problem e
    where
      finish :
          (nodes : List StrategyTaskNode) (links : List StrategyTaskEdge)
          (graph : StrategyTaskGraph) (steps : List StrategyNextStep) (problem : StrategyProblem)
          → graph ≡ record { nodes = nodes; edges = links }
          → IsGraph (record { nodes = nodes; edges = links })
          → map_result
              (validate_node windows_absolute)
              (plan_nodes repo issue (related_of repo issue))
            ≡ ok nodes
          → map_result validate_edge (edges nodes) ≡ ok links
          → map_result validate_next_step
              (rank_next_steps graph.nodes (related_of repo issue).failures)
            ≡ ok steps
          → validate_problem (plan_problem issue (related_of repo issue)) ≡ ok problem
          → validate_plan (record {
            plan_id = concat ("strategy." ∷ issue.id ∷ ".plan" ∷ []);
            issue_id = issue.id;
            created_at = to_utc issue.updated_at;
            problem = problem;
            graph = graph;
            next_steps = steps;
            authority_notice = strategy_authority_notice;
          })
            ≡ ok p
          → Built repo issue p
      finish nodes links graph steps problem same is_graph at_nodes at_links at_steps at_problem e =
          after (node_ref (concat ("strategy." ∷ issue.id ∷ ".plan" ∷ []))) _ e λ plan_id a e.
            after (node_ref issue.id) _ e λ issue_id b e.
              after (normalize_timestamp (to_utc issue.updated_at)) _ e λ created_at c e.
                after
                  (require (str_eq problem.issue_id issue_id)
                    "problem issue_id must match strategy issue_id")
                  _ e
                  λ u d e.
                    after
                      (require (str_eq strategy_authority_notice strategy_authority_notice)
                        "authority_notice must preserve strategy boundary")
                      _ e
                      λ v f e.
                        after
                          (require
                            (all (λ (s : StrategyNextStep). among (node_ids graph.nodes) s.node_id)
                              steps)
                            "next steps must reference graph nodes")
                          _ e
                          λ w g e.
                            subst (Built repo issue)
                              (ok_inj
                                {a = record {
                                  plan_id = plan_id;
                                  issue_id = issue_id;
                                  created_at = created_at;
                                  problem = problem;
                                  graph = graph;
                                  next_steps = steps;
                                  authority_notice = strategy_authority_notice;
                                }}
                                e)
                              (record {
                                graph = subst IsGraph (sym same) is_graph;
                                nodes =
                                    subst
                                      (λ (g : StrategyTaskGraph).
                                        map_result (validate_node windows_absolute)
                                          (plan_nodes repo issue (related_of repo issue))
                                        ≡ ok g.nodes)
                                      (sym same) at_nodes;
                                links =
                                    subst
                                      (λ (g : StrategyTaskGraph).
                                        map_result validate_edge (edges g.nodes) ≡ ok g.edges)
                                      (sym same) at_links;
                                steps = at_steps;
                                problem = at_problem;
                                about_it = (eq_iff _ _).0 (require-true _ _ _ d);
                                steps_known = all-true _ steps (require-true _ _ _ g);
                                notice = refl;
                              })

  pub plan_found-Built :
      (repo : Repository) (issue_id : String) (found : Option IssueRecord) (p : StrategyPlan)
      → plan_found windows_absolute to_utc repo issue_id found ≡ ok p
      → (issue : IssueRecord) × (found ≡ some issue) × Built repo issue p
  unfolding plan_found
  plan_found-Built repo issue_id none p e = cc
  plan_found-Built repo issue_id (some issue) p e = (issue, refl, plan_of-Built repo issue p e)

  pub build_strategy_plan-issue :
      (repo : Repository) (issue_id : String) (p : StrategyPlan)
      → build_strategy_plan windows_absolute to_utc repo issue_id ≡ ok p
      → (issue : IssueRecord) × (issue_of repo.records issue_id ≡ some issue) × Built repo issue p
  unfolding build_strategy_plan
  build_strategy_plan-issue repo issue_id p e =
      plan_found-Built repo issue_id (issue_of repo.records issue_id) p e
