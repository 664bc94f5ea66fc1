-- ===== src/Strategy/Edges.antt =====
-- cosheaf/strategy/planner.py: the task graph of a plan that `build_strategy_plan` returns.
use tcs_cosheaf.Base.{String, List, [], ◌∷◌, ◌≡◌, In}
use tcs_cosheaf.Strategy.Models.{
  StrategyTaskNode, StrategyTaskEdge, StrategyTaskGraph, StrategyEdgeKind,
}
use tcs_cosheaf.Strategy.Ranking.{edges}

-- An edge of the graph from one task to another.
abbrev pub HasEdge : StrategyTaskGraph → StrategyEdgeKind → String → String → Type 0
HasEdge g kind from_node to_node =
    (e : StrategyTaskEdge) × In e g.edges
    × (e.kind ≡ kind)
    × (e.from_node ≡ from_node)
    × (e.to_node ≡ to_node)

-- A task of the graph that has the text in one of its lists.
abbrev pub HasTask : StrategyTaskGraph → (StrategyTaskNode → List String) → String → String → Type 0
HasTask g listed from_node to_node =
    (n : StrategyTaskNode) × In n g.nodes × (n.node_id ≡ to_node) × In from_node (listed n)

-- No identifier occurs twice.
abbrev pub NoneTwice : List String → Type 0
NoneTwice [] = Unit
NoneTwice (s ∷ ss) = (¬ In s ss) × NoneTwice ss
