-- ===== src/Graph.antt =====
-- cosheaf/graph/claim_graph.py: the dependency graph of the loaded artifacts.
pub mod Cycles
pub mod Build
pub mod Issues
pub mod Order
pub mod Search
