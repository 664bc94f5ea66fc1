-- ===== src/Examples/GraphRuns.antt =====
-- Runs of the claim graph of cosheaf/graph/claim_graph.py.
use tcs_cosheaf.Graph.Cycles.{add_cycle, canonical_cycle, elem, visit, visit_all}
use tcs_cosheaf.Base.{false, List, [], ◌∷◌, ◌≡◌, ◌↔◌, refl, some, length, keep, any, collect, sort}
use tcs_cosheaf.Storage.{LoadedRecord, record_id, per_artifact}
use tcs_cosheaf.Gates.Dependency.{
  validate_id_uniqueness, duplicate_failures, get_by_id, path_failures, paths_of,
}
use tcs_cosheaf.Gates.DependencyLaws.{IsUnique, validate_id_uniqueness_iff}
use tcs_cosheaf.Graph.Build.{
  DependencyGraph, has_issues, find_cycles, find_missing_dependencies, build_dependency_graph,
  adjacency, missing_issues,
}
use tcs_cosheaf.Graph.Issues.{IsClean, build_dependency_graph_iff}
use tcs_cosheaf.Examples.Samples.{known_record, new_record}

abbrev two_records : List LoadedRecord
two_records = new_record ∷ known_record ∷ []

-- Two artifacts that depend on each other are a cycle, which starts with the lesser one.
cycle_run :
    find_cycles
      (record { source_id = "b"; target_id = "a" }
        ∷ record { source_id = "a"; target_id = "b" }
        ∷ [])
      ("a" ∷ "b" ∷ [])
    ≡ some (("a" ∷ "b" ∷ "a" ∷ []) ∷ [])
unfolding find_cycles visit_all visit elem any adjacency sort keep add_cycle canonical_cycle
cycle_run = refl

-- A dependency outside the repository is reported as missing.
external_run : length (find_missing_dependencies two_records) ≡ 1
unfolding find_missing_dependencies sort collect per_artifact missing_issues get_by_id record_id
external_run = refl

known_alone : validate_id_uniqueness (known_record ∷ []) ≡ []
unfolding validate_id_uniqueness sort duplicate_failures path_failures paths_of
known_alone = refl

known-IsUnique : IsUnique (known_record ∷ [])
known-IsUnique = (validate_id_uniqueness_iff (known_record ∷ [])).0 known_alone

build_dependency_graph_iff_example :
    (g : DependencyGraph) × (build_dependency_graph (known_record ∷ []) ≡ some g)
    × ((has_issues g ≡ false) ↔ IsClean (known_record ∷ []))
build_dependency_graph_iff_example = build_dependency_graph_iff (known_record ∷ []) known-IsUnique
