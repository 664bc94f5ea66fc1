-- ===== src/Graph/Build.antt =====
-- cosheaf/graph/claim_graph.py: the graph and its issues.
use tcs_cosheaf.Base.{
  String, suc, Bool, not, ◌&&◌, ◌||◌, List, [], ◌∷◌, Option, none, some, if◌then◌else◌, keep,
  collect, concat, sort, str_eq, not_gt, key_order, is_empty, length, map,
}
use tcs_cosheaf.Core.Status.{type_value, status_value, is_accepted_status, is_preaccepted_status}
use tcs_cosheaf.Core.Artifact.{BaseArtifact}
use tcs_cosheaf.Storage.{LoadedRecord, record_id, as_artifact, is_artifact, per_artifact}
use tcs_cosheaf.Gates.Dependency.{get_by_id, distinct, text_le}
use tcs_cosheaf.Graph.Cycles.{elem, cycle_le, visit_all, visit}

pub record GraphNode : Type 0 where
  pub artifact_id : String
  pub artifact_type : String
  pub status : String
  pub path : String
  pub title : String
  pub domain : List String

pub record GraphEdge : Type 0 where
  pub source_id : String
  pub target_id : String

pub record GraphIssue : Type 0 where
  pub source_id : String
  pub target_id : String
  pub source_path : String
  pub message : String

pub record DependencyGraph : Type 0 where
  pub nodes : List GraphNode
  pub edges : List GraphEdge
  pub missing_dependencies : List GraphIssue
  pub cycles : List (List String)
  pub accepted_draft_violations : List GraphIssue

unfoldable pub has_issues : DependencyGraph → Bool
has_issues g =
    not (is_empty g.missing_dependencies)
    || (not (is_empty g.cycles) || not (is_empty g.accepted_draft_violations))

unfoldable pub node_from_loaded : LoadedRecord → BaseArtifact → List GraphNode
node_from_loaded loaded artifact =
    record {
      artifact_id = artifact.id;
      artifact_type = type_value artifact.type;
      status = status_value artifact.status;
      path = loaded.source_path;
      title = artifact.title;
      domain = artifact.domain;
    }
    ∷ []

-- The edges of one artifact.
unfoldable pub edges_of : LoadedRecord → BaseArtifact → List GraphEdge
edges_of loaded artifact =
    map (λ d. record { source_id = artifact.id; target_id = d }) artifact.depends_on

unfoldable pub edges_from_records : List LoadedRecord → List GraphEdge
edges_from_records records = collect (per_artifact edges_of) records

abbrev pub edge_le : GraphEdge → GraphEdge → Bool
unfolding key_order
edge_le a b = not_gt (key_order (a.source_id ∷ a.target_id ∷ []) (b.source_id ∷ b.target_id ∷ []))

abbrev pub issue_le : GraphIssue → GraphIssue → Bool
unfolding key_order
issue_le a b = not_gt (
    key_order (a.source_id ∷ a.target_id ∷ a.source_path ∷ a.message ∷ [])
      (b.source_id ∷ b.target_id ∷ b.source_path ∷ b.message ∷ []))

abbrev pub sort_issues : List GraphIssue → List GraphIssue
sort_issues issues = sort issue_le issues

abbrev issue_row : LoadedRecord → BaseArtifact → String → List String → GraphIssue
issue_row loaded artifact dependency_id message = record {
  source_id = artifact.id;
  target_id = dependency_id;
  source_path = loaded.source_path;
  message = concat message;
}

-- A round of the loop of `_find_missing_dependencies`; `records` are those of the dictionary.
unfoldable pub missing_issues :
    List LoadedRecord → LoadedRecord → BaseArtifact → String → List GraphIssue
missing_issues records loaded artifact dependency_id = elim (get_by_id dependency_id records) [
  | some dependency ↦ []
  | none ↦
      issue_row loaded artifact dependency_id ("missing dependency: " ∷ dependency_id ∷ []) ∷ []
]

unfoldable pub find_missing_dependencies : List LoadedRecord → List GraphIssue
find_missing_dependencies records = sort_issues (
    collect (per_artifact (λ loaded a. collect (missing_issues records loaded a) a.depends_on))
      records)

-- A round of the loop of `_find_accepted_draft_violations`.
unfoldable pub violation_issues :
    List LoadedRecord → LoadedRecord → BaseArtifact → String → List GraphIssue
violation_issues records loaded artifact dependency_id = elim (get_by_id dependency_id records) [
  | none ↦ []
  | some dependency ↦ elim (as_artifact dependency) [
    | none ↦ []
    | some target ↦
        if is_accepted_status artifact.status && is_preaccepted_status target.status
        then issue_row loaded artifact dependency_id
            ("accepted artifact depends on draft artifact: " ∷ dependency_id ∷ [])
          ∷ []
        else []
  ]
]

unfoldable pub find_accepted_draft_violations : List LoadedRecord → List GraphIssue
find_accepted_draft_violations records = sort_issues (
    collect (per_artifact (λ loaded a. collect (violation_issues records loaded a) a.depends_on))
      records)

-- `adjacency[id]`, for the edges in their order.
unfoldable pub adjacency : List GraphEdge → List String → String → List String
adjacency edges known id = sort text_le (
    map (λ e. e.target_id)
      (keep (λ e. str_eq e.source_id id && elem e.target_id known)
        (keep (λ e. elem e.source_id known) edges)))

-- `known` is sorted.
unfoldable pub find_cycles : List GraphEdge → List String → Option (List (List String))
find_cycles edges known =
    elim (visit_all (visit (adjacency edges known) (suc (length known)) []) known
      (record { cycles = []; visited = [] })) [
        | none ↦ none
        | some state ↦ some (sort cycle_le state.cycles)
      ]

abbrev pub id_path_le : LoadedRecord → LoadedRecord → Bool
unfolding key_order record_id
id_path_le a b =
    not_gt (key_order (record_id a ∷ a.source_path ∷ []) (record_id b ∷ b.source_path ∷ []))

abbrev pub artifact_records : List LoadedRecord → List LoadedRecord
artifact_records records = sort id_path_le (keep is_artifact records)

-- `sorted(known_ids)`, the keys of the dictionary.
abbrev pub known_ids : List LoadedRecord → List String
known_ids records = sort text_le (distinct (map record_id records))

unfoldable pub build_dependency_graph : List LoadedRecord → Option DependencyGraph
unfolding find_cycles
build_dependency_graph loaded_records =
    let records = artifact_records loaded_records in
    let edges = sort edge_le (edges_from_records records) in
    elim (find_cycles edges (known_ids records)) [
      | none ↦ none
      | some cycles ↦ some (record {
        nodes = collect (per_artifact node_from_loaded) records;
        edges = edges;
        missing_dependencies = find_missing_dependencies records;
        cycles = cycles;
        accepted_draft_violations = find_accepted_draft_violations records;
      })
    ]
