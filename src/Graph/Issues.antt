-- ===== src/Graph/Issues.antt =====
-- What a graph without issues says of the records that it was built from.
use tcs_cosheaf.Base.{
  String, true, false, not, ◌&&◌, ◌||◌, is_empty, List, [], ◌∷◌, ◌≡◌, ◌↔◌, refl, sym, ◌∙◌, ap, inl,
  inr, arith, some, some_inj, if◌then◌else◌, Bool-cases, Option-cases, In, All-at, All-of_In, keep,
  In-keep, In-keep_of, In-sort, In-sort_of, In-map, In-map_of, sort, sort-eq-nil, collect,
  collect-eq-nil, collect-nil, str_eq, eq_iff, map,
}
use tcs_cosheaf.Core.Status.{accepted, is_accepted_status, is_preaccepted_status}
use tcs_cosheaf.Core.Artifact.{BaseArtifact}
use tcs_cosheaf.Storage.{
  LoadedRecord, record_id, as_artifact, LoadedModel, model_artifact, model_id, artifact, issue,
  review, task, is_artifact, per_artifact, per_artifact_iff, In-per_artifact, In-per_artifact_of,
}
use tcs_cosheaf.Gates.Dependency.{get_by_id, distinct, text_le}
use tcs_cosheaf.Gates.DependencyLaws.{
  IsUnique, In-distinct, In-distinct_of, get_by_id_sound, get_by_id_found,
}
use tcs_cosheaf.Gates.DependencyRules.{accepted_iff, IsUnique-eq}
use tcs_cosheaf.Graph.Cycles.{elem, cycle_le, SearchState}
use tcs_cosheaf.Graph.Order.{IsTopological}
use tcs_cosheaf.Graph.Search.{In-elem, elem-In, search_all, search_all-some, search_all_iff}
use tcs_cosheaf.Graph.Build.{
  GraphEdge, DependencyGraph, has_issues, edges_of, edges_from_records, edge_le, issue_le,
  missing_issues, find_missing_dependencies, violation_issues, find_accepted_draft_violations,
  adjacency, find_cycles, id_path_le, artifact_records, known_ids, node_from_loaded,
  build_dependency_graph,
}

-- A dependency that is loaded, and past review where its user is accepted.
pub record IsSettled (records : List LoadedRecord) (a : BaseArtifact) (d : String) : Type 0 where
  pub dependency : LoadedRecord
  pub target : BaseArtifact
  pub loaded_too : In dependency records
  pub named : record_id dependency ≡ d
  pub typed : as_artifact dependency ≡ some target
  pub settled : a.status ≡ accepted → is_preaccepted_status target.status ≡ false

-- The dependencies of the artifacts of an identifier.
abbrev pub uses : List LoadedRecord → String → List String
uses records v =
    collect (per_artifact (λ loaded a. if str_eq a.id v then a.depends_on else [])) records

-- An order of identifiers in which an artifact comes before all that it depends on.
pub record IsLinear (records : List LoadedRecord) (order : List String) : Type 0 where
  pub placed :
      (loaded : LoadedRecord) (a : BaseArtifact)
      → In loaded records
      → as_artifact loaded ≡ some a
      → In a.id order
  pub before : IsTopological (uses records) order

weaker :
    (f g : String → List String) (order : List String)
    → IsTopological f order
    → ((v d : String) → In v order → In d (g v) → In d (f v))
    → IsTopological g order
weaker f g [] h more = tt
weaker f g (v ∷ vs) h more =
    (λ d m. h.0 d (more v d (inl refl) m), weaker f g vs h.1 (λ u d m. more u d (inr m)))

module _ (records : List LoadedRecord) where
  abbrev sorted : List LoadedRecord
  sorted = artifact_records records

  abbrev known : List String
  known = known_ids sorted

  abbrev edges : List GraphEdge
  edges = sort edge_le (edges_from_records sorted)

  In-sorted : (r : LoadedRecord) → In r sorted → In r records × (is_artifact r ≡ true)
  In-sorted r m = In-keep is_artifact records r (In-sort id_path_le r (keep is_artifact records) m)

  In-sorted_of :
      (r : LoadedRecord) {a : BaseArtifact} → In r records → as_artifact r ≡ some a → In r sorted
  In-sorted_of r m e =
      In-sort_of id_path_le r (keep is_artifact records)
        (In-keep_of is_artifact records r m (ground arith))

  In-known_of : (r : LoadedRecord) → In r sorted → In (record_id r) known
  In-known_of r m =
      In-sort_of text_le (record_id r) (distinct (map record_id sorted))
        (In-distinct_of (map record_id sorted) (record_id r) (In-map record_id sorted r m))

  closed : (v d : String) → In v known → In d (adjacency edges known v) → In d known
  unfolding adjacency
  closed v d m n =
      let (e, here, same) =
        In-map_of (λ (e : GraphEdge). e.target_id)
          (keep (λ e. str_eq e.source_id v && elem e.target_id known)
            (keep (λ e. elem e.source_id known) edges))
          d (In-sort text_le d _ n) in
      let (_, test) = In-keep (λ e. str_eq e.source_id v && elem e.target_id known) _ e here in
      elem-In d known (rw (← same) (ground arith))

  cycles_some : (t : SearchState) × (search_all (adjacency edges known) known closed ≡ some t)
  cycles_some = search_all-some (adjacency edges known) known closed

  abbrev built : List (List String) → DependencyGraph
  built cycles = record {
    nodes = collect (per_artifact node_from_loaded) sorted;
    edges = edges;
    missing_dependencies = find_missing_dependencies sorted;
    cycles = cycles;
    accepted_draft_violations = find_accepted_draft_violations sorted;
  }

  built_from :
      (t : SearchState)
      → search_all (adjacency edges known) known closed ≡ some t
      → build_dependency_graph records ≡ some (built (sort cycle_le t.cycles))
  unfolding build_dependency_graph find_cycles
  built_from t e = rw (e, build_dependency_graph, find_cycles) refl

  -- The graph is built.
  pub build_dependency_graph-some :
      (g : DependencyGraph) × (build_dependency_graph records ≡ some g)
  build_dependency_graph-some =
      let (t, e) = cycles_some in (built (sort cycle_le t.cycles), built_from t e)

  model_artifact-id :
      (loaded : LoadedRecord) (a : BaseArtifact)
      → as_artifact loaded ≡ some a
      → record_id loaded ≡ a.id
  unfolding record_id model_id
  model_artifact-id loaded a e = by_model loaded.model e
    where
      by_model : (m : LoadedModel) → model_artifact m ≡ some a → model_id m ≡ a.id
      by_model (artifact b) h = ap (λ x. x.id) (some_inj h)
      by_model (issue b) h = cc
      by_model (review b) h = cc
      by_model (task b) h = cc

  -- An edge is a dependency of a loaded artifact, and the other way around.
  uses-In :
      (v d : String)
      → In d (uses records v)
      → (loaded : LoadedRecord) × (a : BaseArtifact) × In loaded records
        × (as_artifact loaded ≡ some a)
        × (a.id ≡ v)
        × In d a.depends_on
  uses-In v d m =
      let (loaded, a, here, e, n) =
        In-per_artifact (λ loaded a. if str_eq a.id v then a.depends_on else []) records d m in
      elim (Bool-cases (str_eq a.id v)) [
        | inl f ↦ (loaded, a, here, e, (eq_iff a.id v).0 f, rw (f, if◌then◌else◌) at n)
        | inr f ↦ absurd (rw (f, if◌then◌else◌) at n)
      ]

  In-uses :
      (loaded : LoadedRecord) (a : BaseArtifact) (d : String)
      → In loaded records
      → as_artifact loaded ≡ some a
      → In d a.depends_on
      → In d (uses records a.id)
  In-uses loaded a d m e n =
      In-per_artifact_of (λ loaded b. if str_eq b.id a.id then b.depends_on else []) records loaded
        a d m e (rw ((eq_iff a.id a.id).1 refl) n)

  adjacency-uses : (v d : String) → In d (adjacency edges known v) → In d (uses records v)
  unfolding adjacency edges_of edges_from_records
  adjacency-uses v d n =
      let (e, here, same) =
        In-map_of (λ (e : GraphEdge). e.target_id)
          (keep (λ e. str_eq e.source_id v && elem e.target_id known)
            (keep (λ e. elem e.source_id known) edges))
          d (In-sort text_le d _ n) in
      let (kept, test) = In-keep (λ e. str_eq e.source_id v && elem e.target_id known) _ e here in
      let (kept', _) = In-keep (λ e. elem e.source_id known) edges e kept in
      let (loaded, a, there, f, row) =
        In-per_artifact edges_of sorted e (In-sort edge_le e (edges_from_records sorted) kept') in
      let (x, listed, eq) =
        In-map_of (λ t. record { source_id = a.id; target_id = t }) a.depends_on e row in
      let source : a.id ≡ v = ap (λ e. e.source_id) eq ∙ (eq_iff e.source_id v).0 (ground arith) in
      rw (← source, ← same, ← eq) (In-uses loaded a x (In-sorted loaded there).0 f listed)

  uses-adjacency :
      (v d : String) → In d (uses records v) → In d known → In d (adjacency edges known v)
  unfolding adjacency edges_of edges_from_records
  uses-adjacency v d n k =
      let (loaded, a, here, e, same, listed) = uses-In v d n in
      let row : GraphEdge = record { source_id = a.id; target_id = d } in
      let kept = In-known_of loaded (In-sorted_of loaded here e) in
      let kept' : In a.id known = rw (← model_artifact-id loaded a e) kept in
      In-sort_of text_le d _ (
        In-map (λ (e : GraphEdge). e.target_id) _ row
          (In-keep_of (λ e. str_eq e.source_id v && elem e.target_id known) _ row
            (In-keep_of (λ e. elem e.source_id known) edges row
              (In-sort_of edge_le row (edges_from_records sorted) (
                In-per_artifact_of edges_of sorted loaded a row (In-sorted_of loaded here e) e
                  (In-map (λ t. record { source_id = a.id; target_id = t }) a.depends_on d listed)))
              (In-elem a.id known kept'))
            (rw ((eq_iff a.id v).1 same, In-elem d known k) refl)))

  missing_iff : (find_missing_dependencies sorted ≡ []) ↔ (
      (loaded : LoadedRecord) (a : BaseArtifact) (d : String)
      → In loaded records
      → as_artifact loaded ≡ some a
      → In d a.depends_on
      → (r : LoadedRecord) × (get_by_id d sorted ≡ some r))
  unfolding find_missing_dependencies missing_issues sort
  missing_iff = (
    λ h loaded a d m e n.
        let each =
          (per_artifact_iff (λ loaded a. collect (missing_issues sorted loaded a) a.depends_on)
              sorted).0
            (sort-eq-nil issue_le _ h) loaded a (In-sorted_of loaded m e) e in
        let quiet =
          All-at (λ x. missing_issues sorted loaded a x ≡ []) a.depends_on
            (collect-eq-nil (missing_issues sorted loaded a) a.depends_on each) d n in
        elim (Option-cases (get_by_id d sorted)) [
          | inl f ↦ absurd (let k = (rw (f, missing_issues) at quiet) in cc)
          | inr r ↦ r
        ],
    λ h. ap (sort issue_le) (
        (per_artifact_iff (λ loaded a. collect (missing_issues sorted loaded a) a.depends_on)
            sorted).1
          (λ loaded a m e. collect-nil (missing_issues sorted loaded a) a.depends_on (
            All-of_In (λ x. missing_issues sorted loaded a x ≡ []) a.depends_on
              (λ d n.
                let (r, f) = h loaded a d (In-sorted loaded m).0 e n in
                rw (f, missing_issues) refl)))),
  )

  violations_iff : (find_accepted_draft_violations sorted ≡ []) ↔ (
      (loaded : LoadedRecord) (a : BaseArtifact) (d : String) (r : LoadedRecord) (b : BaseArtifact)
      → In loaded records
      → as_artifact loaded ≡ some a
      → In d a.depends_on
      → get_by_id d sorted ≡ some r
      → as_artifact r ≡ some b
      → a.status ≡ accepted
      → is_preaccepted_status b.status ≡ false)
  unfolding find_accepted_draft_violations sort violation_issues
  violations_iff = (
    λ h loaded a d r b m e n f g st.
        let each =
          (per_artifact_iff (λ loaded a. collect (violation_issues sorted loaded a) a.depends_on)
              sorted).0
            (sort-eq-nil issue_le _ h) loaded a (In-sorted_of loaded m e) e in
        let quiet =
          All-at (λ x. violation_issues sorted loaded a x ≡ []) a.depends_on
            (collect-eq-nil (violation_issues sorted loaded a) a.depends_on each) d n in
        elim (Bool-cases (is_preaccepted_status b.status)) [
          | inl x ↦ absurd (
              let k = (rw (f, g, (accepted_iff a.status).1 st, x, violation_issues) at quiet) in cc)
          | inr x ↦ x
        ],
    λ h. ap (sort issue_le) (
        (per_artifact_iff (λ loaded a. collect (violation_issues sorted loaded a) a.depends_on)
            sorted).1
          (λ loaded a m e. collect-nil (violation_issues sorted loaded a) a.depends_on (
            All-of_In (λ x. violation_issues sorted loaded a x ≡ []) a.depends_on
              (λ d n.
                no_violation loaded a d
                  (λ r b f g. h loaded a d r b (In-sorted loaded m).0 e n f g))))),
  )
    where
      no_violation :
          (loaded : LoadedRecord) (a : BaseArtifact) (d : String)
          → ((r : LoadedRecord) (b : BaseArtifact)
              → get_by_id d sorted ≡ some r
              → as_artifact r ≡ some b
              → a.status ≡ accepted
              → is_preaccepted_status b.status ≡ false)
          → violation_issues sorted loaded a d ≡ []
      no_violation loaded a d h = elim (Option-cases (get_by_id d sorted)) [
        | inl f ↦ rw (f, violation_issues) refl
        | inr (r, f) ↦ elim (Option-cases (as_artifact r)) [
          | inl g ↦ rw (f, g, violation_issues) refl
          | inr (b, g) ↦ elim (Bool-cases (is_accepted_status a.status)) [
            | inl x ↦ rw (f, g, x, h r b f g ((accepted_iff a.status).0 x), violation_issues) refl
            | inr x ↦ rw (f, g, x, violation_issues) refl
          ]
        ]
      ]

has_issues-false_iff :
    (g : DependencyGraph)
    → (has_issues g ≡ false)
      ↔ ((g.missing_dependencies ≡ []) × (g.cycles ≡ []) × (g.accepted_draft_violations ≡ []))
unfolding has_issues
has_issues-false_iff g = by_rows g.missing_dependencies g.cycles g.accepted_draft_violations
  where
    by_rows :
        {A B C : Type 0} (xs : List A) (ys : List B) (zs : List C)
        → (not (is_empty xs) || (not (is_empty ys) || not (is_empty zs)) ≡ false)
          ↔ ((xs ≡ []) × (ys ≡ []) × (zs ≡ []))
    by_rows [] [] [] = (λ h. (refl, refl, refl), λ h. refl)
    by_rows (x ∷ xs) ys zs = (λ h. cc, λ h. cc)
    by_rows [] (y ∷ ys) zs = (λ h. cc, λ h. cc)
    by_rows [] [] (z ∷ zs) = (λ h. cc, λ h. cc)

-- Every dependency is settled, and some order of the identifiers is linear.
abbrev pub IsClean : List LoadedRecord → Type 0
IsClean records =
    ((loaded : LoadedRecord) (a : BaseArtifact) (d : String)
      → In loaded records
      → as_artifact loaded ≡ some a
      → In d a.depends_on
      → IsSettled records a d)
    × ((order : List String) × IsLinear records order)

module _ (records : List LoadedRecord) (unique : IsUnique records) where
  module _ (t : SearchState)
      (e : search_all (adjacency (edges records) (known records)) (known records) (closed records)
        ≡ some t) where
    search_iff : (t.cycles ≡ []) ↔ (
        (order : List String) × IsTopological (adjacency (edges records) (known records)) order
        × ((v : String) → In v (known records) → In v order))
    search_iff =
        search_all_iff (adjacency (edges records) (known records)) (known records) (closed records)
          t e

    clean : has_issues (built records (sort cycle_le t.cycles)) ≡ false → IsClean records
    clean h =
        let (missing, cycles, violations) = (has_issues-false_iff _).0 h in
        let found = (missing_iff records).0 missing in
        let settled = (violations_iff records).0 violations in
        let (order, topological, all_in) = search_iff.0 (sort-eq-nil cycle_le t.cycles cycles) in
        (
          λ loaded a d m f n.
              let (r, g) = found loaded a d m f n in
              let (here, named) = get_by_id_sound d (artifact_records records) g in
              let (there, typed) = In-sorted records r here in
              elim (Option-cases (as_artifact r)) [
                | inl k ↦ absurd (ground arith)
                | inr (b, k) ↦ record {
                  dependency = r;
                  target = b;
                  loaded_too = there;
                  named = named;
                  typed = k;
                  settled = settled loaded a d r b m f n g k;
                }
              ],
          (
            order,
            record {
              placed = λ loaded a m f. all_in a.id (
                  rw (← model_artifact-id records loaded a f)
                    (In-known_of records loaded (In-sorted_of records loaded m f)));
              before =
                  weaker (adjacency (edges records) (known records)) (uses records) order
                    topological
                    (λ v d m n.
                      let (loaded, a, here, f, same, listed) = uses-In records v d n in
                      let (r, g) = found loaded a d here f listed in
                      let (rm, named) = get_by_id_sound d (artifact_records records) g in
                      uses-adjacency records v d n (rw (← named) (In-known_of records r rm)));
            },
          ),
        )

    placed_all :
        (order : List String)
        → IsLinear records order
        → (v : String) → In v (known records)
        → In v order
    placed_all order linear v m =
        let (r, here, same) = In-map_of record_id (artifact_records records) v (
          In-distinct _ v
            (In-sort text_le v (distinct (map record_id (artifact_records records))) m)) in
        let (there, typed) = In-sorted records r here in
        elim (Option-cases (as_artifact r)) [
          | inl k ↦ absurd (ground arith)
          | inr (a, k) ↦ rw (sym same ∙ model_artifact-id records r a k) (linear.placed r a there k)
        ]

    quiet : IsClean records → has_issues (built records (sort cycle_le t.cycles)) ≡ false
    unfolding sort
    quiet (settled, (order, linear)) = (has_issues-false_iff _).1 (
      (missing_iff records).1 (λ loaded a d m f n.
          let s = settled loaded a d m f n in
          get_by_id_found d (artifact_records records) s.dependency
            (In-sorted_of records s.dependency s.loaded_too s.typed) s.named),
      ap (sort cycle_le) (
          search_iff.1 (
            order,
            weaker (uses records) (adjacency (edges records) (known records)) order linear.before
                (λ v d m n. adjacency-uses records v d n),
            λ v m. placed_all order linear v m,
          )),
      (violations_iff records).1 (λ loaded a d r b m f n g k st.
          let s = settled loaded a d m f n in
          let (here, named) = get_by_id_sound d (artifact_records records) g in
          let same =
            IsUnique-eq records r s.dependency unique (In-sorted records r here).0 s.loaded_too
              (named ∙ sym s.named) in
          let target : b ≡ s.target = some_inj (sym k ∙ ap (λ x. as_artifact x) same ∙ s.typed) in
          rw target (s.settled st)),
    )

-- The graph of records with unique identifiers is built, and has no issues exactly if every
-- dependency is loaded, is past review where its user is accepted, and some order of the
-- identifiers puts every artifact before all that it depends on.
pub build_dependency_graph_iff :
    (records : List LoadedRecord)
    → IsUnique records
    → (g : DependencyGraph) × (build_dependency_graph records ≡ some g)
      × ((has_issues g ≡ false) ↔ IsClean records)
build_dependency_graph_iff records unique =
    let (t, e) = cycles_some records in
    (
      built records (sort cycle_le t.cycles),
      built_from records t e,
      (clean records unique t e, quiet records unique t e),
    )
