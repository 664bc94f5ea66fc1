-- ===== src/Lib.antt =====
-- TCS-Cosheaf: a verification library of the knowledge base's core, its gates, its promotion
-- checks, and the graph, campaigns, issues, strategy plans and context previews that stand on them.
--
-- The program keeps artifacts (claims, proofs, constructions) as YAML records under `kb/`. Loading
-- validates each record (cosheaf/core, cosheaf/storage); the gatekeeper (cosheaf/gates/gatekeeper.py)
-- runs ten gates over the loaded records and reports a verdict; the readiness report
-- (cosheaf/gates/promotion_readiness.py) reads the records and that report and says whether an
-- artifact, or the artifacts of an issue, may be promoted. The claim graph
-- (cosheaf/graph/claim_graph.py) looks for missing dependencies and cycles among the same records;
-- the context policy (cosheaf/services/context_policy.py) decides which cards a provider may see for
-- an issue; the issue service (cosheaf/issues/service.py) keeps the issues' files; campaigns
-- (cosheaf/campaigns) bound the attempts at an issue, and a strategy plan
-- (cosheaf/strategy/planner.py) ranks the tasks it leads to; the orchestrator
-- (cosheaf/orchestrator_fsm/fsm.py) moves a workflow record through its states.
--
--   Base          shared names; comprehensions, texts, the stable sort, and results with `do`
--   Core          cosheaf/core: Ids (`validate_artifact_id`), Status (`expected_status_for_path`),
--                 Paths (`lifecycle_artifact_path`), Artifact and Validate (core/artifact.py, its
--                 validators run in pydantic's order by `validate_artifact`); Regex is the matcher
--                 of `re.fullmatch`, by derivatives
--   Storage       cosheaf/storage/loader.py: the loaded records
--   Gates         Failure (schema_gate.py), Dependency (dependency_gate.py), StatusPath
--                 (status_gate.py), SourceMetadata (source_metadata_gate.py), Gatekeeper and Report
--                 (gatekeeper.py: `run_gates`, `build_report`, `run_gatekeeper`), FormalLink
--                 (formal_link_gate.py), Reproducible (reproducibility_gate.py), and Whole, which
--                 gives the gatekeeper what these two find
--   Promotion     promotion_readiness.py: Reasons, Evidence, Report, and Readiness
--                 (`build_promotion_readiness_report`)
--   Campaigns     campaigns/models.py: Texts, Records (`validate_attempt`), Campaign
--                 (`ResearchCampaign` and its methods), Scorecard; campaigns/storage.py: Control
--                 (`pause_campaign`, `resume_campaign`, `run_campaign`); Stored, Kept, Lifecycle,
--                 Terminal, Final and Counted hold the proofs
--   Context       Preview: services/context_policy.py (`provider_scope_decision`,
--                 `provider_preview`)
--   Graph         graph/claim_graph.py: Build (`build_dependency_graph`) and Cycles (`visit`); Order,
--                 Search and Issues hold the proofs
--   Issues        Service: issues/service.py (`create`, `show`, `update`, `close`, `list_issues`)
--                 over a store of files; Files holds the proofs
--   Strategy      strategy/models.py: Texts, Models (`validate_node`, `graph_consistency`);
--                 strategy/planner.py: Sources (what is read), Planner (the tasks), Ranking
--                 (`rank_next_steps`) and Plan (`build_strategy_plan`); Nodes, Consistent, Edges and
--                 Ranked hold the proofs
--   Workflow      Fsm: orchestrator_fsm/fsm.py (`transition_state`, `next_action`)
--   Examples      tests and runs on concrete records
--
-- A text is the native string, whose order is that of code points, as Python's is. A `datetime` is a
-- count of microseconds with a flag for its time zone. A loop that extends a list is `collect`, a
-- comprehension is `keep`, and `sorted` is `sort`. An exception is `err` with its message. The list of
-- events that an orchestrator's copies share stands in a store under an address, and the files of the
-- issues are a list of paths with contents, where a written YAML file gives the data back. The clock
-- is an argument. Loops are structural but for the search for cycles, which runs on as much fuel as
-- there are identifiers and one: every call of it pushes an identifier that is not on the stack.
--
-- Parameters: the file system (whether a path lies in the repository and exists), pathlib's test for
-- absolute Windows paths, `json.dumps` of an attempt, the results of the verifiers, the manifest of
-- formal libraries, what `datetime.astimezone` returns, the research runs that load, the findings of
-- the scan of a campaign's files, the search of memory cards, and the loaders of strategy plans and
-- counterexample evidence, which run before the code modelled here. A change of a campaign dumps it
-- and validates the whole again, the nested records included; pydantic takes those that are given as
-- instances as they are, and the model says for each operation which these are.
--
-- Not modelled: YAML parsing and the writing of reports (calls of the file system and of libraries),
-- the gates' display details but for the verifier results, and the services, servers,
-- agents, the operator tasks of campaigns, research runs and evaluations that stand on this core.
pub mod Base
pub mod Core
pub mod Storage
pub mod Gates
pub mod Promotion
pub mod Campaigns
pub mod Context
pub mod Graph
pub mod Issues
pub mod Strategy
pub mod Workflow
pub mod Examples
