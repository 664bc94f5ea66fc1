-- ===== src/Strategy/Sources.antt =====
-- cosheaf/strategy/planner.py: what the planner reads. What the file system gives is an input: the
-- loaded records, the checked counterexample records, which are `none` where loading them fails,
-- and the research runs that load, in the order of their paths.
use tcs_cosheaf.Base.{
  String, Bool, true, false, ◌||◌, List, [], ◌∷◌, Option, none, some, if◌then◌else◌, map, keep,
  collect, str_eq, sort, not_gt, key_order,
}
use tcs_cosheaf.Core.Artifact.{BaseArtifact, FailureLogEntry}
use tcs_cosheaf.Storage.{LoadedRecord, LoadedModel, IssueRecord, as_artifact}
use tcs_cosheaf.Gates.Dependency.{distinct, text_le}
use tcs_cosheaf.Promotion.Evidence.{CheckedEvidence}
use tcs_cosheaf.Strategy.Models.{among}

-- Of cosheaf/research/run.py's record, what the planner reads.
pub record ResearchRunRecord : Type 0 where
  pub run_id : String
  pub issue_id : String

pub record Repository : Type 0 where
  pub records : List LoadedRecord
  pub evidence : Option (List CheckedEvidence)
  pub runs : List ResearchRunRecord

-- The entry of a dictionary that is filled in the order of a list.
abbrev last_of : {A : Type 0} → List A → Option A
last_of [] = none
last_of (x ∷ []) = some x
last_of (x ∷ y ∷ rest) = last_of (y ∷ rest)

issue_entry : String → LoadedModel → List IssueRecord
issue_entry id (LoadedModel.issue i) = if str_eq i.id id then i ∷ [] else []
issue_entry id _ = []

-- `issues.get(id)`
unfoldable pub issue_of : List LoadedRecord → String → Option IssueRecord
unfolding collect issue_entry
issue_of records id = last_of (collect (λ (r : LoadedRecord). issue_entry id r.model) records)

artifact_entry : String → LoadedRecord → List (LoadedRecord × BaseArtifact)
artifact_entry id loaded = elim (as_artifact loaded) [
  | none ↦ []
  | some a ↦ if str_eq a.id id then (loaded, a) ∷ [] else []
]

-- `artifacts.get(id)`
unfoldable pub artifact_of : List LoadedRecord → String → Option (LoadedRecord × BaseArtifact)
unfolding collect artifact_entry
artifact_of records id = last_of (collect (artifact_entry id) records)

abbrev is_known : List LoadedRecord → String → Bool
is_known records id = elim (artifact_of records id) [ none ↦ false | some a ↦ true ]

abbrev entries_of : List LoadedRecord → String → List (LoadedRecord × BaseArtifact)
entries_of records id = elim (artifact_of records id) [ none ↦ [] | some a ↦ a ∷ [] ]

-- `artifacts[id]` of each identifier; they are all known.
unfoldable pub base_artifacts_for_ids :
    List LoadedRecord → List String → List (LoadedRecord × BaseArtifact)
unfolding artifact_of collect
base_artifacts_for_ids records ids = collect (entries_of records) ids

unfoldable pub issue_related_artifact_ids : List LoadedRecord → List String → List String
unfolding keep artifact_of
issue_related_artifact_ids records related = keep (is_known records) related

unfoldable pub one_hop_dependency_ids : List LoadedRecord → List String → List String
unfolding base_artifacts_for_ids keep distinct
one_hop_dependency_ids records ids = distinct (
    keep (is_known records) (
      collect (λ (entry : LoadedRecord × BaseArtifact). entry.1.depends_on)
        (base_artifacts_for_ids records ids)))

unfoldable pub entry_le : BaseArtifact × FailureLogEntry → BaseArtifact × FailureLogEntry → Bool
unfolding key_order
entry_le (a, f) (b, g) = not_gt (key_order (f.failure_id ∷ a.id ∷ []) (g.failure_id ∷ b.id ∷ []))

unfoldable pub failure_entries : List BaseArtifact → List (BaseArtifact × FailureLogEntry)
unfolding collect sort
failure_entries artifacts =
    sort entry_le
      (collect (λ (a : BaseArtifact). map (λ entry. (a, entry)) a.failure_log) artifacts)

unfoldable pub candidate_counterexample_ids : List (BaseArtifact × FailureLogEntry) → List String
unfolding distinct collect
candidate_counterexample_ids entries = distinct (
    collect (λ (e : BaseArtifact × FailureLogEntry). e.1.related_counterexample_candidates) entries)

unfoldable pub checked_evidence_for_issue :
    Option (List CheckedEvidence) → List String → List String → List CheckedEvidence
unfolding keep
checked_evidence_for_issue none targets candidates = []
checked_evidence_for_issue (some loaded) targets candidates =
    keep
      (λ (e : CheckedEvidence).
        among targets e.target_artifact_id || among candidates e.candidate_id)
      loaded

unfoldable pub research_runs_for_issue : List ResearchRunRecord → String → List ResearchRunRecord
unfolding keep sort
research_runs_for_issue runs issue_id =
    sort (λ (a b : ResearchRunRecord). text_le a.run_id b.run_id)
      (keep (λ (r : ResearchRunRecord). str_eq r.issue_id issue_id) runs)
