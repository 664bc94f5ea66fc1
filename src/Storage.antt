-- ===== src/Storage.antt =====
-- cosheaf/storage/loader.py: the loaded records. Of an agent task only the identifier is read
-- here; a path is its POSIX text.
use tcs_cosheaf.Base.{
  String, Bool, true, false, Option, none, some, List, [], ◌∷◌, not_gt, key_order, In, All-at,
  All-of_In, In-collect, In-collect_of, collect, collect-eq-nil, collect-nil, ◌≡◌, ◌↔◌, refl, sym,
  ◌∙◌, inl, inr, Option-cases,
}
use tcs_cosheaf.Core.Artifact.{BaseArtifact, RiskLevel, Timestamp}

pub data IssueStatus : Type 0 where
  open_issue blocked closed : IssueStatus

pub data IssueScope : Type 0 where
  private_scope public_scope : IssueScope

pub record IssueRecord : Type 0 where
  pub id : String
  pub title : String
  pub status : IssueStatus
  pub summary : String
  pub created_at : Timestamp
  pub updated_at : Timestamp
  pub authors : List String
  pub severity : RiskLevel
  pub labels : List String
  pub related_artifacts : List String
  pub related_sources : List String
  pub parent_issue : Option String
  pub external_links : List String
  pub scope : IssueScope
  pub close_reason : Option String

pub data ReviewStatus : Type 0 where
  draft human_reviewed accepted : ReviewStatus

pub data ReviewDecision : Type 0 where
  approve request_changes reject informational accept_for_private_use : ReviewDecision
  accept_for_public_candidate changes_requested keep_draft refute_candidate mark_obsolete :
      ReviewDecision

pub record ReviewRecord : Type 0 where
  pub id : String
  pub title : String
  pub status : ReviewStatus
  pub created_at : Timestamp
  pub updated_at : Timestamp
  pub authors : List String
  pub target : String
  pub summary : String
  pub findings : List String
  pub decision : ReviewDecision

pub record AgentTask : Type 0 where
  pub task_id : String

pub data LoadedModel : Type 0 where
  artifact : BaseArtifact → LoadedModel
  issue : IssueRecord → LoadedModel
  review : ReviewRecord → LoadedModel
  task : AgentTask → LoadedModel

pub record LoadedRecord : Type 0 where
  pub source_path : String
  pub model : LoadedModel
  pub kb_root_name : Option String
  pub kb_root_readonly : Bool
  pub kb_relative_path : Option String

unfoldable pub model_id : LoadedModel → String
model_id (artifact a) = a.id
model_id (issue i) = i.id
model_id (review r) = r.id
model_id (task t) = t.task_id

-- `LoadedRecord.id`
unfoldable pub record_id : LoadedRecord → String
unfolding model_id
record_id loaded = model_id loaded.model

abbrev pub model_artifact : LoadedModel → Option BaseArtifact
model_artifact (artifact a) = some a
model_artifact _ = none

-- `loaded.record` where it is an artifact.
abbrev pub as_artifact : LoadedRecord → Option BaseArtifact
as_artifact loaded = model_artifact loaded.model

abbrev pub is_artifact : LoadedRecord → Bool
is_artifact loaded = elim (as_artifact loaded) [ none ↦ false | some a ↦ true ]

-- `_record_sort_key`
unfoldable pub record_le : LoadedRecord → LoadedRecord → Bool
unfolding key_order record_id
record_le a b =
    not_gt (key_order (a.source_path ∷ record_id a ∷ []) (b.source_path ∷ record_id b ∷ []))

module _ {B : Type 0} (f : LoadedRecord → BaseArtifact → List B) where
  -- A round of a loop over the records that skips what is no artifact.
  unfoldable pub per_artifact : LoadedRecord → List B
  per_artifact loaded = elim (as_artifact loaded) [ none ↦ [] | some a ↦ f loaded a ]

  per_artifact-some :
      (loaded : LoadedRecord) (a : BaseArtifact)
      → as_artifact loaded ≡ some a
      → per_artifact loaded ≡ f loaded a
  unfolding per_artifact
  per_artifact-some loaded a e = rw (e, per_artifact) refl

  per_artifact-none : (loaded : LoadedRecord) → as_artifact loaded ≡ none → per_artifact loaded ≡ []
  unfolding per_artifact
  per_artifact-none loaded e = rw (e, per_artifact) refl

  -- Such a loop collects nothing exactly if it collects nothing at each artifact.
  pub per_artifact_iff :
      (records : List LoadedRecord)
      → (collect per_artifact records ≡ []) ↔ (
          (loaded : LoadedRecord) (a : BaseArtifact)
          → In loaded records
          → as_artifact loaded ≡ some a
          → f loaded a ≡ [])
  per_artifact_iff records = (
    λ h loaded a m e.
        sym (per_artifact-some loaded a e)
        ∙ All-at (λ r. per_artifact r ≡ []) records (collect-eq-nil per_artifact records h) loaded
            m,
    λ h. collect-nil per_artifact records (
        All-of_In (λ r. per_artifact r ≡ []) records
          (λ loaded m. elim (Option-cases (as_artifact loaded)) [
            | inl e ↦ per_artifact-none loaded e
            | inr (a, e) ↦ per_artifact-some loaded a e ∙ h loaded a m e
          ])),
  )

  pub In-per_artifact :
      (records : List LoadedRecord) (b : B)
      → In b (collect per_artifact records)
      → (loaded : LoadedRecord) × (a : BaseArtifact) × In loaded records
        × (as_artifact loaded ≡ some a)
        × In b (f loaded a)
  In-per_artifact records b m =
      let (loaded, here, n) = In-collect per_artifact records b m in
      elim (Option-cases (as_artifact loaded)) [
        | inl e ↦ absurd (rw (per_artifact-none loaded e) at n)
        | inr (a, e) ↦ (loaded, a, here, e, rw (per_artifact-some loaded a e) at n)
      ]

  pub In-per_artifact_of :
      (records : List LoadedRecord) (loaded : LoadedRecord) (a : BaseArtifact) (b : B)
      → In loaded records
      → as_artifact loaded ≡ some a
      → In b (f loaded a)
      → In b (collect per_artifact records)
  In-per_artifact_of records loaded a b m e n =
      In-collect_of per_artifact records loaded b m (rw (per_artifact-some loaded a e) n)
