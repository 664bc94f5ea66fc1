-- ===== src/Gates/RecordRules.antt =====
-- What no failure of cosheaf/gates/status_gate.py and cosheaf/gates/source_metadata_gate.py says.
use tcs_cosheaf.Base.{
  concat, inr, sym, ◌∙◌, String, ℕ, suc, true, false, not, List, [], ◌∷◌, ◌≡◌, ◌≢◌, ◌↔◌, refl, ◌⊎◌,
  inl, arith, none, some, In, All, All-at, All-of_In, blank, any-true, any_of_In, In-sort,
  In-sort_of, sort, sort-eq-nil, collect, collect-eq-nil, collect-nil, append-eq-nil, strip,
}
use tcs_cosheaf.Core.Paths.{lifecycle_artifact_path}
use tcs_cosheaf.Core.PathLaws.{admits, expected-lifecycle}
use tcs_cosheaf.Core.Status.{ArtifactStatus, accepted, status_in, expected_status_for_path}
use tcs_cosheaf.Core.Artifact.{BaseArtifact, SourceMetadata, Evidence}
use tcs_cosheaf.Storage.{
  LoadedRecord, as_artifact, record_le, per_artifact, per_artifact_iff, In-per_artifact,
  In-per_artifact_of,
}
use tcs_cosheaf.Gates.Failure.{failure_le, sort_failures}
use tcs_cosheaf.Gates.DependencyRules.{accepted_iff, root_is_iff}
use tcs_cosheaf.Gates.StatusPath.{
  status_path, status_failures, validate_status_paths, FileSystem, is_external_evidence,
  evidence_failures, validate_evidence_paths,
}
use tcs_cosheaf.Gates.SourceMetadata.{
  WorkspacePolicy, SourceMetadataCheck, has_citation_locator, missing_in_source, missing_from,
  missing_in_sources, missing_required_source_metadata, requires_source_metadata, source_check,
  source_checks_of, failures_of_check, validate_source_metadata_policy,
}

status_failures-nil :
    (loaded : LoadedRecord) (a : BaseArtifact)
    → (status_failures loaded a ≡ [])
      ↔ (status_in a.status (expected_status_for_path (status_path loaded)) ≡ true)
unfolding status_failures
status_failures-nil loaded a = (λ h. ground arith, λ h. rw h refl)

-- No status failure is reported exactly if every artifact has a status that its path allows.
pub validate_status_paths_iff :
    (records : List LoadedRecord)
    → (validate_status_paths records ≡ []) ↔ (
        (loaded : LoadedRecord) (a : BaseArtifact)
        → In loaded records
        → as_artifact loaded ≡ some a
        → status_in a.status (expected_status_for_path (status_path loaded)) ≡ true)
unfolding validate_status_paths
validate_status_paths_iff records =
    let (there, back) = per_artifact_iff status_failures records in
    (
      λ h loaded a m e. (status_failures-nil loaded a).0 (there h loaded a m e),
      λ h. back (λ loaded a m e. (status_failures-nil loaded a).1 (h loaded a m e)),
    )

-- A record that stands where the artifacts of the status `home` are kept: in the repository itself,
-- or in a root of the knowledge base, whose own paths leave the `kb` out.
abbrev pub IsKept : LoadedRecord → BaseArtifact → ArtifactStatus → Type 0
IsKept loaded a home =
    (path : String) × (lifecycle_artifact_path a.type home a.id ≡ some path)
    × (((loaded.kb_relative_path ≡ none) × (loaded.source_path ≡ path))
        ⊎ ((relative : String) × (loaded.kb_relative_path ≡ some relative)
            × (blank relative ≡ false)
            × (concat ("kb/" ∷ relative ∷ []) ≡ path)))

kept_admits :
    (loaded : LoadedRecord) (a : BaseArtifact) (home : ArtifactStatus)
    → IsKept loaded a home
    → status_in a.status (expected_status_for_path (status_path loaded)) ≡ admits home a.status
unfolding status_path
kept_admits loaded a home (path, at_home, inl (bare, same)) =
    rw (bare, same) (expected-lifecycle a.type home a.id a.status at_home)
kept_admits loaded a home (path, at_home, inr (relative, rooted, written, same)) =
    rw (rooted, written, same) (expected-lifecycle a.type home a.id a.status at_home)

-- Where every artifact stands at a place of the lifecycle, in the repository or in a root of the
-- knowledge base, no status failure is reported exactly if each has a status that belongs there:
-- accepted alone among the accepted, refuted alone among the refuted, obsolete or superseded among
-- the obsolete, and any but accepted among the drafts.
pub validate_status_paths-lifecycle :
    (records : List LoadedRecord) (home : LoadedRecord → ArtifactStatus)
    → ((loaded : LoadedRecord) (a : BaseArtifact)
        → In loaded records
        → as_artifact loaded ≡ some a
        → IsKept loaded a (home loaded))
    → (validate_status_paths records ≡ []) ↔ (
        (loaded : LoadedRecord) (a : BaseArtifact)
        → In loaded records
        → as_artifact loaded ≡ some a
        → admits (home loaded) a.status ≡ true)
validate_status_paths-lifecycle records home kept =
    let (there, back) = validate_status_paths_iff records in
    (
      λ h loaded a m e.
          sym (kept_admits loaded a (home loaded) (kept loaded a m e)) ∙ there h loaded a m e,
      λ h.
          back (λ loaded a m e.
            kept_admits loaded a (home loaded) (kept loaded a m e) ∙ h loaded a m e),
    )

module _ (files : FileSystem) where
  -- The evidence is external, or its path is given, lies in the repository and exists.
  abbrev pub IsPresent : Evidence → Type 0
  IsPresent e =
      (is_external_evidence e ≡ true)
      ⊎ ((blank (strip e.path) ≡ false)
          × (files.inside_root e.path ≡ true)
          × (files.exists e.path ≡ true))

  evidence_failures-nil :
      (loaded : LoadedRecord) (a : BaseArtifact) (e : Evidence)
      → (evidence_failures files loaded a e ≡ []) ↔ IsPresent e
  unfolding evidence_failures
  evidence_failures-nil loaded a e = (λ h. ground arith, λ h. ground arith)

  -- No evidence failure is reported exactly if every evidence reference of every artifact is
  -- external, or has a path that is given, lies in the repository and exists.
  pub validate_evidence_paths_iff :
      (records : List LoadedRecord)
      → (validate_evidence_paths files records ≡ []) ↔ (
          (loaded : LoadedRecord) (a : BaseArtifact) (e : Evidence)
          → In loaded records
          → as_artifact loaded ≡ some a
          → In e a.evidence
          → IsPresent e)
  unfolding validate_evidence_paths
  validate_evidence_paths_iff records =
      let (there, back) =
        per_artifact_iff (λ loaded a. collect (evidence_failures files loaded a) a.evidence)
          records in
      (
        λ h loaded a e m f n. (evidence_failures-nil loaded a e).0 (
            All-at (λ x. evidence_failures files loaded a x ≡ []) a.evidence
              (collect-eq-nil (evidence_failures files loaded a) a.evidence (there h loaded a m f))
              e n),
        λ h. back (λ loaded a m f. collect-nil (evidence_failures files loaded a) a.evidence (
            All-of_In (λ x. evidence_failures files loaded a x ≡ []) a.evidence
              (λ e n. (evidence_failures-nil loaded a e).1 (h loaded a e m f n)))),
      )

abbrev pub locators : SourceMetadata → List String
locators s = s.doi ∷ s.arxiv ∷ s.url ∷ s.theorem_number ∷ s.page ∷ []

-- A source with a title, an author, a year and one locator at least.
pub record IsCited (s : SourceMetadata) : Type 0 where
  pub titled : blank s.title ≡ false
  pub authored : s.authors ≢ []
  pub dated : s.year ≢ none
  pub located : (t : String) × In t (locators s) × (blank t ≡ false)

has_citation_locator_iff :
    (s : SourceMetadata)
    → (has_citation_locator s ≡ true) ↔ ((t : String) × In t (locators s) × (blank t ≡ false))
unfolding has_citation_locator
has_citation_locator_iff s = (
  λ h. let (t, m, e) = any-true (λ t. not (blank t)) (locators s) h in (t, m, ground arith),
  λ (t, m, e). any_of_In (λ t. not (blank t)) (locators s) t m (rw e refl),
)

missing_in_source-nil :
    (n : ℕ) (s : SourceMetadata)
    → missing_in_source n s ≡ []
    → (blank s.title ≡ false) × (s.authors ≢ []) × (s.year ≢ none) × (has_citation_locator s ≡ true)
unfolding missing_in_source
missing_in_source-nil n s h = (ground arith, ground arith, ground arith, ground arith)

missing_in_source_of :
    (n : ℕ) (s : SourceMetadata)
    → blank s.title ≡ false
    → s.authors ≢ []
    → s.year ≢ none
    → has_citation_locator s ≡ true
    → missing_in_source n s ≡ []
unfolding missing_in_source
missing_in_source_of n s h a y l = ground arith

missing_in_source_iff : (n : ℕ) (s : SourceMetadata) → (missing_in_source n s ≡ []) ↔ IsCited s
missing_in_source_iff n s = (
  λ h.
      let (t, a, y, l) = missing_in_source-nil n s h in
      record { titled = t; authored = a; dated = y; located = (has_citation_locator_iff s).0 l },
  λ c.
      missing_in_source_of n s c.titled c.authored c.dated
        ((has_citation_locator_iff s).1 c.located),
)

missing_from_iff : (n : ℕ) (ss : List SourceMetadata) → (missing_from n ss ≡ []) ↔ All IsCited ss
unfolding missing_from
missing_from_iff n [] = (λ h. tt, λ h. refl)
missing_from_iff n (s ∷ ss) = (
  λ h.
      let (l, r) = append-eq-nil (missing_in_source n s) _ h in
      ((missing_in_source_iff n s).0 l, (missing_from_iff (suc n) ss).0 r),
  λ h. rw ((missing_in_source_iff n s).1 h.0) ((missing_from_iff (suc n) ss).1 h.1),
)

abbrev pub IsSourced : BaseArtifact → Type 0
IsSourced a = (a.sources ≢ []) × All IsCited a.sources

missing_in_sources_iff :
    (ss : List SourceMetadata) → (missing_in_sources ss ≡ []) ↔ ((ss ≢ []) × All IsCited ss)
unfolding missing_in_sources
missing_in_sources_iff [] = (λ h. cc, λ h. absurd (h.0 refl))
missing_in_sources_iff (s ∷ ss) =
    (λ h. (λ e. cc, (missing_from_iff 0 (s ∷ ss)).0 h), λ h. (missing_from_iff 0 (s ∷ ss)).1 h.1)

-- Nothing is missing exactly if the artifact has a source and each of its sources is complete.
pub missing_required_source_metadata_iff :
    (a : BaseArtifact) → (missing_required_source_metadata a ≡ []) ↔ IsSourced a
unfolding missing_required_source_metadata
missing_required_source_metadata_iff a = missing_in_sources_iff a.sources

failures_of_check-nil :
    (loaded : LoadedRecord) (a : BaseArtifact)
    → (failures_of_check (source_check loaded a) ≡ []) ↔ (missing_required_source_metadata a ≡ [])
unfolding failures_of_check source_check
failures_of_check-nil loaded a = (λ h. ground arith, λ h. rw h refl)

In-source_checks_of :
    (loaded : LoadedRecord) (a : BaseArtifact) (c : SourceMetadataCheck)
    → In c (source_checks_of loaded a)
    → (requires_source_metadata loaded a ≡ true) × (source_check loaded a ≡ c)
unfolding source_checks_of
In-source_checks_of loaded a c m = ground arith

source_checks_of_required :
    (loaded : LoadedRecord) (a : BaseArtifact)
    → requires_source_metadata loaded a ≡ true
    → In (source_check loaded a) (source_checks_of loaded a)
unfolding source_checks_of
source_checks_of_required loaded a h = rw h (inl refl)

requires_source_metadata_iff :
    (loaded : LoadedRecord) (a : BaseArtifact)
    → (requires_source_metadata loaded a ≡ true)
      ↔ ((loaded.kb_root_name ≡ some "public") × (a.status ≡ accepted))
unfolding requires_source_metadata
requires_source_metadata_iff loaded a = (
  λ h. (
    (root_is_iff "public" loaded.kb_root_name).0 (ground arith),
    (accepted_iff a.status).0 (ground arith),
  ),
  λ h. rw ((root_is_iff "public" loaded.kb_root_name).1 h.0, (accepted_iff a.status).1 h.1) refl,
)

-- Where the policy is configured and asks for sources, the gate reports no failure exactly if
-- every accepted artifact of the public root has a source and only complete sources.
pub validate_source_metadata_policy_iff :
    (policy : WorkspacePolicy) (records : List LoadedRecord)
    → policy.configured ≡ true
    → policy.accepted_requires_source ≡ true
    → ((validate_source_metadata_policy policy records).failures ≡ []) ↔ (
        (loaded : LoadedRecord) (a : BaseArtifact)
        → In loaded records
        → as_artifact loaded ≡ some a
        → loaded.kb_root_name ≡ some "public"
        → a.status ≡ accepted
        → IsSourced a)
unfolding validate_source_metadata_policy sort_failures
validate_source_metadata_policy_iff policy records set asked = rw (set, asked) (there, back)
  where
    sorted : List LoadedRecord
    sorted = sort record_le records

    checks : List SourceMetadataCheck
    checks = collect (per_artifact source_checks_of) sorted

    there :
        sort failure_le (collect failures_of_check checks) ≡ []
        → (loaded : LoadedRecord) (a : BaseArtifact) → In loaded records
        → as_artifact loaded ≡ some a
        → loaded.kb_root_name ≡ some "public"
        → a.status ≡ accepted
        → IsSourced a
    there h loaded a m e p s =
        let required = (requires_source_metadata_iff loaded a).1 (p, s) in
        let checked =
          In-per_artifact_of source_checks_of sorted loaded a (source_check loaded a)
            (In-sort_of record_le loaded records m) e
            (source_checks_of_required loaded a required) in
        (missing_required_source_metadata_iff a).0 (
          (failures_of_check-nil loaded a).0 (
            All-at (λ c. failures_of_check c ≡ []) checks
              (collect-eq-nil failures_of_check checks (sort-eq-nil failure_le _ h))
              (source_check loaded a) checked))

    at_check :
        ((loaded : LoadedRecord) (a : BaseArtifact)
          → In loaded records
          → as_artifact loaded ≡ some a
          → loaded.kb_root_name ≡ some "public"
          → a.status ≡ accepted
          → IsSourced a)
        → (c : SourceMetadataCheck) → In c checks
        → failures_of_check c ≡ []
    at_check h c m =
        let (loaded, a, here, e, n) = In-per_artifact source_checks_of sorted c m in
        let (required, same) = In-source_checks_of loaded a c n in
        let (p, s) = (requires_source_metadata_iff loaded a).0 required in
        rw (← same) (
          (failures_of_check-nil loaded a).1 (
            (missing_required_source_metadata_iff a).1
              (h loaded a (In-sort record_le loaded records here) e p s)))

    back :
        ((loaded : LoadedRecord) (a : BaseArtifact)
          → In loaded records
          → as_artifact loaded ≡ some a
          → loaded.kb_root_name ≡ some "public"
          → a.status ≡ accepted
          → IsSourced a)
        → sort failure_le (collect failures_of_check checks) ≡ []
    back h =
        rw
          (collect-nil failures_of_check checks
            (All-of_In (λ c. failures_of_check c ≡ []) checks (at_check h)))
          (unfold sort in refl)
