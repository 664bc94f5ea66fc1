-- ===== src/Promotion/Targets.antt =====
-- When the report of a target is ready (cosheaf/gates/promotion_readiness.py).
use tcs_cosheaf.Base.{
  String, true, false, not, ◌&&◌, List, [], ◌∷◌, ◌++◌, ◌≡◌, ◌≢◌, ◌⊎◌, refl, inl, inr, Bool-cases,
  Option-cases, none, some, All-split, All-at, All-collect_iff, In, In-sort, In-sort_of, In-keep,
  In-keep_of, In-map, In-collect_of, arith, any, any-false, any-true, is_empty, collect, str_eq,
  eq_iff, ok, some_inj,
}
use tcs_cosheaf.Core.Artifact.{BaseArtifact}
use tcs_cosheaf.Storage.{LoadedRecord, IssueRecord, record_id, as_artifact, is_artifact}
use tcs_cosheaf.Promotion.Reasons.{Reason, blocking, reason, is_blocking}
use tcs_cosheaf.Promotion.Dedupe.{NoneBlocking}
use tcs_cosheaf.Promotion.Readiness.{
  PromotionInputs, ArtifactPromotionReadiness, artifact_ready, artifact_report, first,
  find_artifact, find_issue, missing_target_reasons, target_report, artifact_reports,
  PromotionReadinessReport, is_ready, related_report, build_promotion_readiness_report,
}
use tcs_cosheaf.Promotion.Ready.{IsPromotable, artifact_report-ready_iff}

-- A target that was found and is promotable.
pub record IsReadyTarget (i : PromotionInputs) (id : String) : Type 0 where
  pub loaded : LoadedRecord
  pub target : BaseArtifact
  pub found : find_artifact i.records id ≡ some loaded
  pub typed : as_artifact loaded ≡ some target
  pub promotable : IsPromotable i loaded target

first-In : {A : Type 0} (xs : List A) (x : A) → first xs ≡ some x → In x xs
first-In [] x e = cc
first-In (y ∷ ys) x e = inl (some_inj e)

first-none : {A : Type 0} (xs : List A) → first xs ≡ none → xs ≡ []
first-none [] e = refl
first-none (y ∷ ys) e = cc

nothing-In : {A : Type 0} (xs : List A) (x : A) → xs ≡ [] → In x xs → ⊥
nothing-In xs x e m = rw e at m

-- `find_artifact` finds an artifact of that identifier among the records, and fails only if there is
-- none.
pub find_artifact_sound :
    (records : List LoadedRecord) (id : String) (loaded : LoadedRecord)
    → find_artifact records id ≡ some loaded
    → In loaded records × (record_id loaded ≡ id) × (is_artifact loaded ≡ true)
unfolding find_artifact
find_artifact_sound records id loaded e =
    let (inside, named) =
      In-keep (λ r. str_eq (record_id r) id && is_artifact r) records loaded
        (In-sort _ loaded _ (first-In _ loaded e)) in
    (inside, (eq_iff (record_id loaded) id).0 (ground arith), ground arith)

pub find_artifact_complete :
    (records : List LoadedRecord) (id : String) (loaded : LoadedRecord)
    → find_artifact records id ≡ none
    → In loaded records
    → record_id loaded ≡ id
    → is_artifact loaded ≡ false
unfolding find_artifact
find_artifact_complete records id loaded e m named = elim (Bool-cases (is_artifact loaded)) [
  | inr f ↦ f
  | inl f ↦
      let same = (eq_iff (record_id loaded) id).1 named in
      let both : str_eq (record_id loaded) id && is_artifact loaded ≡ true = ground arith in
      absurd (
        nothing-In _ loaded (first-none _ e) (
          In-sort_of _ loaded _
            (In-keep_of (λ r. str_eq (record_id r) id && is_artifact r) records loaded m both)))
]

none-any : (rs : List Reason) → NoneBlocking rs → any is_blocking rs ≡ false
unfolding any
none-any [] h = refl
none-any (x ∷ xs) h = let rest = none-any xs h.1 in rw h.0 rest

-- What `ready` says of a report's parts.
pub ready-parts :
    (r : PromotionReadinessReport)
    → is_ready r ≡ true
    → NoneBlocking r.reasons
      × ((a : ArtifactPromotionReadiness) → In a r.artifacts → artifact_ready a ≡ true)
      × (is_empty r.artifacts ≡ false)
unfolding is_ready artifact_ready
ready-parts r h =
    let quiet =
      any-false is_blocking
        (r.reasons ++ collect (λ (a : ArtifactPromotionReadiness). a.reasons) r.artifacts)
        (ground arith) in
    let (own, rest) = All-split (λ x. is_blocking x ≡ false) r.reasons _ quiet in
    let rounds =
      (All-collect_iff (λ x. is_blocking x ≡ false) (λ (a : ArtifactPromotionReadiness). a.reasons)
          r.artifacts).0
        rest in
    (own, (λ a m. let q = none-any a.reasons (rounds a m) in rw q refl), ground arith)

missing-In :
    (records : List LoadedRecord) (ids : List String)
    → NoneBlocking (missing_target_reasons records ids)
    → (id : String) → In id ids
    → any (λ r. str_eq (record_id r) id) records ≡ true
unfolding missing_target_reasons is_blocking
missing-In records ids h id m = elim (Bool-cases (any (λ r. str_eq (record_id r) id) records)) [
  | inl e ↦ e
  | inr e ↦
      let lost =
        In-keep_of (λ artifact_id. not (any (λ r. str_eq (record_id r) artifact_id) records)) ids id
          m (rw e refl) in
      let blocks =
        All-at (λ r. is_blocking r ≡ false) _ h _
          (In-map
            (λ artifact_id.
              reason "artifact_not_found" blocking artifact_id
                ("artifact not found: " ∷ artifact_id ∷ []))
            _ id lost) in
      absurd (ground arith)
]

pub target_report-some :
    (i : PromotionInputs) (id : String) (loaded : LoadedRecord) (a : BaseArtifact)
    → find_artifact i.records id ≡ some loaded
    → as_artifact loaded ≡ some a
    → target_report i id ≡ artifact_report i loaded a ∷ []
unfolding target_report
target_report-some i id loaded a e f = rw (e, f, target_report) refl

pub artifact-typed :
    (loaded : LoadedRecord)
    → is_artifact loaded ≡ true
    → (a : BaseArtifact) × (as_artifact loaded ≡ some a)
artifact-typed loaded h = elim (Option-cases (as_artifact loaded)) [
  | inr (a, e) ↦ (a, e)
  | inl e ↦ absurd (let k = (rw (e, is_artifact) at h) in cc)
]

-- Another record, no artifact, carries the identifier.
pub record IsOtherRecord (records : List LoadedRecord) (id : String) : Type 0 where
  pub loaded : LoadedRecord
  pub inside : In loaded records
  pub named : record_id loaded ≡ id
  pub other : find_artifact records id ≡ none

ready-target :
    (i : PromotionInputs) (ids : List String) (r : PromotionReadinessReport)
    → r.artifacts ≡ artifact_reports i ids
    → r.reasons ≡ missing_target_reasons i.records ids
    → is_ready r ≡ true
    → (id : String) → In id ids
    → IsReadyTarget i id ⊎ IsOtherRecord i.records id
unfolding artifact_reports
ready-target i ids r e f h id m =
    let (quiet, all_ready, some_report) = ready-parts r h in
    elim (Option-cases (find_artifact i.records id)) [
      | inl lost ↦
          let (loaded, inside, named) =
            any-true (λ r. str_eq (record_id r) id) i.records
              (missing-In i.records ids (rw f at quiet) id m) in
          inr (record {
            loaded = loaded;
            inside = inside;
            named = (eq_iff (record_id loaded) id).0 named;
            other = lost;
          })
      | inr (loaded, found) ↦
          let (a, typed) =
            artifact-typed loaded (find_artifact_sound i.records id loaded found).2 in
          let here =
            In-collect_of (target_report i) ids id (artifact_report i loaded a) m
              (rw (target_report-some i id loaded a found typed) (inl refl)) in
          inl (record {
            loaded = loaded;
            target = a;
            found = found;
            typed = typed;
            promotable = (artifact_report-ready_iff i loaded a).0 (
                all_ready (artifact_report i loaded a)
                  (rw e (In-sort_of _ _ (collect (target_report i) ids) here)));
          })
    ]

related-ready :
    (i : PromotionInputs) (issue_id : String) (ids : List String)
    → is_ready (related_report i issue_id ids) ≡ true
    → (ids ≢ []) × ((id : String) → In id ids → IsReadyTarget i id ⊎ IsOtherRecord i.records id)
unfolding related_report
related-ready i issue_id [] h = let k = (ready-parts (related_report i issue_id []) h).2 in cc
related-ready i issue_id (x ∷ xs) h =
    (λ e. cc, ready-target i (x ∷ xs) (related_report i issue_id (x ∷ xs)) refl refl h)

-- The readiness report of an issue that was found is built, and if it says ready then the issue has
-- related artifacts and each of them was found and is promotable, or its identifier is carried by
-- records none of which is an artifact.
pub build-issue_ready :
    (i : PromotionInputs) (issue_id : String) (found : IssueRecord)
    → find_issue i.records issue_id ≡ some found
    → (r : PromotionReadinessReport) × (build_promotion_readiness_report i none (some issue_id)
        ≡ ok r)
      × (is_ready r ≡ true
          → (found.related_artifacts ≢ [])
            × ((id : String)
                → In id found.related_artifacts
                → IsReadyTarget i id ⊎ IsOtherRecord i.records id))
unfolding build_promotion_readiness_report
build-issue_ready i issue_id found e = (
  related_report i issue_id found.related_artifacts,
  rw (e, build_promotion_readiness_report) refl,
  related-ready i issue_id found.related_artifacts,
)
