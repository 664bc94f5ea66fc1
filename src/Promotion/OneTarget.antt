-- ===== src/Promotion/OneTarget.antt =====
-- When the report of one artifact is ready (cosheaf/gates/promotion_readiness.py).
use tcs_cosheaf.Base.{
  String, true, List, [], ◌∷◌, ◌++◌, ◌≡◌, ◌↔◌, refl, ap, inl, inr, Option-cases, some, none,
  any_of_In, insert, keep, collect, sort, str_eq, eq_iff, ok,
}
use tcs_cosheaf.Core.Artifact.{BaseArtifact}
use tcs_cosheaf.Storage.{LoadedRecord, record_id, as_artifact}
use tcs_cosheaf.Promotion.Reasons.{Reason}
use tcs_cosheaf.Promotion.Readiness.{
  PromotionInputs, ArtifactPromotionReadiness, artifact_ready, artifact_report, find_artifact,
  missing_target_reasons, target_report, artifact_reports, PromotionReadinessReport, artifact_mode,
  is_ready, build_promotion_readiness_report,
}
use tcs_cosheaf.Promotion.Ready.{artifact_report-ready_iff}
use tcs_cosheaf.Promotion.Targets.{
  IsReadyTarget, find_artifact_sound, ready-parts, target_report-some, artifact-typed,
}

target_report-none :
    (i : PromotionInputs) (id : String)
    → find_artifact i.records id ≡ none
    → target_report i id ≡ []
unfolding target_report
target_report-none i id e = rw (e, target_report) refl

reports-some :
    (i : PromotionInputs) (id : String) (loaded : LoadedRecord) (a : BaseArtifact)
    → find_artifact i.records id ≡ some loaded
    → as_artifact loaded ≡ some a
    → artifact_reports i (id ∷ []) ≡ artifact_report i loaded a ∷ []
unfolding artifact_reports collect sort insert
reports-some i id loaded a e f = rw (target_report-some i id loaded a e f) refl

reports-none :
    (i : PromotionInputs) (id : String)
    → find_artifact i.records id ≡ none
    → artifact_reports i (id ∷ []) ≡ []
unfolding artifact_reports collect sort
reports-none i id e = rw (target_report-none i id e) refl

missing-none :
    (i : PromotionInputs) (id : String) (loaded : LoadedRecord)
    → find_artifact i.records id ≡ some loaded
    → missing_target_reasons i.records (id ∷ []) ≡ []
unfolding missing_target_reasons keep
missing-none i id loaded e =
    let (inside, named, typed) = find_artifact_sound i.records id loaded e in
    let present =
      any_of_In (λ r. str_eq (record_id r) id) i.records loaded inside
        ((eq_iff (record_id loaded) id).1 named) in
    rw present refl

append-nil : (rs : List Reason) → rs ++ [] ≡ rs
append-nil [] = refl
append-nil (r ∷ rs) = ap (λ x. r ∷ x) (append-nil rs)

-- A report of one artifact and no reason of its own is ready exactly if the artifact's is.
single_ready :
    (r : PromotionReadinessReport) (a : ArtifactPromotionReadiness)
    → r.artifacts ≡ a ∷ []
    → r.reasons ≡ []
    → (is_ready r ≡ true) ↔ (artifact_ready a ≡ true)
unfolding is_ready artifact_ready collect
single_ready r a e f = rw (e, f, append-nil a.reasons) (λ h. h, λ h. h)

-- The readiness report of an artifact is built, and it says ready exactly if an artifact of that
-- identifier was found and is promotable.
pub build-artifact_ready_iff :
    (i : PromotionInputs) (id : String)
    → (r : PromotionReadinessReport) × (build_promotion_readiness_report i (some id) none ≡ ok r)
      × ((is_ready r ≡ true) ↔ IsReadyTarget i id)
unfolding build_promotion_readiness_report
build-artifact_ready_iff i id = (artifact_mode i id, refl, (there, back))
  where
    there : is_ready (artifact_mode i id) ≡ true → IsReadyTarget i id
    there h = elim (Option-cases (find_artifact i.records id)) [
      | inl lost ↦
          let (own, all_ready, kept) = ready-parts (artifact_mode i id) h in
          absurd (let e = reports-none i id lost in let k = (rw e at kept) in cc)
      | inr (loaded, found) ↦
          let (a, typed) =
            artifact-typed loaded (find_artifact_sound i.records id loaded found).2 in
          let ready =
            (single_ready (artifact_mode i id) (artifact_report i loaded a)
                (reports-some i id loaded a found typed) (missing-none i id loaded found)).0
              h in
          record {
            loaded = loaded;
            target = a;
            found = found;
            typed = typed;
            promotable = (artifact_report-ready_iff i loaded a).0 ready;
          }
    ]

    back : IsReadyTarget i id → is_ready (artifact_mode i id) ≡ true
    back t =
        (single_ready (artifact_mode i id) (artifact_report i t.loaded t.target)
            (reports-some i id t.loaded t.target t.found t.typed)
            (missing-none i id t.loaded t.found)).1
          ((artifact_report-ready_iff i t.loaded t.target).1 t.promotable)
