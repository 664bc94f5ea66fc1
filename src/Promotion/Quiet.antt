-- ===== src/Promotion/Quiet.antt =====
-- When the parts of a readiness report block nothing (cosheaf/gates/promotion_readiness.py).
use tcs_cosheaf.Base.{
  String, true, false, List, ◌≡◌, ◌↔◌, ◌⊎◌, refl, inl, inr, Bool-cases, Option-cases, some,
  All-collect_iff, In, arith, keep,
}
use tcs_cosheaf.Core.Status.{accepted, status_in, is_accepted_status}
use tcs_cosheaf.Core.Artifact.{BaseArtifact}
use tcs_cosheaf.Core.Validate.{is_external_dependency_ref}
use tcs_cosheaf.Storage.{LoadedRecord, as_artifact, is_artifact}
use tcs_cosheaf.Gates.Dependency.{get_by_id, public_depends_on_private}
use tcs_cosheaf.Gates.DependencyRules.{accepted_iff}
use tcs_cosheaf.Promotion.Reasons.{
  is_blocking, ready_preaccepted_statuses, is_promotion_review, status_reasons, review_reasons,
  readonly_reasons, found_dependency_reasons, dependency_reasons_of, dependency_reasons,
}
use tcs_cosheaf.Promotion.Dedupe.{NoneBlocking}

pub status-NoneBlocking :
    (a : BaseArtifact)
    → NoneBlocking (status_reasons a) ↔ (status_in a.status ready_preaccepted_statuses ≡ true)
unfolding status_reasons is_blocking
status-NoneBlocking a = (λ h. ground arith, λ h. rw h tt)

pub review-NoneBlocking :
    (a : BaseArtifact)
    → NoneBlocking (review_reasons a) ↔ (is_promotion_review a.review.state ≡ true)
unfolding review_reasons is_blocking
review-NoneBlocking a = (λ h. ground arith, λ h. rw h tt)

pub readonly-NoneBlocking :
    (loaded : LoadedRecord)
    → NoneBlocking (readonly_reasons loaded) ↔ (loaded.kb_root_readonly ≡ false)
unfolding readonly_reasons is_blocking
readonly-NoneBlocking loaded = (λ h. ground arith, λ h. rw h tt)

-- What a dependency of a promotable artifact is.
pub record IsSettled (records : List LoadedRecord) (loaded : LoadedRecord) (d : String)
    : Type 0 where
  pub dependency : LoadedRecord
  pub target : BaseArtifact
  pub found : get_by_id d (keep is_artifact records) ≡ some dependency
  pub typed : as_artifact dependency ≡ some target
  pub settled : target.status ≡ accepted
  pub layered : public_depends_on_private loaded dependency ≡ false

module _ (loaded : LoadedRecord) (a : BaseArtifact) (d : String) where
  found-NoneBlocking :
      (dependency : LoadedRecord) (target : BaseArtifact)
      → NoneBlocking (found_dependency_reasons loaded a d dependency target) ↔ (
          (public_depends_on_private loaded dependency ≡ false)
          × (is_accepted_status target.status ≡ true))
  unfolding found_dependency_reasons is_blocking
  found-NoneBlocking dependency target =
      elim (Bool-cases (public_depends_on_private loaded dependency)) [
        | inl e ↦ rw e (λ h. absurd (ground arith), λ h. absurd (ground arith))
        | inr e ↦ elim (Bool-cases (is_accepted_status target.status)) [
          | inl f ↦ rw (e, f) (λ h. (refl, refl), λ h. tt)
          | inr f ↦ rw (e, f) (λ h. absurd (ground arith), λ h. absurd (ground arith))
        ]
      ]

  dependency-there :
      (records : List LoadedRecord)
      → NoneBlocking (dependency_reasons_of (keep is_artifact records) loaded a d)
      → (is_external_dependency_ref d ≡ true) ⊎ IsSettled records loaded d
  unfolding dependency_reasons_of is_blocking
  dependency-there records h = elim (Bool-cases (is_external_dependency_ref d)) [
    | inl e ↦ inl e
    | inr e ↦ elim (Option-cases (get_by_id d (keep is_artifact records))) [
      | inl f ↦ absurd (let g = (rw (e, f) at h) in ground arith)
      | inr (dep, f) ↦ elim (Option-cases (as_artifact dep)) [
        | inl k ↦ absurd (let g = (rw (e, f, k) at h) in ground arith)
        | inr (t, k) ↦
            let (layered, settled) = (found-NoneBlocking dep t).0 (rw (e, f, k) at h) in
            inr (record {
              dependency = dep;
              target = t;
              found = f;
              typed = k;
              settled = (accepted_iff t.status).0 settled;
              layered = layered;
            })
      ]
    ]
  ]

  dependency-back :
      (records : List LoadedRecord)
      → (is_external_dependency_ref d ≡ true) ⊎ IsSettled records loaded d
      → NoneBlocking (dependency_reasons_of (keep is_artifact records) loaded a d)
  unfolding dependency_reasons_of
  dependency-back records (inl e) = rw e tt
  dependency-back records (inr s) = elim (Bool-cases (is_external_dependency_ref d)) [
    | inl e ↦ rw e tt
    | inr e ↦
        rw (e, s.found, s.typed)
          ((found-NoneBlocking s.dependency s.target).1
            (s.layered, (accepted_iff s.target.status).1 s.settled))
  ]

pub dependency-NoneBlocking :
    (records : List LoadedRecord) (loaded : LoadedRecord) (a : BaseArtifact)
    → NoneBlocking (dependency_reasons records loaded a) ↔ (
        (d : String)
        → In d a.depends_on
        → (is_external_dependency_ref d ≡ true) ⊎ IsSettled records loaded d)
unfolding dependency_reasons
dependency-NoneBlocking records loaded a =
    let rounds =
      All-collect_iff (λ r. is_blocking r ≡ false)
        (dependency_reasons_of (keep is_artifact records) loaded a) a.depends_on in
    (
      λ h d m. dependency-there loaded a d records (rounds.0 h d m),
      λ h. rounds.1 (λ d m. dependency-back loaded a d records (h d m)),
    )
