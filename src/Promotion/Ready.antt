-- ===== src/Promotion/Ready.antt =====
-- When an artifact is ready to be promoted (cosheaf/gates/promotion_readiness.py).
use tcs_cosheaf.Base.{
  String, Bool, true, false, List, [], ◌∷◌, ◌++◌, ◌≡◌, ◌↔◌, ◌⊎◌, refl, some, All-split, All-append,
  In, arith,
}
use tcs_cosheaf.Core.Status.{status_in}
use tcs_cosheaf.Core.Artifact.{BaseArtifact}
use tcs_cosheaf.Core.Validate.{is_external_dependency_ref}
use tcs_cosheaf.Storage.{LoadedRecord}
use tcs_cosheaf.Gates.DependencyRules.{root_is_iff}
use tcs_cosheaf.Gates.SourceMetadata.{WorkspacePolicy}
use tcs_cosheaf.Gates.RecordRules.{IsSourced, missing_required_source_metadata_iff}
use tcs_cosheaf.Gates.Gatekeeper.{GateIssue, GateResult, VerificationResult}
use tcs_cosheaf.Promotion.Reasons.{
  is_blocking, ready_preaccepted_statuses, is_promotion_review, source_metadata_required,
  source_metadata_reasons,
}
use tcs_cosheaf.Promotion.Evidence.{
  checked_counterexample_evidence_reasons, failure_memory_reasons, strategy_open_blocker_reasons,
}
use tcs_cosheaf.Promotion.Report.{repository_gate_reasons, target_gate_reasons}
use tcs_cosheaf.Promotion.Dedupe.{NoneBlocking, dedupe-blocks_iff}
use tcs_cosheaf.Promotion.Quiet.{
  status-NoneBlocking, review-NoneBlocking, readonly-NoneBlocking, IsSettled,
  dependency-NoneBlocking,
}
use tcs_cosheaf.Promotion.QuietGates.{
  failure-NoneBlocking, evidence-NoneBlocking, strategy-NoneBlocking, IsHarmless,
  verifier-NoneBlocking, IsHandled, gates-NoneBlocking,
}
use tcs_cosheaf.Promotion.Readiness.{
  PromotionInputs, artifact_ready, missing_metadata, artifact_reasons, artifact_report,
}

-- What promotion asks of an artifact.
pub record IsPromotable (i : PromotionInputs) (loaded : LoadedRecord) (a : BaseArtifact)
    : Type 0 where
  pub status : status_in a.status ready_preaccepted_statuses ≡ true
  pub reviewed : is_promotion_review a.review.state ≡ true
  pub writable : loaded.kb_root_readonly ≡ false
  pub sourced :
      i.policy.accepted_requires_source ≡ true → loaded.kb_root_name ≡ some "public" → IsSourced a
  pub dependencies :
      (d : String)
      → In d a.depends_on
      → (is_external_dependency_ref d ≡ true) ⊎ IsSettled i.records loaded d
  pub verified :
      (g : GateResult) (r : VerificationResult)
      → In g i.gatekeeper.gates
      → g.gate_id ≡ "G6"
      → In r g.details
      → r.artifact_id ≡ a.id
      → IsHarmless a.verification_policy.require_lean_check r
  pub gated : (found : GateIssue) → In found i.gatekeeper.blocking_issues → IsHandled a.id found

sources-NoneBlocking :
    (a : BaseArtifact) (required : Bool) (missing : List String)
    → NoneBlocking (source_metadata_reasons a required missing) ↔ (required ≡ true → missing ≡ [])
unfolding source_metadata_reasons is_blocking
sources-NoneBlocking a false missing = (λ h e. cc, λ h. tt)
sources-NoneBlocking a true [] = (λ h e. refl, λ h. tt)
sources-NoneBlocking a true (m ∷ ms) =
    (λ h e. absurd (ground arith), λ h. absurd (let k = h refl in cc))

required_iff :
    (policy : WorkspacePolicy) (loaded : LoadedRecord)
    → (source_metadata_required policy loaded ≡ true)
      ↔ ((policy.accepted_requires_source ≡ true) × (loaded.kb_root_name ≡ some "public"))
unfolding source_metadata_required
required_iff policy loaded = (
  λ h. (ground arith, (root_is_iff "public" loaded.kb_root_name).0 (ground arith)),
  λ h. rw (h.0, (root_is_iff "public" loaded.kb_root_name).1 h.1) refl,
)

missing_iff :
    (i : PromotionInputs) (loaded : LoadedRecord) (a : BaseArtifact)
    → (source_metadata_required i.policy loaded ≡ true → missing_metadata i loaded a ≡ []) ↔ (
        i.policy.accepted_requires_source ≡ true
        → loaded.kb_root_name ≡ some "public"
        → IsSourced a)
missing_iff i loaded a = (
  λ h p q.
      let required = (required_iff i.policy loaded).1 (p, q) in
      (missing_required_source_metadata_iff a).0 (rw required at (h required)),
  λ h required.
      let (p, q) = (required_iff i.policy loaded).0 required in
      rw required ((missing_required_source_metadata_iff a).1 (h p q)),
)

reasons-IsPromotable :
    (i : PromotionInputs) (loaded : LoadedRecord) (a : BaseArtifact)
    → NoneBlocking (artifact_reasons i loaded a) ↔ IsPromotable i loaded a
unfolding artifact_reasons
reasons-IsPromotable i loaded a = (
  λ h.
      let (h1, t1) = All-split (λ r. is_blocking r ≡ false) _ _ h in
      let (h2, t2) = All-split (λ r. is_blocking r ≡ false) _ _ t1 in
      let (h3, t3) = All-split (λ r. is_blocking r ≡ false) _ _ t2 in
      let (h4, t4) = All-split (λ r. is_blocking r ≡ false) _ _ t3 in
      let (h5, t5) = All-split (λ r. is_blocking r ≡ false) _ _ t4 in
      let (h6, t6) = All-split (λ r. is_blocking r ≡ false) _ _ t5 in
      let gates =
        repository_gate_reasons i.gatekeeper a.id ++ target_gate_reasons i.gatekeeper a.id in
      let plans = strategy_open_blocker_reasons i.plans a in
      let evidence = checked_counterexample_evidence_reasons i.evidence a in
      let (h7, t7) =
        All-split (λ r. is_blocking r ≡ false) (failure_memory_reasons a)
          (evidence ++ (plans ++ gates)) t6 in
      let (h8, t8) = All-split (λ r. is_blocking r ≡ false) evidence (plans ++ gates) t7 in
      let (h9, t9) = All-split (λ r. is_blocking r ≡ false) plans gates t8 in
      record {
        status = (status-NoneBlocking a).0 h1;
        reviewed = (review-NoneBlocking a).0 h2;
        writable = (readonly-NoneBlocking loaded).0 h3;
        sourced = (missing_iff i loaded a).0 ((sources-NoneBlocking a _ _).0 h4);
        dependencies = (dependency-NoneBlocking i.records loaded a).0 h5;
        verified =
            (verifier-NoneBlocking a a.verification_policy.require_lean_check i.gatekeeper).0 h6;
        gated =
            (gates-NoneBlocking i.gatekeeper a.id).0
              (All-split (λ r. is_blocking r ≡ false) _ _ t9);
      },
  λ p.
      let gated = (gates-NoneBlocking i.gatekeeper a.id).1 p.gated in
      All-append (λ r. is_blocking r ≡ false) _ _ ((status-NoneBlocking a).1 p.status)
        (All-append (λ r. is_blocking r ≡ false) _ _ ((review-NoneBlocking a).1 p.reviewed)
          (All-append (λ r. is_blocking r ≡ false) _ _ ((readonly-NoneBlocking loaded).1 p.writable)
            (All-append (λ r. is_blocking r ≡ false) _ _
              ((sources-NoneBlocking a _ _).1 ((missing_iff i loaded a).1 p.sourced))
              (All-append (λ r. is_blocking r ≡ false) _ _
                ((dependency-NoneBlocking i.records loaded a).1 p.dependencies)
                (All-append (λ r. is_blocking r ≡ false) _ _
                  ((verifier-NoneBlocking a a.verification_policy.require_lean_check i.gatekeeper).1
                    p.verified)
                  (All-append (λ r. is_blocking r ≡ false) _ _ (failure-NoneBlocking a)
                    (All-append (λ r. is_blocking r ≡ false) _ _
                      (evidence-NoneBlocking i.evidence a)
                      (All-append (λ r. is_blocking r ≡ false) _ _ (strategy-NoneBlocking i.plans a)
                        (All-append (λ r. is_blocking r ≡ false) _ _ gated.0 gated.1))))))))),
)

-- An artifact's readiness report says ready exactly if the artifact is promotable: its status is
-- pre-accepted beyond draft, a human has reviewed it, its root is writable, its sources are complete
-- where the policy asks for them, each of its dependencies is external or accepted and not private
-- under a public artifact, no verifier failed on it (nor was skipped where it requires a Lean check),
-- and the gatekeeper's blocking issues are its own, of gates that the report judges itself.
pub artifact_report-ready_iff :
    (i : PromotionInputs) (loaded : LoadedRecord) (a : BaseArtifact)
    → (artifact_ready (artifact_report i loaded a) ≡ true) ↔ IsPromotable i loaded a
unfolding artifact_ready artifact_report
artifact_report-ready_iff i loaded a =
    let blocks = dedupe-blocks_iff (artifact_reasons i loaded a) in
    (
      λ h. (reasons-IsPromotable i loaded a).0 (blocks.0 (ground arith)),
      λ p.
          let none_blocks = blocks.1 ((reasons-IsPromotable i loaded a).1 p) in rw none_blocks refl,
    )
