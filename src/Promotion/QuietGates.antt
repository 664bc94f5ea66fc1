-- ===== src/Promotion/QuietGates.antt =====
-- When the warnings and the gates' parts of a readiness report block nothing (cosheaf/gates/promotion_readiness.py).
use tcs_cosheaf.Base.{
  String, Bool, true, false, List, ◌≡◌, ◌↔◌, refl, inl, inr, Bool-cases, All-collect_iff, In,
  In-sort, In-sort_of, In-keep, In-keep_of, sort, str_eq, arith, collect, eq_iff, In-collect,
  In-collect_of,
}
use tcs_cosheaf.Core.Artifact.{BaseArtifact}
use tcs_cosheaf.Gates.Gatekeeper.{GateIssue, GateResult, GatekeeperReport, VerificationResult}
use tcs_cosheaf.Gates.Report.{is_blocking_status, is_skipped_status}
use tcs_cosheaf.Promotion.Reasons.{is_blocking, verifier_reasons_of, verifier_reasons}
use tcs_cosheaf.Promotion.Evidence.{
  CheckedEvidence, LoadedPlan, StrategyNode, failure_reasons_of, failure_memory_reasons,
  evidence_reasons_of, checked_counterexample_evidence_reasons, node_reasons, plan_reasons,
  strategy_open_blocker_reasons,
}
use tcs_cosheaf.Promotion.Report.{
  is_handled_gate, reason_from_gate_issue, target_reasons_of, target_gate_reasons,
  repository_reasons_of, repository_gate_reasons, verifier_details, target_verifier_results,
  result_le,
}
use tcs_cosheaf.Promotion.Dedupe.{NoneBlocking}

-- A round whose reasons, if any, are warnings.
pub failure-NoneBlocking : (a : BaseArtifact) → NoneBlocking (failure_memory_reasons a)
unfolding failure_memory_reasons failure_reasons_of is_blocking
failure-NoneBlocking a =
    (All-collect_iff (λ r. is_blocking r ≡ false) (failure_reasons_of a) _).1
      (λ entry m. ground arith)

pub evidence-NoneBlocking :
    (loaded : List CheckedEvidence) (a : BaseArtifact)
    → NoneBlocking (checked_counterexample_evidence_reasons loaded a)
unfolding checked_counterexample_evidence_reasons evidence_reasons_of is_blocking
evidence-NoneBlocking loaded a =
    (All-collect_iff (λ r. is_blocking r ≡ false) (evidence_reasons_of a) loaded).1
      (λ e m. ground arith)

node-NoneBlocking :
    (a : BaseArtifact) (plan : LoadedPlan) (node : StrategyNode)
    → NoneBlocking (node_reasons a plan node)
unfolding node_reasons is_blocking
node-NoneBlocking a plan node = ground arith

plan-NoneBlocking : (a : BaseArtifact) (plan : LoadedPlan) → NoneBlocking (plan_reasons a plan)
unfolding plan_reasons
plan-NoneBlocking a plan =
    let nodes =
      (All-collect_iff (λ r. is_blocking r ≡ false) (node_reasons a plan) plan.nodes).1
        (λ node m. node-NoneBlocking a plan node) in
    ground arith

pub strategy-NoneBlocking :
    (plans : List LoadedPlan) (a : BaseArtifact)
    → NoneBlocking (strategy_open_blocker_reasons plans a)
unfolding strategy_open_blocker_reasons
strategy-NoneBlocking plans a =
    (All-collect_iff (λ r. is_blocking r ≡ false) (plan_reasons a) plans).1
      (λ plan m. plan-NoneBlocking a plan)

-- A verifier result that does not stop a promotion: no failure, and no skip where a Lean check is
-- required.
abbrev pub IsHarmless : Bool → VerificationResult → Type 0
IsHarmless required r =
    (is_blocking_status r.status ≡ false) × (required ≡ true → is_skipped_status r.status ≡ false)

verifier_of-NoneBlocking :
    (a : BaseArtifact) (required : Bool) (r : VerificationResult)
    → NoneBlocking (verifier_reasons_of a required r) ↔ IsHarmless required r
unfolding verifier_reasons_of is_blocking
verifier_of-NoneBlocking a required r = elim (Bool-cases (is_blocking_status r.status)) [
  | inl e ↦ rw e (λ h. absurd (ground arith), λ h. absurd (ground arith))
  | inr e ↦ elim (Bool-cases (is_skipped_status r.status)) [
    | inr f ↦ rw (e, f) (λ h. (refl, λ q. refl), λ h. tt)
    | inl f ↦ elim (Bool-cases required) [
      | inl q ↦ rw (e, f, q) (λ h. absurd (ground arith), λ h. absurd (ground arith))
      | inr q ↦ rw (e, f, q) (λ h. (refl, λ k. absurd (ground arith)), λ h. (refl, tt))
    ]
  ]
]

module _ (artifact_id : String) (g : GateResult) (r : VerificationResult) where
  abbrev is_own : VerificationResult → Bool
  is_own detail = str_eq detail.artifact_id artifact_id

  In-verifier_details :
      In r (verifier_details artifact_id g)
      → (g.gate_id ≡ "G6") × In r g.details × (r.artifact_id ≡ artifact_id)
  unfolding verifier_details
  In-verifier_details m = elim (Bool-cases (str_eq g.gate_id "G6")) [
    | inr e ↦ absurd (rw e at m)
    | inl e ↦
        let (inside, own) = In-keep is_own g.details r (rw e at m) in
        ((eq_iff g.gate_id "G6").0 e, inside, (eq_iff r.artifact_id artifact_id).0 own)
  ]

  In-verifier_details_of :
      g.gate_id ≡ "G6"
      → In r g.details
      → r.artifact_id ≡ artifact_id
      → In r (verifier_details artifact_id g)
  unfolding verifier_details
  In-verifier_details_of named inside own =
      let same = (eq_iff g.gate_id "G6").1 named in
      rw same (In-keep_of is_own g.details r inside ((eq_iff r.artifact_id artifact_id).1 own))

pub verifier-NoneBlocking :
    (a : BaseArtifact) (required : Bool) (report : GatekeeperReport)
    → NoneBlocking (verifier_reasons a required (target_verifier_results report a.id)) ↔ (
        (g : GateResult) (r : VerificationResult)
        → In g report.gates
        → g.gate_id ≡ "G6"
        → In r g.details
        → r.artifact_id ≡ a.id
        → IsHarmless required r)
unfolding verifier_reasons target_verifier_results
verifier-NoneBlocking a required report =
    let found = collect (verifier_details a.id) report.gates in
    let rounds =
      All-collect_iff (λ r. is_blocking r ≡ false) (verifier_reasons_of a required)
        (sort result_le found) in
    (
      λ h g r m named n own. (verifier_of-NoneBlocking a required r).0 (
          rounds.0 h r (
            In-sort_of result_le r found (
              In-collect_of (verifier_details a.id) report.gates g r m
                (In-verifier_details_of a.id g r named n own)))),
      λ h. rounds.1 (λ r m.
          let (g, here, n) =
            In-collect (verifier_details a.id) report.gates r (In-sort result_le r found m) in
          let (named, inside, own) = In-verifier_details a.id g r n in
          (verifier_of-NoneBlocking a required r).1 (h g r here named inside own)),
    )

-- A blocking gate issue that does not stop the promotion of an artifact: its own, of a gate whose
-- findings the report judges itself.
abbrev pub IsHandled : String → GateIssue → Type 0
IsHandled artifact_id found =
    (found.artifact_id ≡ artifact_id) × (is_handled_gate found.gate_id ≡ true)

gates_of-NoneBlocking :
    (artifact_id : String) (found : GateIssue)
    → (NoneBlocking (repository_reasons_of artifact_id found)
        × NoneBlocking (target_reasons_of artifact_id found))
      ↔ IsHandled artifact_id found
unfolding repository_reasons_of target_reasons_of reason_from_gate_issue is_blocking
gates_of-NoneBlocking artifact_id found = elim (Bool-cases (str_eq found.artifact_id artifact_id)) [
  | inl e ↦
      rw e (λ h. ((eq_iff found.artifact_id artifact_id).0 e, ground arith), λ h. (tt, rw h.1 tt))
  | inr e ↦ rw e (
    λ h. absurd (ground arith),
    λ h. absurd (let k = (eq_iff found.artifact_id artifact_id).1 h.0 in cc),
  )
]

pub gates-NoneBlocking :
    (report : GatekeeperReport) (artifact_id : String)
    → (NoneBlocking (repository_gate_reasons report artifact_id)
        × NoneBlocking (target_gate_reasons report artifact_id))
      ↔ ((found : GateIssue) → In found report.blocking_issues → IsHandled artifact_id found)
unfolding repository_gate_reasons target_gate_reasons
gates-NoneBlocking report artifact_id =
    let others =
      All-collect_iff (λ r. is_blocking r ≡ false) (repository_reasons_of artifact_id)
        report.blocking_issues in
    let own =
      All-collect_iff (λ r. is_blocking r ≡ false) (target_reasons_of artifact_id)
        report.blocking_issues in
    (
      λ h found m.
          (gates_of-NoneBlocking artifact_id found).0 (others.0 h.0 found m, own.0 h.1 found m),
      λ h. (
        others.1 (λ found m. ((gates_of-NoneBlocking artifact_id found).1 (h found m)).0),
        own.1 (λ found m. ((gates_of-NoneBlocking artifact_id found).1 (h found m)).1),
      ),
    )
