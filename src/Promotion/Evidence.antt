-- ===== src/Promotion/Evidence.antt =====
-- cosheaf/gates/promotion_readiness.py: the reasons that failure memory, checked counterexample
-- evidence, strategy plans and the gate report give. The evidence records and the plans are loaded
-- from disk elsewhere; of each the fields that are read here are kept.
use Prim.Native.Nat.{compare}
use tcs_cosheaf.Base.{
  String, Bool, true, false, not, ◌&&◌, List, [], ◌∷◌, ◌++◌, if◌then◌else◌, concat, join, collect,
  any, sort, not_gt, then_order, text_order, str_eq,
}
use tcs_cosheaf.Core.Artifact.{
  BaseArtifact, FailureLogEntry, FailureStatus, open_failure, origin_value, attempt_value,
  failure_value,
}
use tcs_cosheaf.Promotion.Reasons.{Reason, warning, reason}

-- `sorted(failure_log, key=(attempted_at, failure_id), reverse=True)`
abbrev newer_first : FailureLogEntry → FailureLogEntry → Bool
newer_first a b = not_gt (
    then_order (compare b.attempted_at.instant a.attempted_at.instant)
      (text_order b.failure_id a.failure_id))

-- `entry.status in UNRESOLVED_FAILURE_MEMORY_STATUSES`
unfoldable pub is_unresolved : FailureStatus → Bool
is_unresolved open_failure = true
is_unresolved _ = false

abbrev or_dash : List String → String
or_dash [] = "-"
or_dash (t ∷ ts) = join "; " (t ∷ ts)

-- One round of the loop over the failure log.
unfoldable pub failure_reasons_of : BaseArtifact → FailureLogEntry → List Reason
failure_reasons_of artifact entry =
    if not (is_unresolved entry.status)
    then []
    else (let r = reason "unresolved_failure_memory" warning artifact.id (
          "unresolved artifact failure memory only; not verifier evidence and not a promotion blocker by itself: "
          ∷ entry.direction
          ∷ "; failed_because="
          ∷ entry.failed_because
          ∷ "; origin="
          ∷ origin_value entry.origin
          ∷ "; kind="
          ∷ attempt_value entry.attempt_kind
          ∷ "; next="
          ∷ or_dash entry.next_possible_directions
          ∷ []) in
        record r { status = failure_value entry.status })
      ∷ []

unfoldable pub failure_memory_reasons : BaseArtifact → List Reason
failure_memory_reasons artifact =
    collect (failure_reasons_of artifact) (sort newer_first artifact.failure_log)

-- cosheaf/verification/counterexample_evidence.py
pub data CheckedResult : Type 0 where
  checked_refutes checked_does_not_refute inconclusive error skipped : CheckedResult

unfoldable pub checked_value : CheckedResult → String
checked_value CheckedResult.checked_refutes = "checked_refutes"
checked_value CheckedResult.checked_does_not_refute = "checked_does_not_refute"
checked_value CheckedResult.inconclusive = "inconclusive"
checked_value CheckedResult.error = "error"
checked_value CheckedResult.skipped = "skipped"

pub record CheckedEvidence : Type 0 where
  pub evidence_id : String
  pub target_artifact_id : String
  pub candidate_id : String
  pub checked_result : CheckedResult
  pub verifier_evidence_ids : List String
  pub review_record_paths : List String
  pub evidence_paths : List String
  pub relative_path : String

abbrev support_part : String → List String → List String
support_part label [] = []
support_part label (t ∷ ts) =
    concat (label ∷ join "," (sort (λ a b. not_gt (text_order a b)) (t ∷ ts)) ∷ []) ∷ []

-- One round of the loop over the evidence records.
unfoldable pub evidence_reasons_of : BaseArtifact → CheckedEvidence → List Reason
evidence_reasons_of artifact evidence =
    let support =
      support_part "verifier_evidence=" evidence.verifier_evidence_ids
      ++ (support_part "review_records=" evidence.review_record_paths
          ++ support_part "evidence_paths=" evidence.evidence_paths) in
    if not (str_eq evidence.target_artifact_id artifact.id)
    then []
    else (let r = reason "checked_counterexample_evidence" warning artifact.id (
          "checked counterexample evidence for review only; not human review, accepted refutation, accepted status, or promotion authority, and not a promotion blocker by itself: "
          ∷ evidence.evidence_id
          ∷ "; result="
          ∷ checked_value evidence.checked_result
          ∷ "; candidate="
          ∷ evidence.candidate_id
          ∷ "; support="
          ∷ or_dash support
          ∷ []) in
        record r {
          source_path = evidence.relative_path;
          status = checked_value evidence.checked_result;
        })
      ∷ []

unfoldable pub checked_counterexample_evidence_reasons :
    List CheckedEvidence → BaseArtifact → List Reason
checked_counterexample_evidence_reasons loaded artifact =
    collect (evidence_reasons_of artifact) loaded

-- cosheaf/strategy/models.py
pub data StrategyTaskStatus : Type 0 where
  ready blocked deferred completed failed skipped : StrategyTaskStatus

unfoldable pub task_value : StrategyTaskStatus → String
task_value StrategyTaskStatus.ready = "ready"
task_value StrategyTaskStatus.blocked = "blocked"
task_value StrategyTaskStatus.deferred = "deferred"
task_value StrategyTaskStatus.completed = "completed"
task_value StrategyTaskStatus.failed = "failed"
task_value StrategyTaskStatus.skipped = "skipped"

pub record StrategyNode : Type 0 where
  pub node_id : String
  pub title : String
  pub status : StrategyTaskStatus
  pub related_artifacts : List String

pub record LoadedPlan : Type 0 where
  pub plan_id : String
  pub relative_path : String
  pub target_artifacts : List String
  pub nodes : List StrategyNode

-- `node.status in {BLOCKED, FAILED}`
unfoldable pub is_open_blocker : StrategyTaskStatus → Bool
is_open_blocker StrategyTaskStatus.blocked = true
is_open_blocker StrategyTaskStatus.failed = true
is_open_blocker _ = false

-- `artifact_id in ids`
abbrev pub listed : String → List String → Bool
unfolding any
listed artifact_id ids = any (λ id. str_eq id artifact_id) ids

-- One round of the loop over a plan's nodes.
unfoldable pub node_reasons : BaseArtifact → LoadedPlan → StrategyNode → List Reason
node_reasons artifact plan node =
    if not (is_open_blocker node.status)
    then []
    else if not (listed artifact.id node.related_artifacts)
        && not (listed artifact.id plan.target_artifacts)
    then []
    else (let r = reason "strategy_open_blocker" warning artifact.id (
          "advisory strategy blocker only; strategy plans are review context and not a promotion blocker by itself: "
          ∷ plan.plan_id ∷ " " ∷ node.node_id ∷ " " ∷ node.title ∷ []) in
        record r { source_path = plan.relative_path; status = task_value node.status })
      ∷ []

-- One round of the loop over the plans.
unfoldable pub plan_reasons : BaseArtifact → LoadedPlan → List Reason
plan_reasons artifact plan =
    if not (listed artifact.id plan.target_artifacts)
      && not (any (λ (node : StrategyNode). listed artifact.id node.related_artifacts) plan.nodes)
    then []
    else collect (node_reasons artifact plan) plan.nodes

unfoldable pub strategy_open_blocker_reasons : List LoadedPlan → BaseArtifact → List Reason
strategy_open_blocker_reasons plans artifact = collect (plan_reasons artifact) plans
