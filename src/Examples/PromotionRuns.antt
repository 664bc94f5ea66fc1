-- ===== src/Examples/PromotionRuns.antt =====
-- Runs of the readiness report.
use tcs_cosheaf.Base.{String, true, [], ◌≡◌, ◌≢◌, ◌↔◌, ◌⊎◌, refl, none, some, In, ok, collect, keep}
use tcs_cosheaf.Storage.{record_id}
use tcs_cosheaf.Promotion.Readiness.{
  artifact_ready, artifact_report, find_issue, PromotionReadinessReport, is_ready,
  build_promotion_readiness_report,
}
use tcs_cosheaf.Promotion.Ready.{IsPromotable, artifact_report-ready_iff}
use tcs_cosheaf.Promotion.OneTarget.{build-artifact_ready_iff}
use tcs_cosheaf.Promotion.Targets.{IsReadyTarget, IsOtherRecord, build-issue_ready}
use tcs_cosheaf.Examples.Samples.{new_claim, new_record, new_issue, all_records, sample_target}

issue_run : find_issue all_records "issue.example.0001" ≡ some new_issue
unfolding find_issue collect keep record_id
issue_run = refl

artifact_report-ready_iff_example :
    (artifact_ready (artifact_report sample_target new_record new_claim) ≡ true)
    ↔ IsPromotable sample_target new_record new_claim
artifact_report-ready_iff_example = artifact_report-ready_iff sample_target new_record new_claim

build-issue_ready_example :
    (r : PromotionReadinessReport) × (build_promotion_readiness_report sample_target none
        (some "issue.example.0001")
      ≡ ok r)
    × (is_ready r ≡ true
        → (new_issue.related_artifacts ≢ [])
          × ((id : String)
              → In id new_issue.related_artifacts
              → IsReadyTarget sample_target id ⊎ IsOtherRecord all_records id))
build-issue_ready_example = build-issue_ready sample_target "issue.example.0001" new_issue issue_run

build-artifact_ready_iff_example :
    (r : PromotionReadinessReport) × (build_promotion_readiness_report sample_target
        (some "claim.example.0002")
        none
      ≡ ok r)
    × ((is_ready r ≡ true) ↔ IsReadyTarget sample_target "claim.example.0002")
build-artifact_ready_iff_example = build-artifact_ready_iff sample_target "claim.example.0002"
