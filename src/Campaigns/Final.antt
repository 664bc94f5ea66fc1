-- ===== src/Campaigns/Final.antt =====
-- cosheaf/campaigns: the statuses that no operation leaves, and how they are reached.
use tcs_cosheaf.Base.{
  String, suc, Bool, true, false, not, ◌||◌, [], ◌∷◌, ◌++◌, ◌≡◌, refl, sym, ap, ◌∙◌, inl, inr, ◌⊎◌,
  Option, Bool-cases, length, ok, after, require, any,
}
use tcs_cosheaf.Core.Artifact.{Timestamp}
use tcs_cosheaf.Campaigns.Records.{Host}
use tcs_cosheaf.Campaigns.Campaign.{
  CampaignStatus, created, running, paused, finalized, abandoned, failed, Given, dumped,
  names_unknown, ResearchCampaign, is_terminal, ensure_mutable, validate_campaign,
  with_stop_condition, with_risk_finding, with_comparison, finalize, terminal_message, status_value,
}
use tcs_cosheaf.Campaigns.Control.{
  StopConditions, same_status, pause_campaign, resume_campaign, next_status,
  campaign_stop_conditions, scan_budget_state,
}
use tcs_cosheaf.Campaigns.Stored.{require-true, validate_campaign-IsValidated}
use tcs_cosheaf.Campaigns.Lifecycle.{
  Step, add_condition, add_finding, compare, attempt, close, pause, resume, control,
  add_attempt-parts, run_campaign-parts,
}
use tcs_cosheaf.Campaigns.Terminal.{same_status-eq, open_status, appended}

-- The statuses that no operation leaves.
pub data IsFinal : CampaignStatus → Type 0 where
  is_finalized : IsFinal finalized
  is_abandoned : IsFinal abandoned
  is_failed : IsFinal failed

IsFinal-is_terminal : {s : CampaignStatus} → IsFinal s → is_terminal s ≡ true
unfolding is_terminal any status_value
IsFinal-is_terminal is_finalized = refl
IsFinal-is_terminal is_abandoned = refl
IsFinal-is_terminal is_failed = refl

not_final : (s : CampaignStatus) → is_terminal s ≡ false → ¬ IsFinal s
not_final s h f = let k = IsFinal-is_terminal f in cc

next_status-open :
    (status : CampaignStatus) (stop : StopConditions)
    → is_terminal status ≡ false
    → is_terminal (next_status status stop) ≡ false
unfolding next_status is_terminal any status_value
next_status-open status stop h = elim (Bool-cases (same_status status paused)) [
  | inl e ↦ rw e refl
  | inr e ↦
      elim (Bool-cases
        (stop.unsafe_runtime_output || stop.repeated_failure_without_justification)) [
          | inl f ↦ rw (e, f) refl
          | inr f ↦ elim (Bool-cases stop.all_budget_exhausted) [
            | inl g ↦ rw (e, f, g) refl
            | inr g ↦ elim (Bool-cases (same_status status created)) [
              | inl k ↦ rw (e, f, g, k) refl
              | inr k ↦ rw (e, f, g, k) h
            ]
          ]
        ]
]

open_of : (b : Bool) (u : Unit {0}) → require (not b) terminal_message ≡ ok u → b ≡ false
open_of true u h = cc
open_of false u h = refl

-- What validation keeps of the status.
kept_status :
    (host : Host) (given : Given) (e d : ResearchCampaign)
    → validate_campaign host given e ≡ ok d
    → is_terminal e.status ≡ false
    → is_terminal d.status ≡ false
kept_status host given e d h t =
    sym (
      ap (λ (x : ResearchCampaign). is_terminal x.status)
        (validate_campaign-IsValidated host given e d h).rest)
    ∙ t

-- The step closed the campaign.
abbrev pub IsClosing : Host → ResearchCampaign → ResearchCampaign → Type 0
IsClosing host c d =
    (status : CampaignStatus) × (now : Timestamp) × (reason : Option String) × (finalize host status
        now reason c
      ≡ ok d)

-- No operation succeeds on a campaign that is finalized, abandoned or failed, and none but
-- `finalize` leads to one.
pub Step-IsFinal :
    {host : Host} {c d : ResearchCampaign}
    → Step host c d
    → (¬ IsFinal c.status) × ((¬ IsFinal d.status) ⊎ IsClosing host c d)
unfolding with_stop_condition with_risk_finding with_comparison finalize pause_campaign
    resume_campaign ensure_mutable is_terminal any status_value
Step-IsFinal {host} {c} {d} (add_condition now x h) =
    after (require (not (is_terminal c.status)) _) _ h λ u p h.
      let t = open_of _ u p in
      (
        not_final _ t,
        inl (
            not_final _ (
              kept_status host (record dumped { stops = true })
                (record c { stop_conditions = c.stop_conditions ++ (x ∷ []); updated_at = now }) d h
                t)),
      )
Step-IsFinal {host} {c} {d} (add_finding now x h) =
    after (require (not (is_terminal c.status)) _) _ h λ u p h.
      let t = open_of _ u p in
      (
        not_final _ t,
        inl (
            not_final _ (
              kept_status host (record dumped { findings = true })
                (record c { risk_findings = c.risk_findings ++ (x ∷ []); updated_at = now }) d h
                t)),
      )
Step-IsFinal {host} {c} {d} (compare now x h) =
    after (require (not (is_terminal c.status)) _) _ h λ u p h.
      after (require (not (names_unknown c.attempts x.attempt_ids)) _) _ h λ v q h.
        let t = open_of _ u p in
        (
          not_final _ t,
          inl (
              not_final _ (
                kept_status host (record dumped { comparisons = true })
                  (record c { comparisons = c.comparisons ++ (x ∷ []); updated_at = now }) d h t)),
        )
Step-IsFinal {host} {c} {d} (attempt a h) =
    let (t, room, own, number, h) = add_attempt-parts host a c d h in
    (
      not_final _ t,
      inl (
          not_final _ (
            kept_status host (record dumped { attempts = true }) (appended a c) d h
              (open_status (suc (length c.attempts)) c.budget.max_attempts))),
    )
Step-IsFinal {host} {c} {d} (close status now reason h) =
    after (require (not (is_terminal c.status)) _) _ h
      λ u p k. (not_final _ (open_of _ u p), inr (status, now, reason, h))
Step-IsFinal {host} {c} {d} (pause now h) =
    after (require (not (is_terminal c.status)) _) _ h λ u p h. (
      not_final _ (open_of _ u p),
      inl (
          not_final _
            (kept_status host dumped (record c { status = paused; updated_at = now }) d h refl)),
    )
Step-IsFinal {host} {c} {d} (resume now h) =
    after (require (same_status c.status paused) _) _ h λ u p h. (
      not_final _ (ap is_terminal (same_status-eq _ _ (require-true _ _ u p))),
      inl (
          not_final _
            (kept_status host dumped (record c { status = running; updated_at = now }) d h refl)),
    )
Step-IsFinal {host} {c} {d} (control now path findings limit h) =
    let (t, chosen) = run_campaign-parts host now path findings limit c d h in
    (
      not_final _ t,
      inl (elim chosen [
        | inl (kept, same) ↦
            not_final _ (ap (λ (x : ResearchCampaign). is_terminal x.status) (sym same) ∙ t)
        | inr k ↦ not_final _ (
            kept_status host dumped
              (record c {
                status =
                    next_status c.status
                      (campaign_stop_conditions c (scan_budget_state path c findings) limit);
                updated_at = now;
              })
              d k (next_status-open c.status _ t))
      ]),
    )
