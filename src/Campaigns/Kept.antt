-- ===== src/Campaigns/Kept.antt =====
-- What the validators of cosheaf/campaigns/models.py keep of the attempts of a campaign.
use tcs_cosheaf.Base.{
  String, ℕ, suc, Bool, true, false, not, ◌&&◌, List, [], ◌∷◌, ◌≡◌, sym, ap, ◌∙◌, All, leb, str_eq,
  ok, ok_inj, after, require, map_result,
}
use tcs_cosheaf.Campaigns.Texts.{
  safe_text, safe_optional_text, text_sequence, validate_safe_reference, normalize_timestamp,
  normalize_optional,
}
use tcs_cosheaf.Campaigns.Records.{
  Host, CampaignAttempt, validate_id, validate_finding, validate_attempt, attempt_consistency,
  started_before, explains, is_public, has_private_marker, authority_notice,
}
use tcs_cosheaf.Campaigns.Campaign.{unless_given}

-- The attempts have the numbers from `n` on, in order.
abbrev pub IsNumbered : ℕ → List CampaignAttempt → Type 0
IsNumbered n [] = Unit
IsNumbered n (a ∷ rest) = (a.attempt_number ≡ n) × IsNumbered (suc n) rest

attempt_consistency-eq :
    (encode : CampaignAttempt → String) (a b : CampaignAttempt)
    → attempt_consistency encode a ≡ ok b
    → a ≡ b
unfolding attempt_consistency
attempt_consistency-eq encode a b h =
    after (require (started_before a.started_at a.completed_at) _) _ h λ u0 p0 h.
      after (require (explains a.outcome a) _) _ h λ u1 p1 h.
        after (require (str_eq a.notice authority_notice) _) _ h λ u2 p2 h.
          after (require (not (is_public a.policy_mode && has_private_marker encode a)) _) _ h
            λ u3 p3 h. ok_inj h

abbrev IsSameAttempt : CampaignAttempt → CampaignAttempt → Type 0
IsSameAttempt a b =
    (b.attempt_number ≡ a.attempt_number) × (validate_id a.campaign_id ≡ ok b.campaign_id)

validate_attempt-IsSameAttempt :
    (w : String → Bool) (encode : CampaignAttempt → String) (a b : CampaignAttempt)
    → validate_attempt w encode a ≡ ok b
    → IsSameAttempt a b
unfolding validate_attempt
validate_attempt-IsSameAttempt w encode a b h =
    after (validate_id a.attempt_id) _ h λ attempt_id p h.
      after (validate_id a.campaign_id) _ h λ campaign_id own h.
        after (require (leb 1 a.attempt_number) _) _ h λ u p h.
          after (safe_text a.attempted_direction) _ h λ direction p h.
            after (normalize_optional a.started_at) _ h λ started_at p h.
              after (normalize_timestamp a.completed_at) _ h λ completed_at p h.
                after (safe_optional_text a.result_summary) _ h λ result_summary p h.
                  after (safe_optional_text a.failure_summary) _ h λ failure_summary p h.
                    after (safe_optional_text a.inconclusive_reason) _ h λ inconclusive_reason p h.
                      after (safe_optional_text a.blocked_reason) _ h λ blocked_reason p h.
                        after (text_sequence safe_text a.actions_taken) _ h λ actions_taken p h.
                          after (text_sequence (validate_safe_reference w) a.workflow_refs) _ h
                            λ refs0 p h.
                              after (text_sequence (validate_safe_reference w) a.check_report_refs)
                                _ h
                                λ refs1 p h.
                                  after
                                    (text_sequence (validate_safe_reference w)
                                      a.proof_obligation_refs)
                                    _ h
                                    λ refs2 p h.
                                      after
                                        (text_sequence (validate_safe_reference w)
                                          a.draft_proposal_refs)
                                        _ h
                                        λ refs3 p h.
                                          after
                                            (text_sequence (validate_safe_reference w)
                                              a.handoff_refs)
                                            _ h
                                            λ refs4 p h.
                                              after
                                                (text_sequence (validate_safe_reference w)
                                                  a.benchmark_report_refs)
                                                _ h
                                                λ refs5 p h.
                                                  after
                                                    (map_result (validate_finding w)
                                                      a.risk_findings)
                                                    _ h
                                                    λ risk_findings p h.
                                                      let same =
                                                        attempt_consistency-eq encode
                                                          (record a {
                                                            attempt_id = attempt_id;
                                                            campaign_id = campaign_id;
                                                            attempted_direction = direction;
                                                            started_at = started_at;
                                                            completed_at = completed_at;
                                                            result_summary = result_summary;
                                                            failure_summary = failure_summary;
                                                            inconclusive_reason =
                                                            inconclusive_reason;
                                                            blocked_reason = blocked_reason;
                                                            actions_taken = actions_taken;
                                                            workflow_refs = refs0;
                                                            check_report_refs = refs1;
                                                            proof_obligation_refs = refs2;
                                                            draft_proposal_refs = refs3;
                                                            handoff_refs = refs4;
                                                            benchmark_report_refs = refs5;
                                                            risk_findings = risk_findings;
                                                          })
                                                          b h in
                                                      (
                                                        sym (
                                                            ap
                                                            (λ (x : CampaignAttempt).
                                                            x.attempt_number)
                                                            same),
                                                        own
                                                            ∙ ap ok (
                                                            ap
                                                            (λ (x : CampaignAttempt). x.campaign_id)
                                                            same),
                                                      )

module _ (host : Host) (id : String) (own : validate_id id ≡ ok id) where
  -- Validated attempts keep their numbers, and belong to a campaign with a valid identifier.
  validated-kept :
      (n : ℕ) (xs ys : List CampaignAttempt)
      → map_result (validate_attempt host.windows_absolute host.encode) xs ≡ ok ys
      → IsNumbered n xs
      → All (λ a. a.campaign_id ≡ id) xs
      → IsNumbered n ys × All (λ a. a.campaign_id ≡ id) ys
  unfolding map_result
  validated-kept n [] ys h k o = rw (← ok_inj h) (tt, tt)
  validated-kept n (x ∷ xs) ys h (k, ks) (o, os) =
      after (validate_attempt host.windows_absolute host.encode x) _ h λ y at_x h.
        after (map_result (validate_attempt host.windows_absolute host.encode) xs) _ h λ zs at_xs h.
          let (number, same) =
            validate_attempt-IsSameAttempt host.windows_absolute host.encode x y at_x in
          let (ns, is) = validated-kept (suc n) xs zs at_xs ks os in
          rw (← ok_inj h) ((number ∙ k, ns), (ok_inj (sym same ∙ (ap validate_id o ∙ own)), is))

  pub attempts-kept :
      (given : Bool) (xs ys : List CampaignAttempt)
      → unless_given given (map_result (validate_attempt host.windows_absolute host.encode)) xs
        ≡ ok ys
      → IsNumbered 1 xs
      → All (λ a. a.campaign_id ≡ id) xs
      → IsNumbered 1 ys × All (λ a. a.campaign_id ≡ id) ys
  unfolding unless_given
  attempts-kept true xs ys h k o = rw (← ok_inj h) (k, o)
  attempts-kept false xs ys h k o = validated-kept 1 xs ys h k o
