-- ===== src/Campaigns/Lifecycle.antt =====
-- What holds of every campaign that the operations of cosheaf/campaigns lead to.
use tcs_cosheaf.Base.{
  String, ℕ, suc, ◌+◌, ◌<◌, true, false, not, List, [], ◌∷◌, ◌++◌, ◌≡◌, refl, subst, map_result,
  sym, ap, ◌∙◌, inl, inr, ◌⊎◌, arith, Option, some, if◌then◌else◌, Bool-cases, All, All-append,
  length, ok, ok_inj, after, require, str_eq, eq_iff, ◌==◌, ltb,
}
use tcs_cosheaf.Core.Artifact.{Timestamp}
use tcs_cosheaf.Campaigns.Records.{
  CampaignAttempt, CampaignBudget, OperatorPolicy, StopCondition, RiskFinding, CampaignComparison,
  Host, validate_id, validate_attempt,
}
use tcs_cosheaf.Campaigns.Kept.{IsNumbered, attempts-kept}
use tcs_cosheaf.Campaigns.Texts.{normalize_timestamp}
use tcs_cosheaf.Campaigns.Campaign.{
  Given, dumped, unless_given, CampaignStatus, paused, running, names_unknown, ResearchCampaign,
  is_terminal, ensure_mutable, validate_campaign, start, with_stop_condition, with_risk_finding,
  with_comparison, add_attempt, finalize, final_note, status_after, new_campaign,
}
use tcs_cosheaf.Campaigns.Control.{
  ScanFinding, same_status, pause_campaign, resume_campaign, next_status, campaign_stop_conditions,
  scan_budget_state, run_campaign,
}
use tcs_cosheaf.Campaigns.Stored.{
  IsConsistent, IsNormal, require-true, validate_campaign-IsValidated, validate_campaign-IsNormal,
}

-- One operation that succeeds.
pub data Step (host : Host) : ResearchCampaign → ResearchCampaign → Type 0 where
  add_condition :
      {c d : ResearchCampaign} (now : Timestamp) (x : StopCondition)
      → with_stop_condition host now x c ≡ ok d
      → Step host c d
  add_finding :
      {c d : ResearchCampaign} (now : Timestamp) (x : RiskFinding)
      → with_risk_finding host now x c ≡ ok d
      → Step host c d
  compare :
      {c d : ResearchCampaign} (now : Timestamp) (x : CampaignComparison)
      → with_comparison host now x c ≡ ok d
      → Step host c d
  attempt :
      {c d : ResearchCampaign} (a : CampaignAttempt) → add_attempt host a c ≡ ok d → Step host c d
  close :
      {c d : ResearchCampaign} (status : CampaignStatus) (now : Timestamp) (reason : Option String)
      → finalize host status now reason c ≡ ok d
      → Step host c d
  pause :
      {c d : ResearchCampaign} (now : Timestamp) → pause_campaign host now c ≡ ok d → Step host c d
  resume :
      {c d : ResearchCampaign} (now : Timestamp) → resume_campaign host now c ≡ ok d → Step host c d
  control :
      {c d : ResearchCampaign} (now : Timestamp) (path : String) (findings : List ScanFinding)
      (limit : Option ℕ)
      → run_campaign host now path findings limit c ≡ ok d
      → Step host c d

-- The campaigns that a start and any operations after it lead to.
pub data Runs (host : Host) : ResearchCampaign → Type 0 where
  begin :
      {c : ResearchCampaign} (id issue : String) (budget : CampaignBudget) (policy : OperatorPolicy)
      (now : Timestamp)
      → start host id issue budget policy now ≡ ok c
      → Runs host c
  then_on : {c d : ResearchCampaign} → Runs host c → Step host c d → Runs host d

-- A campaign whose own fields are as their validators return them, which is consistent, and whose
-- attempts are its own and numbered from one on.
pub record IsSound (c : ResearchCampaign) : Type 0 where
  pub normal : IsNormal c
  pub consistent : IsConsistent c
  pub numbered : IsNumbered 1 c.attempts
  pub owned : All (λ a. a.campaign_id ≡ c.campaign_id) c.attempts

IsNumbered-snoc :
    (n : ℕ) (xs : List CampaignAttempt) (a : CampaignAttempt)
    → IsNumbered n xs
    → a.attempt_number ≡ n + length xs
    → IsNumbered n (xs ++ (a ∷ []))
IsNumbered-snoc n [] a h e = (e ∙ omega arith, tt)
IsNumbered-snoc n (x ∷ xs) a (same, h) e = (same, IsNumbered-snoc (suc n) xs a h (e ∙ omega arith))

-- A validated change of a sound campaign that keeps its identifier is sound where its attempts are.
renewed :
    (host : Host) (given : Given) (c e d : ResearchCampaign)
    → IsSound c
    → e.campaign_id ≡ c.campaign_id
    → IsNumbered 1 e.attempts
    → All (λ a. a.campaign_id ≡ c.campaign_id) e.attempts
    → validate_campaign host given e ≡ ok d
    → IsSound d
renewed host given c e d s same numbered owned h =
    let v = validate_campaign-IsValidated host given e d h in
    let own = s.normal.campaign_id in
    let id : d.campaign_id ≡ c.campaign_id =
      ok_inj (sym v.campaign_id ∙ (ap validate_id same ∙ own)) in
    let (ns, os) =
      attempts-kept host c.campaign_id own given.attempts e.attempts d.attempts v.attempts numbered
        owned in
    record {
      normal = validate_campaign-IsNormal host given e d h;
      consistent = v.consistent;
      numbered = ns;
      owned = rw id os;
    }

unchanged_attempts :
    (host : Host) (given : Given) (c e d : ResearchCampaign)
    → IsSound c
    → e.campaign_id ≡ c.campaign_id
    → e.attempts ≡ c.attempts
    → validate_campaign host given e ≡ ok d
    → IsSound d
unchanged_attempts host given c e d s same attempts h =
    renewed host given c e d s same (rw attempts s.numbered) (rw attempts s.owned) h

-- What an appended attempt passed.
pub add_attempt-parts :
    (host : Host) (a : CampaignAttempt) (c d : ResearchCampaign)
    → add_attempt host a c ≡ ok d
    → (is_terminal c.status ≡ false)
      × (length c.attempts < c.budget.max_attempts)
      × (a.campaign_id ≡ c.campaign_id)
      × (a.attempt_number ≡ suc (length c.attempts))
      × (validate_campaign host
            (record dumped { attempts = true })
            (record c {
              status = status_after (suc (length c.attempts)) c.budget.max_attempts;
              attempts = c.attempts ++ (a ∷ []);
              updated_at = a.completed_at;
            })
          ≡ ok d)
unfolding add_attempt ensure_mutable
add_attempt-parts host a c d h = after (require (not (is_terminal c.status)) _) _ h λ u0 h0 h.
    after (require (ltb (length c.attempts) c.budget.max_attempts) _) _ h λ u1 h1 h.
      after (require (str_eq a.campaign_id c.campaign_id) _) _ h λ u2 h2 h.
        after (require (a.attempt_number == suc (length c.attempts)) _) _ h λ u3 h3 h.
          let open_still = require-true _ _ u0 h0 in
          let number = require-true _ _ u3 h3 in
          let room = require-true _ _ u1 h1 in
          (ground arith, ground arith, (eq_iff _ _).0 (require-true _ _ u2 h2), ground arith, h)

-- The controller keeps a campaign whose status it leaves, and writes any other one.
pub run_campaign-parts :
    (host : Host) (now : Timestamp) (path : String) (findings : List ScanFinding) (limit : Option ℕ)
    (c d : ResearchCampaign)
    → run_campaign host now path findings limit c ≡ ok d
    → (is_terminal c.status ≡ false)
      × (((same_status
                (next_status c.status
                  (campaign_stop_conditions c (scan_budget_state path c findings) limit))
                c.status
              ≡ true)
            × (c ≡ d))
          ⊎ (validate_campaign host dumped (record c {
            status =
                next_status c.status
                  (campaign_stop_conditions c (scan_budget_state path c findings) limit);
            updated_at = now;
          })
              ≡ ok d))
unfolding run_campaign ensure_mutable
run_campaign-parts host now path findings limit c d h =
    let status =
      next_status c.status (campaign_stop_conditions c (scan_budget_state path c findings) limit) in
    elim (Bool-cases (is_terminal c.status)) [
      | inl t ↦ absurd (let k = (rw (t, not) at h) in cc)
      | inr t ↦ (
        t,
        elim (Bool-cases (same_status status c.status)) [
          | inl e ↦ inl (e, ok_inj (rw (t, e, if◌then◌else◌) at h))
          | inr e ↦ inr (rw (t, e, if◌then◌else◌) at h)
        ],
      )
    ]

step-IsSound : {host : Host} {c d : ResearchCampaign} → IsSound c → Step host c d → IsSound d
unfolding with_stop_condition with_risk_finding with_comparison finalize pause_campaign
    resume_campaign ensure_mutable
step-IsSound {host} {c} {d} s (add_condition now x h) =
    after (require (not (is_terminal c.status)) _) _ h λ u p h.
      unchanged_attempts host (record dumped { stops = true }) c
        (record c { stop_conditions = c.stop_conditions ++ (x ∷ []); updated_at = now }) d s refl
        refl h
step-IsSound {host} {c} {d} s (add_finding now x h) =
    after (require (not (is_terminal c.status)) _) _ h λ u p h.
      unchanged_attempts host (record dumped { findings = true }) c
        (record c { risk_findings = c.risk_findings ++ (x ∷ []); updated_at = now }) d s refl refl h
step-IsSound {host} {c} {d} s (compare now x h) =
    after (require (not (is_terminal c.status)) _) _ h λ u p h.
      after (require (not (names_unknown c.attempts x.attempt_ids)) _) _ h λ v q h.
        unchanged_attempts host (record dumped { comparisons = true }) c
          (record c { comparisons = c.comparisons ++ (x ∷ []); updated_at = now }) d s refl refl h
step-IsSound {host} {c} {d} s (attempt a h) =
    let (unfinished, room, own, number, h) = add_attempt-parts host a c d h in
    renewed host (record dumped { attempts = true }) c
      (record c {
        status = status_after (suc (length c.attempts)) c.budget.max_attempts;
        attempts = c.attempts ++ (a ∷ []);
        updated_at = a.completed_at;
      })
      d s refl (IsNumbered-snoc 1 c.attempts a s.numbered (number ∙ omega arith))
      (All-append (λ x. x.campaign_id ≡ c.campaign_id) c.attempts (a ∷ []) s.owned (own, tt)) h
step-IsSound {host} {c} {d} s (close status now reason h) =
    after (require (not (is_terminal c.status)) _) _ h λ u p h.
      after (require (is_terminal status) _) _ h λ v q h.
        after (final_note c.notes reason) _ h λ note r h.
          after (normalize_timestamp now) _ h λ t k h.
            unchanged_attempts host dumped c
              (record c { status = status; updated_at = t; finalized_at = some t; notes = note }) d
              s refl refl h
step-IsSound {host} {c} {d} s (pause now h) =
    after (require (not (is_terminal c.status)) _) _ h λ u p h.
      unchanged_attempts host dumped c (record c { status = paused; updated_at = now }) d s refl
        refl h
step-IsSound {host} {c} {d} s (resume now h) =
    after (require (same_status c.status paused) _) _ h λ u p h.
      unchanged_attempts host dumped c (record c { status = running; updated_at = now }) d s refl
        refl h
step-IsSound {host} {c} {d} s (control now path findings limit h) =
    let (unfinished, chosen) = run_campaign-parts host now path findings limit c d h in
    elim chosen [
      | inl (kept, same) ↦ rw (← same) s
      | inr k ↦
          unchanged_attempts host dumped c
            (record c {
              status =
                  next_status c.status
                    (campaign_stop_conditions c (scan_budget_state path c findings) limit);
              updated_at = now;
            })
            d s refl refl k
    ]

no_attempts :
    (host : Host) (ys : List CampaignAttempt)
    → unless_given false (map_result (validate_attempt host.windows_absolute host.encode)) []
      ≡ ok ys
    → [] ≡ ys
unfolding unless_given map_result
no_attempts host ys h = ok_inj h

-- Every campaign that a start and any successful operations lead to has its own fields as their
-- validators return them, is consistent, and has attempts that are its own and numbered from one on.
pub Runs-IsSound : {host : Host} {c : ResearchCampaign} → Runs host c → IsSound c
unfolding start
Runs-IsSound {host} {c} (begin id issue budget policy now h) =
    after (normalize_timestamp now) _ h λ t k h.
      let e = new_campaign id issue budget policy t in
      let v = validate_campaign-IsValidated host (record dumped { settings = true }) e c h in
      let attempts : [] ≡ c.attempts = no_attempts host c.attempts v.attempts in
      record {
        normal = validate_campaign-IsNormal host (record dumped { settings = true }) e c h;
        consistent = v.consistent;
        numbered = subst (IsNumbered 1) attempts tt;
        owned = subst (All (λ a. a.campaign_id ≡ c.campaign_id)) attempts tt;
      }
Runs-IsSound (then_on r s) = step-IsSound (Runs-IsSound r) s
