-- ===== src/Campaigns/Counted.antt =====
-- cosheaf/campaigns/models.py: how `add_attempt` changes what `build_campaign_scorecard` counts.
use tcs_cosheaf.Base.{
  String, ℕ, suc, ◌+◌, Bool, true, false, List, [], ◌∷◌, ◌++◌, ◌≡◌, refl, sym, ap, ◌∙◌, inl, inr,
  arith, if◌then◌else◌, Bool-cases, length, keep, collect, str_eq, Result, ok, ok_inj, after,
  map_result,
}
use tcs_cosheaf.Campaigns.Texts.{safe_text}
use tcs_cosheaf.Campaigns.Records.{
  Host, CampaignAttempt, RiskFinding, RiskSeverity, info, warning, blocker, AttemptOutcome, result,
  failure, inconclusive, blocked, validate_id, validate_finding, optional_reference,
  validate_attempt,
}
use tcs_cosheaf.Campaigns.Campaign.{dumped, unless_given, ResearchCampaign, add_attempt}
use tcs_cosheaf.Campaigns.Control.{draft_output_count}
use tcs_cosheaf.Campaigns.Scorecard.{
  outcome_count, outcome_value, check_report_count, build_campaign_scorecard, is_blocker,
  all_findings,
}
use tcs_cosheaf.Campaigns.Stored.{validate_campaign-IsValidated}
use tcs_cosheaf.Campaigns.Terminal.{appended}
use tcs_cosheaf.Campaigns.Lifecycle.{add_attempt-parts}

-- One where the outcomes are the same, and zero otherwise.
abbrev pub one_if : AttemptOutcome → AttemptOutcome → ℕ
one_if result result = 1
one_if failure failure = 1
one_if inconclusive inconclusive = 1
one_if blocked blocked = 1
one_if _ _ = 0

abbrev pub severity_weight : RiskSeverity → ℕ
severity_weight info = 0
severity_weight warning = 0
severity_weight blocker = 1

abbrev pub total : (RiskFinding → ℕ) → List RiskFinding → ℕ
total weight [] = 0
total weight (f ∷ fs) = weight f + total weight fs

abbrev one : RiskFinding → ℕ
one f = 1

-- The number of findings that block.
abbrev pub severe : RiskFinding → ℕ
severe f = severity_weight f.severity

outcome_count-cons :
    (o : AttemptOutcome) (a : CampaignAttempt) (rest : List CampaignAttempt)
    → outcome_count o (a ∷ rest) ≡ (
        if str_eq (outcome_value a.outcome) (outcome_value o)
        then suc (outcome_count o rest)
        else outcome_count o rest)
unfolding outcome_count keep
outcome_count-cons o a rest =
    elim (Bool-cases (str_eq (outcome_value a.outcome) (outcome_value o))) [
      | inl e ↦ rw e refl
      | inr e ↦ rw e refl
    ]

outcome_count-nil : (o : AttemptOutcome) → outcome_count o [] ≡ 0
unfolding outcome_count keep
outcome_count-nil o = refl

outcome_count-snoc :
    (o : AttemptOutcome) (xs : List CampaignAttempt) (a : CampaignAttempt)
    → outcome_count o (xs ++ (a ∷ [])) ≡ outcome_count o xs + one_if o a.outcome
unfolding outcome_value
outcome_count-snoc o [] a =
    outcome_count-cons o a [] ∙ rw (outcome_count-nil o) (let k = single o a.outcome in omega arith)
  where
    single :
        (o p : AttemptOutcome)
        → (if str_eq (outcome_value p) (outcome_value o) then 1 else 0) ≡ one_if o p
    single result result = refl
    single result failure = refl
    single result inconclusive = refl
    single result blocked = refl
    single failure result = refl
    single failure failure = refl
    single failure inconclusive = refl
    single failure blocked = refl
    single inconclusive result = refl
    single inconclusive failure = refl
    single inconclusive inconclusive = refl
    single inconclusive blocked = refl
    single blocked result = refl
    single blocked failure = refl
    single blocked inconclusive = refl
    single blocked blocked = refl
outcome_count-snoc o (x ∷ xs) a =
    outcome_count-cons o x (xs ++ (a ∷ []))
    ∙ (rw (outcome_count-snoc o xs a) (
          more (str_eq (outcome_value x.outcome) (outcome_value o)) (outcome_count o xs)
            (one_if o a.outcome))
        ∙ ap (λ n. n + one_if o a.outcome) (sym (outcome_count-cons o x xs)))
  where
    more : (b : Bool) (m n : ℕ) → (if b then suc (m + n) else m + n) ≡ (if b then suc m else m) + n
    more true m n = omega arith
    more false m n = refl

module _ (weight : RiskFinding → ℕ) where
  total-append :
      (xs ys : List RiskFinding) → total weight (xs ++ ys) ≡ total weight xs + total weight ys
  total-append [] ys = omega arith
  total-append (x ∷ xs) ys = let rest = total-append xs ys in omega arith

  total-collect :
      (xs : List CampaignAttempt) (a : CampaignAttempt)
      → total weight (collect (λ (x : CampaignAttempt). x.risk_findings) (xs ++ (a ∷ [])))
        ≡ total weight (collect (λ (x : CampaignAttempt). x.risk_findings) xs)
          + total weight a.risk_findings
  unfolding collect
  total-collect [] a = total-append a.risk_findings [] ∙ omega arith
  total-collect (x ∷ xs) a =
      let rest = total-collect xs a in
      let l =
        total-append x.risk_findings
          (collect (λ (x : CampaignAttempt). x.risk_findings) (xs ++ (a ∷ []))) in
      let r =
        total-append x.risk_findings (collect (λ (x : CampaignAttempt). x.risk_findings) xs) in
      omega arith

  total-validated :
      (check : RiskFinding → Result RiskFinding)
      → ((f g : RiskFinding) → check f ≡ ok g → weight g ≡ weight f)
      → (xs ys : List RiskFinding) → map_result check xs ≡ ok ys
      → total weight ys ≡ total weight xs
  unfolding map_result
  total-validated check same [] ys h = rw (← ok_inj h) refl
  total-validated check same (x ∷ xs) ys h = after (check x) _ h λ y at_x h.
      after (map_result check xs) _ h λ zs at_xs h.
        let first = same x y at_x in
        let rest = total-validated check same xs zs at_xs in rw (← ok_inj h) (omega arith)

length-total : (fs : List RiskFinding) → length fs ≡ total one fs
length-total [] = refl
length-total (f ∷ fs) = let rest = length-total fs in omega arith

blockers-total :
    (fs : List RiskFinding) → length (keep (λ f. is_blocker f.severity) fs) ≡ total severe fs
unfolding keep
blockers-total [] = refl
blockers-total (f ∷ fs) = weigh f.severity _ _ _ (blockers-total fs)
  where
    weigh :
        (s : RiskSeverity) (f : RiskFinding) (kept : List RiskFinding) (n : ℕ)
        → length kept ≡ n
        → length (if is_blocker s then f ∷ kept else kept) ≡ severity_weight s + n
    weigh info f kept n h = omega arith
    weigh warning f kept n h = omega arith
    weigh blocker f kept n h = omega arith

validate_finding-severity :
    (w : String → Bool) (f g : RiskFinding) → validate_finding w f ≡ ok g → g.severity ≡ f.severity
unfolding validate_finding
validate_finding-severity w f g h = after (validate_id f.finding_id) _ h λ id p h.
    after (safe_text f.code) _ h λ code p h. after (safe_text f.message) _ h λ message p h.
      after (optional_reference w f.path) _ h
        λ path p h. sym (ap (λ (x : RiskFinding). x.severity) (ok_inj h))

taken :
    (host : Host) (xs ys : List CampaignAttempt)
    → unless_given true (map_result (validate_attempt host.windows_absolute host.encode)) xs ≡ ok ys
    → ys ≡ xs
unfolding unless_given
taken host xs ys h = sym (ok_inj h)

-- The findings of a campaign that took an attempt, by a weight that validation keeps.
total_more :
    (weight : RiskFinding → ℕ) (check : RiskFinding → Result RiskFinding)
    → ((f g : RiskFinding) → check f ≡ ok g → weight g ≡ weight f)
    → (a : CampaignAttempt) (c d : ResearchCampaign) → d.attempts ≡ c.attempts ++ (a ∷ [])
    → unless_given false (map_result check) c.risk_findings ≡ ok d.risk_findings
    → total weight (all_findings d) ≡ total weight (all_findings c) + total weight a.risk_findings
unfolding all_findings unless_given
total_more weight check keeps a c d same h =
    let gather = collect (λ (x : CampaignAttempt). x.risk_findings) in
    let e1 = total-append weight (gather d.attempts) d.risk_findings in
    let e2 = ap (λ xs. total weight (collect (λ (x : CampaignAttempt). x.risk_findings) xs)) same in
    let e3 = total-collect weight c.attempts a in
    let e4 = total-validated weight check keeps c.risk_findings d.risk_findings h in
    let e5 = total-append weight (gather c.attempts) c.risk_findings in omega arith

refs_more :
    (xs : List CampaignAttempt) (a : CampaignAttempt)
    → (draft_output_count (xs ++ (a ∷ [])) ≡ draft_output_count xs + length a.draft_proposal_refs)
      × (check_report_count (xs ++ (a ∷ [])) ≡ check_report_count xs + length a.check_report_refs)
unfolding draft_output_count check_report_count
refs_more [] a = (omega arith, omega arith)
refs_more (x ∷ xs) a = let (drafts, reports) = refs_more xs a in (omega arith, omega arith)

length-more :
    (xs : List CampaignAttempt) (a : CampaignAttempt) → length (xs ++ (a ∷ [])) ≡ suc (length xs)
length-more [] a = refl
length-more (x ∷ xs) a = ap suc (length-more xs a)

-- An attempt that a campaign takes adds itself to the scorecard: one to the attempts and to those
-- of its outcome alone, its drafts, its check reports, its findings, and those of them that block.
pub build_campaign_scorecard-add_attempt :
    (host : Host) (a : CampaignAttempt) (c d : ResearchCampaign)
    → add_attempt host a c ≡ ok d
    → (let s = build_campaign_scorecard c in
        let t = build_campaign_scorecard d in
        (t.attempt_count ≡ suc s.attempt_count)
        × (t.result_count ≡ s.result_count + one_if result a.outcome)
        × (t.failure_count ≡ s.failure_count + one_if failure a.outcome)
        × (t.inconclusive_count ≡ s.inconclusive_count + one_if inconclusive a.outcome)
        × (t.blocked_count ≡ s.blocked_count + one_if blocked a.outcome)
        × (t.draft_proposal_count ≡ s.draft_proposal_count + length a.draft_proposal_refs)
        × (t.check_report_count ≡ s.check_report_count + length a.check_report_refs)
        × (t.risk_finding_count ≡ s.risk_finding_count + length a.risk_findings)
        × (t.blocker_count ≡ s.blocker_count + total severe a.risk_findings))
unfolding build_campaign_scorecard
build_campaign_scorecard-add_attempt host a c d h =
    let v =
      validate_campaign-IsValidated host (record dumped { attempts = true }) (appended a c) d
        (add_attempt-parts host a c d h).4 in
    let same : d.attempts ≡ c.attempts ++ (a ∷ []) = taken host _ d.attempts v.attempts in
    let check = validate_finding host.windows_absolute in
    let count = total_more one check (λ f g k. refl) a c d same v.risk_findings in
    let stop =
      total_more severe check
        (λ f g k. ap severity_weight (validate_finding-severity host.windows_absolute f g k)) a c d
        same v.risk_findings in
    (
      rw same (length-more c.attempts a),
      rw same (outcome_count-snoc result c.attempts a),
      rw same (outcome_count-snoc failure c.attempts a),
      rw same (outcome_count-snoc inconclusive c.attempts a),
      rw same (outcome_count-snoc blocked c.attempts a),
      rw same (refs_more c.attempts a).0,
      rw same (refs_more c.attempts a).1,
      rw
          (
            length-total (all_findings d),
            length-total (all_findings c),
            length-total a.risk_findings,
          )
          count,
      rw (blockers-total (all_findings d), blockers-total (all_findings c)) stop,
    )
