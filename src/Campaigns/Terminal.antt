-- ===== src/Campaigns/Terminal.antt =====
-- What single operations of cosheaf/campaigns do on a campaign that is read from its file, and with
-- the controller's stop conditions.
use tcs_cosheaf.Base.{
  String, ℕ, suc, ◌≤◌, ◌<◌, true, false, ◌||◌, List, [], ◌∷◌, ◌++◌, ◌≡◌, ◌↔◌, refl, sym, ap, ◌∙◌,
  inl, inr, map_result, arith, Option, Bool-cases, length, ok, ok_inj, eq_iff, ◌==◌, leb, ltb, any,
}
use tcs_cosheaf.Core.Artifact.{Timestamp}
use tcs_cosheaf.Campaigns.Texts.{normalize_timestamp}
use tcs_cosheaf.Campaigns.Records.{Host, validate_attempt, CampaignAttempt}
use tcs_cosheaf.Campaigns.Campaign.{
  CampaignStatus, created, running, paused, held, budget_exhausted, finalized, abandoned, failed,
  Given, dumped, unless_given, ResearchCampaign, is_terminal, ensure_mutable, validate_campaign,
  add_attempt, status_after, status_value,
}
use tcs_cosheaf.Campaigns.Control.{
  ScanFinding, StopConditions, same_status, next_status, effective_max_attempts,
  campaign_stop_conditions, scan_budget_state, run_campaign, run_blocked, draft_budget_exhausted,
}
use tcs_cosheaf.Campaigns.Stored.{validate_campaign-IsValidated, IsValidated-validate_campaign}
use tcs_cosheaf.Campaigns.Lifecycle.{add_attempt-parts, run_campaign-parts}

pub same_status-eq : (a b : CampaignStatus) → same_status a b ≡ true → a ≡ b
unfolding same_status
same_status-eq created created h = refl
same_status-eq running running h = refl
same_status-eq paused paused h = refl
same_status-eq held held h = refl
same_status-eq budget_exhausted budget_exhausted h = refl
same_status-eq finalized finalized h = refl
same_status-eq abandoned abandoned h = refl
same_status-eq failed failed h = refl
same_status-eq _ _ h = cc

-- A stored campaign with another status that is not final, more attempts within its budget, and
-- another time of change is stored as it stands.
restored :
    (host : Host) (given : Given) (c : ResearchCampaign) (status : CampaignStatus)
    (attempts : List CampaignAttempt) (now : Timestamp)
    → validate_campaign host dumped c ≡ ok c
    → is_terminal c.status ≡ false
    → is_terminal status ≡ false
    → length attempts ≤ c.budget.max_attempts
    → normalize_timestamp now ≡ ok now
    → (given.settings ≡ false)
      × (given.stops ≡ false)
      × (given.findings ≡ false)
      × (given.comparisons ≡ false)
    → unless_given given.attempts
        (map_result (validate_attempt host.windows_absolute host.encode))
        attempts
      ≡ ok attempts
    → (let e : ResearchCampaign = record c {
      status = status;
      attempts = attempts;
      updated_at = now;
    } in
        validate_campaign host given e ≡ ok e)
restored host given c status attempts now h t u fits n (g0, g1, g2, g3) taken =
    let v = validate_campaign-IsValidated host dumped c c h in
    IsValidated-validate_campaign host given _ _ (record {
      budget = rw g0 v.budget;
      operator_policy = rw g0 v.operator_policy;
      stop_conditions = rw g1 v.stop_conditions;
      attempts = taken;
      risk_findings = rw g2 v.risk_findings;
      comparisons = rw g3 v.comparisons;
      campaign_id = v.campaign_id;
      issue_id = v.issue_id;
      created_at = v.created_at;
      updated_at = n;
      finalized_at = v.finalized_at;
      notes = v.notes;
      limitations = v.limitations;
      rest = refl;
      consistent = record {
        bounded = fits;
        ordered = v.consistent.ordered;
        dated = u ∙ (sym t ∙ v.consistent.dated);
        limited = v.consistent.limited;
        noticed = v.consistent.noticed;
      };
    })

pub open_status : (number limit : ℕ) → is_terminal (status_after number limit) ≡ false
unfolding is_terminal any status_value
open_status number limit = elim (Bool-cases (leb limit number)) [
  | inl e ↦ rw e refl
  | inr e ↦ rw e refl
]

length-snoc : {A : Type 0} (xs : List A) (x : A) → length (xs ++ (x ∷ [])) ≡ suc (length xs)
length-snoc [] x = refl
length-snoc (y ∷ ys) x = ap suc (length-snoc ys x)

ltb_of : (m n : ℕ) → m < n → ltb m n ≡ true
ltb_of m n h = ground arith

eqb_of : (m n : ℕ) → m ≡ n → (m == n) ≡ true
eqb_of m n h = ground arith

-- The campaign with one more attempt.
abbrev pub appended : CampaignAttempt → ResearchCampaign → ResearchCampaign
appended a c = record c {
  status = status_after (suc (length c.attempts)) c.budget.max_attempts;
  attempts = c.attempts ++ (a ∷ []);
  updated_at = a.completed_at;
}

-- A campaign that is read from its file as it stands takes an attempt, whose time is a whole
-- second, exactly if it is open, its budget lasts, and the attempt is its own and the next; the
-- result is the campaign with that attempt.
pub add_attempt_iff :
    (host : Host) (a : CampaignAttempt) (c d : ResearchCampaign)
    → validate_campaign host dumped c ≡ ok c
    → normalize_timestamp a.completed_at ≡ ok a.completed_at
    → (add_attempt host a c ≡ ok d) ↔ (
        (is_terminal c.status ≡ false)
        × (length c.attempts < c.budget.max_attempts)
        × (a.campaign_id ≡ c.campaign_id)
        × (a.attempt_number ≡ suc (length c.attempts))
        × (d ≡ appended a c))
unfolding add_attempt ensure_mutable unless_given
add_attempt_iff host a c d h n = (
  λ added.
      let (unfinished, room, own, number, k) = add_attempt-parts host a c d added in
      (unfinished, room, own, number, ok_inj (sym k ∙ stays unfinished room)),
  λ (unfinished, room, own, number, same).
      rw
        (unfinished, ltb_of _ _ room, (eq_iff a.campaign_id c.campaign_id).1 own, eqb_of _ _ number)
        (stays unfinished room ∙ ap ok (sym same)),
)
  where
    stays :
        is_terminal c.status ≡ false
        → length c.attempts < c.budget.max_attempts
        → validate_campaign host (record dumped { attempts = true }) (appended a c)
          ≡ ok (appended a c)
    stays unfinished room =
        restored host (record dumped { attempts = true }) c (appended a c).status
          (appended a c).attempts a.completed_at h unfinished
          (open_status (suc (length c.attempts)) c.budget.max_attempts)
          (rw (length-snoc c.attempts a) (omega arith)) n (refl, refl, refl, refl) refl

next_status-running :
    (status : CampaignStatus) (stop : StopConditions)
    → next_status status stop ≡ running
    → (stop.unsafe_runtime_output ≡ false) × (stop.all_budget_exhausted ≡ false)
unfolding next_status
next_status-running status stop h = elim (Bool-cases (same_status status paused)) [
  | inl e ↦ absurd (let k = (rw e at h) in cc)
  | inr e ↦
      elim (Bool-cases
        (stop.unsafe_runtime_output || stop.repeated_failure_without_justification)) [
          | inl f ↦ absurd (let k = (rw (e, f) at h) in cc)
          | inr f ↦ elim (Bool-cases stop.all_budget_exhausted) [
            | inl g ↦ absurd (let k = (rw (e, f, g) at h) in cc)
            | inr g ↦ (ground arith, g)
          ]
        ]
]

-- The controller leaves a campaign running only if no scan finding blocks it and its budget lasts.
pub run_campaign-running :
    (host : Host) (now : Timestamp) (path : String) (findings : List ScanFinding) (limit : Option ℕ)
    (c d : ResearchCampaign)
    → run_campaign host now path findings limit c ≡ ok d
    → d.status ≡ running
    → (run_blocked (scan_budget_state path c findings) ≡ false)
      × (length c.attempts < effective_max_attempts c.budget limit)
      × (draft_budget_exhausted c ≡ false)
unfolding campaign_stop_conditions
run_campaign-running host now path findings limit c d h e =
    elim (run_campaign-parts host now path findings limit c d h).1 [
      | inl (kept, same) ↦ clear (same_status-eq _ _ kept ∙ (ap (λ x. x.status) same ∙ e))
      | inr k ↦
          clear (ap (λ x. x.status) (validate_campaign-IsValidated host dumped _ d k).rest ∙ e)
    ]
  where
    funds :
        (m n : ℕ)
        → (leb m n || draft_budget_exhausted c) ≡ false
        → (n < m) × (draft_budget_exhausted c ≡ false)
    funds m n h = (ground arith, ground arith)

    clear :
        next_status c.status (campaign_stop_conditions c (scan_budget_state path c findings) limit)
          ≡ running
        → (run_blocked (scan_budget_state path c findings) ≡ false)
          × (length c.attempts < effective_max_attempts c.budget limit)
          × (draft_budget_exhausted c ≡ false)
    clear k =
        let (safe, funded) = next_status-running c.status _ k in
        let (room, drafts) = funds _ _ funded in (safe, room, drafts)
