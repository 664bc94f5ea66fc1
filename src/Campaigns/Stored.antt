-- ===== src/Campaigns/Stored.antt =====
-- The validators of cosheaf/campaigns/models.py leave what they returned as it is.
use tcs_cosheaf.Base.{
  String, ℕ, ◌*◌, ◌≤◌, Bool, true, false, not, List, [], ◌∷◌, ◌≡◌, refl, subst, sym, ap, ◌∙◌, inl,
  inr, arith, none, some, if◌then◌else◌, Bool-cases, All, All-of_In, All-at, blank, strip,
  strip-strip, str_eq, ok, ok_inj, after, require, map_result, map_result-All, Result, any, length,
  leb,
}
use Prim.Native.Nat.{◌/◌}
use tcs_cosheaf.Core.Ids.{validate_artifact_id_iff}
use tcs_cosheaf.Core.Validate.{strip_nonempty}
use tcs_cosheaf.Gates.Dependency.{distinct}
use tcs_cosheaf.Gates.DependencyLaws.{In-distinct}
use tcs_cosheaf.Gates.Distinct.{IsTrimmed, distinct-distinct, strip_nonempty-trimmed}
use tcs_cosheaf.Campaigns.Texts.{
  safe_text, safe_optional_text, text_sequence, normalize_timestamp, normalize_optional,
}
use tcs_cosheaf.Campaigns.Records.{
  Host, validate_id, authority_notice, validate_budget, validate_policy, validate_stop_condition,
  validate_attempt, validate_finding, validate_comparison,
}
use tcs_cosheaf.Campaigns.Campaign.{
  Given, unless_given, ResearchCampaign, campaign_consistency, validate_campaign, is_terminal,
  not_before, is_dated,
}

-- A validator that accepts what it returned, unchanged.
abbrev pub IsStable : {A : Type 0} → (A → Result A) → Type 0
IsStable {A} check = (x y : A) → check x ≡ ok y → check y ≡ ok y

validate_id-IsStable : IsStable validate_id
unfolding validate_id
validate_id-IsStable x y h =
    let (same, matches) = (validate_artifact_id_iff (strip x) y).0 h in
    let still : strip y ≡ y = ap strip same ∙ (strip-strip x ∙ sym same) in
    rw still ((validate_artifact_id_iff y y).1 (refl, rw same matches))

safe_text-IsTrimmed : (x y : String) → safe_text x ≡ ok y → IsTrimmed y
unfolding safe_text
safe_text-IsTrimmed x y h = elim (Bool-cases (blank (strip x))) [
  | inl e ↦ absurd (let k = (rw e at h) in cc)
  | inr e ↦
      let same = ok_inj (rw (e, if◌then◌else◌) at h) in
      (ap strip (sym same) ∙ (strip-strip x ∙ same), rw (← same) e)
]

IsTrimmed-safe_text : (y : String) → IsTrimmed y → safe_text y ≡ ok y
unfolding safe_text
IsTrimmed-safe_text y (e, f) = rw (e, f) refl

safe_optional_text-IsStable : IsStable safe_optional_text
unfolding safe_optional_text
safe_optional_text-IsStable none y h = rw (← ok_inj h) refl
safe_optional_text-IsStable (some x) y h = elim (Bool-cases (blank (strip x))) [
  | inl e ↦ rw (← ok_inj (rw (e, if◌then◌else◌) at h)) refl
  | inr e ↦
      after (safe_text (strip x)) (λ text. ok (some text)) (rw (e, if◌then◌else◌) at h)
        λ text checked done.
          let (f, g) = safe_text-IsTrimmed (strip x) text checked in
          rw (← ok_inj done, f, g, IsTrimmed-safe_text text (f, g)) refl
]

normalize_timestamp-IsStable : IsStable normalize_timestamp
unfolding normalize_timestamp
normalize_timestamp-IsStable x y h =
    after (require x.aware "timestamp must include timezone information") _ h λ u ready done.
      rw (← ok_inj done) (ap ok (ap (λ n. record { instant = n; aware = true }) (whole x.instant)))
  where
    whole : (n : ℕ) → ((n / 1000000) * 1000000) / 1000000 * 1000000 ≡ (n / 1000000) * 1000000
    whole n = omega arith

normalize_optional-IsStable : IsStable normalize_optional
unfolding normalize_optional
normalize_optional-IsStable none y h = rw (← ok_inj h) refl
normalize_optional-IsStable (some x) y h =
    after (normalize_timestamp x) (λ t. ok (some t)) h
      λ t checked done. rw (← ok_inj done, normalize_timestamp-IsStable x t checked) refl

map_result-trimmed : (ys : List String) → All IsTrimmed ys → map_result safe_text ys ≡ ok ys
unfolding map_result
map_result-trimmed [] h = refl
map_result-trimmed (y ∷ ys) (t, h) = rw (IsTrimmed-safe_text y t, map_result-trimmed ys h) refl

text_sequence-IsStable : IsStable (text_sequence safe_text)
unfolding text_sequence
text_sequence-IsStable xs ys h =
    after (map_result safe_text (strip_nonempty xs)) (λ items. ok (distinct items)) h
      λ items checked done.
        let trimmed =
          map_result-All IsTrimmed safe_text safe_text-IsTrimmed (strip_nonempty xs) checked in
        let same = ok_inj done in
        let trimmed' : All IsTrimmed ys =
          All-of_In IsTrimmed ys
            (λ y m. All-at IsTrimmed items trimmed y (In-distinct items y (rw (← same) at m))) in
        rw (strip_nonempty-trimmed ys trimmed', map_result-trimmed ys trimmed')
          (ap ok (ap distinct (sym same) ∙ (distinct-distinct items ∙ same)))

-- What `_campaign_consistency` checks.
pub record IsConsistent (c : ResearchCampaign) : Type 0 where
  pub bounded : length c.attempts ≤ c.budget.max_attempts
  pub ordered : not_before c.finalized_at c.created_at ≡ true
  pub dated : is_terminal c.status ≡ is_dated c.finalized_at
  pub limited : any (λ l. str_eq l authority_notice) c.limitations ≡ true
  pub noticed : str_eq c.notice authority_notice ≡ true

pub require-true :
    (b : Bool) (message : String) (u : Unit {0}) → require b message ≡ ok u → b ≡ true
require-true true message u h = refl
require-true false message u h = cc

pub campaign_consistency-parts :
    (c d : ResearchCampaign) → campaign_consistency c ≡ ok d → (c ≡ d) × IsConsistent c
unfolding campaign_consistency
campaign_consistency-parts c d h =
    after (require (leb (length c.attempts) c.budget.max_attempts) _) _ h λ u0 bounded h.
      after (require (not_before c.finalized_at c.created_at) _) _ h λ u1 ordered h.
        after
          (if is_terminal c.status
            then require (is_dated c.finalized_at) _
            else require (not (is_dated c.finalized_at)) _)
          _ h
          λ u2 dated h.
            after (require (any (λ l. str_eq l authority_notice) c.limitations) _) _ h
              λ u3 limited h.
                after (require (str_eq c.notice authority_notice) _) _ h λ u4 noticed h. (
                  ok_inj h,
                  record {
                    bounded = ground (arith, require-true _ _ u0 bounded);
                    ordered = require-true _ _ u1 ordered;
                    dated = agree (is_terminal c.status) (is_dated c.finalized_at) _ _ u2 dated;
                    limited = require-true _ _ u3 limited;
                    noticed = require-true _ _ u4 noticed;
                  },
                )
  where
    agree :
        (b d : Bool) (m n : String) (u : Unit {0})
        → (if b then require d m else require (not d) n) ≡ ok u
        → b ≡ d
    agree true true m n u h = refl
    agree true false m n u h = cc
    agree false true m n u h = cc
    agree false false m n u h = refl

pub IsConsistent-campaign_consistency :
    (c : ResearchCampaign) → IsConsistent c → campaign_consistency c ≡ ok c
unfolding campaign_consistency
IsConsistent-campaign_consistency c k =
    let fits : leb (length c.attempts) c.budget.max_attempts ≡ true =
      let b = k.bounded in ground arith in
    elim (Bool-cases (is_dated c.finalized_at)) [
      | inl e ↦ rw (fits, k.ordered, k.dated, e, k.limited, k.noticed) refl
      | inr e ↦ rw (fits, k.ordered, k.dated, e, k.limited, k.noticed) refl
    ]

module _ (host : Host) where
  -- What `model_validate` returned: each field as its validator returns it, and all consistent.
  pub record IsValidated (given : Given) (c d : ResearchCampaign) : Type 0 where
    pub campaign_id : validate_id c.campaign_id ≡ ok d.campaign_id
    pub issue_id : validate_id c.issue_id ≡ ok d.issue_id
    pub budget : unless_given given.settings validate_budget c.budget ≡ ok d.budget
    pub operator_policy :
        unless_given given.settings validate_policy c.operator_policy ≡ ok d.operator_policy
    pub stop_conditions :
        unless_given given.stops (map_result validate_stop_condition) c.stop_conditions
        ≡ ok d.stop_conditions
    pub attempts :
        unless_given given.attempts
          (map_result (validate_attempt host.windows_absolute host.encode))
          c.attempts
        ≡ ok d.attempts
    pub risk_findings :
        unless_given given.findings
          (map_result (validate_finding host.windows_absolute))
          c.risk_findings
        ≡ ok d.risk_findings
    pub comparisons :
        unless_given given.comparisons (map_result validate_comparison) c.comparisons
        ≡ ok d.comparisons
    pub created_at : normalize_timestamp c.created_at ≡ ok d.created_at
    pub updated_at : normalize_timestamp c.updated_at ≡ ok d.updated_at
    pub finalized_at : normalize_optional c.finalized_at ≡ ok d.finalized_at
    pub notes : safe_optional_text c.notes ≡ ok d.notes
    pub limitations : text_sequence safe_text c.limitations ≡ ok d.limitations
    pub rest : record d { status = c.status; notice = c.notice } ≡ d
    pub consistent : IsConsistent d

  pub validate_campaign-IsValidated :
      (given : Given) (c d : ResearchCampaign)
      → validate_campaign host given c ≡ ok d
      → IsValidated given c d
  unfolding validate_campaign
  validate_campaign-IsValidated given c d h =
      after (validate_id c.campaign_id) _ h λ campaign_id h0 h.
        after (validate_id c.issue_id) _ h λ issue_id h1 h.
          after (unless_given given.settings validate_budget c.budget) _ h λ budget n0 h.
            after (unless_given given.settings validate_policy c.operator_policy) _ h λ policy n1 h.
              after
                (unless_given given.stops (map_result validate_stop_condition) c.stop_conditions) _
                h
                λ stops n2 h.
                  after
                    (unless_given given.attempts
                      (map_result (validate_attempt host.windows_absolute host.encode)) c.attempts)
                    _ h
                    λ attempts n3 h.
                      after
                        (unless_given given.findings
                          (map_result (validate_finding host.windows_absolute)) c.risk_findings)
                        _ h
                        λ findings n4 h.
                          after
                            (unless_given given.comparisons (map_result validate_comparison)
                              c.comparisons)
                            _ h
                            λ comparisons n5 h.
                              after (normalize_timestamp c.created_at) _ h λ created_at h2 h.
                                after (normalize_timestamp c.updated_at) _ h λ updated_at h3 h.
                                  after (normalize_optional c.finalized_at) _ h λ finalized_at h4 h.
                                    after (safe_optional_text c.notes) _ h λ notes h5 h.
                                      after (text_sequence safe_text c.limitations) _ h
                                        λ limitations h6 h.
                                          let (same, consistent) =
                                            campaign_consistency-parts _ d h in
                                          subst (IsValidated given c) same (record {
                                            campaign_id = h0;
                                            issue_id = h1;
                                            budget = n0;
                                            operator_policy = n1;
                                            stop_conditions = n2;
                                            attempts = n3;
                                            risk_findings = n4;
                                            comparisons = n5;
                                            created_at = h2;
                                            updated_at = h3;
                                            finalized_at = h4;
                                            notes = h5;
                                            limitations = h6;
                                            rest = refl;
                                            consistent = consistent;
                                          })

  pub IsValidated-validate_campaign :
      (given : Given) (c d : ResearchCampaign)
      → IsValidated given c d
      → validate_campaign host given c ≡ ok d
  unfolding validate_campaign
  IsValidated-validate_campaign given c d v =
      rw
        (
          v.campaign_id, v.issue_id, v.budget, v.operator_policy, v.stop_conditions, v.attempts,
          v.risk_findings, v.comparisons, v.created_at, v.updated_at, v.finalized_at, v.notes,
          v.limitations,
        )
        (ap campaign_consistency v.rest ∙ IsConsistent-campaign_consistency d v.consistent)

-- The fields of a campaign itself are as their validators return them.
pub record IsNormal (c : ResearchCampaign) : Type 0 where
  pub campaign_id : validate_id c.campaign_id ≡ ok c.campaign_id
  pub issue_id : validate_id c.issue_id ≡ ok c.issue_id
  pub created_at : normalize_timestamp c.created_at ≡ ok c.created_at
  pub updated_at : normalize_timestamp c.updated_at ≡ ok c.updated_at
  pub finalized_at : normalize_optional c.finalized_at ≡ ok c.finalized_at
  pub notes : safe_optional_text c.notes ≡ ok c.notes
  pub limitations : text_sequence safe_text c.limitations ≡ ok c.limitations

pub validate_campaign-IsNormal :
    (host : Host) (given : Given) (c d : ResearchCampaign)
    → validate_campaign host given c ≡ ok d
    → IsNormal d
validate_campaign-IsNormal host given c d h =
    let v = validate_campaign-IsValidated host given c d h in
    record {
      campaign_id = validate_id-IsStable c.campaign_id d.campaign_id v.campaign_id;
      issue_id = validate_id-IsStable c.issue_id d.issue_id v.issue_id;
      created_at = normalize_timestamp-IsStable c.created_at d.created_at v.created_at;
      updated_at = normalize_timestamp-IsStable c.updated_at d.updated_at v.updated_at;
      finalized_at = normalize_optional-IsStable c.finalized_at d.finalized_at v.finalized_at;
      notes = safe_optional_text-IsStable c.notes d.notes v.notes;
      limitations = text_sequence-IsStable c.limitations d.limitations v.limitations;
    }
