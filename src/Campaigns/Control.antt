-- ===== src/Campaigns/Control.antt =====
-- cosheaf/campaigns/storage.py: pausing, resuming and the run controller. A campaign is loaded by its
-- caller, and the result is what is written. The findings of the scanned files are an input.
use tcs_cosheaf.Base.{
  String, ℕ, ◌+◌, Bool, true, false, not, ◌&&◌, ◌||◌, List, [], ◌∷◌, ◌++◌, Option, none, some,
  if◌then◌else◌, any, keep, strip, lower, codes_eq, str_eq, leb, ltb, ◌==◌, Result, ok, ◌>>◌,
  require, length, insert, sort,
}
use tcs_cosheaf.Core.Artifact.{Timestamp}
use tcs_cosheaf.Campaigns.Records.{AttemptOutcome, failure, CampaignBudget, CampaignAttempt, Host}
use tcs_cosheaf.Campaigns.Campaign.{
  CampaignStatus, created, running, paused, held, budget_exhausted, finalized, abandoned, failed,
  ResearchCampaign, ensure_mutable, validate_campaign, dumped,
}

-- `status is other`
unfoldable pub same_status : CampaignStatus → CampaignStatus → Bool
same_status created created = true
same_status running running = true
same_status paused paused = true
same_status held held = true
same_status budget_exhausted budget_exhausted = true
same_status finalized finalized = true
same_status abandoned abandoned = true
same_status failed failed = true
same_status _ _ = false

pub data ScanSeverity : Type 0 where
  warning blocker : ScanSeverity

pub record ScanFinding : Type 0 where
  pub code : String
  pub severity : ScanSeverity
  pub source_path : String
  pub line : Option ℕ
  pub field_path : Option (List ℕ)

abbrev pub is_blocker : ScanSeverity → Bool
is_blocker warning = false
is_blocker blocker = true

-- `blocking_finding_count`
unfoldable pub blocking_finding_count : List ScanFinding → ℕ
unfolding keep
blocking_finding_count findings = length (keep (λ f. is_blocker f.severity) findings)

unfoldable pub run_blocked : List ScanFinding → Bool
unfolding blocking_finding_count
run_blocked findings = ltb 0 (blocking_finding_count findings)

abbrev same_optional : {A : Type 0} → (A → A → Bool) → Option A → Option A → Bool
same_optional eq none none = true
same_optional eq (some a) (some b) = eq a b
same_optional eq _ _ = false

-- The marker of a finding: its code, file, line and field.
abbrev same_marker : ScanFinding → ScanFinding → Bool
unfolding codes_eq
same_marker a b =
    str_eq a.code b.code
    && (str_eq a.source_path b.source_path
        && (same_optional (λ m n. m == n) a.line b.line
            && same_optional codes_eq a.field_path b.field_path))

-- `_add`
unfoldable pub add_finding : List ScanFinding → ScanFinding → List ScanFinding
unfolding any same_marker
add_finding findings f = if any (same_marker f) findings then findings else findings ++ (f ∷ [])

-- `attempted_direction.strip().lower()`, as code points.
abbrev pub direction_key : CampaignAttempt → List ℕ
unfolding strip lower
direction_key a = lower (strip a.attempted_direction)

abbrev pub is_failure : AttemptOutcome → Bool
is_failure failure = true
is_failure _ = false

-- How often a direction failed.
unfoldable pub failure_count : List ℕ → List CampaignAttempt → ℕ
unfolding keep codes_eq
failure_count key attempts =
    length (keep (λ a. is_failure a.outcome && codes_eq (direction_key a) key) attempts)

-- The directions that failed, each once.
abbrev failed_directions : List CampaignAttempt → List (List ℕ)
unfolding keep codes_eq
failed_directions [] = []
failed_directions (a ∷ rest) =
    let others = failed_directions rest in
    if is_failure a.outcome
    then direction_key a ∷ keep (λ k. not (codes_eq (direction_key a) k)) others
    else others

-- Lists of code points in the order of the texts.
abbrev codes_le : List ℕ → List ℕ → Bool
codes_le [] ys = true
codes_le (x ∷ xs) [] = false
codes_le (x ∷ xs) (y ∷ ys) = if ltb x y then true else (if x == y then codes_le xs ys else false)

unfoldable pub repeated_failure_directions : ResearchCampaign → List (List ℕ)
unfolding keep sort insert failure_count failed_directions
repeated_failure_directions c = elim c.budget.max_failure_repeats [
  | none ↦ []
  | some limit ↦
      keep (λ key. ltb limit (failure_count key c.attempts))
        (sort codes_le (failed_directions c.attempts))
]

abbrev repeated_finding : String → List ℕ → ScanFinding
repeated_finding path direction = record {
  code = "repeated_failure";
  severity = blocker;
  source_path = path;
  line = none;
  field_path = some direction;
}

abbrev add_repeated : String → List (List ℕ) → List ScanFinding → List ScanFinding
unfolding add_finding
add_repeated path [] findings = findings
add_repeated path (d ∷ ds) findings =
    add_repeated path ds (add_finding findings (repeated_finding path d))

-- `scan_budget_state`, after the files; `path` is that of the campaign's record.
unfoldable pub scan_budget_state : String → ResearchCampaign → List ScanFinding → List ScanFinding
unfolding add_repeated repeated_failure_directions
scan_budget_state path c findings = add_repeated path (repeated_failure_directions c) findings

unfoldable pub draft_output_count : List CampaignAttempt → ℕ
draft_output_count [] = 0
draft_output_count (a ∷ rest) = length a.draft_proposal_refs + draft_output_count rest

unfoldable pub draft_budget_exhausted : ResearchCampaign → Bool
unfolding draft_output_count
draft_budget_exhausted c = elim c.budget.max_draft_outputs [
  | none ↦ false
  | some limit ↦ leb limit (draft_output_count c.attempts)
]

abbrev pub effective_max_attempts : CampaignBudget → Option ℕ → ℕ
effective_max_attempts b none = b.max_attempts
effective_max_attempts b (some n) = if leb b.max_attempts n then b.max_attempts else n

pub record StopConditions : Type 0 where
  pub human_pause_requested : Bool
  pub unsafe_runtime_output : Bool
  pub repeated_failure_without_justification : Bool
  pub reviewable_draft_created : Bool
  pub all_budget_exhausted : Bool

unfoldable pub campaign_stop_conditions :
    ResearchCampaign → List ScanFinding → Option ℕ → StopConditions
unfolding same_status run_blocked any draft_budget_exhausted
campaign_stop_conditions c findings max_attempts = record {
  human_pause_requested = same_status c.status paused;
  unsafe_runtime_output = run_blocked findings;
  repeated_failure_without_justification =
      any (λ f. str_eq f.code "repeated_failure" && is_blocker f.severity) findings;
  reviewable_draft_created = draft_budget_exhausted c;
  all_budget_exhausted =
      leb (effective_max_attempts c.budget max_attempts) (length c.attempts)
      || draft_budget_exhausted c;
}

-- The status that the controller leaves.
unfoldable pub next_status : CampaignStatus → StopConditions → CampaignStatus
unfolding same_status
next_status status stop =
    if same_status status paused
    then paused
    else if stop.unsafe_runtime_output || stop.repeated_failure_without_justification
    then held
    else if stop.all_budget_exhausted
    then budget_exhausted
    else if same_status status created
    then running
    else status

module _ (host : Host) where
  unfoldable pub pause_campaign : Timestamp → ResearchCampaign → Result ResearchCampaign
  unfolding ensure_mutable validate_campaign
  pause_campaign now c = do
    ensure_mutable c
    validate_campaign host dumped (record c { status = paused; updated_at = now })

  unfoldable pub resume_campaign : Timestamp → ResearchCampaign → Result ResearchCampaign
  unfolding same_status validate_campaign
  resume_campaign now c = do
    require (same_status c.status paused) "only paused campaigns can be resumed"
    validate_campaign host dumped (record c { status = running; updated_at = now })

  -- `run_campaign` on a campaign, the findings of its files, and the limit that the caller gives.
  unfoldable pub run_campaign :
      Timestamp → String → List ScanFinding → Option ℕ → ResearchCampaign → Result ResearchCampaign
  unfolding ensure_mutable scan_budget_state campaign_stop_conditions next_status same_status
      validate_campaign
  run_campaign now path file_findings max_attempts c = do
    ensure_mutable c
    let stop = campaign_stop_conditions c (scan_budget_state path c file_findings) max_attempts
    if same_status (next_status c.status stop) c.status
        then ok c
        else validate_campaign host dumped
            (record c { status = next_status c.status stop; updated_at = now })
