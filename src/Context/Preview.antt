-- ===== src/Context/Preview.antt =====
-- cosheaf/services/context_policy.py: the preview of the context that a provider is sent. The loaded
-- records and the search are arguments; the preview's own validators, which its cards' validators
-- have run before, are left out.
use tcs_cosheaf.Base.{
  String, ℕ, suc, ◌+◌, Bool, true, false, not, ◌&&◌, ◌||◌, List, [], ◌∷◌, ◌++◌, Option, none, some,
  if◌then◌else◌, any, keep, collect, map, blank, strip, lower, codes, codes_eq, str_eq, leb, ltb,
  ◌==◌, join, concat, sort, Result, ok, err, ◌>>=◌, length,
}
use tcs_cosheaf.Storage.{IssueRecord, LoadedRecord, LoadedModel, issue, is_artifact}
use tcs_cosheaf.Gates.Dependency.{get_by_id, distinct, text_le}

pub data MemoryRootScope : Type 0 where
  public private workspace framework : MemoryRootScope

pub data ContextPolicyMode : Type 0 where
  public_mode private_research : ContextPolicyMode

unfoldable pub mode_value : ContextPolicyMode → String
mode_value public_mode = "public"
mode_value private_research = "private_research"

pub record ContextBuildRequest : Type 0 where
  pub issue_id : String
  pub role : String
  pub max_cards : ℕ
  pub policy_mode : ContextPolicyMode
  pub public_only : Bool
  pub allow_private_context : Bool

pub record ErrorResult : Type 0 where
  pub code : String
  pub message : String
  pub remediation : String
  pub blocking : Bool
  pub details : List (String × String)

pub record PolicyDecision : Type 0 where
  pub allowed_scopes : List MemoryRootScope
  pub private_context_requested : Bool

-- A service returns its answer or a structured denial.
pub data Answer (A : Type 0) : Type 0 where
  denied : (error : ErrorResult) → Answer A
  answered : (value : A) → Answer A

abbrev pub public_provider_scopes : List MemoryRootScope
public_provider_scopes = public ∷ []

abbrev pub private_research_provider_scopes : List MemoryRootScope
private_research_provider_scopes = private ∷ public ∷ []

-- `str(value).lower()`
abbrev bool_text : Bool → String
bool_text true = "true"
bool_text false = "false"

abbrev request_details : ContextBuildRequest → List (String × String)
unfolding mode_value
request_details request =
    ("policy_mode", mode_value request.policy_mode)
    ∷ ("public_only", bool_text request.public_only)
    ∷ ("allow_private_context", bool_text request.allow_private_context)
    ∷ []

abbrev pub requires_policy : ContextBuildRequest → ErrorResult
unfolding request_details
requires_policy request = record {
  code = "private_context_requires_policy";
  message = "Private context cannot be previewed in public policy mode.";
  remediation =
      "Use policy_mode=private_research with explicit private-context consent before previewing private KB context.";
  blocking = true;
  details = request_details request;
}

abbrev pub requires_consent : ContextBuildRequest → ErrorResult
unfolding request_details
requires_consent request = record {
  code = "private_context_requires_consent";
  message = "Private research context requires explicit consent.";
  remediation =
      "Set allow_private_context=true only when the operator has approved sending private KB context to the provider.";
  blocking = true;
  details = request_details request;
}

-- `_provider_scope_decision`, by the mode.
unfoldable pub scope_decision_in : ContextPolicyMode → ContextBuildRequest → Answer PolicyDecision
unfolding requires_policy requires_consent
scope_decision_in public_mode request =
    if not request.public_only
    then denied (requires_policy request)
    else answered
        (record { allowed_scopes = public_provider_scopes; private_context_requested = false })
scope_decision_in private_research request =
    if not request.public_only && not request.allow_private_context
    then denied (requires_consent request)
    else answered (record {
      allowed_scopes =
          if not request.public_only
          then private_research_provider_scopes
          else public_provider_scopes;
      private_context_requested = not request.public_only;
    })

unfoldable pub provider_scope_decision : ContextBuildRequest → Answer PolicyDecision
unfolding scope_decision_in
provider_scope_decision request = scope_decision_in request.policy_mode request

abbrev pub issue_named : String → LoadedModel → List IssueRecord
issue_named issue_id (issue i) = if str_eq i.id issue_id then i ∷ [] else []
issue_named issue_id _ = []

-- `_find_issue`
unfoldable pub find_issue : List LoadedRecord → String → Result IssueRecord
unfolding collect
find_issue records issue_id = only (collect (λ r. issue_named issue_id r.model) records)
  where
    only : List IssueRecord → Result IssueRecord
    only [] = err (concat ("issue not found: " ∷ issue_id ∷ []))
    only (i ∷ []) = ok i
    only (i ∷ j ∷ rest) = err (concat ("duplicate issue id: " ∷ issue_id ∷ []))

abbrev pub scope_of_name : List ℕ → MemoryRootScope
unfolding codes_eq
scope_of_name name =
    if codes_eq name (codes "public")
    then public
    else if codes_eq name (codes "private")
    then private
    else if codes_eq name (codes "framework")
    then framework
    else workspace

abbrev root_name : Option String → String
root_name none = ""
root_name (some name) = name

-- `_root_scope_for_loaded_record`
unfoldable pub root_scope_for_loaded_record : LoadedRecord → MemoryRootScope
unfolding lower scope_of_name
root_scope_for_loaded_record loaded = scope_of_name (lower (root_name loaded.kb_root_name))

unfoldable pub same_scope : MemoryRootScope → MemoryRootScope → Bool
same_scope public public = true
same_scope private private = true
same_scope workspace workspace = true
same_scope framework framework = true
same_scope _ _ = false

-- `scope in scopes`
unfoldable pub scope_in : List MemoryRootScope → MemoryRootScope → Bool
unfolding any same_scope
scope_in scopes scope = any (λ s. same_scope s scope) scopes

-- `_allowed_related_artifact_ids`
unfoldable pub allowed_related_artifact_ids :
    List LoadedRecord → IssueRecord → List MemoryRootScope → List String
unfolding keep get_by_id root_scope_for_loaded_record scope_in
allowed_related_artifact_ids records i allowed_scopes =
    keep
      (λ artifact_id. elim (get_by_id artifact_id (keep is_artifact records)) [
        | none ↦ false
        | some r ↦ scope_in allowed_scopes (root_scope_for_loaded_record r)
      ])
      i.related_artifacts

-- `_issue_query`
unfoldable pub issue_query : IssueRecord → List String → String
unfolding keep strip
issue_query i allowed_related =
    let query = strip (
      join " " (
        keep (λ p. not (blank (strip p))) ((i.title ∷ i.summary ∷ i.labels) ++ allowed_related))) in
    if blank query then i.id else query

pub record ArtifactCard : Type 0 where
  pub id : String
  pub root_scope : MemoryRootScope
  pub status : String
  pub title : String
  pub summary : String
  pub domain : List String
  pub tags : List String
  pub depends_on : List String
  pub sources : List String
  pub review_state : String
  pub verifier_state : String
  pub formalization_state : String
  pub risk_flags : List String

-- `[A-Za-z0-9_]`
abbrev is_word_code : ℕ → Bool
is_word_code c =
    (leb b'a' c && leb c b'z')
    || ((leb b'A' c && leb c b'Z') || ((leb b'0' c && leb c b'9') || c == b'_'))

-- The maximal runs of word characters; the flag tells that the character before was one.
unfoldable pub token_count : Bool → List ℕ → ℕ
token_count inside [] = 0
token_count inside (c ∷ cs) =
    let after_word = token_count true cs in
    let after_gap = token_count false cs in
    if is_word_code c then (if inside then after_word else suc after_word) else after_gap

-- `_estimated_card_tokens`
unfoldable pub estimated_card_tokens : ArtifactCard → ℕ
unfolding token_count
estimated_card_tokens card =
    let text = join " " (
      (card.id ∷ card.title ∷ card.summary ∷ [])
      ++ (card.domain
          ++ (card.tags
              ++ (card.depends_on
                  ++ (card.sources
                      ++ (card.risk_flags
                          ++ (card.review_state ∷ card.verifier_state ∷ card.formalization_state
                              ∷ []))))))) in
    let count = token_count false (codes text) in if leb 1 count then count else 1

pub record PreviewItem : Type 0 where
  pub artifact_id : String
  pub root_scope : MemoryRootScope
  pub status : String
  pub estimated_tokens : ℕ
  pub risk_flags : List String

unfoldable pub preview_item : ArtifactCard → PreviewItem
unfolding estimated_card_tokens
preview_item card = record {
  artifact_id = card.id;
  root_scope = card.root_scope;
  status = card.status;
  estimated_tokens = estimated_card_tokens card;
  risk_flags = card.risk_flags;
}

-- `dict.fromkeys` of scopes, in order.
unfoldable pub distinct_scopes : List MemoryRootScope → List MemoryRootScope
unfolding keep same_scope
distinct_scopes [] = []
distinct_scopes (s ∷ ss) = s ∷ keep (λ t. not (same_scope s t)) (distinct_scopes ss)

-- `_ordered_root_scopes`
unfoldable pub ordered_root_scopes : List PreviewItem → List MemoryRootScope
unfolding distinct_scopes
ordered_root_scopes items = distinct_scopes (map (λ i. i.root_scope) items)

-- `_preview_risk_flags`
unfoldable pub preview_risk_flags : List PreviewItem → List String
unfolding distinct keep collect
preview_risk_flags items = distinct (keep (λ f. not (blank f)) (collect (λ i. i.risk_flags) items))

pub record Retrieval : Type 0 where
  pub cards : List ArtifactCard
  pub full_artifact_pulls : ℕ

pub data ContentMode : Type 0 where
  cards_only cards_with_full_artifacts : ContentMode

unfoldable pub preview_content_mode : ℕ → ContentMode
preview_content_mode n = if ltb 0 n then cards_with_full_artifacts else cards_only

pub record ProviderContextPreview : Type 0 where
  pub issue_id : String
  pub policy_mode : ContextPolicyMode
  pub public_only : Bool
  pub private_context_requested : Bool
  pub private_context_included : Bool
  pub artifact_ids : List String
  pub root_scopes : List MemoryRootScope
  pub estimated_tokens : ℕ
  pub card_count : ℕ
  pub full_artifact_count : ℕ
  pub content_mode : ContentMode
  pub risk_flags : List String
  pub items : List PreviewItem

unfoldable pub total_tokens : List PreviewItem → ℕ
total_tokens [] = 0
total_tokens (i ∷ rest) = i.estimated_tokens + total_tokens rest

-- The cards outside the allowed scopes, by their sorted identifiers.
unfoldable pub leaked : List MemoryRootScope → List ArtifactCard → List String
unfolding scope_in keep sort
leaked allowed_scopes cards =
    sort text_le (map (λ c. c.id) (keep (λ c. not (scope_in allowed_scopes c.root_scope)) cards))

abbrev pub scope_violation : List String → ErrorResult
scope_violation ids = record {
  code = "provider_context_scope_violation";
  message = "Context retrieval returned cards outside the allowed scope.";
  remediation =
      "Do not send this context. Rebuild the preview with the intended policy scope before any provider call.";
  blocking = true;
  details = ("artifact_ids", join "," ids) ∷ [];
}

abbrev pub preview_failed : String → ErrorResult
preview_failed message = record {
  code = "provider_context_preview_failed";
  message = message;
  remediation = "Fix repository records or choose an existing issue id.";
  blocking = true;
  details = [];
}

-- The preview of the cards.
unfoldable pub build_preview :
    ContextBuildRequest → PolicyDecision → IssueRecord → Retrieval → ProviderContextPreview
unfolding preview_item ordered_root_scopes preview_risk_flags scope_in distinct preview_content_mode
    total_tokens
build_preview request decision i retrieval =
    let items = map preview_item retrieval.cards in
    let root_scopes = ordered_root_scopes items in
    let private_included = scope_in root_scopes private in
    let risk_flags = preview_risk_flags items in
    record {
      issue_id = i.id;
      policy_mode = request.policy_mode;
      public_only = request.public_only;
      private_context_requested = decision.private_context_requested;
      private_context_included = private_included;
      artifact_ids = map (λ item. item.artifact_id) items;
      root_scopes = root_scopes;
      estimated_tokens = total_tokens items;
      card_count = length items;
      full_artifact_count = retrieval.full_artifact_pulls;
      content_mode = preview_content_mode retrieval.full_artifact_pulls;
      risk_flags =
          if private_included
          then distinct (risk_flags ++ ("private_context" ∷ []))
          else risk_flags;
      items = items;
    }

-- The search that `provider_preview` asks for.
pub record Search : Type 0 where
  pub query : String
  pub issue_id : String
  pub max_cards : ℕ
  pub allowed_scopes : List MemoryRootScope
  pub role : String

module _ (load_artifacts : Result (List LoadedRecord))
    (search_artifact_cards : Search → Result Retrieval) where
  -- The issue and the cards that were found for it.
  unfoldable pub retrieve : ContextBuildRequest → PolicyDecision → Result (IssueRecord × Retrieval)
  unfolding find_issue issue_query allowed_related_artifact_ids
  retrieve request decision = do
    records ← load_artifacts
    i ← find_issue records request.issue_id
    retrieval ← search_artifact_cards (record {
      query = issue_query i (allowed_related_artifact_ids records i decision.allowed_scopes);
      issue_id = i.id;
      max_cards = request.max_cards;
      allowed_scopes = decision.allowed_scopes;
      role = request.role;
    })
    ok (i, retrieval)

  -- The check of the cards, and the preview.
  unfoldable pub checked_preview :
      ContextBuildRequest → PolicyDecision → IssueRecord → Retrieval → Answer ProviderContextPreview
  unfolding leaked build_preview
  checked_preview request decision i retrieval =
      by_leaks (leaked decision.allowed_scopes retrieval.cards)
    where
      by_leaks : List String → Answer ProviderContextPreview
      by_leaks [] = answered (build_preview request decision i retrieval)
      by_leaks (x ∷ xs) = denied (scope_violation (x ∷ xs))

  unfoldable pub provider_preview : ContextBuildRequest → Answer ProviderContextPreview
  unfolding provider_scope_decision retrieve checked_preview
  provider_preview request = elim (provider_scope_decision request) [
    | denied error ↦ denied error
    | answered decision ↦ elim (retrieve request decision) [
      | err message ↦ denied (preview_failed message)
      | ok found ↦ checked_preview request decision found.0 found.1
    ]
  ]
