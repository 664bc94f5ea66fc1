-- ===== src/Context/Exposure.antt =====
-- What a preview of cosheaf/services/context_policy.py can show, and when it is denied.
use tcs_cosheaf.Base.{
  List-cases, String, ◌≤◌, true, false, not, List, [], ◌∷◌, ◌≡◌, ◌↔◌, refl, sym, subst, ◌⊎◌, inl,
  inr, arith, if◌then◌else◌, Bool-cases, In, any-true, any_of_In, In-keep, In-keep_of, In-map,
  In-map_of, map, sort-eq-nil, length, ok, err, Result, In-append_right,
}
use tcs_cosheaf.Storage.{LoadedRecord, IssueRecord}
use tcs_cosheaf.Gates.Dependency.{text_le}
use tcs_cosheaf.Gates.DependencyLaws.{In-distinct_of}
use tcs_cosheaf.Context.Preview.{
  MemoryRootScope, public, private, workspace, framework, ContextPolicyMode, public_mode,
  private_research, ContextBuildRequest, ErrorResult, PolicyDecision, Answer, denied, answered,
  scope_decision_in, provider_scope_decision, public_provider_scopes,
  private_research_provider_scopes, same_scope, scope_in, ArtifactCard, estimated_card_tokens,
  PreviewItem, preview_item, distinct_scopes, ordered_root_scopes, preview_risk_flags, Retrieval,
  ProviderContextPreview, total_tokens, leaked, build_preview, Search, retrieve, checked_preview,
  provider_preview,
}

-- The request allows private cards.
pub record HasConsent (request : ContextBuildRequest) : Type 0 where
  pub mode : request.policy_mode ≡ private_research
  pub wide : request.public_only ≡ false
  pub consent : request.allow_private_context ≡ true

-- A scope that the request allows to be shown.
abbrev pub IsShown : ContextBuildRequest → MemoryRootScope → Type 0
IsShown request scope = (scope ≡ public) ⊎ ((scope ≡ private) × HasConsent request)

same_scope-eq : (s t : MemoryRootScope) → same_scope s t ≡ true → s ≡ t
unfolding same_scope
same_scope-eq public public h = refl
same_scope-eq private private h = refl
same_scope-eq workspace workspace h = refl
same_scope-eq framework framework h = refl
same_scope-eq _ _ h = cc

same_scope_refl : (s : MemoryRootScope) → same_scope s s ≡ true
unfolding same_scope
same_scope_refl public = refl
same_scope_refl private = refl
same_scope_refl workspace = refl
same_scope_refl framework = refl

scope_in-In :
    (scopes : List MemoryRootScope) (s : MemoryRootScope) → scope_in scopes s ≡ true → In s scopes
unfolding scope_in
scope_in-In scopes s h =
    let (t, m, e) = any-true (λ t. same_scope t s) scopes h in rw (← same_scope-eq t s e) m

In-scope_in :
    (scopes : List MemoryRootScope) (s : MemoryRootScope) → In s scopes → scope_in scopes s ≡ true
unfolding scope_in
In-scope_in scopes s m = any_of_In (λ t. same_scope t s) scopes s m (same_scope_refl s)

answered_inj : {A : Type 0} {a b : A} → answered a ≡ answered b → a ≡ b
answered_inj h = cc

public-IsShown :
    (request : ContextBuildRequest) (scope : MemoryRootScope)
    → In scope public_provider_scopes
    → IsShown request scope
public-IsShown request scope (inl e) = inl (sym e)
public-IsShown request scope (inr m) = elim m [ ]

wide-IsShown :
    (request : ContextBuildRequest) (scope : MemoryRootScope)
    → HasConsent request
    → In scope private_research_provider_scopes
    → IsShown request scope
wide-IsShown request scope c (inl e) = inr (sym e, c)
wide-IsShown request scope c (inr (inl e)) = inl (sym e)
wide-IsShown request scope c (inr (inr m)) = elim m [ ]

-- What a decision allows.
scope_decision_in-IsShown :
    (mode : ContextPolicyMode) (request : ContextBuildRequest) (decision : PolicyDecision)
    → request.policy_mode ≡ mode
    → scope_decision_in mode request ≡ answered decision
    → (scope : MemoryRootScope) → In scope decision.allowed_scopes
    → IsShown request scope
unfolding scope_decision_in
scope_decision_in-IsShown public_mode request decision e h scope m =
    elim (Bool-cases request.public_only) [
      | inr f ↦ absurd (let k = (rw f at h) in cc)
      | inl f ↦
          let same = answered_inj (rw (f, if◌then◌else◌) at h) in
          public-IsShown request scope (rw (← same) at m)
    ]
scope_decision_in-IsShown private_research request decision e h scope m =
    elim (Bool-cases request.public_only) [
      | inl f ↦
          let same = answered_inj (rw (f, if◌then◌else◌) at h) in
          public-IsShown request scope (rw (← same) at m)
      | inr f ↦ elim (Bool-cases request.allow_private_context) [
        | inr g ↦ absurd (let k = (rw (f, g) at h) in cc)
        | inl g ↦
            let same = answered_inj (rw (f, g, if◌then◌else◌) at h) in
            wide-IsShown request scope (record { mode = e; wide = f; consent = g })
              (rw (← same) at m)
      ]
    ]

scope_decision_in_iff :
    (mode : ContextPolicyMode) (request : ContextBuildRequest)
    → request.policy_mode ≡ mode
    → ((decision : PolicyDecision) × (scope_decision_in mode request ≡ answered decision))
      ↔ ((request.public_only ≡ true) ⊎ HasConsent request)
unfolding scope_decision_in
scope_decision_in_iff public_mode request e = (
  λ (d, h). elim (Bool-cases request.public_only) [
    | inl f ↦ inl f
    | inr f ↦ absurd (let k = (rw f at h) in cc)
  ],
  λ k. elim k [
    | inl f ↦ (
      record { allowed_scopes = public_provider_scopes; private_context_requested = false },
      rw f refl,
    )
    | inr c ↦ absurd (let m = c.mode in cc)
  ],
)
scope_decision_in_iff private_research request e = (
  λ (d, h). elim (Bool-cases request.public_only) [
    | inl f ↦ inl f
    | inr f ↦ elim (Bool-cases request.allow_private_context) [
      | inl g ↦ inr (record { mode = e; wide = f; consent = g })
      | inr g ↦ absurd (let k = (rw (f, g) at h) in cc)
    ]
  ],
  λ k. elim k [
    | inl f ↦ (
      record { allowed_scopes = public_provider_scopes; private_context_requested = false },
      rw f refl,
    )
    | inr c ↦ (
      record {
        allowed_scopes = private_research_provider_scopes;
        private_context_requested = true;
      },
      rw (c.wide, c.consent) refl,
    )
  ],
)

-- A decision is made exactly if the request is for public context, or has consent for more.
pub provider_scope_decision_iff :
    (request : ContextBuildRequest)
    → ((decision : PolicyDecision) × (provider_scope_decision request ≡ answered decision))
      ↔ ((request.public_only ≡ true) ⊎ HasConsent request)
unfolding provider_scope_decision
provider_scope_decision_iff request = scope_decision_in_iff request.policy_mode request refl

-- Where nothing leaks, every card is in an allowed scope.
leaked-nil :
    (scopes : List MemoryRootScope) (cards : List ArtifactCard)
    → leaked scopes cards ≡ []
    → (c : ArtifactCard) → In c cards
    → In c.root_scope scopes
unfolding leaked
leaked-nil scopes cards h c m = elim (Bool-cases (scope_in scopes c.root_scope)) [
  | inl e ↦ scope_in-In scopes c.root_scope e
  | inr e ↦
      let outside = In-keep_of (λ c. not (scope_in scopes c.root_scope)) cards c m (rw e refl) in
      let named = In-map (λ (c : ArtifactCard). c.id) _ c outside in
      let none_left = sort-eq-nil text_le _ h in absurd (subst (λ xs. In c.id xs) none_left named)
]

Answer-cases :
    {A : Type 0} (a : Answer A)
    → ((e : ErrorResult) × (a ≡ denied e)) ⊎ ((v : A) × (a ≡ answered v))
Answer-cases (denied e) = inl (e, refl)
Answer-cases (answered v) = inr (v, refl)

Result-cases : {A : Type 0} (r : Result A) → ((m : String) × (r ≡ err m)) ⊎ ((v : A) × (r ≡ ok v))
Result-cases (err m) = inl (m, refl)
Result-cases (ok v) = inr (v, refl)

-- What a preview that is given went through.
record Passed (request : ContextBuildRequest) (p : ProviderContextPreview) : Type 0 where
  decision : PolicyDecision
  of_issue : IssueRecord
  retrieval : Retrieval
  decided : provider_scope_decision request ≡ answered decision
  tight : leaked decision.allowed_scopes retrieval.cards ≡ []
  built : build_preview request decision of_issue retrieval ≡ p

module _ (load_artifacts : Result (List LoadedRecord))
    (search_artifact_cards : Search → Result Retrieval) where
  provider_preview-Passed :
      (request : ContextBuildRequest) (p : ProviderContextPreview)
      → provider_preview load_artifacts search_artifact_cards request ≡ answered p
      → Passed request p
  unfolding provider_preview checked_preview
  provider_preview-Passed request p h = elim (Answer-cases (provider_scope_decision request)) [
    | inl (error, e) ↦ absurd (let k = (rw (e, provider_preview) at h) in cc)
    | inr (decision, e) ↦
        elim (Result-cases (retrieve load_artifacts search_artifact_cards request decision)) [
          | inl (message, f) ↦ absurd (let k = (rw (e, f, provider_preview) at h) in cc)
          | inr ((i, retrieval), f) ↦
              elim (List-cases (leaked decision.allowed_scopes retrieval.cards)) [
                | inr (x, xs, g) ↦
                    absurd (let k = (rw (e, f, g, provider_preview, checked_preview) at h) in cc)
                | inl g ↦ record {
                  decision = decision;
                  of_issue = i;
                  retrieval = retrieval;
                  decided = e;
                  tight = g;
                  built = answered_inj (rw (e, f, g, provider_preview, checked_preview) at h);
                }
              ]
        ]
  ]

  -- Whatever the search returns, a preview shows public cards only, and private ones where the request
  -- is for private research, asks for more than public context, and has consent.
  pub provider_preview-IsShown :
      (request : ContextBuildRequest) (p : ProviderContextPreview)
      → provider_preview load_artifacts search_artifact_cards request ≡ answered p
      → (item : PreviewItem) → In item p.items
      → IsShown request item.root_scope
  unfolding build_preview preview_item provider_scope_decision
  provider_preview-IsShown request p h item m =
      let k = provider_preview-Passed request p h in
      let (card, here, same) =
        In-map_of preview_item k.retrieval.cards item (rw (← k.built) at m) in
      rw (← same) (
        scope_decision_in-IsShown request.policy_mode request k.decision refl k.decided
          card.root_scope
          (leaked-nil k.decision.allowed_scopes k.retrieval.cards k.tight card here))

In-distinct_scopes :
    (ss : List MemoryRootScope) (s : MemoryRootScope) → In s (distinct_scopes ss) → In s ss
unfolding distinct_scopes
In-distinct_scopes [] s m = elim m [ ]
In-distinct_scopes (t ∷ ss) s (inl e) = inl e
In-distinct_scopes (t ∷ ss) s (inr m) =
    inr (In-distinct_scopes ss s (In-keep (λ u. not (same_scope t u)) (distinct_scopes ss) s m).0)

In-distinct_scopes_of :
    (ss : List MemoryRootScope) (s : MemoryRootScope) → In s ss → In s (distinct_scopes ss)
unfolding distinct_scopes
In-distinct_scopes_of [] s m = elim m [ ]
In-distinct_scopes_of (t ∷ ss) s (inl e) = inl e
In-distinct_scopes_of (t ∷ ss) s (inr m) = elim (Bool-cases (same_scope t s)) [
  | inl e ↦ inl (same_scope-eq t s e)
  | inr e ↦ inr (
      In-keep_of (λ u. not (same_scope t u)) (distinct_scopes ss) s (In-distinct_scopes_of ss s m)
        (rw e refl))
]

estimated_card_tokens-pos : (card : ArtifactCard) → 1 ≤ estimated_card_tokens card
unfolding estimated_card_tokens
estimated_card_tokens-pos card = ground arith

total_tokens-bound :
    (cards : List ArtifactCard)
    → length (map preview_item cards) ≤ total_tokens (map preview_item cards)
unfolding total_tokens preview_item
total_tokens-bound [] = omega arith
total_tokens-bound (c ∷ cs) =
    let rest = total_tokens-bound cs in let one = estimated_card_tokens-pos c in omega arith

-- A preview tells whether it holds private cards, flags them, and counts a token at least for each card.
pub build_preview-totals :
    (request : ContextBuildRequest) (decision : PolicyDecision) (i : IssueRecord)
    (retrieval : Retrieval)
    → (let p = build_preview request decision i retrieval in
        ((p.private_context_included ≡ true)
          ↔ ((item : PreviewItem) × In item p.items × (item.root_scope ≡ private)))
        × (p.private_context_included ≡ true → In "private_context" p.risk_flags)
        × (p.card_count ≤ p.estimated_tokens))
unfolding build_preview ordered_root_scopes
build_preview-totals request decision i retrieval = (
  (
    λ h.
        let (item, m, e) =
          In-map_of (λ (i : PreviewItem). i.root_scope) items private
            (In-distinct_scopes scopes private (scope_in-In (distinct_scopes scopes) private h)) in
        (item, m, e),
    λ (item, m, e). In-scope_in (distinct_scopes scopes) private (
        In-distinct_scopes_of scopes private
          (subst (λ s. In s scopes) e (In-map (λ (i : PreviewItem). i.root_scope) items item m))),
  ),
  λ h. rw h (
      In-distinct_of _ "private_context" (
        In-append_right "private_context" (preview_risk_flags items) ("private_context" ∷ [])
          (inl refl))),
  total_tokens-bound retrieval.cards,
)
  where
    items : List PreviewItem
    items = map preview_item retrieval.cards

    scopes : List MemoryRootScope
    scopes = map (λ i. i.root_scope) items
