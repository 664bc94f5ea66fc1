-- ===== src/Examples/ContextRuns.antt =====
-- Runs of the context previews of cosheaf/services/context_policy.py.
use tcs_cosheaf.Base.{◌≤◌, true, false, [], ◌∷◌, ◌≡◌, ◌↔◌, ◌⊎◌, refl, inl, ok, Result, In}
use tcs_cosheaf.Context.Preview.{
  private, private_research, private_research_provider_scopes, ContextBuildRequest, PolicyDecision,
  answered, provider_scope_decision, ArtifactCard, PreviewItem, preview_item, Retrieval,
  ProviderContextPreview, build_preview, Search, provider_preview,
}
use tcs_cosheaf.Context.Exposure.{
  HasConsent, IsShown, provider_scope_decision_iff, provider_preview-IsShown, build_preview-totals,
}
use tcs_cosheaf.Examples.Samples.{all_records, new_issue}

abbrev consented : ContextBuildRequest
consented = record {
  issue_id = "issue.example.0001";
  role = "orchestrator";
  max_cards = 5;
  policy_mode = private_research;
  public_only = false;
  allow_private_context = true;
}

abbrev own_card : ArtifactCard
own_card = record {
  id = "claim.example.0002";
  root_scope = private;
  status = "draft";
  title = "A new claim";
  summary = "It holds.";
  domain = "topology" ∷ [];
  tags = [];
  depends_on = [];
  sources = [];
  review_state = "none";
  verifier_state = "none";
  formalization_state = "none";
  risk_flags = [];
}

abbrev one_card : Retrieval
one_card = record { cards = own_card ∷ []; full_artifact_pulls = 0 }

abbrev finds_one : Search → Result Retrieval
finds_one search = ok one_card

abbrev wide : PolicyDecision
wide = record {
  allowed_scopes = private_research_provider_scopes;
  private_context_requested = true;
}

abbrev shown : ProviderContextPreview
shown = build_preview consented wide new_issue one_card

provider_scope_decision_iff_example :
    ((decision : PolicyDecision) × (provider_scope_decision consented ≡ answered decision))
    ↔ ((consented.public_only ≡ true) ⊎ HasConsent consented)
provider_scope_decision_iff_example = provider_scope_decision_iff consented

preview_run : provider_preview (ok all_records) finds_one consented ≡ answered shown
unfolding provider_preview
preview_run = refl

own_item : In (preview_item own_card) shown.items
unfolding build_preview
own_item = inl refl

provider_preview-IsShown_example : IsShown consented (preview_item own_card).root_scope
provider_preview-IsShown_example =
    provider_preview-IsShown (ok all_records) finds_one consented shown preview_run
      (preview_item own_card) own_item

build_preview-totals_example :
    (let p = build_preview consented wide new_issue one_card in
      ((p.private_context_included ≡ true)
        ↔ ((item : PreviewItem) × In item p.items × (item.root_scope ≡ private)))
      × (p.private_context_included ≡ true → In "private_context" p.risk_flags)
      × (p.card_count ≤ p.estimated_tokens))
build_preview-totals_example = build_preview-totals consented wide new_issue one_card
