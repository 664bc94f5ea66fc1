-- ===== src/Strategy/Nodes.antt =====
-- cosheaf/strategy/models.py: the identifiers of validated tasks, and validated lists.
use tcs_cosheaf.Base.{
  String, Bool, true, false, List, [], ◌∷◌, ◌≡◌, refl, sym, ap, ◌∙◌, subst, inl, inr, In, All,
  strip, strip-strip, Result, ok, ok_inj, after, map_result, map_result-All,
}
use tcs_cosheaf.Core.Ids.{validate_artifact_id, validate_artifact_id_iff}
use tcs_cosheaf.Core.Validate.{strip_nonempty}
use tcs_cosheaf.Campaigns.Texts.{text_sequence}
use tcs_cosheaf.Strategy.Texts.{safe_text, safe_texts, validate_repo_local_path}
use tcs_cosheaf.Strategy.Models.{StrategyTaskNode, node_ref, validate_reference, validate_node}

pub node_ref-strip : (v w : String) → node_ref v ≡ ok w → w ≡ strip v
unfolding node_ref
node_ref-strip v w h = ((validate_artifact_id_iff (strip v) w).0 h).0

-- An identifier that was validated is trimmed.
abbrev pub IsTrimmedNode : StrategyTaskNode → Type 0
IsTrimmedNode n = strip n.node_id ≡ n.node_id

validate_node-IsTrimmedNode :
    (w : String → Bool) (n m : StrategyTaskNode) → validate_node w n ≡ ok m → IsTrimmedNode m
unfolding validate_node
validate_node-IsTrimmedNode w n m h = after (node_ref n.node_id) _ h λ id at_id h.
    after (safe_text n.title) _ h λ x0 p h. after (safe_texts n.depends_on) _ h λ x1 p h.
      after (safe_texts n.blocked_by) _ h λ x2 p h.
        after (safe_texts n.expected_evidence_kinds) _ h λ x3 p h.
          after (text_sequence validate_artifact_id n.related_artifacts) _ h λ x4 p h.
            after (safe_texts n.related_failure_log_entries) _ h λ x5 p h.
              after (safe_texts n.related_candidate_counterexamples) _ h λ x6 p h.
                after (safe_texts n.related_checked_counterexample_evidence) _ h λ x7 p h.
                  after (safe_texts n.related_research_run_ids) _ h λ x8 p h.
                    after (safe_texts n.command) _ h λ x9 p h.
                      after
                        (map_result (validate_repo_local_path w false)
                          (strip_nonempty n.input_paths))
                        _ h
                        λ x10 p h.
                          after
                            (map_result (validate_repo_local_path w true)
                              (strip_nonempty n.write_paths))
                            _ h
                            λ x11 p h.
                              after (map_result (validate_reference w) n.references) _ h λ x12 p h.
                                after (safe_texts n.notes) _ h λ x13 p h.
                                  subst (λ t. strip t ≡ t)
                                    (ap (λ (x : StrategyTaskNode). x.node_id) (ok_inj h))
                                    (trimmed id (node_ref-strip n.node_id id at_id))
  where
    trimmed : (id : String) → id ≡ strip n.node_id → strip id ≡ id
    trimmed id e = ap strip e ∙ (strip-strip n.node_id ∙ sym e)

pub validated_nodes-trimmed :
    (w : String → Bool) (xs ys : List StrategyTaskNode)
    → map_result (validate_node w) xs ≡ ok ys
    → All IsTrimmedNode ys
validated_nodes-trimmed w xs ys h =
    map_result-All IsTrimmedNode (validate_node w) (validate_node-IsTrimmedNode w) xs h

module _ {A B : Type 0} (check : A → Result B) where
  -- Every result of a validated list comes from a member of it, and every member has a result.
  pub In-map_result :
      (xs : List A) (ys : List B) (y : B)
      → map_result check xs ≡ ok ys
      → In y ys
      → (x : A) × In x xs × (check x ≡ ok y)
  unfolding map_result
  In-map_result [] ys y h m = absurd (subst (λ zs. In y zs) (sym (ok_inj h)) m)
  In-map_result (x ∷ xs) ys y h m = after (check x) _ h λ z at_x h.
      after (map_result check xs) _ h λ zs at_xs h.
        elim (subst (λ us. In y us) (sym (ok_inj h)) m) [
          | inl e ↦ (x, inl refl, at_x ∙ ap ok e)
          | inr k ↦ let (a, n, e) = In-map_result xs zs y at_xs k in (a, inr n, e)
        ]

  pub In-map_result_of :
      (xs : List A) (ys : List B) (x : A)
      → map_result check xs ≡ ok ys
      → In x xs
      → (y : B) × In y ys × (check x ≡ ok y)
  unfolding map_result
  In-map_result_of [] ys x h m = elim m [ ]
  In-map_result_of (a ∷ xs) ys x h m = after (check a) _ h λ z at_a h.
      after (map_result check xs) _ h λ zs at_xs h. elim m [
        | inl e ↦ (z, subst (λ us. In z us) (ok_inj h) (inl refl), ap check (sym e) ∙ at_a)
        | inr k ↦
            let (y, n, e) = In-map_result_of xs zs x at_xs k in
            (y, subst (λ us. In y us) (ok_inj h) (inr n), e)
      ]
