-- ===== src/Gates/FormalRules.antt =====
-- What no failure of cosheaf/gates/formal_link_gate.py says of the artifacts.
use tcs_cosheaf.Base.{
  map-eq-nil, String, ℕ, ◌<◌, Bool, true, false, not, ◌&&◌, List, [], ◌∷◌, ◌≡◌, ◌≢◌, ◌↔◌, refl, ap,
  inl, inr, arith, some, Option-cases, All-at, All-of_In, In, In-sort, In-sort_of, any, any-true,
  any_of_In, collect, collect-eq-nil, collect-nil, append-eq-nil, blank, strip, str_eq, eq_iff,
  sort, sort-eq-nil, is_empty, ltb, ◌==◌,
}
use tcs_cosheaf.Core.Status.{accepted, is_accepted_status}
use tcs_cosheaf.Core.Artifact.{
  BaseArtifact, FormalizationRef, AlignmentStatus, PolicyLevel, lean_required,
}
use tcs_cosheaf.Storage.{LoadedRecord, as_artifact, per_artifact_iff, record_le}
use tcs_cosheaf.Gates.Failure.{sort_failures, failure_le}
use tcs_cosheaf.Gates.Dependency.{distinct, text_le}
use tcs_cosheaf.Gates.DependencyRules.{accepted_iff}
use tcs_cosheaf.Gates.Gatekeeper.{VerificationResult}
use tcs_cosheaf.Gates.FormalLink.{
  ManifestLookup, is_linked, is_dead, is_lean_required, is_human_reviewed, is_rejected,
  checked_count, active_count, lean_check_pass_count, when, policy_messages, library_messages,
  ref_messages, sorted_refs, ref_le, blocking_of, check_artifact, link_failures,
  validate_formal_link_policy,
}

-- The rules of the verification policy of an artifact.
pub record KeepsPolicy (results : List VerificationResult) (a : BaseArtifact) : Type 0 where
  pub has_link :
      a.verification_policy.require_formal_link ≡ true → is_empty a.formalizations ≡ false
  pub aligned :
      a.verification_policy.require_alignment_review ≡ true
      → a.alignment.status ≡ AlignmentStatus.human_reviewed
  pub has_check : a.verification_policy.require_lean_check ≡ true → 0 < checked_count a
  pub passed : a.verification_policy.require_lean_check ≡ true → 0 < lean_check_pass_count a results
  pub lean_link :
      a.verification_policy.level ≡ lean_required → a.verification_policy.require_formal_link ≡ true
  pub lean_check :
      a.verification_policy.level ≡ lean_required → a.verification_policy.require_lean_check ≡ true
  pub not_rejected : a.status ≡ accepted → a.alignment.status ≢ AlignmentStatus.rejected

-- The rules of one formalization.
pub record IsResolved (lookup : ManifestLookup) (a : BaseArtifact) (ref : FormalizationRef)
    : Type 0 where
  pub manifest_ok : blank lookup.issue ≡ true
  pub import_given : is_linked ref.status ≡ true → blank (strip ref.import_path) ≡ false
  pub symbol_given : is_linked ref.status ≡ true → blank (strip ref.symbol) ≡ false
  pub known : (ids : List String) → lookup.manifest ≡ some ids → In ref.library_ref ids
  pub replaced :
      is_dead ref.status ≡ true
      → a.verification_policy.require_formal_link ≡ true
      → 0 < active_count a

when-nil : (test : Bool) (message : List String) → when test message ≡ [] → test ≡ false
when-nil true message h = cc
when-nil false message h = refl

when_of : (test : Bool) (message : List String) → test ≡ false → when test message ≡ []
when_of test message h = rw h refl

both_false : (b c : Bool) → (b && c) ≡ false → b ≡ true → c ≡ false
both_false b c h k = ground arith

false_if : (b c : Bool) → (b ≡ true → c ≡ false) → (b && c) ≡ false
false_if true c h = h refl
false_if false c h = refl

positive : (n : ℕ) → (n == 0) ≡ false → 0 < n
positive n h = ground arith

zero_test : (n : ℕ) → 0 < n → (n == 0) ≡ false
zero_test n h = ground arith

human_eq :
    (s : AlignmentStatus) → not (is_human_reviewed s) ≡ false → s ≡ AlignmentStatus.human_reviewed
human_eq AlignmentStatus.human_reviewed h = refl
human_eq _ h = cc

lean_iff : (l : PolicyLevel) → (is_lean_required l ≡ true) ↔ (l ≡ lean_required)
lean_iff lean_required = (λ h. refl, λ h. refl)
lean_iff _ = (λ h. cc, λ h. cc)

rejected_iff : (s : AlignmentStatus) → (is_rejected s ≡ true) ↔ (s ≡ AlignmentStatus.rejected)
rejected_iff AlignmentStatus.rejected = (λ h. refl, λ h. refl)
rejected_iff _ = (λ h. cc, λ h. cc)

module _ (results : List VerificationResult) (a : BaseArtifact) where
  policy_messages-KeepsPolicy : policy_messages a results ≡ [] → KeepsPolicy results a
  unfolding policy_messages
  policy_messages-KeepsPolicy h =
      let (m1, h) =
        append-eq-nil
          (when (a.verification_policy.require_formal_link && is_empty a.formalizations) _) _ h in
      let (m2, h) =
        append-eq-nil
          (when
            (a.verification_policy.require_alignment_review
              && not (is_human_reviewed a.alignment.status))
            _)
          _ h in
      let (m3, h) =
        append-eq-nil (when (a.verification_policy.require_lean_check && checked_count a == 0) _) _
          h in
      let (m4, h) =
        append-eq-nil
          (when
            (a.verification_policy.require_lean_check
              && (ltb 0 (checked_count a) && lean_check_pass_count a results == 0))
            _)
          _ h in
      let (m5, h) =
        append-eq-nil
          (when
            (is_lean_required a.verification_policy.level
              && not a.verification_policy.require_formal_link)
            _)
          _ h in
      let (m6, m7) =
        append-eq-nil
          (when
            (is_lean_required a.verification_policy.level
              && not a.verification_policy.require_lean_check)
            _)
          _ h in
      let t3 : (p : a.verification_policy.require_lean_check ≡ true) → 0 < checked_count a =
        λ p. positive _ (both_false _ _ (when-nil _ _ m3) p) in
      record {
        has_link = λ p. both_false _ _ (when-nil _ _ m1) p;
        aligned = λ p. human_eq _ (both_false _ _ (when-nil _ _ m2) p);
        has_check = t3;
        passed =
            λ p. positive _ (both_false _ _ (both_false _ _ (when-nil _ _ m4) p) (ltb_of _ (t3 p)));
        lean_link = λ p. not-false _ (both_false _ _ (when-nil _ _ m5) ((lean_iff _).1 p));
        lean_check = λ p. not-false _ (both_false _ _ (when-nil _ _ m6) ((lean_iff _).1 p));
        not_rejected = λ p q.
            let u = both_false _ _ (when-nil _ _ m7) ((accepted_iff a.status).1 p) in
            let v = (rejected_iff a.alignment.status).1 q in cc;
      }
    where
      not-false : (b : Bool) → not b ≡ false → b ≡ true
      not-false true h = refl
      not-false false h = cc

      ltb_of : (n : ℕ) → 0 < n → ltb 0 n ≡ true
      ltb_of n h = ground arith

  KeepsPolicy-policy_messages : KeepsPolicy results a → policy_messages a results ≡ []
  unfolding policy_messages
  KeepsPolicy-policy_messages k =
      rw
        (
          false_if a.verification_policy.require_formal_link (is_empty a.formalizations) k.has_link,
          false_if a.verification_policy.require_alignment_review
              (not (is_human_reviewed a.alignment.status)) (λ p. rw (k.aligned p) refl),
          false_if a.verification_policy.require_lean_check (checked_count a == 0)
              (λ p. zero_test _ (k.has_check p)),
          false_if a.verification_policy.require_lean_check
              (ltb 0 (checked_count a) && lean_check_pass_count a results == 0)
              (λ p. false_if (ltb 0 (checked_count a)) _ (λ q. zero_test _ (k.passed p))),
          false_if (is_lean_required a.verification_policy.level)
              (not a.verification_policy.require_formal_link)
              (λ p. rw (k.lean_link ((lean_iff _).0 p)) refl),
          false_if (is_lean_required a.verification_policy.level)
              (not a.verification_policy.require_lean_check)
              (λ p. rw (k.lean_check ((lean_iff _).0 p)) refl),
          false_if (is_accepted_status a.status) (is_rejected a.alignment.status) (λ p.
              not_true _
                (λ q. k.not_rejected ((accepted_iff a.status).0 p) ((rejected_iff _).0 q))),
        )
        refl
    where
      not_true : (b : Bool) → (b ≡ true → ⊥) → b ≡ false
      not_true true h = absurd (h refl)
      not_true false h = refl

listed_iff :
    (text : String) (texts : List String) → (any (λ t. str_eq t text) texts ≡ true) ↔ In text texts
listed_iff text texts = (
  λ h. let (t, m, e) = any-true (λ t. str_eq t text) texts h in rw (← (eq_iff t text).0 e) m,
  λ m. any_of_In (λ t. str_eq t text) texts text m ((eq_iff text text).1 refl),
)

not-false : (b : Bool) → not b ≡ false → b ≡ true
not-false true h = refl
not-false false h = cc

module _ (lookup : ManifestLookup) (a : BaseArtifact) (ref : FormalizationRef) where
  library_messages-known :
      library_messages lookup ref ≡ []
      → (ids : List String) → lookup.manifest ≡ some ids
      → In ref.library_ref ids
  unfolding library_messages
  library_messages-known h ids e =
      (listed_iff ref.library_ref ids).0
        (not-false _ (when-nil _ _ (rw (e, library_messages) at h)))

  known-library_messages :
      ((ids : List String) → lookup.manifest ≡ some ids → In ref.library_ref ids)
      → library_messages lookup ref ≡ []
  unfolding library_messages
  known-library_messages k = elim (Option-cases lookup.manifest) [
    | inl e ↦ rw (e, library_messages) refl
    | inr (ids, e) ↦
        rw (e, library_messages)
          (when_of _ _ (rw ((listed_iff ref.library_ref ids).1 (k ids e)) refl))
  ]

  ref_messages-IsResolved : ref_messages lookup a ref ≡ [] → IsResolved lookup a ref
  unfolding ref_messages
  ref_messages-IsResolved h =
      let (m1, h) = append-eq-nil (when (not (blank lookup.issue)) _) _ h in
      let (m2, h) =
        append-eq-nil (when (is_linked ref.status && blank (strip ref.import_path)) _) _ h in
      let (m3, h) = append-eq-nil (when (is_linked ref.status && blank (strip ref.symbol)) _) _ h in
      let (m4, m5) = append-eq-nil (library_messages lookup ref) _ h in
      record {
        manifest_ok = not-false _ (when-nil _ _ m1);
        import_given = λ p. both_false _ _ (when-nil _ _ m2) p;
        symbol_given = λ p. both_false _ _ (when-nil _ _ m3) p;
        known = library_messages-known m4;
        replaced = λ p q. positive _ (both_false _ _ (both_false _ _ (when-nil _ _ m5) p) q);
      }

  IsResolved-ref_messages : IsResolved lookup a ref → ref_messages lookup a ref ≡ []
  unfolding ref_messages
  IsResolved-ref_messages k =
      rw
        (
          k.manifest_ok,
          false_if (is_linked ref.status) (blank (strip ref.import_path)) k.import_given,
          false_if (is_linked ref.status) (blank (strip ref.symbol)) k.symbol_given,
          known-library_messages k.known,
          false_if (is_dead ref.status)
              (a.verification_policy.require_formal_link && active_count a == 0)
              (λ p.
                false_if a.verification_policy.require_formal_link (active_count a == 0)
                  (λ q. zero_test _ (k.replaced p q))),
        )
        refl

-- The policy of an artifact holds, and all its formalizations are resolved.
pub record IsLinked (lookup : ManifestLookup) (results : List VerificationResult) (a : BaseArtifact)
    : Type 0 where
  pub policy : KeepsPolicy results a
  pub resolved : (ref : FormalizationRef) → In ref a.formalizations → IsResolved lookup a ref

distinct-eq-nil : (xs : List String) → distinct xs ≡ [] → xs ≡ []
unfolding distinct
distinct-eq-nil [] h = refl
distinct-eq-nil (x ∷ xs) h = cc

module _ (lookup : ManifestLookup) (results : List VerificationResult) where
  link_failures_iff :
      (loaded : LoadedRecord) (a : BaseArtifact)
      → (link_failures lookup results loaded a ≡ []) ↔ IsLinked lookup results a
  unfolding link_failures check_artifact blocking_of sort distinct
  link_failures_iff loaded a = (
    λ h.
        let silent =
          distinct-eq-nil (blocking_of lookup a results)
            (sort-eq-nil text_le _ (map-eq-nil _ _ h)) in
        let (first, rounds) =
          append-eq-nil (policy_messages a results)
            (collect (ref_messages lookup a) (sorted_refs a)) silent in
        record {
          policy = policy_messages-KeepsPolicy results a first;
          resolved = λ ref m. ref_messages-IsResolved lookup a ref (
              All-at (λ r. ref_messages lookup a r ≡ []) (sorted_refs a)
                (collect-eq-nil (ref_messages lookup a) (sorted_refs a) rounds) ref
                (In-sort_of ref_le ref a.formalizations m));
        },
    λ k.
        rw
          (
            KeepsPolicy-policy_messages results a k.policy,
            collect-nil (ref_messages lookup a) (sorted_refs a) (
                All-of_In (λ r. ref_messages lookup a r ≡ []) (sorted_refs a)
                  (λ ref m.
                    IsResolved-ref_messages lookup a ref
                      (k.resolved ref (In-sort ref_le ref a.formalizations m)))),
          )
          refl,
  )

  -- The formal-link gate reports no failure exactly if every loaded artifact keeps its verification
  -- policy, and its formalizations resolve in the manifest and name what they link.
  pub validate_formal_link_policy_iff :
      (records : List LoadedRecord)
      → ((validate_formal_link_policy lookup results records).failures ≡ []) ↔ (
          (loaded : LoadedRecord) (a : BaseArtifact)
          → In loaded records
          → as_artifact loaded ≡ some a
          → IsLinked lookup results a)
  unfolding validate_formal_link_policy sort_failures sort
  validate_formal_link_policy_iff records = (
    λ h loaded a m e. (link_failures_iff loaded a).0 (
        (per_artifact_iff (link_failures lookup results) (sort record_le records)).0
          (sort-eq-nil failure_le _ h) loaded a (In-sort_of record_le loaded records m) e),
    λ k. ap sort_failures (
        (per_artifact_iff (link_failures lookup results) (sort record_le records)).1
          (λ loaded a m e.
            (link_failures_iff loaded a).1 (k loaded a (In-sort record_le loaded records m) e))),
  )
