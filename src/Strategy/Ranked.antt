-- ===== src/Strategy/Ranked.antt =====
-- cosheaf/strategy/planner.py: the steps of a plan are ranked by their scores.
use tcs_cosheaf.Base.{
  In-keep, strip, String, ℕ, suc, ◌≤◌, ◌<◌, Bool, true, false, List, [], ◌∷◌, some, map, keep, ◌≡◌,
  refl, sym, subst, some_inj, ap, ◌∙◌, inl, inr, Bool-cases, All, All-at, In, In-sort, In-map_of,
  insert, sort, arith, is_empty, leb, ok, after, require, map_result, ok_inj,
}
use tcs_cosheaf.Core.Artifact.{BaseArtifact, FailureLogEntry, Timestamp}
use tcs_cosheaf.Strategy.Models.{
  StrategyTaskNode, StrategyNextStep, StrategyPlan, validate_next_step,
}
use tcs_cosheaf.Strategy.Texts.{safe_texts}
use tcs_cosheaf.Storage.{IssueRecord}
use tcs_cosheaf.Strategy.Sources.{Repository, issue_of}
use tcs_cosheaf.Strategy.Plan.{related_of, build_strategy_plan}
use tcs_cosheaf.Strategy.Consistent.{build_strategy_plan-issue}
use tcs_cosheaf.Strategy.Models.{node_ref}
use tcs_cosheaf.Strategy.Nodes.{node_ref-strip, IsTrimmedNode, validated_nodes-trimmed}
use tcs_cosheaf.Strategy.Ranking.{
  Scored, scored_le, scored_of, is_task, number_from, rank_next_steps, is_retry, step_score,
  base_score, least_of,
}

-- Ranks count up from `n`, and no score is above `bound` or above an earlier one.
abbrev pub IsRanked : ℕ → ℕ → List StrategyNextStep → Type 0
IsRanked n bound [] = Unit
IsRanked n bound (s ∷ rest) = (s.rank ≡ n) × (s.score ≤ bound) × IsRanked (suc n) s.score rest

abbrev IsFalling : ℕ → List Scored → Type 0
IsFalling bound [] = Unit
IsFalling bound (s ∷ rest) = (s.score ≤ bound) × IsFalling s.score rest

scored_le-true : (a b : Scored) → scored_le a b ≡ true → b.score ≤ a.score
unfolding scored_le
scored_le-true a b h = ground arith

scored_le-false : (a b : Scored) → scored_le a b ≡ false → a.score ≤ b.score
unfolding scored_le
scored_le-false a b h = ground arith

insert-IsFalling :
    (bound : ℕ) (x : Scored) (xs : List Scored)
    → x.score ≤ bound
    → IsFalling bound xs
    → IsFalling bound (insert scored_le x xs)
unfolding insert
insert-IsFalling bound x [] h k = (h, tt)
insert-IsFalling bound x (y ∷ ys) h (k, rest) = elim (Bool-cases (scored_le x y)) [
  | inl e ↦ rw e (h, (scored_le-true x y e, rest))
  | inr e ↦ rw e (k, insert-IsFalling y.score x ys (scored_le-false x y e) rest)
]

sort-IsFalling :
    (bound : ℕ) (xs : List Scored)
    → All (λ x. x.score ≤ bound) xs
    → IsFalling bound (sort scored_le xs)
unfolding sort
sort-IsFalling bound [] h = tt
sort-IsFalling bound (x ∷ xs) (h, k) =
    insert-IsFalling bound x (sort scored_le xs) h (sort-IsFalling bound xs k)

number_from-IsRanked :
    (n bound : ℕ) (xs : List Scored) → IsFalling bound xs → IsRanked n bound (number_from n xs)
unfolding number_from
number_from-IsRanked n bound [] h = tt
number_from-IsRanked n bound (x ∷ xs) (h, k) = (refl, h, number_from-IsRanked (suc n) x.score xs k)

base_score_le : (node : StrategyTaskNode) → base_score node ≤ 100
unfolding base_score
base_score_le node = ground arith

least_of_le : (a b : ℕ) → (least_of a b ≤ a) × (least_of a b ≤ b)
unfolding least_of
least_of_le a b = (ground arith, ground arith)

step_score_le :
    (entries : List (BaseArtifact × FailureLogEntry)) (node : StrategyTaskNode)
    → step_score entries node ≤ 100
unfolding step_score is_retry
step_score_le entries node = elim (Bool-cases (is_retry entries node)) [
  | inl e ↦ rw e (let h = (least_of_le (base_score node) 20).1 in omega arith)
  | inr e ↦ rw e (base_score_le node)
]

rank_next_steps-IsRanked :
    (nodes : List StrategyTaskNode) (entries : List (BaseArtifact × FailureLogEntry))
    → IsRanked 1 100 (rank_next_steps nodes entries)
unfolding rank_next_steps scored_of
rank_next_steps-IsRanked nodes entries =
    number_from-IsRanked 1 100 _ (sort-IsFalling 100 _ (bounded (keep is_task nodes)))
  where
    bounded :
        (ns : List StrategyTaskNode)
        → All (λ (x : Scored). x.score ≤ 100) (map (scored_of entries) ns)
    bounded [] = tt
    bounded (n ∷ ns) = (step_score_le entries n, bounded ns)

-- The score of a step is that of a node with its identifier.
abbrev IsScored : List (BaseArtifact × FailureLogEntry) → StrategyNextStep → Type 0
IsScored entries s =
    (node : StrategyTaskNode) × (strip node.node_id ≡ node.node_id)
    × (s.node_id ≡ node.node_id)
    × (s.score ≡ step_score entries node)

number_from-All :
    (P : StrategyNextStep → Type 0)
    → (xs : List Scored)
    → ((n : ℕ) (x : Scored)
        → In x xs
        → P (record {
          rank = n;
          node_id = x.node.node_id;
          score = x.score;
          reasons = x.reasons;
          command = x.node.command;
        }))
    → (n : ℕ) → All P (number_from n xs)
unfolding number_from
number_from-All P [] h n = tt
number_from-All P (x ∷ xs) h n =
    (h n x (inl refl), number_from-All P xs (λ m y at. h m y (inr at)) (suc n))

rank_next_steps-IsScored :
    (nodes : List StrategyTaskNode) (entries : List (BaseArtifact × FailureLogEntry))
    → All IsTrimmedNode nodes
    → All (IsScored entries) (rank_next_steps nodes entries)
unfolding rank_next_steps scored_of
rank_next_steps-IsScored nodes entries trimmed =
    number_from-All (IsScored entries) _
      (λ n x at.
        let (node, kept, same) =
          In-map_of (scored_of entries) (keep is_task nodes) x (In-sort scored_le x _ at) in
        (
          node,
          All-at IsTrimmedNode nodes trimmed node (In-keep is_task nodes node kept).0,
          sym (ap (λ (y : Scored). y.node.node_id) same),
          sym (ap (λ (y : Scored). y.score) same),
        ))
      1

-- What validation keeps of a step.
abbrev IsSameStep : StrategyNextStep → StrategyNextStep → Type 0
IsSameStep s t = (t.rank ≡ s.rank) × (t.score ≡ s.score) × (t.node_id ≡ strip s.node_id)

validate_next_step-IsSameStep :
    (s t : StrategyNextStep) → validate_next_step s ≡ ok t → IsSameStep s t
unfolding validate_next_step
validate_next_step-IsSameStep s t h = after (require (leb 1 s.rank) _) _ h λ u p h.
    after (node_ref s.node_id) _ h λ id at_id h. after (safe_texts s.reasons) _ h λ reasons q h.
      after (safe_texts s.command) _ h λ command r h.
        let same = node_ref-strip s.node_id id at_id in
        (
          sym (ap (λ (x : StrategyNextStep). x.rank) (ok_inj h)),
          sym (ap (λ (x : StrategyNextStep). x.score) (ok_inj h)),
          sym (ap (λ (x : StrategyNextStep). x.node_id) (ok_inj h)) ∙ same,
        )

validated-IsRanked :
    (n bound : ℕ) (xs ys : List StrategyNextStep)
    → map_result validate_next_step xs ≡ ok ys
    → IsRanked n bound xs
    → IsRanked n bound ys
unfolding map_result
validated-IsRanked n bound [] ys h k = rw (← ok_inj h) tt
validated-IsRanked n bound (x ∷ xs) ys h (r, b, k) = after (validate_next_step x) _ h λ y at_x h.
    after (map_result validate_next_step xs) _ h λ zs at_xs h.
      let (rank, score, id) = validate_next_step-IsSameStep x y at_x in
      rw (← ok_inj h)
        (rank ∙ r, rw score b, validated-IsRanked (suc n) y.score xs zs at_xs (rw score k))

validated-IsScored :
    (entries : List (BaseArtifact × FailureLogEntry)) (xs ys : List StrategyNextStep)
    → map_result validate_next_step xs ≡ ok ys
    → All (IsScored entries) xs
    → All (IsScored entries) ys
unfolding map_result
validated-IsScored entries [] ys h k = rw (← ok_inj h) tt
validated-IsScored entries (x ∷ xs) ys h ((node, trimmed, id, score), k) =
    after (validate_next_step x) _ h λ y at_x h.
      after (map_result validate_next_step xs) _ h λ zs at_xs h.
        let (_, same_score, same_id) = validate_next_step-IsSameStep x y at_x in
        rw (← ok_inj h) (
          (node, trimmed, same_id ∙ (ap strip id ∙ trimmed), same_score ∙ score),
          validated-IsScored entries xs zs at_xs k,
        )

-- The members of a ranking have ranks from its first on and scores up to its bound.
IsRanked-at :
    (n bound : ℕ) (xs : List StrategyNextStep) (s : StrategyNextStep)
    → IsRanked n bound xs
    → In s xs
    → (n ≤ s.rank) × (s.score ≤ bound)
IsRanked-at n bound [] s h m = elim m [ ]
IsRanked-at n bound (x ∷ xs) s (r, b, k) (inl e) = rw (← e) (omega arith, b)
IsRanked-at n bound (x ∷ xs) s (r, b, k) (inr m) =
    let (after_n, below) = IsRanked-at (suc n) x.score xs s k m in (omega arith, omega arith)

-- Of two steps the one with the higher score comes first.
IsRanked-first :
    (n bound : ℕ) (xs : List StrategyNextStep) (s t : StrategyNextStep)
    → IsRanked n bound xs
    → In s xs
    → In t xs
    → s.score < t.score
    → t.rank < s.rank
IsRanked-first n bound [] s t h m k l = elim m [ ]
IsRanked-first n bound (x ∷ xs) s t (r, b, h) (inl e) (inl f) l =
    let g = ap (λ (y : StrategyNextStep). y.score) (sym e ∙ f) in absurd (omega arith)
IsRanked-first n bound (x ∷ xs) s t (r, b, h) (inl e) (inr k) l =
    let at_t = (IsRanked-at (suc n) x.score xs t h k).1 in
    let g = ap (λ (y : StrategyNextStep). y.score) e in absurd (omega arith)
IsRanked-first n bound (x ∷ xs) s t (r, b, h) (inr m) (inl f) l =
    let at_s = (IsRanked-at (suc n) x.score xs s h m).0 in
    let g = ap (λ (y : StrategyNextStep). y.rank) f in omega arith
IsRanked-first n bound (x ∷ xs) s t (r, b, h) (inr m) (inr k) l =
    IsRanked-first (suc n) x.score xs s t h m k l

review_score :
    (entries : List (BaseArtifact × FailureLogEntry)) (node : StrategyTaskNode)
    → node.node_id ≡ "task.review-failures"
    → 30 ≤ step_score entries node
unfolding step_score is_retry base_score
review_score entries node e = rw e (elim (Bool-cases (is_empty node.related_failure_log_entries)) [
  | inl f ↦ rw f (omega arith)
  | inr f ↦ rw f (omega arith)
])

retry_score :
    (entries : List (BaseArtifact × FailureLogEntry)) (node : StrategyTaskNode)
    → is_empty entries ≡ false
    → node.node_id ≡ "task.proof-attempt"
    → step_score entries node ≤ 20
unfolding step_score is_retry base_score least_of
retry_score entries node known e = rw (e, known) (omega arith)

module _ (windows_absolute : String → Bool) (to_utc : Timestamp → Timestamp) (repo : Repository)
    (issue_id : String) (p : StrategyPlan)
    (built : build_strategy_plan windows_absolute to_utc repo issue_id ≡ ok p) where
  -- The next steps of a plan that is built are ranked from one on, by scores that fall from at most
  -- a hundred.
  pub build_strategy_plan-IsRanked : IsRanked 1 100 p.next_steps
  build_strategy_plan-IsRanked =
      let (issue, _, b) = build_strategy_plan-issue windows_absolute to_utc repo issue_id p built in
      validated-IsRanked 1 100 _ p.next_steps b.steps (rank_next_steps-IsRanked _ _)

  -- Where the related artifacts of the issue have failures on record, a plan that is built ranks
  -- the review of the failures before the proof attempt.
  pub build_strategy_plan-review_first :
      (issue : IssueRecord)
      → issue_of repo.records issue_id ≡ some issue
      → is_empty (related_of repo issue).failures ≡ false
      → (review attempt : StrategyNextStep) → In review p.next_steps
      → In attempt p.next_steps
      → review.node_id ≡ "task.review-failures"
      → attempt.node_id ≡ "task.proof-attempt"
      → review.rank < attempt.rank
  build_strategy_plan-review_first issue found known review attempt m n e f =
      let (other, same, b) =
        build_strategy_plan-issue windows_absolute to_utc repo issue_id p built in
      let same_issue : issue ≡ other = some_inj (sym found ∙ same) in
      let failures = (related_of repo other).failures in
      let some_failed : is_empty failures ≡ false =
        subst (λ i. is_empty (related_of repo i).failures ≡ false) same_issue known in
      let scored = validated-IsScored failures _ p.next_steps b.steps (
        rank_next_steps-IsScored p.graph.nodes failures
          (validated_nodes-trimmed windows_absolute _ _ b.nodes)) in
      let (r, _, r_id, r_score) = All-at (IsScored failures) p.next_steps scored review m in
      let (a, _, a_id, a_score) = All-at (IsScored failures) p.next_steps scored attempt n in
      let high = review_score failures r (sym r_id ∙ e) in
      let low = retry_score failures a some_failed (sym a_id ∙ f) in
      IsRanked-first 1 100 p.next_steps attempt review build_strategy_plan-IsRanked n m
        (lower high low r_score a_score)
    where
      lower : {a b c d : ℕ} → 30 ≤ b → a ≤ 20 → c ≡ b → d ≡ a → d < c
      lower h k g l = omega arith
