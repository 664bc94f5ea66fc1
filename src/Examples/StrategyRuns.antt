-- ===== src/Examples/StrategyRuns.antt =====
-- The planner of cosheaf/strategy/planner.py on the sample records.
use tcs_cosheaf.Base.{
  concat, join, String, Bool, true, false, List, [], ◌∷◌, none, some, ◌≡◌, refl, is_empty, Result,
  ok, err, ◌<◌, In, inl, inr,
}
use tcs_cosheaf.Core.Artifact.{Timestamp}
use tcs_cosheaf.Strategy.Models.{StrategyPlan, StrategyNextStep}
use tcs_cosheaf.Campaigns.Texts.{text_sequence, normalize_timestamp}
use tcs_cosheaf.Strategy.Texts.{safe_text, safe_texts, leaves_workspace}
use tcs_cosheaf.Core.Ids.{validate_artifact_id}
use tcs_cosheaf.Core.PurePath.{is_rooted, windows_as_posix, path_parts}
use tcs_cosheaf.Strategy.Sources.{Repository, issue_of}
use tcs_cosheaf.Strategy.Planner.{artifact_node, failure_review_node, proof_attempt_node}
use tcs_cosheaf.Strategy.Ranking.{node_edges, is_task, step_reasons}
use tcs_cosheaf.Strategy.Plan.{build_strategy_plan, plan_found, plan_of, related_of, domains_of}
use tcs_cosheaf.Strategy.Ranked.{
  IsRanked, build_strategy_plan-IsRanked, build_strategy_plan-review_first,
}
use tcs_cosheaf.Examples.Samples.{all_records, new_issue}

abbrev no_drives : String → Bool
no_drives path = false

abbrev same_time : Timestamp → Timestamp
same_time t = t

abbrev sample_repository : Repository
sample_repository = record { records = all_records; evidence = none; runs = [] }

abbrev sample_result : Result StrategyPlan
sample_result = build_strategy_plan no_drives same_time sample_repository new_issue.id

abbrev review_step : StrategyNextStep
review_step = record {
  rank = 4;
  node_id = "task.review-failures";
  score = 82;
  reasons = "review_decision task" ∷ "surfaces known failed directions" ∷ [];
  command = [];
}

abbrev attempt_step : StrategyNextStep
attempt_step = record {
  rank = 7;
  node_id = "task.proof-attempt";
  score = 20;
  reasons = "proof_attempt task" ∷ "known failed direction must be reviewed before retry" ∷ [];
  command = [];
}

abbrev sample_steps : List StrategyNextStep
sample_steps =
    record {
      rank = 1;
      node_id = "task.context-build";
      score = 100;
      reasons = "retrieval_context task" ∷ "first-class CLI command" ∷ [];
      command = "cosheaf" ∷ "context" ∷ "build" ∷ "issue.example.0001" ∷ [];
    }
    ∷ record {
      rank = 2;
      node_id = "task.validate";
      score = 95;
      reasons = "validation task" ∷ "first-class CLI command" ∷ [];
      command = "cosheaf" ∷ "validate" ∷ [];
    }
    ∷ record {
      rank = 3;
      node_id = "task.gate";
      score = 90;
      reasons = "gate task" ∷ "first-class CLI command" ∷ [];
      command = "cosheaf" ∷ "gate" ∷ "run" ∷ [];
    }
    ∷ review_step
    ∷ record {
      rank = 5;
      node_id = "task.counterexample-review";
      score = 28;
      reasons = "counterexample_search task" ∷ [];
      command = [];
    }
    ∷ record {
      rank = 6;
      node_id = "task.review-runs";
      score = 25;
      reasons = "run_review task" ∷ [];
      command = [];
    }
    ∷ attempt_step
    ∷ []

abbrev is_planned : Result StrategyPlan → Bool
is_planned (ok p) = true
is_planned (err message) = false

planned : is_planned sample_result ≡ true
unfolding build_strategy_plan plan_found issue_of plan_of safe_texts text_sequence artifact_node
    concat leaves_workspace is_rooted windows_as_posix join path_parts failure_review_node
    proof_attempt_node node_edges is_task step_reasons domains_of normalize_timestamp
    validate_artifact_id
planned = refl

abbrev plan_in : (r : Result StrategyPlan) → is_planned r ≡ true → (p : StrategyPlan) × (r ≡ ok p)
plan_in (ok p) h = (p, refl)
plan_in (err message) h = cc

abbrev sample_plan : StrategyPlan
sample_plan = (plan_in sample_result planned).0

sample_built : sample_result ≡ ok sample_plan
sample_built = (plan_in sample_result planned).1

planned_steps : sample_plan.next_steps ≡ sample_steps
unfolding build_strategy_plan plan_found issue_of plan_of safe_texts text_sequence artifact_node
    concat leaves_workspace is_rooted windows_as_posix join path_parts failure_review_node
    proof_attempt_node node_edges is_task step_reasons domains_of normalize_timestamp
    validate_artifact_id
planned_steps = refl

sample_failures : is_empty (related_of sample_repository new_issue).failures ≡ false
unfolding related_of
sample_failures = refl

sample_issue : issue_of all_records "issue.example.0001" ≡ some new_issue
unfolding issue_of
sample_issue = refl

-- A word that ends in `sk`, with a dash after it, is taken for a secret.
risk_word : safe_text "A risk-free bound" ≡ err "text field contains secret-looking value"
unfolding safe_text
risk_word = refl

build_strategy_plan-IsRanked_example : IsRanked 1 100 sample_plan.next_steps
build_strategy_plan-IsRanked_example =
    build_strategy_plan-IsRanked no_drives same_time sample_repository new_issue.id sample_plan
      sample_built

at_review : In review_step sample_plan.next_steps
at_review = rw planned_steps (inr (inr (inr (inl refl))))

at_attempt : In attempt_step sample_plan.next_steps
at_attempt = rw planned_steps (inr (inr (inr (inr (inr (inr (inl refl)))))))

build_strategy_plan-review_first_example : review_step.rank < attempt_step.rank
build_strategy_plan-review_first_example =
    build_strategy_plan-review_first no_drives same_time sample_repository new_issue.id sample_plan
      sample_built new_issue sample_issue sample_failures review_step attempt_step at_review
      at_attempt refl refl
