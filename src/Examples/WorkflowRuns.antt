-- ===== src/Examples/WorkflowRuns.antt =====
-- Runs of the orchestrator.
use tcs_cosheaf.Base.{[], ◌≡◌, ◌↔◌, refl, none, some, ok, concat}
use tcs_cosheaf.Workflow.Fsm.{
  FsmState, created, planned, EventStore, OrchestratorRecord, create_orchestrator, append_event,
  is_allowed, transition_state, next_action, fsm_transitions,
}
use tcs_cosheaf.Workflow.FsmTraces.{
  IsWalk, Runs, start, step, Runs-IsWalk, next_action-transition_state,
}

abbrev fresh : OrchestratorRecord
fresh = record {
  orch_id = "orch-issue.example.0001";
  issue_id = "issue.example.0001";
  state = created;
  events = 3;
  created_at = "t0";
  updated_at = "t0";
}

abbrev no_events : EventStore
no_events = λ address. []

abbrev one_event : EventStore
one_event =
    append_event 3 (record { from_state = created; to_state = planned; timestamp = "t1" }) no_events

fresh_run : Runs 3 fresh no_events
unfolding create_orchestrator concat
fresh_run = start "t0" "issue.example.0001" no_events refl

planned_run :
    transition_state "t1" fresh planned no_events
    ≡ ok (record fresh { state = planned; updated_at = "t1" }, one_event)
unfolding transition_state is_allowed
planned_run = refl

one_step : Runs 3 (record fresh { state = planned; updated_at = "t1" }) one_event
one_step = step "t1" planned fresh_run planned_run

Runs-IsWalk_example : (fresh.events ≡ 3) × IsWalk created (one_event 3) planned
Runs-IsWalk_example = Runs-IsWalk one_step

next_action-transition_state_example :
    ((target : FsmState)
      → (next_action fresh).next_state ≡ some target
      → (s : OrchestratorRecord) × (after_it : EventStore) × (transition_state "t1" fresh target
            no_events
          ≡ ok (s, after_it)))
    × (((next_action fresh).next_state ≡ none) ↔ (fsm_transitions created ≡ []))
next_action-transition_state_example = next_action-transition_state "t1" fresh no_events
