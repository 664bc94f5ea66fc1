-- ===== src/Workflow/Fsm.antt =====
-- cosheaf/orchestrator_fsm/fsm.py: the records of the orchestrator. A record's list of events is a
-- shared object: `model_copy` keeps the reference, so it stands in a store under an address. The
-- times are inputs, and the notices are left out.
use tcs_cosheaf.Base.{
  String, ℕ, Bool, true, false, List, [], ◌∷◌, ◌++◌, Option, none, some, if◌then◌else◌, any, concat,
  join, map, ◌==◌, Result, ok, err,
}

pub data FsmState : Type 0 where
  created planned ready running blocked finalized abandoned failed : FsmState

unfoldable pub state_value : FsmState → String
state_value created = "created"
state_value planned = "planned"
state_value ready = "ready_to_run"
state_value running = "running"
state_value blocked = "blocked"
state_value finalized = "finalized"
state_value abandoned = "abandoned"
state_value failed = "failed"

unfoldable pub same_state : FsmState → FsmState → Bool
same_state created created = true
same_state planned planned = true
same_state ready ready = true
same_state running running = true
same_state blocked blocked = true
same_state finalized finalized = true
same_state abandoned abandoned = true
same_state failed failed = true
same_state _ _ = false

-- `FSM_TRANSITIONS[state]`
unfoldable pub fsm_transitions : FsmState → List FsmState
fsm_transitions created = planned ∷ abandoned ∷ []
fsm_transitions planned = ready ∷ abandoned ∷ []
fsm_transitions ready = running ∷ abandoned ∷ []
fsm_transitions running = blocked ∷ finalized ∷ failed ∷ []
fsm_transitions blocked = ready ∷ abandoned ∷ []
fsm_transitions finalized = []
fsm_transitions abandoned = []
fsm_transitions failed = abandoned ∷ []

pub record FsmEvent : Type 0 where
  pub from_state : FsmState
  pub to_state : FsmState
  pub timestamp : String

-- The lists of events, by address.
abbrev pub EventStore : Type 0
EventStore = ℕ → List FsmEvent

pub record OrchestratorRecord : Type 0 where
  pub orch_id : String
  pub issue_id : String
  pub state : FsmState
  pub events : ℕ
  pub created_at : String
  pub updated_at : String

-- A fresh record, whose empty list of events stands at the address.
unfoldable pub create_orchestrator : ℕ → String → String → OrchestratorRecord
create_orchestrator address now issue_id = record {
  orch_id = concat ("orch-" ∷ issue_id ∷ []);
  issue_id = issue_id;
  state = created;
  events = address;
  created_at = now;
  updated_at = now;
}

-- `record.events.append(event)`
unfoldable pub append_event : ℕ → FsmEvent → EventStore → EventStore
append_event address event store = λ a. if a == address then store a ++ (event ∷ []) else store a

unfoldable pub is_allowed : FsmState → FsmState → Bool
unfolding any same_state fsm_transitions
is_allowed from to = any (λ s. same_state to s) (fsm_transitions from)

-- `repr` of a state's word.
abbrev quoted : FsmState → String
quoted s = concat ("'" ∷ state_value s ∷ "'" ∷ [])

abbrev pub refusal : FsmState → FsmState → String
refusal from to = concat (
    "Invalid transition: "
    ∷ state_value from
    ∷ " -> "
    ∷ state_value to
    ∷ ". Allowed: ["
    ∷ join ", " (map quoted (fsm_transitions from))
    ∷ "]"
    ∷ [])

-- The new record and the store after the call.
unfoldable pub transition_state :
    String → OrchestratorRecord → FsmState → EventStore → Result (OrchestratorRecord × EventStore)
transition_state now record_before target store =
    if is_allowed record_before.state target
    then ok (
      record record_before { state = target; updated_at = now },
      append_event record_before.events
          (record { from_state = record_before.state; to_state = target; timestamp = now }) store,
    )
    else err (refusal record_before.state target)

pub record OrchestratorDecision : Type 0 where
  pub next_state : Option FsmState
  pub recommendation : String
  pub blocked_reason : String

abbrev decision : Option FsmState → String → OrchestratorDecision
decision next recommendation = record {
  next_state = next;
  recommendation = recommendation;
  blocked_reason = "";
}

abbrev action_of : FsmState → OrchestratorDecision
action_of created = decision (some planned) "Plan the task graph"
action_of planned = decision (some ready) "Mark task graph ready"
action_of ready = decision (some running) "Start local execution"
action_of running = decision (some finalized) "Finalize the run"
action_of blocked = decision (some ready) "Unblock and retry"
action_of finalized = decision none "Orchestrator is finalized, no further actions"
action_of failed = decision (some abandoned) "Orchestrator failed, consider abandoning"
action_of abandoned = decision none "No action available"

unfoldable pub next_action : OrchestratorRecord → OrchestratorDecision
next_action current = action_of current.state
