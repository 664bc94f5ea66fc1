-- ===== src/Workflow/FsmTraces.antt =====
-- What the orchestrator's event log records (cosheaf/orchestrator_fsm/fsm.py).
use tcs_cosheaf.Base.{
  String, ℕ, true, List, [], ◌∷◌, ◌++◌, ◌≡◌, ◌↔◌, inl, inr, refl, sym, ap, ◌∙◌, none, some,
  some_inj, if◌then◌else◌, Bool-cases, arith, ok, ok_inj,
}
use tcs_cosheaf.Workflow.Fsm.{
  FsmState, created, planned, ready, running, blocked, finalized, abandoned, failed, FsmEvent,
  EventStore, OrchestratorRecord, create_orchestrator, append_event, is_allowed, transition_state,
  next_action, fsm_transitions,
}

-- The log is a walk of allowed transitions from one state to another.
abbrev pub IsWalk : FsmState → List FsmEvent → FsmState → Type 0
IsWalk from [] to = from ≡ to
IsWalk from (e ∷ es) to =
    (e.from_state ≡ from) × (is_allowed e.from_state e.to_state ≡ true) × IsWalk e.to_state es to

-- Transitions made one after another, each on the record that the last one returned.
pub data Runs (address : ℕ) : OrchestratorRecord → EventStore → Type 0 where
  start :
      (now issue : String) (store : EventStore)
      → store address ≡ []
      → Runs address (create_orchestrator address now issue) store
  step :
      {r s : OrchestratorRecord} {before after_it : EventStore} (now : String) (target : FsmState)
      → Runs address r before
      → transition_state now r target before ≡ ok (s, after_it)
      → Runs address s after_it

IsWalk-snoc :
    (from mid : FsmState) (log : List FsmEvent) (e : FsmEvent)
    → IsWalk from log mid
    → e.from_state ≡ mid
    → is_allowed e.from_state e.to_state ≡ true
    → IsWalk from (log ++ (e ∷ [])) e.to_state
IsWalk-snoc from mid [] e w h k = (h ∙ sym w, k, refl)
IsWalk-snoc from mid (x ∷ log) e (w, v, u) h k = (w, v, IsWalk-snoc x.to_state mid log e u h k)

-- What a transition that succeeds has checked and done.
transition-parts :
    (now : String) (r s : OrchestratorRecord) (target : FsmState) (before after_it : EventStore)
    → transition_state now r target before ≡ ok (s, after_it)
    → (is_allowed r.state target ≡ true)
      × (s ≡ record r { state = target; updated_at = now })
      × (after_it
          ≡ append_event r.events
              (record { from_state = r.state; to_state = target; timestamp = now })
              before)
unfolding transition_state
transition-parts now r s target before after_it h = elim (Bool-cases (is_allowed r.state target)) [
  | inr e ↦ absurd (let k = (rw e at h) in cc)
  | inl e ↦
      let same = ok_inj (rw (e, if◌then◌else◌) at h) in
      (e, sym (ap (λ p. p.0) same), sym (ap (λ p. p.1) same))
]

append_event-at :
    (address : ℕ) (e : FsmEvent) (store : EventStore)
    → append_event address e store address ≡ store address ++ (e ∷ [])
unfolding append_event
append_event-at address e store = ground arith

-- After any run of transitions, each on the record that the last one returned, the record still
-- refers to its list of events, and the list is a walk of allowed transitions from the created state
-- to the record's state.
pub Runs-IsWalk :
    {address : ℕ} {r : OrchestratorRecord} {store : EventStore}
    → Runs address r store
    → (r.events ≡ address) × IsWalk created (store address) r.state
unfolding create_orchestrator
Runs-IsWalk (start now issue store e) = (refl, rw e refl)
Runs-IsWalk {address} (step {r} {s} {before} {after_it} now target runs h) =
    let (kept, walk) = Runs-IsWalk runs in
    let (allowed, same, grown) = transition-parts now r s target before after_it h in
    let e : FsmEvent = record { from_state = r.state; to_state = target; timestamp = now } in
    let longer = IsWalk-snoc created r.state (before address) e walk refl allowed in
    let log : after_it address ≡ before address ++ (e ∷ []) =
      ap (λ f. f address) grown ∙ rw kept (append_event-at address e before) in
    (ap (λ x. x.events) same ∙ kept, rw (ap (λ x. x.state) same, log) longer)

allowed-ok :
    (now : String) (r : OrchestratorRecord) (target : FsmState) (store : EventStore)
    → is_allowed r.state target ≡ true
    → (s : OrchestratorRecord) × (after_it : EventStore) × (transition_state now r target store
        ≡ ok (s, after_it))
unfolding transition_state
allowed-ok now r target store e = (
  record r { state = target; updated_at = now },
  append_event r.events (record { from_state = r.state; to_state = target; timestamp = now }) store,
  rw e refl,
)

recommended :
    (r : OrchestratorRecord) (target : FsmState)
    → (next_action r).next_state ≡ some target
    → is_allowed r.state target ≡ true
unfolding next_action is_allowed
recommended r target h = go r.state h
  where
    go :
        (s : FsmState)
        → (next_action (record r { state = s })).next_state ≡ some target
        → is_allowed s target ≡ true
    go created h = rw (← some_inj h) refl
    go planned h = rw (← some_inj h) refl
    go ready h = rw (← some_inj h) refl
    go running h = rw (← some_inj h) refl
    go blocked h = rw (← some_inj h) refl
    go finalized h = cc
    go abandoned h = cc
    go failed h = rw (← some_inj h) refl

final_states :
    (r : OrchestratorRecord) → ((next_action r).next_state ≡ none) ↔ (fsm_transitions r.state ≡ [])
unfolding next_action fsm_transitions
final_states r = go r.state
  where
    go :
        (s : FsmState)
        → ((next_action (record r { state = s })).next_state ≡ none) ↔ (fsm_transitions s ≡ [])
    go finalized = (λ h. refl, λ h. refl)
    go abandoned = (λ h. refl, λ h. refl)
    go created = (λ h. cc, λ h. cc)
    go planned = (λ h. cc, λ h. cc)
    go ready = (λ h. cc, λ h. cc)
    go running = (λ h. cc, λ h. cc)
    go blocked = (λ h. cc, λ h. cc)
    go failed = (λ h. cc, λ h. cc)

-- The state that `next_action` recommends can be reached at once by `transition_state`, and it
-- recommends none exactly in the states that no transition leaves.
pub next_action-transition_state :
    (now : String) (r : OrchestratorRecord) (store : EventStore)
    → ((target : FsmState)
        → (next_action r).next_state ≡ some target
        → (s : OrchestratorRecord) × (after_it : EventStore) × (transition_state now r target store
            ≡ ok (s, after_it)))
      × (((next_action r).next_state ≡ none) ↔ (fsm_transitions r.state ≡ []))
next_action-transition_state now r store =
    (λ target h. allowed-ok now r target store (recommended r target h), final_states r)
