-- ===== src/Workflow.antt =====
-- cosheaf/orchestrator_fsm: the state machine of the research workflow.
pub mod Fsm
pub mod FsmTraces
