-- ===== src/Fsm/AgentTask.antt =====
-- The states of src/hqmts/core/enums.py (`AgentTaskStatus`) and the machine of
-- src/hqmts/statemachine/agent_task_fsm.py. A Python set is written as a list.
use hqmts.Prelude.{List, [], ◌∷◌}
use hqmts.Fsm.Machine.{StateMachine}

pub data AgentTaskStatus : Type 0 where
  created planning running waiting_tool completed failed timeout canceled escalated :
      AgentTaskStatus

unfoldable pub AgentTaskStatus-discrete : Discrete AgentTaskStatus
AgentTaskStatus-discrete = hlevel

abbrev pub agent_task_transitions : List (AgentTaskStatus × List AgentTaskStatus)
agent_task_transitions =
    (created, planning ∷ canceled ∷ [])
    ∷ (planning, running ∷ failed ∷ canceled ∷ [])
    ∷ (running, waiting_tool ∷ completed ∷ failed ∷ timeout ∷ escalated ∷ [])
    ∷ (waiting_tool, running ∷ failed ∷ timeout ∷ canceled ∷ [])
    ∷ (completed, [])
    ∷ (failed, [])
    ∷ (timeout, escalated ∷ [])
    ∷ (canceled, [])
    ∷ (escalated, [])
    ∷ []

abbrev pub agent_task_terminal_states : List AgentTaskStatus
agent_task_terminal_states = completed ∷ failed ∷ canceled ∷ escalated ∷ []

abbrev pub agent_task_fsm : StateMachine AgentTaskStatus
agent_task_fsm = record {
  entity_type = "AgentTask";
  transitions = agent_task_transitions;
  terminal_states = agent_task_terminal_states;
  equal = AgentTaskStatus-discrete;
}
