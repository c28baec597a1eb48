-- ===== src/Fsm/ResearchProject.antt =====
-- The states of src/hqmts/core/enums.py (`ResearchProjectStatus`) and the machine of
-- src/hqmts/statemachine/research_project_fsm.py. A Python set is written as a list.
use hqmts.Prelude.{List, [], ◌∷◌}
use hqmts.Fsm.Machine.{StateMachine}

pub data ResearchProjectStatus : Type 0 where
  created exploring hypothesizing designing executing validating reporting completed failed
        canceled :
      ResearchProjectStatus

unfoldable pub ResearchProjectStatus-discrete : Discrete ResearchProjectStatus
ResearchProjectStatus-discrete = hlevel

abbrev pub research_project_transitions : List (ResearchProjectStatus × List ResearchProjectStatus)
research_project_transitions =
    (created, exploring ∷ canceled ∷ [])
    ∷ (exploring, hypothesizing ∷ canceled ∷ failed ∷ [])
    ∷ (hypothesizing, designing ∷ canceled ∷ failed ∷ [])
    ∷ (designing, executing ∷ canceled ∷ failed ∷ [])
    ∷ (executing, validating ∷ canceled ∷ failed ∷ [])
    ∷ (validating, reporting ∷ executing ∷ canceled ∷ failed ∷ [])
    ∷ (reporting, completed ∷ canceled ∷ failed ∷ [])
    ∷ (completed, [])
    ∷ (failed, [])
    ∷ (canceled, [])
    ∷ []

abbrev pub research_project_terminal_states : List ResearchProjectStatus
research_project_terminal_states = completed ∷ failed ∷ canceled ∷ []

abbrev pub research_project_fsm : StateMachine ResearchProjectStatus
research_project_fsm = record {
  entity_type = "ResearchProject";
  transitions = research_project_transitions;
  terminal_states = research_project_terminal_states;
  equal = ResearchProjectStatus-discrete;
}
