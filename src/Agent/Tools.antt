-- ===== src/Agent/Tools.antt =====
-- The registry of tools of src/hqmts/agent/types.py.
use hqmts.Prelude.{String, Bool, true, false, List, [], ◌∷◌, ◌++◌}
use hqmts.Agent.Types.{AgentRole, Environment, ToolCategory, ToolDefinition, all_roles}

abbrev pub forbidden_tools : List String
forbidden_tools =
    "qmt_submit_order" ∷ "qmt_cancel_order_direct" ∷ "update_order_state_direct"
    ∷ "update_trade_direct" ∷ "update_position_direct" ∷ "update_account_direct"
    ∷ "update_live_risk_threshold_direct" ∷ "restore_live_running_direct" ∷ []

abbrev tool : String → ToolCategory → List Environment → List AgentRole → Bool → ToolDefinition
tool name category environments roles requires_approval = record {
  name = name;
  category = category;
  allowed_environments = environments;
  allowed_roles = roles;
  requires_approval = requires_approval;
}

abbrev pub research_roles : List AgentRole
research_roles = AgentRole.research ∷ AgentRole.orchestrator ∷ []

abbrev pub read_only_tools : List ToolDefinition
read_only_tools =
    tool "query_market_data" ToolCategory.read_only
      (Environment.research ∷ Environment.backtest ∷ Environment.paper ∷ Environment.live ∷ [])
      (all_roles) false
    ∷ tool "query_backtest_result" ToolCategory.read_only
        (Environment.research ∷ Environment.backtest ∷ Environment.paper ∷ [])
        (AgentRole.research ∷ AgentRole.backtest_orchestration ∷ AgentRole.validation
          ∷ AgentRole.orchestrator ∷ [])
        false
    ∷ tool "query_strategy_status" ToolCategory.read_only
        (Environment.research ∷ Environment.backtest ∷ Environment.paper ∷ Environment.live ∷ [])
        (all_roles) false
    ∷ tool "query_order_status" ToolCategory.read_only
        (Environment.research ∷ Environment.backtest ∷ Environment.paper ∷ Environment.live ∷ [])
        (all_roles) false
    ∷ tool "query_position_snapshot" ToolCategory.read_only
        (Environment.research ∷ Environment.backtest ∷ Environment.paper ∷ Environment.live ∷ [])
        (all_roles) false
    ∷ tool "query_reconciliation_diff" ToolCategory.read_only
        (Environment.research ∷ Environment.paper ∷ Environment.live ∷ [])
        (AgentRole.reconciliation ∷ AgentRole.recovery_copilot ∷ AgentRole.monitoring
          ∷ AgentRole.orchestrator ∷ [])
        false
    ∷ tool "query_audit_log" ToolCategory.read_only
        (Environment.research ∷ Environment.backtest ∷ Environment.paper ∷ Environment.live ∷ [])
        (AgentRole.audit_reporting ∷ AgentRole.orchestrator ∷ []) false
    ∷ []

abbrev pub task_trigger_tools : List ToolDefinition
task_trigger_tools =
    tool "start_backtest" ToolCategory.task_trigger
      (Environment.research ∷ Environment.backtest ∷ [])
      (AgentRole.backtest_orchestration ∷ AgentRole.orchestrator ∷ []) false
    ∷ tool "start_validation" ToolCategory.task_trigger
        (Environment.research ∷ Environment.backtest ∷ [])
        (AgentRole.validation ∷ AgentRole.orchestrator ∷ []) false
    ∷ tool "start_paper_run" ToolCategory.task_trigger (Environment.paper ∷ [])
        (AgentRole.orchestrator ∷ []) false
    ∷ tool "start_reconciliation" ToolCategory.task_trigger
        (Environment.paper ∷ Environment.live ∷ [])
        (AgentRole.reconciliation ∷ AgentRole.orchestrator ∷ []) false
    ∷ tool "start_recovery_analysis" ToolCategory.task_trigger
        (Environment.paper ∷ Environment.live ∷ [])
        (AgentRole.recovery_copilot ∷ AgentRole.orchestrator ∷ []) false
    ∷ tool "create_approval_request" ToolCategory.task_trigger
        (Environment.paper ∷ Environment.live ∷ []) (all_roles) false
    ∷ tool "generate_report" ToolCategory.task_trigger
        (Environment.research ∷ Environment.backtest ∷ Environment.paper ∷ Environment.live ∷ [])
        (AgentRole.audit_reporting ∷ AgentRole.monitoring ∷ AgentRole.orchestrator ∷ []) false
    ∷ []

abbrev pub controlled_operation_tools : List ToolDefinition
controlled_operation_tools =
    tool "propose_pause_open" ToolCategory.controlled_operation (Environment.live ∷ [])
      (AgentRole.monitoring ∷ AgentRole.orchestrator ∷ []) true
    ∷ tool "propose_close_only" ToolCategory.controlled_operation (Environment.live ∷ [])
        (AgentRole.monitoring ∷ AgentRole.orchestrator ∷ []) true
    ∷ tool "propose_correction" ToolCategory.controlled_operation
        (Environment.paper ∷ Environment.live ∷ [])
        (AgentRole.reconciliation ∷ AgentRole.recovery_copilot ∷ []) true
    ∷ tool "propose_risk_param_change" ToolCategory.controlled_operation (Environment.live ∷ [])
        (AgentRole.monitoring ∷ AgentRole.orchestrator ∷ []) true
    ∷ tool "propose_recovery_action" ToolCategory.controlled_operation (Environment.live ∷ [])
        (AgentRole.recovery_copilot ∷ AgentRole.orchestrator ∷ []) true
    ∷ tool "propose_live_release" ToolCategory.controlled_operation (Environment.live ∷ [])
        (AgentRole.recovery_copilot ∷ AgentRole.orchestrator ∷ []) true
    ∷ []

abbrev pub research_read_only_tools : List ToolDefinition
research_read_only_tools =
    tool "query_factor_library" ToolCategory.read_only
      (Environment.research ∷ Environment.backtest ∷ Environment.paper ∷ []) (research_roles) false
    ∷ tool "query_factor_values" ToolCategory.read_only
        (Environment.research ∷ Environment.backtest ∷ Environment.paper ∷ []) (research_roles)
        false
    ∷ tool "query_factor_correlations" ToolCategory.read_only
        (Environment.research ∷ Environment.backtest ∷ Environment.paper ∷ []) (research_roles)
        false
    ∷ tool "query_market_regime" ToolCategory.read_only
        (Environment.research ∷ Environment.backtest ∷ Environment.paper ∷ []) (research_roles)
        false
    ∷ tool "query_factor_anomalies" ToolCategory.read_only
        (Environment.research ∷ Environment.backtest ∷ Environment.paper ∷ []) (research_roles)
        false
    ∷ tool "query_instrument_universe" ToolCategory.read_only
        (Environment.research ∷ Environment.backtest ∷ Environment.paper ∷ []) (research_roles)
        false
    ∷ []

abbrev pub research_task_trigger_tools : List ToolDefinition
research_task_trigger_tools =
    tool "create_hypothesis" ToolCategory.task_trigger
      (Environment.research ∷ Environment.backtest ∷ []) (research_roles) false
    ∷ tool "create_trial_plan" ToolCategory.task_trigger
        (Environment.research ∷ Environment.backtest ∷ []) (research_roles) false
    ∷ tool "execute_trial" ToolCategory.task_trigger
        (Environment.research ∷ Environment.backtest ∷ []) (research_roles) false
    ∷ tool "generate_research_report" ToolCategory.task_trigger
        (Environment.research ∷ Environment.backtest ∷ Environment.paper ∷ [])
        (research_roles ++ AgentRole.audit_reporting ∷ []) false
    ∷ []

abbrev pub research_controlled_tools : List ToolDefinition
research_controlled_tools =
    tool "propose_factor_registration" ToolCategory.controlled_operation
      (Environment.research ∷ Environment.backtest ∷ []) (research_roles) true
    ∷ []

abbrev pub cycle_read_only_tools : List ToolDefinition
cycle_read_only_tools =
    tool "detect_factor_decay" ToolCategory.read_only
      (Environment.research ∷ Environment.backtest ∷ Environment.paper ∷ []) (research_roles) false
    ∷ []

abbrev pub cycle_task_trigger_tools : List ToolDefinition
cycle_task_trigger_tools =
    tool "synthesize_strategy_candidates" ToolCategory.task_trigger
      (Environment.research ∷ Environment.backtest ∷ []) (research_roles) false
    ∷ tool "evaluate_strategy_candidate" ToolCategory.task_trigger
        (Environment.research ∷ Environment.backtest ∷ []) (research_roles) false
    ∷ []

abbrev pub cycle_controlled_tools : List ToolDefinition
cycle_controlled_tools =
    tool "propose_strategy_promotion" ToolCategory.controlled_operation
      (Environment.research ∷ Environment.backtest ∷ Environment.paper ∷ []) (research_roles) true
    ∷ []

-- `ALL_TOOLS`, in the order of the sum; no two tools share their name.
abbrev pub all_tools : List ToolDefinition
all_tools =
    read_only_tools ++ task_trigger_tools ++ controlled_operation_tools ++ research_read_only_tools
    ++ research_task_trigger_tools ++ research_controlled_tools ++ cycle_read_only_tools
    ++ cycle_task_trigger_tools ++ cycle_controlled_tools
