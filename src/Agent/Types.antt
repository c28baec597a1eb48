-- ===== src/Agent/Types.antt =====
-- The enumerations of src/hqmts/core/enums.py that the agent policy reads, and `ToolDefinition` of
-- src/hqmts/agent/types.py with the fields that it reads.
use hqmts.Prelude.{String, Bool, List, [], ◌∷◌}

pub data Environment : Type 0 where
  research backtest paper live : Environment

pub data AgentRole : Type 0 where
  data_agent research strategy_design backtest_orchestration validation optimization
        portfolio_analysis monitoring reconciliation recovery_copilot audit_reporting orchestrator :
      AgentRole

pub data ToolCategory : Type 0 where
  read_only task_trigger controlled_operation forbidden : ToolCategory

pub data PolicyCheckResult : Type 0 where
  pass fail manual_review_required : PolicyCheckResult

unfoldable pub Environment-discrete : Discrete Environment
Environment-discrete = hlevel

unfoldable pub AgentRole-discrete : Discrete AgentRole
AgentRole-discrete = hlevel

unfoldable pub ToolCategory-discrete : Discrete ToolCategory
ToolCategory-discrete = hlevel

pub record ToolDefinition : Type 0 where
  pub name : String
  pub category : ToolCategory
  pub allowed_environments : List Environment
  pub allowed_roles : List AgentRole
  pub requires_approval : Bool

-- `list(AgentRole)`
abbrev pub all_roles : List AgentRole
all_roles =
    AgentRole.data_agent ∷ AgentRole.research ∷ AgentRole.strategy_design
    ∷ AgentRole.backtest_orchestration ∷ AgentRole.validation ∷ AgentRole.optimization
    ∷ AgentRole.portfolio_analysis ∷ AgentRole.monitoring ∷ AgentRole.reconciliation
    ∷ AgentRole.recovery_copilot ∷ AgentRole.audit_reporting ∷ AgentRole.orchestrator ∷ []
