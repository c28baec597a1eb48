-- ===== src/Agent/Examples.antt =====
-- The policy on the proposal to pause openings.
use hqmts.Prelude.{◌≡◌, ◌≢◌, ◌↔◌, refl, true, false, some, [], ◌∷◌}
use hqmts.Agent.Types.{
  Environment, AgentRole, ToolCategory, PolicyCheckResult, Environment-discrete,
  ToolCategory-discrete, ToolDefinition,
}
use hqmts.Agent.Tools.{all_tools}
use hqmts.Agent.Policy.{
  PolicyCheckInput, new_engine, evaluate_policy, find_tool, is_controlled, is_live,
}
use hqmts.Agent.Policy.Limits.{Permitted, evaluate_policy-Permitted, live_controlled_reviewed}

abbrev pause_open : PolicyCheckInput
pause_open = record {
  agent_role = AgentRole.monitoring;
  tool_name = "propose_pause_open";
  environment = Environment.live;
  target_object_type = some "strategy";
  target_object_id = some "s-1";
  proposal_type = some "pause_open";
  has_version_binding = true;
  is_trading_time = true;
  has_unresolved_exceptions = false;
}

evaluate_policy-Permitted_example :
    ((evaluate_policy new_engine pause_open).result ≢ PolicyCheckResult.fail)
    ↔ Permitted new_engine pause_open
evaluate_policy-Permitted_example = evaluate_policy-Permitted new_engine pause_open

abbrev pause_open_tool : ToolDefinition
pause_open_tool = record {
  name = "propose_pause_open";
  category = ToolCategory.controlled_operation;
  allowed_environments = Environment.live ∷ [];
  allowed_roles = AgentRole.monitoring ∷ AgentRole.orchestrator ∷ [];
  requires_approval = true;
}

found : find_tool "propose_pause_open" all_tools ≡ some pause_open_tool
found = refl

controlled : is_controlled pause_open_tool ≡ true
unfolding ToolCategory-discrete
controlled = refl

live : is_live pause_open ≡ true
unfolding Environment-discrete
live = refl

live_controlled_reviewed_example :
    (evaluate_policy new_engine pause_open).result ≢ PolicyCheckResult.pass
live_controlled_reviewed_example =
    live_controlled_reviewed new_engine pause_open pause_open_tool live found controlled
