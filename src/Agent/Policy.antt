-- ===== src/Agent/Policy.antt =====
-- `class PolicyEngine` of src/hqmts/agent/policy.py. A violation is a constructor in place of its
-- text; the reason texts are left out.
pub mod Limits
use hqmts.Prelude.{
  String, Bool, true, false, ◌&&◌, ◌||◌, not, Option, none, some, List, [], ◌∷◌, ◌++◌, any,
  contains, is_some, if◌then◌else◌, decided,
}
use text.Mathlib.Text.{◌==◌ as str_eq}
use hqmts.Agent.Types.{
  Environment, AgentRole, ToolCategory, PolicyCheckResult, Environment-discrete, AgentRole-discrete,
  ToolCategory-discrete, ToolDefinition,
}
use hqmts.Agent.Tools.{forbidden_tools, all_tools}

pub record PolicyCheckInput : Type 0 where
  pub agent_role : AgentRole
  pub tool_name : String
  pub environment : Environment
  pub target_object_type : Option String
  pub target_object_id : Option String
  pub proposal_type : Option String
  pub has_version_binding : Bool
  pub is_trading_time : Bool
  pub has_unresolved_exceptions : Bool

pub data Violation : Type 0 where
  forbidden_tool unknown_tool env_not_allowed role_not_allowed : Violation
  target_object_id_required_for_controlled_operation : Violation
  risk_boundary_violation_no_binding kill_switch_active live_trading_not_allowed : Violation
  version_binding_required_for_live unresolved_exceptions_block_action : Violation
  non_trading_time_blocked : Violation

pub record PolicyCheckOutput : Type 0 where
  pub result : PolicyCheckResult
  pub violations : List Violation

pub record PolicyEngine : Type 0 where
  pub global_kill_switch : Bool
  pub live_trading_allowed : Bool

abbrev pub new_engine : PolicyEngine
new_engine = record { global_kill_switch = false; live_trading_allowed = true }

abbrev pub find_tool : String → List ToolDefinition → Option ToolDefinition
find_tool name [] = none
find_tool name (t ∷ tools) =
    let rest = find_tool name tools in if str_eq t.name name then some t else rest

-- Truth of an optional text: `None` and "" are false.
abbrev pub is_given : Option String → Bool
is_given none = false
is_given (some s) = not (str_eq s "")

abbrev pub is_live : PolicyCheckInput → Bool
is_live i = decided (Environment-discrete i.environment Environment.live)

abbrev pub is_controlled : ToolDefinition → Bool
is_controlled t = decided (ToolCategory-discrete t.category ToolCategory.controlled_operation)

abbrev pub is_read_only : ToolDefinition → Bool
is_read_only t = decided (ToolCategory-discrete t.category ToolCategory.read_only)

-- `proposal_type in ("close_only", "kill_switch")`
abbrev pub is_risk_proposal : Option String → Bool
is_risk_proposal none = false
is_risk_proposal (some p) = str_eq p "close_only" || str_eq p "kill_switch"

abbrev pub noted : Bool → Violation → List Violation
noted b v = if b then v ∷ [] else []

-- The violations of a known tool, in the order of the code.
unfoldable pub violations_of : PolicyEngine → PolicyCheckInput → ToolDefinition → List Violation
violations_of e i t =
    noted (not (contains Environment-discrete i.environment t.allowed_environments)) env_not_allowed
    ++ noted (not (contains AgentRole-discrete i.agent_role t.allowed_roles)) role_not_allowed
    ++ noted (is_controlled t && is_given i.target_object_type && not (is_given i.target_object_id))
        target_object_id_required_for_controlled_operation
    ++ noted
        (is_live i
          && is_controlled t
          && is_risk_proposal i.proposal_type
          && not i.has_version_binding)
        risk_boundary_violation_no_binding
    ++ noted (is_live i && e.global_kill_switch && not (is_read_only t)) kill_switch_active
    ++ noted (is_live i && not e.live_trading_allowed && t.requires_approval)
        live_trading_not_allowed
    ++ noted (is_live i && is_controlled t && not i.has_version_binding)
        version_binding_required_for_live
    ++ noted (i.has_unresolved_exceptions && not (is_read_only t))
        unresolved_exceptions_block_action
    ++ noted (is_live i && is_controlled t && not i.is_trading_time) non_trading_time_blocked

-- The result once the violations are known.
abbrev pub decide : Bool → List Violation → PolicyCheckOutput
decide manual (v ∷ vs) = record { result = PolicyCheckResult.fail; violations = v ∷ vs }
decide true [] = record { result = PolicyCheckResult.manual_review_required; violations = [] }
decide false [] = record { result = PolicyCheckResult.pass; violations = [] }

abbrev pub judge_tool : PolicyEngine → PolicyCheckInput → Option ToolDefinition → PolicyCheckOutput
judge_tool e i none = record { result = PolicyCheckResult.fail; violations = unknown_tool ∷ [] }
judge_tool e i (some t) = decide (t.requires_approval && is_live i) (violations_of e i t)

unfoldable pub evaluate_policy : PolicyEngine → PolicyCheckInput → PolicyCheckOutput
evaluate_policy e i =
    if any (str_eq i.tool_name) forbidden_tools
    then record { result = PolicyCheckResult.fail; violations = forbidden_tool ∷ [] }
    else judge_tool e i (find_tool i.tool_name all_tools)

unfoldable pub set_kill_switch : Bool → PolicyEngine → PolicyEngine
set_kill_switch active e = record e { global_kill_switch = active }

unfoldable pub is_kill_switch_active : PolicyEngine → Bool
is_kill_switch_active e = e.global_kill_switch

unfoldable pub set_live_trading_allowed : Bool → PolicyEngine → PolicyEngine
set_live_trading_allowed allowed e = record e { live_trading_allowed = allowed }
