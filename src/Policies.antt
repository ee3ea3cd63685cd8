-- ===== src/Policies.antt =====
-- packages/user-policy/src/lib.rs and packages/control-plane/src/policy_enforcer.rs: the user policy,
-- and what it permits.
pub mod Output
pub mod Limits
use swarm_intelligence_engin.Prelude.{
  ℕ, ℤ, leℤ, ltℤ, Bool, true, false, if◌then◌else◌, Option, none, some, String, str_eq,
  str_is_empty, append, display_i32,
}

pub data ProviderMode : Type 0 where
  api session local : ProviderMode

pub record ModelBinding : Type 0 where
  pub provider_mode : Option ProviderMode
  pub provider_name : Option String
  pub model_name : Option String
  pub reasoning_effort : Option String

pub record GlobalExecutionPolicy : Type 0 where
  pub default_provider_mode : ProviderMode
  pub default_model_family : String
  pub max_active_agents : ℤ
  pub default_concurrency : ℤ
  pub default_retry_budget : ℤ
  pub certification_routing : String

-- Without the policies of the formalizers, which the enforcer does not read.
pub record UserPolicySnapshot : Type 0 where
  pub policy_id : String
  pub global : GlobalExecutionPolicy
  pub planner : ModelBinding
  pub implementer : ModelBinding
  pub reviewer : ModelBinding
  pub debugger : ModelBinding
  pub research : ModelBinding

pub record PolicyDecision : Type 0 where
  pub allowed : Bool
  pub reason : String
  pub applied_limit : Option ℤ

unfoldable pub can_dispatch : GlobalExecutionPolicy → ℤ → String → PolicyDecision
can_dispatch policy active_agent_count task_class =
    if str_is_empty task_class
    then record { allowed = false; reason = "task_class must not be empty"; applied_limit = none }
    else if leℤ policy.max_active_agents active_agent_count
    then record {
      allowed = false;
      reason = append "active agent count (" (
          append (display_i32 active_agent_count) (
            append ") has reached the limit ("
              (append (display_i32 policy.max_active_agents) ")")));
      applied_limit = some policy.max_active_agents;
    }
    else record {
      allowed = true;
      reason = append "dispatch allowed: " (
          append (display_i32 active_agent_count)
            (append " of " (append (display_i32 policy.max_active_agents) " agent slots in use")));
      applied_limit = some policy.max_active_agents;
    }

unfoldable pub get_timeout : GlobalExecutionPolicy → String → ℕ
get_timeout policy task_class = 600

unfoldable pub get_retry_budget : GlobalExecutionPolicy → String → ℤ
get_retry_budget policy task_class = policy.default_retry_budget

unfoldable pub check_concurrency : GlobalExecutionPolicy → ℤ → Bool
check_concurrency policy running_count = ltℤ running_count policy.default_concurrency

unfoldable pub resolve_model : UserPolicySnapshot → String → ModelBinding
resolve_model policy worker_role =
    if str_eq worker_role "planner"
    then policy.planner
    else if str_eq worker_role "implementer"
    then policy.implementer
    else if str_eq worker_role "reviewer"
    then policy.reviewer
    else if str_eq worker_role "debugger"
    then policy.debugger
    else if str_eq worker_role "research"
    then policy.research
    else record {
      provider_mode = some policy.global.default_provider_mode;
      provider_name = none;
      model_name = some policy.global.default_model_family;
      reasoning_effort = none;
    }
