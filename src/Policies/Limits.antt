-- ===== src/Policies/Limits.antt =====
-- packages/control-plane/src/policy_enforcer.rs: when a dispatch is permitted.
use swarm_intelligence_engin.Prelude.{
  ℤ, leℤ, ltℤ, ◌≡◌, ◌↔◌, refl, true, false, not, ◌&&◌, Bool-cases, inl, inr, String, str_is_empty,
  arith,
}
use swarm_intelligence_engin.Policies.{GlobalExecutionPolicy, can_dispatch}

not_le : (a b : ℤ) → not (leℤ b a) ≡ ltℤ a b
not_le a b = ground arith

allowed_test :
    (policy : GlobalExecutionPolicy) (count : ℤ) (task_class : String)
    → (can_dispatch policy count task_class).allowed
      ≡ (not (str_is_empty task_class) && not (leℤ policy.max_active_agents count))
unfolding can_dispatch
allowed_test policy count task_class = elim (Bool-cases (str_is_empty task_class)) [
  | inl e ↦ rw (can_dispatch, e) refl
  | inr n ↦ elim (Bool-cases (leℤ policy.max_active_agents count)) [
    | inl e ↦ rw (can_dispatch, n, e) refl
    | inr m ↦ rw (can_dispatch, n, m) refl
  ]
]

-- A dispatch is permitted exactly when its task class is not empty and the active agents are fewer
-- than the limit.
pub can_dispatch-allowed_iff :
    (policy : GlobalExecutionPolicy) (count : ℤ) (task_class : String)
    → ((can_dispatch policy count task_class).allowed ≡ true)
      ↔ ((str_is_empty task_class ≡ false) × (ltℤ count policy.max_active_agents ≡ true))
can_dispatch-allowed_iff policy count task_class =
    ground (arith, allowed_test policy count task_class, not_le count policy.max_active_agents)
