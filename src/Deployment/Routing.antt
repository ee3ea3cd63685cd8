-- ===== src/Deployment/Routing.antt =====
-- Which target a routing decision may have, and why.
use swarm_intelligence_engin.Prelude.{◌≡◌, ◌⊎◌, ◌↔◌, false, none, arith}
use swarm_intelligence_engin.Deployment.{
  local_plus_remote, remote_certification_preferred, certification_disabled, healthy, degraded,
  remote, skip, RoutingPolicy, EndpointType, certification, remote_health, resolve_routing,
}

-- The remote endpoint of this kind answers.
abbrev pub IsUsable : RoutingPolicy → EndpointType → Type 0
IsUsable policy kind =
    (remote_health policy kind ≡ healthy) ⊎ (remote_health policy kind ≡ degraded)

-- Without an operator's override, work goes remote exactly when the remote endpoint answers and
-- either the mode uses remote endpoints as a fallback and there is no local toolchain, or the mode
-- prefers remote certification and the work is certification.
pub resolve_routing-remote_iff :
    (policy : RoutingPolicy) (kind : EndpointType)
    → policy.operator_override ≡ none
    → ((resolve_routing policy kind).target ≡ remote) ↔ (
        IsUsable policy kind
        × (((policy.deployment_mode ≡ remote_certification_preferred) × (kind ≡ certification))
            ⊎ ((policy.local_available ≡ false)
                × ((policy.deployment_mode ≡ local_plus_remote)
                    ⊎ (policy.deployment_mode ≡ remote_certification_preferred)))))
unfolding resolve_routing
resolve_routing-remote_iff policy kind h = ground arith

-- Without an operator's override, work is skipped exactly when certification is disabled.
pub resolve_routing-skip_iff :
    (policy : RoutingPolicy) (kind : EndpointType)
    → policy.operator_override ≡ none
    → ((resolve_routing policy kind).target ≡ skip)
      ↔ (policy.deployment_mode ≡ certification_disabled)
unfolding resolve_routing
resolve_routing-skip_iff policy kind h = ground arith
