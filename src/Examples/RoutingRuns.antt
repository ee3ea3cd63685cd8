-- ===== src/Examples/RoutingRuns.antt =====
-- Concrete decisions of packages/deployment/src/routing.rs.
use swarm_intelligence_engin.Prelude.{◌≡◌, ◌↔◌, ◌⊎◌, refl, false, none}
use swarm_intelligence_engin.Deployment.{
  RoutingPolicy, local_plus_remote, remote_certification_preferred, degraded, unknown, remote,
  lean_compile, certification, resolve_routing,
}
use swarm_intelligence_engin.Deployment.Routing.{IsUsable, resolve_routing-remote_iff}

abbrev no_toolchain : RoutingPolicy
no_toolchain = record {
  deployment_mode = local_plus_remote;
  local_available = false;
  remote_certification_health = unknown;
  remote_compile_health = degraded;
  operator_override = none;
}

resolve_routing-remote_iff_example :
    ((resolve_routing no_toolchain lean_compile).target ≡ remote) ↔ (
      IsUsable no_toolchain lean_compile
      × (((local_plus_remote ≡ remote_certification_preferred) × (lean_compile ≡ certification))
          ⊎ ((false ≡ false)
              × ((local_plus_remote ≡ local_plus_remote)
                  ⊎ (local_plus_remote ≡ remote_certification_preferred)))))
resolve_routing-remote_iff_example = resolve_routing-remote_iff no_toolchain lean_compile refl
