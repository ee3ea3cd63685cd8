-- ===== src/Deployment.antt =====
-- packages/deployment/src/routing.rs, with the deployment mode of mode.rs and the endpoint health
-- of endpoints.rs: where certification and Lean compilation run.
pub mod Routing
use swarm_intelligence_engin.Prelude.{
  Bool, true, false, ◌&&◌, ◌||◌, if◌then◌else◌, Option, none, some, String,
}

pub data DeploymentMode : Type 0 where
  local_only local_plus_remote remote_certification_preferred certification_disabled :
      DeploymentMode

pub data EndpointHealth : Type 0 where
  healthy degraded unhealthy unknown : EndpointHealth

pub data RoutingTarget : Type 0 where
  local remote skip : RoutingTarget

pub data RoutingReason : Type 0 where
  mode_mandate remote_unhealthy local_unavailable operator_override certification_is_disabled :
      RoutingReason

pub record RoutingDecision : Type 0 where
  pub work_kind : String
  pub target : RoutingTarget
  pub reason : RoutingReason
  pub endpoint_id : Option String

pub record RoutingPolicy : Type 0 where
  pub deployment_mode : DeploymentMode
  pub local_available : Bool
  pub remote_certification_health : EndpointHealth
  pub remote_compile_health : EndpointHealth
  pub operator_override : Option RoutingTarget

pub data EndpointType : Type 0 where
  certification lean_compile : EndpointType

abbrev pub work_kind_of : EndpointType → String
work_kind_of certification = "certification"
work_kind_of lean_compile = "lean_compile"

abbrev pub remote_health : RoutingPolicy → EndpointType → EndpointHealth
remote_health policy certification = policy.remote_certification_health
remote_health policy lean_compile = policy.remote_compile_health

abbrev pub remote_usable : EndpointHealth → Bool
remote_usable healthy = true
remote_usable degraded = true
remote_usable unhealthy = false
remote_usable unknown = false

abbrev routed : EndpointType → RoutingTarget → RoutingReason → RoutingDecision
routed kind target reason = record {
  work_kind = work_kind_of kind;
  target = target;
  reason = reason;
  endpoint_id = none;
}

-- The arms of `LocalPlusRemote`, which Lean compilation shares in the mode
-- `RemoteCertificationPreferred`.
abbrev local_first : EndpointType → Bool → Bool → RoutingDecision
local_first kind local_available usable =
    if local_available
    then routed kind local mode_mandate
    else if usable
    then routed kind remote local_unavailable
    else routed kind local mode_mandate

-- The arms of `RemoteCertificationPreferred` for certification.
abbrev remote_first : EndpointType → Bool → Bool → RoutingDecision
remote_first kind local_available usable =
    if usable
    then routed kind remote mode_mandate
    else if local_available
    then routed kind local remote_unhealthy
    else routed kind local remote_unhealthy

abbrev by_mode : DeploymentMode → EndpointType → Bool → Bool → RoutingDecision
by_mode local_only kind available usable = routed kind local mode_mandate
by_mode local_plus_remote kind available usable = local_first kind available usable
by_mode remote_certification_preferred certification available usable =
    remote_first certification available usable
by_mode remote_certification_preferred lean_compile available usable =
    local_first lean_compile available usable
by_mode certification_disabled kind available usable = routed kind skip certification_is_disabled

abbrev without_override : RoutingPolicy → EndpointType → RoutingDecision
without_override policy kind =
    by_mode policy.deployment_mode kind policy.local_available
      (remote_usable (remote_health policy kind))

abbrev or_override : EndpointType → Option RoutingTarget → RoutingDecision → RoutingDecision
or_override kind (some target) d = routed kind target operator_override
or_override kind none d = d

unfoldable pub resolve_routing : RoutingPolicy → EndpointType → RoutingDecision
resolve_routing policy kind =
    or_override kind policy.operator_override (without_override policy kind)
