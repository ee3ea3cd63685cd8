-- ===== src/Skills/Resolution.antt =====
-- packages/skill-registry/src/lib.rs: the resolution of a task to a skill pack. Each level of the
-- source returns early where it finds a pack; here it is an optional resolution, and `or_else` goes
-- on to the next level.
pub mod Admissible
pub mod Precedence
pub mod Levels
pub mod Overrides
pub mod Order
use swarm_intelligence_engin.Prelude.{
  Bool, true, false, not, ◌&&◌, if◌then◌else◌, List, [], ◌∷◌, any, filter, find?, first?, Option,
  none, some, String, str_eq, append,
}
use swarm_intelligence_engin.Skills.Manifests.{SkillPackManifest, SkillResolution, SkillOverride}
use swarm_intelligence_engin.Skills.Validation.{has_id}

abbrev pub or_else {ℓ} : {A : Type ℓ} → Option A → A → A
or_else none d = d
or_else (some a) d = a

unfoldable pub or_else_some {ℓ} : {A : Type ℓ} → Option A → Option A → Option A
or_else_some none d = d
or_else_some (some a) d = some a

-- `opt.as_deref() == Some(s)`.
abbrev pub is_some_of : String → Option String → Bool
is_some_of s none = false
is_some_of s (some t) = str_eq t s

abbrev pub resolved : String → String → String → SkillResolution
resolved id reason level = record {
  skill_pack_id = id;
  selection_reason = reason;
  selection_level = level;
}

-- `available.iter().filter(|sp| !sp.deprecated)`.
unfoldable pub active_packs : List SkillPackManifest → List SkillPackManifest
active_packs available = filter (λ sp. not sp.deprecated) available

abbrev pub accepts_kind : String → SkillPackManifest → Bool
accepts_kind kind sp = any (λ k. str_eq k kind) sp.accepted_task_kinds

abbrev pub has_role : String → SkillPackManifest → Bool
has_role role sp = str_eq sp.worker_role role

-- The pack that an override names, if it is available.
abbrev pub pinned : Option SkillOverride → List SkillPackManifest → Option String
pinned none available = none
pinned (some ov) available =
    if any (has_id ov.skill_pack_id) available then some ov.skill_pack_id else none

-- `Option::map` into a resolution.
abbrev pub with_level : Option String → String → String → Option SkillResolution
with_level none reason level = none
with_level (some id) reason level = some (resolved id reason level)

abbrev pub pack_with_level : Option SkillPackManifest → String → String → Option SkillResolution
pack_with_level none reason level = none
pack_with_level (some sp) reason level = some (resolved sp.skill_pack_id reason level)

-- The first override that is keyed by the id; the levels 1 and 2 both compare `task_id`.
abbrev pub override_for : Option String → List SkillOverride → Option SkillOverride
override_for none overrides = none
override_for (some id) overrides = find? (λ o. is_some_of id o.task_id) overrides

unfoldable pub task_override_level :
    Option String → List SkillOverride → List SkillPackManifest → Option SkillResolution
task_override_level task_id overrides available =
    with_level (pinned (override_for task_id overrides) available)
      (append "per-task override for " (or_else task_id "")) "task_override"

unfoldable pub node_override_level :
    Option String → List SkillOverride → List SkillPackManifest → Option SkillResolution
node_override_level node_id overrides available =
    with_level (pinned (override_for node_id overrides) available)
      (append "node-level override for " (or_else node_id "")) "node_override"

unfoldable pub task_kind_level : String → List SkillPackManifest → Option SkillResolution
task_kind_level kind active =
    pack_with_level (find? (accepts_kind kind) active)
      (append "task-kind mapping for '" (append kind "'")) "task_kind"

-- The packs that the restriction of the current phase allows.
abbrev pub allowed_in : Option String → List (String × List String) → Option (List String)
allowed_in none restrictions = none
allowed_in (some phase) restrictions =
    elim (find? (λ (r : String × List String). str_eq r.0 phase) restrictions) [
      | none ↦ none
      | some r ↦ some r.1
    ]

abbrev pub first_allowed : Option (List String) → List SkillPackManifest → Option SkillPackManifest
first_allowed none active = none
first_allowed (some allowed) active =
    find? (λ sp. any (λ a. str_eq a sp.skill_pack_id) allowed) active

unfoldable pub phase_level :
    Option String → List (String × List String) → List SkillPackManifest → Option SkillResolution
phase_level phase restrictions active =
    pack_with_level (first_allowed (allowed_in phase restrictions) active)
      (append "phase restriction for '" (append (or_else phase "") "'")) "phase_restriction"

unfoldable pub role_level : String → List SkillPackManifest → Option SkillResolution
role_level role active =
    pack_with_level (find? (has_role role) active) (append "role default for '" (append role "'"))
      "role_default"

-- A default id, if some active pack has it.
abbrev pub if_active : Option String → List SkillPackManifest → Option String
if_active none active = none
if_active (some id) active = if any (has_id id) active then some id else none

unfoldable pub project_level : Option String → List SkillPackManifest → Option SkillResolution
project_level default active =
    with_level (if_active default active) "project default" "project_default"

unfoldable pub global_level : Option String → List SkillPackManifest → Option SkillResolution
global_level fallback active =
    with_level (if_active fallback active) "global fallback" "global_fallback"

abbrev pub escalation : SkillResolution
escalation = resolved "unresolved" "no matching skill found -- escalation required" "escalation"

-- The arguments of `resolve_skill_full`, but for `available`.
pub record SkillQuery : Type 0 where
  pub task_id : Option String
  pub node_id : Option String
  pub task_kind : String
  pub worker_role : String
  pub current_phase : Option String
  pub task_overrides : List SkillOverride
  pub node_overrides : List SkillOverride
  pub phase_restrictions : List (String × List String)
  pub project_default : Option String
  pub global_fallback : Option String

unfoldable pub resolve_skill_full : SkillQuery → List SkillPackManifest → SkillResolution
resolve_skill_full q available =
    let active = active_packs available in
    or_else (task_override_level q.task_id q.task_overrides available) (
      or_else (node_override_level q.node_id q.node_overrides available) (
        or_else (task_kind_level q.task_kind active) (
          or_else (phase_level q.current_phase q.phase_restrictions active) (
            or_else (role_level q.worker_role active) (
              or_else (project_level q.project_default active)
                (or_else (global_level q.global_fallback active) escalation))))))

-- `resolve_skill_with_task_id`: the first override for the task whose pack is available.
abbrev pub task_pin : Option String → List SkillOverride → List SkillPackManifest → Option String
task_pin none overrides available = none
task_pin (some tid) overrides available =
    elim (find? (λ o. is_some_of tid o.task_id && any (has_id o.skill_pack_id) available)
      overrides) [ none ↦ none | some o ↦ some o.skill_pack_id ]

abbrev pub is_none : Option String → Bool
is_none none = true
is_none (some _) = false

-- The first override for the kind, not bound to a task, whose pack is active.
abbrev pub kind_pin : String → List SkillOverride → List SkillPackManifest → Option String
kind_pin kind overrides active =
    elim (find?
      (λ o.
        (is_none o.task_id && is_some_of kind o.task_kind) && any (has_id o.skill_pack_id) active)
      overrides) [ none ↦ none | some o ↦ some o.skill_pack_id ]

-- Why a pack that accepts the kind was chosen; the reason names the pack.
abbrev pub accepting : String → Option SkillPackManifest → Option SkillResolution
accepting kind none = none
accepting kind (some sp) = some (
    resolved sp.skill_pack_id
      (append "skill pack '"
        (append sp.skill_pack_id (append "' accepts task kind '" (append kind "'"))))
      "task_kind")

unfoldable pub resolve_skill_with_task_id :
    Option String
    → String
    → String
    → List SkillOverride
    → List SkillPackManifest
    → Option SkillResolution
resolve_skill_with_task_id task_id kind role overrides available =
    let active = active_packs available in
    or_else_some
      (with_level (task_pin task_id overrides available)
        (append "explicit per-task override for task '" (append (or_else task_id "") "'"))
        "override")
      (or_else_some
        (with_level (kind_pin kind overrides active)
          (append "task-kind override for kind '" (append kind "'")) "task_kind")
        (or_else_some (accepting kind (find? (accepts_kind kind) active)) (
          or_else_some
            (pack_with_level (find? (has_role role) active)
              (append "role default for worker role '" (append role "'")) "role")
            (pack_with_level (first? active) "global fallback (first available skill pack)"
              "fallback"))))

unfoldable pub resolve_skill :
    String → String → List SkillOverride → List SkillPackManifest → Option SkillResolution
resolve_skill kind role overrides available =
    resolve_skill_with_task_id none kind role overrides available
