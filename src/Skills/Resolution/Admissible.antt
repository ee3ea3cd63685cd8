-- ===== src/Skills/Resolution/Admissible.antt =====
-- Which packs a resolution may choose.
use swarm_intelligence_engin.Prelude.{
  ◌≡◌, refl, ◌⊎◌, inl, inr, Bool, false, List, [], ◌∷◌, find?, Option, none, some, String, append,
  Any, arith,
}
use swarm_intelligence_engin.Skills.Manifests.{SkillPackManifest, SkillResolution, SkillOverride}
use swarm_intelligence_engin.Skills.Validation.Accepts.{any-has_id_iff}
use swarm_intelligence_engin.Skills.Resolution.{
  active_packs, pinned, override_for, task_override_level, node_override_level, task_kind_level,
  phase_level, role_level, with_level, pack_with_level, if_active, project_level, global_level,
  first_allowed, allowed_in, accepts_kind, has_role, escalation, SkillQuery, resolve_skill_full,
  or_else,
}

-- A pack with this id is available, deprecated or not.
abbrev pub IsAvailable : String → List SkillPackManifest → Type 0
IsAvailable id available = Any (λ sp. sp.skill_pack_id ≡ id) available

-- A pack with this id is available and not deprecated.
abbrev pub IsActive : String → List SkillPackManifest → Type 0
IsActive id available = Any (λ sp. (sp.skill_pack_id ≡ id) × (sp.deprecated ≡ false)) available

-- What `active_packs` keeps is active.
IsActive-of_kept :
    (id : String) (available : List SkillPackManifest)
    → IsAvailable id (active_packs available)
    → IsActive id available
unfolding active_packs
IsActive-of_kept id [] h = h
IsActive-of_kept id (sp ∷ rest) h = ground (arith, IsActive-of_kept id rest)

find?-Any :
    (p : SkillPackManifest → Bool) (packs : List SkillPackManifest) (sp : SkillPackManifest)
    → find? p packs ≡ some sp
    → IsAvailable sp.skill_pack_id packs
find?-Any p [] sp h = cc
find?-Any p (x ∷ xs) sp h = ground (arith, find?-Any p xs sp)

pinned-IsAvailable :
    (o : Option SkillOverride) (available : List SkillPackManifest) (id : String)
    → pinned o available ≡ some id
    → IsAvailable id available
pinned-IsAvailable none available id h = cc
pinned-IsAvailable (some o) available id h =
    ground (arith, any-has_id_iff o.skill_pack_id available)

if_active-IsAvailable :
    (o : Option String) (packs : List SkillPackManifest) (id : String)
    → if_active o packs ≡ some id
    → IsAvailable id packs
if_active-IsAvailable none packs id h = cc
if_active-IsAvailable (some d) packs id h = ground (arith, any-has_id_iff d packs)

first_allowed-IsAvailable :
    (allowed : Option (List String)) (packs : List SkillPackManifest) (sp : SkillPackManifest)
    → first_allowed allowed packs ≡ some sp
    → IsAvailable sp.skill_pack_id packs
first_allowed-IsAvailable none packs sp h = cc
first_allowed-IsAvailable (some allowed) packs sp h = find?-Any _ packs sp h

-- An override level, and every other level, hand over a pack of the list that they are given.
with_level-IsAvailable :
    (o : Option String) (packs : List SkillPackManifest) (reason level : String)
    → ((id : String) → o ≡ some id → IsAvailable id packs)
    → (r : SkillResolution) → with_level o reason level ≡ some r
    → IsAvailable r.skill_pack_id packs × (r.selection_level ≡ level)
with_level-IsAvailable none packs reason level h r e = cc
with_level-IsAvailable (some id) packs reason level h r e = ground (arith, h id refl)

pack_with_level-IsAvailable :
    (o : Option SkillPackManifest) (packs : List SkillPackManifest) (reason level : String)
    → ((sp : SkillPackManifest) → o ≡ some sp → IsAvailable sp.skill_pack_id packs)
    → (r : SkillResolution) → pack_with_level o reason level ≡ some r
    → IsAvailable r.skill_pack_id packs × (r.selection_level ≡ level)
pack_with_level-IsAvailable none packs reason level h r e = cc
pack_with_level-IsAvailable (some sp) packs reason level h r e = ground (arith, h sp refl)

-- What a resolution may be: an override onto an available pack, an active pack, or the escalation.
abbrev pub IsAdmissible : List SkillPackManifest → SkillResolution → Type 0
IsAdmissible available r =
    ((r.selection_level ≡ "task_override") ⊎ (r.selection_level ≡ "node_override"))
      × IsAvailable r.skill_pack_id available
    ⊎ (IsActive r.skill_pack_id available ⊎ (r ≡ escalation))

or_else-keeps :
    (Q : SkillResolution → Type 0) (o : Option SkillResolution) (d : SkillResolution)
    → ((r : SkillResolution) → o ≡ some r → Q r)
    → Q d
    → Q (or_else o d)
or_else-keeps Q none d h q = q
or_else-keeps Q (some r) d h q = h r refl

-- Each level hands over a pack of the list that it searches, under its own name.
pub task_override_level-IsAvailable :
    (id : Option String) (os : List SkillOverride) (packs : List SkillPackManifest)
    → (r : SkillResolution) → task_override_level id os packs ≡ some r
    → IsAvailable r.skill_pack_id packs × (r.selection_level ≡ "task_override")
unfolding task_override_level
task_override_level-IsAvailable id os packs =
    with_level-IsAvailable (pinned (override_for id os) packs) packs
      (append "per-task override for " (or_else id "")) "task_override"
      (pinned-IsAvailable (override_for id os) packs)

pub node_override_level-IsAvailable :
    (id : Option String) (os : List SkillOverride) (packs : List SkillPackManifest)
    → (r : SkillResolution) → node_override_level id os packs ≡ some r
    → IsAvailable r.skill_pack_id packs × (r.selection_level ≡ "node_override")
unfolding node_override_level
node_override_level-IsAvailable id os packs =
    with_level-IsAvailable (pinned (override_for id os) packs) packs
      (append "node-level override for " (or_else id "")) "node_override"
      (pinned-IsAvailable (override_for id os) packs)

pub task_kind_level-IsAvailable :
    (kind : String) (packs : List SkillPackManifest) (r : SkillResolution)
    → task_kind_level kind packs ≡ some r
    → IsAvailable r.skill_pack_id packs × (r.selection_level ≡ "task_kind")
unfolding task_kind_level
task_kind_level-IsAvailable kind packs =
    pack_with_level-IsAvailable (find? (accepts_kind kind) packs) packs
      (append "task-kind mapping for '" (append kind "'")) "task_kind"
      (find?-Any (accepts_kind kind) packs)

pub phase_level-IsAvailable :
    (phase : Option String) (rs : List (String × List String)) (packs : List SkillPackManifest)
    → (r : SkillResolution) → phase_level phase rs packs ≡ some r
    → IsAvailable r.skill_pack_id packs × (r.selection_level ≡ "phase_restriction")
unfolding phase_level
phase_level-IsAvailable phase rs packs =
    pack_with_level-IsAvailable (first_allowed (allowed_in phase rs) packs) packs
      (append "phase restriction for '" (append (or_else phase "") "'")) "phase_restriction"
      (first_allowed-IsAvailable (allowed_in phase rs) packs)

pub role_level-IsAvailable :
    (role : String) (packs : List SkillPackManifest) (r : SkillResolution)
    → role_level role packs ≡ some r
    → IsAvailable r.skill_pack_id packs × (r.selection_level ≡ "role_default")
unfolding role_level
role_level-IsAvailable role packs =
    pack_with_level-IsAvailable (find? (has_role role) packs) packs
      (append "role default for '" (append role "'")) "role_default"
      (find?-Any (has_role role) packs)

pub project_level-IsAvailable :
    (d : Option String) (packs : List SkillPackManifest) (r : SkillResolution)
    → project_level d packs ≡ some r
    → IsAvailable r.skill_pack_id packs × (r.selection_level ≡ "project_default")
unfolding project_level
project_level-IsAvailable d packs =
    with_level-IsAvailable (if_active d packs) packs "project default" "project_default"
      (if_active-IsAvailable d packs)

pub global_level-IsAvailable :
    (d : Option String) (packs : List SkillPackManifest) (r : SkillResolution)
    → global_level d packs ≡ some r
    → IsAvailable r.skill_pack_id packs × (r.selection_level ≡ "global_fallback")
unfolding global_level
global_level-IsAvailable d packs =
    with_level-IsAvailable (if_active d packs) packs "global fallback" "global_fallback"
      (if_active-IsAvailable d packs)

module _ (q : SkillQuery) (available : List SkillPackManifest) where
  abbrev active : List SkillPackManifest
  active = active_packs available

  -- A level that searches the active packs.
  IsAdmissible-active :
      (level : String) (o : Option SkillResolution) (d : SkillResolution)
      → ((r : SkillResolution)
          → o ≡ some r
          → IsAvailable r.skill_pack_id active × (r.selection_level ≡ level))
      → IsAdmissible available d
      → IsAdmissible available (or_else o d)
  IsAdmissible-active level o d h =
      or_else-keeps (IsAdmissible available) o d
        (λ r e. inr (inl (IsActive-of_kept r.skill_pack_id available (h r e).0)))

  abbrev from_project : SkillResolution
  from_project =
      or_else (project_level q.project_default active)
        (or_else (global_level q.global_fallback active) escalation)

  abbrev from_role : SkillResolution
  from_role = or_else (role_level q.worker_role active) from_project

  abbrev from_phase : SkillResolution
  from_phase = or_else (phase_level q.current_phase q.phase_restrictions active) from_role

  from_phase-IsAdmissible : IsAdmissible available from_phase
  from_phase-IsAdmissible =
      IsAdmissible-active "phase_restriction"
        (phase_level q.current_phase q.phase_restrictions active) from_role
        (phase_level-IsAvailable q.current_phase q.phase_restrictions active)
        (IsAdmissible-active "role_default" (role_level q.worker_role active) from_project
          (role_level-IsAvailable q.worker_role active)
          (IsAdmissible-active "project_default" (project_level q.project_default active)
            (or_else (global_level q.global_fallback active) escalation)
            (project_level-IsAvailable q.project_default active)
            (IsAdmissible-active "global_fallback" (global_level q.global_fallback active)
              escalation (global_level-IsAvailable q.global_fallback active) (inr (inr refl)))))

  abbrev from_kind : SkillResolution
  from_kind = or_else (task_kind_level q.task_kind active) from_phase

  abbrev from_node : SkillResolution
  from_node = or_else (node_override_level q.node_id q.node_overrides available) from_kind

  -- Every resolution is admissible: an explicit override may pin any available pack, every other
  -- level chooses an available pack that is not deprecated, and what is left is the escalation.
  pub resolve_skill_full-IsAdmissible : IsAdmissible available (resolve_skill_full q available)
  unfolding resolve_skill_full
  resolve_skill_full-IsAdmissible =
      or_else-keeps (IsAdmissible available)
        (task_override_level q.task_id q.task_overrides available) from_node
        (λ r e.
          let (has, level) =
            task_override_level-IsAvailable q.task_id q.task_overrides available r e in
          inl (inl level, has))
        (or_else-keeps (IsAdmissible available)
          (node_override_level q.node_id q.node_overrides available) from_kind
          (λ r e.
            let (has, level) =
              node_override_level-IsAvailable q.node_id q.node_overrides available r e in
            inl (inr level, has))
          (IsAdmissible-active "task_kind" (task_kind_level q.task_kind active) from_phase
            (task_kind_level-IsAvailable q.task_kind active) from_phase-IsAdmissible))
