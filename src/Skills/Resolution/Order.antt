-- ===== src/Skills/Resolution/Order.antt =====
-- packages/skill-registry/src/lib.rs: the order of the levels of `resolve_skill_full`.
use swarm_intelligence_engin.Prelude.{
  ◌≡◌, refl, inl, inr, List, [], ◌∷◌, any_iff, Any, Option, some, String, str_eq, eq_iff, append,
}
use swarm_intelligence_engin.Skills.Manifests.{SkillPackManifest, SkillResolution}
use swarm_intelligence_engin.Skills.Resolution.{
  active_packs, accepts_kind, has_role, or_else, task_override_level, node_override_level,
  task_kind_level, phase_level, role_level, project_level, global_level, escalation, SkillQuery,
  resolve_skill_full,
}
use swarm_intelligence_engin.Skills.Resolution.Admissible.{IsActive}
use swarm_intelligence_engin.Skills.Resolution.Levels.{
  PinsPack, IsFirstActive, IsAllowedFirst, levels, IsResolved, IsLevel, search-IsLevel,
  default-IsLevel,
}
use swarm_intelligence_engin.Skills.Resolution.Overrides.{override-IsLevel, phase-IsLevel}

or_else-IsResolved :
    (level : String) (chooses : String → Type 0) (rest : List (String × (String → Type 0)))
    (o : Option SkillResolution) (d : SkillResolution)
    → IsLevel level chooses o
    → IsResolved rest d
    → IsResolved ((level, chooses) ∷ rest) (or_else o d)
or_else-IsResolved level chooses rest o d (inl (r, e, l, c)) k = rw e (inl (l, c))
or_else-IsResolved level chooses rest o d (inr (e, nothing)) k = rw e (inr (nothing, k))

kind-IsLevel :
    (kind : String) (available : List SkillPackManifest)
    → IsLevel "task_kind"
        (IsFirstActive (λ sp. Any (λ k. k ≡ kind) sp.accepted_task_kinds) available)
        (task_kind_level kind (active_packs available))
unfolding task_kind_level
kind-IsLevel kind available =
    search-IsLevel (accepts_kind kind) (λ sp. Any (λ k. k ≡ kind) sp.accepted_task_kinds)
      (λ sp.
        any_iff (λ k. str_eq k kind) (λ k. k ≡ kind) (λ k. eq_iff k kind) sp.accepted_task_kinds)
      available (append "task-kind mapping for '" (append kind "'")) "task_kind"

role-IsLevel :
    (role : String) (available : List SkillPackManifest)
    → IsLevel "role_default"
        (IsFirstActive (λ sp. sp.worker_role ≡ role) available)
        (role_level role (active_packs available))
unfolding role_level
role-IsLevel role available =
    search-IsLevel (has_role role) (λ sp. sp.worker_role ≡ role) (λ sp. eq_iff sp.worker_role role)
      available (append "role default for '" (append role "'")) "role_default"

-- The resolution is that of the first of the seven levels that chooses a pack: an override pins a pack
-- that is available, every other level chooses among the packs that are not deprecated. It asks for an
-- escalation when no level chooses one.
pub resolve_skill_full-IsResolved :
    (q : SkillQuery) (available : List SkillPackManifest)
    → IsResolved (levels q available) (resolve_skill_full q available)
unfolding resolve_skill_full task_override_level node_override_level task_kind_level phase_level
    role_level project_level global_level
resolve_skill_full-IsResolved q available =
    let by_task = PinsPack q.task_id q.task_overrides available in
    let by_node = PinsPack q.node_id q.node_overrides available in
    let by_kind =
      IsFirstActive (λ sp. Any (λ k. k ≡ q.task_kind) sp.accepted_task_kinds) available in
    let by_phase = IsAllowedFirst q.current_phase q.phase_restrictions available in
    let by_role = IsFirstActive (λ sp. sp.worker_role ≡ q.worker_role) available in
    let by_project : String → Type 0 =
      λ id. (q.project_default ≡ some id) × IsActive id available in
    let by_global : String → Type 0 = λ id. (q.global_fallback ≡ some id) × IsActive id available in
    let after_6 : List (String × (String → Type 0)) = ("global_fallback", by_global) ∷ [] in
    let after_5 : List (String × (String → Type 0)) = ("project_default", by_project) ∷ after_6 in
    let after_4 : List (String × (String → Type 0)) = ("role_default", by_role) ∷ after_5 in
    let after_3 : List (String × (String → Type 0)) = ("phase_restriction", by_phase) ∷ after_4 in
    let after_2 : List (String × (String → Type 0)) = ("task_kind", by_kind) ∷ after_3 in
    let after_1 : List (String × (String → Type 0)) = ("node_override", by_node) ∷ after_2 in
    let step_7 =
      or_else-IsResolved "global_fallback" by_global []
        (global_level q.global_fallback (active_packs available)) escalation
        (default-IsLevel q.global_fallback available "global fallback" "global_fallback") refl in
    let step_6 =
      or_else-IsResolved "project_default" by_project after_6
        (project_level q.project_default (active_packs available)) _
        (default-IsLevel q.project_default available "project default" "project_default") step_7 in
    let step_5 =
      or_else-IsResolved "role_default" by_role after_5
        (role_level q.worker_role (active_packs available)) _ (role-IsLevel q.worker_role available)
        step_6 in
    let step_4 =
      or_else-IsResolved "phase_restriction" by_phase after_4
        (phase_level q.current_phase q.phase_restrictions (active_packs available)) _
        (phase-IsLevel q.current_phase q.phase_restrictions available
          (append "phase restriction for '" (append (or_else q.current_phase "") "'"))
          "phase_restriction")
        step_5 in
    let step_3 =
      or_else-IsResolved "task_kind" by_kind after_3
        (task_kind_level q.task_kind (active_packs available)) _
        (kind-IsLevel q.task_kind available) step_4 in
    let step_2 =
      or_else-IsResolved "node_override" by_node after_2
        (node_override_level q.node_id q.node_overrides available) _
        (override-IsLevel q.node_id q.node_overrides available
          (append "node-level override for " (or_else q.node_id "")) "node_override")
        step_3 in
    or_else-IsResolved "task_override" by_task after_1
      (task_override_level q.task_id q.task_overrides available) _
      (override-IsLevel q.task_id q.task_overrides available
        (append "per-task override for " (or_else q.task_id "")) "task_override")
      step_2
