-- ===== src/Examples/SkillRuns.antt =====
-- Concrete manifests and resolutions of packages/skill-registry.
use swarm_intelligence_engin.Prelude.{◌≡◌, ◌≢◌, codes, ◌↔◌, true, List, [], ◌∷◌, All, some, none}
use swarm_intelligence_engin.Skills.Manifests.{
  SkillPackManifest, WorkerTemplate, local, SkillOverride,
}
use swarm_intelligence_engin.Skills.Validation.{validate}
use swarm_intelligence_engin.Skills.Validation.Accepts.{IsConventional, validate-nil_iff}
use swarm_intelligence_engin.Skills.Resolution.{SkillQuery, resolve_skill_full, resolve_skill}
use swarm_intelligence_engin.Skills.Resolution.Admissible.{
  IsAdmissible, resolve_skill_full-IsAdmissible,
}
use swarm_intelligence_engin.Skills.Resolution.Levels.{levels, IsResolved}
use swarm_intelligence_engin.Skills.Resolution.Order.{resolve_skill_full-IsResolved}
use swarm_intelligence_engin.Skills.Resolution.Precedence.{resolve_skill-none_iff}

abbrev coder : SkillPackManifest
coder = record {
  skill_pack_id = "coder-v1";
  worker_role = "coder";
  description = "Writes code";
  accepted_task_kinds = "code" ∷ [];
  references = [];
  scripts = [];
  expected_output_contract = none;
  version = none;
  deprecated = true;
}

abbrev packs : List SkillPackManifest
packs = coder ∷ []

abbrev pin : SkillOverride
pin = record { task_id = some "t1"; task_kind = none; skill_pack_id = "coder-v1" }

abbrev query : SkillQuery
query = record {
  task_id = some "t1";
  node_id = none;
  task_kind = "code";
  worker_role = "coder";
  current_phase = none;
  task_overrides = pin ∷ [];
  node_overrides = [];
  phase_restrictions = [];
  project_default = none;
  global_fallback = none;
}

abbrev template : WorkerTemplate
template = record {
  template_id = "w1";
  role = "coder";
  skill_pack_id = "coder-v1";
  provider_mode = local;
  model_binding = record { provider_name = none; model_name = none; reasoning_effort = none };
  allowed_task_kinds = "code" ∷ [];
}

resolve_skill_full-IsAdmissible_example : IsAdmissible packs (resolve_skill_full query packs)
resolve_skill_full-IsAdmissible_example = resolve_skill_full-IsAdmissible query packs

resolve_skill_full-IsResolved_example :
    IsResolved (levels query packs) (resolve_skill_full query packs)
resolve_skill_full-IsResolved_example = resolve_skill_full-IsResolved query packs

resolve_skill-none_iff_example :
    (resolve_skill "code" "coder" (pin ∷ []) packs ≡ none) ↔ All (λ sp. sp.deprecated ≡ true) packs
resolve_skill-none_iff_example = resolve_skill-none_iff "code" "coder" (pin ∷ []) packs

validate-nil_iff_example : (validate coder ≡ []) ↔ (
    IsConventional (codes coder.skill_pack_id)
    × (coder.worker_role ≢ "")
    × (coder.description ≢ "")
    × (coder.accepted_task_kinds ≢ []))
validate-nil_iff_example = validate-nil_iff coder
