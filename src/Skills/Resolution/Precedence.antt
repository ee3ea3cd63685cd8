-- ===== src/Skills/Resolution/Precedence.antt =====
-- When a resolution gives up, and when it does not.
use swarm_intelligence_engin.Prelude.{
  ◌≡◌, ◌↔◌, refl, true, List, [], ◌∷◌, first?, All, Option, none, String, arith,
}
use swarm_intelligence_engin.Skills.Manifests.{SkillPackManifest, SkillResolution, SkillOverride}
use swarm_intelligence_engin.Skills.Resolution.{
  active_packs, kind_pin, or_else_some, pack_with_level, resolve_skill_with_task_id, resolve_skill,
}

active_packs-nil_iff :
    (available : List SkillPackManifest)
    → (active_packs available ≡ []) ↔ All (λ sp. sp.deprecated ≡ true) available
unfolding active_packs
active_packs-nil_iff [] = (λ h. tt, λ h. refl)
active_packs-nil_iff (sp ∷ rest) = ground (arith, active_packs-nil_iff rest)

-- With no pack to pin, no override pins one.
kind_pin-nil : (kind : String) (overrides : List SkillOverride) → kind_pin kind overrides [] ≡ none
kind_pin-nil kind [] = refl
kind_pin-nil kind (o ∷ os) = ground (arith, kind_pin-nil kind os)

last_resort :
    (a b c d : Option SkillResolution) (active : List SkillPackManifest) (reason level : String)
    → or_else_some a (
        or_else_some b
          (or_else_some c (or_else_some d (pack_with_level (first? active) reason level))))
      ≡ none
    → active ≡ []
unfolding or_else_some
last_resort a b c d active reason level h = ground arith

none_active :
    (kind role : String) (overrides : List SkillOverride) (available : List SkillPackManifest)
    → active_packs available ≡ []
    → resolve_skill kind role overrides available ≡ none
unfolding resolve_skill resolve_skill_with_task_id or_else_some
none_active kind role overrides available h = rw (h, kind_pin-nil kind overrides) refl

-- Without a task, no pack is chosen exactly when every available pack is deprecated.
pub resolve_skill-none_iff :
    (kind role : String) (overrides : List SkillOverride) (available : List SkillPackManifest)
    → (resolve_skill kind role overrides available ≡ none)
      ↔ All (λ sp. sp.deprecated ≡ true) available
unfolding resolve_skill resolve_skill_with_task_id
resolve_skill-none_iff kind role overrides available = (
  λ h. (active_packs-nil_iff available).0 (last_resort _ _ _ _ (active_packs available) _ _ h),
  λ h. none_active kind role overrides available ((active_packs-nil_iff available).1 h),
)
