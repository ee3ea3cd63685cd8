-- ===== src/Skills/Resolution/Levels.antt =====
-- packages/skill-registry/src/lib.rs: the levels of `resolve_skill_full`, and those that search the
-- packs or take a given one.
use swarm_intelligence_engin.Prelude.{
  ◌≡◌, refl, ◌↔◌, ◌⊎◌, inl, inr, Bool, true, false, not, ◌&&◌, Bool-cases, Option-cases, List, [],
  ◌∷◌, any, find?, Any, Option, none, some, some_inj, String, eq_iff, arith,
}
use swarm_intelligence_engin.Skills.Manifests.{SkillPackManifest, SkillResolution, SkillOverride}
use swarm_intelligence_engin.Skills.Validation.{has_id}
use swarm_intelligence_engin.Skills.Resolution.{
  active_packs, if_active, with_level, pack_with_level, escalation, SkillQuery,
}
use swarm_intelligence_engin.Skills.Resolution.Admissible.{IsAvailable, IsActive}

-- The element is the first one of the list with the property.
abbrev pub IsFirst : {A : Type 0} → (A → Type 0) → List A → A → Type 0
IsFirst P [] x = ⊥
IsFirst P (y ∷ ys) x = (P y × (y ≡ x)) ⊎ ((¬ P y) × IsFirst P ys x)

-- The first override for the key pins a pack that is available, deprecated or not.
abbrev pub PinsPack : Option String → List SkillOverride → List SkillPackManifest → String → Type 0
PinsPack key overrides available id =
    (k : String) × (key ≡ some k)
    × ((ov : SkillOverride) × IsFirst (λ o. o.task_id ≡ some k) overrides ov
        × (ov.skill_pack_id ≡ id)
        × IsAvailable id available)

-- The pack is the first of those that are not deprecated and have the property.
abbrev pub IsFirstActive : (SkillPackManifest → Type 0) → List SkillPackManifest → String → Type 0
IsFirstActive P available id =
    (sp : SkillPackManifest) × IsFirst (λ x. (x.deprecated ≡ false) × P x) available sp
    × (sp.skill_pack_id ≡ id)

-- The first restriction for the current phase allows the pack, and no active one before it.
abbrev pub IsAllowedFirst :
    Option String → List (String × List String) → List SkillPackManifest → String → Type 0
IsAllowedFirst phase restrictions available id =
    (p : String) × (phase ≡ some p)
    × ((r : String × List String) × IsFirst (λ (x : String × List String). x.0 ≡ p) restrictions r
        × IsFirstActive (λ sp. Any (λ a. a ≡ sp.skill_pack_id) r.1) available id)

-- The seven levels in their order, each with the packs that it chooses.
abbrev pub levels : SkillQuery → List SkillPackManifest → List (String × (String → Type 0))
levels q available =
    ("task_override", PinsPack q.task_id q.task_overrides available)
    ∷ ("node_override", PinsPack q.node_id q.node_overrides available)
    ∷ (
      "task_kind",
      IsFirstActive (λ sp. Any (λ k. k ≡ q.task_kind) sp.accepted_task_kinds) available,
    )
    ∷ ("phase_restriction", IsAllowedFirst q.current_phase q.phase_restrictions available)
    ∷ ("role_default", IsFirstActive (λ sp. sp.worker_role ≡ q.worker_role) available)
    ∷ ("project_default", λ id. (q.project_default ≡ some id) × IsActive id available)
    ∷ ("global_fallback", λ id. (q.global_fallback ≡ some id) × IsActive id available)
    ∷ []

-- The first level that chooses a pack gives the resolution; without one, it asks for an escalation.
abbrev pub IsResolved : List (String × (String → Type 0)) → SkillResolution → Type 0
IsResolved [] r = r ≡ escalation
IsResolved ((level, chooses) ∷ rest) r =
    ((r.selection_level ≡ level) × chooses r.skill_pack_id)
    ⊎ (((id : String) → ¬ chooses id) × IsResolved rest r)

-- What a level does: it chooses a pack, or there is none for it to choose.
abbrev pub IsLevel : String → (String → Type 0) → Option SkillResolution → Type 0
IsLevel level chooses o =
    ((r : SkillResolution) × (o ≡ some r) × (r.selection_level ≡ level) × chooses r.skill_pack_id)
    ⊎ ((o ≡ none) × ((id : String) → ¬ chooses id))

pub find?-IsFirst :
    {A : Type 0} (p : A → Bool) (P : A → Type 0)
    → ((x : A) → (p x ≡ true) ↔ P x)
    → (xs : List A) (x : A) → (find? p xs ≡ some x) ↔ IsFirst P xs x
find?-IsFirst p P h [] x = (λ e. cc, λ e. absurd e)
find?-IsFirst p P h (y ∷ ys) x = ground (arith, h y, find?-IsFirst p P h ys x)

-- Searching the active packs is searching all packs for an active one.
find?-active :
    (p : SkillPackManifest → Bool) (available : List SkillPackManifest)
    → find? p (active_packs available) ≡ find? (λ sp. not sp.deprecated && p sp) available
unfolding active_packs
find?-active p [] = refl
find?-active p (sp ∷ rest) = ground (arith, find?-active p rest)

active_iff :
    (p : SkillPackManifest → Bool) (P : SkillPackManifest → Type 0)
    → ((sp : SkillPackManifest) → (p sp ≡ true) ↔ P sp)
    → (sp : SkillPackManifest)
    → ((not sp.deprecated && p sp) ≡ true) ↔ ((sp.deprecated ≡ false) × P sp)
active_iff p P h sp = ground (arith, h sp)

-- A level that takes the first active pack with a property.
pub search-IsLevel :
    (p : SkillPackManifest → Bool) (P : SkillPackManifest → Type 0)
    → ((sp : SkillPackManifest) → (p sp ≡ true) ↔ P sp)
    → (available : List SkillPackManifest) (reason level : String)
    → IsLevel level
        (IsFirstActive P available)
        (pack_with_level (find? p (active_packs available)) reason level)
search-IsLevel p P h available reason level =
    let first =
      find?-IsFirst (λ sp. not sp.deprecated && p sp) (λ sp. (sp.deprecated ≡ false) × P sp)
        (active_iff p P h) available in
    rw (find?-active p available)
      (elim (Option-cases (find? (λ sp. not sp.deprecated && p sp) available)) [
        | inl e ↦ inr (rw e refl, λ id c. let found = (first c.0).1 c.1 in cc)
        | inr (sp, e) ↦ rw e (inl (_, refl, refl, (sp, (first sp).0 e, refl)))
      ])

any-IsActive :
    (id : String) (available : List SkillPackManifest)
    → (any (has_id id) (active_packs available) ≡ true) ↔ IsActive id available
unfolding active_packs
any-IsActive id [] = (λ e. cc, λ e. absurd e)
any-IsActive id (sp ∷ rest) = ground (arith, eq_iff sp.skill_pack_id id, any-IsActive id rest)

-- A level that takes a given pack when it is active.
pub default-IsLevel :
    (default : Option String) (available : List SkillPackManifest) (reason level : String)
    → IsLevel level
        (λ id. (default ≡ some id) × IsActive id available)
        (with_level (if_active default (active_packs available)) reason level)
default-IsLevel none available reason level = inr (refl, λ id c. let absent = c.0 in cc)
default-IsLevel (some d) available reason level =
    elim (Bool-cases (any (has_id d) (active_packs available))) [
      | inl e ↦ rw e (inl (_, refl, refl, (refl, (any-IsActive d available).0 e)))
      | inr n ↦ rw n (
          inr (
            refl,
            λ id c. let same = some_inj c.0 in let there = (any-IsActive id available).1 c.1 in cc,
          ))
    ]
