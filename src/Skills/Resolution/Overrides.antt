-- ===== src/Skills/Resolution/Overrides.antt =====
-- packages/skill-registry/src/lib.rs: the levels of the overrides and of the phase restrictions.
use swarm_intelligence_engin.Prelude.{
  ◌≡◌, refl, sym, ap, ◌∙◌, ◌↔◌, inl, inr, true, Bool-cases, Option-cases, List, any, any_iff, find?,
  Any, Option, none, some, some_inj, String, str_eq, eq_iff, subst,
}
use swarm_intelligence_engin.Skills.Manifests.{SkillPackManifest, SkillResolution, SkillOverride}
use swarm_intelligence_engin.Skills.Validation.{has_id}
use swarm_intelligence_engin.Skills.Validation.Accepts.{any-has_id_iff}
use swarm_intelligence_engin.Skills.Resolution.{
  active_packs, is_some_of, override_for, pinned, allowed_in, first_allowed, with_level,
  pack_with_level,
}
use swarm_intelligence_engin.Skills.Resolution.Levels.{
  IsFirst, PinsPack, IsFirstActive, IsAllowedFirst, IsLevel, find?-IsFirst, search-IsLevel,
}

override_iff :
    (k : String) (o : SkillOverride) → (is_some_of k o.task_id ≡ true) ↔ (o.task_id ≡ some k)
override_iff k o = elim (Option-cases o.task_id) [
  | inl e ↦ rw e (λ h. cc, λ h. cc)
  | inr (t, e) ↦ rw e (λ h. ap some ((eq_iff t k).0 h), λ h. (eq_iff t k).1 (some_inj h))
]

-- The two levels of overrides.
pub override-IsLevel :
    (key : Option String) (overrides : List SkillOverride) (available : List SkillPackManifest)
    (reason level : String)
    → IsLevel level
        (PinsPack key overrides available)
        (with_level (pinned (override_for key overrides) available) reason level)
override-IsLevel none overrides available reason level = inr (refl, λ id c. let absent = c.1 in cc)
override-IsLevel (some k) overrides available reason level =
    let first =
      find?-IsFirst (λ o. is_some_of k o.task_id) (λ o. o.task_id ≡ some k) (override_iff k)
        overrides in
    elim (Option-cases (find? (λ o. is_some_of k o.task_id) overrides)) [
      | inl e ↦ rw e (
          inr (
            refl,
            λ id c.
                let k_same = some_inj c.1 in let found = (first c.2.0).1 (rw k_same c.2.1) in cc,
          ))
      | inr (ov, e) ↦ rw e (elim (Bool-cases (any (has_id ov.skill_pack_id) available)) [
        | inl y ↦ rw y (
            inl (
              _,
              refl,
              refl,
              (
                k,
                refl,
                (ov, (first ov).0 e, refl, (any-has_id_iff ov.skill_pack_id available).0 y),
              ),
            ))
        | inr n ↦ rw n (
            inr (
              refl,
              λ id c.
                  let k_same = some_inj c.1 in
                  let found = (first c.2.0).1 (rw k_same c.2.1) in
                  let which = some_inj (sym e ∙ found) in
                  let there = (any-has_id_iff id available).1 c.2.3 in cc,
            ))
      ])
    ]

-- The level of the phase: the packs that the restriction allows.
allowed-IsLevel :
    (p : String) (r : String × List String) (restrictions : List (String × List String))
    (available : List SkillPackManifest) (o : Option SkillResolution) (level : String)
    → ((r' : String × List String)
        → IsFirst (λ (x : String × List String). x.0 ≡ p) restrictions r' ↔ (r ≡ r'))
    → IsLevel level (IsFirstActive (λ sp. Any (λ a. a ≡ sp.skill_pack_id) r.1) available) o
    → IsLevel level (IsAllowedFirst (some p) restrictions available) o
allowed-IsLevel p r restrictions available o level only (inl (x, e, l, c)) =
    inl (x, e, l, (p, refl, (r, (only r).1 refl, c)))
allowed-IsLevel p r restrictions available o level only (inr (e, nothing)) = inr (
  e,
  λ id c.
      let k_same = some_inj c.1 in
      let same = (only c.2.0).0 (rw k_same c.2.1) in nothing id (rw same c.2.2),
)

unrestricted :
    (p : String) (restrictions : List (String × List String))
    → find? (λ (x : String × List String). str_eq x.0 p) restrictions ≡ none
    → allowed_in (some p) restrictions ≡ none
unrestricted p restrictions e = rw (allowed_in, e) refl

restricted :
    (p : String) (restrictions : List (String × List String)) {r : String × List String}
    → find? (λ (x : String × List String). str_eq x.0 p) restrictions ≡ some r
    → allowed_in (some p) restrictions ≡ some r.1
restricted p restrictions e = rw (allowed_in, e) refl

-- The level of the phase, from what its restriction allows.
abbrev IsPhaseLevel :
    String
    → String
    → String
    → List (String × List String)
    → List SkillPackManifest
    → Option (List String)
    → Type 0
IsPhaseLevel reason level p restrictions available allowed =
    IsLevel level (IsAllowedFirst (some p) restrictions available)
      (pack_with_level (first_allowed allowed (active_packs available)) reason level)

pub phase-IsLevel :
    (phase : Option String) (restrictions : List (String × List String))
    (available : List SkillPackManifest) (reason level : String)
    → IsLevel level (IsAllowedFirst phase restrictions available) (
        pack_with_level
          (first_allowed (allowed_in phase restrictions) (active_packs available))
          reason
          level)
phase-IsLevel none restrictions available reason level = inr (refl, λ id c. let absent = c.1 in cc)
phase-IsLevel (some p) restrictions available reason level =
    let first =
      find?-IsFirst (λ (x : String × List String). str_eq x.0 p)
        (λ (x : String × List String). x.0 ≡ p) (λ x. eq_iff x.0 p) restrictions in
    elim (Option-cases (find? (λ (x : String × List String). str_eq x.0 p) restrictions)) [
      | inl e ↦
          subst (IsPhaseLevel reason level p restrictions available)
            (sym (unrestricted p restrictions e))
            (inr (
              refl,
              λ id c.
                  let k_same = some_inj c.1 in let found = (first c.2.0).1 (rw k_same c.2.1) in cc,
            ))
      | inr (r, e) ↦
          subst (IsPhaseLevel reason level p restrictions available)
            (sym (restricted p restrictions e))
            (allowed-IsLevel p r restrictions available _ level
              (λ r'. (λ h. some_inj (sym e ∙ (first r').1 h), λ h. (first r').0 (e ∙ ap some h)))
              (search-IsLevel (λ sp. any (λ a. str_eq a sp.skill_pack_id) r.1) _
                (λ sp.
                  any_iff (λ a. str_eq a sp.skill_pack_id) (λ a. a ≡ sp.skill_pack_id)
                    (λ a. eq_iff a sp.skill_pack_id) r.1)
                available reason level))
    ]
