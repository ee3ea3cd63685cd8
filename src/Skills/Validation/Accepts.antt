-- ===== src/Skills/Validation/Accepts.antt =====
-- What the validations accept.
use swarm_intelligence_engin.Prelude.{
  ℕ, ◌≤◌, ◌≡◌, ◌≢◌, refl, ap, ◌↔◌, ◌⊎◌, All, all, codes, ◌∷◌, true, false, List, [], any, any_iff,
  is_empty, Any, arith, String, str_is_empty, eq_iff,
}
use swarm_intelligence_engin.Skills.Manifests.{SkillPackManifest, WorkerTemplate}
use swarm_intelligence_engin.Skills.Validation.{
  is_id_byte, is_valid_id_bytes, is_valid_skill_pack_id, validate, has_id, validate_template,
}

-- A lowercase letter of ASCII, from 'a' to 'z'.
abbrev pub IsLetter : ℕ → Type 0
IsLetter c = (97 ≤ c) × (c ≤ 122)

-- A letter, a digit from '0' to '9', a hyphen or an underscore.
abbrev pub IsIdCharacter : ℕ → Type 0
IsIdCharacter c = IsLetter c ⊎ ((48 ≤ c) × (c ≤ 57)) ⊎ (c ≡ 45) ⊎ (c ≡ 95)

-- The naming convention: a letter, and then such characters only.
abbrev pub IsConventional : List ℕ → Type 0
IsConventional [] = ⊥
IsConventional (c ∷ cs) = IsLetter c × All IsIdCharacter cs

id_byte_iff : (c : ℕ) → (is_id_byte c ≡ true) ↔ IsIdCharacter c
id_byte_iff c = ground arith

id_bytes_iff : (cs : List ℕ) → (all is_id_byte cs ≡ true) ↔ All IsIdCharacter cs
id_bytes_iff [] = (λ h. tt, λ h. refl)
id_bytes_iff (c ∷ cs) = ground (arith, id_byte_iff c, id_bytes_iff cs)

valid_bytes_iff : (cs : List ℕ) → (is_valid_id_bytes cs ≡ true) ↔ IsConventional cs
unfolding is_valid_id_bytes
valid_bytes_iff [] = (λ h. cc, λ h. absurd h)
valid_bytes_iff (c ∷ cs) = ground (arith, id_bytes_iff cs)

valid_id_iff : (id : String) → (is_valid_skill_pack_id id ≡ true) ↔ IsConventional (codes id)
unfolding is_valid_skill_pack_id
valid_id_iff id = valid_bytes_iff (codes id)

empty_iff : (s : String) → (str_is_empty s ≡ false) ↔ (s ≢ "")
empty_iff String.[] = (λ h. cc, λ h. absurd (h refl))
empty_iff (String.◌∷◌ c s) = (λ h e. let no = ap str_is_empty e in cc, λ h. refl)

no_kinds_iff : (kinds : List String) → (is_empty kinds ≡ false) ↔ (kinds ≢ [])
no_kinds_iff kinds = ground arith

empty_invalid : (s : String) → str_is_empty s ≡ true → is_valid_skill_pack_id s ≡ false
unfolding is_valid_skill_pack_id
empty_invalid String.[] h = refl
empty_invalid (String.◌∷◌ c s) h = cc

-- A manifest is accepted exactly when its id is a lowercase ASCII letter followed by lowercase ASCII
-- letters, digits, hyphens and underscores only, its role and its description are not the empty text,
-- and it accepts some kind of task.
pub validate-nil_iff :
    (m : SkillPackManifest)
    → (validate m ≡ []) ↔ (
        IsConventional (codes m.skill_pack_id)
        × (m.worker_role ≢ "")
        × (m.description ≢ "")
        × (m.accepted_task_kinds ≢ []))
unfolding validate
validate-nil_iff m = ground (
  arith,
  empty_invalid m.skill_pack_id,
  valid_id_iff m.skill_pack_id,
  empty_iff m.worker_role,
  empty_iff m.description,
  no_kinds_iff m.accepted_task_kinds,
)

has_id_iff :
    (id : String) (sp : SkillPackManifest) → (has_id id sp ≡ true) ↔ (sp.skill_pack_id ≡ id)
has_id_iff id sp = eq_iff sp.skill_pack_id id

pub any-has_id_iff :
    (id : String) (known : List SkillPackManifest)
    → (any (has_id id) known ≡ true) ↔ Any (λ sp. sp.skill_pack_id ≡ id) known
any-has_id_iff id = any_iff (has_id id) (λ sp. sp.skill_pack_id ≡ id) (has_id_iff id)

-- A template is accepted exactly when its id, its role and its task kinds are not empty and its
-- skill pack is one of the known ones, under an id that is not empty.
pub validate_template-nil_iff :
    (t : WorkerTemplate) (known : List SkillPackManifest)
    → (validate_template t known ≡ []) ↔ (
        (str_is_empty t.template_id ≡ false)
        × (str_is_empty t.role ≡ false)
        × (str_is_empty t.skill_pack_id ≡ false)
        × Any (λ sp. sp.skill_pack_id ≡ t.skill_pack_id) known
        × (is_empty t.allowed_task_kinds ≡ false))
unfolding validate_template
validate_template-nil_iff t known = ground (arith, any-has_id_iff t.skill_pack_id known)
