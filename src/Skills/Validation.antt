-- ===== src/Skills/Validation.antt =====
-- packages/skill-registry/src/lib.rs: `validate` and `validate_template`.
pub mod Accepts
use swarm_intelligence_engin.Prelude.{
  ℕ, leb, ◌==◌, Bool, true, false, ◌&&◌, ◌||◌, if◌then◌else◌, List, [], ◌∷◌, ◌++◌, any, all,
  is_empty, String, str_eq, str_is_empty, append, codes,
}
use swarm_intelligence_engin.Skills.Manifests.{
  SkillPackManifest, WorkerTemplate, SkillValidationError,
}

-- The bytes of an ASCII text are its code points; the code points of a text with any other
-- character hold one of at least 128, as its bytes do, and no test below accepts those.
abbrev pub is_ascii_lowercase : ℕ → Bool
is_ascii_lowercase c = leb b'a' c && leb c b'z'

abbrev pub is_ascii_digit : ℕ → Bool
is_ascii_digit c = leb b'0' c && leb c b'9'

abbrev pub is_id_byte : ℕ → Bool
is_id_byte c = is_ascii_lowercase c || is_ascii_digit c || c == b'-' || c == b'_'

unfoldable pub is_valid_id_bytes : List ℕ → Bool
is_valid_id_bytes [] = false
is_valid_id_bytes (b ∷ bs) = is_ascii_lowercase b && all is_id_byte (b ∷ bs)

unfoldable pub is_valid_skill_pack_id : String → Bool
unfolding is_valid_id_bytes
is_valid_skill_pack_id id = is_valid_id_bytes (codes id)

abbrev problem : String → String → List SkillValidationError
problem f m = record { field = f; message = m } ∷ []

unfoldable pub id_errors : String → List SkillValidationError
id_errors id =
    if str_is_empty id
    then problem "skill_pack_id" "skill_pack_id must not be empty"
    else if is_valid_skill_pack_id id
    then []
    else problem "skill_pack_id"
        "skill_pack_id must start with a lowercase letter and contain only lowercase alphanumeric characters, hyphens, or underscores"

unfoldable pub validate : SkillPackManifest → List SkillValidationError
unfolding id_errors
validate manifest =
    id_errors manifest.skill_pack_id
    ++ ((if str_is_empty manifest.worker_role
          then problem "worker_role" "worker_role must not be empty"
          else [])
        ++ ((if str_is_empty manifest.description
              then problem "description" "description must not be empty"
              else [])
            ++ (if is_empty manifest.accepted_task_kinds
                then problem "accepted_task_kinds"
                    "accepted_task_kinds must contain at least one entry"
                else [])))

abbrev pub has_id : String → SkillPackManifest → Bool
has_id id sp = str_eq sp.skill_pack_id id

unfoldable pub reference_errors : String → List SkillPackManifest → List SkillValidationError
reference_errors id known =
    if str_is_empty id
    then problem "skill_pack_id" "skill_pack_id must not be empty"
    else if any (has_id id) known
    then []
    else problem "skill_pack_id"
        (append "skill_pack_id '" (append id "' does not reference a known skill pack"))

unfoldable pub validate_template :
    WorkerTemplate → List SkillPackManifest → List SkillValidationError
unfolding reference_errors
validate_template template known =
    (if str_is_empty template.template_id
      then problem "template_id" "template_id must not be empty"
      else [])
    ++ ((if str_is_empty template.role then problem "role" "role must not be empty" else [])
        ++ (reference_errors template.skill_pack_id known
            ++ (if is_empty template.allowed_task_kinds
                then problem "allowed_task_kinds"
                    "allowed_task_kinds must contain at least one entry"
                else [])))
