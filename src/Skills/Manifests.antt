-- ===== src/Skills/Manifests.antt =====
-- packages/skill-registry/src/lib.rs: the records.
use swarm_intelligence_engin.Prelude.{Bool, List, map, Option, String}

pub data ProviderMode : Type 0 where
  api session local : ProviderMode

pub record ModelBinding : Type 0 where
  pub provider_name : Option String
  pub model_name : Option String
  pub reasoning_effort : Option String

pub record SkillPackManifest : Type 0 where
  pub skill_pack_id : String
  pub worker_role : String
  pub description : String
  pub accepted_task_kinds : List String
  pub references : List String
  pub scripts : List String
  pub expected_output_contract : Option String
  pub version : Option String
  pub deprecated : Bool

pub record WorkerTemplate : Type 0 where
  pub template_id : String
  pub role : String
  pub skill_pack_id : String
  pub provider_mode : ProviderMode
  pub model_binding : ModelBinding
  pub allowed_task_kinds : List String

pub record SkillPackRow : Type 0 where
  pub skill_pack_id : String
  pub worker_role : String
  pub description : String
  pub accepted_task_kinds : List String
  pub references : List String
  pub scripts : List String
  pub expected_output_contract : Option String
  pub version : Option String
  pub deprecated : Bool

pub record SkillResolution : Type 0 where
  pub skill_pack_id : String
  pub selection_reason : String
  pub selection_level : String

pub record SkillOverride : Type 0 where
  pub task_id : Option String
  pub task_kind : Option String
  pub skill_pack_id : String

pub record SkillValidationError : Type 0 where
  pub field : String
  pub message : String

unfoldable pub load_from_row : SkillPackRow → SkillPackManifest
load_from_row row = record {
  skill_pack_id = row.skill_pack_id;
  worker_role = row.worker_role;
  description = row.description;
  accepted_task_kinds = row.accepted_task_kinds;
  references = row.references;
  scripts = row.scripts;
  expected_output_contract = row.expected_output_contract;
  version = row.version;
  deprecated = row.deprecated;
}

unfoldable pub load_from_rows : List SkillPackRow → List SkillPackManifest
load_from_rows rows = map load_from_row rows
