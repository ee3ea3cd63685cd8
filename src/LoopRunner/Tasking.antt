-- ===== src/LoopRunner/Tasking.antt =====
-- services/loop-runner/src/tick.rs: `create_tasks_for_objective`, which gives a task to every node of
-- the objective that has none.
use swarm_intelligence_engin.Prelude.{
  ℕ, ℤ, pos, cast_i32, ◌==◌, Bool, true, err, not, ◌&&◌, if◌then◌else◌, List, [], ◌∷◌, any, filter,
  length, Option, none, some, String, str_eq, append, Result, ok, ◌>>=◌, ◌+◌,
}
use swarm_intelligence_engin.Store.{
  Task, Node, Json, Store, ApiError, internal_error, one_of, update, same_node, insert_event,
  lifecycle_allowed,
}
use swarm_intelligence_engin.Store.Checks.{with_lifecycle}
use swarm_intelligence_engin.Store.Inserts.{insert_task}
use swarm_intelligence_engin.Tasks.{Context, optional_text}
use swarm_intelligence_engin.Tasks.Unblocking.{holds_back}
use swarm_intelligence_engin.Commands.{event_for}
use swarm_intelligence_engin.Skills.Manifests.{SkillPackManifest, SkillResolution}
use swarm_intelligence_engin.Skills.Resolution.{resolve_skill_full}
use swarm_intelligence_engin.LoopRunner.{Swept, Transacted, in_transaction, sweep, unless_recorded}

-- What the code reads from the JSON of the newest user policy: each field as `as_str` or `as_i64`
-- gives it, with the entries of a worker role by its name.
pub record PolicyPayload : Type 0 where
  pub provider_mode_of : String → Option String
  pub model_name_of : String → Option String
  pub default_provider_mode : Option String
  pub default_model_family : Option String
  pub default_retry_budget : Option ℤ
  pub default_skill_pack_id : Option String

-- What the function loads before its loop: the policy, and the skill packs in the order of their
-- creation.
pub record TaskSetup : Type 0 where
  pub policy : Option PolicyPayload
  pub available_skills : List SkillPackManifest

-- The role for a lane.
unfoldable pub worker_role_for : String → String
worker_role_for lane =
    if str_eq lane "planning"
    then "planner"
    else if str_eq lane "implementation"
    then "implementer"
    else if str_eq lane "verification"
    then "reviewer"
    else if str_eq lane "integration"
    then "integration_verifier"
    else "implementer"

-- `first.or_else(second).unwrap_or(last)`.
abbrev pub first_of : {A : Type 0} → Option A → Option A → A → A
first_of (some a) second last = a
first_of none (some a) last = a
first_of none none last = last

unfoldable pub provider_mode_for : String → Option PolicyPayload → Option String
provider_mode_for role none = none
provider_mode_for role (some p) =
    some (first_of (p.provider_mode_of role) p.default_provider_mode "api")

unfoldable pub model_binding_for : String → Option PolicyPayload → Option String
model_binding_for role none = none
model_binding_for role (some p) =
    some (first_of (p.model_name_of role) p.default_model_family "claude")

abbrev pub default_pack : Option PolicyPayload → Option String
default_pack none = none
default_pack (some p) = p.default_skill_pack_id

unfoldable pub retry_budget_for : Option PolicyPayload → ℤ
retry_budget_for none = pos 3
retry_budget_for (some p) = cast_i32 (first_of p.default_retry_budget none (pos 3))

-- The number of the node's dependencies that are not finished; the primary key of the nodes lets an
-- edge join one predecessor.
unfoldable pub unmet_deps : Store → String → ℕ
unmet_deps s node_id = length (filter (holds_back s node_id) s.node_edges)

unfoldable pub initial_status : ℕ → String
initial_status unmet = if unmet == 0 then "running" else "queued"

abbrev pub skill_for : TaskSetup → String → Node → SkillResolution
skill_for setup task_id n =
    resolve_skill_full
      (record {
        task_id = some task_id;
        node_id = some n.node_id;
        task_kind = n.lane;
        worker_role = worker_role_for n.lane;
        current_phase = none;
        task_overrides = [];
        node_overrides = [];
        phase_restrictions = [];
        project_default = default_pack setup.policy;
        global_fallback = none;
      })
      setup.available_skills

abbrev pub is_proposed_node : String → Node → Bool
is_proposed_node id n = same_node id n && str_eq n.lifecycle "proposed"

-- `UPDATE nodes SET lifecycle = $1 ... WHERE node_id = $2 AND lifecycle = 'proposed'`.
unfoldable pub leave_proposed : ℕ → String → String → Store → Result ApiError Store
leave_proposed now lifecycle id s = do
  rows ←
      update (is_proposed_node id) (with_lifecycle now lifecycle)
        (λ n. lifecycle_allowed n.lifecycle) s.nodes
  ok (record s { nodes = rows })

abbrev pub tasking_key : String → String → String
tasking_key cycle_id node_id = append "auto-task-" (append cycle_id (append "-" node_id))

-- The row that the INSERT INTO tasks adds, in the columns that the model keeps.
abbrev pub opened_task : Context → TaskSetup → String → String → Node → Task
opened_task cx setup task_id status n = record {
  task_id = task_id;
  node_id = n.node_id;
  worker_role = worker_role_for n.lane;
  skill_pack_id = (skill_for setup task_id n).skill_pack_id;
  status = status;
  retry_budget = some (retry_budget_for setup.policy);
  created_at = cx.now;
  updated_at = cx.now;
}

-- chk_tasks_provider_mode (0018_enum_check_constraints.sql), of a column that may be null.
abbrev pub provider_mode_allowed : Option String → Bool
provider_mode_allowed none = true
provider_mode_allowed (some mode) = one_of ("api" ∷ "session" ∷ "local" ∷ []) mode

-- `INSERT INTO tasks`, with the provider mode that the row of the model does not keep.
unfoldable pub insert_opened_task : Option String → Task → Store → Result ApiError Store
insert_opened_task mode t s =
    if provider_mode_allowed mode then insert_task t s else err internal_error

-- The statements that create the task of the node.
unfoldable pub open_task : Context → TaskSetup → String → ℕ → ℕ → Node → Store → Transacted
open_task cx setup cycle_id drawn unmet n s = do
  let task_id = cx.new_id drawn
  let role = worker_role_for n.lane
  let skill = skill_for setup task_id n
  let status = initial_status unmet
  s1 ←
      insert_opened_task (provider_mode_for role setup.policy)
        (opened_task cx setup task_id status n) s
  s2 ← leave_proposed cx.now status n.node_id s1
  s3 ←
      insert_event
        (event_for cx (drawn + 1) "task" task_id "task_created" (tasking_key cycle_id n.node_id) (
          ("task_id", Json.text task_id)
          ∷ ("node_id", Json.text n.node_id)
          ∷ ("node_title", Json.text n.title)
          ∷ ("cycle_id", Json.text cycle_id)
          ∷ ("worker_role", Json.text role)
          ∷ ("skill_pack_id", Json.text skill.skill_pack_id)
          ∷ ("skill_selection_reason", Json.text skill.selection_reason)
          ∷ ("skill_selection_level", Json.text skill.selection_level)
          ∷ ("status", Json.text status)
          ∷ ("unmet_deps", Json.count unmet)
          ∷ ("provider_mode", optional_text (provider_mode_for role setup.policy))
          ∷ ("model_binding", optional_text (model_binding_for role setup.policy))
          ∷ ("trigger", Json.text "auto_create")
          ∷ []))
        s2
  ok (1, s3)

-- The body of the loop: the dependencies are counted before the transaction begins.
unfoldable pub create_task_for : Context → TaskSetup → String → ℕ → Node → Store → Swept
create_task_for cx setup cycle_id drawn n s = in_transaction s (
    unless_recorded "task" (tasking_key cycle_id n.node_id) s
      (open_task cx setup cycle_id drawn (unmet_deps s n.node_id) n s))

abbrev pub is_untasked : Store → String → Node → Bool
is_untasked s objective_id n =
    str_eq n.objective_id objective_id
    && (one_of ("proposed" ∷ "queued" ∷ []) n.lifecycle
        && not (any (λ t. str_eq t.node_id n.node_id) s.tasks))

unfoldable pub untasked_nodes : Store → String → List Node
untasked_nodes s objective_id = filter (is_untasked s objective_id) s.nodes

-- `drawn` counts the identifiers that were drawn before.
unfoldable pub create_tasks_for_objective :
    Context → TaskSetup → String → String → ℕ → Store → Swept
create_tasks_for_objective cx setup cycle_id objective_id drawn s =
    sweep 2 (create_task_for cx setup cycle_id) (untasked_nodes s objective_id) drawn 0 s
