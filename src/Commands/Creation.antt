-- ===== src/Commands/Creation.antt =====
-- packages/control-plane/src/executor.rs: the commands that create objectives, loops, cycles, nodes
-- and tasks (CTL-001 to CTL-005).
use swarm_intelligence_engin.Prelude.{
  pos, false, not, any, List, [], ◌∷◌, none, String, append, is_blank, ok, ◌>>=◌, ◌>>◌, guard,
}
use swarm_intelligence_engin.Store.{Json, Store, changed, same_node}
use swarm_intelligence_engin.Store.Inserts.{
  same_objective, same_loop, insert_objective, insert_loop, insert_cycle, insert_node, insert_task,
}
use swarm_intelligence_engin.Tasks.{Context, optional_text}
use swarm_intelligence_engin.Commands.{
  CommandResult, CommandRejection, entity_not_found, validation_error, append_event,
  outcome_applied, reject, db, unless_done,
}
use swarm_intelligence_engin.Commands.Requests.{
  CreateObjectiveCommand, CreateLoopCommand, CreateCycleCommand, CreateNodeFromPlanCommand,
  CreateTaskFromNodeCommand, lane_text, lifecycle_text, task_status_text,
}

-- "<what> <id> not found".
abbrev pub not_found : String → String → CommandRejection
not_found what id = reject entity_not_found (append what (append " " (append id " not found")))

-- The message "<what> <id> created".
abbrev created : String → String → String
created what id = append what (append " " (append id " created"))

unfoldable pub execute_create_objective : Context → CreateObjectiveCommand → Store → CommandResult
execute_create_objective cx cmd s = do
  guard (not (is_blank cmd.summary)) (reject validation_error "summary must not be empty")
  guard (not (is_blank cmd.desired_outcome))
      (reject validation_error "desired_outcome must not be empty")
  unless_done cx "objective" cmd.idempotency_key
      "objective already created with this idempotency key" s
      (do
        let objective_id = cx.new_id 0
        s1 ← db (
            insert_objective
              (record {
                objective_id = objective_id;
                summary = cmd.summary;
                planning_status = "planning";
                plan_gate = "draft";
                created_at = cx.now;
                updated_at = cx.now;
              })
              s)
        (event_id, s2) ← db (
            append_event cx 1 "objective" objective_id "objective_created" cmd.idempotency_key
              (("objective_id", Json.text objective_id)
                ∷ ("summary", Json.text cmd.summary)
                ∷ ("desired_outcome", Json.text cmd.desired_outcome)
                ∷ ("source_conversation_id", optional_text cmd.source_conversation_id)
                ∷ [])
              s1)
        ok (outcome_applied cx event_id (created "objective" objective_id), s2))

unfoldable pub execute_create_loop : Context → CreateLoopCommand → Store → CommandResult
execute_create_loop cx cmd s =
    unless_done cx "loop" cmd.idempotency_key "loop already created with this idempotency key" s (do
      guard (any (same_objective cmd.objective_id) s.objectives)
          (not_found "objective" cmd.objective_id)
      let loop_id = cx.new_id 0
      s1 ← db (
          insert_loop
            (record {
              loop_id = loop_id;
              objective_id = cmd.objective_id;
              cycle_index = pos 0;
              active_track = cmd.initial_track;
              created_at = cx.now;
              updated_at = cx.now;
            })
            s)
      (event_id, s2) ← db (
          append_event cx 1 "loop" loop_id "loop_created" cmd.idempotency_key
            (("loop_id", Json.text loop_id)
              ∷ ("objective_id", Json.text cmd.objective_id)
              ∷ ("active_track", Json.text cmd.initial_track)
              ∷ ("trigger", Json.text "command")
              ∷ [])
            s1)
      ok (outcome_applied cx event_id (created "loop" loop_id), s2))

-- The columns that the INSERT INTO cycles of the executor names.
abbrev pub named_cycle_columns : List String
named_cycle_columns =
    "cycle_id" ∷ "loop_id" ∷ "cycle_index" ∷ "phase" ∷ "policy_snapshot_id" ∷ "created_at"
    ∷ "updated_at" ∷ []

unfoldable pub execute_create_cycle : Context → CreateCycleCommand → Store → CommandResult
execute_create_cycle cx cmd s =
    unless_done cx "cycle" cmd.idempotency_key "cycle already created with this idempotency key" s
      (do
        guard (any (same_loop cmd.loop_id) s.loops) (not_found "loop" cmd.loop_id)
        let cycle_id = cx.new_id 0
        s1 ← db (
            insert_cycle named_cycle_columns
              (record {
                cycle_id = cycle_id;
                loop_id = cmd.loop_id;
                phase = "intake";
                policy_snapshot = Json.null;
                created_at = cx.now;
                updated_at = cx.now;
              })
              s)
        let s2 = record s1 {
          loops =
              changed (same_loop cmd.loop_id)
                (λ l. record l { cycle_index = cmd.cycle_index; updated_at = cx.now }) s1.loops;
        }
        (event_id, s3) ← db (
            append_event cx 1 "cycle" cycle_id "cycle_created" cmd.idempotency_key
              (("cycle_id", Json.text cycle_id)
                ∷ ("loop_id", Json.text cmd.loop_id)
                ∷ ("cycle_index", Json.integer cmd.cycle_index)
                ∷ ("policy_snapshot_id", Json.text cmd.policy_snapshot_id)
                ∷ ("initial_phase", Json.text "intake")
                ∷ [])
              s2)
        ok (outcome_applied cx event_id (created "cycle" cycle_id), s3))

-- The key is made from the milestone; the command's own is not read.
abbrev pub bridge_key : String → String
bridge_key milestone_id = append "milestone-bridge-" milestone_id

unfoldable pub execute_create_node_from_plan :
    Context → CreateNodeFromPlanCommand → Store → CommandResult
execute_create_node_from_plan cx cmd s =
    unless_done cx "node" (bridge_key cmd.milestone_id) "node already bridged for this milestone" s
      (do
        guard (any (same_objective cmd.objective_id) s.objectives)
            (not_found "objective" cmd.objective_id)
        let node_id = cx.new_id 0
        s1 ← db (
            insert_node
              (record {
                node_id = node_id;
                objective_id = cmd.objective_id;
                title = cmd.title;
                statement =
                    append "[milestone:" (append cmd.milestone_id (append "] " cmd.statement));
                lane = lane_text cmd.initial_lane;
                lifecycle = lifecycle_text cmd.initial_lifecycle;
                certification_required = false;
                updated_at = cx.now;
              })
              s)
        (event_id, s2) ← db (
            append_event cx 1 "node" node_id "milestone_bridged" (bridge_key cmd.milestone_id)
              (("milestone_id", Json.text cmd.milestone_id)
                ∷ ("objective_id", Json.text cmd.objective_id)
                ∷ ("node_id", Json.text node_id)
                ∷ ("bridge", Json.text "CTL-004")
                ∷ [])
              s1)
        ok (
          outcome_applied cx event_id
              (append (created "node" node_id) (append " from milestone " cmd.milestone_id)),
          s2,
        ))

unfoldable pub execute_create_task_from_node :
    Context → CreateTaskFromNodeCommand → Store → CommandResult
execute_create_task_from_node cx cmd s =
    unless_done cx "task" cmd.idempotency_key "task already created with this idempotency key" s (do
      guard (any (same_node cmd.node_id) s.nodes) (not_found "node" cmd.node_id)
      let task_id = cx.new_id 0
      let status = task_status_text cmd.initial_status
      s1 ← db (
          insert_task
            (record {
              task_id = task_id;
              node_id = cmd.node_id;
              worker_role = cmd.worker_role;
              skill_pack_id = cmd.skill_pack_id;
              status = status;
              retry_budget = none;
              created_at = cx.now;
              updated_at = cx.now;
            })
            s)
      (event_id, s2) ← db (
          append_event cx 1 "task" task_id "task_created" cmd.idempotency_key
            (("task_id", Json.text task_id)
              ∷ ("node_id", Json.text cmd.node_id)
              ∷ ("worker_role", Json.text cmd.worker_role)
              ∷ ("skill_pack_id", Json.text cmd.skill_pack_id)
              ∷ ("status", Json.text status)
              ∷ ("trigger", Json.text "command")
              ∷ [])
            s1)
      ok (outcome_applied cx event_id (created "task" task_id), s2))
