-- ===== src/Commands/Dispatch.antt =====
-- packages/control-plane/src/executor.rs: the command that runs a dispatch round (CTL-006).
use swarm_intelligence_engin.Prelude.{
  ℕ, ◌+◌, ltb, pos, Bool, true, false, ◌&&◌, any, if◌then◌else◌, List, [], ◌∷◌, ◌++◌, Option, none,
  some, String, append, str_eq, display_i32, Result, ok, ◌>>=◌,
}
use swarm_intelligence_engin.Store.{Task, Node, Json, Store, Cycle, Loop, same_node}
use swarm_intelligence_engin.Store.Inserts.{same_cycle, insert_attempt}
use swarm_intelligence_engin.Store.Queue.{
  queued_tasks, is_queued_task, start_queued, next_attempt_index, opened, start_node,
}
use swarm_intelligence_engin.Tasks.{Context, optional_text}
use swarm_intelligence_engin.Commands.{
  CommandRejection, CommandResult, append_event, db, unless_done,
}
use swarm_intelligence_engin.Commands.Requests.{DispatchSchedulerCommand}

abbrev is_cycle_of : String → Loop → Cycle → Bool
is_cycle_of cycle_id l c = same_cycle cycle_id c && str_eq c.loop_id l.loop_id

abbrev is_loop_of : Store → String → Node → Loop → Bool
is_loop_of s cycle_id n l =
    str_eq l.objective_id n.objective_id && any (is_cycle_of cycle_id l) s.cycles

-- The joins of the scoped SELECT: the cycle belongs to a loop of the objective of the task's node.
-- The cycle has one loop, so no task is selected twice.
unfoldable pub is_in_cycle : Store → Option String → Task → Bool
is_in_cycle s none t = true
is_in_cycle s (some cycle_id) t =
    any (λ n. same_node t.node_id n && any (is_loop_of s cycle_id n) s.loops) s.nodes

-- What the loop of the round has gathered: `drawn` counts the identifiers drawn.
pub record Round : Type 0 where
  pub dispatched_count : ℕ
  pub event_ids : List String
  pub drawn : ℕ

-- The body of the loop, for a task that the UPDATE has found.
unfoldable pub dispatch_task :
    Context → Task → Round → Store → Result CommandRejection (Round × Store)
dispatch_task cx t r s = do
  s1 ← db (start_queued cx.now t.task_id s)
  let attempt_index = next_attempt_index t.task_id s1
  let attempt_id = cx.new_id r.drawn
  s2 ← db (insert_attempt (opened cx.now attempt_id t.task_id attempt_index) s1)
  s3 ← db (start_node cx.now t.node_id s2)
  (event_id, s4) ← db (
      append_event cx (r.drawn + 1) "task" t.task_id "task_status_changed"
        (append "dispatch-" t.task_id)
        (("task_id", Json.text t.task_id)
          ∷ ("node_id", Json.text t.node_id)
          ∷ ("attempt_id", Json.text attempt_id)
          ∷ ("attempt_index", Json.integer attempt_index)
          ∷ ("worker_role", Json.text t.worker_role)
          ∷ ("status", Json.text "running")
          ∷ ("trigger", Json.text "command_dispatch")
          ∷ [])
        s3)
  ok (
    record {
      dispatched_count = r.dispatched_count + 1;
      event_ids = r.event_ids ++ (event_id ∷ []);
      drawn = r.drawn + 2;
    },
    s4,
  )

-- A task that the UPDATE does not find is passed over: `rows_affected() == 0`.
unfoldable pub dispatch_row :
    Context → Task → Round → Store → Result CommandRejection (Round × Store)
dispatch_row cx t r s =
    if any (is_queued_task t.task_id) s.tasks then dispatch_task cx t r s else ok (r, s)

unfoldable pub dispatch_rows :
    Context → List Task → Round → Store → Result CommandRejection (Round × Store)
dispatch_rows cx [] r s = ok (r, s)
dispatch_rows cx (t ∷ ts) r s = do (r', s') ← dispatch_row cx t r s; dispatch_rows cx ts r' s'

unfoldable pub execute_dispatch_scheduler :
    Context → DispatchSchedulerCommand → Store → CommandResult
execute_dispatch_scheduler cx cmd s =
    unless_done cx "dispatch" cmd.idempotency_key
      "dispatch round already executed with this idempotency key" s
      (do
        let start : Round = record { dispatched_count = 0; event_ids = []; drawn = 0 }
        (r, s1) ←
            dispatch_rows cx (queued_tasks (is_in_cycle s cmd.cycle_id) cmd.max_dispatches s) start
              s
        (event_id, s2) ← db (
            append_event cx (r.drawn + 1) "dispatch" (cx.new_id r.drawn) "dispatch_round_completed"
              cmd.idempotency_key
              (("dispatched_count", Json.count r.dispatched_count)
                ∷ ("cycle_id", optional_text cmd.cycle_id)
                ∷ ("max_dispatches", Json.count cmd.max_dispatches)
                ∷ [])
              s1)
        ok (
          record {
            applied = ltb 0 r.dispatched_count;
            idempotent_skip = false;
            message = append (display_i32 (pos r.dispatched_count)) " tasks dispatched";
            event_ids = r.event_ids ++ (event_id ∷ []);
            executed_at = cx.now;
          },
          s2,
        ))
