-- ===== src/LoopRunner/Dispatching.antt =====
-- services/loop-runner/src/tick.rs: the sweep that dispatches the queued tasks, and moves the
-- cycles whose tasks are all dispatched to execution.
use swarm_intelligence_engin.Prelude.{
  ℕ, ◌+◌, ◌==◌, Bool, true, ◌&&◌, if◌then◌else◌, List, [], ◌∷◌, any, filter, length, String, str_eq,
  append, ok, ◌>>=◌,
}
use swarm_intelligence_engin.Store.{Task, Json, Store, same_node, insert_event}
use swarm_intelligence_engin.Store.Inserts.{insert_attempt}
use swarm_intelligence_engin.Store.Queue.{
  queued_tasks, is_queued, is_queued_task, start_queued, next_attempt_index, opened, start_node,
}
use swarm_intelligence_engin.Tasks.{Context}
use swarm_intelligence_engin.Commands.{event_for}
use swarm_intelligence_engin.LoopRunner.{
  Swept, Transacted, in_transaction, CycleRow, sweep, then_sweep, unless_recorded, rows_in_phase,
  advance_cycle_phase,
}

abbrev pub dispatch_key : String → String
dispatch_key task_id = append "dispatch-" task_id

-- The statements that dispatch a task.
unfoldable pub start_dispatch : Context → ℕ → Task → Store → Transacted
start_dispatch cx drawn t s = do
  s1 ← start_queued cx.now t.task_id s
  let attempt_index = next_attempt_index t.task_id s1
  s2 ← insert_attempt (opened cx.now (cx.new_id drawn) t.task_id attempt_index) s1
  s3 ← start_node cx.now t.node_id s2
  s4 ←
      insert_event
        (event_for cx (drawn + 1) "task" t.task_id "task_status_changed" (dispatch_key t.task_id) (
          ("task_id", Json.text t.task_id)
          ∷ ("node_id", Json.text t.node_id)
          ∷ ("attempt_id", Json.text (cx.new_id drawn))
          ∷ ("attempt_index", Json.integer attempt_index)
          ∷ ("worker_role", Json.text t.worker_role)
          ∷ ("status", Json.text "running")
          ∷ ("trigger", Json.text "auto_dispatch")
          ∷ []))
        s3
  ok (1, s4)

-- The transaction for a task that the SELECT has found.
unfoldable pub dispatch_queued_task : Context → ℕ → Task → Store → Swept
dispatch_queued_task cx drawn t s = in_transaction s (
    unless_recorded "task" (dispatch_key t.task_id) s
      (if any (is_queued_task t.task_id) s.tasks then start_dispatch cx drawn t s else ok (0, s)))

-- The ten oldest queued tasks.
abbrev pub batch : Store → List Task
batch s = queued_tasks (λ t. true) 10 s

unfoldable pub dispatch_queued_tasks : Context → Store → Swept
dispatch_queued_tasks cx s = sweep 2 (dispatch_queued_task cx) (batch s) 0 0 s

-- `tasks t JOIN nodes n ON n.node_id = t.node_id WHERE n.objective_id = $1`; the primary key of the
-- nodes lets a task join one.
abbrev pub is_task_for : Store → String → Task → Bool
is_task_for s objective_id t =
    any (λ n. same_node t.node_id n && str_eq n.objective_id objective_id) s.nodes

-- `SELECT COUNT(*)` over the join, with a further condition on the task.
abbrev pub count_tasks : (Task → Bool) → Store → String → ℕ
count_tasks selects s objective_id =
    length (filter (λ t. is_task_for s objective_id t && selects t) s.tasks)

unfoldable pub start_execution : Context → ℕ → CycleRow → Store → Swept
start_execution cx drawn c s =
    if count_tasks is_queued s c.objective_id == 0
    then advance_cycle_phase cx drawn c.cycle_id c.loop_id "dispatch" "execution"
        "all_tasks_dispatched" s
    else (ok 0, s)

-- The second loop draws its identifiers after those of the first, whose batch has at most ten tasks.
unfoldable pub dispatch_phase : Context → Store → Swept
dispatch_phase cx s =
    then_sweep (dispatch_queued_tasks cx s)
      λ s1. sweep 2 (start_execution cx) (rows_in_phase "dispatch" s1.loops s1.cycles) 20 0 s1
