-- ===== src/Store/Queue.antt =====
-- packages/control-plane/src/executor.rs and services/loop-runner/src/tick.rs: the queue of tasks,
-- and the statements by which both dispatch a task.
use swarm_intelligence_engin.Prelude.{
  ℕ, ℤ, pos, next_i32, maxℤ, Bool, ◌&&◌, if◌then◌else◌, leb, List, [], ◌∷◌, filter, take, Option,
  none, some, String, str_eq, Result, ok, ◌>>=◌,
}
use swarm_intelligence_engin.Store.{
  Task, TaskAttempt, Node, Store, ApiError, update, one_of, same_task, same_node, status_allowed,
  lifecycle_allowed,
}

-- A row put into rows that are in the order of `created_at`.
unfoldable pub insert_by_age : Task → List Task → List Task
insert_by_age t [] = t ∷ []
insert_by_age t (u ∷ us) =
    let rest = insert_by_age t us in if leb t.created_at u.created_at then t ∷ u ∷ us else u ∷ rest

-- `ORDER BY t.created_at ASC`, with rows of the same age in the order of the table.
unfoldable pub order_by_age : List Task → List Task
order_by_age [] = []
order_by_age (t ∷ ts) = insert_by_age t (order_by_age ts)

abbrev pub is_queued : Task → Bool
is_queued t = str_eq t.status "queued"

-- The queued tasks among those selected, the oldest first, at most `limit`.
unfoldable pub queued_tasks : (Task → Bool) → ℕ → Store → List Task
queued_tasks selects limit s =
    take limit (order_by_age (filter (λ t. is_queued t && selects t) s.tasks))

abbrev pub is_queued_task : String → Task → Bool
is_queued_task id t = same_task id t && is_queued t

-- `UPDATE tasks SET status = 'running' ... WHERE task_id = $1 AND status = 'queued'`.
unfoldable pub start_queued : ℕ → String → Store → Result ApiError Store
start_queued now id s = do
  rows ←
      update (is_queued_task id) (λ t. record t { status = "running"; updated_at = now })
        (λ t. status_allowed t.status) s.tasks
  ok (record s { tasks = rows })

-- `MAX(attempt_index)` of the attempts of the task.
unfoldable pub max_attempt : String → List TaskAttempt → Option ℤ
max_attempt id [] = none
max_attempt id (a ∷ rows) =
    let rest = max_attempt id rows in
    if str_eq a.task_id id
    then some (elim rest [ none ↦ a.attempt_index | some m ↦ maxℤ a.attempt_index m ])
    else rest

-- `max_attempt.map_or(1, |m| m + 1)`.
unfoldable pub next_attempt_index : String → Store → ℤ
next_attempt_index id s = elim (max_attempt id s.task_attempts) [
  | none ↦ pos 1
  | some m ↦ next_i32 m
]

-- The attempt that is opened for a dispatched task.
abbrev pub opened : ℕ → String → String → ℤ → TaskAttempt
opened now attempt_id id index = record {
  task_attempt_id = attempt_id;
  task_id = id;
  attempt_index = index;
  lease_owner = some "loop-runner";
  status = "running";
  started_at = some now;
  finished_at = none;
}

abbrev pub is_startable_node : String → Node → Bool
is_startable_node id n = same_node id n && one_of ("proposed" ∷ "queued" ∷ []) n.lifecycle

-- `UPDATE nodes SET lifecycle = 'running' ... AND lifecycle IN ('proposed', 'queued')`.
unfoldable pub start_node : ℕ → String → Store → Result ApiError Store
start_node now id s = do
  rows ←
      update (is_startable_node id) (λ n. record n { lifecycle = "running"; updated_at = now })
        (λ n. lifecycle_allowed n.lifecycle) s.nodes
  ok (record s { nodes = rows })
