-- ===== src/Commands/Reports.antt =====
-- packages/control-plane/src/executor.rs: the commands that record the completion, the failure, the
-- timeout and the retry of a task (CTL-010 to CTL-013).
use swarm_intelligence_engin.Prelude.{
  ℕ, pos, leℤ, length, Bool, true, ◌||◌, not, if◌then◌else◌, [], ◌∷◌, find?, filter, none, some,
  String, append, str_eq, display_i32, ok, ◌>>=◌, ◌>>◌, guard, ok_or,
}
use swarm_intelligence_engin.Store.{
  Task, TaskAttempt, Json, Store, same_task, set_task_status, set_node_lifecycle, finish_attempts,
}
use swarm_intelligence_engin.Tasks.{Context, optional_text, running_attempt_of}
use swarm_intelligence_engin.Commands.{
  CommandResult, illegal_transition, precondition_failed, append_event, outcome_applied, reject, db,
  unless_done,
}
use swarm_intelligence_engin.Commands.Requests.{
  TaskCompletionCommand, FailureIngestionCommand, TimeoutIngestionCommand, RetrySchedulingCommand,
  task_status_text, failure_kind_text,
}
use swarm_intelligence_engin.Commands.Creation.{not_found}

abbrev pub is_settled : String → Bool
is_settled status =
    str_eq status "succeeded" || (str_eq status "failed" || str_eq status "cancelled")

abbrev pub lifecycle_after : String → String
lifecycle_after final_status = if str_eq final_status "succeeded" then "completed" else "failed"

abbrev pub is_attempt_of : String → TaskAttempt → Bool
is_attempt_of id a = str_eq a.task_id id

abbrev join : String → String → String → String
join a b c = append a (append b c)

unfoldable pub execute_task_completion : Context → TaskCompletionCommand → Store → CommandResult
execute_task_completion cx cmd s =
    unless_done cx "task" cmd.idempotency_key "task completion already recorded" s (do
      t ← ok_or (find? (same_task cmd.task_id) s.tasks) (not_found "task" cmd.task_id)
      guard (not (is_settled t.status)) (
          reject illegal_transition
            (join (join "task " cmd.task_id " is already terminal (") t.status ")"))
      let final_status = task_status_text cmd.final_status
      s1 ← db (set_task_status cx.now final_status cmd.task_id s)
      s2 ← db (finish_attempts cx.now final_status (running_attempt_of cmd.task_id) s1)
      s3 ← db (set_node_lifecycle cx.now (lifecycle_after final_status) t.node_id s2)
      (event_id, s4) ← db (
          append_event cx 0 "task" cmd.task_id "task_completed" cmd.idempotency_key
            (("task_id", Json.text cmd.task_id)
              ∷ ("node_id", Json.text t.node_id)
              ∷ ("final_status", Json.text final_status)
              ∷ ("worker_id", Json.text cmd.worker_id)
              ∷ ("artifact_ref", optional_text cmd.artifact_ref)
              ∷ ("completed_at", Json.rfc3339 cmd.completed_at)
              ∷ [])
            s3)
      ok (
        outcome_applied cx event_id
            (join (join "task " cmd.task_id " completed as ") final_status ""),
        s4,
      ))

unfoldable pub execute_failure_ingestion : Context → FailureIngestionCommand → Store → CommandResult
execute_failure_ingestion cx cmd s =
    unless_done cx "task" cmd.idempotency_key "failure already recorded" s (do
      t ← ok_or (find? (same_task cmd.task_id) s.tasks) (not_found "task" cmd.task_id)
      s1 ← db (set_task_status cx.now "failed" cmd.task_id s)
      s2 ← db (finish_attempts cx.now "failed" (running_attempt_of cmd.task_id) s1)
      s3 ← db (set_node_lifecycle cx.now "failed" t.node_id s2)
      (event_id, s4) ← db (
          append_event cx 0 "task" cmd.task_id "task_failed" cmd.idempotency_key
            (("task_id", Json.text cmd.task_id)
              ∷ ("node_id", Json.text t.node_id)
              ∷ ("worker_id", Json.text cmd.worker_id)
              ∷ ("failure_kind", Json.text (failure_kind_text cmd.failure_kind))
              ∷ ("error_message", Json.text cmd.error_message)
              ∷ ("attempt_number", Json.count cmd.attempt_number)
              ∷ ("failed_at", Json.rfc3339 cmd.failed_at)
              ∷ [])
            s3)
      ok (outcome_applied cx event_id (join "task " cmd.task_id " failure recorded"), s4))

unfoldable pub execute_timeout_ingestion : Context → TimeoutIngestionCommand → Store → CommandResult
execute_timeout_ingestion cx cmd s =
    unless_done cx "task" cmd.idempotency_key "timeout already recorded" s (do
      t ← ok_or (find? (same_task cmd.task_id) s.tasks) (not_found "task" cmd.task_id)
      guard (str_eq t.status "running") (
          reject illegal_transition
            (join (join "task " cmd.task_id " is ") t.status " (expected running for timeout)"))
      s1 ← db (set_task_status cx.now "failed" cmd.task_id s)
      s2 ← db (finish_attempts cx.now "timed_out" (running_attempt_of cmd.task_id) s1)
      (event_id, s3) ← db (
          append_event cx 0 "task" cmd.task_id "task_timed_out" cmd.idempotency_key
            (("task_id", Json.text cmd.task_id)
              ∷ ("node_id", Json.text t.node_id)
              ∷ ("worker_id", Json.text cmd.worker_id)
              ∷ ("elapsed_seconds", Json.count cmd.elapsed_seconds)
              ∷ ("timeout_threshold_seconds", Json.count cmd.timeout_threshold_seconds)
              ∷ ("attempt_number", Json.count cmd.attempt_number)
              ∷ ("timed_out_at", Json.rfc3339 cmd.timed_out_at)
              ∷ [])
            s2)
      ok (outcome_applied cx event_id (join "task " cmd.task_id " timeout recorded"), s3))

-- `SELECT COUNT(*) FROM task_attempts WHERE task_id = $1`.
abbrev pub attempt_count : String → Store → ℕ
attempt_count id s = length (filter (is_attempt_of id) s.task_attempts)

-- The budget, if there is one, is above the number of attempts.
unfoldable pub within_budget : Task → Store → Bool
within_budget t s = elim t.retry_budget [
  | none ↦ true
  | some budget ↦ not (leℤ budget (pos (attempt_count t.task_id s)))
]

abbrev budget_text : Task → Store → String
budget_text t s = elim t.retry_budget [
  | none ↦ ""
  | some budget ↦ join (display_i32 (pos (attempt_count t.task_id s))) "/" (display_i32 budget)
]

unfoldable pub execute_retry_scheduling : Context → RetrySchedulingCommand → Store → CommandResult
execute_retry_scheduling cx cmd s =
    unless_done cx "task" cmd.idempotency_key "retry already scheduled" s (do
      t ← ok_or (find? (same_task cmd.task_id) s.tasks) (not_found "task" cmd.task_id)
      guard (str_eq t.status "failed") (
          reject illegal_transition
            (join (join "task " cmd.task_id " is ") t.status " (expected failed for retry)"))
      guard (within_budget t s) (
          reject precondition_failed
            (join (join "task " cmd.task_id " retry budget exhausted (") (budget_text t s) ")"))
      s1 ← db (set_task_status cx.now "queued" cmd.task_id s)
      s2 ← db (set_node_lifecycle cx.now "queued" t.node_id s1)
      (event_id, s3) ← db (
          append_event cx 0 "task" cmd.task_id "task_retry_scheduled" cmd.idempotency_key
            (("task_id", Json.text cmd.task_id)
              ∷ ("node_id", Json.text t.node_id)
              ∷ ("next_attempt_number", Json.count cmd.next_attempt_number)
              ∷ ("delay_ms", Json.count cmd.delay_ms)
              ∷ ("reason", Json.text cmd.reason)
              ∷ ("reassign_worker", Json.flag cmd.reassign_worker)
              ∷ [])
            s2)
      ok (
        outcome_applied cx event_id (
            join (join "task " cmd.task_id " retry scheduled (attempt ")
              (display_i32 (pos cmd.next_attempt_number)) ")"),
        s3,
      ))
