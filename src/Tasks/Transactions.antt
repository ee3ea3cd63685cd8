-- ===== src/Tasks/Transactions.antt =====
-- services/orchestration-api/src/routes/task_lifecycle.rs: the transactions of the four handlers,
-- each statement in its order; a failure of any of them rolls the transaction back.
use swarm_intelligence_engin.Prelude.{
  Bool, ◌||◌, if◌then◌else◌, not, ◌∷◌, [], find?, String, str_eq, append, Result, ok, ◌>>=◌, ◌>>◌,
  guard, ok_or,
}
use swarm_intelligence_engin.Store.{
  TaskAttempt, Json, Store, ApiError, same_task, set_task_status, set_node_lifecycle,
  finish_attempts, insert_event,
}
use swarm_intelligence_engin.Tasks.{
  is_valid_task_transition, is_valid_attempt_transition, node_lifecycle_for_task_status,
  CompleteTaskRequest, FailTaskRequest, PatchTaskRequest, CompleteAttemptRequest,
  TaskLifecycleResponse, AttemptLifecycleResponse, Context, optional_text, refused, store_artifacts,
  running_attempt_of,
}

-- The transaction of `complete_task`.
unfoldable pub complete_task_tx :
    Context → String → CompleteTaskRequest → Store → Result ApiError (TaskLifecycleResponse × Store)
complete_task_tx cx id req s = do
  t ← ok_or (find? (same_task id) s.tasks) (ApiError.not_found "task not found")
  guard (is_valid_task_transition t.status "succeeded") (refused "task" t.status "succeeded")
  s1 ← set_task_status cx.now "succeeded" id s
  s2 ← set_node_lifecycle cx.now (node_lifecycle_for_task_status "succeeded") t.node_id s1
  s3 ← finish_attempts cx.now "succeeded" (running_attempt_of id) s2
  (s4, stored) ← store_artifacts cx id req.artifacts 0 s3
  s5 ←
      insert_event
        (record {
          event_id = cx.new_id stored;
          aggregate_kind = "task";
          aggregate_id = id;
          event_kind = "task_completed";
          idempotency_key = append "task-complete-" id;
          payload =
              ("task_id", Json.text id)
              ∷ ("node_id", Json.text t.node_id)
              ∷ ("from_status", Json.text t.status)
              ∷ ("to_status", Json.text "succeeded")
              ∷ ("output", optional_text req.output)
              ∷ ("artifacts_stored", Json.count stored)
              ∷ ("trigger", Json.text "api_complete")
              ∷ [];
          created_at = cx.now;
        })
        s4
  ok (
    record {
      task_id = id;
      status = "succeeded";
      previous_status = t.status;
      node_id = t.node_id;
      node_lifecycle = node_lifecycle_for_task_status "succeeded";
      artifacts_stored = stored;
    },
    s5,
  )

-- The transaction of `fail_task`, which is the whole handler.
unfoldable pub fail_task_tx :
    Context → String → FailTaskRequest → Store → Result ApiError (TaskLifecycleResponse × Store)
fail_task_tx cx id req s = do
  t ← ok_or (find? (same_task id) s.tasks) (ApiError.not_found "task not found")
  guard (is_valid_task_transition t.status "failed") (refused "task" t.status "failed")
  s1 ← set_task_status cx.now "failed" id s
  s2 ← set_node_lifecycle cx.now (node_lifecycle_for_task_status "failed") t.node_id s1
  s3 ← finish_attempts cx.now "failed" (running_attempt_of id) s2
  s4 ←
      insert_event
        (record {
          event_id = cx.new_id 0;
          aggregate_kind = "task";
          aggregate_id = id;
          event_kind = "task_failed";
          idempotency_key = append "task-fail-" id;
          payload =
              ("task_id", Json.text id)
              ∷ ("node_id", Json.text t.node_id)
              ∷ ("from_status", Json.text t.status)
              ∷ ("to_status", Json.text "failed")
              ∷ ("error_message", optional_text req.error_message)
              ∷ ("error_code", optional_text req.error_code)
              ∷ ("trigger", Json.text "api_fail")
              ∷ [];
          created_at = cx.now;
        })
        s3
  ok (
    record {
      task_id = id;
      status = "failed";
      previous_status = t.status;
      node_id = t.node_id;
      node_lifecycle = node_lifecycle_for_task_status "failed";
      artifacts_stored = 0;
    },
    s4,
  )

abbrev pub is_terminal : String → Bool
is_terminal status =
    str_eq status "succeeded" || (str_eq status "failed" || str_eq status "cancelled")

-- The transaction of `patch_task`.
unfoldable pub patch_task_tx :
    Context → String → PatchTaskRequest → Store → Result ApiError (TaskLifecycleResponse × Store)
patch_task_tx cx id req s = do
  t ← ok_or (find? (same_task id) s.tasks) (ApiError.not_found "task not found")
  guard (is_valid_task_transition t.status req.status) (refused "task" t.status req.status)
  s1 ← set_task_status cx.now req.status id s
  s2 ← set_node_lifecycle cx.now (node_lifecycle_for_task_status req.status) t.node_id s1
  s3 ←
      if is_terminal req.status
      then finish_attempts cx.now req.status (running_attempt_of id) s2
      else ok s2
  (s4, stored) ← store_artifacts cx id req.artifacts 0 s3
  s5 ←
      insert_event
        (record {
          event_id = cx.new_id stored;
          aggregate_kind = "task";
          aggregate_id = id;
          event_kind = "task_status_changed";
          idempotency_key = append "task-patch-" (append id (append "-" req.status));
          payload =
              ("task_id", Json.text id)
              ∷ ("node_id", Json.text t.node_id)
              ∷ ("from_status", Json.text t.status)
              ∷ ("to_status", Json.text req.status)
              ∷ ("output", optional_text req.output)
              ∷ ("artifacts_stored", Json.count stored)
              ∷ ("trigger", Json.text "api_patch")
              ∷ [];
          created_at = cx.now;
        })
        s4
  ok (
    record {
      task_id = id;
      status = req.status;
      previous_status = t.status;
      node_id = t.node_id;
      node_lifecycle = node_lifecycle_for_task_status req.status;
      artifacts_stored = stored;
    },
    s5,
  )

abbrev pub same_attempt : String → TaskAttempt → Bool
same_attempt id a = str_eq a.task_attempt_id id

-- The status that a finished attempt gives its task.
abbrev pub propagated : String → String → String
propagated attempt_status task_status =
    if str_eq task_status "running" then attempt_status else task_status

-- The transaction of `complete_attempt`; with the response comes the node whose dependents are to
-- be unblocked.
unfoldable pub complete_attempt_tx :
    Context
    → String
    → CompleteAttemptRequest
    → Store
    → Result ApiError (AttemptLifecycleResponse × (String × Store))
complete_attempt_tx cx id req s = do
  a ← ok_or (find? (same_attempt id) s.task_attempts) (ApiError.not_found "task attempt not found")
  guard (is_valid_attempt_transition a.status req.status) (refused "attempt" a.status req.status)
  s1 ← finish_attempts cx.now req.status (same_attempt id) s
  t ← ok_or (find? (same_task a.task_id) s1.tasks) ApiError.internal_error
  let new_task_status = propagated req.status t.status
  s3 ←
      if not (str_eq new_task_status t.status)
      then (do
        s2 ← set_task_status cx.now new_task_status a.task_id s1
        set_node_lifecycle cx.now (node_lifecycle_for_task_status new_task_status) t.node_id s2)
      else ok s1
  (s4, stored) ← store_artifacts cx a.task_id req.artifacts 0 s3
  s5 ←
      insert_event
        (record {
          event_id = cx.new_id stored;
          aggregate_kind = "task_attempt";
          aggregate_id = id;
          event_kind = "task_attempt_completed";
          idempotency_key = append "attempt-complete-" id;
          payload =
              ("task_attempt_id", Json.text id)
              ∷ ("task_id", Json.text a.task_id)
              ∷ ("node_id", Json.text t.node_id)
              ∷ ("from_attempt_status", Json.text a.status)
              ∷ ("to_attempt_status", Json.text req.status)
              ∷ ("task_status", Json.text new_task_status)
              ∷ ("output", optional_text req.output)
              ∷ ("artifacts_stored", Json.count stored)
              ∷ ("trigger", Json.text "api_attempt_complete")
              ∷ [];
          created_at = cx.now;
        })
        s4
  ok (
    record {
      task_attempt_id = id;
      task_id = a.task_id;
      attempt_status = req.status;
      previous_attempt_status = a.status;
      task_status = new_task_status;
      node_lifecycle = node_lifecycle_for_task_status new_task_status;
      artifacts_stored = stored;
    },
    (t.node_id, s5),
  )
