-- ===== src/Tasks/Service.antt =====
-- services/orchestration-api/src/routes/task_lifecycle.rs: the whole handlers, and the requests that
-- the service answers one after the other.
use swarm_intelligence_engin.Prelude.{if◌then◌else◌, List, [], ◌∷◌, String, str_eq, Result, ok, err}
use swarm_intelligence_engin.Store.{Store, ApiError}
use swarm_intelligence_engin.Tasks.{
  CompleteTaskRequest, FailTaskRequest, PatchTaskRequest, CompleteAttemptRequest,
  TaskLifecycleResponse, AttemptLifecycleResponse, Context,
}
use swarm_intelligence_engin.Tasks.Transactions.{
  complete_task_tx, fail_task_tx, patch_task_tx, complete_attempt_tx,
}
use swarm_intelligence_engin.Tasks.Unblocking.{unblock_dependent_tasks}

-- The unblocking, when the task has succeeded. Its time is the one of the request.
abbrev pub after_success : Context → String → String → Store → Store
after_success cx status node s =
    if str_eq status "succeeded" then unblock_dependent_tasks cx.now node s else s

-- The response of a handler, and the store it leaves.
abbrev pub answered :
    (TaskLifecycleResponse → Store → Store)
    → Store
    → Result ApiError (TaskLifecycleResponse × Store)
    → Result ApiError TaskLifecycleResponse × Store
answered after s (ok (r, s')) = (ok r, after r s')
answered after s (err e) = (err e, s)

unfoldable pub complete_task :
    Context → String → CompleteTaskRequest → Store → Result ApiError TaskLifecycleResponse × Store
complete_task cx id req s =
    answered (λ r. unblock_dependent_tasks cx.now r.node_id) s (complete_task_tx cx id req s)

unfoldable pub fail_task :
    Context → String → FailTaskRequest → Store → Result ApiError TaskLifecycleResponse × Store
fail_task cx id req s = answered (λ r s'. s') s (fail_task_tx cx id req s)

unfoldable pub patch_task :
    Context → String → PatchTaskRequest → Store → Result ApiError TaskLifecycleResponse × Store
patch_task cx id req s =
    answered (λ r. after_success cx r.status r.node_id) s (patch_task_tx cx id req s)

abbrev pub attempt_answered :
    Context
    → Store
    → Result ApiError (AttemptLifecycleResponse × (String × Store))
    → Result ApiError AttemptLifecycleResponse × Store
attempt_answered cx s (ok (r, (node, s'))) = (ok r, after_success cx r.task_status node s')
attempt_answered cx s (err e) = (err e, s)

unfoldable pub complete_attempt :
    Context
    → String
    → CompleteAttemptRequest
    → Store
    → Result ApiError AttemptLifecycleResponse × Store
complete_attempt cx id req s = attempt_answered cx s (complete_attempt_tx cx id req s)

pub data Request : Type 0 where
  complete : String → CompleteTaskRequest → Request
  fail : String → FailTaskRequest → Request
  patch : String → PatchTaskRequest → Request
  finish_attempt : String → CompleteAttemptRequest → Request

-- The store after a request.
unfoldable pub serve : Context → Request → Store → Store
serve cx (complete id req) s = (complete_task cx id req s).1
serve cx (fail id req) s = (fail_task cx id req s).1
serve cx (patch id req) s = (patch_task cx id req s).1
serve cx (finish_attempt id req) s = (complete_attempt cx id req s).1

unfoldable pub serve_all : List (Context × Request) → Store → Store
serve_all [] s = s
serve_all ((cx, r) ∷ rest) s = serve_all rest (serve cx r s)
