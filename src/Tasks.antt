-- ===== src/Tasks.antt =====
-- services/orchestration-api/src/routes/task_lifecycle.rs: the endpoints by which workers report
-- on tasks. Here the tables of legal transitions, the requests and the responses.
pub mod Transactions
pub mod Unblocking
pub mod Service
pub mod Moves
pub mod Steps
pub mod Reports
pub mod Attempts
pub mod Legal
pub mod Histories
pub mod Waiting
pub mod Dependents
pub mod Failing
pub mod Effects
pub mod Answers
use swarm_intelligence_engin.Prelude.{
  ℕ, zero, suc, ◌+◌, Bool, true, false, not, ◌&&◌, ◌||◌, if◌then◌else◌, List, [], ◌∷◌, any, all,
  filter, find?, length, map, Option, none, some, String, str_eq, append, Result, ok, err, ◌>>=◌,
  ◌>>◌, guard, ok_or,
}
use swarm_intelligence_engin.Store.{
  Task, TaskAttempt, Node, NodeEdge, Json, ArtifactRef, Event, Store, ApiError, changed, one_of,
  same_task, same_node, set_task_status, set_node_lifecycle, finish_attempts, insert_artifact,
  insert_event,
}

unfoldable pub is_valid_task_transition : String → String → Bool
is_valid_task_transition from to =
    str_eq from "queued" && str_eq to "running"
    || (str_eq from "running" && str_eq to "succeeded"
        || (str_eq from "running" && str_eq to "failed"
            || (str_eq from "running" && str_eq to "cancelled"
                || (str_eq from "queued" && str_eq to "cancelled"
                    || str_eq from "failed" && str_eq to "queued"))))

unfoldable pub is_valid_attempt_transition : String → String → Bool
is_valid_attempt_transition from to =
    str_eq from "running" && str_eq to "succeeded"
    || (str_eq from "running" && str_eq to "failed"
        || str_eq from "running" && str_eq to "cancelled")

unfoldable pub node_lifecycle_for_task_status : String → String
node_lifecycle_for_task_status status =
    if str_eq status "succeeded"
    then "done"
    else if str_eq status "failed"
    then "failed"
    else if str_eq status "cancelled"
    then "cancelled"
    else if str_eq status "running"
    then "running"
    else if str_eq status "queued"
    then "queued"
    else "proposed"

pub record ArtifactEntry : Type 0 where
  pub artifact_kind : String
  pub artifact_uri : String
  pub metadata : String

pub record CompleteTaskRequest : Type 0 where
  pub output : Option String
  pub artifacts : List ArtifactEntry

pub record FailTaskRequest : Type 0 where
  pub error_message : Option String
  pub error_code : Option String

pub record PatchTaskRequest : Type 0 where
  pub status : String
  pub output : Option String
  pub artifacts : List ArtifactEntry

pub record CompleteAttemptRequest : Type 0 where
  pub status : String
  pub output : Option String
  pub artifacts : List ArtifactEntry

pub record TaskLifecycleResponse : Type 0 where
  pub task_id : String
  pub status : String
  pub previous_status : String
  pub node_id : String
  pub node_lifecycle : String
  pub artifacts_stored : ℕ

pub record AttemptLifecycleResponse : Type 0 where
  pub task_attempt_id : String
  pub task_id : String
  pub attempt_status : String
  pub previous_attempt_status : String
  pub task_status : String
  pub node_lifecycle : String
  pub artifacts_stored : ℕ

-- What a request takes from outside: the time of its transaction, and the identifiers that
-- `Uuid::now_v7()` gives it, in the order in which they are drawn.
pub record Context : Type 0 where
  pub now : ℕ
  pub new_id : ℕ → String

abbrev pub optional_text : Option String → Json
optional_text none = Json.null
optional_text (some t) = Json.text t

abbrev pub refused : String → String → String → ApiError
refused what from to = ApiError.bad_request (
    append "cannot transition "
      (append what (append " from '" (append from (append "' to '" (append to "'"))))))

-- The loop over the artifacts: the store and `artifacts_stored`.
unfoldable pub store_artifacts :
    Context → String → List ArtifactEntry → ℕ → Store → Result ApiError (Store × ℕ)
store_artifacts cx id [] stored s = ok (s, stored)
store_artifacts cx id (a ∷ rest) stored s = do
  s' ←
      insert_artifact
        (record {
          artifact_ref_id = cx.new_id stored;
          task_id = id;
          artifact_kind = a.artifact_kind;
          artifact_uri = a.artifact_uri;
          metadata = a.metadata;
        })
        s
  store_artifacts cx id rest (stored + 1) s'

abbrev pub running_attempt_of : String → TaskAttempt → Bool
running_attempt_of id a = str_eq a.task_id id && str_eq a.status "running"
