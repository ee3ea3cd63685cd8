-- ===== src/Examples/TaskRuns.antt =====
-- Concrete requests to services/orchestration-api/src/routes/task_lifecycle.rs.
use swarm_intelligence_engin.Prelude.{
  Result, ℕ, pos, zero, suc, ◌≡◌, ◌<◌, refl, ap, Option, ◌⊎◌, inl, inr, true, false, Bool-cases,
  if◌then◌else◌, List, [], ◌∷◌, length, any, find?, none, some, String, str_eq, eq_iff, codes, ok,
  err, ◌>>=◌, arith,
}
use swarm_intelligence_engin.Store.{
  Task, TaskAttempt, Node, NodeEdge, Store, internal_error, ApiError, same_task, set_task_status,
  set_node_lifecycle, finish_attempts, update, insert_artifact, insert_event, event_kind_allowed,
}
use swarm_intelligence_engin.Store.Lookup.{status_of, given}
use swarm_intelligence_engin.Tasks.{
  ArtifactEntry, CompleteTaskRequest, FailTaskRequest, PatchTaskRequest, CompleteAttemptRequest,
  AttemptLifecycleResponse, is_valid_attempt_transition, TaskLifecycleResponse, Context,
  is_valid_task_transition, node_lifecycle_for_task_status, store_artifacts,
}
use swarm_intelligence_engin.Tasks.Transactions.{complete_task_tx, complete_attempt_tx}
use swarm_intelligence_engin.Tasks.Attempts.{IsAttemptReported, complete_attempt_tx-ok}
use swarm_intelligence_engin.Tasks.Unblocking.{is_unblocked, start_tasks, unblock_dependent_tasks}
use swarm_intelligence_engin.Tasks.Service.{
  complete_task, fail_task, patch_task, Request, complete, patch, serve_all,
}
use swarm_intelligence_engin.Tasks.Histories.{IsLegalHistory, serve_all-IsLegalHistory}
use swarm_intelligence_engin.Tasks.Effects.{IsCompleted, complete_task-IsCompleted, serve_all-final}
use swarm_intelligence_engin.Tasks.Answers.{IsFresh, complete_task-succeeds}
use swarm_intelligence_engin.Tasks.Waiting.{start_tasks-status}
use swarm_intelligence_engin.Tasks.Dependents.{IsFree, unblock_dependent_tasks-IsFree}
use swarm_intelligence_engin.Tasks.Failing.{
  failure_answer, fail_task-always_fails, patch_answer, patch_task-never_settles,
}

-- Identifiers that are all different.
unfoldable pub nth_id : ℕ → String
nth_id zero = String.◌∷◌ "x" String.[]
nth_id (suc n) = String.◌∷◌ "x" (nth_id n)

length-nth_id : (n : ℕ) → length (codes (nth_id n)) ≡ suc n
unfolding nth_id
length-nth_id zero = refl
length-nth_id (suc n) = ap suc (length-nth_id n)

pub nth_id-distinct : (i j : ℕ) → i < j → str_eq (nth_id i) (nth_id j) ≡ false
nth_id-distinct i j h = elim (Bool-cases (str_eq (nth_id i) (nth_id j))) [
  | inl e ↦
      let same = ap (λ x. length (codes x)) ((eq_iff (nth_id i) (nth_id j)).0 e) in
      absurd (omega (arith, same, length-nth_id i, length-nth_id j))
  | inr n ↦ n
]

abbrev pub context : Context
context = record { now = 7; new_id = nth_id }

abbrev pub build : Task
build = record {
  task_id = "build";
  node_id = "n1";
  worker_role = "implementer";
  skill_pack_id = "rust";
  status = "running";
  retry_budget = some (pos 3);
  created_at = 1;
  updated_at = 1;
}

abbrev pub test_run : Task
test_run = record {
  task_id = "test";
  node_id = "n2";
  worker_role = "implementer";
  skill_pack_id = "rust";
  status = "queued";
  retry_budget = none;
  created_at = 2;
  updated_at = 2;
}

abbrev pub attempt : TaskAttempt
attempt = record {
  task_attempt_id = "a1";
  task_id = "build";
  attempt_index = pos 1;
  lease_owner = some "loop-runner";
  status = "running";
  started_at = some 1;
  finished_at = none;
}

abbrev pub node_1 : Node
node_1 = record {
  node_id = "n1";
  objective_id = "o1";
  title = "n1";
  statement = "";
  lane = "branch";
  lifecycle = "running";
  certification_required = false;
  updated_at = 1;
}

abbrev pub node_2 : Node
node_2 = record {
  node_id = "n2";
  objective_id = "o1";
  title = "n2";
  statement = "";
  lane = "branch";
  lifecycle = "queued";
  certification_required = false;
  updated_at = 1;
}

abbrev edge : NodeEdge
edge = record { edge_id = "e1"; from_node_id = "n1"; to_node_id = "n2"; edge_kind = "depends_on" }

abbrev pub store : Store
store = record {
  objectives = [];
  loops = [];
  cycles = [];
  tasks = build ∷ test_run ∷ [];
  task_attempts = attempt ∷ [];
  nodes = node_1 ∷ node_2 ∷ [];
  node_edges = edge ∷ [];
  artifact_refs = [];
  certification_candidates = [];
  certification_submissions = [];
  event_journal = [];
}

abbrev binary : ArtifactEntry
binary = record { artifact_kind = "code"; artifact_uri = "file:out"; metadata = "{}" }

abbrev built : CompleteTaskRequest
built = record { output = some "ok"; artifacts = binary ∷ [] }

abbrev cancel : PatchTaskRequest
cancel = record { status = "cancelled"; output = none; artifacts = [] }

abbrev broken : FailTaskRequest
broken = record { error_message = some "no disk"; error_code = none }

abbrev requests : List (Context × Request)
requests = (context, complete "build" built) ∷ (context, patch "test" cancel) ∷ []

serve_all-IsLegalHistory_example : IsLegalHistory requests store "test"
serve_all-IsLegalHistory_example =
    serve_all-IsLegalHistory requests store "test" ((refl, tt), (tt, tt))

fresh : IsFresh context 0 []
fresh = record { unused = λ k le. refl; distinct = nth_id-distinct }

complete_task-succeeds_example :
    (r : TaskLifecycleResponse) × ((complete_task context "build" built store).0 ≡ ok r)
complete_task-succeeds_example =
    complete_task-succeeds context "build" built store build refl refl (refl, tt) fresh
      (refl, λ k. refl)

abbrev answer : TaskLifecycleResponse
answer = record {
  task_id = "build";
  status = "succeeded";
  previous_status = "running";
  node_id = "n1";
  node_lifecycle = "done";
  artifacts_stored = 1;
}

completes : (complete_task context "build" built store).0 ≡ ok answer
unfolding complete_task complete_task_tx is_valid_task_transition node_lifecycle_for_task_status
    ◌>>=◌ set_task_status set_node_lifecycle finish_attempts update store_artifacts insert_artifact
    insert_event event_kind_allowed nth_id
completes = refl

complete_task-IsCompleted_example :
    IsCompleted "build" 1 store (complete_task context "build" built store).1 answer
complete_task-IsCompleted_example =
    complete_task-IsCompleted context "build" built store answer ((refl, tt), (tt, tt)) completes

abbrev settled : Store
settled = record store { tasks = record build { status = "cancelled" } ∷ test_run ∷ [] }

serve_all-final_example : status_of "build" (serve_all requests settled).tasks ≡ some "cancelled"
serve_all-final_example =
    serve_all-final requests settled "build" "cancelled" ((refl, tt), (tt, tt)) (inr refl) refl

-- The dependency is done.
abbrev after_build : Store
after_build = record store { nodes = record node_1 { lifecycle = "done" } ∷ node_2 ∷ [] }

abbrev test_after : Option String
test_after = status_of "test" (unblock_dependent_tasks 7 "n1" after_build).tasks

unblock_dependent_tasks-IsFree_example :
    (IsFree after_build "n1" test_run × (test_after ≡ some "running"))
    ⊎ ((¬ IsFree after_build "n1" test_run) × (test_after ≡ some "queued"))
unblock_dependent_tasks-IsFree_example =
    unblock_dependent_tasks-IsFree 7 "n1" after_build "test" test_run ((refl, tt), (tt, tt)) refl

test_is_unblocked : is_unblocked after_build "n1" test_run ≡ true
unfolding is_unblocked
test_is_unblocked = refl

-- While the dependency runs, the task waits.
test_is_held_back : is_unblocked store "n1" test_run ≡ false
unfolding is_unblocked
test_is_held_back = refl

-- A task that was cancelled after the SELECT is started all the same.
start_tasks-status_example : status_of "build" (start_tasks 7 ("build" ∷ []) settled).tasks ≡ (
    if any (λ j. str_eq j "build") ("build" ∷ [])
    then given "running" (status_of "build" settled.tasks)
    else status_of "build" settled.tasks)
start_tasks-status_example = start_tasks-status 7 ("build" ∷ []) settled "build"

fail_task-always_fails_example :
    fail_task context "build" broken store
    ≡ (err (failure_answer (find? (same_task "build") store.tasks)), store)
fail_task-always_fails_example =
    fail_task-always_fails context "build" broken store (refl, (refl, tt))

failure_is_internal : failure_answer (find? (same_task "build") store.tasks) ≡ internal_error
failure_is_internal = refl

patch_task-never_settles_example :
    patch_task context "test" cancel store
    ≡ (err (patch_answer "cancelled" (find? (same_task "test") store.tasks)), store)
patch_task-never_settles_example =
    patch_task-never_settles context "test" cancel store (refl, (refl, tt)) (inr refl)

cancellation_is_internal :
    patch_answer "cancelled" (find? (same_task "test") store.tasks) ≡ internal_error
unfolding is_valid_task_transition
cancellation_is_internal = refl

abbrev attempt_done : CompleteAttemptRequest
attempt_done = record { status = "succeeded"; output = none; artifacts = binary ∷ [] }

abbrev attempt_answer : AttemptLifecycleResponse
attempt_answer = record {
  task_attempt_id = "a1";
  task_id = "build";
  attempt_status = "succeeded";
  previous_attempt_status = "running";
  task_status = "succeeded";
  node_lifecycle = "done";
  artifacts_stored = 1;
}

abbrev store_of : Result ApiError (AttemptLifecycleResponse × (String × Store)) → Store
store_of (ok (r, (node, s))) = s
store_of (err e) = store

-- The store after the transaction.
unfoldable store_after : Store
store_after = store_of (complete_attempt_tx context "a1" attempt_done store)

attempt_completes :
    complete_attempt_tx context "a1" attempt_done store ≡ ok (attempt_answer, ("n1", store_after))
unfolding complete_attempt_tx is_valid_attempt_transition node_lifecycle_for_task_status ◌>>=◌
    set_task_status set_node_lifecycle finish_attempts update store_artifacts insert_artifact
    insert_event event_kind_allowed nth_id store_after
attempt_completes = refl

complete_attempt_tx-ok_example :
    IsAttemptReported 7 "a1" "succeeded" 1 store store_after attempt_answer "n1"
complete_attempt_tx-ok_example =
    complete_attempt_tx-ok context "a1" attempt_done store attempt_completes
