-- ===== src/Examples/CommandRuns.antt =====
-- Concrete commands for packages/control-plane/src/executor.rs.
use swarm_intelligence_engin.Prelude.{
  ◌≡◌, refl, ◌↔◌, true, false, List, [], ◌∷◌, none, some, String, ok, ◌>>=◌,
}
use swarm_intelligence_engin.Store.{
  Task, Store, Objective, insert_event, event_kind_allowed, update, set_task_status,
  set_node_lifecycle, finish_attempts,
}
use swarm_intelligence_engin.Store.Inserts.{insert_loop}
use swarm_intelligence_engin.Store.Lookup.{status_of}
use swarm_intelligence_engin.Tasks.{Context}
use swarm_intelligence_engin.Tasks.Failing.{HasNodes}
use swarm_intelligence_engin.Commands.{
  CommandOutcome, CommandResult, idempotency_check, append_event, outcome_applied, outcome_skip, db,
  unless_done,
}
use swarm_intelligence_engin.Commands.Requests.{
  CreateLoopCommand, TaskCompletionCommand, RetrySchedulingCommand, TimeoutIngestionCommand,
  TaskStatus,
}
use swarm_intelligence_engin.Commands.Creation.{execute_create_loop}
use swarm_intelligence_engin.Commands.Reports.{
  attempt_count, execute_task_completion, execute_timeout_ingestion, execute_retry_scheduling,
}
use swarm_intelligence_engin.Commands.Service.{
  Command, create_loop, task_completion, retry_scheduling, timeout_ingestion, execute, committed,
  execute_all,
}
use swarm_intelligence_engin.Commands.Repeats.{execute-repeats}
use swarm_intelligence_engin.Commands.Refusals.{IsSkipped, execute-never_writes}
use swarm_intelligence_engin.Commands.Board.{Steps, board}
use swarm_intelligence_engin.Commands.Refines.{execute_all-refines, execute_all-final}
use swarm_intelligence_engin.Commands.Retries.{HasBudget, execute_retry_scheduling-ok_iff}
use swarm_intelligence_engin.Examples.TaskRuns.{context, store, build, nth_id}

abbrev pub goal : Objective
goal = record {
  objective_id = "o1";
  summary = "ship";
  planning_status = "draft";
  plan_gate = "draft";
  created_at = 1;
  updated_at = 1;
}

abbrev planned : Store
planned = record store { objectives = goal ∷ [] }

abbrev new_loop : CreateLoopCommand
new_loop = record { idempotency_key = "k1"; objective_id = "o1"; initial_track = "main" }

abbrev later : Context
later = record context { now = 9 }

abbrev store_of : CommandResult → Store
store_of r = committed r planned

-- What the first execution leaves.
unfoldable looped : Store
looped = store_of (execute context (create_loop new_loop) planned)

abbrev first_outcome : CommandOutcome
first_outcome = record {
  applied = true;
  idempotent_skip = false;
  message = "loop x created";
  event_ids = "xx" ∷ [];
  executed_at = 7;
}

loop_is_created : execute context (create_loop new_loop) planned ≡ ok (first_outcome, looped)
unfolding execute execute_create_loop unless_done idempotency_check insert_loop append_event
    insert_event event_kind_allowed outcome_applied db nth_id looped ◌>>=◌
loop_is_created = refl

execute-repeats_example :
    (message : String) × (execute later (create_loop new_loop) looped
      ≡ ok (outcome_skip later message, looped))
execute-repeats_example =
    execute-repeats context later (create_loop new_loop) planned looped first_outcome
      loop_is_created

abbrev late : TimeoutIngestionCommand
late = record {
  idempotency_key = "k2";
  task_id = "build";
  worker_id = "w1";
  elapsed_seconds = 90;
  timeout_threshold_seconds = 60;
  attempt_number = 1;
  timed_out_at = 6;
}

-- A timeout whose key the journal has already.
abbrev known : Store
known = record store {
  event_journal =
      record {
        event_id = "e1";
        aggregate_kind = "task";
        aggregate_id = "build";
        event_kind = "task_failed";
        idempotency_key = "k2";
        payload = [];
        created_at = 5;
      }
      ∷ [];
}

timeout_is_skipped :
    execute context (timeout_ingestion late) known
    ≡ ok (outcome_skip context "timeout already recorded", known)
unfolding execute execute_timeout_ingestion unless_done idempotency_check
timeout_is_skipped = refl

execute-never_writes_example :
    IsSkipped context known (outcome_skip context "timeout already recorded", known)
execute-never_writes_example =
    execute-never_writes context (timeout_ingestion late) known known
      (outcome_skip context "timeout already recorded") (refl, (refl, tt)) refl timeout_is_skipped

-- Without it, the event is refused.
timeout_is_refused : committed (execute context (timeout_ingestion late) store) store ≡ store
unfolding execute execute_timeout_ingestion unless_done idempotency_check set_task_status
    finish_attempts update append_event insert_event event_kind_allowed db ◌>>=◌
timeout_is_refused = refl

abbrev completion : TaskCompletionCommand
completion = record {
  idempotency_key = "k3";
  task_id = "build";
  final_status = TaskStatus.succeeded;
  worker_id = "w1";
  artifact_ref = none;
  completed_at = 6;
}

abbrev retry : RetrySchedulingCommand
retry = record {
  idempotency_key = "k4";
  task_id = "build";
  next_attempt_number = 2;
  delay_ms = 100;
  reason = "flaky";
  reassign_worker = false;
}

abbrev commands : List (Context × Command)
commands =
    (context, task_completion completion)
    ∷ (later, retry_scheduling retry)
    ∷ (later, timeout_ingestion late)
    ∷ []

execute_all-refines_example :
    Steps (board store) (board (execute_all commands store)) × HasNodes (execute_all commands store)
execute_all-refines_example = execute_all-refines commands store (refl, (refl, tt))

build_succeeds : status_of "build" (execute_all commands store).tasks ≡ some "succeeded"
unfolding execute_all execute execute_task_completion execute_timeout_ingestion
    execute_retry_scheduling unless_done idempotency_check set_task_status set_node_lifecycle
    finish_attempts update append_event insert_event event_kind_allowed db nth_id ◌>>=◌
build_succeeds = refl

abbrev cancelled_store : Store
cancelled_store = record store { tasks = record build { status = "cancelled" } ∷ [] }

execute_all-final_example :
    status_of "build" (execute_all commands cancelled_store).tasks ≡ some "cancelled"
execute_all-final_example =
    execute_all-final commands cancelled_store "build" "cancelled" (refl, tt) (refl, refl) refl

abbrev failed_task : Task
failed_task = record build { status = "failed" }

abbrev failed_store : Store
failed_store = record store { tasks = failed_task ∷ [] }

execute_retry_scheduling-ok_iff_example :
    ((r : CommandOutcome × Store) × (execute_retry_scheduling context retry failed_store ≡ ok r))
    ↔ ((failed_task.status ≡ "failed")
        × HasBudget failed_task.retry_budget (attempt_count "build" failed_store))
execute_retry_scheduling-ok_iff_example =
    execute_retry_scheduling-ok_iff context retry failed_store failed_task refl (refl, λ k. refl)
