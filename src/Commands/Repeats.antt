-- ===== src/Commands/Repeats.antt =====
-- packages/control-plane/src/executor.rs: a command that is executed again.
use swarm_intelligence_engin.Prelude.{
  not, true, is_blank, ◌≡◌, String, ok, ◌>>=◌, through, guard-eq-ok,
}
use swarm_intelligence_engin.Store.{Store}
use swarm_intelligence_engin.Tasks.{Context}
use swarm_intelligence_engin.Commands.{CommandOutcome, outcome_skip}
use swarm_intelligence_engin.Commands.Requests.{
  CreateObjectiveCommand, CreateLoopCommand, CreateCycleCommand, CreateNodeFromPlanCommand,
  CreateTaskFromNodeCommand, DispatchSchedulerCommand, TaskCompletionCommand,
  FailureIngestionCommand, TimeoutIngestionCommand, RetrySchedulingCommand,
  NextCycleGenerationCommand,
}
use swarm_intelligence_engin.Commands.Creation.{
  execute_create_objective, execute_create_loop, execute_create_cycle,
  execute_create_node_from_plan, execute_create_task_from_node, bridge_key,
}
use swarm_intelligence_engin.Commands.Dispatch.{execute_dispatch_scheduler}
use swarm_intelligence_engin.Commands.Reports.{
  execute_task_completion, execute_failure_ingestion, execute_timeout_ingestion,
  execute_retry_scheduling,
}
use swarm_intelligence_engin.Commands.Cycles.{execute_next_cycle_generation}
use swarm_intelligence_engin.Commands.Service.{
  Command, create_objective, create_loop, create_cycle, create_node_from_plan,
  create_task_from_node, dispatch_scheduler, task_completion, failure_ingestion, timeout_ingestion,
  retry_scheduling, next_cycle_generation, execute,
}
use swarm_intelligence_engin.Commands.Journal.{IsDone, unless_done-skips}
use swarm_intelligence_engin.Commands.Recorded.{
  execute_create_objective-IsDone, execute_create_loop-IsDone, execute_create_cycle-IsDone,
  execute_create_node_from_plan-IsDone, execute_create_task_from_node-IsDone,
  execute_dispatch_scheduler-IsDone, execute_task_completion-IsDone,
  execute_failure_ingestion-IsDone, execute_timeout_ingestion-IsDone,
  execute_retry_scheduling-IsDone, execute_next_cycle_generation-IsDone,
}

-- A command whose key is in the journal is skipped.
module _ (cx : Context) (s : Store) where
  execute_create_loop-skips :
      (cmd : CreateLoopCommand)
      → IsDone "loop" cmd.idempotency_key s
      → (message : String) × (execute_create_loop cx cmd s ≡ ok (outcome_skip cx message, s))
  unfolding execute_create_loop
  execute_create_loop-skips cmd h = (_, unless_done-skips _ _ _ _ _ _ h)

  execute_create_cycle-skips :
      (cmd : CreateCycleCommand)
      → IsDone "cycle" cmd.idempotency_key s
      → (message : String) × (execute_create_cycle cx cmd s ≡ ok (outcome_skip cx message, s))
  unfolding execute_create_cycle
  execute_create_cycle-skips cmd h = (_, unless_done-skips _ _ _ _ _ _ h)

  execute_create_node_from_plan-skips :
      (cmd : CreateNodeFromPlanCommand)
      → IsDone "node" (bridge_key cmd.milestone_id) s
      → (message : String) × (execute_create_node_from_plan cx cmd s
          ≡ ok (outcome_skip cx message, s))
  unfolding execute_create_node_from_plan
  execute_create_node_from_plan-skips cmd h = (_, unless_done-skips _ _ _ _ _ _ h)

  execute_create_task_from_node-skips :
      (cmd : CreateTaskFromNodeCommand)
      → IsDone "task" cmd.idempotency_key s
      → (message : String) × (execute_create_task_from_node cx cmd s
          ≡ ok (outcome_skip cx message, s))
  unfolding execute_create_task_from_node
  execute_create_task_from_node-skips cmd h = (_, unless_done-skips _ _ _ _ _ _ h)

  execute_dispatch_scheduler-skips :
      (cmd : DispatchSchedulerCommand)
      → IsDone "dispatch" cmd.idempotency_key s
      → (message : String) × (execute_dispatch_scheduler cx cmd s ≡ ok (outcome_skip cx message, s))
  unfolding execute_dispatch_scheduler
  execute_dispatch_scheduler-skips cmd h = (_, unless_done-skips _ _ _ _ _ _ h)

  execute_task_completion-skips :
      (cmd : TaskCompletionCommand)
      → IsDone "task" cmd.idempotency_key s
      → (message : String) × (execute_task_completion cx cmd s ≡ ok (outcome_skip cx message, s))
  unfolding execute_task_completion
  execute_task_completion-skips cmd h = (_, unless_done-skips _ _ _ _ _ _ h)

  execute_failure_ingestion-skips :
      (cmd : FailureIngestionCommand)
      → IsDone "task" cmd.idempotency_key s
      → (message : String) × (execute_failure_ingestion cx cmd s ≡ ok (outcome_skip cx message, s))
  unfolding execute_failure_ingestion
  execute_failure_ingestion-skips cmd h = (_, unless_done-skips _ _ _ _ _ _ h)

  execute_timeout_ingestion-skips :
      (cmd : TimeoutIngestionCommand)
      → IsDone "task" cmd.idempotency_key s
      → (message : String) × (execute_timeout_ingestion cx cmd s ≡ ok (outcome_skip cx message, s))
  unfolding execute_timeout_ingestion
  execute_timeout_ingestion-skips cmd h = (_, unless_done-skips _ _ _ _ _ _ h)

  execute_retry_scheduling-skips :
      (cmd : RetrySchedulingCommand)
      → IsDone "task" cmd.idempotency_key s
      → (message : String) × (execute_retry_scheduling cx cmd s ≡ ok (outcome_skip cx message, s))
  unfolding execute_retry_scheduling
  execute_retry_scheduling-skips cmd h = (_, unless_done-skips _ _ _ _ _ _ h)

  execute_next_cycle_generation-skips :
      (cmd : NextCycleGenerationCommand)
      → IsDone "cycle" cmd.idempotency_key s
      → (message : String) × (execute_next_cycle_generation cx cmd s
          ≡ ok (outcome_skip cx message, s))
  unfolding execute_next_cycle_generation
  execute_next_cycle_generation-skips cmd h = (_, unless_done-skips _ _ _ _ _ _ h)

-- The texts of an objective that has been created are not blank, so they pass again.
execute_create_objective-given :
    (cx : Context) (cmd : CreateObjectiveCommand) (s : Store) {r : CommandOutcome × Store}
    → execute_create_objective cx cmd s ≡ ok r
    → (not (is_blank cmd.summary) ≡ true) × (not (is_blank cmd.desired_outcome) ≡ true)
unfolding execute_create_objective
execute_create_objective-given cx cmd s h =
    through _ _ h λ u f g. through _ _ g λ v f1 g1. (guard-eq-ok _ _ f, guard-eq-ok _ _ f1)

execute_create_objective-again :
    (cx cx' : Context) (cmd : CreateObjectiveCommand) (s : Store) {r : CommandOutcome × Store}
    → execute_create_objective cx cmd s ≡ ok r
    → (message : String) × (execute_create_objective cx' cmd r.1
        ≡ ok (outcome_skip cx' message, r.1))
unfolding execute_create_objective ◌>>=◌
execute_create_objective-again cx cx' cmd s {r} h =
    let done = execute_create_objective-IsDone cx s cmd h in
    let (summary, outcome) = execute_create_objective-given cx cmd s h in
    (
      "objective already created with this idempotency key",
      rw (summary, outcome) (unless_done-skips cx' "objective" cmd.idempotency_key _ r.1 _ done),
    )

-- A command that has succeeded, executed again at any later time on the tables that it has left,
-- returns at once as skipped: it appends no event, and leaves every table as it is.
pub execute-repeats :
    (cx cx' : Context) (c : Command) (s s' : Store) (o : CommandOutcome)
    → execute cx c s ≡ ok (o, s')
    → (message : String) × (execute cx' c s' ≡ ok (outcome_skip cx' message, s'))
unfolding execute
execute-repeats cx cx' (create_objective cmd) s s' o h =
    execute_create_objective-again cx cx' cmd s h
execute-repeats cx cx' (create_loop cmd) s s' o h =
    execute_create_loop-skips cx' s' cmd (execute_create_loop-IsDone cx s cmd h)
execute-repeats cx cx' (create_cycle cmd) s s' o h =
    execute_create_cycle-skips cx' s' cmd (execute_create_cycle-IsDone cx s cmd h)
execute-repeats cx cx' (create_node_from_plan cmd) s s' o h =
    execute_create_node_from_plan-skips cx' s' cmd (execute_create_node_from_plan-IsDone cx s cmd h)
execute-repeats cx cx' (create_task_from_node cmd) s s' o h =
    execute_create_task_from_node-skips cx' s' cmd (execute_create_task_from_node-IsDone cx s cmd h)
execute-repeats cx cx' (dispatch_scheduler cmd) s s' o h =
    execute_dispatch_scheduler-skips cx' s' cmd (execute_dispatch_scheduler-IsDone cx s cmd h)
execute-repeats cx cx' (task_completion cmd) s s' o h =
    execute_task_completion-skips cx' s' cmd (execute_task_completion-IsDone cx s cmd h)
execute-repeats cx cx' (failure_ingestion cmd) s s' o h =
    execute_failure_ingestion-skips cx' s' cmd (execute_failure_ingestion-IsDone cx s cmd h)
execute-repeats cx cx' (timeout_ingestion cmd) s s' o h =
    execute_timeout_ingestion-skips cx' s' cmd (execute_timeout_ingestion-IsDone cx s cmd h)
execute-repeats cx cx' (retry_scheduling cmd) s s' o h =
    execute_retry_scheduling-skips cx' s' cmd (execute_retry_scheduling-IsDone cx s cmd h)
execute-repeats cx cx' (next_cycle_generation cmd) s s' o h =
    execute_next_cycle_generation-skips cx' s' cmd (execute_next_cycle_generation-IsDone cx s cmd h)
