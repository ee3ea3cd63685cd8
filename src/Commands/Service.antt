-- ===== src/Commands/Service.antt =====
-- packages/control-plane/src/executor.rs: the commands together, each with its execution.
use swarm_intelligence_engin.Prelude.{List, [], ◌∷◌, ok, err}
use swarm_intelligence_engin.Store.{Store}
use swarm_intelligence_engin.Tasks.{Context}
use swarm_intelligence_engin.Commands.{CommandResult}
use swarm_intelligence_engin.Commands.Requests.{
  CreateObjectiveCommand, CreateLoopCommand, CreateCycleCommand, CreateNodeFromPlanCommand,
  CreateTaskFromNodeCommand, DispatchSchedulerCommand, TaskCompletionCommand,
  FailureIngestionCommand, TimeoutIngestionCommand, RetrySchedulingCommand,
  NextCycleGenerationCommand,
}
use swarm_intelligence_engin.Commands.Creation.{
  execute_create_objective, execute_create_loop, execute_create_cycle,
  execute_create_node_from_plan, execute_create_task_from_node,
}
use swarm_intelligence_engin.Commands.Dispatch.{execute_dispatch_scheduler}
use swarm_intelligence_engin.Commands.Reports.{
  execute_task_completion, execute_failure_ingestion, execute_timeout_ingestion,
  execute_retry_scheduling,
}
use swarm_intelligence_engin.Commands.Cycles.{execute_next_cycle_generation}

pub data Command : Type 0 where
  create_objective : CreateObjectiveCommand → Command
  create_loop : CreateLoopCommand → Command
  create_cycle : CreateCycleCommand → Command
  create_node_from_plan : CreateNodeFromPlanCommand → Command
  create_task_from_node : CreateTaskFromNodeCommand → Command
  dispatch_scheduler : DispatchSchedulerCommand → Command
  task_completion : TaskCompletionCommand → Command
  failure_ingestion : FailureIngestionCommand → Command
  timeout_ingestion : TimeoutIngestionCommand → Command
  retry_scheduling : RetrySchedulingCommand → Command
  next_cycle_generation : NextCycleGenerationCommand → Command

unfoldable pub execute : Context → Command → Store → CommandResult
execute cx (create_objective cmd) = execute_create_objective cx cmd
execute cx (create_loop cmd) = execute_create_loop cx cmd
execute cx (create_cycle cmd) = execute_create_cycle cx cmd
execute cx (create_node_from_plan cmd) = execute_create_node_from_plan cx cmd
execute cx (create_task_from_node cmd) = execute_create_task_from_node cx cmd
execute cx (dispatch_scheduler cmd) = execute_dispatch_scheduler cx cmd
execute cx (task_completion cmd) = execute_task_completion cx cmd
execute cx (failure_ingestion cmd) = execute_failure_ingestion cx cmd
execute cx (timeout_ingestion cmd) = execute_timeout_ingestion cx cmd
execute cx (retry_scheduling cmd) = execute_retry_scheduling cx cmd
execute cx (next_cycle_generation cmd) = execute_next_cycle_generation cx cmd

-- The tables after a command whose transaction its caller has ended: a commit after a success, a
-- rollback after a rejection.
abbrev pub committed : CommandResult → Store → Store
committed (ok (o, s')) s = s'
committed (err e) s = s

unfoldable pub execute_all : List (Context × Command) → Store → Store
execute_all [] s = s
execute_all ((cx, c) ∷ cs) s = execute_all cs (committed (execute cx c s) s)
