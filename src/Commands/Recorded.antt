-- ===== src/Commands/Recorded.antt =====
-- packages/control-plane/src/executor.rs: after a success of a command, its key is in the journal.
use swarm_intelligence_engin.Prelude.{◌≡◌, ok, through, arith}
use swarm_intelligence_engin.Store.{Store}
use swarm_intelligence_engin.Tasks.{Context}
use swarm_intelligence_engin.Commands.{CommandOutcome}
use swarm_intelligence_engin.Commands.Requests.{
  CreateObjectiveCommand, CreateLoopCommand, CreateCycleCommand, CreateNodeFromPlanCommand,
  CreateTaskFromNodeCommand, DispatchSchedulerCommand, TaskCompletionCommand,
  FailureIngestionCommand, TimeoutIngestionCommand, RetrySchedulingCommand,
  NextCycleGenerationCommand,
}
use swarm_intelligence_engin.Commands.Creation.{
  execute_create_objective, execute_create_loop, execute_create_cycle,
  execute_create_node_from_plan, execute_create_task_from_node, bridge_key,
}
use swarm_intelligence_engin.Commands.Dispatch.{execute_dispatch_scheduler}
use swarm_intelligence_engin.Commands.Reports.{
  execute_task_completion, execute_failure_ingestion, execute_timeout_ingestion,
  execute_retry_scheduling,
}
use swarm_intelligence_engin.Commands.Cycles.{execute_next_cycle_generation}
use swarm_intelligence_engin.Commands.Journal.{
  IsDone, db-eq-ok, append_event-IsDone, unless_done-IsDone,
}

-- After a success of each command, its key is in the journal.
module _ (cx : Context) (s : Store) {r : CommandOutcome × Store} where
  pub execute_create_objective-IsDone :
      (cmd : CreateObjectiveCommand)
      → execute_create_objective cx cmd s ≡ ok r
      → IsDone "objective" cmd.idempotency_key r.1
  unfolding execute_create_objective
  execute_create_objective-IsDone cmd h = through _ _ h λ u f g0. through _ _ g0 λ v f1 h1.
      unless_done-IsDone _ _ _ _ _ _ h1 λ g. through _ _ g λ p1 e1 g1. through _ _ g1 λ p2 e2 g2.
        let done = append_event-IsDone _ _ _ _ _ _ _ _ (db-eq-ok _ e2) in ground (arith, done, g2)

  pub execute_create_loop-IsDone :
      (cmd : CreateLoopCommand)
      → execute_create_loop cx cmd s ≡ ok r
      → IsDone "loop" cmd.idempotency_key r.1
  unfolding execute_create_loop
  execute_create_loop-IsDone cmd h = unless_done-IsDone _ _ _ _ _ _ h λ g. through _ _ g λ p1 e1 g1.
      through _ _ g1 λ p2 e2 g2. through _ _ g2 λ p3 e3 g3.
        let done = append_event-IsDone _ _ _ _ _ _ _ _ (db-eq-ok _ e3) in ground (arith, done, g3)

  pub execute_create_cycle-IsDone :
      (cmd : CreateCycleCommand)
      → execute_create_cycle cx cmd s ≡ ok r
      → IsDone "cycle" cmd.idempotency_key r.1
  unfolding execute_create_cycle
  execute_create_cycle-IsDone cmd h = unless_done-IsDone _ _ _ _ _ _ h λ g.
      through _ _ g λ p1 e1 g1. through _ _ g1 λ p2 e2 g2. through _ _ g2 λ p3 e3 g3.
        let done = append_event-IsDone _ _ _ _ _ _ _ _ (db-eq-ok _ e3) in ground (arith, done, g3)

  pub execute_create_node_from_plan-IsDone :
      (cmd : CreateNodeFromPlanCommand)
      → execute_create_node_from_plan cx cmd s ≡ ok r
      → IsDone "node" (bridge_key cmd.milestone_id) r.1
  unfolding execute_create_node_from_plan
  execute_create_node_from_plan-IsDone cmd h = unless_done-IsDone _ _ _ _ _ _ h λ g.
      through _ _ g λ p1 e1 g1. through _ _ g1 λ p2 e2 g2. through _ _ g2 λ p3 e3 g3.
        let done = append_event-IsDone _ _ _ _ _ _ _ _ (db-eq-ok _ e3) in ground (arith, done, g3)

  pub execute_create_task_from_node-IsDone :
      (cmd : CreateTaskFromNodeCommand)
      → execute_create_task_from_node cx cmd s ≡ ok r
      → IsDone "task" cmd.idempotency_key r.1
  unfolding execute_create_task_from_node
  execute_create_task_from_node-IsDone cmd h = unless_done-IsDone _ _ _ _ _ _ h λ g.
      through _ _ g λ p1 e1 g1. through _ _ g1 λ p2 e2 g2. through _ _ g2 λ p3 e3 g3.
        let done = append_event-IsDone _ _ _ _ _ _ _ _ (db-eq-ok _ e3) in ground (arith, done, g3)

  pub execute_dispatch_scheduler-IsDone :
      (cmd : DispatchSchedulerCommand)
      → execute_dispatch_scheduler cx cmd s ≡ ok r
      → IsDone "dispatch" cmd.idempotency_key r.1
  unfolding execute_dispatch_scheduler
  execute_dispatch_scheduler-IsDone cmd h = unless_done-IsDone _ _ _ _ _ _ h λ g.
      through _ _ g λ p1 e1 g1. through _ _ g1 λ p2 e2 g2.
        let done = append_event-IsDone _ _ _ _ _ _ _ _ (db-eq-ok _ e2) in ground (arith, done, g2)

  pub execute_task_completion-IsDone :
      (cmd : TaskCompletionCommand)
      → execute_task_completion cx cmd s ≡ ok r
      → IsDone "task" cmd.idempotency_key r.1
  unfolding execute_task_completion
  execute_task_completion-IsDone cmd h = unless_done-IsDone _ _ _ _ _ _ h λ g.
      through _ _ g λ p1 e1 g1. through _ _ g1 λ p2 e2 g2. through _ _ g2 λ p3 e3 g3.
        through _ _ g3 λ p4 e4 g4. through _ _ g4 λ p5 e5 g5. through _ _ g5 λ p6 e6 g6.
          let done = append_event-IsDone _ _ _ _ _ _ _ _ (db-eq-ok _ e6) in ground (arith, done, g6)

  pub execute_failure_ingestion-IsDone :
      (cmd : FailureIngestionCommand)
      → execute_failure_ingestion cx cmd s ≡ ok r
      → IsDone "task" cmd.idempotency_key r.1
  unfolding execute_failure_ingestion
  execute_failure_ingestion-IsDone cmd h = unless_done-IsDone _ _ _ _ _ _ h λ g.
      through _ _ g λ p1 e1 g1. through _ _ g1 λ p2 e2 g2. through _ _ g2 λ p3 e3 g3.
        through _ _ g3 λ p4 e4 g4. through _ _ g4 λ p5 e5 g5.
          let done = append_event-IsDone _ _ _ _ _ _ _ _ (db-eq-ok _ e5) in ground (arith, done, g5)

  pub execute_timeout_ingestion-IsDone :
      (cmd : TimeoutIngestionCommand)
      → execute_timeout_ingestion cx cmd s ≡ ok r
      → IsDone "task" cmd.idempotency_key r.1
  unfolding execute_timeout_ingestion
  execute_timeout_ingestion-IsDone cmd h = unless_done-IsDone _ _ _ _ _ _ h λ g.
      through _ _ g λ p1 e1 g1. through _ _ g1 λ p2 e2 g2. through _ _ g2 λ p3 e3 g3.
        through _ _ g3 λ p4 e4 g4. through _ _ g4 λ p5 e5 g5.
          let done = append_event-IsDone _ _ _ _ _ _ _ _ (db-eq-ok _ e5) in ground (arith, done, g5)

  pub execute_retry_scheduling-IsDone :
      (cmd : RetrySchedulingCommand)
      → execute_retry_scheduling cx cmd s ≡ ok r
      → IsDone "task" cmd.idempotency_key r.1
  unfolding execute_retry_scheduling
  execute_retry_scheduling-IsDone cmd h = unless_done-IsDone _ _ _ _ _ _ h λ g.
      through _ _ g λ p1 e1 g1. through _ _ g1 λ p2 e2 g2. through _ _ g2 λ p3 e3 g3.
        through _ _ g3 λ p4 e4 g4. through _ _ g4 λ p5 e5 g5. through _ _ g5 λ p6 e6 g6.
          let done = append_event-IsDone _ _ _ _ _ _ _ _ (db-eq-ok _ e6) in ground (arith, done, g6)

  pub execute_next_cycle_generation-IsDone :
      (cmd : NextCycleGenerationCommand)
      → execute_next_cycle_generation cx cmd s ≡ ok r
      → IsDone "cycle" cmd.idempotency_key r.1
  unfolding execute_next_cycle_generation
  execute_next_cycle_generation-IsDone cmd h = unless_done-IsDone _ _ _ _ _ _ h λ g.
      through _ _ g λ p1 e1 g1. through _ _ g1 λ p2 e2 g2. through _ _ g2 λ p3 e3 g3.
        through _ _ g3 λ p4 e4 g4. through _ _ g4 λ p5 e5 g5.
          let done = append_event-IsDone _ _ _ _ _ _ _ _ (db-eq-ok _ e5) in ground (arith, done, g5)
