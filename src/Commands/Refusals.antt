-- ===== src/Commands/Refusals.antt =====
-- packages/control-plane/src/executor.rs: the commands whose statements the schema refuses.
use swarm_intelligence_engin.Prelude.{
  ◌≡◌, refl, ap, sym, ◌∙◌, subst, Bool, true, false, inl, inr, any, find?, some, String, ok, ◌>>=◌,
  through, ok_or-eq-ok, err_not_ok,
}
use swarm_intelligence_engin.Store.{
  Store, lifecycle_allowed, same_task, same_node, set_task_status, set_node_lifecycle,
  finish_attempts, insert_event, event_kind_allowed,
}
use swarm_intelligence_engin.Store.Inserts.{insert_objective, insert_cycle}
use swarm_intelligence_engin.Store.Lookup.{set_task_status-ok, finish_attempts-ok}
use swarm_intelligence_engin.Store.Checks.{set_node_lifecycle-refused}
use swarm_intelligence_engin.Tasks.{Context, running_attempt_of}
use swarm_intelligence_engin.Tasks.Failing.{HasNodes, found_holds}
use swarm_intelligence_engin.Commands.{
  CommandOutcome, CommandResult, append_event, outcome_skip, unless_done,
}
use swarm_intelligence_engin.Commands.Requests.{
  CreateObjectiveCommand, CreateCycleCommand, DispatchSchedulerCommand, TaskCompletionCommand,
  FailureIngestionCommand, TimeoutIngestionCommand, NextCycleGenerationCommand, task_status_text,
}
use swarm_intelligence_engin.Commands.Creation.{execute_create_objective, execute_create_cycle}
use swarm_intelligence_engin.Commands.Dispatch.{execute_dispatch_scheduler}
use swarm_intelligence_engin.Commands.Reports.{
  lifecycle_after, execute_task_completion, execute_failure_ingestion, execute_timeout_ingestion,
}
use swarm_intelligence_engin.Commands.Cycles.{execute_next_cycle_generation}
use swarm_intelligence_engin.Commands.Service.{
  Command, create_objective, create_loop, create_cycle, create_node_from_plan,
  create_task_from_node, dispatch_scheduler, task_completion, failure_ingestion, timeout_ingestion,
  retry_scheduling, next_cycle_generation, execute,
}
use swarm_intelligence_engin.Commands.Journal.{db-eq-ok, unless_done-ok}

-- A success that is a skip, on tables that it leaves.
abbrev pub IsSkipped : Context → Store → CommandOutcome × Store → Type 0
IsSkipped cx s r = (message : String) × (r ≡ (outcome_skip cx message, s))

-- A command whose body cannot succeed only ever skips.
only_skips :
    (cx : Context) (kind key message : String) (s : Store) (rest : CommandResult)
    {r : CommandOutcome × Store}
    → unless_done cx kind key message s rest ≡ ok r
    → (rest ≡ ok r → ⊥)
    → IsSkipped cx s r
only_skips cx kind key message s rest h k = elim (unless_done-ok cx kind key message s rest h) [
  | inl p ↦ (message, p.1)
  | inr q ↦ absurd (k q.1)
]

no_lifecycle :
    (cx : Context) (v id : String) (s : Store) {s' : Store}
    → lifecycle_allowed v ≡ false
    → any (same_node id) s.nodes ≡ true
    → set_node_lifecycle cx.now v id s ≡ ok s'
    → ⊥
no_lifecycle cx v id s bad node h =
    err_not_ok (sym (set_node_lifecycle-refused cx.now v s id bad node) ∙ h)

no_event :
    (cx : Context) (drawn : _) (kind id event_kind key : String) (payload : _) (s : Store) {r : _}
    → event_kind_allowed event_kind ≡ false
    → append_event cx drawn kind id event_kind key payload s ≡ ok r
    → ⊥
unfolding append_event insert_event ◌>>=◌
no_event cx drawn kind id event_kind key payload s bad h = err_not_ok (rw bad at h)

-- The node of a task that a report is about is still there when the report reaches it.
node_remains :
    (cx : Context) (v w id : String) (s s1 s2 : Store) {t : _}
    → HasNodes s
    → find? (same_task id) s.tasks ≡ some t
    → set_task_status cx.now v id s ≡ ok s1
    → finish_attempts cx.now w (running_attempt_of id) s1 ≡ ok s2
    → any (same_node t.node_id) s2.nodes ≡ true
node_remains cx v w id s s1 s2 {t} h found e1 e2 =
    let node = found_holds (λ x. any (same_node x.node_id) s.nodes ≡ true) _ s.tasks t h found in
    let p1 = ap (λ x. x.nodes) (set_task_status-ok cx.now s v id e1) in
    let p2 = ap (λ x. x.nodes) (finish_attempts-ok cx.now s1 w (running_attempt_of id) e2) in
    subst (λ rows. any (same_node t.node_id) rows ≡ true) (p1 ∙ p2) node

module _ (cx : Context) (s : Store) {r : CommandOutcome × Store} where
  execute_create_objective-skips :
      (cmd : CreateObjectiveCommand) → execute_create_objective cx cmd s ≡ ok r → IsSkipped cx s r
  unfolding execute_create_objective insert_objective
  execute_create_objective-skips cmd h = through _ _ h λ u f g. through _ _ g λ v f1 g1.
      only_skips _ _ _ _ _ _ g1 λ g2. through _ _ g2 λ s1 e3 g3. err_not_ok (db-eq-ok _ e3)

  execute_create_cycle-skips :
      (cmd : CreateCycleCommand) → execute_create_cycle cx cmd s ≡ ok r → IsSkipped cx s r
  unfolding execute_create_cycle insert_cycle
  execute_create_cycle-skips cmd h =
      only_skips _ _ _ _ _ _ h
        λ g. through _ _ g λ u e1 g1. through _ _ g1 λ s1 e2 g2. err_not_ok (db-eq-ok _ e2)

  execute_next_cycle_generation-skips :
      (cmd : NextCycleGenerationCommand)
      → execute_next_cycle_generation cx cmd s ≡ ok r
      → IsSkipped cx s r
  unfolding execute_next_cycle_generation insert_cycle
  execute_next_cycle_generation-skips cmd h = only_skips _ _ _ _ _ _ h λ g.
      through _ _ g
        λ c e1 g1. through _ _ g1 λ u e2 g2. through _ _ g2 λ s1 e3 g3. err_not_ok (db-eq-ok _ e3)

  execute_dispatch_scheduler-skips :
      (cmd : DispatchSchedulerCommand)
      → execute_dispatch_scheduler cx cmd s ≡ ok r
      → IsSkipped cx s r
  unfolding execute_dispatch_scheduler event_kind_allowed
  execute_dispatch_scheduler-skips cmd h = only_skips _ _ _ _ _ _ h λ g.
      through _ _ g
        λ round e1 g1. through _ _ g1 λ p e2 g2. no_event _ _ _ _ _ _ _ _ refl (db-eq-ok _ e2)

  execute_timeout_ingestion-skips :
      (cmd : TimeoutIngestionCommand) → execute_timeout_ingestion cx cmd s ≡ ok r → IsSkipped cx s r
  unfolding execute_timeout_ingestion event_kind_allowed
  execute_timeout_ingestion-skips cmd h = only_skips _ _ _ _ _ _ h λ g. through _ _ g λ t e1 g1.
      through _ _ g1 λ u e2 g2. through _ _ g2 λ s1 e3 g3.
        through _ _ g3
          λ s2 e4 g4. through _ _ g4 λ p e5 g5. no_event _ _ _ _ _ _ _ _ refl (db-eq-ok _ e5)

  module _ (nodes : HasNodes s) where
    execute_failure_ingestion-skips :
        (cmd : FailureIngestionCommand)
        → execute_failure_ingestion cx cmd s ≡ ok r
        → IsSkipped cx s r
    unfolding execute_failure_ingestion
    execute_failure_ingestion-skips cmd h = only_skips _ _ _ _ _ _ h λ g. through _ _ g λ t e1 g1.
        through _ _ g1 λ s1 e2 g2. through _ _ g2 λ s2 e3 g3. through _ _ g3 λ s3 e4 g4.
          no_lifecycle cx "failed" t.node_id s2 refl
            (node_remains cx "failed" "failed" cmd.task_id s s1 s2 nodes (ok_or-eq-ok _ _ e1)
              (db-eq-ok _ e2) (db-eq-ok _ e3))
            (db-eq-ok _ e4)

    execute_task_completion-skips :
        (cmd : TaskCompletionCommand)
        → lifecycle_allowed (lifecycle_after (task_status_text cmd.final_status)) ≡ false
        → execute_task_completion cx cmd s ≡ ok r
        → IsSkipped cx s r
    unfolding execute_task_completion
    execute_task_completion-skips cmd bad h = only_skips _ _ _ _ _ _ h λ g. through _ _ g λ t e1 g1.
        through _ _ g1 λ u e2 g2. through _ _ g2 λ s1 e3 g3. through _ _ g3 λ s2 e4 g4.
          through _ _ g4 λ s3 e5 g5.
            let v = task_status_text cmd.final_status in
            no_lifecycle cx (lifecycle_after v) t.node_id s2 bad
              (node_remains cx v v cmd.task_id s s1 s2 nodes (ok_or-eq-ok _ _ e1) (db-eq-ok _ e3)
                (db-eq-ok _ e4))
              (db-eq-ok _ e5)

-- The commands that may write: the others meet a constraint of the schema.
abbrev pub may_write : Command → Bool
may_write (create_loop cmd) = true
may_write (create_node_from_plan cmd) = true
may_write (create_task_from_node cmd) = true
may_write (task_completion cmd) =
    lifecycle_allowed (lifecycle_after (task_status_text cmd.final_status))
may_write (retry_scheduling cmd) = true
may_write _ = false

-- The creation of an objective or of a cycle, the next cycle, a dispatch round, a failure, a
-- timeout, and a completion with any status but 'succeeded' never write, if every task has its node:
-- when such a command succeeds, it has been skipped, and every table is as it was.
pub execute-never_writes :
    (cx : Context) (c : Command) (s s' : Store) (o : CommandOutcome)
    → HasNodes s
    → may_write c ≡ false
    → execute cx c s ≡ ok (o, s')
    → IsSkipped cx s (o, s')
unfolding execute
execute-never_writes cx (create_objective cmd) s s' o n w h =
    execute_create_objective-skips cx s cmd h
execute-never_writes cx (create_cycle cmd) s s' o n w h = execute_create_cycle-skips cx s cmd h
execute-never_writes cx (dispatch_scheduler cmd) s s' o n w h =
    execute_dispatch_scheduler-skips cx s cmd h
execute-never_writes cx (task_completion cmd) s s' o n w h =
    execute_task_completion-skips cx s n cmd w h
execute-never_writes cx (failure_ingestion cmd) s s' o n w h =
    execute_failure_ingestion-skips cx s n cmd h
execute-never_writes cx (timeout_ingestion cmd) s s' o n w h =
    execute_timeout_ingestion-skips cx s cmd h
execute-never_writes cx (next_cycle_generation cmd) s s' o n w h =
    execute_next_cycle_generation-skips cx s cmd h
execute-never_writes cx (create_loop cmd) s s' o n w h = cc
execute-never_writes cx (create_node_from_plan cmd) s s' o n w h = cc
execute-never_writes cx (create_task_from_node cmd) s s' o n w h = cc
execute-never_writes cx (retry_scheduling cmd) s s' o n w h = cc
