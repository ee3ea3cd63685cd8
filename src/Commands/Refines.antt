-- ===== src/Commands/Refines.antt =====
-- packages/control-plane/src/executor.rs: the commands implement the steps of the board.
use swarm_intelligence_engin.Prelude.{
  ◌≡◌, refl, ap, sym, subst, true, inl, inr, Bool-cases, List, [], ◌∷◌, some, String, ok,
  Result-cases,
}
use swarm_intelligence_engin.Store.{Store, lifecycle_allowed}
use swarm_intelligence_engin.Store.Lookup.{status_of}
use swarm_intelligence_engin.Tasks.{Context}
use swarm_intelligence_engin.Tasks.Failing.{HasNodes}
use swarm_intelligence_engin.Commands.{CommandOutcome}
use swarm_intelligence_engin.Commands.Requests.{TaskStatus, task_status_text}
use swarm_intelligence_engin.Commands.Reports.{lifecycle_after}
use swarm_intelligence_engin.Commands.Service.{
  Command, create_loop, create_node_from_plan, create_task_from_node, task_completion,
  retry_scheduling, execute, committed, execute_all,
}
use swarm_intelligence_engin.Commands.Refusals.{may_write, execute-never_writes}
use swarm_intelligence_engin.Commands.Writes.{IsStep}
use swarm_intelligence_engin.Commands.Board.{Steps, here, next, IsFinal, Steps-final, stays, board}
use swarm_intelligence_engin.Commands.Moves.{
  execute_create_loop-IsStep, execute_create_node_from_plan-IsStep,
  execute_create_task_from_node-IsStep, execute_retry_scheduling-IsStep,
  execute_task_completion-IsStep,
}

final_succeeded :
    (v : TaskStatus)
    → lifecycle_allowed (lifecycle_after (task_status_text v)) ≡ true
    → v ≡ TaskStatus.succeeded
final_succeeded TaskStatus.succeeded h = refl
final_succeeded v h = cc

may_write-IsStep :
    (cx : Context) (c : Command) (s s' : Store) (o : CommandOutcome)
    → HasNodes s
    → may_write c ≡ true
    → execute cx c s ≡ ok (o, s')
    → IsStep s s'
unfolding execute
may_write-IsStep cx (create_loop cmd) s s' o h w e = execute_create_loop-IsStep cx s h cmd e
may_write-IsStep cx (create_node_from_plan cmd) s s' o h w e =
    execute_create_node_from_plan-IsStep cx s h cmd e
may_write-IsStep cx (create_task_from_node cmd) s s' o h w e =
    execute_create_task_from_node-IsStep cx s h cmd e
may_write-IsStep cx (retry_scheduling cmd) s s' o h w e =
    execute_retry_scheduling-IsStep cx s h cmd e
may_write-IsStep cx (task_completion cmd) s s' o h w e =
    execute_task_completion-IsStep cx s h cmd (final_succeeded cmd.final_status w) e
may_write-IsStep cx c s s' o h w e = cc

-- A command that succeeds makes a step of the board: nothing changes; or a new task appears; or a
-- task that is neither succeeded, failed nor cancelled becomes succeeded; or a failed one becomes
-- queued.
execute-IsStep :
    (cx : Context) (c : Command) (s s' : Store) (o : CommandOutcome)
    → HasNodes s
    → execute cx c s ≡ ok (o, s')
    → IsStep s s'
execute-IsStep cx c s s' o h e = elim (Bool-cases (may_write c)) [
  | inl w ↦ may_write-IsStep cx c s s' o h w e
  | inr n ↦
      let skipped = execute-never_writes cx c s s' o h n e in
      let same : s' ≡ s = ap (λ x. x.1) skipped.1 in subst (IsStep s) (sym same) (stays, h)
]

committed-IsStep :
    (cx : Context) (c : Command) (s : Store) → HasNodes s → IsStep s (committed (execute cx c s) s)
committed-IsStep cx c s h = elim (Result-cases (execute cx c s)) [
  | inl ((o, s'), e) ↦ rw e (execute-IsStep cx c s s' o h e)
  | inr (e, n) ↦ rw n (stays, h)
]

-- Whatever commands are executed, each committed on success and rolled back on rejection, the
-- statuses of the tasks change by steps of the board only, and every task still has its node, if
-- every task had it.
pub execute_all-refines :
    (cs : List (Context × Command)) (s : Store)
    → HasNodes s
    → Steps (board s) (board (execute_all cs s)) × HasNodes (execute_all cs s)
unfolding execute_all
execute_all-refines [] s h = (here, h)
execute_all-refines ((cx, c) ∷ cs) s h =
    let (step, kept) = committed-IsStep cx c s h in
    let (steps, last) = execute_all-refines cs (committed (execute cx c s) s) kept in
    (next step steps, last)

-- A task that has succeeded or been cancelled keeps that status, whatever commands are executed, if
-- every task has its node.
pub execute_all-final :
    (cs : List (Context × Command)) (s : Store) (id v : String)
    → HasNodes s
    → IsFinal v
    → status_of id s.tasks ≡ some v
    → status_of id (execute_all cs s).tasks ≡ some v
execute_all-final cs s id v h f e = Steps-final _ _ id v f e (execute_all-refines cs s h).0
