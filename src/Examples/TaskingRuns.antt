-- ===== src/Examples/TaskingRuns.antt =====
-- Concrete runs of the creation of tasks and of the verification node in
-- services/loop-runner/src/tick.rs.
use swarm_intelligence_engin.Prelude.{◌≡◌, refl, true, List, [], ◌∷◌, ◌++◌, All, inl, none, ◌>>=◌}
use swarm_intelligence_engin.Store.{
  Task, Node, Store, one_of, insert_event, event_kind_allowed, update,
}
use swarm_intelligence_engin.Store.Inserts.{insert_node, insert_edge, insert_task}
use swarm_intelligence_engin.LoopRunner.{then_sweep, sweep, in_transaction, unless_recorded}
use swarm_intelligence_engin.LoopRunner.Tasking.{
  TaskSetup, untasked_nodes, create_task_for, create_tasks_for_objective, open_task, opened_task,
  leave_proposed, unmet_deps, initial_status, insert_opened_task, provider_mode_for,
}
use swarm_intelligence_engin.LoopRunner.Readiness.{IsOpened, create_tasks_for_objective-IsOpened}
use swarm_intelligence_engin.LoopRunner.Verification.{
  verify_node, other_nodes, add_edges, open_verification, add_verification,
}
use swarm_intelligence_engin.LoopRunner.Merging.{IsNew, add_verification-waits}
use swarm_intelligence_engin.Examples.TaskRuns.{
  context, store, build, node_1, nth_id, nth_id-distinct,
}
use swarm_intelligence_engin.Examples.CommandRuns.{goal}

abbrev setup : TaskSetup
setup = record { policy = none; available_skills = [] }

-- The second node has no task and waits for the first.
abbrev half_tasked : Store
half_tasked = record store { tasks = build ∷ [] }

create_tasks_for_objective-IsOpened_example :
    (added : List Task) × ((create_tasks_for_objective context setup "c1" "o1" 0
        half_tasked).1.tasks
      ≡ half_tasked.tasks ++ added)
    × All (IsOpened half_tasked) added
create_tasks_for_objective-IsOpened_example =
    create_tasks_for_objective-IsOpened context setup "c1" "o1" 0 half_tasked

abbrev done_node : Node
done_node = record node_1 { lifecycle = "completed" }

abbrev finished_plan : Store
finished_plan = record store {
  objectives = goal ∷ [];
  tasks = [];
  task_attempts = [];
  nodes = done_node ∷ [];
  node_edges = [];
}

fresh_ids : IsNew context 0 finished_plan
unfolding nth_id
fresh_ids = record {
  no_node = refl;
  no_task = refl;
  no_edge = record { unused = λ k le. refl; distinct = nth_id-distinct };
}

abbrev verification_task : Task
verification_task =
    opened_task context setup (nth_id 3) "running" (verify_node context "o1" (nth_id 0))

add_verification-waits_example :
    one_of ("admitted" ∷ "done" ∷ "completed" ∷ []) done_node.lifecycle ≡ true
unfolding nth_id add_verification then_sweep sweep in_transaction unless_recorded open_verification
    other_nodes add_edges insert_node insert_edge insert_task insert_event event_kind_allowed
    create_tasks_for_objective untasked_nodes create_task_for open_task leave_proposed unmet_deps
    initial_status insert_opened_task provider_mode_for update ◌>>=◌
add_verification-waits_example =
    add_verification-waits context setup "c1" "o1" 0 finished_plan fresh_ids verification_task
      done_node (inl refl) refl refl (inl refl) refl
