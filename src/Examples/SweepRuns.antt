-- ===== src/Examples/SweepRuns.antt =====
-- Concrete sweeps of services/loop-runner/src/tick.rs.
use swarm_intelligence_engin.Prelude.{
  pos, ◌≡◌, ◌≢◌, refl, List, [], ◌∷◌, some, String, ◌>>=◌, arith,
}
use swarm_intelligence_engin.Store.{
  Store, Loop, Cycle, Json, insert_event, event_kind_allowed, update,
}
use swarm_intelligence_engin.Store.Inserts.{insert_attempt}
use swarm_intelligence_engin.Store.Queue.{
  queued_tasks, order_by_age, insert_by_age, start_queued, next_attempt_index, max_attempt,
  start_node,
}
use swarm_intelligence_engin.Store.Lookup.{status_of}
use swarm_intelligence_engin.Tasks.{Context}
use swarm_intelligence_engin.LoopRunner.{
  CycleRow, sweep, in_transaction, auto_commit, unless_recorded, set_phase, move_cycle,
  advance_cycle_phase,
}
use swarm_intelligence_engin.LoopRunner.Dispatching.{
  start_dispatch, dispatch_queued_task, dispatch_queued_tasks,
}
use swarm_intelligence_engin.LoopRunner.Completion.{end_execution}
use swarm_intelligence_engin.LoopRunner.Once.{dispatch_queued_tasks-once}
use swarm_intelligence_engin.LoopRunner.Gate.{IsExecuted, end_execution-IsExecuted}
use swarm_intelligence_engin.LoopRunner.Single.{IsSingle}
use swarm_intelligence_engin.LoopRunner.Ticks.{
  Sweep, new_loops, new_cycles, intake, dispatch, execution, integration, run_sweep, run_sweeps,
  run_sweeps-IsSingle,
}
use swarm_intelligence_engin.LoopRunner.Advance.{Moves, Opens, IsAdvanced, run_sweep-IsAdvanced}
use swarm_intelligence_engin.Examples.TaskRuns.{context, store, build, test_run, nth_id}
use swarm_intelligence_engin.Examples.CommandRuns.{goal}

abbrev main_loop : Loop
main_loop = record {
  loop_id = "l1";
  objective_id = "o1";
  cycle_index = pos 1;
  active_track = "main";
  created_at = 1;
  updated_at = 1;
}

abbrev cycle : String → Cycle
cycle phase = record {
  cycle_id = "c1";
  loop_id = "l1";
  phase = phase;
  policy_snapshot = Json.null;
  created_at = 1;
  updated_at = 1;
}

abbrev running_in : String → Store
running_in phase = record store {
  objectives = goal ∷ [];
  loops = main_loop ∷ [];
  cycles = cycle phase ∷ [];
}

-- The test task has been dispatched, has failed, and has been queued again.
unfoldable requeued : Store
requeued =
    let s = (dispatch_queued_tasks context store).1 in record s { tasks = build ∷ test_run ∷ [] }

test_moves :
    status_of "test" (dispatch_queued_tasks context store).1.tasks ≢ status_of "test" store.tasks
unfolding dispatch_queued_tasks queued_tasks order_by_age insert_by_age sweep dispatch_queued_task
    in_transaction unless_recorded start_dispatch start_queued next_attempt_index max_attempt
    insert_attempt start_node update insert_event event_kind_allowed nth_id ◌>>=◌
test_moves = λ e. cc

dispatch_queued_tasks-once_example :
    status_of "test" (dispatch_queued_tasks context requeued).1.tasks
    ≡ status_of "test" requeued.tasks
unfolding requeued
dispatch_queued_tasks-once_example =
    dispatch_queued_tasks-once context context "test" store requeued test_moves (λ h. h)

-- It stays queued.
test_is_stuck : status_of "test" requeued.tasks ≡ some "queued"
unfolding requeued
test_is_stuck = refl

abbrev sweeps : List (Context × Sweep)
sweeps =
    (context, new_loops)
    ∷ (context, new_cycles)
    ∷ (context, intake)
    ∷ (context, dispatch)
    ∷ (context, execution)
    ∷ (context, integration)
    ∷ []

single : IsSingle (running_in "next_cycle_ready")
single = ((tt, tt), λ l. ground arith)

run_sweeps-IsSingle_example : IsSingle (run_sweeps sweeps (running_in "next_cycle_ready"))
run_sweeps-IsSingle_example = run_sweeps-IsSingle sweeps (running_in "next_cycle_ready") single

abbrev row : CycleRow
row = record { cycle_id = "c1"; loop_id = "l1"; objective_id = "o1" }

abbrev executed : Store
executed =
    let s = running_in "execution" in
    record s { tasks = record build { status = "succeeded" } ∷ [] }

cycle_moves : (end_execution context 0 row executed).1.cycles ≢ executed.cycles
unfolding end_execution auto_commit advance_cycle_phase move_cycle set_phase in_transaction
    unless_recorded update insert_event event_kind_allowed nth_id ◌>>=◌
cycle_moves = λ e. cc

end_execution-IsExecuted_example : IsExecuted executed "o1"
end_execution-IsExecuted_example = end_execution-IsExecuted context 0 row executed cycle_moves

run_sweep-IsAdvanced_example :
    IsAdvanced
      (Moves integration)
      (Opens integration)
      (running_in "integration").cycles
      (run_sweep context integration (running_in "integration")).1.cycles
run_sweep-IsAdvanced_example = run_sweep-IsAdvanced context integration (running_in "integration")
