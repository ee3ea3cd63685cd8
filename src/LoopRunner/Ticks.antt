-- ===== src/LoopRunner/Ticks.antt =====
-- services/loop-runner/src/tick.rs: any sequence of the sweeps, of one tick or of several.
use swarm_intelligence_engin.Prelude.{List, [], ◌∷◌, inl, inr, filter, Result-cases}
use swarm_intelligence_engin.Store.{Store}
use swarm_intelligence_engin.Tasks.{Context}
use swarm_intelligence_engin.LoopRunner.{Swept, then_sweep, in_phase, rows_in_phase}
use swarm_intelligence_engin.LoopRunner.Creation.{
  create_loop_for, objectives_without_loop, create_loops_for_new_objectives,
  create_cycles_for_active_loops, advance_intake, advance_intake_cycles,
}
use swarm_intelligence_engin.LoopRunner.Dispatching.{
  dispatch_queued_task, batch, dispatch_queued_tasks, start_execution, dispatch_phase,
}
use swarm_intelligence_engin.LoopRunner.Completion.{
  end_execution, check_execution_completion, end_integration, verify_integrations,
}
use swarm_intelligence_engin.LoopRunner.Rules.{sweep-keeps}
use swarm_intelligence_engin.LoopRunner.Single.{IsSingle}
use swarm_intelligence_engin.LoopRunner.Kept.{
  create_loop_for-IsSingle, advance_intake-IsSingle, dispatch_queued_task-IsSingle,
  start_execution-IsSingle, end_execution-IsSingle, end_integration-IsSingle,
}
use swarm_intelligence_engin.LoopRunner.Renewal.{create_cycles_for_active_loops-IsSingle}

-- The sweeps of a tick that are modelled.
pub data Sweep : Type 0 where
  new_loops new_cycles intake dispatch execution integration : Sweep

unfoldable pub run_sweep : Context → Sweep → Store → Swept
run_sweep cx new_loops s = create_loops_for_new_objectives cx s
run_sweep cx new_cycles s = create_cycles_for_active_loops cx s
run_sweep cx intake s = advance_intake_cycles cx s
run_sweep cx dispatch s = dispatch_phase cx s
run_sweep cx execution s = check_execution_completion cx s
run_sweep cx integration s = verify_integrations cx s

-- The tables after the sweeps, each of which may end with an error.
unfoldable pub run_sweeps : List (Context × Sweep) → Store → Store
run_sweeps [] s = s
run_sweeps ((cx, w) ∷ ws) s = run_sweeps ws (run_sweep cx w s).1

dispatch_phase-IsSingle : (cx : Context) (s : Store) → IsSingle s → IsSingle (dispatch_phase cx s).1
unfolding dispatch_phase dispatch_queued_tasks then_sweep
dispatch_phase-IsSingle cx s h =
    let first =
      sweep-keeps IsSingle 2 (dispatch_queued_task cx)
        (λ d t x k. dispatch_queued_task-IsSingle cx d x k t) (batch s) 0 0 s h in
    let s1 = (dispatch_queued_tasks cx s).1 in
    elim (Result-cases (dispatch_queued_tasks cx s).0) [
      | inl (n, e) ↦
          rw (then_sweep, e)
            (sweep-keeps IsSingle 2 (start_execution cx)
              (λ d c x k. start_execution-IsSingle cx d x k c)
              (rows_in_phase "dispatch" s1.loops s1.cycles) 20 0 s1 first)
      | inr (e, n) ↦ rw (then_sweep, n) first
    ]

run_sweep-IsSingle :
    (cx : Context) (w : Sweep) (s : Store) → IsSingle s → IsSingle (run_sweep cx w s).1
unfolding run_sweep create_loops_for_new_objectives advance_intake_cycles check_execution_completion
    verify_integrations
run_sweep-IsSingle cx new_loops s h =
    sweep-keeps IsSingle 2 (create_loop_for cx) (λ d o x k. create_loop_for-IsSingle cx d x k o)
      (objectives_without_loop s) 0 0 s h
run_sweep-IsSingle cx new_cycles s h = create_cycles_for_active_loops-IsSingle cx s h
run_sweep-IsSingle cx intake s h =
    sweep-keeps IsSingle 1 (advance_intake cx) (λ d c x k. advance_intake-IsSingle cx d x k c)
      (filter (in_phase "intake") s.cycles) 0 0 s h
run_sweep-IsSingle cx dispatch s h = dispatch_phase-IsSingle cx s h
run_sweep-IsSingle cx execution s h =
    sweep-keeps IsSingle 3 (end_execution cx) (λ d c x k. end_execution-IsSingle cx d x k c)
      (rows_in_phase "execution" s.loops s.cycles) 0 0 s h
run_sweep-IsSingle cx integration s h =
    sweep-keeps IsSingle 2 (end_integration cx) (λ d c x k. end_integration-IsSingle cx d x k c)
      (rows_in_phase "integration" s.loops s.cycles) 0 0 s h

-- Whatever sweeps are run, in any order and with any errors: no loop has two unfinished cycles, and
-- the identifiers of the loops stay different, if so it was at the start.
pub run_sweeps-IsSingle :
    (ws : List (Context × Sweep)) (s : Store) → IsSingle s → IsSingle (run_sweeps ws s)
unfolding run_sweeps
run_sweeps-IsSingle [] s h = h
run_sweeps-IsSingle ((cx, w) ∷ ws) s h =
    run_sweeps-IsSingle ws (run_sweep cx w s).1 (run_sweep-IsSingle cx w s h)
