-- ===== src/LoopRunner/Advance.antt =====
-- services/loop-runner/src/tick.rs: the moves of the cycles from phase to phase.
use swarm_intelligence_engin.Prelude.{
  ◌≡◌, refl, ap, ◌∙◌, ℕ, ◌⊎◌, inl, inr, false, List, [], ◌∷◌, ◌++◌, filter, String, str_eq, eq_iff,
  ok, through, ok_inj, Result-cases, arith,
}
use swarm_intelligence_engin.Store.{
  Store, Cycle, Loop, Objective, Task, Event, changed, insert_event,
}
use swarm_intelligence_engin.Tasks.{Context}
use swarm_intelligence_engin.LoopRunner.{
  then_sweep, in_phase, rows_in_phase, cycle_in_phase, set_phase,
}
use swarm_intelligence_engin.LoopRunner.Creation.{
  loop_key, open_loop, create_loop_for, objectives_without_loop, create_loops_for_new_objectives,
  cycle_key, open_cycle, create_cycle_for, loops_without_active_cycle,
  create_cycles_for_active_loops, advance_intake, advance_intake_cycles,
}
use swarm_intelligence_engin.LoopRunner.Dispatching.{
  dispatch_queued_task, batch, dispatch_queued_tasks, start_execution, dispatch_phase,
}
use swarm_intelligence_engin.LoopRunner.Completion.{
  end_execution, check_execution_completion, end_integration, verify_integrations,
}
use swarm_intelligence_engin.LoopRunner.Rules.{sweep-keeps, unrecorded-keeps, insert_event-apart}
use swarm_intelligence_engin.LoopRunner.Once.{dispatch_queued_task-cases}
use swarm_intelligence_engin.LoopRunner.Phases.{
  advance_intake-keeps, start_execution-keeps, end_execution-keeps, end_integration-keeps,
}
use swarm_intelligence_engin.LoopRunner.Single.{entering, set_phase-ok, insert_loop-ok}
use swarm_intelligence_engin.LoopRunner.Renewal.{insert_cycle-ok}
use swarm_intelligence_engin.LoopRunner.Ticks.{
  Sweep, new_loops, new_cycles, intake, dispatch, execution, integration, run_sweep,
}

-- The only move that the sweep may make with a cycle, from one phase to another.
abbrev pub Moves : Sweep → String → String → Type 0
Moves new_loops from to = ⊥
Moves new_cycles from to = ⊥
Moves intake from to = (from ≡ "intake") × (to ≡ "plan_elaboration")
Moves dispatch from to = (from ≡ "dispatch") × (to ≡ "execution")
Moves execution from to = (from ≡ "execution") × (to ≡ "integration")
Moves integration from to = (from ≡ "integration") × (to ≡ "state_update")

-- The phase in which the sweep may add a cycle.
abbrev pub Opens : Sweep → String → Type 0
Opens new_loops phase = ⊥
Opens new_cycles phase = phase ≡ "intake"
Opens intake phase = ⊥
Opens dispatch phase = ⊥
Opens execution phase = ⊥
Opens integration phase = ⊥

-- Every cycle of the first list stands at its place in the second, with its identifier and its loop, and
-- its phase is the same or that of a move; the cycles that follow are new.
abbrev pub IsAdvanced :
    (String → String → Type 0) → (String → Type 0) → List Cycle → List Cycle → Type 0
IsAdvanced M A [] [] = Unit
IsAdvanced M A [] (d ∷ ds) = A d.phase × IsAdvanced M A [] ds
IsAdvanced M A (c ∷ cs) [] = ⊥
IsAdvanced M A (c ∷ cs) (d ∷ ds) =
    ((d.cycle_id ≡ c.cycle_id)
      × (d.loop_id ≡ c.loop_id)
      × ((d.phase ≡ c.phase) ⊎ M c.phase d.phase))
    × IsAdvanced M A cs ds

IsAdvanced-refl :
    (M : String → String → Type 0) (A : String → Type 0) (cs : List Cycle) → IsAdvanced M A cs cs
IsAdvanced-refl M A [] = tt
IsAdvanced-refl M A (c ∷ cs) = ((refl, refl, inl refl), IsAdvanced-refl M A cs)

IsAdvanced-snoc :
    (M : String → String → Type 0) (A : String → Type 0) (c : Cycle) (cs ds : List Cycle)
    → A c.phase
    → IsAdvanced M A cs ds
    → IsAdvanced M A cs (ds ++ (c ∷ []))
IsAdvanced-snoc M A c [] [] a h = (a, tt)
IsAdvanced-snoc M A c [] (d ∷ ds) a h = (h.0, IsAdvanced-snoc M A c [] ds a h.1)
IsAdvanced-snoc M A c (x ∷ xs) [] a h = absurd h
IsAdvanced-snoc M A c (x ∷ xs) (d ∷ ds) a h = (h.0, IsAdvanced-snoc M A c xs ds a h.1)

-- A single move, out of a phase that it does not enter.
abbrev Single : String → String → String → String → Type 0
Single from to p q = (p ≡ from) × (q ≡ to)

IsAdvanced-entering :
    (from to id : String) (now : ℕ) (cs ds : List Cycle)
    → str_eq from to ≡ false
    → IsAdvanced (Single from to) (λ p. ⊥) cs ds
    → IsAdvanced
        (Single from to)
        (λ p. ⊥)
        cs
        (changed (cycle_in_phase id from) (entering now to) ds)
IsAdvanced-entering from to id now [] [] n h = tt
IsAdvanced-entering from to id now [] (d ∷ ds) n h = absurd h.0
IsAdvanced-entering from to id now (c ∷ cs) [] n h = absurd h
IsAdvanced-entering from to id now (c ∷ cs) (d ∷ ds) n h =
    ground
      (arith, IsAdvanced-entering from to id now cs ds n h.1, eq_iff d.phase from, eq_iff from to)

-- The cycles of the store have gone no further than a move of the pair from those before it.
abbrev IsMoved : String → String → List Cycle → Store → Type 0
IsMoved from to cs s = IsAdvanced (Single from to) (λ p. ⊥) cs s.cycles

module _ (from to : String) (apart : str_eq from to ≡ false) (cs : List Cycle) where
  IsMoved-event :
      (e : Event) (s s' : Store)
      → IsMoved from to cs s
      → insert_event e s ≡ ok s'
      → IsMoved from to cs s'
  IsMoved-event e s s' h g =
      rw (insert_event-apart (λ x. x.cycles) e s {s' = s'} (λ rows. refl) g) h

  IsMoved-entering :
      (now : ℕ) (to' id from' : String) (s s' : Store)
      → Single from to from' to'
      → IsMoved from to cs s
      → set_phase now to' id from' s ≡ ok s'
      → IsMoved from to cs s'
  IsMoved-entering now to' id from' s s' (f, t) h e =
      let p = set_phase-ok now to' id from' s {s' = s'} e in
      rw (← p, f, t) (IsAdvanced-entering from to id now cs s.cycles apart h)

module _ (cx : Context) (drawn : ℕ) (s : Store) where
  open_loop-cycles :
      (o : Objective) (n : ℕ) (s' : Store)
      → open_loop cx drawn o s ≡ ok (n, s')
      → s'.cycles ≡ s.cycles
  unfolding open_loop
  open_loop-cycles o n s' e = through _ _ e λ s1 e1 g1. through _ _ g1 λ s2 e2 g2.
      let last : s2 ≡ s' = ap (λ x. x.1) (ok_inj g2) in
      let (loops, cycles, absent) = insert_loop-ok _ s {s' = s1} e1 in
      rw (← last) (insert_event-apart (λ x. x.cycles) _ s1 {s' = s2} (λ rows. refl) e2 ∙ cycles)

  create_loop_for-cycles : (o : Objective) → (create_loop_for cx drawn o s).1.cycles ≡ s.cycles
  unfolding create_loop_for
  create_loop_for-cycles o =
      unrecorded-keeps (λ x. x.cycles ≡ s.cycles) "loop" (loop_key o.objective_id) s
        (open_loop cx drawn o s) refl (open_loop-cycles o)

dispatch_queued_task-cycles :
    (cx : Context) (drawn : ℕ) (t : Task) (s : Store)
    → (dispatch_queued_task cx drawn t s).1.cycles ≡ s.cycles
dispatch_queued_task-cycles cx drawn t s = elim (dispatch_queued_task-cases cx drawn t s) [
  | inl e ↦ rw e refl
  | inr d ↦ d.cycles
]

-- The cycles of the store are those before it, with new ones in intake.
abbrev IsOpened : List Cycle → Store → Type 0
IsOpened cs s = IsAdvanced (Moves new_cycles) (Opens new_cycles) cs s.cycles

module _ (cx : Context) (cs : List Cycle) (drawn : ℕ) (l : Loop) (s : Store)
    (h : IsOpened cs s) where
  open_cycle-IsOpened : (n : ℕ) (s' : Store) → open_cycle cx drawn l s ≡ ok (n, s') → IsOpened cs s'
  unfolding open_cycle
  open_cycle-IsOpened n s' e = through _ _ e λ s1 e1 g1. through _ _ g1 λ s2 e2 g2.
      let last : s2 ≡ s' = ap (λ x. x.1) (ok_inj g2) in
      let (cycles, loops) = insert_cycle-ok _ _ s {s' = s1} e1 in
      let kept = insert_event-apart (λ x. x.cycles) _ _ {s' = s2} (λ rows. refl) e2 in
      rw (← last, kept, cycles)
        (IsAdvanced-snoc (Moves new_cycles) (Opens new_cycles) _ cs s.cycles refl h)

  create_cycle_for-IsOpened : IsOpened cs (create_cycle_for cx drawn l s).1
  unfolding create_cycle_for
  create_cycle_for-IsOpened =
      unrecorded-keeps (IsOpened cs) "cycle" (cycle_key l) s (open_cycle cx drawn l s) h
        open_cycle-IsOpened

dispatch_phase-IsMoved :
    (cx : Context) (s : Store) → IsMoved "dispatch" "execution" s.cycles (dispatch_phase cx s).1
unfolding dispatch_phase dispatch_queued_tasks then_sweep
dispatch_phase-IsMoved cx s =
    let s1 = (dispatch_queued_tasks cx s).1 in
    let kept : s1.cycles ≡ s.cycles =
      sweep-keeps (λ x. x.cycles ≡ s.cycles) 2 (dispatch_queued_task cx)
        (λ d t x k. dispatch_queued_task-cycles cx d t x ∙ k) (batch s) 0 0 s refl in
    let first : IsMoved "dispatch" "execution" s.cycles s1 =
      rw kept (IsAdvanced-refl _ _ s.cycles) in
    elim (Result-cases (dispatch_queued_tasks cx s).0) [
      | inl (n, e) ↦
          rw (then_sweep, e)
            (sweep-keeps (IsMoved "dispatch" "execution" s.cycles) 2 (start_execution cx)
              (start_execution-keeps (IsMoved "dispatch" "execution" s.cycles)
                (Single "dispatch" "execution") (IsMoved-event "dispatch" "execution" refl s.cycles)
                (IsMoved-entering "dispatch" "execution" refl s.cycles) cx (refl, refl))
              (rows_in_phase "dispatch" s1.loops s1.cycles) 20 0 s1 first)
      | inr (e, n) ↦ rw (then_sweep, n) first
    ]

-- Whatever a sweep meets, errors included: every cycle keeps its place, its identifier and its loop;
-- intake moves cycles only from intake to plan_elaboration, dispatch only from dispatch to execution,
-- execution only from execution to integration, integration only from integration to state_update,
-- and each by one such move at most; the other sweeps move none. Only new_cycles adds cycles, all in
-- intake.
pub run_sweep-IsAdvanced :
    (cx : Context) (w : Sweep) (s : Store)
    → IsAdvanced (Moves w) (Opens w) s.cycles (run_sweep cx w s).1.cycles
unfolding run_sweep create_loops_for_new_objectives advance_intake_cycles check_execution_completion
    verify_integrations create_cycles_for_active_loops
run_sweep-IsAdvanced cx new_loops s =
    let kept : (run_sweep cx new_loops s).1.cycles ≡ s.cycles =
      sweep-keeps (λ x. x.cycles ≡ s.cycles) 2 (create_loop_for cx)
        (λ d o x k. create_loop_for-cycles cx d x o ∙ k) (objectives_without_loop s) 0 0 s refl in
    rw kept (IsAdvanced-refl (Moves new_loops) (Opens new_loops) s.cycles)
run_sweep-IsAdvanced cx new_cycles s =
    sweep-keeps (IsOpened s.cycles) 2 (create_cycle_for cx) (create_cycle_for-IsOpened cx s.cycles)
      (loops_without_active_cycle s) 0 0 s
      (IsAdvanced-refl (Moves new_cycles) (Opens new_cycles) s.cycles)
run_sweep-IsAdvanced cx intake s =
    sweep-keeps (IsMoved "intake" "plan_elaboration" s.cycles) 1 (advance_intake cx)
      (advance_intake-keeps (IsMoved "intake" "plan_elaboration" s.cycles)
        (Single "intake" "plan_elaboration")
        (IsMoved-event "intake" "plan_elaboration" refl s.cycles)
        (IsMoved-entering "intake" "plan_elaboration" refl s.cycles) cx (refl, refl))
      (filter (in_phase "intake") s.cycles) 0 0 s (IsAdvanced-refl _ _ s.cycles)
run_sweep-IsAdvanced cx dispatch s = dispatch_phase-IsMoved cx s
run_sweep-IsAdvanced cx execution s =
    sweep-keeps (IsMoved "execution" "integration" s.cycles) 3 (end_execution cx)
      (end_execution-keeps (IsMoved "execution" "integration" s.cycles)
        (Single "execution" "integration") (IsMoved-event "execution" "integration" refl s.cycles)
        (IsMoved-entering "execution" "integration" refl s.cycles) cx (refl, refl))
      (rows_in_phase "execution" s.loops s.cycles) 0 0 s (IsAdvanced-refl _ _ s.cycles)
run_sweep-IsAdvanced cx integration s =
    sweep-keeps (IsMoved "integration" "state_update" s.cycles) 2 (end_integration cx)
      (end_integration-keeps (IsMoved "integration" "state_update" s.cycles)
        (Single "integration" "state_update")
        (IsMoved-event "integration" "state_update" refl s.cycles)
        (IsMoved-entering "integration" "state_update" refl s.cycles) cx (refl, refl))
      (rows_in_phase "integration" s.loops s.cycles) 0 0 s (IsAdvanced-refl _ _ s.cycles)
