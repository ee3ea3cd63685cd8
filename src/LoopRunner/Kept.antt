-- ===== src/LoopRunner/Kept.antt =====
-- services/loop-runner/src/tick.rs: the unfinished cycles of a loop under the sweeps that create none.
use swarm_intelligence_engin.Prelude.{
  ◌≡◌, refl, ap, subst, ℕ, false, inl, inr, String, str_eq, ok, through, ok_inj,
}
use swarm_intelligence_engin.Store.{Store, Cycle, Objective, Task}
use swarm_intelligence_engin.Tasks.{Context}
use swarm_intelligence_engin.LoopRunner.{CycleRow}
use swarm_intelligence_engin.LoopRunner.Creation.{
  loop_key, open_loop, create_loop_for, advance_intake,
}
use swarm_intelligence_engin.LoopRunner.Dispatching.{dispatch_queued_task, start_execution}
use swarm_intelligence_engin.LoopRunner.Completion.{end_execution, end_integration}
use swarm_intelligence_engin.LoopRunner.Once.{dispatch_queued_task-cases}
use swarm_intelligence_engin.LoopRunner.Rules.{unrecorded-keeps}
use swarm_intelligence_engin.LoopRunner.Phases.{
  advance_intake-keeps, start_execution-keeps, end_execution-keeps, end_integration-keeps,
}
use swarm_intelligence_engin.LoopRunner.Single.{
  IsSingle, IsSingle-same, IsSingle-entering, IsSingle-event, insert_loop-ok, IsUnique-snoc,
}

-- The phase is not the one of a finished cycle.
abbrev IsUnfinished : String → String → Type 0
IsUnfinished from to = str_eq from "next_cycle_ready" ≡ false

module _ (cx : Context) (drawn : ℕ) (s : Store) (h : IsSingle s) where
  pub advance_intake-IsSingle : (c : Cycle) → IsSingle (advance_intake cx drawn c s).1
  advance_intake-IsSingle c =
      advance_intake-keeps IsSingle IsUnfinished IsSingle-event IsSingle-entering cx refl drawn c s
        h

  open_loop-IsSingle :
      (o : Objective) (n : ℕ) (s' : Store) → open_loop cx drawn o s ≡ ok (n, s') → IsSingle s'
  unfolding open_loop
  open_loop-IsSingle o n s' e = through _ _ e λ s1 e1 g1. through _ _ g1 λ s2 e2 g2.
      let last : s2 ≡ s' = ap (λ x. x.1) (ok_inj g2) in
      let (loops, cycles, absent) = insert_loop-ok _ s {s' = s1} e1 in
      let opened : IsSingle s1 = rw (loops, cycles) (IsUnique-snoc _ s.loops absent h.0, h.1) in
      subst IsSingle last (IsSingle-event _ s1 s2 opened e2)

  pub create_loop_for-IsSingle : (o : Objective) → IsSingle (create_loop_for cx drawn o s).1
  unfolding create_loop_for
  create_loop_for-IsSingle o =
      unrecorded-keeps IsSingle "loop" (loop_key o.objective_id) s (open_loop cx drawn o s) h
        λ n s' e. open_loop-IsSingle o n s' e

  pub dispatch_queued_task-IsSingle : (t : Task) → IsSingle (dispatch_queued_task cx drawn t s).1
  dispatch_queued_task-IsSingle t = elim (dispatch_queued_task-cases cx drawn t s) [
    | inl e ↦ rw e h
    | inr d ↦ IsSingle-same s (dispatch_queued_task cx drawn t s).1 h d.cycles d.loops
  ]

  pub start_execution-IsSingle : (c : CycleRow) → IsSingle (start_execution cx drawn c s).1
  start_execution-IsSingle c =
      start_execution-keeps IsSingle IsUnfinished IsSingle-event IsSingle-entering cx refl drawn c s
        h

  pub end_execution-IsSingle : (c : CycleRow) → IsSingle (end_execution cx drawn c s).1
  end_execution-IsSingle c =
      end_execution-keeps IsSingle IsUnfinished IsSingle-event IsSingle-entering cx refl drawn c s h

  pub end_integration-IsSingle : (c : CycleRow) → IsSingle (end_integration cx drawn c s).1
  end_integration-IsSingle c =
      end_integration-keeps IsSingle IsUnfinished IsSingle-event IsSingle-entering cx refl drawn c s
        h
