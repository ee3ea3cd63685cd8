-- ===== src/LoopRunner/Phases.antt =====
-- services/loop-runner/src/tick.rs: what a predicate on the tables needs in order to survive the
-- sweeps that move cycles from one phase to the next.
use swarm_intelligence_engin.Prelude.{
  ◌≡◌, ap, subst, ℕ, ◌+◌, true, inl, inr, Bool-cases, ◌&&◌, any, String, str_eq, ok, through,
  ok_inj, ◌==◌, ltb, Option-cases,
}
use swarm_intelligence_engin.Store.{Store, Cycle, Event, insert_event}
use swarm_intelligence_engin.Store.Queue.{is_queued}
use swarm_intelligence_engin.Tasks.{Context}
use swarm_intelligence_engin.LoopRunner.{
  CycleRow, cycle_in_phase, phase_key, set_phase, move_cycle, advance_cycle_phase,
}
use swarm_intelligence_engin.LoopRunner.Creation.{leave_intake, advance_intake}
use swarm_intelligence_engin.LoopRunner.Dispatching.{count_tasks, start_execution}
use swarm_intelligence_engin.LoopRunner.Completion.{
  is_active, awaits_certification, verify_status, end_execution, end_integration,
}
use swarm_intelligence_engin.LoopRunner.Rules.{recorded-keeps, auto_commit-keeps}

-- A predicate that survives an event and the moves of a class.
module _ (P : Store → Type 0) (Allowed : String → String → Type 0)
    (by_event : (e : Event) (s s' : Store) → P s → insert_event e s ≡ ok s' → P s')
    (by_move : (now : ℕ) (to id from : String) (s s' : Store)
      → Allowed from to
      → P s
      → set_phase now to id from s ≡ ok s'
      → P s')
    (cx : Context) where
  move_cycle-keeps :
      (drawn : ℕ) (s : Store) (cycle_id loop_id from to trigger : String) (n : ℕ) (s' : Store)
      → Allowed from to
      → P s
      → move_cycle cx drawn cycle_id loop_id from to trigger s ≡ ok (n, s')
      → P s'
  unfolding move_cycle
  move_cycle-keeps drawn s cycle_id loop_id from to trigger n s' a h e = through _ _ e λ s1 e1 g1.
      through _ _ g1 λ s2 e2 g2. through _ _ g2 λ s3 e3 g3.
        let last : s3 ≡ s' = ap (λ x. x.1) (ok_inj g3) in
        let moved = by_move cx.now to cycle_id from s s1 a h e1 in
        subst P last (by_event _ s2 s3 (by_event _ s1 s2 moved e2) e3)

  advance_cycle_phase-keeps :
      (drawn : ℕ) (s : Store) (cycle_id loop_id from to trigger : String)
      → Allowed from to
      → P s
      → P (advance_cycle_phase cx drawn cycle_id loop_id from to trigger s).1
  unfolding advance_cycle_phase
  advance_cycle_phase-keeps drawn s cycle_id loop_id from to trigger a h =
      recorded-keeps P "cycle" (phase_key cycle_id from to)
        (any (cycle_in_phase cycle_id from) s.cycles) s
        (move_cycle cx drawn cycle_id loop_id from to trigger s) h
        λ fresh n s' e. move_cycle-keeps drawn s cycle_id loop_id from to trigger n s' a h e

  leave_intake-keeps :
      (drawn : ℕ) (s : Store) (c : Cycle) (n : ℕ) (s' : Store)
      → Allowed "intake" "plan_elaboration"
      → P s
      → leave_intake cx drawn c s ≡ ok (n, s')
      → P s'
  unfolding leave_intake
  leave_intake-keeps drawn s c n s' a h e = through _ _ e λ s1 e1 g1. through _ _ g1 λ s2 e2 g2.
      let last : s2 ≡ s' = ap (λ x. x.1) (ok_inj g2) in
      let moved = by_move cx.now "plan_elaboration" c.cycle_id "intake" s s1 a h e1 in
      subst P last (by_event _ s1 s2 moved e2)

  pub advance_intake-keeps :
      Allowed "intake" "plan_elaboration"
      → (drawn : ℕ) (c : Cycle) (s : Store) → P s
      → P (advance_intake cx drawn c s).1
  unfolding advance_intake
  advance_intake-keeps a drawn c s h =
      recorded-keeps P "cycle" _ (any (cycle_in_phase c.cycle_id "intake") s.cycles) s
        (leave_intake cx drawn c s) h λ fresh n s' e. leave_intake-keeps drawn s c n s' a h e

  pub start_execution-keeps :
      Allowed "dispatch" "execution"
      → (drawn : ℕ) (c : CycleRow) (s : Store) → P s
      → P (start_execution cx drawn c s).1
  unfolding start_execution
  start_execution-keeps a drawn c s h =
      elim (Bool-cases (count_tasks is_queued s c.objective_id == 0)) [
        | inl e ↦
            rw (start_execution, e)
              (advance_cycle_phase-keeps drawn s c.cycle_id c.loop_id "dispatch" "execution"
                "all_tasks_dispatched" a h)
        | inr n ↦ rw (start_execution, n) h
      ]

  pub end_execution-keeps :
      Allowed "execution" "integration"
      → (drawn : ℕ) (c : CycleRow) (s : Store) → P s
      → P (end_execution cx drawn c s).1
  unfolding end_execution
  end_execution-keeps a drawn c s h =
      elim (Bool-cases (ltb 0 (count_tasks (awaits_certification s) s c.objective_id))) [
        | inl e ↦ rw (end_execution, e) h
        | inr n ↦
            elim (Bool-cases (
              count_tasks is_active s c.objective_id == 0
              && ltb 0 (count_tasks (λ t. true) s c.objective_id))) [
                | inl e ↦
                    rw (end_execution, n, e)
                      (auto_commit-keeps P s _
                        (advance_cycle_phase cx (drawn + 1) c.cycle_id c.loop_id "execution"
                          "integration" "all_tasks_terminal")
                        h
                        λ s' g.
                          advance_cycle_phase-keeps (drawn + 1) s' c.cycle_id c.loop_id "execution"
                            "integration" "all_tasks_terminal" a (by_event _ s s' h g))
                | inr m ↦ rw (end_execution, n, m) h
              ]
      ]

  pub end_integration-keeps :
      Allowed "integration" "state_update"
      → (drawn : ℕ) (c : CycleRow) (s : Store) → P s
      → P (end_integration cx drawn c s).1
  unfolding end_integration
  end_integration-keeps a drawn c s h = elim (Option-cases (verify_status s c.objective_id)) [
    | inl e ↦
        rw (end_integration, e)
          (advance_cycle_phase-keeps drawn s c.cycle_id c.loop_id "integration" "state_update"
            "integration_complete" a h)
    | inr (v, e) ↦ elim (Bool-cases (str_eq v "succeeded")) [
      | inl q ↦
          rw (end_integration, e, q)
            (advance_cycle_phase-keeps drawn s c.cycle_id c.loop_id "integration" "state_update"
              "integration_verified" a h)
      | inr n ↦
          rw (end_integration, e, n)
            (elim (Bool-cases (str_eq v "failed")) [
              | inl f ↦
                  rw f (auto_commit-keeps P s _ (λ s1. (ok 0, s1)) h λ s' g. by_event _ s s' h g)
              | inr f ↦ rw f h
            ])
    ]
  ]
