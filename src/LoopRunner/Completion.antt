-- ===== src/LoopRunner/Completion.antt =====
-- services/loop-runner/src/tick.rs: the sweeps that end the execution of a cycle, and its
-- integration.
use swarm_intelligence_engin.Prelude.{
  ℕ, ◌+◌, ltb, ◌==◌, Bool, true, not, ◌&&◌, if◌then◌else◌, [], ◌∷◌, any, find?, Option, none, some,
  String, str_eq, append, ok,
}
use swarm_intelligence_engin.Store.{
  Task, Node, Json, Store, CertificationSubmission, one_of, same_node, insert_event,
}
use swarm_intelligence_engin.Store.Lookup.{status_in}
use swarm_intelligence_engin.Tasks.{Context}
use swarm_intelligence_engin.Commands.{event_for}
use swarm_intelligence_engin.LoopRunner.{
  Swept, auto_commit, CycleRow, sweep, rows_in_phase, advance_cycle_phase,
}
use swarm_intelligence_engin.LoopRunner.Dispatching.{count_tasks}

-- `t.status IN ('queued', 'running')`.
abbrev pub is_active : Task → Bool
is_active t = one_of ("queued" ∷ "running" ∷ []) t.status

abbrev pub has_succeeded : Task → Bool
has_succeeded t = str_eq t.status "succeeded"

abbrev has_failed : Task → Bool
has_failed t = str_eq t.status "failed"

abbrev is_passed : String → CertificationSubmission → Bool
is_passed candidate_id cs =
    str_eq cs.candidate_id candidate_id
    && one_of ("completed" ∷ "acknowledged" ∷ []) cs.queue_status

-- A candidate for the task with a submission that is completed or acknowledged.
abbrev pub is_certified : Store → Task → Bool
is_certified s t =
    any
      (λ cc.
        str_eq cc.task_id t.task_id && any (is_passed cc.candidate_id) s.certification_submissions)
      s.certification_candidates

abbrev pub needs_certification : Store → Task → Bool
needs_certification s t = any (λ n. same_node t.node_id n && n.certification_required) s.nodes

-- The succeeded task whose node requires a certification that it does not have.
abbrev pub awaits_certification : Store → Task → Bool
awaits_certification s t = needs_certification s t && (has_succeeded t && not (is_certified s t))

unfoldable pub end_execution : Context → ℕ → CycleRow → Store → Swept
end_execution cx drawn c s =
    if ltb 0 (count_tasks (awaits_certification s) s c.objective_id)
    then (ok 0, s)
    else if count_tasks is_active s c.objective_id == 0
        && ltb 0 (count_tasks (λ t. true) s c.objective_id)
    then auto_commit s
        (insert_event
          (event_for cx drawn "cycle" c.cycle_id "execution_completed"
            (append "exec-summary-" c.cycle_id)
            (("cycle_id", Json.text c.cycle_id)
              ∷ ("objective_id", Json.text c.objective_id)
              ∷ ("total_tasks", Json.count (count_tasks (λ t. true) s c.objective_id))
              ∷ ("succeeded", Json.count (count_tasks has_succeeded s c.objective_id))
              ∷ ("failed", Json.count (count_tasks has_failed s c.objective_id))
              ∷ ("trigger", Json.text "execution_complete")
              ∷ []))
          s)
        (advance_cycle_phase cx (drawn + 1) c.cycle_id c.loop_id "execution" "integration"
          "all_tasks_terminal")
    else (ok 0, s)

unfoldable pub check_execution_completion : Context → Store → Swept
check_execution_completion cx s =
    sweep 3 (end_execution cx) (rows_in_phase "execution" s.loops s.cycles) 0 0 s

abbrev is_integration_node : String → String → Node → Bool
is_integration_node node_id objective_id n =
    same_node node_id n && (str_eq n.objective_id objective_id && str_eq n.lane "integration")

abbrev pub is_verification : Store → String → Task → Bool
is_verification s objective_id t =
    str_eq t.worker_role "integration_verifier"
    && any (is_integration_node t.node_id objective_id) s.nodes

-- `LIMIT 1` without an order: the first row of the table.
unfoldable pub verify_status : Store → String → Option String
verify_status s objective_id = status_in (find? (is_verification s objective_id) s.tasks)

-- What the loop over the cycles in integration does with the status of the verification.
unfoldable pub end_integration : Context → ℕ → CycleRow → Store → Swept
end_integration cx drawn c s = elim (verify_status s c.objective_id) [
  | none ↦
      advance_cycle_phase cx drawn c.cycle_id c.loop_id "integration" "state_update"
        "integration_complete" s
  | some status ↦
      if str_eq status "succeeded"
      then advance_cycle_phase cx drawn c.cycle_id c.loop_id "integration" "state_update"
          "integration_verified" s
      else if str_eq status "failed"
      then auto_commit s
          (insert_event
            (event_for cx drawn "cycle" c.cycle_id "integration_verification_failed"
              (append "integration-failed-" c.cycle_id)
              (("objective_id", Json.text c.objective_id) ∷ []))
            s)
          (λ s1. (ok 0, s1))
      else (ok 0, s)
]

-- The first loop of `complete_integration`.
unfoldable pub verify_integrations : Context → Store → Swept
verify_integrations cx s =
    sweep 2 (end_integration cx) (rows_in_phase "integration" s.loops s.cycles) 0 0 s
