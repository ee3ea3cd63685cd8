-- ===== src/Commands/Moves.antt =====
-- packages/control-plane/src/executor.rs: the steps of the board that the commands take which write.
use swarm_intelligence_engin.Prelude.{
  ◌≡◌, refl, ap, sym, subst, ◌∙◌, Bool, true, false, inl, inr, ◌⊎◌, not-eq-true, and-eq-true,
  if-eq-ok, not, if◌then◌else◌, [], ◌∷◌, ◌++◌, any, some, String, any-append, ok, err, through,
  guard-eq-ok, ok_or-eq-ok, ok_inj, eq_iff, arith,
}
use swarm_intelligence_engin.Store.{Task, Node, Store, internal_error, same_task, same_node}
use swarm_intelligence_engin.Store.Inserts.{insert_loop, insert_node, insert_task}
use swarm_intelligence_engin.Store.Lookup.{
  status_in, set_task_status-ok, set_node_lifecycle-ok, finish_attempts-ok,
}
use swarm_intelligence_engin.Tasks.{Context, running_attempt_of}
use swarm_intelligence_engin.Tasks.Failing.{HasNodes}
use swarm_intelligence_engin.Commands.{CommandOutcome, CommandResult, unless_done}
use swarm_intelligence_engin.Commands.Requests.{
  CreateLoopCommand, CreateNodeFromPlanCommand, CreateTaskFromNodeCommand, TaskCompletionCommand,
  RetrySchedulingCommand, TaskStatus,
}
use swarm_intelligence_engin.Commands.Creation.{
  execute_create_loop, execute_create_node_from_plan, execute_create_task_from_node,
}
use swarm_intelligence_engin.Commands.Reports.{
  is_settled, execute_task_completion, execute_retry_scheduling,
}
use swarm_intelligence_engin.Commands.Journal.{db-eq-ok, unless_done-ok}
use swarm_intelligence_engin.Commands.Writes.{
  IsStep, HasNodes-snoc, IsStep-same, IsStep-change, append_event-keeps,
}
use swarm_intelligence_engin.Commands.Board.{
  Step, stays, creates, completes, retries, board, board-created, status_of-absent,
}

-- Either skipped, or what the body does.
unless_done-IsStep :
    (cx : Context) (kind key message : String) (s : Store) (rest : CommandResult)
    {r : CommandOutcome × Store}
    → HasNodes s
    → unless_done cx kind key message s rest ≡ ok r
    → (rest ≡ ok r → IsStep s r.1)
    → IsStep s r.1
unless_done-IsStep cx kind key message s rest {r} h e k =
    elim (unless_done-ok cx kind key message s rest e) [
      | inl p ↦ subst (λ x. IsStep s x.1) (sym p.1) (stays, h)
      | inr q ↦ k q.1
    ]

insert_loop-keeps :
    (l : _) (s : Store) {s' : Store}
    → insert_loop l s ≡ ok s'
    → (s'.tasks ≡ s.tasks) × (s'.nodes ≡ s.nodes)
unfolding insert_loop
insert_loop-keeps l s h = rw (← (if-eq-ok _ _ h).1) (refl, refl)

one_of_two :
    (a b c : Bool) (s t : Store) {s' : Store}
    → (if not a
        then err internal_error
        else if b
        then ok s
        else if c
        then ok t
        else err internal_error)
      ≡ ok s'
    → (s ≡ s') ⊎ (t ≡ s')
one_of_two a b c s t h = ground arith

insert_node-keeps :
    (n : Node) (s : Store) {s' : Store}
    → insert_node n s ≡ ok s'
    → (s'.tasks ≡ s.tasks) × ((s'.nodes ≡ s.nodes) ⊎ (s'.nodes ≡ s.nodes ++ (n ∷ [])))
unfolding insert_node
insert_node-keeps n s {s'} h =
    elim (one_of_two _ _ _ s (record s { nodes = s.nodes ++ (n ∷ []) }) {s' = s'} h) [
      | inl e ↦ rw (← e) (refl, inl refl)
      | inr e ↦ rw (← e) (refl, inr refl)
    ]

insert_task-ok :
    (t : Task) (s : Store) {s' : Store}
    → insert_task t s ≡ ok s'
    → (s'.tasks ≡ s.tasks ++ (t ∷ []))
      × (s'.nodes ≡ s.nodes)
      × (any (same_node t.node_id) s.nodes ≡ true)
      × (any (same_task t.task_id) s.tasks ≡ false)
unfolding insert_task
insert_task-ok t s h =
    let (c, e) = if-eq-ok _ _ h in
    let (node, absent) = (and-eq-true _ _).0 ((and-eq-true _ _).0 c).1 in
    rw (← e) (refl, refl, node, not-eq-true _ absent)

module _ (cx : Context) (s : Store) {r : CommandOutcome × Store} (h : HasNodes s) where
  pub execute_create_loop-IsStep :
      (cmd : CreateLoopCommand) → execute_create_loop cx cmd s ≡ ok r → IsStep s r.1
  unfolding execute_create_loop
  execute_create_loop-IsStep cmd e = unless_done-IsStep _ _ _ _ _ _ h e λ g.
      through _ _ g λ u e1 g1. through _ _ g1 λ s1 e2 g2. through _ _ g2 λ p e3 g3.
        let kept = insert_loop-keeps _ s (db-eq-ok _ e2) in
        let logged = append_event-keeps _ _ _ _ _ _ _ s1 (db-eq-ok _ e3) in
        let last : p.1 ≡ r.1 = ap (λ x. x.1) (ok_inj g3) in
        IsStep-same s r.1 h (rw (← last) (logged.0 ∙ kept.0))
          (λ id k. rw (← last, logged.1, kept.1) k)

  pub execute_create_node_from_plan-IsStep :
      (cmd : CreateNodeFromPlanCommand)
      → execute_create_node_from_plan cx cmd s ≡ ok r
      → IsStep s r.1
  unfolding execute_create_node_from_plan
  execute_create_node_from_plan-IsStep cmd e = unless_done-IsStep _ _ _ _ _ _ h e λ g.
      through _ _ g λ u e1 g1. through _ _ g1 λ s1 e2 g2. through _ _ g2 λ p e3 g3.
        let kept = insert_node-keeps _ s (db-eq-ok _ e2) in
        let logged = append_event-keeps _ _ _ _ _ _ _ s1 (db-eq-ok _ e3) in
        let last : p.1 ≡ r.1 = ap (λ x. x.1) (ok_inj g3) in
        IsStep-same s r.1 h (rw (← last) (logged.0 ∙ kept.0)) λ id k.
          rw (← last, logged.1)
            (elim kept.1 [
              | inl same ↦ rw same k
              | inr longer ↦ rw longer (any-append (same_node id) s.nodes _ ∙ rw k refl)
            ])

  pub execute_create_task_from_node-IsStep :
      (cmd : CreateTaskFromNodeCommand)
      → execute_create_task_from_node cx cmd s ≡ ok r
      → IsStep s r.1
  unfolding execute_create_task_from_node
  execute_create_task_from_node-IsStep cmd e = unless_done-IsStep _ _ _ _ _ _ h e λ g.
      through _ _ g λ u e1 g1. through _ _ g1 λ s1 e2 g2. through _ _ g2 λ p e3 g3.
        let (rows, nodes, node, absent) = insert_task-ok _ s (db-eq-ok _ e2) in
        let logged = append_event-keeps _ _ _ _ _ _ _ s1 (db-eq-ok _ e3) in
        let last : p.1 ≡ r.1 = ap (λ x. x.1) (ok_inj g3) in
        let shown =
          board-created _ s r.1 absent (ap (λ x. x.tasks) (sym last) ∙ (logged.0 ∙ rows)) in
        (
          subst (Step (board s)) shown (creates _ _ (status_of-absent _ s.tasks absent)),
          rw (← last, logged.0, logged.1, rows, nodes) (HasNodes-snoc s.nodes _ s.tasks node h),
        )

  pub execute_retry_scheduling-IsStep :
      (cmd : RetrySchedulingCommand) → execute_retry_scheduling cx cmd s ≡ ok r → IsStep s r.1
  unfolding execute_retry_scheduling
  execute_retry_scheduling-IsStep cmd e = unless_done-IsStep _ _ _ _ _ _ h e λ g.
      through _ _ g λ t e1 g1. through _ _ g1 λ u e2 g2. through _ _ g2 λ v e3 g3.
        through _ _ g3 λ s1 e4 g4. through _ _ g4 λ s2 e5 g5. through _ _ g5 λ p e6 g6.
          let p1 = set_task_status-ok cx.now s {s' = s1} "queued" cmd.task_id (db-eq-ok _ e4) in
          let p2 = set_node_lifecycle-ok cx.now s1 {s' = s2} "queued" t.node_id (db-eq-ok _ e5) in
          let logged = append_event-keeps _ _ _ _ _ _ _ s2 (db-eq-ok _ e6) in
          let last : p.1 ≡ r.1 = ap (λ x. x.1) (ok_inj g6) in
          let failed = (eq_iff t.status "failed").0 (guard-eq-ok _ _ e2) in
          let found = ap status_in (ok_or-eq-ok _ _ e1) ∙ ap some failed in
          IsStep-change cx.now "queued" "queued" cmd.task_id t.node_id "failed" s r.1 h found
            (rw (← last) (logged.0 ∙ rw (← p2, ← p1) refl))
            (rw (← last) (logged.1 ∙ rw (← p2, ← p1) refl)) (retries cmd.task_id found)

  pub execute_task_completion-IsStep :
      (cmd : TaskCompletionCommand)
      → cmd.final_status ≡ TaskStatus.succeeded
      → execute_task_completion cx cmd s ≡ ok r
      → IsStep s r.1
  unfolding execute_task_completion
  execute_task_completion-IsStep cmd final e = unless_done-IsStep _ _ _ _ _ _ h (rw final at e) λ g.
      through _ _ g λ t e1 g1. through _ _ g1 λ u e2 g2. through _ _ g2 λ s1 e3 g3.
        through _ _ g3 λ s2 e4 g4. through _ _ g4 λ s3 e5 g5. through _ _ g5 λ p e6 g6.
          let p1 = set_task_status-ok cx.now s {s' = s1} "succeeded" cmd.task_id (db-eq-ok _ e3) in
          let p2 =
            finish_attempts-ok cx.now s1 {s' = s2} "succeeded" (running_attempt_of cmd.task_id)
              (db-eq-ok _ e4) in
          let p3 =
            set_node_lifecycle-ok cx.now s2 {s' = s3} "completed" t.node_id (db-eq-ok _ e5) in
          let logged = append_event-keeps _ _ _ _ _ _ _ s3 (db-eq-ok _ e6) in
          let last : p.1 ≡ r.1 = ap (λ x. x.1) (ok_inj g6) in
          let unsettled : is_settled t.status ≡ false = not-eq-true _ (guard-eq-ok _ _ e2) in
          let found = ap status_in (ok_or-eq-ok _ _ e1) in
          IsStep-change cx.now "succeeded" "completed" cmd.task_id t.node_id t.status s r.1 h found
            (rw (← last) (logged.0 ∙ rw (← p3, ← p2, ← p1) refl))
            (rw (← last) (logged.1 ∙ rw (← p3, ← p2, ← p1) refl))
            (completes cmd.task_id t.status found unsettled)
