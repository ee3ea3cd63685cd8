-- ===== src/Tasks/Attempts.antt =====
-- What the transaction of `complete_attempt` leaves when it succeeds.
use swarm_intelligence_engin.Prelude.{
  ◌≡◌, refl, sym, ap, subst, ◌∙◌, inl, inr, Bool-cases, Bool, true, false, not, if◌then◌else◌,
  String, str_eq, eq_iff, eq_refl, ◌↔◌, ◌⊎◌, ℕ, length, find?, some, List, ok, ◌>>=◌, ok_inj,
  through, guard-eq-ok, ok_or-eq-ok, arith, ◌+◌,
}
use swarm_intelligence_engin.Store.{
  Task, TaskAttempt, Store, changed, same_task, set_task_status, set_node_lifecycle,
}
use swarm_intelligence_engin.Store.Lookup.{
  with_status, set_task_status-ok, set_node_lifecycle-ok, finish_attempts-ok,
}
use swarm_intelligence_engin.Tasks.{
  CompleteAttemptRequest, AttemptLifecycleResponse, Context, is_valid_attempt_transition,
}
use swarm_intelligence_engin.Tasks.Transactions.{complete_attempt_tx, same_attempt, propagated}
use swarm_intelligence_engin.Tasks.Steps.{store_artifacts-ok, insert_event-keeps}
use swarm_intelligence_engin.Store.Checks.{finished}

-- A report on an attempt: its move is legal, the task takes its status if it is running and is
-- left alone otherwise, the artifacts are stored, and the response says so.
pub record IsAttemptReported (now : ℕ) (id status : String) (added : ℕ) (s s' : Store)
    (r : AttemptLifecycleResponse) (node : String) : Type 0 where
  pub attempt : TaskAttempt
  pub found : find? (same_attempt id) s.task_attempts ≡ some attempt
  pub legal : is_valid_attempt_transition attempt.status status ≡ true
  pub task : Task
  pub task_found : find? (same_task attempt.task_id) s.tasks ≡ some task
  pub tasks : s'.tasks ≡ (
      if str_eq task.status "running"
      then changed (same_task attempt.task_id) (with_status now status) s.tasks
      else s.tasks)
  pub attempts : s'.task_attempts ≡ changed (same_attempt id) (finished now status) s.task_attempts
  pub edges : s'.node_edges ≡ s.node_edges
  pub stored : length s'.artifact_refs ≡ length s.artifact_refs + added
  pub answer_status : r.task_status ≡ propagated status task.status
  pub answer_node : node ≡ task.node_id

-- The ends of an attempt that runs.
pub attempt_transition_iff :
    (from to : String)
    → (is_valid_attempt_transition from to ≡ true)
      ↔ ((from ≡ "running") × ((to ≡ "succeeded") ⊎ (to ≡ "failed") ⊎ (to ≡ "cancelled")))
unfolding is_valid_attempt_transition
attempt_transition_iff from to =
    ground (
      arith,
      eq_iff from "running",
      eq_iff to "succeeded",
      eq_iff to "failed",
      eq_iff to "cancelled",
    )

-- A finished attempt is not running, so a running task always changes.
changes_when_running :
    (attempt status task : String)
    → is_valid_attempt_transition attempt status ≡ true
    → not (str_eq (propagated status task) task) ≡ str_eq task "running"
changes_when_running attempt status task v =
    let (_, ends) = (attempt_transition_iff attempt status).0 v in
    elim (Bool-cases (str_eq task "running")) [
      | inl e ↦
          let same = (eq_iff task "running").0 e in
          elim ends [
            | inl d ↦ rw (same, d) refl
            | inr (inl d) ↦ rw (same, d) refl
            | inr (inr d) ↦ rw (same, d) refl
          ]
      | inr n ↦ rw (n, eq_refl task) refl
    ]

propagates :
    (now : ℕ) (status id attempt task : String) (ts : List Task)
    → is_valid_attempt_transition attempt status ≡ true
    → (if not (str_eq (propagated status task) task)
        then changed (same_task id) (with_status now (propagated status task)) ts
        else ts)
      ≡ (if str_eq task "running" then changed (same_task id) (with_status now status) ts else ts)
propagates now status id attempt task ts v =
    rw (changes_when_running attempt status task v)
      (elim (Bool-cases (str_eq task "running")) [ inl e ↦ rw e refl | inr n ↦ rw n refl ])

-- The two updates, if the task takes the status of the attempt.
task_updated :
    (now : ℕ) (status id node new_lifecycle : String) (changes : Bool) (s1 : Store) {s3 : Store}
    → (if changes
        then set_task_status now status id s1 >>= set_node_lifecycle now new_lifecycle node
        else ok s1)
      ≡ ok s3
    → (s3.tasks
        ≡ (if changes then changed (same_task id) (with_status now status) s1.tasks else s1.tasks))
      × (s3.task_attempts ≡ s1.task_attempts)
      × (s3.node_edges ≡ s1.node_edges)
      × (s3.artifact_refs ≡ s1.artifact_refs)
task_updated now status id node new_lifecycle true s1 h = through _ _ h λ s2 e2 h3.
    let p2 = set_task_status-ok now s1 status id e2 in
    let p3 = set_node_lifecycle-ok now s2 new_lifecycle node h3 in (cc, cc, cc, cc)
task_updated now status id node new_lifecycle false s1 h = (cc, cc, cc, cc)

-- When the transaction of `complete_attempt` succeeds, the attempt has taken the requested status by
-- a legal transition, its task has taken it too if it was running and is left alone otherwise, as
-- many artifacts have been added as the request has, and the response gives the status of the task.
pub complete_attempt_tx-ok :
    (cx : Context) (id : String) (req : CompleteAttemptRequest) (s : Store)
    → {r : AttemptLifecycleResponse} {node : String} {s' : Store}
    → complete_attempt_tx cx id req s ≡ ok (r, (node, s'))
    → IsAttemptReported cx.now id req.status (length req.artifacts) s s' r node
unfolding complete_attempt_tx
complete_attempt_tx-ok cx id req s h = through _ _ h λ a e h1. through _ _ h1 λ _ v h2.
    through _ _ h2 λ s1 e1 h3. through _ _ h3 λ t e2 h4. through _ _ h4 λ s3 e3 h5.
      through _ _ h5 λ out e4 h6. through _ _ h6 λ s5 e5 h7.
        let legal = guard-eq-ok _ _ v in
        let p1 = finish_attempts-ok cx.now s req.status (same_attempt id) e1 in
        let (q1, q2, q3, q4) = task_updated cx.now _ a.task_id t.node_id _ _ s1 e3 in
        let (p4, counted, longer) = store_artifacts-ok cx a.task_id req.artifacts 0 s3 e4 in
        let (p5, kept) = insert_event-keeps _ out.0 e5 in
        subst (λ p. IsAttemptReported cx.now id req.status (length req.artifacts) s p.1.1 p.0 p.1.0)
          (ok_inj h7)
          (record {
            attempt = a;
            found = ok_or-eq-ok _ _ e;
            legal = legal;
            task = t;
            task_found = ap (λ x. find? (same_task a.task_id) x.tasks) p1 ∙ ok_or-eq-ok _ _ e2;
            tasks =
                p5.0
                ∙ p4.0
                ∙ q1
                ∙ propagates cx.now req.status a.task_id a.status t.status s1.tasks legal
                ∙ ap
                    (λ x.
                      if str_eq t.status "running"
                      then changed (same_task a.task_id) (with_status cx.now req.status) x.tasks
                      else x.tasks)
                    (sym p1);
            attempts = cc;
            edges = cc;
            stored = cc;
            answer_status = refl;
            answer_node = refl;
          })
