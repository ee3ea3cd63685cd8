-- ===== src/Commands/Retries.antt =====
-- packages/control-plane/src/executor.rs: exactly when the retry of a task is granted.
use swarm_intelligence_engin.Prelude.{
  [], ◌∷◌, ℕ, ℤ, pos, leℤ, ltℤ, ◌≡◌, refl, ◌↔◌, ◌⊎◌, inl, inr, true, false, not, any, find?, Option,
  none, some, eq_iff, ok, Result-cases, ◌>>=◌, through, guard-eq-ok, ok_or-eq-ok, some_inj, sym, ap,
  ◌∙◌, subst, arith,
}
use swarm_intelligence_engin.Store.{
  Json, Event, Task, Store, changed, same_task, same_node, event_kind_allowed,
}
use swarm_intelligence_engin.Store.Lookup.{with_status}
use swarm_intelligence_engin.Store.Checks.{
  with_lifecycle, set_task_status-passes, set_node_lifecycle-passes,
}
use swarm_intelligence_engin.Tasks.{Context}
use swarm_intelligence_engin.Tasks.Answers.{IsNewEvent, insert_event-new}
use swarm_intelligence_engin.Commands.{CommandOutcome, append_event, event_for, has_key, db}
use swarm_intelligence_engin.Commands.Requests.{RetrySchedulingCommand}
use swarm_intelligence_engin.Commands.Reports.{
  attempt_count, within_budget, execute_retry_scheduling,
}
use swarm_intelligence_engin.Commands.Journal.{unless_done-runs}

-- No budget, or one above the number of attempts.
abbrev pub HasBudget : Option ℤ → ℕ → Type 0
HasBudget limit attempts =
    (limit ≡ none) ⊎ ((budget : ℤ) × (limit ≡ some budget) × (ltℤ (pos attempts) budget ≡ true))

ltℤ_iff : (a b : ℤ) → (not (leℤ b a) ≡ true) ↔ (ltℤ a b ≡ true)
ltℤ_iff a b = ground arith

budget_iff :
    (limit : Option ℤ) (n : ℕ)
    → ((elim limit [ none ↦ true | some budget ↦ not (leℤ budget (pos n)) ]) ≡ true)
      ↔ HasBudget limit n
budget_iff none n = (λ h. inl refl, λ h. refl)
budget_iff (some b) n = (
  λ h. inr (b, refl, (ltℤ_iff (pos n) b).0 h),
  λ h. elim h [
    | inl e ↦ cc
    | inr (budget, e, k) ↦
        let same = some_inj e in
        (ltℤ_iff (pos n) b).1 (subst (λ x. ltℤ (pos n) x ≡ true) (sym same) k)
  ],
)

abbrev retry_event : Context → RetrySchedulingCommand → Task → Event
retry_event cx cmd t =
    event_for cx 0 "task" cmd.task_id "task_retry_scheduled" cmd.idempotency_key (
      ("task_id", Json.text cmd.task_id)
      ∷ ("node_id", Json.text t.node_id)
      ∷ ("next_attempt_number", Json.count cmd.next_attempt_number)
      ∷ ("delay_ms", Json.count cmd.delay_ms)
      ∷ ("reason", Json.text cmd.reason)
      ∷ ("reassign_worker", Json.flag cmd.reassign_worker)
      ∷ [])

module _ (cx : Context) (cmd : RetrySchedulingCommand) (s : Store) (t : Task) where
  retry_granted :
      find? (same_task cmd.task_id) s.tasks ≡ some t
      → IsNewEvent cx "task" cmd.idempotency_key s.event_journal
      → t.status ≡ "failed"
      → within_budget t s ≡ true
      → (r : CommandOutcome × Store) × (execute_retry_scheduling cx cmd s ≡ ok r)
  unfolding execute_retry_scheduling append_event db event_kind_allowed ◌>>=◌ within_budget
  retry_granted found fresh failed enough =
      let s1 = record s {
        tasks = changed (same_task cmd.task_id) (with_status cx.now "queued") s.tasks;
      } in
      let s2 = record s1 {
        nodes = changed (same_node t.node_id) (with_lifecycle cx.now "queued") s.nodes;
      } in
      elim (Result-cases (execute_retry_scheduling cx cmd s)) [
        | inl granted ↦ granted
        | inr (e, n) ↦
            let granted =
              rw
                (
                  execute_retry_scheduling,
                  unless_done-runs cx "task" cmd.idempotency_key "retry already scheduled" s _
                      fresh.0,
                  found,
                  failed,
                  enough,
                  set_task_status-passes cx.now "queued" s cmd.task_id refl,
                  set_node_lifecycle-passes cx.now "queued" s1 t.node_id refl,
                  insert_event-new (retry_event cx cmd t) s2 refl fresh.0 (fresh.1 0),
                )
                at n in
            cc
      ]

  retry_needs :
      {r : CommandOutcome × Store}
      → find? (same_task cmd.task_id) s.tasks ≡ some t
      → any (has_key "task" cmd.idempotency_key) s.event_journal ≡ false
      → execute_retry_scheduling cx cmd s ≡ ok r
      → (t.status ≡ "failed") × (within_budget t s ≡ true)
  unfolding execute_retry_scheduling
  retry_needs found fresh h =
      through _ _ (sym (unless_done-runs cx "task" cmd.idempotency_key _ s _ fresh) ∙ h) λ u e1 g1.
        through _ _ g1 λ v e2 g2. through _ _ g2 λ w e3 g3.
          let same : u ≡ t = some_inj (sym (ok_or-eq-ok _ _ e1) ∙ found) in
          let failed = (eq_iff u.status "failed").0 (guard-eq-ok _ _ e2) in
          let enough : within_budget u s ≡ true = guard-eq-ok _ _ e3 in
          (
            ap (λ x. x.status) (sym same) ∙ failed,
            subst (λ x. within_budget x s ≡ true) same enough,
          )

  -- A retry with a key and an event identifier that the journal does not have succeeds exactly when
  -- its task is failed and has no budget, or has made fewer attempts than the budget.
  pub execute_retry_scheduling-ok_iff :
      find? (same_task cmd.task_id) s.tasks ≡ some t
      → IsNewEvent cx "task" cmd.idempotency_key s.event_journal
      → ((r : CommandOutcome × Store) × (execute_retry_scheduling cx cmd s ≡ ok r))
        ↔ ((t.status ≡ "failed") × HasBudget t.retry_budget (attempt_count t.task_id s))
  unfolding within_budget
  execute_retry_scheduling-ok_iff found fresh =
      let budget = budget_iff t.retry_budget (attempt_count t.task_id s) in
      (
        λ h. let (failed, enough) = retry_needs found fresh.0 h.1 in (failed, budget.0 enough),
        λ h. retry_granted found fresh h.0 (budget.1 h.1),
      )
