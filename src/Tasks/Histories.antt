-- ===== src/Tasks/Histories.antt =====
-- services/orchestration-api/src/routes/task_lifecycle.rs: what each request of a sequence may do to the
-- status of a task.
use swarm_intelligence_engin.Prelude.{
  ℕ, ◌≡◌, refl, sym, ap, subst, ◌∙◌, ◌⊎◌, inl, inr, true, Bool-cases, Option-cases, Result-cases,
  IsUnique, List, [], ◌∷◌, find?, Option, some, some_inj, String, str_eq, eq_iff,
}
use swarm_intelligence_engin.Store.{Task, TaskAttempt, Store, changed, same_task}
use swarm_intelligence_engin.Store.Lookup.{
  status_in, status_of, with_status, keys, status_of-changed, status_of-changed-other,
  task_ids-changed,
}
use swarm_intelligence_engin.Tasks.{
  is_valid_task_transition, CompleteAttemptRequest, TaskLifecycleResponse, AttemptLifecycleResponse,
  Context,
}
use swarm_intelligence_engin.Tasks.Transactions.{
  same_attempt, complete_task_tx, fail_task_tx, patch_task_tx, complete_attempt_tx,
}
use swarm_intelligence_engin.Tasks.Unblocking.{is_unblocked, unblock_dependent_tasks}
use swarm_intelligence_engin.Tasks.Service.{
  complete_task, fail_task, patch_task, complete_attempt, Request, complete, fail, patch,
  finish_attempt, serve, after_success,
}
use swarm_intelligence_engin.Tasks.Steps.{IsReported}
use swarm_intelligence_engin.Tasks.Reports.{complete_task_tx-ok, fail_task_tx-ok, patch_task_tx-ok}
use swarm_intelligence_engin.Tasks.Attempts.{IsAttemptReported, complete_attempt_tx-ok}
use swarm_intelligence_engin.Tasks.Waiting.{
  unblock_dependent_tasks-exact, unblock_dependent_tasks-none, is_unblocked-queued,
}
use swarm_intelligence_engin.Tasks.Legal.{serve-IsLegal, attempt_then_task}

-- The task that a request reports on: the one it names, or the one of the attempt it names.
abbrev pub IsSubject : Request → Store → String → Type 0
IsSubject (complete task_id req) s id = task_id ≡ id
IsSubject (fail task_id req) s id = task_id ≡ id
IsSubject (patch task_id req) s id = task_id ≡ id
IsSubject (finish_attempt attempt_id req) s id =
    (a : TaskAttempt) × (find? (same_attempt attempt_id) s.task_attempts ≡ some a)
    × (a.task_id ≡ id)

-- The status that a request asks for.
abbrev pub requested : Request → String
requested (complete task_id req) = "succeeded"
requested (fail task_id req) = "failed"
requested (patch task_id req) = req.status
requested (finish_attempt attempt_id req) = req.status

-- What may happen to the status of a task: nothing; the task was queued and is started; or the request
-- reports on the task, and the table has the transition from its status to the one asked for.
abbrev pub IsServed : Request → Store → Store → String → Type 0
IsServed q s s' id =
    (status_of id s'.tasks ≡ status_of id s.tasks)
    ⊎ ((status_of id s.tasks ≡ some "queued") × (status_of id s'.tasks ≡ some "running"))
    ⊎ (IsSubject q s id
        × ((from : String) × (status_of id s.tasks ≡ some from)
            × (is_valid_task_transition from (requested q) ≡ true)
            × (status_of id s'.tasks ≡ some (requested q))))

-- The requests are served one after the other, and each does no more than that to the task.
abbrev pub IsLegalHistory : List (Context × Request) → Store → String → Type 0
IsLegalHistory [] s id = Unit
IsLegalHistory ((cx, q) ∷ qs) s id =
    IsServed q s (serve cx q s) id × IsLegalHistory qs (serve cx q s) id

-- What the unblocking does to a task.
abbrev IsStarted : Store → Store → String → Type 0
IsStarted s s' id =
    (status_of id s'.tasks ≡ status_of id s.tasks)
    ⊎ ((status_of id s.tasks ≡ some "queued") × (status_of id s'.tasks ≡ some "running"))

unblocking-IsStarted :
    (now : ℕ) (node : String) (s : Store) (id : String)
    → IsUnique (keys s.tasks)
    → IsStarted s (unblock_dependent_tasks now node s) id
unblocking-IsStarted now node s id u = elim (Option-cases (find? (same_task id) s.tasks)) [
  | inl h ↦ inl (rw h (unblock_dependent_tasks-none now node s id h))
  | inr (t, h) ↦
      let exact = unblock_dependent_tasks-exact now node s id t u h in
      elim (Bool-cases (is_unblocked s node t)) [
        | inl e ↦ inr (rw (h, is_unblocked-queued s node t e) refl, rw e at exact)
        | inr n ↦ inl (rw h (rw n at exact))
      ]
]

after_success-IsStarted :
    (cx : Context) (status node : String) (s : Store) (id : String)
    → IsUnique (keys s.tasks)
    → (status ≡ "succeeded") × IsStarted s (after_success cx status node s) id
      ⊎ (after_success cx status node s ≡ s)
after_success-IsStarted cx status node s id u = elim (Bool-cases (str_eq status "succeeded")) [
  | inl e ↦ inl ((eq_iff status "succeeded").0 e, rw e (unblocking-IsStarted cx.now node s id u))
  | inr n ↦ inr (rw n refl)
]

-- The request reports on the task, and moves it to the status that it asks for.
abbrev IsMoved : Request → Store → Store → String → Type 0
IsMoved q s s' id =
    IsSubject q s id
    × ((from : String) × (status_of id s.tasks ≡ some from)
        × (is_valid_task_transition from (requested q) ≡ true)
        × (status_of id s'.tasks ≡ some (requested q)))

not_queued : {o : Option String} → o ≡ some "succeeded" → ¬ (o ≡ some "queued")
not_queued e k =
    let same : str_eq "succeeded" "queued" ≡ true =
      (eq_iff "succeeded" "queued").1 (some_inj (sym e ∙ k)) in
    cc

-- A report, then the unblocking after a success: the task that was moved has succeeded, so it is not
-- started again.
then_started :
    (cx : Context) (q : Request) (status node : String) (s s1 : Store) (id : String)
    → IsUnique (keys s1.tasks)
    → (status_of id s1.tasks ≡ status_of id s.tasks) ⊎ (IsMoved q s s1 id × (status ≡ requested q))
    → IsServed q s (after_success cx status node s1) id
then_started cx q status node s s1 id u report =
    elim (after_success-IsStarted cx status node s1 id u) [
      | inr e ↦ rw e (elim report [ inl same ↦ inl same | inr (moved, _) ↦ inr (inr moved) ])
      | inl (won, inl kept) ↦ elim report [
        | inl same ↦ inl (kept ∙ same)
        | inr ((subject, (from, before, legal, after)), _) ↦
            inr (inr (subject, (from, before, legal, kept ∙ after)))
      ]
      | inl (won, inr (queued, running)) ↦ elim report [
        | inl same ↦ inr (inl (sym same ∙ queued, running))
        | inr ((subject, (from, before, legal, after)), asked) ↦
            absurd (not_queued (after ∙ ap some (sym asked ∙ won)) queued)
      ]
    ]

-- The task of the changed row moves, the others keep their status.
report-IsMoved :
    (now : ℕ) (q : Request) (target id : String) (t : Task) (s s1 : Store)
    → find? (same_task target) s.tasks ≡ some t
    → is_valid_task_transition t.status (requested q) ≡ true
    → s1.tasks ≡ changed (same_task target) (with_status now (requested q)) s.tasks
    → (target ≡ id → IsSubject q s id)
    → (status_of id s1.tasks ≡ status_of id s.tasks) ⊎ IsMoved q s s1 id
report-IsMoved now q target id t s s1 found legal e subject = elim (Bool-cases (str_eq target id)) [
  | inl y ↦
      let same = (eq_iff target id).0 y in
      let before : status_of id s.tasks ≡ some t.status =
        subst (λ i. status_of i s.tasks ≡ some t.status) same (ap status_in found) in
      inr (
        subject same,
        (
          t.status,
          before,
          legal,
          subst (λ i. status_of i s1.tasks ≡ some (requested q)) same
              (rw e (status_of-changed now (requested q) target s.tasks (ap status_in found))),
        ),
      )
  | inr n ↦ inl (rw e (status_of-changed-other now (requested q) target s.tasks id n))
]

IsUnique-changed :
    (now : ℕ) (v target : String) (s s1 : Store)
    → s1.tasks ≡ changed (same_task target) (with_status now v) s.tasks
    → IsUnique (keys s.tasks)
    → IsUnique (keys s1.tasks)
IsUnique-changed now v target s s1 e u =
    subst IsUnique (sym (ap keys e ∙ task_ids-changed now v target s.tasks)) u

with_answer : {A B C : Type 0} → A ⊎ B → C → A ⊎ (B × C)
with_answer (inl a) c = inl a
with_answer (inr b) c = inr (b, c)

reported-IsServed :
    (cx : Context) (q : Request) (target status : String) (added : ℕ) (s s1 : Store)
    (r : TaskLifecycleResponse) (id : String)
    → IsUnique (keys s.tasks)
    → IsReported cx.now target (requested q) added s s1 r
    → (target ≡ id → IsSubject q s id)
    → status ≡ requested q
    → IsServed q s (after_success cx status r.node_id s1) id
reported-IsServed cx q target status added s s1 r id u p subject asked =
    then_started cx q status r.node_id s s1 id
      (IsUnique-changed cx.now (requested q) target s s1 p.tasks u)
      (with_answer (report-IsMoved cx.now q target id p.task s s1 p.found p.legal p.tasks subject)
        asked)

attempt-IsServed :
    (cx : Context) (attempt_id : String) (req : CompleteAttemptRequest) (added : ℕ) (s s1 : Store)
    (r : AttemptLifecycleResponse) (node id : String)
    → IsUnique (keys s.tasks)
    → IsAttemptReported cx.now attempt_id req.status added s s1 r node
    → IsServed (finish_attempt attempt_id req) s (after_success cx r.task_status node s1) id
attempt-IsServed cx attempt_id req added s s1 r node id u p =
    let q = finish_attempt attempt_id req in
    elim (Bool-cases (str_eq p.task.status "running")) [
      | inl e ↦
          let tasks = rw e at p.tasks in
          let legal : is_valid_task_transition p.task.status req.status ≡ true =
            rw ((eq_iff p.task.status "running").0 e)
              (attempt_then_task p.attempt.status req.status p.legal) in
          then_started cx q r.task_status node s s1 id
            (IsUnique-changed cx.now req.status p.attempt.task_id s s1 tasks u)
            (with_answer
              (report-IsMoved cx.now q p.attempt.task_id id p.task s s1 p.task_found legal tasks
                (λ same. (p.attempt, p.found, same)))
              (rw e at p.answer_status))
      | inr n ↦
          let kept = rw n at p.tasks in
          then_started cx q r.task_status node s s1 id
            (subst (λ ts. IsUnique (keys ts)) (sym kept) u) (inl (ap (status_of id) kept))
    ]

without_start :
    (q : Request) (s s1 : Store) (id : String)
    → (status_of id s1.tasks ≡ status_of id s.tasks) ⊎ IsMoved q s s1 id
    → IsServed q s s1 id
without_start q s s1 id (inl same) = inl same
without_start q s s1 id (inr moved) = inr (inr moved)

serve-IsServed :
    (cx : Context) (q : Request) (s : Store) (id : String)
    → IsUnique (keys s.tasks)
    → IsServed q s (serve cx q s) id
unfolding serve complete_task fail_task patch_task complete_attempt
serve-IsServed cx (complete task_id req) s id u =
    elim (Result-cases (complete_task_tx cx task_id req s)) [
      | inl ((r, s1), h) ↦
          rw (h, serve, complete_task)
            (reported-IsServed cx (complete task_id req) task_id "succeeded" _ s s1 r id u
              (complete_task_tx-ok cx task_id req s h) (λ e. e) refl)
      | inr (e, h) ↦ rw (h, serve, complete_task) (inl refl)
    ]
serve-IsServed cx (fail task_id req) s id u = elim (Result-cases (fail_task_tx cx task_id req s)) [
  | inl ((r, s1), h) ↦
      let p = fail_task_tx-ok cx task_id req s h in
      rw (h, serve, fail_task)
        (without_start (fail task_id req) s s1 id (
          report-IsMoved cx.now (fail task_id req) task_id id p.task s s1 p.found p.legal p.tasks
            (λ e. e)))
  | inr (e, h) ↦ rw (h, serve, fail_task) (inl refl)
]
serve-IsServed cx (patch task_id req) s id u =
    elim (Result-cases (patch_task_tx cx task_id req s)) [
      | inl ((r, s1), h) ↦
          let p = patch_task_tx-ok cx task_id req s h in
          rw (h, serve, patch_task)
            (reported-IsServed cx (patch task_id req) task_id r.status _ s s1 r id u p (λ e. e)
              p.answer_status)
      | inr (e, h) ↦ rw (h, serve, patch_task) (inl refl)
    ]
serve-IsServed cx (finish_attempt attempt_id req) s id u =
    elim (Result-cases (complete_attempt_tx cx attempt_id req s)) [
      | inl ((r, (node, s1)), h) ↦
          rw (h, serve, complete_attempt)
            (attempt-IsServed cx attempt_id req _ s s1 r node id u
              (complete_attempt_tx-ok cx attempt_id req s h))
      | inr (e, h) ↦ rw (h, serve, complete_attempt) (inl refl)
    ]

-- In any sequence of requests, if no two tasks have the same identifier, each request leaves the
-- status of each task alone, or starts the task when it was queued, or, when it reports on the task,
-- moves it by a single transition of the table to the status that the request asks for.
pub serve_all-IsLegalHistory :
    (qs : List (Context × Request)) (s : Store) (id : String)
    → IsUnique (keys s.tasks)
    → IsLegalHistory qs s id
serve_all-IsLegalHistory [] s id u = tt
serve_all-IsLegalHistory ((cx, q) ∷ qs) s id u = (
  serve-IsServed cx q s id u,
  serve_all-IsLegalHistory qs (serve cx q s) id (subst IsUnique (sym (serve-IsLegal cx q s u).1) u),
)
