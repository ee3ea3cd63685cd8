-- ===== src/Tasks/Legal.antt =====
-- Where a sequence of requests can bring the status of a task.
use swarm_intelligence_engin.Prelude.{
  IsUnique, ◌≡◌, refl, sym, ap, subst, ◌∙◌, true, inl, inr, Bool-cases, Result-cases, List, [], ◌∷◌,
  find?, some, String, str_eq, eq_iff, ℕ,
}
use swarm_intelligence_engin.Machine.{here, next}
use swarm_intelligence_engin.Store.{Task, Store, changed, same_task}
use swarm_intelligence_engin.Store.Lookup.{status_in, with_status, keys, task_ids-changed}
use swarm_intelligence_engin.Tasks.{
  is_valid_task_transition, is_valid_attempt_transition, TaskLifecycleResponse,
  AttemptLifecycleResponse, Context,
}
use swarm_intelligence_engin.Tasks.Transactions.{
  complete_task_tx, fail_task_tx, patch_task_tx, complete_attempt_tx,
}
use swarm_intelligence_engin.Tasks.Unblocking.{unblock_dependent_tasks, unblocked_tasks}
use swarm_intelligence_engin.Tasks.Service.{
  complete_task, fail_task, patch_task, complete_attempt, Request, complete, fail, patch,
  finish_attempt, serve, serve_all, after_success,
}
use swarm_intelligence_engin.Tasks.Moves.{Moves, Moves-refl, Moves-trans, Moves-changed}
use swarm_intelligence_engin.Tasks.Steps.{IsReported}
use swarm_intelligence_engin.Tasks.Reports.{complete_task_tx-ok, fail_task_tx-ok, patch_task_tx-ok}
use swarm_intelligence_engin.Tasks.Attempts.{
  IsAttemptReported, complete_attempt_tx-ok, attempt_transition_iff,
}
use swarm_intelligence_engin.Tasks.Waiting.{keys-start_tasks, unblock_dependent_tasks-Moves}

-- The tasks stay the same ones, and their statuses move legally.
abbrev pub IsLegal : Store → Store → Type 0
IsLegal s s' = Moves s.tasks s'.tasks × (keys s'.tasks ≡ keys s.tasks)

IsLegal-refl : (s : Store) → IsLegal s s
IsLegal-refl s = (Moves-refl s.tasks, refl)

IsLegal-trans : (s t u : Store) → IsLegal s t → IsLegal t u → IsLegal s u
IsLegal-trans s t u h k = (Moves-trans s.tasks t.tasks u.tasks h.0 k.0, k.1 ∙ h.1)

-- One task takes a status that its own leads to.
IsLegal-change :
    (now : ℕ) (v id : String) (t : Task) (s s' : Store)
    → find? (same_task id) s.tasks ≡ some t
    → is_valid_task_transition t.status v ≡ true
    → s'.tasks ≡ changed (same_task id) (with_status now v) s.tasks
    → IsLegal s s'
IsLegal-change now v id t s s' found legal e = rw e (
  Moves-changed now v id t.status s.tasks (ap status_in found) (next here legal),
  task_ids-changed now v id s.tasks,
)

reported-IsLegal :
    (now : ℕ) (id v : String) (n : ℕ) (s s' : Store) (r : TaskLifecycleResponse)
    → IsReported now id v n s s' r
    → IsLegal s s'
reported-IsLegal now id v n s s' r p = IsLegal-change now v id p.task s s' p.found p.legal p.tasks

-- What an attempt may end with is what its task may, when it runs.
pub attempt_then_task :
    (from to : String)
    → is_valid_attempt_transition from to ≡ true
    → is_valid_task_transition "running" to ≡ true
unfolding is_valid_task_transition
attempt_then_task from to v = elim ((attempt_transition_iff from to).0 v).1 [
  | inl e ↦ rw e refl
  | inr (inl e) ↦ rw e refl
  | inr (inr e) ↦ rw e refl
]

attempt-IsLegal :
    (now : ℕ) (id v : String) (n : ℕ) (s s' : Store) (r : AttemptLifecycleResponse) (node : String)
    → IsAttemptReported now id v n s s' r node
    → IsLegal s s'
attempt-IsLegal now id v n s s' r node p = elim (Bool-cases (str_eq p.task.status "running")) [
  | inl e ↦
      IsLegal-change now v p.attempt.task_id p.task s s' p.task_found
        (rw ((eq_iff p.task.status "running").0 e) (attempt_then_task p.attempt.status v p.legal))
        (rw e at p.tasks)
  | inr d ↦ rw (rw d at p.tasks) (IsLegal-refl s)
]

unblocking-IsLegal :
    (now : ℕ) (node : String) (s : Store)
    → IsUnique (keys s.tasks)
    → IsLegal s (unblock_dependent_tasks now node s)
unfolding unblock_dependent_tasks
unblocking-IsLegal now node s u =
    (unblock_dependent_tasks-Moves now node s u, keys-start_tasks now (unblocked_tasks s node) s)

-- A legal change, then the unblocking.
then_unblocking :
    (now : ℕ) (node : String) (s s' : Store)
    → IsUnique (keys s.tasks)
    → IsLegal s s'
    → IsLegal s (unblock_dependent_tasks now node s')
then_unblocking now node s s' u h =
    IsLegal-trans s s' (unblock_dependent_tasks now node s') h
      (unblocking-IsLegal now node s' (subst IsUnique (sym h.1) u))

then_after_success :
    (cx : Context) (status node : String) (s s' : Store)
    → IsUnique (keys s.tasks)
    → IsLegal s s'
    → IsLegal s (after_success cx status node s')
then_after_success cx status node s s' u h = elim (Bool-cases (str_eq status "succeeded")) [
  | inl e ↦ rw e (then_unblocking cx.now node s s' u h)
  | inr n ↦ rw n h
]

pub serve-IsLegal :
    (cx : Context) (q : Request) (s : Store) → IsUnique (keys s.tasks) → IsLegal s (serve cx q s)
unfolding serve complete_task fail_task patch_task complete_attempt
serve-IsLegal cx (complete id req) s u = elim (Result-cases (complete_task_tx cx id req s)) [
  | inl ((r, s'), h) ↦
      rw (h, serve, complete_task)
        (then_unblocking cx.now r.node_id s s' u
          (reported-IsLegal cx.now id "succeeded" _ s s' r (complete_task_tx-ok cx id req s h)))
  | inr (e, h) ↦ rw (h, serve, complete_task) (IsLegal-refl s)
]
serve-IsLegal cx (fail id req) s u = elim (Result-cases (fail_task_tx cx id req s)) [
  | inl ((r, s'), h) ↦
      rw (h, serve, fail_task)
        (reported-IsLegal cx.now id "failed" 0 s s' r (fail_task_tx-ok cx id req s h))
  | inr (e, h) ↦ rw (h, serve, fail_task) (IsLegal-refl s)
]
serve-IsLegal cx (patch id req) s u = elim (Result-cases (patch_task_tx cx id req s)) [
  | inl ((r, s'), h) ↦
      rw (h, serve, patch_task)
        (then_after_success cx r.status r.node_id s s' u
          (reported-IsLegal cx.now id req.status _ s s' r (patch_task_tx-ok cx id req s h)))
  | inr (e, h) ↦ rw (h, serve, patch_task) (IsLegal-refl s)
]
serve-IsLegal cx (finish_attempt id req) s u =
    elim (Result-cases (complete_attempt_tx cx id req s)) [
      | inl ((r, (node, s')), h) ↦
          rw (h, serve, complete_attempt)
            (then_after_success cx r.task_status node s s' u (
              attempt-IsLegal cx.now id req.status _ s s' r node
                (complete_attempt_tx-ok cx id req s h)))
      | inr (e, h) ↦ rw (h, serve, complete_attempt) (IsLegal-refl s)
    ]

-- Whatever sequence of requests is served, the last status of each task can be reached from its first
-- by legal transitions, and the tasks stay the same ones, if no two tasks had the same identifier.
pub serve_all-Moves :
    (qs : List (Context × Request)) (s : Store)
    → IsUnique (keys s.tasks)
    → IsLegal s (serve_all qs s)
unfolding serve_all
serve_all-Moves [] s u = IsLegal-refl s
serve_all-Moves ((cx, q) ∷ qs) s u =
    let first = serve-IsLegal cx q s u in
    IsLegal-trans s (serve cx q s) (serve_all qs (serve cx q s)) first
      (serve_all-Moves qs (serve cx q s) (subst IsUnique (sym first.1) u))
