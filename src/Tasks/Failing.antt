-- ===== src/Tasks/Failing.antt =====
-- Reports of failure: the value that the handler writes to `nodes.lifecycle` is one that the CHECK
-- constraint of the table forbids.
use swarm_intelligence_engin.Prelude.{
  ◌≡◌, some_inj, refl, subst, inl, inr, ◌⊎◌, Bool, true, false, Bool-cases, Option-cases,
  if◌then◌else◌, List, [], ◌∷◌, any, find?, All, Option, none, some, String, str_eq, err, ◌>>=◌,
  arith,
}
use swarm_intelligence_engin.Store.{
  Task, Store, ApiError, not_found, internal_error, status_allowed, lifecycle_allowed, changed,
  same_task, same_node,
}
use swarm_intelligence_engin.Store.Lookup.{with_status}
use swarm_intelligence_engin.Store.Checks.{set_task_status-passes, set_node_lifecycle-refused}
use swarm_intelligence_engin.Tasks.{
  is_valid_task_transition, node_lifecycle_for_task_status, FailTaskRequest, PatchTaskRequest,
  Context, refused,
}
use swarm_intelligence_engin.Tasks.Transactions.{fail_task_tx, patch_task_tx}
use swarm_intelligence_engin.Tasks.Service.{fail_task, patch_task}

-- The node of every task is in the table: the foreign key of `tasks`.
abbrev pub HasNodes : Store → Type 0
HasNodes s = All (λ t. any (same_node t.node_id) s.nodes ≡ true) s.tasks

pub found_holds :
    (P : Task → Type 0) (p : Task → Bool) (ts : List Task) (t : Task)
    → All P ts
    → find? p ts ≡ some t
    → P t
found_holds P p [] t h e = cc
found_holds P p (x ∷ ts) t h e = elim (Bool-cases (p x)) [
  | inl q ↦ subst P (some_inj (rw q at e)) h.0
  | inr q ↦ found_holds P p ts t h.1 (rw q at e)
]

-- What a report of failure is answered with.
abbrev pub failure_answer : Option Task → ApiError
failure_answer none = not_found "task not found"
failure_answer (some t) =
    if str_eq t.status "running" then internal_error else refused "task" t.status "failed"

failed_legal : (from : String) → is_valid_task_transition from "failed" ≡ str_eq from "running"
unfolding is_valid_task_transition
failed_legal from = ground arith

-- `fail_task` fails whatever the store holds, if every task has its node, and changes nothing: a
-- running task meets the constraint on `nodes.lifecycle`, any other a guard.
pub fail_task-always_fails :
    (cx : Context) (id : String) (req : FailTaskRequest) (s : Store)
    → HasNodes s
    → fail_task cx id req s ≡ (err (failure_answer (find? (same_task id) s.tasks)), s)
unfolding fail_task fail_task_tx node_lifecycle_for_task_status ◌>>=◌
fail_task-always_fails cx id req s h = elim (Option-cases (find? (same_task id) s.tasks)) [
  | inl e ↦ rw e refl
  | inr (t, e) ↦
      let node =
        found_holds (λ x. any (same_node x.node_id) s.nodes ≡ true) (same_task id) s.tasks t h e in
      let rows = changed (same_task id) (with_status cx.now "failed") s.tasks in
      elim (Bool-cases (str_eq t.status "running")) [
        | inl r ↦
            rw
              (
                e,
                failed_legal t.status,
                r,
                set_task_status-passes cx.now "failed" s id refl,
                set_node_lifecycle-refused cx.now "failed" (record s { tasks = rows }) t.node_id
                    refl node,
              )
              refl
        | inr n ↦ rw (e, failed_legal t.status, n) refl
      ]
]

-- What a change of a task to a status is answered with, when the status is one that its node may
-- not have.
abbrev pub patch_answer : String → Option Task → ApiError
patch_answer status none = not_found "task not found"
patch_answer status (some t) =
    if is_valid_task_transition t.status status
    then internal_error
    else refused "task" t.status status

-- The statuses of a task that no node may have.
abbrev pub IsUnsettled : String → Type 0
IsUnsettled status = (status ≡ "failed") ⊎ (status ≡ "cancelled")

unsettled_allowed : (status : String) → IsUnsettled status → status_allowed status ≡ true
unsettled_allowed status (inl e) = rw e refl
unsettled_allowed status (inr e) = rw e refl

unsettled_forbidden :
    (status : String)
    → IsUnsettled status
    → lifecycle_allowed (node_lifecycle_for_task_status status) ≡ false
unfolding node_lifecycle_for_task_status
unsettled_forbidden status (inl e) = rw e refl
unsettled_forbidden status (inr e) = rw e refl

-- `patch_task` can neither fail nor cancel a task, if every task has its node: whatever the store
-- holds, it answers with an error and changes nothing. A legal transition meets the constraint on
-- `nodes.lifecycle`, any other a guard.
pub patch_task-never_settles :
    (cx : Context) (id : String) (req : PatchTaskRequest) (s : Store)
    → HasNodes s
    → IsUnsettled req.status
    → patch_task cx id req s ≡ (err (patch_answer req.status (find? (same_task id) s.tasks)), s)
unfolding patch_task patch_task_tx ◌>>=◌
patch_task-never_settles cx id req s h v = elim (Option-cases (find? (same_task id) s.tasks)) [
  | inl e ↦ rw e refl
  | inr (t, e) ↦
      let node =
        found_holds (λ x. any (same_node x.node_id) s.nodes ≡ true) (same_task id) s.tasks t h e in
      let rows = changed (same_task id) (with_status cx.now req.status) s.tasks in
      elim (Bool-cases (is_valid_task_transition t.status req.status)) [
        | inl r ↦
            rw
              (
                e,
                r,
                set_task_status-passes cx.now req.status s id (unsettled_allowed req.status v),
                set_node_lifecycle-refused cx.now (node_lifecycle_for_task_status req.status)
                    (record s { tasks = rows }) t.node_id (unsettled_forbidden req.status v) node,
              )
              refl
        | inr n ↦ rw (e, n) refl
      ]
]
