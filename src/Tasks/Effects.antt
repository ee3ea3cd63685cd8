-- ===== src/Tasks/Effects.antt =====
-- What a completed task leaves behind, and which statuses are final.
use swarm_intelligence_engin.Prelude.{
  IsUnique, ℕ, ◌≡◌, refl, and-eq-true, sym, ap, subst, ◌∙◌, ◌⊎◌, inl, inr, Bool, true, false, ◌&&◌,
  Bool-cases, Result-cases, List, [], ◌∷◌, find?, length, All, Option, none, some, String, str_eq,
  eq_iff, ok, ok_inj, err_not_ok, arith, ◌+◌,
}
use swarm_intelligence_engin.Machine.{Run-keeps}
use swarm_intelligence_engin.Store.{Task, TaskAttempt, Node, Store, changed, same_task, same_node}
use swarm_intelligence_engin.Store.Lookup.{
  status_of, status_in, status_of-changed, keys, task_ids-changed,
}
use swarm_intelligence_engin.Tasks.{
  is_valid_task_transition, node_lifecycle_for_task_status, CompleteTaskRequest,
  TaskLifecycleResponse, Context, running_attempt_of,
}
use swarm_intelligence_engin.Tasks.Transactions.{complete_task_tx}
use swarm_intelligence_engin.Tasks.Unblocking.{
  start_task, start_tasks, not_started, unblocked_tasks, unblock_dependent_tasks,
}
use swarm_intelligence_engin.Tasks.Service.{Request, complete_task, serve_all}
use swarm_intelligence_engin.Tasks.Moves.{IsLegalMove}
use swarm_intelligence_engin.Tasks.Steps.{IsReported}
use swarm_intelligence_engin.Store.Checks.{with_lifecycle, finished}
use swarm_intelligence_engin.Tasks.Reports.{complete_task_tx-ok}
use swarm_intelligence_engin.Tasks.Waiting.{unblock_dependent_tasks-Moves}
use swarm_intelligence_engin.Tasks.Legal.{serve_all-Moves}

-- The statuses that no transition leaves.
abbrev pub IsFinal : String → Type 0
IsFinal status = (status ≡ "succeeded") ⊎ (status ≡ "cancelled")

no_way_out : (status to : String) → IsFinal status → is_valid_task_transition status to ≡ false
unfolding is_valid_task_transition
no_way_out status to (inl e) = rw e refl
no_way_out status to (inr e) = rw e refl

stays :
    (status : String)
    → IsFinal status
    → (s t : String) → is_valid_task_transition s t ≡ true
    → s ≡ status
    → t ≡ status
stays status f s t v e = let n = no_way_out status t f in cc

final_move :
    (status : String) (o : Option String)
    → IsFinal status
    → IsLegalMove (some status) o
    → o ≡ some status
final_move status none f m = absurd m
final_move status (some t) f m =
    ap some (Run-keeps is_valid_task_transition (λ x. x ≡ status) (stays status f) refl m)

-- A task that has succeeded or has been cancelled keeps that status, whatever sequence of requests
-- is served, if no two tasks have the same identifier.
pub serve_all-final :
    (qs : List (Context × Request)) (s : Store) (id status : String)
    → IsUnique (keys s.tasks)
    → IsFinal status
    → status_of id s.tasks ≡ some status
    → status_of id (serve_all qs s).tasks ≡ some status
serve_all-final qs s id status u f h =
    let move = (serve_all-Moves qs s u).0 id in
    final_move status (status_of id (serve_all qs s).tasks) f (rw h at move)

-- Unblocking touches the nodes that have not started, and no attempt and no artifact.
abbrev IsDone : String → Node → Type 0
IsDone node n = str_eq n.node_id node ≡ true → n.lifecycle ≡ "done"

start_tasks-rest :
    (now : ℕ) (ids : List String) (s : Store)
    → ((start_tasks now ids s).task_attempts ≡ s.task_attempts)
      × ((start_tasks now ids s).artifact_refs ≡ s.artifact_refs)
unfolding start_tasks start_task
start_tasks-rest now [] s = (refl, refl)
start_tasks-rest now (j ∷ ids) s = start_tasks-rest now ids (start_task now j s)

done_not_started : (n : Node) → n.lifecycle ≡ "done" → not_started n ≡ false
done_not_started n e = rw e refl

and_false : (b : Bool) → (b && false) ≡ false
and_false b = ground arith

IsDone-kept :
    (now : ℕ) (node : String) (p : Node → Bool) (ns : List Node)
    → All (IsDone node) ns
    → All (IsDone node) (changed (λ n. p n && not_started n) (with_lifecycle now "running") ns)
IsDone-kept now node p [] h = tt
IsDone-kept now node p (n ∷ ns) h = (
  elim (Bool-cases (p n && not_started n)) [
    | inl e ↦ rw e (λ q.
        let no = done_not_started n (h.0 q) in
        let yes = ((and-eq-true (p n) (not_started n)).0 e).1 in cc)
    | inr d ↦ rw d h.0
  ],
  IsDone-kept now node p ns h.1,
)

start_tasks-IsDone :
    (now : ℕ) (node : String) (ids : List String) (s : Store)
    → All (IsDone node) s.nodes
    → All (IsDone node) (start_tasks now ids s).nodes
unfolding start_tasks start_task
start_tasks-IsDone now node [] s h = h
start_tasks-IsDone now node (j ∷ ids) s h =
    start_tasks-IsDone now node ids (start_task now j s) (IsDone-kept now node _ s.nodes h)

node-IsDone :
    (now : ℕ) (node : String) (ns : List Node)
    → All (IsDone node) (changed (same_node node) (with_lifecycle now "done") ns)
node-IsDone now node [] = tt
node-IsDone now node (n ∷ ns) = (
  elim (Bool-cases (str_eq n.node_id node)) [
    | inl e ↦ rw e (λ q. refl)
    | inr d ↦ rw d (λ q. let same : str_eq n.node_id node ≡ true = q in cc)
  ],
  node-IsDone now node ns,
)

attempts_ended :
    (now : ℕ) (id : String) (rows : List TaskAttempt)
    → All
        (λ a. running_attempt_of id a ≡ false)
        (changed (running_attempt_of id) (finished now "succeeded") rows)
attempts_ended now id [] = tt
attempts_ended now id (a ∷ rows) = (
  elim (Bool-cases (running_attempt_of id a)) [
    | inl e ↦ rw e (and_false (str_eq a.task_id id))
    | inr d ↦ rw d d
  ],
  attempts_ended now id rows,
)

-- A task that the handler completes was running; afterwards it has succeeded, the node that its row
-- names is done, none of its attempts runs, and the table of artifacts has as many rows more as the
-- request has artifacts. The response names the task, that node and the number of artifacts.
pub record IsCompleted (id : String) (added : ℕ) (s s' : Store) (r : TaskLifecycleResponse)
    : Type 0 where
  pub task : Task
  pub found : find? (same_task id) s.tasks ≡ some task
  pub was_running : task.status ≡ "running"
  pub has_succeeded : status_of id s'.tasks ≡ some "succeeded"
  pub node_finished : All (IsDone task.node_id) s'.nodes
  pub no_attempt_runs : All (λ a. running_attempt_of id a ≡ false) s'.task_attempts
  pub artifacts_added : length s'.artifact_refs ≡ length s.artifact_refs + added
  pub says_which : (r.task_id ≡ id) × (r.node_id ≡ task.node_id)
  pub says_how_many : r.artifacts_stored ≡ added

was_running : (from : String) → is_valid_task_transition from "succeeded" ≡ true → from ≡ "running"
unfolding is_valid_task_transition
was_running from h = ground (arith, eq_iff from "running")

succeeded_after_unblocking :
    (now : ℕ) (id node : String) (s : Store)
    → IsUnique (keys s.tasks)
    → status_of id s.tasks ≡ some "succeeded"
    → status_of id (unblock_dependent_tasks now node s).tasks ≡ some "succeeded"
succeeded_after_unblocking now id node s u h =
    let move = unblock_dependent_tasks-Moves now node s u id in
    final_move "succeeded" (status_of id (unblock_dependent_tasks now node s).tasks) (inl refl)
      (rw h at move)

completed :
    (cx : Context) (id : String) (n : ℕ) (s s1 : Store) (r : TaskLifecycleResponse)
    → IsUnique (keys s.tasks)
    → IsReported cx.now id "succeeded" n s s1 r
    → IsCompleted id n s (unblock_dependent_tasks cx.now r.node_id s1) r
unfolding unblock_dependent_tasks node_lifecycle_for_task_status
completed cx id n s s1 r u p =
    let before = ap status_in p.found in
    let unique =
      subst IsUnique (sym (ap keys p.tasks ∙ task_ids-changed cx.now "succeeded" id s.tasks)) u in
    let now_succeeded : status_of id s1.tasks ≡ some "succeeded" =
      rw p.tasks (status_of-changed cx.now "succeeded" id s.tasks before) in
    let (attempts, artifacts) = start_tasks-rest cx.now (unblocked_tasks s1 r.node_id) s1 in
    record {
      task = p.task;
      found = p.found;
      was_running = was_running p.task.status p.legal;
      has_succeeded = succeeded_after_unblocking cx.now id r.node_id s1 unique now_succeeded;
      node_finished =
          start_tasks-IsDone cx.now p.task.node_id (unblocked_tasks s1 r.node_id) s1
            (rw p.nodes (node-IsDone cx.now p.task.node_id s.nodes));
      no_attempt_runs = rw (attempts, p.attempts) (attempts_ended cx.now id s.task_attempts);
      artifacts_added = ap length artifacts ∙ p.stored;
      says_which = (p.answer_task, p.answer_node);
      says_how_many = p.answer_stored;
    }

-- If no two tasks have the same identifier and the completion of a task is answered with a success,
-- the task was running and now has succeeded, the node that its row names is done, none of its
-- attempts runs, the table of artifacts has as many rows more as the request has artifacts, and the
-- response names the task, that node and that number; this holds after the dependents of the node
-- have been started.
pub complete_task-IsCompleted :
    (cx : Context) (id : String) (req : CompleteTaskRequest) (s : Store) (r : TaskLifecycleResponse)
    → IsUnique (keys s.tasks)
    → (complete_task cx id req s).0 ≡ ok r
    → IsCompleted id (length req.artifacts) s (complete_task cx id req s).1 r
unfolding complete_task
complete_task-IsCompleted cx id req s r u h = elim (Result-cases (complete_task_tx cx id req s)) [
  | inl ((q, s1), e) ↦
      let same = ok_inj (rw e at h) in
      rw e (
        subst
          (λ x.
            IsCompleted id (length req.artifacts) s (unblock_dependent_tasks cx.now q.node_id s1) x)
          same (completed cx id _ s s1 q u (complete_task_tx-ok cx id req s e)))
  | inr (x, e) ↦ absurd (err_not_ok (rw e at h))
]
