-- ===== src/Tasks/Waiting.antt =====
-- Which tasks the completion of a node starts.
use swarm_intelligence_engin.Prelude.{
  IsUnique, ℕ, ◌≡◌, refl, ◌∙◌, inl, inr, true, ◌||◌, Bool-cases, Option-cases, if◌then◌else◌, List,
  [], ◌∷◌, any, find?, none, some, String, str_eq, eq_iff, arith,
}
use swarm_intelligence_engin.Machine.{here, next}
use swarm_intelligence_engin.Store.{Task, Store, same_task}
use swarm_intelligence_engin.Store.Lookup.{
  status_of, given, keys, status_of-changed-all, task_ids-changed, any-keys-filter,
}
use swarm_intelligence_engin.Tasks.{is_valid_task_transition}
use swarm_intelligence_engin.Tasks.Unblocking.{
  is_unblocked, unblocked_tasks, start_task, start_tasks, unblock_dependent_tasks,
}
use swarm_intelligence_engin.Tasks.Moves.{IsLegalMove, Moves}

-- The loop starts the tasks that it is given, whatever their status, and no other.
pub start_tasks-status :
    (now : ℕ) (ids : List String) (s : Store) (id : String)
    → status_of id (start_tasks now ids s).tasks ≡ (
        if any (λ j. str_eq j id) ids
        then given "running" (status_of id s.tasks)
        else status_of id s.tasks)
unfolding start_tasks start_task
start_tasks-status now [] s id = refl
start_tasks-status now (j ∷ ids) s id = start_tasks-status now ids (start_task now j s) id ∙ again
  where
    again :
        (if any (λ k. str_eq k id) ids
          then given "running" (status_of id (start_task now j s).tasks)
          else status_of id (start_task now j s).tasks)
        ≡ (if str_eq j id || any (λ k. str_eq k id) ids
            then given "running" (status_of id s.tasks)
            else status_of id s.tasks)
    again = ground (arith, status_of-changed-all now "running" j s.tasks id)

pub keys-start_tasks :
    (now : ℕ) (ids : List String) (s : Store) → keys (start_tasks now ids s).tasks ≡ keys s.tasks
unfolding start_tasks start_task
keys-start_tasks now [] s = refl
keys-start_tasks now (j ∷ ids) s =
    keys-start_tasks now ids (start_task now j s) ∙ task_ids-changed now "running" j s.tasks

-- The tasks that pass the SELECT are running afterwards, every other one keeps its status.
pub unblock_dependent_tasks-exact :
    (now : ℕ) (node : String) (s : Store) (id : String) (t : Task)
    → IsUnique (keys s.tasks)
    → find? (same_task id) s.tasks ≡ some t
    → status_of id (unblock_dependent_tasks now node s).tasks
      ≡ some (if is_unblocked s node t then "running" else t.status)
unfolding unblock_dependent_tasks unblocked_tasks
unblock_dependent_tasks-exact now node s id t u h =
    start_tasks-status now (unblocked_tasks s node) s id
    ∙ rw (any-keys-filter (is_unblocked s node) id s.tasks u h, h)
        (elim (Bool-cases (is_unblocked s node t)) [ inl e ↦ rw e refl | inr n ↦ rw n refl ])

pub is_unblocked-queued :
    (s : Store) (node : String) (t : Task) → is_unblocked s node t ≡ true → t.status ≡ "queued"
unfolding is_unblocked
is_unblocked-queued s node t h = ground (arith, eq_iff t.status "queued")

pub unblock_dependent_tasks-none :
    (now : ℕ) (node : String) (s : Store) (id : String)
    → find? (same_task id) s.tasks ≡ none
    → status_of id (unblock_dependent_tasks now node s).tasks ≡ none
unfolding unblock_dependent_tasks
unblock_dependent_tasks-none now node s id h =
    start_tasks-status now (unblocked_tasks s node) s id
    ∙ rw h (elim (Bool-cases (any (λ j. str_eq j id) (unblocked_tasks s node))) [
      | inl e ↦ rw e refl
      | inr n ↦ rw n refl
    ])

legal_start :
    (s : Store) (node : String) (t : Task)
    → IsLegalMove (some t.status) (some (if is_unblocked s node t then "running" else t.status))
unfolding is_valid_task_transition
legal_start s node t = elim (Bool-cases (is_unblocked s node t)) [
  | inl e ↦ rw (e, is_unblocked-queued s node t e) (next here refl)
  | inr n ↦ rw n here
]

pub unblock_dependent_tasks-Moves :
    (now : ℕ) (node : String) (s : Store)
    → IsUnique (keys s.tasks)
    → Moves s.tasks (unblock_dependent_tasks now node s).tasks
unblock_dependent_tasks-Moves now node s u id = elim (Option-cases (find? (same_task id) s.tasks)) [
  | inl h ↦ rw (h, unblock_dependent_tasks-none now node s id h) tt
  | inr (t, h) ↦ rw (h, unblock_dependent_tasks-exact now node s id t u h) (legal_start s node t)
]
