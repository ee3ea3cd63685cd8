-- ===== src/Store/Checks.antt =====
-- When the CHECK constraints let the updates through, and when they refuse them.
use swarm_intelligence_engin.Prelude.{
  ℕ, ◌≡◌, refl, Bool, true, false, not, ◌||◌, List, [], ◌∷◌, all, any, some, String, ok, err, ◌>>=◌,
  arith,
}
use swarm_intelligence_engin.Store.{
  TaskAttempt, Node, Store, internal_error, changed, update, same_task, same_node, status_allowed,
  lifecycle_allowed, set_task_status, set_node_lifecycle, finish_attempts,
}
use swarm_intelligence_engin.Store.Lookup.{with_status}

pub update-passes :
    {A : Type 0} (selects : A → Bool) (change : A → A) (check : A → Bool) (rows : List A)
    → ((r : A) → check (change r) ≡ true)
    → update selects change check rows ≡ ok (changed selects change rows)
unfolding update
update-passes {A} selects change check rows h = rw (every rows) refl
  where
    every : (rs : List A) → all (λ r. not (selects r) || check (change r)) rs ≡ true
    every [] = refl
    every (r ∷ rs) = ground (arith, h r, every rs)

update-refused :
    {A : Type 0} (selects : A → Bool) (change : A → A) (check : A → Bool) (rows : List A)
    → ((r : A) → check (change r) ≡ false)
    → any selects rows ≡ true
    → update selects change check rows ≡ err internal_error
unfolding update
update-refused {A} selects change check rows h some_row = rw (fails rows some_row) refl
  where
    fails :
        (rs : List A)
        → any selects rs ≡ true
        → all (λ r. not (selects r) || check (change r)) rs ≡ false
    fails [] e = cc
    fails (r ∷ rs) e = ground (arith, h r, fails rs)

abbrev pub with_lifecycle : ℕ → String → Node → Node
with_lifecycle now v n = record n { lifecycle = v; updated_at = now }

abbrev pub finished : ℕ → String → TaskAttempt → TaskAttempt
finished now v a = record a { status = v; finished_at = some now }

module _ (now : ℕ) (v : String) (s : Store) where
  pub set_task_status-passes :
      (id : String)
      → status_allowed v ≡ true
      → set_task_status now v id s
        ≡ ok (record s { tasks = changed (same_task id) (with_status now v) s.tasks })
  unfolding set_task_status ◌>>=◌
  set_task_status-passes id h =
      rw
        (update-passes (same_task id) (with_status now v) (λ t. status_allowed t.status) s.tasks
          (λ t. h))
        refl

  pub set_node_lifecycle-passes :
      (id : String)
      → lifecycle_allowed v ≡ true
      → set_node_lifecycle now v id s
        ≡ ok (record s { nodes = changed (same_node id) (with_lifecycle now v) s.nodes })
  unfolding set_node_lifecycle ◌>>=◌
  set_node_lifecycle-passes id h =
      rw
        (update-passes (same_node id) (with_lifecycle now v) (λ n. lifecycle_allowed n.lifecycle)
          s.nodes (λ n. h))
        refl

  pub set_node_lifecycle-refused :
      (id : String)
      → lifecycle_allowed v ≡ false
      → any (same_node id) s.nodes ≡ true
      → set_node_lifecycle now v id s ≡ err internal_error
  unfolding set_node_lifecycle ◌>>=◌
  set_node_lifecycle-refused id h some_row =
      rw
        (update-refused (same_node id) (with_lifecycle now v) (λ n. lifecycle_allowed n.lifecycle)
          s.nodes (λ n. h) some_row)
        refl

  pub finish_attempts-passes :
      (selects : TaskAttempt → Bool)
      → status_allowed v ≡ true
      → finish_attempts now v selects s
        ≡ ok (record s { task_attempts = changed selects (finished now v) s.task_attempts })
  unfolding finish_attempts ◌>>=◌
  finish_attempts-passes selects h =
      rw
        (update-passes selects (finished now v) (λ a. status_allowed a.status) s.task_attempts
          (λ a. h))
        refl
