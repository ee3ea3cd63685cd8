-- ===== src/LoopRunner/Gate.antt =====
-- services/loop-runner/src/tick.rs: what has to hold for a cycle to leave execution, and to leave
-- integration.
use swarm_intelligence_engin.Prelude.{
  ◌≡◌, ◌≢◌, refl, sym, ◌∙◌, ℕ, ◌==◌, ltb, Bool, true, false, not, ◌&&◌, inl, inr, ◌↔◌, Bool-cases,
  not-eq-true, List, [], ◌∷◌, any, filter, length, All, Any, any_iff, length-filter-zero, or_false,
  and-eq-true, String, arith,
}
use swarm_intelligence_engin.Store.{Task, Store}
use swarm_intelligence_engin.Tasks.{Context}
use swarm_intelligence_engin.LoopRunner.{CycleRow}
use swarm_intelligence_engin.LoopRunner.Dispatching.{is_task_for, count_tasks}
use swarm_intelligence_engin.LoopRunner.Completion.{
  is_active, has_succeeded, is_certified, needs_certification, awaits_certification, end_execution,
}

-- A task of the objective has ended: it is neither queued nor running, and if it has succeeded on a
-- node that requires a certification, it is certified.
abbrev pub Ended : Store → Task → Type 0
Ended s t =
    (is_active t ≡ false)
    × (has_succeeded t ≡ true → needs_certification s t ≡ true → is_certified s t ≡ true)

-- The objective has tasks, and all of them have ended.
abbrev pub IsExecuted : Store → String → Type 0
IsExecuted s objective_id =
    Any (λ t. is_task_for s objective_id t ≡ true) s.tasks
    × All (λ t. is_task_for s objective_id t ≡ true → Ended s t) s.tasks

module _ (p : Task → Bool) where
  counts : (ts : List Task) → ltb 0 (length (filter p ts)) ≡ any p ts
  counts [] = refl
  counts (t ∷ ts) = ground (arith, counts ts)

and_true : (a : Bool) → ((a && true) ≡ true) ↔ (a ≡ true)
and_true a = ground arith

both_false :
    (a b c d e : Bool)
    → (a && (c && (d && not e))) ≡ false
    → (a && b) ≡ false
    → a ≡ true
    → (b ≡ false) × (d ≡ true → c ≡ true → e ≡ true)
both_false a b c d e h k g = ground arith

tasks-Ended :
    (s : Store) (objective_id : String) (ts : List Task)
    → any (λ t. is_task_for s objective_id t && awaits_certification s t) ts ≡ false
    → any (λ t. is_task_for s objective_id t && is_active t) ts ≡ false
    → All (λ t. is_task_for s objective_id t ≡ true → Ended s t) ts
tasks-Ended s objective_id [] h k = tt
tasks-Ended s objective_id (t ∷ ts) h k =
    let (h0, hs) = or_false _ _ h in
    let (k0, ks) = or_false _ _ k in
    (
      both_false (is_task_for s objective_id t) (is_active t) (needs_certification s t)
          (has_succeeded t) (is_certified s t) h0 k0,
      tasks-Ended s objective_id ts hs ks,
    )

-- The condition that `end_execution` tests, read as a predicate.
gate_read :
    (s : Store) (objective_id : String)
    → ltb 0 (count_tasks (awaits_certification s) s objective_id) ≡ false
    → (count_tasks is_active s objective_id == 0 && ltb 0 (count_tasks (λ t. true) s objective_id))
      ≡ true
    → IsExecuted s objective_id
gate_read s objective_id h k =
    let (none_active, exists_one) = (and-eq-true _ _).0 k in
    let waits =
      sym (counts (λ t. is_task_for s objective_id t && awaits_certification s t) s.tasks) ∙ h in
    let quiet = not-eq-true _ (
      sym (length-filter-zero (λ t. is_task_for s objective_id t && is_active t) s.tasks)
      ∙ none_active) in
    let present = sym (counts (λ t. is_task_for s objective_id t && true) s.tasks) ∙ exists_one in
    (
      (any_iff (λ t. is_task_for s objective_id t && true)
            (λ t. is_task_for s objective_id t ≡ true)
            (λ t. and_true (is_task_for s objective_id t)) s.tasks).0
          present,
      tasks-Ended s objective_id s.tasks waits quiet,
    )

-- When the sweep over the cycles in execution changes the cycles at a row, the objective of the row
-- has tasks, none of them is queued or running, and every one that has succeeded on a node that
-- requires a certification is certified.
pub end_execution-IsExecuted :
    (cx : Context) (drawn : ℕ) (c : CycleRow) (s : Store)
    → (end_execution cx drawn c s).1.cycles ≢ s.cycles
    → IsExecuted s c.objective_id
unfolding end_execution
end_execution-IsExecuted cx drawn c s moved =
    elim (Bool-cases (ltb 0 (count_tasks (awaits_certification s) s c.objective_id))) [
      | inl e ↦ absurd (moved (rw (end_execution, e) refl))
      | inr n ↦
          elim (Bool-cases (
            count_tasks is_active s c.objective_id == 0
            && ltb 0 (count_tasks (λ t. true) s c.objective_id))) [
              | inl e ↦ gate_read s c.objective_id n e
              | inr m ↦ absurd (moved (rw (end_execution, n, m) refl))
            ]
    ]
