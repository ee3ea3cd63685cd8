-- ===== src/LoopRunner/Once.antt =====
-- services/loop-runner/src/tick.rs: the idempotency key of a dispatch has no number of the attempt
-- in it, so it lets a task be dispatched once.
use swarm_intelligence_engin.Prelude.{
  ◌≡◌, ◌≢◌, refl, ap, subst, ◌∙◌, ℕ, Bool, true, false, inl, inr, ◌⊎◌, Bool-cases, List, [], ◌∷◌,
  any, String, str_eq, eq_iff, ok, ◌>>=◌, if-eq-ok, through, ok_inj, Option, arith,
}
use swarm_intelligence_engin.Store.{Task, TaskAttempt, Store, Event, changed, update}
use swarm_intelligence_engin.Store.Inserts.{insert_attempt}
use swarm_intelligence_engin.Store.Queue.{is_queued_task, start_queued, start_node}
use swarm_intelligence_engin.Store.Lookup.{status_of, with_status}
use swarm_intelligence_engin.Tasks.{Context}
use swarm_intelligence_engin.Commands.{has_key}
use swarm_intelligence_engin.Commands.Journal.{IsDone, insert_event-IsDone}
use swarm_intelligence_engin.LoopRunner.Dispatching.{
  dispatch_key, start_dispatch, dispatch_queued_task, dispatch_queued_tasks, batch,
}
use swarm_intelligence_engin.LoopRunner.Rules.{
  sweep-keeps, recorded-keeps, insert_event-grows, insert_event-apart,
}

start_queued-ok :
    (now : ℕ) (id : String) (s : Store) {s' : Store}
    → start_queued now id s ≡ ok s'
    → record s { tasks = changed (is_queued_task id) (with_status now "running") s.tasks } ≡ s'
unfolding start_queued update ◌>>=◌
start_queued-ok now id s h = ground arith

start_node-keeps :
    (now : ℕ) (id : String) (s : Store) {s' : Store}
    → start_node now id s ≡ ok s'
    → (s'.tasks ≡ s.tasks)
      × (s'.event_journal ≡ s.event_journal)
      × (s'.cycles ≡ s.cycles)
      × (s'.loops ≡ s.loops)
unfolding start_node update ◌>>=◌
start_node-keeps now id s h = ground arith

insert_attempt-keeps :
    (a : TaskAttempt) (s : Store) {s' : Store}
    → insert_attempt a s ≡ ok s'
    → (s'.tasks ≡ s.tasks)
      × (s'.event_journal ≡ s.event_journal)
      × (s'.cycles ≡ s.cycles)
      × (s'.loops ≡ s.loops)
unfolding insert_attempt
insert_attempt-keeps a s h = rw (← (if-eq-ok _ _ h).1) (refl, refl, refl, refl)

-- The start of another task leaves the status.
status_of-started :
    (now : ℕ) (id other : String) (ts : List Task)
    → str_eq id other ≡ false
    → status_of other (changed (is_queued_task id) (with_status now "running") ts)
      ≡ status_of other ts
status_of-started now id other [] n = refl
status_of-started now id other (t ∷ ts) n =
    ground (arith, status_of-started now id other ts n, eq_iff t.task_id id)

-- The dispatch of a task that was not recorded: what it leaves.
pub record IsDispatched (now : ℕ) (id : String) (s s' : Store) : Type 0 where
  pub unrecorded : any (has_key "task" (dispatch_key id)) s.event_journal ≡ false
  pub tasks : s'.tasks ≡ changed (is_queued_task id) (with_status now "running") s.tasks
  pub recorded : IsDone "task" (dispatch_key id) s'
  pub grows : (p : Event → Bool) → any p s.event_journal ≡ true → any p s'.event_journal ≡ true
  pub cycles : s'.cycles ≡ s.cycles
  pub loops : s'.loops ≡ s.loops

start_dispatch-ok :
    (cx : Context) (drawn : ℕ) (t : Task) (s s' : Store) {n : ℕ}
    → any (has_key "task" (dispatch_key t.task_id)) s.event_journal ≡ false
    → start_dispatch cx drawn t s ≡ ok (n, s')
    → IsDispatched cx.now t.task_id s s'
unfolding start_dispatch
start_dispatch-ok cx drawn t s s' fresh g = through _ _ g λ s1 e1 g1. through _ _ g1 λ s2 e2 g2.
    through _ _ g2 λ s3 e3 g3. through _ _ g3 λ s4 e4 g4.
      let p1 = start_queued-ok cx.now t.task_id s {s' = s1} e1 in
      let p2 = insert_attempt-keeps _ s1 {s' = s2} e2 in
      let p3 = start_node-keeps cx.now t.node_id s2 {s' = s3} e3 in
      let p4 = insert_event-apart (λ x. x.tasks) _ s3 {s' = s4} (λ rows. refl) e4 in
      let p5 = insert_event-apart (λ x. x.cycles) _ s3 {s' = s4} (λ rows. refl) e4 in
      let p6 = insert_event-apart (λ x. x.loops) _ s3 {s' = s4} (λ rows. refl) e4 in
      let last : s4 ≡ s' = ap (λ x. x.1) (ok_inj g4) in
      record {
        unrecorded = fresh;
        tasks = cc;
        recorded = rw (← last) (insert_event-IsDone _ s3 {s' = s4} e4);
        grows =
            λ p h. rw (← last) (insert_event-grows _ s3 p {s' = s4} e4 (rw (p3.1, p2.1, ← p1) h));
        cycles = cc;
        loops = cc;
      }

pub dispatch_queued_task-cases :
    (cx : Context) (drawn : ℕ) (t : Task) (s : Store)
    → ((dispatch_queued_task cx drawn t s).1 ≡ s)
      ⊎ IsDispatched cx.now t.task_id s (dispatch_queued_task cx drawn t s).1
unfolding dispatch_queued_task
dispatch_queued_task-cases cx drawn t s =
    recorded-keeps (λ x. (x ≡ s) ⊎ IsDispatched cx.now t.task_id s x) "task"
      (dispatch_key t.task_id) (any (is_queued_task t.task_id) s.tasks) s
      (start_dispatch cx drawn t s) (inl refl)
      λ fresh n s' e. inr (start_dispatch-ok cx drawn t s s' fresh e)

-- The status is as given, and the dispatch of the task is recorded.
abbrev IsStuck : String → Option String → Store → Type 0
IsStuck id v s = (status_of id s.tasks ≡ v) × IsDone "task" (dispatch_key id) s

dispatch_queued_task-IsStuck :
    (cx : Context) (id : String) (v : Option String) (drawn : ℕ) (t : Task) (s : Store)
    → IsStuck id v s
    → IsStuck id v (dispatch_queued_task cx drawn t s).1
dispatch_queued_task-IsStuck cx id v drawn t s h = elim (dispatch_queued_task-cases cx drawn t s) [
  | inl e ↦ rw e h
  | inr d ↦ elim (Bool-cases (str_eq t.task_id id)) [
    | inl e ↦
        let same = (eq_iff t.task_id id).0 e in
        let fresh = d.unrecorded in
        let done : IsDone "task" (dispatch_key t.task_id) s = rw same h.1 in cc
    | inr n ↦ (
      rw d.tasks (status_of-started cx.now t.task_id id s.tasks n ∙ h.0),
      d.grows (has_key "task" (dispatch_key id)) h.1,
    )
  ]
]

-- What a sweep changes, it records.
IsTraced : String → Option String → Store → Type 0
IsTraced id v s = (status_of id s.tasks ≡ v) ⊎ IsDone "task" (dispatch_key id) s

dispatch_queued_task-IsTraced :
    (cx : Context) (id : String) (v : Option String) (drawn : ℕ) (t : Task) (s : Store)
    → IsTraced id v s
    → IsTraced id v (dispatch_queued_task cx drawn t s).1
unfolding IsTraced
dispatch_queued_task-IsTraced cx id v drawn t s h = elim (dispatch_queued_task-cases cx drawn t s) [
  | inl e ↦ rw e h
  | inr d ↦ elim (Bool-cases (str_eq t.task_id id)) [
    | inl e ↦ inr (
        subst (λ i. IsDone "task" (dispatch_key i) (dispatch_queued_task cx drawn t s).1)
          ((eq_iff t.task_id id).0 e) d.recorded)
    | inr n ↦ elim h [
      | inl same ↦ inl (rw d.tasks (status_of-started cx.now t.task_id id s.tasks n ∙ same))
      | inr done ↦ inr (d.grows (has_key "task" (dispatch_key id)) done)
    ]
  ]
]

-- A task is dispatched once. When a dispatch sweep has changed the status of a task, no later sweep
-- changes it, whatever has happened in between (a failure and a retry, say), as long as the journal
-- keeps the event of the first dispatch.
pub dispatch_queued_tasks-once :
    (cx cx' : Context) (id : String) (s s' : Store)
    → status_of id (dispatch_queued_tasks cx s).1.tasks ≢ status_of id s.tasks
    → (IsDone "task" (dispatch_key id) (dispatch_queued_tasks cx s).1
        → IsDone "task" (dispatch_key id) s')
    → status_of id (dispatch_queued_tasks cx' s').1.tasks ≡ status_of id s'.tasks
unfolding dispatch_queued_tasks IsTraced
dispatch_queued_tasks-once cx cx' id s s' moved kept =
    let traced =
      sweep-keeps (IsTraced id (status_of id s.tasks)) 2 (dispatch_queued_task cx)
        (dispatch_queued_task-IsTraced cx id (status_of id s.tasks)) (batch s) 0 0 s (inl refl) in
    elim traced [
      | inl same ↦ absurd (moved same)
      | inr done ↦
          (sweep-keeps (IsStuck id (status_of id s'.tasks)) 2 (dispatch_queued_task cx')
            (dispatch_queued_task-IsStuck cx' id (status_of id s'.tasks)) (batch s') 0 0 s'
            (refl, kept done)).0
    ]
