-- ===== src/LoopRunner/Readiness.antt =====
-- services/loop-runner/src/tick.rs: the status in which `create_tasks_for_objective` creates a task,
-- described by the dependencies of its node.
use mathlib.Core.Path.{fun_ext}
use mathlib.Core.List.{append-nil, append_assoc}
use swarm_intelligence_engin.Prelude.{
  ◌≡◌, refl, sym, ap, ◌∙◌, ℕ, ◌==◌, false, ◌⊎◌, ◌↔◌, inl, inr, Bool-cases, List, [], ◌∷◌, ◌++◌, any,
  filter, length, All, All-snoc, Any, any_iff, any-false_iff, and-eq-true, length-filter-zero,
  All-snoc, String, eq_iff, ok, if-eq-ok, through, ok_inj, err_not_ok, Option, if◌then◌else◌,
}
use swarm_intelligence_engin.Store.{Task, Node, Store, one_of, changed}
use swarm_intelligence_engin.Store.Lookup.{update-ok}
use swarm_intelligence_engin.Store.Checks.{with_lifecycle}
use swarm_intelligence_engin.Store.Inserts.{insert_task}
use swarm_intelligence_engin.Tasks.{Context}
use swarm_intelligence_engin.Tasks.Unblocking.{is_unfinished, holds_back}
use swarm_intelligence_engin.Tasks.Dependents.{HoldsBack, holds_back_iff, not_holds_back_iff}
use swarm_intelligence_engin.LoopRunner.Tasking.{
  TaskSetup, insert_opened_task, provider_mode_allowed, unmet_deps, initial_status,
  is_proposed_node, leave_proposed, opened_task, open_task, tasking_key, create_task_for,
  untasked_nodes, create_tasks_for_objective,
}
use swarm_intelligence_engin.LoopRunner.Rules.{sweep-keeps, unrecorded-keeps, insert_event-apart}

-- The task runs, and no dependency holds its node back; or it waits in the queue, and one does.
abbrev pub IsOpened : Store → Task → Type 0
IsOpened s t =
    ((t.status ≡ "running") × All (λ e. ¬ HoldsBack s t.node_id e) s.node_edges)
    ⊎ ((t.status ≡ "queued") × Any (HoldsBack s t.node_id) s.node_edges)

pub none_hold_back :
    (s : Store) (id : String)
    → (any (holds_back s id) s.node_edges ≡ false) ↔ All (λ e. ¬ HoldsBack s id e) s.node_edges
none_hold_back s id = any-false_iff (holds_back s id) _ (not_holds_back_iff s id) s.node_edges

initial_status-IsOpened :
    (s : Store) (t : Task) → t.status ≡ initial_status (unmet_deps s t.node_id) → IsOpened s t
unfolding initial_status unmet_deps
initial_status-IsOpened s t h =
    let zero_iff = length-filter-zero (holds_back s t.node_id) s.node_edges in
    elim (Bool-cases (any (holds_back s t.node_id) s.node_edges)) [
      | inl e ↦ inr (
        rw (zero_iff, e) at h,
        (any_iff (holds_back s t.node_id) _ (holds_back_iff s t.node_id) s.node_edges).0 e,
      )
      | inr n ↦ inl (rw (zero_iff, n) at h, (none_hold_back s t.node_id).0 n)
    ]

-- A node that leaves 'proposed' for a lifecycle that is not a finished one is as unfinished as
-- before.
unfinished-left :
    (now : ℕ) (v id p : String) (n : Node)
    → one_of ("admitted" ∷ "done" ∷ "completed" ∷ []) v ≡ false
    → is_unfinished p (if is_proposed_node id n then with_lifecycle now v n else n)
      ≡ is_unfinished p n
unfinished-left now v id p n h = elim (Bool-cases (is_proposed_node id n)) [
  | inl e ↦
      let proposed = (eq_iff n.lifecycle "proposed").0 ((and-eq-true _ _).0 e).1 in
      rw (e, h, proposed) refl
  | inr e ↦ rw e refl
]

unfinished-changed :
    (now : ℕ) (v id p : String) (ns : List Node)
    → one_of ("admitted" ∷ "done" ∷ "completed" ∷ []) v ≡ false
    → any (is_unfinished p) (changed (is_proposed_node id) (with_lifecycle now v) ns)
      ≡ any (is_unfinished p) ns
unfinished-changed now v id p [] h = refl
unfinished-changed now v id p (n ∷ ns) h =
    rw (unfinished-left now v id p n h, unfinished-changed now v id p ns h) refl

initial_status-unfinished :
    (unmet : ℕ) → one_of ("admitted" ∷ "done" ∷ "completed" ∷ []) (initial_status unmet) ≡ false
unfolding initial_status
initial_status-unfinished unmet = elim (Bool-cases (unmet == 0)) [
  | inl e ↦ rw e refl
  | inr n ↦ rw n refl
]

-- What the creation of tasks keeps: the edges, and what is unfinished.
abbrev IsSameWait : Store → Store → Type 0
IsSameWait s x =
    (x.node_edges ≡ s.node_edges)
    × ((p : String) → any (is_unfinished p) x.nodes ≡ any (is_unfinished p) s.nodes)

insert_task-adds :
    (t : Task) (s : Store) {s' : Store}
    → insert_task t s ≡ ok s'
    → record s { tasks = s.tasks ++ (t ∷ []) } ≡ s'
unfolding insert_task
insert_task-adds t s h = (if-eq-ok _ _ h).1

leave_proposed-ok :
    (now : ℕ) (v id : String) (s : Store) {s' : Store}
    → leave_proposed now v id s ≡ ok s'
    → record s { nodes = changed (is_proposed_node id) (with_lifecycle now v) s.nodes } ≡ s'
unfolding leave_proposed
leave_proposed-ok now v id s h = through _ _ h λ rows e g. rw (update-ok _ _ _ s.nodes e) (ok_inj g)

insert_opened_task-adds :
    (mode : Option String) (t : Task) (s : Store) {s' : Store}
    → insert_opened_task mode t s ≡ ok s'
    → record s { tasks = s.tasks ++ (t ∷ []) } ≡ s'
unfolding insert_opened_task
insert_opened_task-adds mode t s {s'} h = elim (Bool-cases (provider_mode_allowed mode)) [
  | inl e ↦ insert_task-adds t s {s' = s'} (rw e at h)
  | inr n ↦ absurd (err_not_ok (rw n at h))
]

-- The task of the node is added to the table, and nothing that waits is released.
open_task-ok :
    (cx : Context) (setup : TaskSetup) (cycle_id : String) (drawn unmet : ℕ) (n : Node)
    (s s' : Store) {count : ℕ}
    → open_task cx setup cycle_id drawn unmet n s ≡ ok (count, s')
    → (s'.tasks ≡ s.tasks ++ (opened_task cx setup (cx.new_id drawn) (initial_status unmet) n ∷ []))
      × IsSameWait s s'
unfolding open_task
open_task-ok cx setup cycle_id drawn unmet n s s' g = through _ _ g λ s1 e1 g1.
    through _ _ g1 λ s2 e2 g2. through _ _ g2 λ s3 e3 g3.
      let p1 = insert_opened_task-adds _ _ s {s' = s1} e1 in
      let p2 = leave_proposed-ok cx.now _ n.node_id s1 {s' = s2} e2 in
      let tasks = insert_event-apart (λ x. x.tasks) _ s2 {s' = s3} (λ rows. refl) e3 in
      let edges = insert_event-apart (λ x. x.node_edges) _ s2 {s' = s3} (λ rows. refl) e3 in
      let nodes = insert_event-apart (λ x. x.nodes) _ s2 {s' = s3} (λ rows. refl) e3 in
      let last : s3 ≡ s' = ap (λ x. x.1) (ok_inj g3) in
      (
        rw (← last, tasks, ← p2, ← p1) refl,
        (
          rw (← last, edges, ← p2, ← p1) refl,
          λ p.
              rw (← last, nodes, ← p2, ← p1)
                (unfinished-changed cx.now _ n.node_id p s.nodes (initial_status-unfinished unmet)),
        ),
      )

unmet_deps-same : (s x : Store) (id : String) → IsSameWait s x → unmet_deps x id ≡ unmet_deps s id
unfolding unmet_deps
unmet_deps-same s x id (edges, nodes) =
    rw edges
      (ap (λ f. length (filter f s.node_edges)) (fun_ext λ e. rw (nodes e.from_node_id) refl))

-- The tasks of `x` are those of `s`, and added ones that were opened as `s` demands.
abbrev IsFilled : Store → Store → Type 0
IsFilled s x =
    ((added : List Task) × (x.tasks ≡ s.tasks ++ added) × All (IsOpened s) added) × IsSameWait s x

create_task_for-IsFilled :
    (cx : Context) (setup : TaskSetup) (cycle_id : String) (s : Store) (drawn : ℕ) (n : Node)
    (x : Store)
    → IsFilled s x
    → IsFilled s (create_task_for cx setup cycle_id drawn n x).1
unfolding create_task_for
create_task_for-IsFilled cx setup cycle_id s drawn n x h =
    unrecorded-keeps (IsFilled s) "task" (tasking_key cycle_id n.node_id) x
      (open_task cx setup cycle_id drawn (unmet_deps x n.node_id) n x) h
      λ count x' e.
        let ((added, tasks, opened), wait) = h in
        let (longer, (edges, nodes)) =
          open_task-ok cx setup cycle_id drawn (unmet_deps x n.node_id) n x x' e in
        let t =
          opened_task cx setup (cx.new_id drawn) (initial_status (unmet_deps x n.node_id)) n in
        let fresh : IsOpened s t =
          initial_status-IsOpened s t (ap initial_status (unmet_deps-same s x n.node_id wait)) in
        (
          (
            added ++ (t ∷ []),
            (longer ∙ ap (λ ts. ts ++ (t ∷ [])) tasks) ∙ append_assoc s.tasks added (t ∷ []),
            All-snoc (IsOpened s) added t opened fresh,
          ),
          (edges ∙ wait.0, λ p. nodes p ∙ wait.1 p),
        )

-- A sweep over the nodes without a task only adds tasks. Each of them runs when no dependency of its
-- node is unfinished, and waits in the queue when one is.
pub create_tasks_for_objective-IsOpened :
    (cx : Context) (setup : TaskSetup) (cycle_id objective_id : String) (drawn : ℕ) (s : Store)
    → (added : List Task) × ((create_tasks_for_objective cx setup cycle_id objective_id drawn
          s).1.tasks
        ≡ s.tasks ++ added)
      × All (IsOpened s) added
unfolding create_tasks_for_objective
create_tasks_for_objective-IsOpened cx setup cycle_id objective_id drawn s =
    (sweep-keeps (IsFilled s) 2 (create_task_for cx setup cycle_id)
      (λ d n x h. create_task_for-IsFilled cx setup cycle_id s d n x h)
      (untasked_nodes s objective_id) drawn 0 s
      (([], sym (append-nil s.tasks), tt), (refl, λ p. refl))).0
