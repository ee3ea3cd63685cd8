-- ===== src/Tasks/Steps.antt =====
-- What the transactions leave in the tables when they succeed.
use swarm_intelligence_engin.Prelude.{
  ℕ, ◌+◌, ◌≡◌, if◌then◌else◌, refl, sym, ap, ◌∙◌, inl, inr, true, List, [], ◌∷◌, ◌++◌, find?,
  length, some, String, ok, Bool-cases, through, arith,
}
use swarm_intelligence_engin.Store.{
  Task, TaskAttempt, Store, Event, changed, same_task, same_node, set_task_status,
  set_node_lifecycle, finish_attempts, insert_event,
}
use swarm_intelligence_engin.Store.Lookup.{
  with_status, set_task_status-ok, set_node_lifecycle-ok, finish_attempts-ok, insert_artifact-ok,
  insert_event-ok,
}
use swarm_intelligence_engin.Store.Checks.{with_lifecycle, finished}
use swarm_intelligence_engin.Tasks.{
  is_valid_task_transition, ArtifactEntry, TaskLifecycleResponse, Context, store_artifacts,
  node_lifecycle_for_task_status, running_attempt_of,
}
use swarm_intelligence_engin.Tasks.Transactions.{is_terminal}

-- The tables that artifacts and events leave alone.
abbrev pub IsSameWork : Store → Store → Type 0
IsSameWork s s' =
    (s'.tasks ≡ s.tasks)
    × (s'.nodes ≡ s.nodes)
    × (s'.task_attempts ≡ s.task_attempts)
    × (s'.node_edges ≡ s.node_edges)

length-snoc : {A : Type 0} (x : A) (xs : List A) → length (xs ++ (x ∷ [])) ≡ length xs + 1
length-snoc x [] = refl
length-snoc x (y ∷ ys) = ground (arith, length-snoc x ys)

pub insert_event-keeps :
    (e : Event) (s : Store) {s' : Store}
    → insert_event e s ≡ ok s'
    → IsSameWork s s' × (s'.artifact_refs ≡ s.artifact_refs)
insert_event-keeps e s h = ground (arith, insert_event-ok 0 s e h)

pub store_artifacts-ok :
    (cx : Context) (id : String) (es : List ArtifactEntry) (stored : ℕ) (s : Store) {s' : Store}
    {n : ℕ}
    → store_artifacts cx id es stored s ≡ ok (s', n)
    → IsSameWork s s'
      × (n ≡ stored + length es)
      × (length s'.artifact_refs ≡ length s.artifact_refs + length es)
unfolding store_artifacts
store_artifacts-ok cx id [] stored s h = ground arith
store_artifacts-ok cx id (a ∷ es) stored s h = through _ _ h λ s1 h1 h2.
    let (same, counted, kept) = store_artifacts-ok cx id es (stored + 1) s1 h2 in
    let put = insert_artifact-ok 0 s _ h1 in
    let longer = ap (λ x. length x.artifact_refs) (sym put) ∙ length-snoc _ s.artifact_refs in
    ((cc, cc, cc, cc), omega arith, omega arith)

-- The attempts, once a task has been given a status: a terminal one ends those that are running.
abbrev pub attempts_after : ℕ → String → String → List TaskAttempt → List TaskAttempt
attempts_after now id status rows =
    if is_terminal status then changed (running_attempt_of id) (finished now status) rows else rows

-- A report on the task has moved it to `status`: the move is legal, the node follows, the attempts
-- that are running end if the status is terminal, `added` artifacts are stored, and the response
-- says so.
pub record IsReported (now : ℕ) (id status : String) (added : ℕ) (s s' : Store)
    (r : TaskLifecycleResponse) : Type 0 where
  pub task : Task
  pub found : find? (same_task id) s.tasks ≡ some task
  pub legal : is_valid_task_transition task.status status ≡ true
  pub tasks : s'.tasks ≡ changed (same_task id) (with_status now status) s.tasks
  pub nodes :
      s'.nodes
      ≡ changed
          (same_node task.node_id)
          (with_lifecycle now (node_lifecycle_for_task_status status))
          s.nodes
  pub attempts : s'.task_attempts ≡ attempts_after now id status s.task_attempts
  pub edges : s'.node_edges ≡ s.node_edges
  pub stored : length s'.artifact_refs ≡ length s.artifact_refs + added
  pub answer_task : r.task_id ≡ id
  pub answer_status : r.status ≡ status
  pub answer_previous : r.previous_status ≡ task.status
  pub answer_node : r.node_id ≡ task.node_id
  pub answer_stored : r.artifacts_stored ≡ added

-- The statements that the three handlers of tasks share.
module _ (cx : Context) (id status : String) (es : List ArtifactEntry) where
  attempts_after-ok :
      (s2 : Store) {s3 : Store}
      → (if is_terminal status
          then finish_attempts cx.now status (running_attempt_of id) s2
          else ok s2)
        ≡ ok s3
      → record s2 { task_attempts = attempts_after cx.now id status s2.task_attempts } ≡ s3
  attempts_after-ok s2 {s3} h = elim (Bool-cases (is_terminal status)) [
    | inl e ↦
        let h' = rw e at h in
        let made = finish_attempts-ok cx.now s2 {s' = s3} status (running_attempt_of id) h' in
        rw e made
    | inr n ↦ let h' = rw n at h in rw n (ground (arith, h'))
  ]

  pub reported :
      (t : Task) (e : Event) (s s1 s2 s3 s4 : Store) (n : ℕ) {s5 : Store}
      → find? (same_task id) s.tasks ≡ some t
      → is_valid_task_transition t.status status ≡ true
      → set_task_status cx.now status id s ≡ ok s1
      → set_node_lifecycle cx.now (node_lifecycle_for_task_status status) t.node_id s1 ≡ ok s2
      → (if is_terminal status
          then finish_attempts cx.now status (running_attempt_of id) s2
          else ok s2)
        ≡ ok s3
      → store_artifacts cx id es 0 s3 ≡ ok (s4, n)
      → insert_event e s4 ≡ ok s5
      → IsReported cx.now id status (length es) s s5 (record {
        task_id = id;
        status = status;
        previous_status = t.status;
        node_id = t.node_id;
        node_lifecycle = node_lifecycle_for_task_status status;
        artifacts_stored = n;
      })
  reported t e s s1 s2 s3 s4 n found legal e1 e2 e3 e4 e5 =
      let p1 = set_task_status-ok cx.now s status id e1 in
      let p2 = set_node_lifecycle-ok cx.now s1 _ t.node_id e2 in
      let p3 = attempts_after-ok s2 e3 in
      let (p4, counted, longer) = store_artifacts-ok cx id es 0 s3 e4 in
      let (p5, kept) = insert_event-keeps e s4 e5 in
      record {
        task = t;
        found = found;
        legal = legal;
        tasks = cc;
        nodes = cc;
        attempts = cc;
        edges = cc;
        stored = cc;
        answer_task = refl;
        answer_status = refl;
        answer_previous = refl;
        answer_node = refl;
        answer_stored = counted ∙ omega arith;
      }
