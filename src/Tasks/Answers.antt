-- ===== src/Tasks/Answers.antt =====
-- When the completion of a task is answered with a success, and with which error otherwise.
use swarm_intelligence_engin.Prelude.{
  ℕ, ◌+◌, ◌≤◌, ◌<◌, ◌≡◌, refl, ◌∙◌, true, false, ◌&&◌, List, [], ◌∷◌, ◌++◌, any, find?, All, Option,
  some, String, str_eq, append, ok, ◌>>=◌, any-append, arith,
}
use swarm_intelligence_engin.Store.{
  Task, Json, ArtifactRef, Event, Store, artifact_kind_allowed, changed, same_task, same_node,
  insert_artifact, insert_event, event_kind_allowed, same_event, same_idempotency, same_event_id,
}
use swarm_intelligence_engin.Store.Lookup.{with_status}
use swarm_intelligence_engin.Tasks.{
  is_valid_task_transition, node_lifecycle_for_task_status, ArtifactEntry, CompleteTaskRequest,
  TaskLifecycleResponse, Context, store_artifacts, optional_text, running_attempt_of,
}
use swarm_intelligence_engin.Tasks.Transactions.{complete_task_tx}
use swarm_intelligence_engin.Tasks.Service.{complete_task}
use swarm_intelligence_engin.Store.Checks.{
  with_lifecycle, finished, set_task_status-passes, set_node_lifecycle-passes,
  finish_attempts-passes,
}

-- The identifiers that are still to be drawn are different from each other and from those of the
-- rows of the table.
pub record IsFresh (cx : Context) (from : ℕ) (rows : List ArtifactRef) : Type 0 where
  pub unused : (k : ℕ) → from ≤ k → any (λ b. str_eq b.artifact_ref_id (cx.new_id k)) rows ≡ false
  pub distinct : (i j : ℕ) → i < j → str_eq (cx.new_id i) (cx.new_id j) ≡ false

abbrev pub artifact_row : Context → String → ℕ → ArtifactEntry → ArtifactRef
artifact_row cx id k a = record {
  artifact_ref_id = cx.new_id k;
  task_id = id;
  artifact_kind = a.artifact_kind;
  artifact_uri = a.artifact_uri;
  metadata = a.metadata;
}

IsFresh-snoc :
    (cx : Context) (id : String) (from : ℕ) (a : ArtifactEntry) (rows : List ArtifactRef)
    → IsFresh cx from rows
    → IsFresh cx (from + 1) (rows ++ (artifact_row cx id from a ∷ []))
IsFresh-snoc cx id from a rows f = record {
  unused = λ k le.
      any-append (λ b. str_eq b.artifact_ref_id (cx.new_id k)) rows (artifact_row cx id from a ∷ [])
      ∙ rw (f.unused k (omega arith), f.distinct from k (omega arith)) refl;
  distinct = f.distinct;
}

-- The artifacts are all stored; no other table changes.
store_artifacts-stores :
    (cx : Context) (id : String) (es : List ArtifactEntry) (stored : ℕ) (s : Store)
    → IsFresh cx stored s.artifact_refs
    → All (λ a. artifact_kind_allowed a.artifact_kind ≡ true) es
    → (rows : List ArtifactRef) × (n : ℕ) × (store_artifacts cx id es stored s
        ≡ ok (record s { artifact_refs = rows }, n))
unfolding store_artifacts insert_artifact ◌>>=◌
store_artifacts-stores cx id [] stored s f k = (s.artifact_refs, stored, refl)
store_artifacts-stores cx id (a ∷ es) stored s f k =
    let s1 = record s { artifact_refs = s.artifact_refs ++ (artifact_row cx id stored a ∷ []) } in
    let (rows, n, rest) =
      store_artifacts-stores cx id es (stored + 1) s1
        (IsFresh-snoc cx id stored a s.artifact_refs f) k.1 in
    (rows, n, rw (k.0, f.unused stored (omega arith)) rest)

-- No event of the journal has the idempotency key of the event, or its identifier.
abbrev pub IsNewEvent : Context → String → String → List Event → Type 0
IsNewEvent cx kind key journal =
    (any (λ f. str_eq f.aggregate_kind kind && str_eq f.idempotency_key key) journal ≡ false)
    × ((k : ℕ) → any (λ f. str_eq f.event_id (cx.new_id k)) journal ≡ false)

no_same_event :
    (e : Event) (journal : List Event)
    → any (same_idempotency e) journal ≡ false
    → any (same_event e) journal ≡ false
no_same_event e [] h = refl
no_same_event e (f ∷ journal) h = ground (arith, no_same_event e journal)

pub insert_event-new :
    (e : Event) (s : Store)
    → event_kind_allowed e.event_kind ≡ true
    → any (same_idempotency e) s.event_journal ≡ false
    → any (same_event_id e) s.event_journal ≡ false
    → insert_event e s ≡ ok (record s { event_journal = s.event_journal ++ (e ∷ []) })
unfolding insert_event
insert_event-new e s a h k = rw (a, no_same_event e s.event_journal h, h, k) refl

-- The event of the completion of a running task.
abbrev completion : Context → String → String → Option String → ℕ → Event
completion cx id node output stored = record {
  event_id = cx.new_id stored;
  aggregate_kind = "task";
  aggregate_id = id;
  event_kind = "task_completed";
  idempotency_key = append "task-complete-" id;
  payload =
      ("task_id", Json.text id)
      ∷ ("node_id", Json.text node)
      ∷ ("from_status", Json.text "running")
      ∷ ("to_status", Json.text "succeeded")
      ∷ ("output", optional_text output)
      ∷ ("artifacts_stored", Json.count stored)
      ∷ ("trigger", Json.text "api_complete")
      ∷ [];
  created_at = cx.now;
}

-- The completion of a running task is answered with a success, if the kinds of the artifacts are
-- among those that the database allows, the identifiers drawn are new, and the journal has no event
-- with the idempotency key of the completion.
pub complete_task-succeeds :
    (cx : Context) (id : String) (req : CompleteTaskRequest) (s : Store) (t : Task)
    → find? (same_task id) s.tasks ≡ some t
    → t.status ≡ "running"
    → All (λ a. artifact_kind_allowed a.artifact_kind ≡ true) req.artifacts
    → IsFresh cx 0 s.artifact_refs
    → IsNewEvent cx "task" (append "task-complete-" id) s.event_journal
    → (r : TaskLifecycleResponse) × ((complete_task cx id req s).0 ≡ ok r)
unfolding complete_task complete_task_tx is_valid_task_transition node_lifecycle_for_task_status
    event_kind_allowed ◌>>=◌
complete_task-succeeds cx id req s t found running kinds fresh event =
    let s1 = record s { tasks = changed (same_task id) (with_status cx.now "succeeded") s.tasks } in
    let s2 = record s1 {
      nodes = changed (same_node t.node_id) (with_lifecycle cx.now "done") s.nodes;
    } in
    let s3 = record s2 {
      task_attempts = changed (running_attempt_of id) (finished cx.now "succeeded") s.task_attempts;
    } in
    let (rows, n, stored) = store_artifacts-stores cx id req.artifacts 0 s3 fresh kinds in
    (
      record {
        task_id = id;
        status = "succeeded";
        previous_status = t.status;
        node_id = t.node_id;
        node_lifecycle = "done";
        artifacts_stored = n;
      },
      rw
          (
            found,
            running,
            set_task_status-passes cx.now "succeeded" s id refl,
            set_node_lifecycle-passes cx.now "done" s1 t.node_id refl,
            finish_attempts-passes cx.now "succeeded" s2 (running_attempt_of id) refl,
            stored,
            insert_event-new (completion cx id t.node_id req.output n)
                (record s3 { artifact_refs = rows }) refl event.0 (event.1 n),
          )
          refl,
    )
