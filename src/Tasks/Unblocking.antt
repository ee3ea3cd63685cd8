-- ===== src/Tasks/Unblocking.antt =====
-- services/orchestration-api/src/routes/task_lifecycle.rs: `unblock_dependent_tasks`, which runs
-- after the commit, outside any transaction.
use swarm_intelligence_engin.Prelude.{
  ℕ, Bool, false, not, ◌&&◌, List, [], ◌∷◌, any, filter, find?, map, Option, none, some, String,
  str_eq,
}
use swarm_intelligence_engin.Store.{
  Task, Node, NodeEdge, Store, changed, one_of, same_task, same_node,
}

-- `pred.lifecycle NOT IN ('admitted', 'done', 'completed')` of a predecessor.
abbrev pub is_unfinished : String → Node → Bool
is_unfinished id n =
    str_eq n.node_id id && not (one_of ("admitted" ∷ "done" ∷ "completed" ∷ []) n.lifecycle)

-- An edge of a dependency into the node, from a predecessor that is not finished.
abbrev pub holds_back : Store → String → NodeEdge → Bool
holds_back s node e =
    str_eq e.to_node_id node
    && (one_of ("depends_on" ∷ "blocks" ∷ []) e.edge_kind
        && any (is_unfinished e.from_node_id) s.nodes)

abbrev pub leads_to : String → String → NodeEdge → Bool
leads_to completed node e = str_eq e.from_node_id completed && str_eq e.to_node_id node

-- The WHERE clause of the SELECT, of a task.
unfoldable pub is_unblocked : Store → String → Task → Bool
is_unblocked s completed t =
    any (leads_to completed t.node_id) s.node_edges
    && (any (same_node t.node_id) s.nodes
        && (str_eq t.status "queued" && not (any (holds_back s t.node_id) s.node_edges)))

-- The SELECT: the primary keys of the tasks, each once.
unfoldable pub unblocked_tasks : Store → String → List String
unblocked_tasks s completed = map (λ t. t.task_id) (filter (is_unblocked s completed) s.tasks)

-- `node_id = (SELECT node_id FROM tasks WHERE task_id = $1)`, which no row passes when there is no
-- such task.
abbrev pub is_node_of : Option Task → Node → Bool
is_node_of none n = false
is_node_of (some t) n = str_eq n.node_id t.node_id

abbrev pub not_started : Node → Bool
not_started n = one_of ("proposed" ∷ "queued" ∷ []) n.lifecycle

-- The two updates for one task; both values pass the CHECK constraints.
unfoldable pub start_task : ℕ → String → Store → Store
start_task now id s =
    let tasks =
      changed (same_task id) (λ t. record t { status = "running"; updated_at = now }) s.tasks in
    record s {
      tasks = tasks;
      nodes =
          changed (λ n. is_node_of (find? (same_task id) tasks) n && not_started n)
            (λ n. record n { lifecycle = "running"; updated_at = now }) s.nodes;
    }

-- The loop over the rows of the SELECT.
unfoldable pub start_tasks : ℕ → List String → Store → Store
start_tasks now [] s = s
start_tasks now (id ∷ ids) s = start_tasks now ids (start_task now id s)

unfoldable pub unblock_dependent_tasks : ℕ → String → Store → Store
unblock_dependent_tasks now completed s = start_tasks now (unblocked_tasks s completed) s
