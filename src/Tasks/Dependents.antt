-- ===== src/Tasks/Dependents.antt =====
-- The tasks that the completion of a node starts, described by the rows of the tables.
use swarm_intelligence_engin.Prelude.{
  IsUnique, ℕ, ◌≡◌, ◌≢◌, ◌⊎◌, ◌↔◌, inl, inr, true, false, Bool-cases, find?, some, String, eq_iff,
  arith, Any, All, any_iff, any-false_iff,
}
use swarm_intelligence_engin.Store.{Task, Node, NodeEdge, Store, same_task, same_node}
use swarm_intelligence_engin.Store.Lookup.{status_of, keys}
use swarm_intelligence_engin.Tasks.Unblocking.{
  is_unblocked, is_unfinished, holds_back, leads_to, unblock_dependent_tasks,
}
use swarm_intelligence_engin.Tasks.Waiting.{unblock_dependent_tasks-exact}

-- The predecessor's row says that it is not finished.
abbrev pub IsUnfinished : String → Node → Type 0
IsUnfinished id n =
    (n.node_id ≡ id)
    × (n.lifecycle ≢ "admitted")
    × (n.lifecycle ≢ "done")
    × (n.lifecycle ≢ "completed")

-- The edge makes the node wait for a predecessor that is not finished.
abbrev pub HoldsBack : Store → String → NodeEdge → Type 0
HoldsBack s node e =
    (e.to_node_id ≡ node)
    × ((e.edge_kind ≡ "depends_on") ⊎ (e.edge_kind ≡ "blocks"))
    × Any (IsUnfinished e.from_node_id) s.nodes

-- The task waits in the queue, its node is there and follows the completed one, and no edge holds it
-- back.
pub record IsFree (s : Store) (completed : String) (t : Task) : Type 0 where
  pub is_queued : t.status ≡ "queued"
  pub has_node : Any (λ n. n.node_id ≡ t.node_id) s.nodes
  pub follows : Any (λ e. (e.from_node_id ≡ completed) × (e.to_node_id ≡ t.node_id)) s.node_edges
  pub not_held_back : All (λ e. ¬ HoldsBack s t.node_id e) s.node_edges

is_unfinished_iff : (id : String) (n : Node) → (is_unfinished id n ≡ true) ↔ IsUnfinished id n
is_unfinished_iff id n = ground (
  arith,
  eq_iff n.node_id id,
  eq_iff n.lifecycle "admitted",
  eq_iff n.lifecycle "done",
  eq_iff n.lifecycle "completed",
)

pub holds_back_iff :
    (s : Store) (node : String) (e : NodeEdge) → (holds_back s node e ≡ true) ↔ HoldsBack s node e
holds_back_iff s node e = ground (
  arith,
  eq_iff e.to_node_id node,
  eq_iff e.edge_kind "depends_on",
  eq_iff e.edge_kind "blocks",
  any_iff (is_unfinished e.from_node_id) (IsUnfinished e.from_node_id)
      (is_unfinished_iff e.from_node_id) s.nodes,
)

pub not_holds_back_iff :
    (s : Store) (node : String) (e : NodeEdge)
    → (holds_back s node e ≡ false) ↔ (¬ HoldsBack s node e)
not_holds_back_iff s node e = ground (
  arith,
  eq_iff e.to_node_id node,
  eq_iff e.edge_kind "depends_on",
  eq_iff e.edge_kind "blocks",
  any_iff (is_unfinished e.from_node_id) (IsUnfinished e.from_node_id)
      (is_unfinished_iff e.from_node_id) s.nodes,
)

leads_to_iff :
    (completed node : String) (e : NodeEdge)
    → (leads_to completed node e ≡ true) ↔ ((e.from_node_id ≡ completed) × (e.to_node_id ≡ node))
leads_to_iff completed node e =
    ground (arith, eq_iff e.from_node_id completed, eq_iff e.to_node_id node)

IsFree-iff :
    (s : Store) (completed : String) (t : Task)
    → IsFree s completed t ↔ (
        (t.status ≡ "queued")
        × Any (λ n. n.node_id ≡ t.node_id) s.nodes
        × Any (λ e. (e.from_node_id ≡ completed) × (e.to_node_id ≡ t.node_id)) s.node_edges
        × All (λ e. ¬ HoldsBack s t.node_id e) s.node_edges)
IsFree-iff s completed t = (
  λ f. (f.is_queued, f.has_node, f.follows, f.not_held_back),
  λ p. record { is_queued = p.0; has_node = p.1; follows = p.2; not_held_back = p.3 },
)

is_unblocked_iff :
    (s : Store) (completed : String) (t : Task)
    → (is_unblocked s completed t ≡ true) ↔ IsFree s completed t
unfolding is_unblocked
is_unblocked_iff s completed t = ground (
  arith,
  IsFree-iff s completed t,
  eq_iff t.status "queued",
  any_iff (same_node t.node_id) (λ n. n.node_id ≡ t.node_id) (λ n. eq_iff n.node_id t.node_id)
      s.nodes,
  any_iff (leads_to completed t.node_id)
      (λ e. (e.from_node_id ≡ completed) × (e.to_node_id ≡ t.node_id))
      (leads_to_iff completed t.node_id) s.node_edges,
  any-false_iff (holds_back s t.node_id) (λ e. ¬ HoldsBack s t.node_id e)
      (not_holds_back_iff s t.node_id) s.node_edges,
)

-- If no two tasks have the same identifier, the completion of a node starts exactly the tasks that
-- wait in the queue, whose node follows the completed one, and whose node no dependency on an
-- unfinished node holds back; the status of any other task stays.
pub unblock_dependent_tasks-IsFree :
    (now : ℕ) (node : String) (s : Store) (id : String) (t : Task)
    → IsUnique (keys s.tasks)
    → find? (same_task id) s.tasks ≡ some t
    → let after = status_of id (unblock_dependent_tasks now node s).tasks in
      (IsFree s node t × (after ≡ some "running")) ⊎ ((¬ IsFree s node t) × (after ≡ some t.status))
unblock_dependent_tasks-IsFree now node s id t u h =
    let exact = unblock_dependent_tasks-exact now node s id t u h in
    elim (Bool-cases (is_unblocked s node t)) [
      | inl e ↦ inl ((is_unblocked_iff s node t).0 e, rw e at exact)
      | inr n ↦ inr (λ f. let yes = (is_unblocked_iff s node t).1 f in cc, rw n at exact)
    ]
