-- ===== src/Commands/Writes.antt =====
-- packages/control-plane/src/executor.rs: what the statements of the commands leave of the tasks
-- and of the nodes.
use swarm_intelligence_engin.Prelude.{
  ◌≡◌, subst, ◌∙◌, ℕ, true, List, [], ◌∷◌, ◌++◌, any, All, some, String, ok, through, arith,
}
use swarm_intelligence_engin.Store.{Task, Node, Json, Store, changed, same_task, same_node}
use swarm_intelligence_engin.Store.Lookup.{with_status}
use swarm_intelligence_engin.Store.Checks.{with_lifecycle}
use swarm_intelligence_engin.Tasks.{Context}
use swarm_intelligence_engin.Tasks.Steps.{insert_event-keeps}
use swarm_intelligence_engin.Tasks.Failing.{HasNodes}
use swarm_intelligence_engin.Commands.{append_event, event_for}
use swarm_intelligence_engin.Commands.Board.{
  Step, stays, board, assign, board-changed, any-node-changed,
}

-- The board makes a step, and every task still has its node.
abbrev pub IsStep : Store → Store → Type 0
IsStep s s' = Step (board s) (board s') × HasNodes s'

abbrev HasNode : List Node → Task → Type 0
HasNode ns t = any (same_node t.node_id) ns ≡ true

HasNodes-nodes :
    (ns ns' : List Node) (ts : List Task)
    → ((id : String) → any (same_node id) ns ≡ true → any (same_node id) ns' ≡ true)
    → All (HasNode ns) ts
    → All (HasNode ns') ts
HasNodes-nodes ns ns' [] k h = tt
HasNodes-nodes ns ns' (t ∷ ts) k h = (k t.node_id h.0, HasNodes-nodes ns ns' ts k h.1)

HasNodes-changed :
    (now : ℕ) (v id : String) (ns : List Node) (ts : List Task)
    → All (HasNode ns) ts
    → All (HasNode ns) (changed (same_task id) (with_status now v) ts)
HasNodes-changed now v id ns [] h = tt
HasNodes-changed now v id ns (t ∷ ts) h = ground (arith, HasNodes-changed now v id ns ts h.1, h.0)

pub HasNodes-snoc :
    (ns : List Node) (t : Task) (ts : List Task)
    → HasNode ns t
    → All (HasNode ns) ts
    → All (HasNode ns) (ts ++ (t ∷ []))
HasNodes-snoc ns t [] k h = (k, tt)
HasNodes-snoc ns t (x ∷ ts) k h = (h.0, HasNodes-snoc ns t ts k h.1)

-- The tasks stay, and no node is lost.
pub IsStep-same :
    (s s' : Store)
    → HasNodes s
    → s'.tasks ≡ s.tasks
    → ((id : String) → any (same_node id) s.nodes ≡ true → any (same_node id) s'.nodes ≡ true)
    → IsStep s s'
IsStep-same s s' h e k = (rw e stays, rw e (HasNodes-nodes s.nodes s'.nodes s.tasks k h))

pub append_event-keeps :
    (cx : Context) (drawn : ℕ) (kind id event_kind key : String) (payload : List (String × Json))
    (s : Store) {r : String × Store}
    → append_event cx drawn kind id event_kind key payload s ≡ ok r
    → (r.1.tasks ≡ s.tasks) × (r.1.nodes ≡ s.nodes)
unfolding append_event
append_event-keeps cx drawn kind id event_kind key payload s {r} h = through _ _ h λ s1 e g.
    let (same, kept) =
      insert_event-keeps (event_for cx drawn kind id event_kind key payload) s {s' = s1} e in
    ground (arith, same, g)

-- A task takes a status, and its node a lifecycle.
pub IsStep-change :
    (now : ℕ) (v w id node from : String) (s s' : Store)
    → HasNodes s
    → board s id ≡ some from
    → s'.tasks ≡ changed (same_task id) (with_status now v) s.tasks
    → s'.nodes ≡ changed (same_node node) (with_lifecycle now w) s.nodes
    → Step (board s) (assign id v (board s))
    → IsStep s s'
IsStep-change now v w id node from s s' h found e f step = (
  subst (Step (board s)) (board-changed now v id s s' found e) step,
  rw (e, f)
      (HasNodes-nodes s.nodes (changed (same_node node) (with_lifecycle now w) s.nodes) _
        (λ i k. any-node-changed now w (same_node node) i s.nodes ∙ k)
        (HasNodes-changed now v id s.nodes s.tasks h)),
)
