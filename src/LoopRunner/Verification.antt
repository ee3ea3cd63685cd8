-- ===== src/LoopRunner/Verification.antt =====
-- services/loop-runner/src/tick.rs: the node for the verification of the integration, which
-- `decompose_and_create_tasks` adds to an objective, and its task.
use swarm_intelligence_engin.Prelude.{
  ℕ, ◌+◌, Bool, false, not, ◌&&◌, if◌then◌else◌, List, [], ◌∷◌, any, filter, length, String, str_eq,
  append, Result, ok, ◌>>=◌,
}
use swarm_intelligence_engin.Store.{Node, Json, Store, ApiError, same_node, insert_event}
use swarm_intelligence_engin.Store.Inserts.{insert_node, insert_edge}
use swarm_intelligence_engin.Tasks.{Context}
use swarm_intelligence_engin.Commands.{event_for, has_key}
use swarm_intelligence_engin.LoopRunner.{Swept, Transacted, in_transaction, then_sweep}
use swarm_intelligence_engin.LoopRunner.Tasking.{TaskSetup, create_tasks_for_objective}

abbrev pub is_verify_node : String → Node → Bool
is_verify_node objective_id n = str_eq n.objective_id objective_id && str_eq n.lane "integration"

abbrev pub verify_key : String → String
verify_key cycle_id = append "integration-verify-node-" cycle_id

-- The row that the INSERT INTO nodes adds.
abbrev pub verify_node : Context → String → String → Node
verify_node cx objective_id id = record {
  node_id = id;
  objective_id = objective_id;
  title = "Integration Verification";
  statement =
      "Merge all completed worktrees into mainline, detect project type, run build/test, report failures.";
  lane = "integration";
  lifecycle = "proposed";
  certification_required = false;
  updated_at = cx.now;
}

-- The other nodes of the objective.
unfoldable pub other_nodes : String → String → List Node → List Node
other_nodes objective_id id ns =
    filter (λ n. str_eq n.objective_id objective_id && not (same_node id n)) ns

-- The loop that makes the node depend on each of the others.
unfoldable pub add_edges : Context → ℕ → String → List Node → Store → Result ApiError Store
add_edges cx drawn id [] s = ok s
add_edges cx drawn id (n ∷ ns) s = do
  s1 ←
      insert_edge
        (record {
          edge_id = cx.new_id drawn;
          from_node_id = n.node_id;
          to_node_id = id;
          edge_kind = "depends_on";
        })
        s
  add_edges cx (drawn + 1) id ns s1

-- The statements that add the node.
unfoldable pub open_verification : Context → String → String → ℕ → Store → Transacted
open_verification cx cycle_id objective_id drawn s = do
  let id = cx.new_id drawn
  s1 ← insert_node (verify_node cx objective_id id) s
  let others = other_nodes objective_id id s1.nodes
  s2 ← add_edges cx (drawn + 1) id others s1
  s3 ←
      insert_event
        (event_for cx (drawn + (1 + length others)) "node" id "integration_verify_node_created"
          (verify_key cycle_id)
          (("objective_id", Json.text objective_id)
            ∷ ("cycle_id", Json.text cycle_id)
            ∷ ("depends_on_count", Json.count (length others))
            ∷ []))
        s2
  ok (0, s3)

-- Unless the objective has such a node, or the key of the cycle is recorded: the node, and then the
-- tasks of the nodes without one.
unfoldable pub add_verification : Context → TaskSetup → String → String → ℕ → Store → Swept
add_verification cx setup cycle_id objective_id drawn s =
    let others = other_nodes objective_id (cx.new_id drawn) s.nodes in
    if any (is_verify_node objective_id) s.nodes
    then (ok 0, s)
    else if any (has_key "node" (verify_key cycle_id)) s.event_journal
    then (ok 0, s)
    else then_sweep (in_transaction s (open_verification cx cycle_id objective_id drawn s))
        (create_tasks_for_objective cx setup cycle_id objective_id (drawn + (2 + length others)))
