-- ===== src/Commands/Cycles.antt =====
-- packages/control-plane/src/executor.rs: the command that generates the next cycle of a loop
-- (CTL-015).
use swarm_intelligence_engin.Prelude.{
  ℤ, pos, next_i32, Bool, ◌&&◌, List, [], ◌∷◌, find?, Option, none, some, String, append, str_eq,
  Result, ok, ◌>>=◌, ◌>>◌, guard, ok_or,
}
use swarm_intelligence_engin.Store.{
  Node, Json, Store, Loop, one_of, update, changed, same_node, lifecycle_allowed,
}
use swarm_intelligence_engin.Store.Inserts.{same_cycle, same_loop, insert_cycle}
use swarm_intelligence_engin.Tasks.{Context}
use swarm_intelligence_engin.Commands.{
  CommandResult, CommandRejection, precondition_failed, append_event, outcome_applied, reject, db,
  unless_done,
}
use swarm_intelligence_engin.Commands.Requests.{NextCycleGenerationCommand}
use swarm_intelligence_engin.Commands.Creation.{not_found, named_cycle_columns}

-- `current_index.map_or(1, |i| i + 1)` of the loop's row.
abbrev pub index_after : Option Loop → ℤ
index_after none = pos 1
index_after (some l) = next_i32 l.cycle_index

abbrev is_finished_node : String → Node → Bool
is_finished_node id n = same_node id n && one_of ("failed" ∷ "completed" ∷ []) n.lifecycle

-- The loop over `carry_forward_node_ids`.
unfoldable pub carry_forward : Context → List String → Store → Result CommandRejection Store
carry_forward cx [] s = ok s
carry_forward cx (id ∷ ids) s = do
  rows ← db (
      update (is_finished_node id) (λ n. record n { lifecycle = "queued"; updated_at = cx.now })
        (λ n. lifecycle_allowed n.lifecycle) s.nodes)
  carry_forward cx ids (record s { nodes = rows })

unfoldable pub execute_next_cycle_generation :
    Context → NextCycleGenerationCommand → Store → CommandResult
execute_next_cycle_generation cx cmd s =
    unless_done cx "cycle" cmd.idempotency_key "next cycle already generated" s (do
      c ←
          ok_or (find? (same_cycle cmd.current_cycle_id) s.cycles)
            (not_found "cycle" cmd.current_cycle_id)
      guard (str_eq c.phase "next_cycle_ready") (
          reject precondition_failed (
            append "cycle " (
              append cmd.current_cycle_id
                (append " is in phase " (append c.phase " (expected next_cycle_ready)")))))
      let next_index = index_after (find? (same_loop cmd.loop_id) s.loops)
      let cycle_id = cx.new_id 0
      s1 ← db (
          insert_cycle named_cycle_columns
            (record {
              cycle_id = cycle_id;
              loop_id = cmd.loop_id;
              phase = "intake";
              policy_snapshot = Json.null;
              created_at = cx.now;
              updated_at = cx.now;
            })
            s)
      let s2 = record s1 {
        loops =
            changed (same_loop cmd.loop_id)
              (λ l. record l { cycle_index = next_index; updated_at = cx.now }) s1.loops;
      }
      s3 ← carry_forward cx cmd.carry_forward_node_ids s2
      (event_id, s4) ← db (
          append_event cx 1 "cycle" cycle_id "cycle_created" cmd.idempotency_key
            (("cycle_id", Json.text cycle_id)
              ∷ ("loop_id", Json.text cmd.loop_id)
              ∷ ("cycle_index", Json.integer next_index)
              ∷ ("policy_snapshot_id", Json.text cmd.next_policy_snapshot_id)
              ∷ ("previous_cycle_id", Json.text cmd.current_cycle_id)
              ∷ ("carry_forward_node_ids", Json.texts cmd.carry_forward_node_ids)
              ∷ ("initial_phase", Json.text "intake")
              ∷ ("trigger", Json.text "next_cycle_generation")
              ∷ [])
            s3)
      ok (
        outcome_applied cx event_id (
            append "cycle " (
              append cycle_id
                (append " generated (next after " (append cmd.current_cycle_id ")")))),
        s4,
      ))
