-- ===== src/LoopRunner/Creation.antt =====
-- services/loop-runner/src/tick.rs: the sweeps that create loops and cycles, and take cycles out of
-- intake.
use swarm_intelligence_engin.Prelude.{
  ℕ, ◌+◌, pos, next_i32, display_i32, Bool, not, ◌&&◌, if◌then◌else◌, List, [], ◌∷◌, any, filter,
  String, str_eq, append, ok, ◌>>=◌,
}
use swarm_intelligence_engin.Store.{Json, Store, Objective, Loop, Cycle, changed, insert_event}
use swarm_intelligence_engin.Store.Inserts.{same_loop, insert_loop, insert_cycle}
use swarm_intelligence_engin.Tasks.{Context}
use swarm_intelligence_engin.Commands.{event_for}
use swarm_intelligence_engin.LoopRunner.{
  Swept, Transacted, in_transaction, sweep, unless_recorded, set_phase, cycle_in_phase, in_phase,
}

abbrev pub loop_key : String → String
loop_key objective_id = append "auto-loop-for-" objective_id

-- The statements that create a loop of the objective.
unfoldable pub open_loop : Context → ℕ → Objective → Store → Transacted
open_loop cx drawn o s = do
  let loop_id = cx.new_id drawn
  s1 ←
      insert_loop
        (record {
          loop_id = loop_id;
          objective_id = o.objective_id;
          cycle_index = pos 0;
          active_track = "main";
          created_at = cx.now;
          updated_at = cx.now;
        })
        s
  s2 ←
      insert_event
        (event_for cx (drawn + 1) "loop" loop_id "loop_created" (loop_key o.objective_id) (
          ("loop_id", Json.text loop_id)
          ∷ ("objective_id", Json.text o.objective_id)
          ∷ ("active_track", Json.text "main")
          ∷ ("trigger", Json.text "auto_create")
          ∷ []))
        s1
  ok (1, s2)

unfoldable pub create_loop_for : Context → ℕ → Objective → Store → Swept
create_loop_for cx drawn o s =
    in_transaction s (unless_recorded "loop" (loop_key o.objective_id) s (open_loop cx drawn o s))

abbrev pub is_loop_for : String → Loop → Bool
is_loop_for objective_id l = str_eq l.objective_id objective_id

-- The objectives without a loop.
unfoldable pub objectives_without_loop : Store → List Objective
objectives_without_loop s =
    filter (λ o. not (any (is_loop_for o.objective_id) s.loops)) s.objectives

unfoldable pub create_loops_for_new_objectives : Context → Store → Swept
create_loops_for_new_objectives cx s =
    sweep 2 (create_loop_for cx) (objectives_without_loop s) 0 0 s

-- A cycle of the loop that is not finished.
abbrev pub is_active_cycle_of : String → Cycle → Bool
is_active_cycle_of loop_id c = str_eq c.loop_id loop_id && not (in_phase "next_cycle_ready" c)

-- The loops of which no cycle is unfinished.
unfoldable pub loops_without_active_cycle : Store → List Loop
loops_without_active_cycle s =
    filter (λ l. not (any (is_active_cycle_of l.loop_id) s.cycles)) s.loops

-- The columns that the INSERT INTO cycles of the sweep names.
abbrev pub given_cycle_columns : List String
given_cycle_columns =
    "cycle_id" ∷ "loop_id" ∷ "phase" ∷ "policy_snapshot" ∷ "created_at" ∷ "updated_at" ∷ []

-- The default policy, which is written by its `policy_id`: its other values are constants.
abbrev default_policy : String → Json
default_policy cycle_id = Json.document (append "auto-policy-" cycle_id)

abbrev pub cycle_key : Loop → String
cycle_key l =
    append "auto-cycle-" (append l.loop_id (append "-" (display_i32 (next_i32 l.cycle_index))))

-- The statements that create a cycle of the loop.
unfoldable pub open_cycle : Context → ℕ → Loop → Store → Transacted
open_cycle cx drawn l s = do
  let cycle_id = cx.new_id drawn
  let next_cycle_index = next_i32 l.cycle_index
  s1 ←
      insert_cycle given_cycle_columns
        (record {
          cycle_id = cycle_id;
          loop_id = l.loop_id;
          phase = "intake";
          policy_snapshot = default_policy cycle_id;
          created_at = cx.now;
          updated_at = cx.now;
        })
        s
  let s2 = record s1 {
    loops =
        changed (same_loop l.loop_id)
          (λ r. record r { cycle_index = next_cycle_index; updated_at = cx.now }) s1.loops;
  }
  s3 ←
      insert_event
        (event_for cx (drawn + 1) "cycle" cycle_id "cycle_created" (cycle_key l) (
          ("cycle_id", Json.text cycle_id)
          ∷ ("loop_id", Json.text l.loop_id)
          ∷ ("cycle_index", Json.integer next_cycle_index)
          ∷ ("phase", Json.text "intake")
          ∷ ("trigger", Json.text "auto_create")
          ∷ []))
        s2
  ok (1, s3)

unfoldable pub create_cycle_for : Context → ℕ → Loop → Store → Swept
create_cycle_for cx drawn l s =
    in_transaction s (unless_recorded "cycle" (cycle_key l) s (open_cycle cx drawn l s))

unfoldable pub create_cycles_for_active_loops : Context → Store → Swept
create_cycles_for_active_loops cx s =
    sweep 2 (create_cycle_for cx) (loops_without_active_cycle s) 0 0 s

abbrev intake_key : String → String
intake_key cycle_id = append "advance-intake-" cycle_id

-- The statements that take the cycle out of intake.
unfoldable pub leave_intake : Context → ℕ → Cycle → Store → Transacted
leave_intake cx drawn c s = do
  s1 ← set_phase cx.now "plan_elaboration" c.cycle_id "intake" s
  s2 ←
      insert_event
        (event_for cx drawn "cycle" c.cycle_id "cycle_phase_transitioned" (intake_key c.cycle_id) (
          ("cycle_id", Json.text c.cycle_id)
          ∷ ("loop_id", Json.text c.loop_id)
          ∷ ("from_phase", Json.text "intake")
          ∷ ("to_phase", Json.text "plan_elaboration")
          ∷ ("trigger", Json.text "auto_advance")
          ∷ []))
        s1
  ok (1, s2)

unfoldable pub advance_intake : Context → ℕ → Cycle → Store → Swept
advance_intake cx drawn c s = in_transaction s (
    unless_recorded "cycle" (intake_key c.cycle_id) s (
      if any (cycle_in_phase c.cycle_id "intake") s.cycles
      then leave_intake cx drawn c s
      else ok (0, s)))

unfoldable pub advance_intake_cycles : Context → Store → Swept
advance_intake_cycles cx s = sweep 1 (advance_intake cx) (filter (in_phase "intake") s.cycles) 0 0 s
