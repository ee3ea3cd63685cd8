-- ===== src/Store/Inserts.antt =====
-- db/migrations: the INSERT statements on the tables of the planning and of the execution, with the
-- primary keys, the foreign keys and the CHECK constraints that they meet.
use swarm_intelligence_engin.Prelude.{
  Bool, true, not, ◌&&◌, if◌then◌else◌, List, [], ◌∷◌, ◌++◌, any, all, String, str_eq, Result, ok,
  err, same_ℤ,
}
use swarm_intelligence_engin.Store.{
  Task, TaskAttempt, Node, NodeEdge, Objective, Loop, Cycle, Store, ApiError, internal_error,
  one_of, same_task, same_node, status_allowed, lifecycle_allowed,
}

-- chk_objectives_planning_status (0018_enum_check_constraints.sql).
abbrev planning_status_allowed : String → Bool
planning_status_allowed =
    one_of ("draft" ∷ "elaborating" ∷ "validated" ∷ "executing" ∷ "completed" ∷ "abandoned" ∷ [])

-- chk_objectives_plan_gate (0018_enum_check_constraints.sql).
abbrev plan_gate_allowed : String → Bool
plan_gate_allowed = one_of ("draft" ∷ "needs_clarification" ∷ "ready_for_execution" ∷ [])

-- chk_cycles_phase (0018_enum_check_constraints.sql).
abbrev pub phase_allowed : String → Bool
phase_allowed = one_of (
    "intake" ∷ "conversation_extraction" ∷ "plan_elaboration" ∷ "plan_validation" ∷ "review"
    ∷ "decomposition" ∷ "dispatch" ∷ "execution" ∷ "integration" ∷ "certification_selection"
    ∷ "certification" ∷ "state_update" ∷ "next_cycle_ready" ∷ [])

-- chk_nodes_lane (0019_align_check_constraints.sql).
abbrev lane_allowed : String → Bool
lane_allowed = one_of (
    "branch" ∷ "mainline_candidate" ∷ "mainline" ∷ "blocked" ∷ "archived" ∷ "integration"
    ∷ "implementation" ∷ "planning" ∷ "review" ∷ "verification" ∷ [])

abbrev pub same_objective : String → Objective → Bool
same_objective id o = str_eq o.objective_id id

abbrev pub same_loop : String → Loop → Bool
same_loop id l = str_eq l.loop_id id

abbrev pub same_cycle : String → Cycle → Bool
same_cycle id c = str_eq c.cycle_id id

-- `INSERT INTO objectives`.
unfoldable pub insert_objective : Objective → Store → Result ApiError Store
insert_objective o s =
    if planning_status_allowed o.planning_status
      && (plan_gate_allowed o.plan_gate && not (any (same_objective o.objective_id) s.objectives))
    then ok (record s { objectives = s.objectives ++ (o ∷ []) })
    else err internal_error

-- `INSERT INTO loops`.
unfoldable pub insert_loop : Loop → Store → Result ApiError Store
insert_loop l s =
    if any (same_objective l.objective_id) s.objectives && not (any (same_loop l.loop_id) s.loops)
    then ok (record s { loops = s.loops ++ (l ∷ []) })
    else err internal_error

-- The columns of `cycles`; those without a default have to be given.
abbrev cycle_columns : List String
cycle_columns =
    "cycle_id" ∷ "loop_id" ∷ "phase" ∷ "policy_snapshot" ∷ "created_at" ∷ "updated_at" ∷ "revision"
    ∷ []

abbrev required_cycle_columns : List String
required_cycle_columns = "cycle_id" ∷ "loop_id" ∷ "phase" ∷ "policy_snapshot" ∷ []

-- The columns that the statement names exist, and none without a default is missing.
abbrev names_columns : List String → Bool
names_columns names =
    all (λ n. one_of cycle_columns n) names && all (λ n. one_of names n) required_cycle_columns

-- `INSERT INTO cycles (...)`, with the columns that it names.
unfoldable pub insert_cycle : List String → Cycle → Store → Result ApiError Store
insert_cycle names c s =
    if names_columns names
      && (phase_allowed c.phase
          && (any (same_loop c.loop_id) s.loops && not (any (same_cycle c.cycle_id) s.cycles)))
    then ok (record s { cycles = s.cycles ++ (c ∷ []) })
    else err internal_error

-- `INSERT INTO nodes ... ON CONFLICT DO NOTHING`.
unfoldable pub insert_node : Node → Store → Result ApiError Store
insert_node n s =
    if not (lane_allowed n.lane && lifecycle_allowed n.lifecycle)
    then err internal_error
    else if any (same_node n.node_id) s.nodes
    then ok s
    else if any (same_objective n.objective_id) s.objectives
    then ok (record s { nodes = s.nodes ++ (n ∷ []) })
    else err internal_error

abbrev pub same_edge : String → NodeEdge → Bool
same_edge id e = str_eq e.edge_id id

-- `INSERT INTO node_edges ... ON CONFLICT DO NOTHING`: a row with a known key is left out.
unfoldable pub insert_edge : NodeEdge → Store → Result ApiError Store
insert_edge e s =
    if any (same_edge e.edge_id) s.node_edges
    then ok s
    else if any (same_node e.from_node_id) s.nodes && any (same_node e.to_node_id) s.nodes
    then ok (record s { node_edges = s.node_edges ++ (e ∷ []) })
    else err internal_error

-- `INSERT INTO tasks`.
unfoldable pub insert_task : Task → Store → Result ApiError Store
insert_task t s =
    if status_allowed t.status
      && (any (same_node t.node_id) s.nodes && not (any (same_task t.task_id) s.tasks))
    then ok (record s { tasks = s.tasks ++ (t ∷ []) })
    else err internal_error

-- Rows that a new attempt clashes with: by the primary key, or by (task_id, attempt_index).
abbrev clashes : TaskAttempt → TaskAttempt → Bool
clashes a b =
    if str_eq b.task_attempt_id a.task_attempt_id
    then true
    else str_eq b.task_id a.task_id && same_ℤ b.attempt_index a.attempt_index

-- `INSERT INTO task_attempts`.
unfoldable pub insert_attempt : TaskAttempt → Store → Result ApiError Store
insert_attempt a s =
    if status_allowed a.status
      && (any (same_task a.task_id) s.tasks && not (any (clashes a) s.task_attempts))
    then ok (record s { task_attempts = s.task_attempts ++ (a ∷ []) })
    else err internal_error
