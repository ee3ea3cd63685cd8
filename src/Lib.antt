-- ===== src/Lib.antt =====
-- Verification of the swarm intelligence engine: an orchestrator that elaborates objectives into
-- plans, gates the plans, resolves tasks to skill packs, dispatches them to workers and moves
-- tasks, nodes and cycles through their states, with PostgreSQL as the shared state.
--
-- Parts of the program and the files that model them:
--
-- - services/orchestration-api/src/routes/task_lifecycle.rs, the endpoints by which workers
--   report on tasks: Tasks (transition tables, requests, responses), Tasks/Transactions (the
--   transactions of complete_task, fail_task, patch_task and complete_attempt, statement by
--   statement), Tasks/Unblocking (unblock_dependent_tasks) and Tasks/Service (the whole handlers
--   and sequences of requests). Tasks/Steps, Reports and Attempts hold what the transactions
--   leave in the tables; Tasks/Moves, Legal and Histories the moves of the statuses;
--   Tasks/Waiting, Effects, Answers and Failing the dependents, the effects and the answers.
-- - db/migrations, the tables that the modelled code uses: Store (the rows, the CHECK
--   constraints and the unique keys, UPDATE and INSERT), Store/Inserts (the INSERT statements on
--   objectives, loops, cycles, nodes, tasks and attempts, with the columns that they name) and
--   Store/Queue (the queue of tasks and what a dispatch writes), with Store/Lookup and
--   Store/Checks on what a statement changes and when a constraint refuses it. Columns that no
--   modelled code reads are left out; an INSERT that names a column which its
--   table lacks is an error, as in the database. A transaction is a chain of results: an error
--   drops the store it has built, as a rollback does. Row locks serialise the transactions, so
--   requests are served one after the other; the statements after a commit are a separate step,
--   whose SELECT and updates can be taken apart. Identifiers come from Uuid::now_v7, outside the
--   repository: they are a parameter (Context.new_id), assumed distinct and unused where that
--   matters. Failures of the connection are not modelled.
-- - packages/planning-engine/src/schemas.rs and validation.rs, the plan gate: Planning/Schemas
--   and Planning/Validation; Planning/Scoring and Planning/Dispatch hold the proofs. The score
--   of the source is a float, an exact multiple of 1/8; here it counts eighths.
-- - services/loop-runner/src/planning.rs, the decision of elaborate_plan: Planning/Elaboration,
--   from the results of its queries (PlanFacts), with Planning/Elaboration/Decision;
--   Planning/Cycles models its query for dependency cycles, whose depth limit of 100 is the
--   source's own.
-- - packages/control-plane/src/commands.rs and worker_lifecycle.rs, with the enumerations of
--   packages/state-model/src/lib.rs: Control/Phases, Control/Lanes and Control/Workers, the
--   transition tables; their children prove what the runs of the tables can do, and Machine defines
--   runs. No code consults the table of phases; the moves that cycles make are those of LoopRunner.
-- - packages/control-plane/src/executor.rs, the executions of the commands: Commands (outcomes,
--   rejections, idempotency_check and append_event), Commands/Requests (the command records of
--   commands.rs), Commands/Creation, Dispatch, Reports and Cycles (the eleven execute_
--   functions, statement by statement) and Commands/Service (a command with its execution, and
--   sequences of commands that their caller commits or rolls back). Commands/Board is the
--   abstract view, the statuses of the tasks and the steps between them; Writes, Moves and
--   Refines relate the executions to it, Journal, Recorded and Repeats treat repeated commands,
--   Refusals the constraints that refuse a command, and Retries the retry budget.
-- - services/loop-runner/src/tick.rs, the sweeps of a tick: LoopRunner (the loop over the rows
--   of a SELECT, transactions, advance_cycle_phase), LoopRunner/Creation
--   (create_loops_for_new_objectives, create_cycles_for_active_loops, advance_intake_cycles),
--   LoopRunner/Dispatching (dispatch_queued_tasks, dispatch_phase), LoopRunner/Tasking
--   (create_tasks_for_objective, with the choice of a skill pack by Skills/Resolution),
--   LoopRunner/Verification (the part of decompose_and_create_tasks that adds the verification
--   node) and LoopRunner/Completion (check_execution_completion, the first loop of
--   complete_integration). Rules, Phases, Once, Gate, Single, Kept, Renewal, Ticks, Advance,
--   Readiness, Links and Merging hold the proofs. Each iteration commits by itself: an error ends
--   the sweep and what was committed stays.
-- - packages/user-policy/src/lib.rs, packages/control-plane/src/policy_enforcer.rs and
--   packages/robustness-policy/src/lib.rs: Policies, Policies/Limits and Policies/Output.
--   Whether a text is JSON is decided by serde_json, outside the repository, and is a parameter.
-- - packages/skill-registry/src/lib.rs: Skills/Manifests, Skills/Modes (the text of a provider
--   mode), Skills/Validation and Skills/Resolution, whose children
--   Levels, Overrides and Order describe the seven levels and their order on the packs themselves.
-- - packages/deployment/src/routing.rs: Deployment and Deployment/Routing.
-- - packages/agent-adapters/src/registry.rs and capability.rs: Adapters, with the proofs on the
--   choice of an adapter, the fallback chain and the records in its children. The adapters are
--   programs outside the repository, known by name and kind.
--
-- The parts interact through the store: the loop runner creates loops and cycles and moves the
-- cycles through their phases, a plan whose gate is satisfied is dispatched, a task is resolved to
-- a skill pack and routed, a worker reports on it through the task endpoints or a command, and the
-- completion of its node starts the tasks that wait for it.
--
-- Numbers: counts are natural numbers, the i32 columns are integers, the casts from i64 to i32 are
-- as_i32 and cast_i32, which wrap around, and the next index of an attempt or a cycle is next_i32,
-- which wraps around where a build with overflow checks panics. A u32 or i64 count of rows, and milliseconds and
-- seconds as u32 or u64, are natural numbers, since the code only compares them or divides. No
-- definition runs on fuel but the printing of a number in decimal, where the number itself is
-- enough digits.
--
-- Simplifications: the user policy that create_tasks_for_objective loads is given by the fields
-- that it reads from the JSON, and the skill packs by their manifests. The columns of a new task
-- that hold its timeout, cautions, model and review policies are left out, since no modelled code
-- reads them; its provider mode is not kept either, but insert_opened_task checks it against the
-- constraint of the column. Rows of equal created_at stay in the order of the table, where the database may
-- choose any. The texts of database errors are left out of the rejections. Of the default policy of
-- a new cycle only its policy_id is kept, since no modelled code reads the rest. Log lines are left
-- out.
--
-- Not modelled: the agents and their processes, git, HTTP and the external gateways, the user
-- interfaces, the records that no code of the repository computes with, the readiness and review
-- packages, and, of the tick, the extraction of conversations, the plan gates, the reviews, the
-- creation of nodes from a plan and its milestones, the certification queue, the second loop of
-- complete_integration, the next cycle, conflicts, drift and retention.
--
-- Prelude passes on the library names and holds the lemmas that the parts share; Examples runs the
-- models on concrete inputs.
pub mod Adapters
pub mod Commands
pub mod Control
pub mod Deployment
pub mod Examples
pub mod LoopRunner
pub mod Machine
pub mod Planning
pub mod Policies
pub mod Prelude
pub mod Skills
pub mod Store
pub mod Tasks
