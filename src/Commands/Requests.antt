-- ===== src/Commands/Requests.antt =====
-- packages/control-plane/src/commands.rs: the commands, and the enums that they carry with the text
-- that serde gives them.
use swarm_intelligence_engin.Prelude.{ℕ, ℤ, Bool, List, Option, String}
use swarm_intelligence_engin.Control.Lanes.{NodeLane}

pub data TaskStatus : Type 0 where
  queued running succeeded failed review_needed cancelled timed_out archived : TaskStatus

abbrev pub task_status_text : TaskStatus → String
task_status_text TaskStatus.queued = "queued"
task_status_text TaskStatus.running = "running"
task_status_text TaskStatus.succeeded = "succeeded"
task_status_text TaskStatus.failed = "failed"
task_status_text TaskStatus.review_needed = "review_needed"
task_status_text TaskStatus.cancelled = "cancelled"
task_status_text TaskStatus.timed_out = "timed_out"
task_status_text TaskStatus.archived = "archived"

pub data NodeLifecycle : Type 0 where
  proposed queued running review_needed certification_needed admitted blocked superseded :
      NodeLifecycle

abbrev pub lifecycle_text : NodeLifecycle → String
lifecycle_text NodeLifecycle.proposed = "proposed"
lifecycle_text NodeLifecycle.queued = "queued"
lifecycle_text NodeLifecycle.running = "running"
lifecycle_text NodeLifecycle.review_needed = "review_needed"
lifecycle_text NodeLifecycle.certification_needed = "certification_needed"
lifecycle_text NodeLifecycle.admitted = "admitted"
lifecycle_text NodeLifecycle.blocked = "blocked"
lifecycle_text NodeLifecycle.superseded = "superseded"

abbrev pub lane_text : NodeLane → String
lane_text NodeLane.branch = "branch"
lane_text NodeLane.mainline_candidate = "mainline_candidate"
lane_text NodeLane.mainline = "mainline"
lane_text NodeLane.blocked = "blocked"
lane_text NodeLane.archived = "archived"

pub data FailureKind : Type 0 where
  transient logic_error permanent worker_crash validation_failure : FailureKind

abbrev pub failure_kind_text : FailureKind → String
failure_kind_text transient = "transient"
failure_kind_text logic_error = "logic_error"
failure_kind_text permanent = "permanent"
failure_kind_text worker_crash = "worker_crash"
failure_kind_text validation_failure = "validation_failure"

pub record CreateObjectiveCommand : Type 0 where
  pub idempotency_key : String
  pub summary : String
  pub desired_outcome : String
  pub source_conversation_id : Option String

pub record CreateLoopCommand : Type 0 where
  pub idempotency_key : String
  pub objective_id : String
  pub initial_track : String

pub record CreateCycleCommand : Type 0 where
  pub idempotency_key : String
  pub loop_id : String
  pub cycle_index : ℤ
  pub policy_snapshot_id : String

pub record CreateNodeFromPlanCommand : Type 0 where
  pub idempotency_key : String
  pub objective_id : String
  pub milestone_id : String
  pub title : String
  pub statement : String
  pub initial_lane : NodeLane
  pub initial_lifecycle : NodeLifecycle

pub record CreateTaskFromNodeCommand : Type 0 where
  pub idempotency_key : String
  pub node_id : String
  pub worker_role : String
  pub skill_pack_id : String
  pub initial_status : TaskStatus

pub record DispatchSchedulerCommand : Type 0 where
  pub idempotency_key : String
  pub cycle_id : Option String
  pub max_dispatches : ℕ

pub record TaskCompletionCommand : Type 0 where
  pub idempotency_key : String
  pub task_id : String
  pub final_status : TaskStatus
  pub worker_id : String
  pub artifact_ref : Option String
  pub completed_at : ℕ

pub record FailureIngestionCommand : Type 0 where
  pub idempotency_key : String
  pub task_id : String
  pub worker_id : String
  pub failure_kind : FailureKind
  pub error_message : String
  pub attempt_number : ℕ
  pub failed_at : ℕ

pub record TimeoutIngestionCommand : Type 0 where
  pub idempotency_key : String
  pub task_id : String
  pub worker_id : String
  pub elapsed_seconds : ℕ
  pub timeout_threshold_seconds : ℕ
  pub attempt_number : ℕ
  pub timed_out_at : ℕ

pub record RetrySchedulingCommand : Type 0 where
  pub idempotency_key : String
  pub task_id : String
  pub next_attempt_number : ℕ
  pub delay_ms : ℕ
  pub reason : String
  pub reassign_worker : Bool

pub record NextCycleGenerationCommand : Type 0 where
  pub idempotency_key : String
  pub loop_id : String
  pub current_cycle_id : String
  pub next_policy_snapshot_id : String
  pub carry_forward_node_ids : List String
