-- ===== src/Store.antt =====
-- db/migrations: the tables that the task lifecycle, the commands and the loop runner read and
-- write, with the columns that they read or write, their CHECK constraints
-- (0020_bundle03_check_constraint_fixes.sql, 0019_align_check_constraints.sql), and the unique keys
-- of `artifact_refs` and of `event_journal` (0001_initial.sql and
-- 0012_bnd010_idempotency_registry.sql). A table is the list of its rows.
pub mod Lookup
pub mod Checks
pub mod Inserts
pub mod Queue
use swarm_intelligence_engin.Prelude.{
  ℕ, ℤ, Bool, true, false, not, ◌&&◌, ◌||◌, if◌then◌else◌, List, [], ◌∷◌, ◌++◌, map, any, all,
  Option, none, some, String, str_eq, Result, ok, err, ◌>>=◌,
}

pub record Task : Type 0 where
  pub task_id : String
  pub node_id : String
  pub worker_role : String
  pub skill_pack_id : String
  pub status : String
  pub retry_budget : Option ℤ
  pub created_at : ℕ
  pub updated_at : ℕ

pub record TaskAttempt : Type 0 where
  pub task_attempt_id : String
  pub task_id : String
  pub attempt_index : ℤ
  pub lease_owner : Option String
  pub status : String
  pub started_at : Option ℕ
  pub finished_at : Option ℕ

pub record Node : Type 0 where
  pub node_id : String
  pub objective_id : String
  pub title : String
  pub statement : String
  pub lane : String
  pub lifecycle : String
  pub certification_required : Bool
  pub updated_at : ℕ

pub record NodeEdge : Type 0 where
  pub edge_id : String
  pub from_node_id : String
  pub to_node_id : String
  pub edge_kind : String

-- The values that the payloads of the events hold.
pub data Json : Type 0 where
  null : Json
  text : String → Json
  count : ℕ → Json
  integer : ℤ → Json
  flag : Bool → Json
  texts : List String → Json
  -- A document that no code here reads: its text.
  document : String → Json
  -- The RFC 3339 text of an instant.
  rfc3339 : ℕ → Json

pub record Objective : Type 0 where
  pub objective_id : String
  pub summary : String
  pub planning_status : String
  pub plan_gate : String
  pub created_at : ℕ
  pub updated_at : ℕ

pub record Loop : Type 0 where
  pub loop_id : String
  pub objective_id : String
  pub cycle_index : ℤ
  pub active_track : String
  pub created_at : ℕ
  pub updated_at : ℕ

pub record Cycle : Type 0 where
  pub cycle_id : String
  pub loop_id : String
  pub phase : String
  pub policy_snapshot : Json
  pub created_at : ℕ
  pub updated_at : ℕ

-- `metadata` is a JSON document that no code here reads: its text.
pub record ArtifactRef : Type 0 where
  pub artifact_ref_id : String
  pub task_id : String
  pub artifact_kind : String
  pub artifact_uri : String
  pub metadata : String

pub record Event : Type 0 where
  pub event_id : String
  pub aggregate_kind : String
  pub aggregate_id : String
  pub event_kind : String
  pub idempotency_key : String
  pub payload : List (String × Json)
  pub created_at : ℕ

pub record CertificationCandidate : Type 0 where
  pub candidate_id : String
  pub task_id : String

pub record CertificationSubmission : Type 0 where
  pub submission_id : String
  pub candidate_id : String
  pub queue_status : String

pub record Store : Type 0 where
  pub objectives : List Objective
  pub loops : List Loop
  pub cycles : List Cycle
  pub tasks : List Task
  pub task_attempts : List TaskAttempt
  pub nodes : List Node
  pub node_edges : List NodeEdge
  pub artifact_refs : List ArtifactRef
  pub certification_candidates : List CertificationCandidate
  pub certification_submissions : List CertificationSubmission
  pub event_journal : List Event

-- What a request fails with; the text of a database error is left out.
pub data ApiError : Type 0 where
  not_found : String → ApiError
  bad_request : String → ApiError
  internal_error : ApiError

-- `value IN (...)`.
abbrev pub one_of : List String → String → Bool
one_of values value = any (λ v. str_eq value v) values

-- chk_tasks_status and chk_task_attempts_status, which allow the same values.
abbrev pub status_allowed : String → Bool
status_allowed = one_of (
    "queued" ∷ "running" ∷ "succeeded" ∷ "failed" ∷ "failed_permanent" ∷ "failed_retryable"
    ∷ "review_needed" ∷ "cancelled" ∷ "timed_out" ∷ "archived" ∷ [])

-- chk_nodes_lifecycle.
abbrev pub lifecycle_allowed : String → Bool
lifecycle_allowed = one_of (
    "proposed" ∷ "queued" ∷ "running" ∷ "review_needed" ∷ "certification_needed" ∷ "admitted"
    ∷ "completed" ∷ "done" ∷ "blocked" ∷ "superseded" ∷ [])

-- chk_artifact_refs_artifact_kind.
abbrev pub artifact_kind_allowed : String → Bool
artifact_kind_allowed = one_of (
    "code" ∷ "test" ∷ "documentation" ∷ "configuration" ∷ "report" ∷ "mixed" ∷ "adapter_output"
    ∷ "stdout_capture" ∷ "stderr_capture" ∷ "git_diff" ∷ "symbol_diff" ∷ "trust_surface"
    ∷ "audit_probe" ∷ "verification_result" ∷ "integration_verify_result" ∷ "review_approval"
    ∷ "source_file" ∷ "source_anchor" ∷ "output_file" ∷ [])

-- chk_event_journal_event_kind (0019_align_check_constraints.sql).
unfoldable pub event_kind_allowed : String → Bool
event_kind_allowed = one_of (
    "objective_created" ∷ "objective_updated" ∷ "plan_created" ∷ "plan_updated"
    ∷ "plan_gate_changed" ∷ "loop_created" ∷ "loop_cycle_advanced" ∷ "cycle_created"
    ∷ "cycle_phase_transitioned" ∷ "cycle_completed" ∷ "task_created" ∷ "task_status_changed"
    ∷ "task_attempt_started" ∷ "task_attempt_finished" ∷ "worker_registered"
    ∷ "worker_heartbeat_received" ∷ "worker_completed" ∷ "certification_submitted"
    ∷ "certification_returned" ∷ "conflict_created" ∷ "conflict_resolved"
    ∷ "mainline_integration_attempted" ∷ "mainline_integration_completed" ∷ "roadmap_node_created"
    ∷ "roadmap_node_absorbed" ∷ "roadmap_reprioritized" ∷ "review_artifact_created"
    ∷ "review_completed" ∷ "skill_pack_registered" ∷ "worker_template_created"
    ∷ "user_policy_snapshot_saved" ∷ "tick_heartbeat" ∷ "plan_gate_evaluated"
    ∷ "plan_gate_forced_override" ∷ "integration_verify_node_created" ∷ "milestone_bridged"
    ∷ "execution_completed" ∷ "integration_verification_failed" ∷ "extract_processed"
    ∷ "conflict_auto_resolved" ∷ "adjudication_task_created" ∷ "drift_detected"
    ∷ "objective_drift_detected" ∷ "dependency_drift_detected" ∷ "retention_policy_enforced"
    ∷ "review_auto_approved" ∷ "phase_status_recorded" ∷ "dual_formalization_diverged"
    ∷ "certification_completed" ∷ "plan_artifacts_generated" ∷ "plan_decomposed"
    ∷ "projection_snapshot" ∷ "comparison_artifact_created" ∷ "loop_score_created"
    ∷ "milestone_templates_created" ∷ "drift_check_completed" ∷ "self_promotion_blocked"
    ∷ "recursive_report_generated" ∷ "success_pattern_recorded" ∷ "roadmap_suggestion_recorded"
    ∷ "worktree_bound" ∷ "worktree_released" ∷ "worker_status_heartbeat" ∷ "task_retry_scheduled"
    ∷ "file_conflict_detected" ∷ "merge_conflict_detected" ∷ "dirty_worktree_detected"
    ∷ "certification_candidate_created" ∷ "review_needed" ∷ "integration_verification_complete"
    ∷ "chat_session_created" ∷ "chat_session_linked_to_objective" ∷ "constraints_extracted"
    ∷ "chat_message_added" ∷ "conversation_extracted" ∷ "backlog_draft_created"
    ∷ "plan_updated_from_extract" ∷ "task_completed" ∷ "task_failed" ∷ "task_attempt_completed"
    ∷ "review_created" ∷ "review_updated" ∷ "review_approved" ∷ "certification_config_updated"
    ∷ "deployment_mode_changed" ∷ "certification_settings_updated" ∷ "roadmap_node_deferred"
    ∷ "roadmap_node_rejected" ∷ "roadmap_absorbed" ∷ "roadmap_reordered" ∷ "roadmap_track_changed"
    ∷ "peer_message_sent" ∷ "peer_message_acknowledged" ∷ "node_edge_created" ∷ [])

module _ {A : Type 0} where
  -- The rows after `UPDATE ... WHERE`.
  abbrev pub changed : (A → Bool) → (A → A) → List A → List A
  changed selects change rows = map (λ r. if selects r then change r else r) rows

  -- `UPDATE ... WHERE`: an error when a changed row breaks the CHECK constraint.
  unfoldable pub update : (A → Bool) → (A → A) → (A → Bool) → List A → Result ApiError (List A)
  update selects change check rows =
      if all (λ r. not (selects r) || check (change r)) rows
      then ok (changed selects change rows)
      else err internal_error

abbrev pub same_task : String → Task → Bool
same_task id t = str_eq t.task_id id

abbrev pub same_node : String → Node → Bool
same_node id n = str_eq n.node_id id

-- `UPDATE tasks SET status = $1, updated_at = now() WHERE task_id = $2`.
unfoldable pub set_task_status : ℕ → String → String → Store → Result ApiError Store
set_task_status now status id s = do
  rows ←
      update (same_task id) (λ t. record t { status = status; updated_at = now })
        (λ t. status_allowed t.status) s.tasks
  ok (record s { tasks = rows })

-- `UPDATE nodes SET lifecycle = $1, updated_at = now() WHERE node_id = $2`.
unfoldable pub set_node_lifecycle : ℕ → String → String → Store → Result ApiError Store
set_node_lifecycle now lifecycle id s = do
  rows ←
      update (same_node id) (λ n. record n { lifecycle = lifecycle; updated_at = now })
        (λ n. lifecycle_allowed n.lifecycle) s.nodes
  ok (record s { nodes = rows })

-- `UPDATE task_attempts SET status = $1, finished_at = now() WHERE ...`.
unfoldable pub finish_attempts : ℕ → String → (TaskAttempt → Bool) → Store → Result ApiError Store
finish_attempts now status selects s = do
  rows ←
      update selects (λ a. record a { status = status; finished_at = some now })
        (λ a. status_allowed a.status) s.task_attempts
  ok (record s { task_attempts = rows })

-- `INSERT INTO artifact_refs`.
unfoldable pub insert_artifact : ArtifactRef → Store → Result ApiError Store
insert_artifact a s =
    if artifact_kind_allowed a.artifact_kind
      && not (any (λ b. str_eq b.artifact_ref_id a.artifact_ref_id) s.artifact_refs)
    then ok (record s { artifact_refs = s.artifact_refs ++ (a ∷ []) })
    else err internal_error

abbrev pub same_idempotency : Event → Event → Bool
same_idempotency e f =
    str_eq f.aggregate_kind e.aggregate_kind && str_eq f.idempotency_key e.idempotency_key

abbrev pub same_event : Event → Event → Bool
same_event e f = str_eq f.aggregate_id e.aggregate_id && same_idempotency e f

abbrev pub same_event_id : Event → Event → Bool
same_event_id e f = str_eq f.event_id e.event_id

-- `INSERT INTO event_journal ... ON CONFLICT (aggregate_kind, aggregate_id, idempotency_key) DO
-- NOTHING`: a kind that the CHECK constraint does not allow is an error, and so is a clash with
-- another unique key.
unfoldable pub insert_event : Event → Store → Result ApiError Store
insert_event e s =
    if not (event_kind_allowed e.event_kind)
    then err internal_error
    else if any (same_event e) s.event_journal
    then ok s
    else if any (same_idempotency e) s.event_journal || any (same_event_id e) s.event_journal
    then err internal_error
    else ok (record s { event_journal = s.event_journal ++ (e ∷ []) })
