-- ===== src/Commands.antt =====
-- packages/control-plane/src/commands.rs and executor.rs: the commands of the control plane. Here
-- the outcomes, the idempotency check, and the events that the commands append.
pub mod Requests
pub mod Creation
pub mod Dispatch
pub mod Reports
pub mod Cycles
pub mod Service
pub mod Journal
pub mod Recorded
pub mod Repeats
pub mod Refusals
pub mod Board
pub mod Writes
pub mod Moves
pub mod Refines
pub mod Retries
use swarm_intelligence_engin.Prelude.{
  ℕ, Bool, true, false, ◌&&◌, List, [], ◌∷◌, find?, Option, none, some, String, str_eq, Result, ok,
  err, ◌>>=◌,
}
use swarm_intelligence_engin.Store.{Json, Event, Store, ApiError, insert_event}
use swarm_intelligence_engin.Tasks.{Context}

pub record CommandOutcome : Type 0 where
  pub applied : Bool
  pub idempotent_skip : Bool
  pub message : String
  pub event_ids : List String
  pub executed_at : ℕ

pub data CommandRejectionReason : Type 0 where
  duplicate_idempotency_key precondition_failed illegal_transition : CommandRejectionReason
  entity_not_found validation_error : CommandRejectionReason

-- The text of a database error is left out: `none`.
pub record CommandRejection : Type 0 where
  pub reason : CommandRejectionReason
  pub detail : Option String

-- What a command returns, with the tables as its statements leave them. After an `Err` the
-- transaction is the caller's to roll back.
abbrev pub CommandResult : Type 0
CommandResult = Result CommandRejection (CommandOutcome × Store)

abbrev pub has_key : String → String → Event → Bool
has_key kind key e = str_eq e.aggregate_kind kind && str_eq e.idempotency_key key

abbrev aggregate_of : Option Event → Option String
aggregate_of none = none
aggregate_of (some e) = some e.aggregate_id

-- The aggregate of an event of this kind with this key.
unfoldable pub idempotency_check : String → String → Store → Option String
idempotency_check kind key s = aggregate_of (find? (has_key kind key) s.event_journal)

abbrev pub event_for :
    Context → ℕ → String → String → String → String → List (String × Json) → Event
event_for cx drawn aggregate_kind aggregate_id event_kind idempotency_key payload = record {
  event_id = cx.new_id drawn;
  aggregate_kind = aggregate_kind;
  aggregate_id = aggregate_id;
  event_kind = event_kind;
  idempotency_key = idempotency_key;
  payload = payload;
  created_at = cx.now;
}

-- With the identifier drawn `drawn`-th. The identifier is returned on a conflict too.
unfoldable pub append_event :
    Context
    → ℕ
    → String
    → String
    → String
    → String
    → List (String × Json)
    → Store
    → Result ApiError (String × Store)
append_event cx drawn aggregate_kind aggregate_id event_kind idempotency_key payload s = do
  s' ←
      insert_event
        (event_for cx drawn aggregate_kind aggregate_id event_kind idempotency_key payload) s
  ok (cx.new_id drawn, s')

unfoldable pub outcome_applied : Context → String → String → CommandOutcome
outcome_applied cx event_id message = record {
  applied = true;
  idempotent_skip = false;
  message = message;
  event_ids = event_id ∷ [];
  executed_at = cx.now;
}

unfoldable pub outcome_skip : Context → String → CommandOutcome
outcome_skip cx message = record {
  applied = false;
  idempotent_skip = true;
  message = message;
  event_ids = [];
  executed_at = cx.now;
}

abbrev pub reject : CommandRejectionReason → String → CommandRejection
reject reason detail = record { reason = reason; detail = some detail }

-- `map_err(|e| reject(CommandRejectionReason::PreconditionFailed, e.to_string()))`.
unfoldable pub db : {A : Type 0} → Result ApiError A → Result CommandRejection A
db (ok a) = ok a
db (err e) = err (record { reason = precondition_failed; detail = none })

-- A command that returns at once when its key is among the events of the kind.
unfoldable pub unless_done :
    Context → String → String → String → Store → CommandResult → CommandResult
unless_done cx kind key message s rest = elim (idempotency_check kind key s) [
  | some _ ↦ ok (outcome_skip cx message, s)
  | none ↦ rest
]
