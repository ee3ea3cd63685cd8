-- ===== src/Control/Workers.antt =====
-- packages/control-plane/src/worker_lifecycle.rs: the states of a worker and the table of legal
-- transitions.
pub mod Service
use swarm_intelligence_engin.Prelude.{ℕ, Bool, ◌&&◌, ◌==◌, List, [], ◌∷◌, any}

pub data WorkerState : Type 0 where
  registered idle running draining lease_expired stuck cancelled killed deregistered : WorkerState

-- The discriminant, by which the derived `PartialEq` compares.
abbrev pub worker_index : WorkerState → ℕ
worker_index registered = 0
worker_index idle = 1
worker_index running = 2
worker_index draining = 3
worker_index lease_expired = 4
worker_index stuck = 5
worker_index cancelled = 6
worker_index killed = 7
worker_index deregistered = 8

abbrev pub same_state : WorkerState → WorkerState → Bool
same_state s t = worker_index s == worker_index t

pub record WorkerTransition : Type 0 where
  pub from : WorkerState
  pub to : WorkerState

abbrev move : WorkerState → WorkerState → WorkerTransition
move s t = record { from = s; to = t }

unfoldable pub valid_transitions : List WorkerTransition
valid_transitions =
    move registered idle
    ∷ move idle running
    ∷ move running idle
    ∷ move running deregistered
    ∷ move idle draining
    ∷ move running draining
    ∷ move draining deregistered
    ∷ move idle lease_expired
    ∷ move running lease_expired
    ∷ move running stuck
    ∷ move running cancelled
    ∷ move stuck killed
    ∷ move cancelled deregistered
    ∷ move killed deregistered
    ∷ move lease_expired deregistered
    ∷ move idle deregistered
    ∷ []

unfoldable pub is_valid_transition : WorkerState → WorkerState → Bool
unfolding valid_transitions
is_valid_transition from to =
    any (λ t. same_state t.from from && same_state t.to to) valid_transitions
