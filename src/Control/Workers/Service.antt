-- ===== src/Control/Workers/Service.antt =====
-- What the table of worker states allows.
use swarm_intelligence_engin.Prelude.{◌≡◌, ◌≢◌, refl, ◌⊎◌, true, arith}
use swarm_intelligence_engin.Machine.{Run, RunAvoiding, Run-prepend, Run-keeps, RunAvoiding-keeps}
use swarm_intelligence_engin.Control.Workers.{
  WorkerState, registered, idle, running, stuck, killed, deregistered, is_valid_transition,
}

-- The states in which a worker holds a lease and may be given or be doing work.
abbrev pub InService : WorkerState → Type 0
InService s = (s ≡ registered) ⊎ (s ≡ idle) ⊎ (s ≡ running)

left-keep : (s t : WorkerState) → is_valid_transition s t ≡ true → ¬ InService s → ¬ InService t
unfolding is_valid_transition
left-keep s t v h = ground arith

-- A worker that is draining, expired, stuck, cancelled, killed or deregistered never comes back:
-- no legal run makes it idle, running or registered again.
pub left_for_good :
    (s t : WorkerState) → ¬ InService s → Run is_valid_transition s t → ¬ InService t
left_for_good s t h = Run-keeps is_valid_transition (λ u. ¬ InService u) left-keep h

idle_needed-keep :
    (s t : WorkerState)
    → is_valid_transition s t ≡ true
    → t ≢ idle
    → s ≡ registered
    → t ≡ registered
unfolding is_valid_transition
idle_needed-keep s t v n h = ground arith

-- A registered worker does nothing before it has been granted a lease: a legal run that is never
-- idle does not leave `registered`.
pub work_needs_lease :
    (t : WorkerState) → RunAvoiding is_valid_transition idle registered t → t ≡ registered
work_needs_lease t =
    RunAvoiding-keeps is_valid_transition (λ u. u ≡ registered) idle idle_needed-keep (λ n. refl)

killed-keep :
    (s t : WorkerState)
    → is_valid_transition s t ≡ true
    → t ≢ stuck
    → (s ≢ killed) × (s ≢ stuck)
    → (t ≢ killed) × (t ≢ stuck)
unfolding is_valid_transition
killed-keep s t v n h = ground arith

-- A worker is killed only after it has been found stuck.
pub kill_needs_stuck :
    (s : WorkerState) → s ≢ killed → ¬ RunAvoiding is_valid_transition stuck s killed
kill_needs_stuck s h run = ground (
  arith,
  RunAvoiding-keeps is_valid_transition (λ u. (u ≢ killed) × (u ≢ stuck)) stuck killed-keep
      (λ n. (h, n)) run,
)

abbrev via :
    {s t u : WorkerState}
    → is_valid_transition s t ≡ true
    → Run is_valid_transition t u
    → Run is_valid_transition s u
via = Run-prepend is_valid_transition

-- Every worker can be deregistered, whatever has happened to it.
pub reaches_deregistered : (s : WorkerState) → Run is_valid_transition s deregistered
unfolding is_valid_transition
reaches_deregistered registered = via {t = idle} refl (via refl Run.here)
reaches_deregistered stuck = via {t = killed} refl (via refl Run.here)
reaches_deregistered deregistered = Run.here
reaches_deregistered _ = via refl Run.here
