-- ===== src/LoopRunner.antt =====
-- services/loop-runner/src/tick.rs: the sweeps of a tick. Here the loop that a sweep makes over the
-- rows of its SELECT, and the move of a cycle from one phase to another.
pub mod Creation
pub mod Dispatching
pub mod Completion
pub mod Tasking
pub mod Readiness
pub mod Verification
pub mod Links
pub mod Merging
pub mod Rules
pub mod Once
pub mod Gate
pub mod Single
pub mod Kept
pub mod Phases
pub mod Advance
pub mod Renewal
pub mod Ticks
use swarm_intelligence_engin.Prelude.{
  ℕ, ◌+◌, Bool, true, false, ◌&&◌, if◌then◌else◌, List, [], ◌∷◌, any, find?, Option, none, some,
  String, str_eq, append, Result, ok, err, ◌>>=◌,
}
use swarm_intelligence_engin.Store.{Json, Store, ApiError, Cycle, Loop, update, insert_event}
use swarm_intelligence_engin.Store.Inserts.{same_cycle, same_loop, phase_allowed}
use swarm_intelligence_engin.Tasks.{Context}
use swarm_intelligence_engin.Commands.{event_for, has_key}

-- What a sweep returns, and the tables that its commits leave. The count is a `u32` of the rows
-- handled.
abbrev pub Swept : Type 0
Swept = Result ApiError ℕ × Store

-- What a transaction adds to the count, and the tables that it would commit.
abbrev pub Transacted : Type 0
Transacted = Result ApiError (ℕ × Store)

-- A transaction on the tables: committed, or rolled back by an error.
unfoldable pub in_transaction : Store → Transacted → Swept
in_transaction s (ok (n, s')) = (ok n, s')
in_transaction s (err e) = (err e, s)

-- A statement outside any transaction, and what follows it.
unfoldable pub auto_commit : Store → Result ApiError Store → (Store → Swept) → Swept
auto_commit s (ok s') rest = rest s'
auto_commit s (err e) rest = (err e, s)

-- The loop over the rows, of which each draws `width` identifiers: an error ends the sweep, and what
-- was committed before it stays.
unfoldable pub sweep :
    {Row : Type 0} → ℕ → (ℕ → Row → Store → Swept) → List Row → ℕ → ℕ → Store → Swept
sweep width run [] drawn count s = (ok count, s)
sweep width run (r ∷ rs) drawn count s =
    let (outcome, s') = run drawn r s in
    elim outcome [ ok n ↦ sweep width run rs (drawn + width) (count + n) s' | err e ↦ (err e, s') ]

-- The sweep that runs when another has succeeded; the counts add up.
unfoldable pub then_sweep : Swept → (Store → Swept) → Swept
then_sweep (ok n, s) next_sweep =
    let (r, s') = next_sweep s in (elim r [ ok m ↦ ok (n + m) | err e ↦ err e ], s')
then_sweep (err e, s) next_sweep = (err e, s)

-- The scoped idempotency check: the transaction is rolled back when the key is there.
unfoldable pub unless_recorded : String → String → Store → Transacted → Transacted
unless_recorded kind key s rest = if any (has_key kind key) s.event_journal then ok (0, s) else rest

abbrev pub in_phase : String → Cycle → Bool
in_phase phase c = str_eq c.phase phase

abbrev pub cycle_in_phase : String → String → Cycle → Bool
cycle_in_phase id phase c = same_cycle id c && in_phase phase c

-- `UPDATE cycles SET phase = $1, updated_at = now() WHERE cycle_id = $2 AND phase = $3`.
unfoldable pub set_phase : ℕ → String → String → String → Store → Result ApiError Store
set_phase now to id from s = do
  rows ←
      update (cycle_in_phase id from) (λ c. record c { phase = to; updated_at = now })
        (λ c. phase_allowed c.phase) s.cycles
  ok (record s { cycles = rows })

pub record CycleRow : Type 0 where
  pub cycle_id : String
  pub loop_id : String
  pub objective_id : String

-- `FROM cycles c JOIN loops l ON l.loop_id = c.loop_id WHERE c.phase = ...`.
unfoldable pub rows_in_phase : String → List Loop → List Cycle → List CycleRow
rows_in_phase phase loops [] = []
rows_in_phase phase loops (c ∷ cs) =
    let rest = rows_in_phase phase loops cs in
    if in_phase phase c
    then (elim (find? (same_loop c.loop_id) loops) [
      | none ↦ rest
      | some l ↦
          record { cycle_id = c.cycle_id; loop_id = c.loop_id; objective_id = l.objective_id }
          ∷ rest
    ])
    else rest

abbrev pub phase_key : String → String → String → String
phase_key cycle_id from to =
    append "phase-" (append cycle_id (append "-" (append from (append "-to-" to))))

abbrev pub sidecar_key : String → String → String → String
sidecar_key cycle_id from to =
    append "phase-sidecar-" (append cycle_id (append "-" (append from (append "-to-" to))))

-- The statements that move the cycle.
unfoldable pub move_cycle :
    Context → ℕ → String → String → String → String → String → Store → Transacted
move_cycle cx drawn cycle_id loop_id from to trigger s = do
  s1 ← set_phase cx.now to cycle_id from s
  s2 ←
      insert_event
        (event_for cx drawn "cycle" cycle_id "cycle_phase_transitioned" (phase_key cycle_id from to)
          (("cycle_id", Json.text cycle_id)
            ∷ ("loop_id", Json.text loop_id)
            ∷ ("from_phase", Json.text from)
            ∷ ("to_phase", Json.text to)
            ∷ ("trigger", Json.text trigger)
            ∷ []))
        s1
  s3 ←
      insert_event
        (event_for cx (drawn + 1) "phase_sidecar" cycle_id "phase_status_recorded"
          (sidecar_key cycle_id from to)
          (("cycle_id", Json.text cycle_id)
            ∷ ("phase", Json.text to)
            ∷ ("exited_phase", Json.text from)
            ∷ ("entered_at", Json.rfc3339 cx.now)
            ∷ ("exited_at", Json.rfc3339 cx.now)
            ∷ ("duration_ms", Json.count 0)
            ∷ ("trigger", Json.text trigger)
            ∷ []))
        s2
  ok (1, s3)

-- The UPDATE that finds no row is rolled back.
unfoldable pub advance_cycle_phase :
    Context → ℕ → String → String → String → String → String → Store → Swept
advance_cycle_phase cx drawn cycle_id loop_id from to trigger s = in_transaction s (
    unless_recorded "cycle" (phase_key cycle_id from to) s (
      if any (cycle_in_phase cycle_id from) s.cycles
      then move_cycle cx drawn cycle_id loop_id from to trigger s
      else ok (0, s)))
