-- ===== src/Control/Phases.antt =====
-- packages/control-plane/src/commands.rs: the phases of a cycle (`CyclePhase` of
-- packages/state-model) and the table of legal transitions.
pub mod Runs
use swarm_intelligence_engin.Prelude.{ℕ, Bool, ◌&&◌, ◌==◌, List, [], ◌∷◌, any}

pub data CyclePhase : Type 0 where
  intake conversation_extraction plan_elaboration plan_validation review : CyclePhase
  decomposition dispatch execution integration certification_selection : CyclePhase
  certification state_update next_cycle_ready : CyclePhase

-- The discriminant, by which the derived `PartialEq` compares.
abbrev pub phase_index : CyclePhase → ℕ
phase_index intake = 0
phase_index conversation_extraction = 1
phase_index plan_elaboration = 2
phase_index plan_validation = 3
phase_index review = 4
phase_index decomposition = 5
phase_index dispatch = 6
phase_index execution = 7
phase_index integration = 8
phase_index certification_selection = 9
phase_index certification = 10
phase_index state_update = 11
phase_index next_cycle_ready = 12

abbrev pub same_phase : CyclePhase → CyclePhase → Bool
same_phase p q = phase_index p == phase_index q

pub record PhaseTransitionRule : Type 0 where
  pub from : CyclePhase
  pub to : CyclePhase

abbrev rule : CyclePhase → CyclePhase → PhaseTransitionRule
rule p q = record { from = p; to = q }

unfoldable pub valid_phase_transitions : List PhaseTransitionRule
valid_phase_transitions =
    rule intake conversation_extraction
    ∷ rule conversation_extraction plan_elaboration
    ∷ rule plan_elaboration plan_validation
    ∷ rule plan_validation review
    ∷ rule review decomposition
    ∷ rule review plan_elaboration
    ∷ rule decomposition dispatch
    ∷ rule dispatch execution
    ∷ rule execution integration
    ∷ rule integration certification_selection
    ∷ rule certification_selection certification
    ∷ rule certification state_update
    ∷ rule certification execution
    ∷ rule state_update next_cycle_ready
    ∷ []

unfoldable pub is_valid_phase_transition : CyclePhase → CyclePhase → Bool
unfolding valid_phase_transitions
is_valid_phase_transition from to =
    any (λ r. same_phase r.from from && same_phase r.to to) valid_phase_transitions
