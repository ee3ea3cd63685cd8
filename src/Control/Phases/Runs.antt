-- ===== src/Control/Phases/Runs.antt =====
-- Runs of the table of phases of packages/control-plane/src/commands.rs, which no code consults.
use swarm_intelligence_engin.Prelude.{◌≡◌, refl, ◌↔◌, true, false, arith}
use swarm_intelligence_engin.Machine.{Run, Run-prepend}
use swarm_intelligence_engin.Control.Phases.{
  CyclePhase, intake, conversation_extraction, plan_elaboration, plan_validation, review,
  decomposition, dispatch, execution, integration, certification_selection, certification,
  state_update, next_cycle_ready, is_valid_phase_transition,
}

abbrev Reaches : CyclePhase → CyclePhase → Type 0
Reaches = Run is_valid_phase_transition

abbrev via : {p q t : CyclePhase} → is_valid_phase_transition p q ≡ true → Reaches q t → Reaches p t
via = Run-prepend is_valid_phase_transition

-- From every phase legal transitions lead to the end of the cycle.
pub reaches_end : (p : CyclePhase) → Reaches p next_cycle_ready
unfolding is_valid_phase_transition
reaches_end = ends
  where
    from_update : Reaches state_update next_cycle_ready
    from_update = via refl Run.here

    from_certification : Reaches certification next_cycle_ready
    from_certification = via refl from_update

    from_execution : Reaches execution next_cycle_ready
    from_execution =
        via {q = integration} refl
          (via {q = certification_selection} refl (via refl from_certification))

    from_review : Reaches review next_cycle_ready
    from_review = via {q = decomposition} refl (via {q = dispatch} refl (via refl from_execution))

    from_elaboration : Reaches plan_elaboration next_cycle_ready
    from_elaboration = via {q = plan_validation} refl (via refl from_review)

    ends : (q : CyclePhase) → Reaches q next_cycle_ready
    ends intake = via {q = conversation_extraction} refl (via refl from_elaboration)
    ends conversation_extraction = via refl from_elaboration
    ends plan_elaboration = from_elaboration
    ends plan_validation = via refl from_review
    ends review = from_review
    ends decomposition = via {q = dispatch} refl (via refl from_execution)
    ends dispatch = via refl from_execution
    ends execution = from_execution
    ends integration = via {q = certification_selection} refl (via refl from_certification)
    ends certification_selection = via refl from_certification
    ends certification = from_certification
    ends state_update = from_update
    ends next_cycle_ready = Run.here

-- The phase that a legal transition may always enter next.
abbrev successor : CyclePhase → CyclePhase
successor intake = conversation_extraction
successor conversation_extraction = plan_elaboration
successor plan_elaboration = plan_validation
successor plan_validation = review
successor review = decomposition
successor decomposition = dispatch
successor dispatch = execution
successor execution = integration
successor integration = certification_selection
successor certification_selection = certification
successor certification = state_update
successor state_update = next_cycle_ready
successor next_cycle_ready = next_cycle_ready

successor_valid :
    (p : CyclePhase) → is_valid_phase_transition p (successor p) ≡ false → p ≡ next_cycle_ready
unfolding is_valid_phase_transition
successor_valid p h = ground arith

end_final : (q : CyclePhase) → is_valid_phase_transition next_cycle_ready q ≡ false
unfolding is_valid_phase_transition
end_final q = ground arith

-- A cycle that is ready for its successor is final, and no other phase is.
pub final_phase_iff :
    (p : CyclePhase)
    → ((q : CyclePhase) → is_valid_phase_transition p q ≡ false) ↔ (p ≡ next_cycle_ready)
final_phase_iff p = (λ h. successor_valid p (h (successor p)), λ e q. rw e (end_final q))
