-- ===== src/Examples/GateRuns.antt =====
-- Concrete plan gates of packages/planning-engine and of services/loop-runner/src/planning.rs.
use swarm_intelligence_engin.Prelude.{
  String, str_eq, eq_iff, arith, ◌≤◌, ◌<◌, ◌≡◌, ◌≢◌, ◌↔◌, ◌⊎◌, refl, true, false, [], ◌∷◌, ◌++◌,
  All, Any, some, none, pos, leℤ,
}
use swarm_intelligence_engin.Planning.Schemas.{
  GateCondition, objective_summarized, unresolved_questions_below_budget, not_evaluated, pass, fail,
  GateConditionEntry, open_status, satisfied, overridden, PlanGateDefinition,
}
use swarm_intelligence_engin.Planning.Validation.{
  error, score_plan_completeness, validate_plan, check_dispatch_gate, status_allows,
  over_budget_failure, failures_of, entry_failures,
}
use swarm_intelligence_engin.Planning.Scoring.{
  Passes, score_plan_completeness-full_iff, score_plan_completeness_mono,
}
use swarm_intelligence_engin.Planning.Dispatch.{
  Pending, check_dispatch_gate-allowed_iff, validate_plan-nil_iff,
}
use swarm_intelligence_engin.Store.{NodeEdge}
use swarm_intelligence_engin.Planning.Cycles.{cycle_check, HasNoLoop, cycle_check-zero_iff}
use swarm_intelligence_engin.Planning.Elaboration.{
  PlanFacts, gate_satisfied, gate_update, plan_gate_after,
}
use swarm_intelligence_engin.Planning.Elaboration.Decision.{
  IsReady, gate_satisfied_iff, gate_update-agrees,
}

abbrev summarized : GateConditionEntry
summarized = record { condition = objective_summarized; eval = pass }

-- Nobody has looked at the budget yet.
abbrev unseen : GateConditionEntry
unseen = record { condition = unresolved_questions_below_budget; eval = not_evaluated }

-- A gate that is over its budget of two questions.
abbrev gate : PlanGateDefinition
gate = record {
  gate_id = "g1";
  plan_id = "p1";
  condition_entries = summarized ∷ unseen ∷ [];
  current_status = satisfied;
  unresolved_question_budget = pos 2;
  unresolved_question_count = pos 5;
  override_reason = none;
  evaluated_at = 1;
}

check_dispatch_gate-allowed_iff_example : ((check_dispatch_gate gate).allowed ≡ true) ↔ (
    (satisfied ≡ overridden)
    ⊎ (satisfied ≡ satisfied)
      × All (λ e. e.eval ≢ fail) (summarized ∷ unseen ∷ [])
      × ((leℤ (pos 5) (pos 2) ≡ true) ⊎ Any Pending (summarized ∷ unseen ∷ [])))
check_dispatch_gate-allowed_iff_example = check_dispatch_gate-allowed_iff gate

-- Over budget, and allowed.
dispatched_over_budget : (check_dispatch_gate gate).allowed ≡ true
unfolding check_dispatch_gate status_allows validate_plan over_budget_failure failures_of
    entry_failures
dispatched_over_budget = refl

validate_plan-nil_iff_example :
    (validate_plan gate ≡ [])
    ↔ (All (λ e. e.eval ≡ pass) (summarized ∷ unseen ∷ []) × (leℤ (pos 5) (pos 2) ≡ true))
validate_plan-nil_iff_example = validate_plan-nil_iff gate

score_plan_completeness-full_iff_example :
    ((score_plan_completeness gate).overall ≡ 8)
    ↔ ((c : GateCondition) → Passes (summarized ∷ unseen ∷ []) c)
score_plan_completeness-full_iff_example = score_plan_completeness-full_iff gate

score_plan_completeness_mono_example :
    (score_plan_completeness gate).overall
    ≤ (score_plan_completeness
        (record gate { condition_entries = gate.condition_entries ++ (summarized ∷ []) })).overall
score_plan_completeness_mono_example = score_plan_completeness_mono gate (summarized ∷ [])

abbrev facts : PlanFacts
facts = record {
  gate_id = "g1";
  plan_id = "p1";
  summary = "Build it";
  plan_arch = "Two services";
  milestone_count = some 2;
  ac_count = some 1;
  invariant_count = some 1;
  risk_count = some 1;
  unresolved_count = some 1;
  node_count = none;
  cycle_check = 0;
  open_questions = 1;
  policy_question_budget = pos 3;
  now = 4;
}

gate_satisfied_iff_example : (gate_satisfied facts ≡ true) ↔ IsReady facts
gate_satisfied_iff_example = gate_satisfied_iff facts

gate_update-agrees_example :
    (((gate_update facts).current_status ≡ satisfied)
      × ((gate_update facts).failure_reasons ≡ [])
      × ((gate_update facts).completeness_score.overall ≡ 8)
      × ((gate_update facts).unresolved_question_count ≡ pos 1)
      × (plan_gate_after facts "draft" ≡ "ready_for_execution"))
    ⊎ (((gate_update facts).current_status ≡ open_status)
        × (Any (λ x. x.severity ≡ error) (gate_update facts).failure_reasons
            ⊎ (5 < facts.open_questions))
        × (plan_gate_after facts "draft" ≡ "draft"))
gate_update-agrees_example = gate_update-agrees facts "draft"

abbrev forth : NodeEdge
forth = record { edge_id = "e1"; from_node_id = "a"; to_node_id = "b"; edge_kind = "depends_on" }

abbrev back : NodeEdge
back = record { edge_id = "e2"; from_node_id = "b"; to_node_id = "a"; edge_kind = "depends_on" }

cycle_check-zero_iff_example :
    (cycle_check ("a" ∷ "b" ∷ []) (forth ∷ back ∷ []) ≡ 0) ↔ HasNoLoop (forth ∷ back ∷ [])
cycle_check-zero_iff_example =
    cycle_check-zero_iff ("a" ∷ "b" ∷ []) (forth ∷ back ∷ []) (refl, (refl, tt))

differ : (s t : String) → str_eq s t ≡ false → s ≢ t
differ s t h = ground (arith, eq_iff s t)

-- Two nodes that wait for each other pass the check.
mutual_dependency_passes : cycle_check ("a" ∷ "b" ∷ []) (forth ∷ back ∷ []) ≡ 0
mutual_dependency_passes =
    (cycle_check-zero_iff ("a" ∷ "b" ∷ []) (forth ∷ back ∷ []) (refl, (refl, tt))).1
      (differ "a" "b" refl, (differ "b" "a" refl, tt))
