-- ===== src/Planning/Elaboration.antt =====
-- services/loop-runner/src/planning.rs: how `elaborate_plan` decides the gate from what it has read
-- of the database (the counts are the results of its `SELECT COUNT(*)` statements).
pub mod Decision
use swarm_intelligence_engin.Prelude.{
  ℕ, ◌*◌, ℤ, as_i32, ltb, leb, ◌==◌, Bool, true, false, not, ◌&&◌, ◌||◌, if◌then◌else◌, List, [],
  ◌∷◌, map, any, find?, Option, none, some, String, str_eq, str_is_empty,
}
use swarm_intelligence_engin.Planning.Schemas.{
  GateCondition, objective_summarized, architecture_drafted, milestone_tree_created,
  acceptance_criteria_defined, dependencies_acyclic, dependencies_resolved, invariants_extracted,
  invariants_holding, risks_identified, unresolved_questions_below_budget, same_condition,
  ConditionEval, pass, fail, GateConditionEntry, GateStatus, open_status, satisfied,
  PlanGateDefinition,
}
use swarm_intelligence_engin.Planning.Validation.{
  CompletenessScore, score_plan_completeness, ValidationFailure, reports, validate_plan, is_error,
}

-- What the statements of `elaborate_plan` return.
pub record PlanFacts : Type 0 where
  pub gate_id : String
  pub plan_id : String
  pub summary : String
  pub plan_arch : String
  pub milestone_count : Option ℕ
  pub ac_count : Option ℕ
  pub invariant_count : Option ℕ
  pub risk_count : Option ℕ
  pub unresolved_count : Option ℕ
  pub node_count : Option ℕ
  pub cycle_check : ℕ
  pub open_questions : ℕ
  pub policy_question_budget : ℤ
  pub now : ℕ

-- `unwrap_or(0)`.
abbrev pub or_zero : Option ℕ → ℕ
or_zero none = 0
or_zero (some n) = n

abbrev pub to_eval : Bool → ConditionEval
to_eval true = pass
to_eval false = fail

abbrev pub drafted : String → Bool
drafted arch = not (str_is_empty arch) && not (str_eq arch "Pending elaboration")

abbrev entry : GateCondition → ConditionEval → GateConditionEntry
entry c v = record { condition = c; eval = v }

unfoldable pub condition_entries : PlanFacts → List GateConditionEntry
condition_entries f =
    entry objective_summarized (to_eval (not (str_is_empty f.summary)))
    ∷ entry architecture_drafted (to_eval (drafted f.plan_arch))
    ∷ entry milestone_tree_created (to_eval (ltb 0 (or_zero f.milestone_count)))
    ∷ entry acceptance_criteria_defined (to_eval (ltb 0 (or_zero f.ac_count)))
    ∷ entry dependencies_acyclic (to_eval (f.cycle_check == 0))
    ∷ entry dependencies_resolved pass
    ∷ entry invariants_extracted (to_eval (ltb 0 (or_zero f.invariant_count)))
    ∷ entry invariants_holding pass
    ∷ entry risks_identified (to_eval (ltb 0 (or_zero f.risk_count)))
    ∷ entry unresolved_questions_below_budget (to_eval (leb (or_zero f.unresolved_count) 3))
    ∷ []

unfoldable pub gate_def : PlanFacts → PlanGateDefinition
gate_def f = record {
  gate_id = f.gate_id;
  plan_id = f.plan_id;
  condition_entries = condition_entries f;
  current_status = open_status;
  unresolved_question_budget = f.policy_question_budget;
  unresolved_question_count = as_i32 (or_zero f.unresolved_count);
  override_reason = none;
  evaluated_at = f.now;
}

-- `completeness.overall >= 0.6`, with `overall` in eighths.
abbrev pub reaches_threshold : CompletenessScore → Bool
reaches_threshold score = leb 48 (score.overall * 10)

unfoldable pub gate_satisfied : PlanFacts → Bool
gate_satisfied f =
    let completeness = score_plan_completeness (gate_def f) in
    let failures = validate_plan (gate_def f) in
    let has_nodes = ltb 0 (or_zero f.node_count) in
    let has_blocking_errors = any (λ x. is_error x.severity) failures in
    let scored = (reaches_threshold completeness || has_nodes) && not has_blocking_errors in
    let acyclic = if not (f.cycle_check == 0) then false else scored in
    if ltb 5 f.open_questions then false else acyclic

-- `{:?}` of a condition.
abbrev pub debug_name : GateCondition → String
debug_name objective_summarized = "ObjectiveSummarized"
debug_name architecture_drafted = "ArchitectureDrafted"
debug_name milestone_tree_created = "MilestoneTreeCreated"
debug_name acceptance_criteria_defined = "AcceptanceCriteriaDefined"
debug_name dependencies_acyclic = "DependenciesAcyclic"
debug_name dependencies_resolved = "DependenciesResolved"
debug_name invariants_extracted = "InvariantsExtracted"
debug_name invariants_holding = "InvariantsHolding"
debug_name risks_identified = "RisksIdentified"
debug_name unresolved_questions_below_budget = "UnresolvedQuestionsBelowBudget"

-- One element of the JSON array written to `plan_gates.condition_entries`.
pub record EnrichedCondition : Type 0 where
  pub condition : GateCondition
  pub label : String
  pub eval : ConditionEval
  pub detail : String

-- `find(...).map(|f| f.reason).unwrap_or_default()`.
abbrev pub reason_or_default : Option ValidationFailure → String
reason_or_default none = ""
reason_or_default (some f) = f.reason

unfoldable pub enriched_conditions : PlanFacts → List EnrichedCondition
enriched_conditions f =
    map
      (λ (e : GateConditionEntry). record {
        condition = e.condition;
        label = debug_name e.condition;
        eval = e.eval;
        detail = reason_or_default (find? (reports e.condition) (validate_plan (gate_def f)));
      })
      (condition_entries f)

-- What is written to the row of `plan_gates`.
pub record GateUpdate : Type 0 where
  pub conditions : List EnrichedCondition
  pub current_status : GateStatus
  pub unresolved_question_count : ℤ
  pub completeness_score : CompletenessScore
  pub failure_reasons : List ValidationFailure

unfoldable pub gate_update : PlanFacts → GateUpdate
gate_update f = record {
  conditions = enriched_conditions f;
  current_status = if gate_satisfied f then satisfied else open_status;
  unresolved_question_count = as_i32 (or_zero f.unresolved_count);
  completeness_score = score_plan_completeness (gate_def f);
  failure_reasons = validate_plan (gate_def f);
}

-- `plans.plan_gate` after the update: it is set when the gate is satisfied, and never reset.
unfoldable pub plan_gate_after : PlanFacts → String → String
plan_gate_after f before = if gate_satisfied f then "ready_for_execution" else before
