-- ===== src/Planning/Validation.antt =====
-- packages/planning-engine/src/validation.rs: scoring, validation and the dispatch check.
use swarm_intelligence_engin.Prelude.{
  ℕ, ◌+◌, ℤ, ltℤ, Bool, true, false, ◌&&◌, if◌then◌else◌, to_ℕ, List, [], ◌∷◌, ◌++◌, any, filter,
  is_empty, String, append, display_i32,
}
use swarm_intelligence_engin.Planning.Schemas.{
  GateCondition, objective_summarized, architecture_drafted, milestone_tree_created,
  acceptance_criteria_defined, dependencies_acyclic, dependencies_resolved, invariants_extracted,
  invariants_holding, risks_identified, unresolved_questions_below_budget, same_condition,
  ConditionEval, not_evaluated, pass, fail, GateConditionEntry, GateStatus, open_status, satisfied,
  overridden, PlanGateDefinition,
}

-- `overall` counts eighths: `passing as f64 / 8.0` is exact for the nine values of `passing`.
pub record CompletenessScore : Type 0 where
  pub overall : ℕ
  pub has_objective : Bool
  pub has_architecture : Bool
  pub has_milestones : Bool
  pub has_dependencies : Bool
  pub has_acceptance_criteria : Bool
  pub has_invariants : Bool
  pub has_risks : Bool
  pub unresolved_questions_within_budget : Bool

abbrev pub is_pass : ConditionEval → Bool
is_pass pass = true
is_pass _ = false

-- The closure `lookup` of `score_plan_completeness`.
unfoldable pub lookup_pass : List GateConditionEntry → GateCondition → Bool
lookup_pass entries cond = any (λ e. same_condition e.condition cond && is_pass e.eval) entries

-- `checks.iter().filter(|&&b| b).count()`.
abbrev pub count_true : List Bool → ℕ
count_true [] = 0
count_true (b ∷ bs) = to_ℕ b + count_true bs

unfoldable pub score_plan_completeness : PlanGateDefinition → CompletenessScore
score_plan_completeness gate =
    let lookup = lookup_pass gate.condition_entries in
    let objective = lookup objective_summarized in
    let architecture = lookup architecture_drafted in
    let milestones = lookup milestone_tree_created in
    let dependencies = lookup dependencies_acyclic && lookup dependencies_resolved in
    let criteria = lookup acceptance_criteria_defined in
    let invariants = lookup invariants_extracted && lookup invariants_holding in
    let risks = lookup risks_identified in
    let questions = lookup unresolved_questions_below_budget in
    record {
      overall = count_true (
          objective ∷ architecture ∷ milestones ∷ dependencies ∷ criteria ∷ invariants ∷ risks
          ∷ questions ∷ []);
      has_objective = objective;
      has_architecture = architecture;
      has_milestones = milestones;
      has_dependencies = dependencies;
      has_acceptance_criteria = criteria;
      has_invariants = invariants;
      has_risks = risks;
      unresolved_questions_within_budget = questions;
    }

pub data ValidationSeverity : Type 0 where
  error warning : ValidationSeverity

pub record ValidationFailure : Type 0 where
  pub condition : GateCondition
  pub reason : String
  pub severity : ValidationSeverity

unfoldable pub label_for : GateCondition → String
label_for objective_summarized = "Objective summary"
label_for architecture_drafted = "Architecture draft"
label_for milestone_tree_created = "Milestone tree"
label_for acceptance_criteria_defined = "Acceptance criteria"
label_for dependencies_acyclic = "Dependency acyclicity"
label_for dependencies_resolved = "Dependency resolution"
label_for invariants_extracted = "Invariant extraction"
label_for invariants_holding = "Invariant holding"
label_for risks_identified = "Risk identification"
label_for unresolved_questions_below_budget = "Unresolved question budget"

unfoldable pub reason_for : GateCondition → String
reason_for objective_summarized = "objective is missing summary, desired outcome, or success metric"
reason_for architecture_drafted = "no accepted architecture draft exists"
reason_for milestone_tree_created = "milestone tree is missing or has no milestone nodes"
reason_for acceptance_criteria_defined = "one or more milestones lack acceptance criteria"
reason_for dependencies_acyclic = "dependency graph contains a cycle among Blocks edges"
reason_for dependencies_resolved = "one or more Blocks edges reference nonexistent entities"
reason_for invariants_extracted = "no invariants have been defined"
reason_for invariants_holding = "one or more PlanValidation-scoped invariants are not Holding"
reason_for risks_identified = "no risks have been identified or assessed"
reason_for unresolved_questions_below_budget =
    "unresolved blocking questions exceed the allowed budget"

-- What the loop of `validate_plan` pushes for one entry.
unfoldable pub entry_failures : GateCondition → ConditionEval → List ValidationFailure
entry_failures c pass = []
entry_failures c fail = record { condition = c; reason = reason_for c; severity = error } ∷ []
entry_failures c not_evaluated =
    record {
      condition = c;
      reason = append (label_for c) " has not been evaluated yet";
      severity = warning;
    }
    ∷ []

-- The loop over `condition_entries`.
unfoldable pub failures_of : List GateConditionEntry → List ValidationFailure
failures_of [] = []
failures_of (e ∷ es) = entry_failures e.condition e.eval ++ failures_of es

unfoldable pub over_budget_failure : ℤ → ℤ → ValidationFailure
over_budget_failure count budget = record {
  condition = unresolved_questions_below_budget;
  reason =
      append "unresolved blocking questions ("
        (append (display_i32 count) (append ") exceed budget (" (append (display_i32 budget) ")")));
  severity = error;
}

abbrev pub reports : GateCondition → ValidationFailure → Bool
reports c f = same_condition f.condition c

unfoldable pub validate_plan : PlanGateDefinition → List ValidationFailure
unfolding failures_of
validate_plan gate =
    let failures = failures_of gate.condition_entries in
    if ltℤ gate.unresolved_question_budget gate.unresolved_question_count
    then (if any (reports unresolved_questions_below_budget) failures
        then failures
        else failures
          ++ over_budget_failure gate.unresolved_question_count gate.unresolved_question_budget
            ∷ [])
    else failures

abbrev pub is_error : ValidationSeverity → Bool
is_error error = true
is_error warning = false

pub record DispatchDecision : Type 0 where
  pub allowed : Bool
  pub gate_status : GateStatus
  pub blocking_reasons : List ValidationFailure
  pub completeness : CompletenessScore

-- The `match gate.current_status` of `check_dispatch_gate`.
unfoldable pub status_allows : GateStatus → List ValidationFailure → Bool
status_allows satisfied blocking = is_empty blocking
status_allows overridden blocking = true
status_allows open_status blocking = false

unfoldable pub check_dispatch_gate : PlanGateDefinition → DispatchDecision
check_dispatch_gate gate =
    let blocking = filter (λ f. is_error f.severity) (validate_plan gate) in
    record {
      allowed = status_allows gate.current_status blocking;
      gate_status = gate.current_status;
      blocking_reasons = blocking;
      completeness = score_plan_completeness gate;
    }
