-- ===== src/Planning/Schemas.antt =====
-- packages/planning-engine/src/schemas.rs: the plan gate.
use swarm_intelligence_engin.Prelude.{ℕ, ℤ, Bool, ◌==◌, List, Option, String}

pub data GateCondition : Type 0 where
  objective_summarized architecture_drafted milestone_tree_created : GateCondition
  acceptance_criteria_defined dependencies_acyclic dependencies_resolved : GateCondition
  invariants_extracted invariants_holding risks_identified : GateCondition
  unresolved_questions_below_budget : GateCondition

-- The discriminant, by which the derived `PartialEq` compares.
abbrev pub condition_index : GateCondition → ℕ
condition_index objective_summarized = 0
condition_index architecture_drafted = 1
condition_index milestone_tree_created = 2
condition_index acceptance_criteria_defined = 3
condition_index dependencies_acyclic = 4
condition_index dependencies_resolved = 5
condition_index invariants_extracted = 6
condition_index invariants_holding = 7
condition_index risks_identified = 8
condition_index unresolved_questions_below_budget = 9

abbrev pub same_condition : GateCondition → GateCondition → Bool
same_condition c d = condition_index c == condition_index d

pub data ConditionEval : Type 0 where
  not_evaluated pass fail : ConditionEval

pub record GateConditionEntry : Type 0 where
  pub condition : GateCondition
  pub eval : ConditionEval

pub data GateStatus : Type 0 where
  open_status satisfied overridden : GateStatus

pub record PlanGateDefinition : Type 0 where
  pub gate_id : String
  pub plan_id : String
  pub condition_entries : List GateConditionEntry
  pub current_status : GateStatus
  pub unresolved_question_budget : ℤ
  pub unresolved_question_count : ℤ
  pub override_reason : Option String
  pub evaluated_at : ℕ
