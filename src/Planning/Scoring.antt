-- ===== src/Planning/Scoring.antt =====
-- What `score_plan_completeness` measures.
use swarm_intelligence_engin.Prelude.{
  ◌≤◌, ◌≡◌, ◌↔◌, Bool, true, ◌&&◌, to_ℕ, List, [], ◌∷◌, ◌++◌, any_iff, any-append, Any, arith,
}
use swarm_intelligence_engin.Planning.Schemas.{
  GateCondition, objective_summarized, architecture_drafted, milestone_tree_created,
  acceptance_criteria_defined, dependencies_acyclic, dependencies_resolved, invariants_extracted,
  invariants_holding, risks_identified, unresolved_questions_below_budget, same_condition,
  ConditionEval, pass, GateConditionEntry, PlanGateDefinition,
}
use swarm_intelligence_engin.Planning.Validation.{
  is_pass, lookup_pass, count_true, score_plan_completeness,
}

-- Some entry of the gate evaluates the condition and passes.
abbrev pub Passes : List GateConditionEntry → GateCondition → Type 0
Passes entries c = Any (λ e. (e.condition ≡ c) × (e.eval ≡ pass)) entries

pub same_condition_iff : (c d : GateCondition) → (same_condition c d ≡ true) ↔ (c ≡ d)
same_condition_iff c d = ground arith

is_pass_iff : (v : ConditionEval) → (is_pass v ≡ true) ↔ (v ≡ pass)
is_pass_iff v = ground arith

pub lookup_pass_iff :
    (entries : List GateConditionEntry) (c : GateCondition)
    → (lookup_pass entries c ≡ true) ↔ Passes entries c
unfolding lookup_pass
lookup_pass_iff entries c =
    any_iff _ _ (λ e. ground (arith, same_condition_iff e.condition c, is_pass_iff e.eval)) entries

to_ℕ-le_one : (b : Bool) → to_ℕ b ≤ 1
to_ℕ-le_one b = ground arith

to_ℕ-one : (b : Bool) → to_ℕ b ≡ 1 → b ≡ true
to_ℕ-one b h = ground arith

module _ (entries : List GateConditionEntry) where
  abbrev looked_up : GateCondition → Bool
  looked_up c = lookup_pass entries c

  -- The eight sub-scores, in the order of `checks`.
  abbrev checks : List Bool
  checks =
      looked_up objective_summarized
      ∷ looked_up architecture_drafted
      ∷ looked_up milestone_tree_created
      ∷ (looked_up dependencies_acyclic && looked_up dependencies_resolved)
      ∷ looked_up acceptance_criteria_defined
      ∷ (looked_up invariants_extracted && looked_up invariants_holding)
      ∷ looked_up risks_identified
      ∷ looked_up unresolved_questions_below_budget
      ∷ []

  sub_score : GateCondition → Bool
  sub_score objective_summarized = looked_up objective_summarized
  sub_score architecture_drafted = looked_up architecture_drafted
  sub_score milestone_tree_created = looked_up milestone_tree_created
  sub_score dependencies_acyclic = looked_up dependencies_acyclic && looked_up dependencies_resolved
  sub_score dependencies_resolved =
      looked_up dependencies_acyclic && looked_up dependencies_resolved
  sub_score acceptance_criteria_defined = looked_up acceptance_criteria_defined
  sub_score invariants_extracted = looked_up invariants_extracted && looked_up invariants_holding
  sub_score invariants_holding = looked_up invariants_extracted && looked_up invariants_holding
  sub_score risks_identified = looked_up risks_identified
  sub_score unresolved_questions_below_budget = looked_up unresolved_questions_below_budget

  sub_score-one : (c : GateCondition) → count_true checks ≡ 8 → to_ℕ (sub_score c) ≡ 1
  unfolding sub_score
  sub_score-one objective_summarized h = omega (arith, to_ℕ-le_one)
  sub_score-one c h = omega (arith, to_ℕ-le_one)

  sub_score-looked_up : (c : GateCondition) → sub_score c ≡ true → looked_up c ≡ true
  unfolding sub_score
  sub_score-looked_up objective_summarized h = h
  sub_score-looked_up c h = ground arith

  checks_of_all : ((c : GateCondition) → looked_up c ≡ true) → count_true checks ≡ 8
  checks_of_all h = ground (
    arith,
    h objective_summarized,
    h architecture_drafted,
    h milestone_tree_created,
    h dependencies_acyclic,
    h dependencies_resolved,
    h acceptance_criteria_defined,
    h invariants_extracted,
    h invariants_holding,
    h risks_identified,
    h unresolved_questions_below_budget,
  )

-- The score is full exactly when every one of the ten conditions has a passing entry.
pub score_plan_completeness-full_iff :
    (gate : PlanGateDefinition)
    → ((score_plan_completeness gate).overall ≡ 8)
      ↔ ((c : GateCondition) → Passes gate.condition_entries c)
unfolding score_plan_completeness
score_plan_completeness-full_iff gate = (
  λ h c. (lookup_pass_iff gate.condition_entries c).0 (
      sub_score-looked_up gate.condition_entries c
        (to_ℕ-one _ (sub_score-one gate.condition_entries c h))),
  λ h.
      checks_of_all gate.condition_entries
        (λ c. (lookup_pass_iff gate.condition_entries c).1 (h c)),
)

lookup_pass-append :
    (old new : List GateConditionEntry) (c : GateCondition)
    → to_ℕ (lookup_pass old c) ≤ to_ℕ (lookup_pass (old ++ new) c)
unfolding lookup_pass
lookup_pass-append old new c =
    ground (arith, any-append (λ e. same_condition e.condition c && is_pass e.eval) old new)

to_ℕ-and_mono : (a b c d : Bool) → to_ℕ a ≤ to_ℕ c → to_ℕ b ≤ to_ℕ d → to_ℕ (a && b) ≤ to_ℕ (c && d)
to_ℕ-and_mono a b c d h k = ground arith

-- Recording more evaluations never lowers the score, whatever they say: an entry that fails does
-- not take back one that passes.
pub score_plan_completeness_mono :
    (gate : PlanGateDefinition) (new : List GateConditionEntry)
    → (score_plan_completeness gate).overall
      ≤ (score_plan_completeness
          (record gate { condition_entries = gate.condition_entries ++ new })).overall
unfolding score_plan_completeness
score_plan_completeness_mono gate new =
    let old = gate.condition_entries in
    omega (
      arith,
      lookup_pass-append old new objective_summarized,
      lookup_pass-append old new architecture_drafted,
      lookup_pass-append old new milestone_tree_created,
      lookup_pass-append old new acceptance_criteria_defined,
      lookup_pass-append old new risks_identified,
      lookup_pass-append old new unresolved_questions_below_budget,
      to_ℕ-and_mono _ _ _ _ (lookup_pass-append old new dependencies_acyclic)
          (lookup_pass-append old new dependencies_resolved),
      to_ℕ-and_mono _ _ _ _ (lookup_pass-append old new invariants_extracted)
          (lookup_pass-append old new invariants_holding),
    )
