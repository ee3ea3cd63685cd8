-- ===== src/Planning/Dispatch.antt =====
-- What `validate_plan` reports and when `check_dispatch_gate` lets implementation start.
use swarm_intelligence_engin.Prelude.{
  ℤ, leℤ, ltℤ, ◌≡◌, refl, ◌≢◌, ◌↔◌, ◌⊎◌, Bool, true, false, not, ◌&&◌, ◌||◌, List, [], ◌∷◌, any,
  any-append, any-false_iff, is_empty-filter, Any, All, arith,
}
use swarm_intelligence_engin.Planning.Schemas.{
  GateCondition, unresolved_questions_below_budget, same_condition, ConditionEval, not_evaluated,
  pass, fail, GateConditionEntry, satisfied, overridden, PlanGateDefinition,
}
use swarm_intelligence_engin.Planning.Validation.{
  is_pass, ValidationFailure, entry_failures, failures_of, over_budget_failure, reports,
  validate_plan, is_error, status_allows, check_dispatch_gate,
}
use swarm_intelligence_engin.Planning.Scoring.{same_condition_iff}

abbrev pub is_fail : ConditionEval → Bool
is_fail fail = true
is_fail _ = false

abbrev pub fails : GateConditionEntry → Bool
fails e = is_fail e.eval

-- The entry is about the question budget and does not pass, so its failure is reported.
abbrev pub unpassed_budget : GateConditionEntry → Bool
unpassed_budget e =
    same_condition e.condition unresolved_questions_below_budget && not (is_pass e.eval)

abbrev pub blocks : ValidationFailure → Bool
blocks f = is_error f.severity

abbrev pub over_budget : PlanGateDefinition → Bool
over_budget gate = ltℤ gate.unresolved_question_budget gate.unresolved_question_count

any-blocks-entry :
    (c : GateCondition) (v : ConditionEval) → any blocks (entry_failures c v) ≡ is_fail v
unfolding entry_failures
any-blocks-entry c v = ground arith

any-reports-entry :
    (c : GateCondition) (v : ConditionEval)
    → any (reports unresolved_questions_below_budget) (entry_failures c v)
      ≡ (same_condition c unresolved_questions_below_budget && not (is_pass v))
unfolding entry_failures
any-reports-entry c pass = ground arith
any-reports-entry c v = ground arith

any-blocks-failures_of :
    (entries : List GateConditionEntry) → any blocks (failures_of entries) ≡ any fails entries
unfolding failures_of
any-blocks-failures_of [] = refl
any-blocks-failures_of (e ∷ es) = ground (
  arith,
  any-append blocks (entry_failures e.condition e.eval) (failures_of es),
  any-blocks-entry e.condition e.eval,
  any-blocks-failures_of es,
)

any-reports-failures_of :
    (entries : List GateConditionEntry)
    → any (reports unresolved_questions_below_budget) (failures_of entries)
      ≡ any unpassed_budget entries
unfolding failures_of
any-reports-failures_of [] = refl
any-reports-failures_of (e ∷ es) = ground (
  arith,
  any-append (reports unresolved_questions_below_budget) (entry_failures e.condition e.eval)
      (failures_of es),
  any-reports-entry e.condition e.eval,
  any-reports-failures_of es,
)

-- The gate is blocked by a failing entry, or by a budget overrun that no entry has reported.
pub any-blocks-validate_plan :
    (gate : PlanGateDefinition)
    → any blocks (validate_plan gate) ≡ (
        any fails gate.condition_entries
        || (over_budget gate && not (any unpassed_budget gate.condition_entries)))
unfolding validate_plan over_budget_failure
any-blocks-validate_plan gate = ground (
  arith,
  any-blocks-failures_of gate.condition_entries,
  any-reports-failures_of gate.condition_entries,
  any-append blocks (failures_of gate.condition_entries)
      (over_budget_failure gate.unresolved_question_count gate.unresolved_question_budget ∷ []),
)

leℤ_iff : (a b : ℤ) → (ltℤ b a ≡ false) ↔ (leℤ a b ≡ true)
leℤ_iff a b = ground arith

is_fail_iff : (v : ConditionEval) → (is_fail v ≡ false) ↔ (v ≢ fail)
is_fail_iff v = ground arith

abbrev pub Pending : GateConditionEntry → Type 0
Pending e = (e.condition ≡ unresolved_questions_below_budget) × (e.eval ≡ not_evaluated)

none_fails_iff :
    (entries : List GateConditionEntry)
    → (any fails entries ≡ false) ↔ All (λ e. e.eval ≢ fail) entries
none_fails_iff = any-false_iff fails (λ e. e.eval ≢ fail) (λ e. is_fail_iff e.eval)

-- Among entries of which none fails, the budget entries that do not pass are those pending.
unpassed-Pending :
    (entries : List GateConditionEntry)
    → any fails entries ≡ false
    → (any unpassed_budget entries ≡ true) ↔ Any Pending entries
unpassed-Pending [] h = (λ e. cc, λ e. absurd e)
unpassed-Pending (e ∷ es) h =
    ground
      (arith, unpassed-Pending es, same_condition_iff e.condition unresolved_questions_below_budget)

-- Exactly when implementation may start: the gate is overridden; or it is satisfied, no entry
-- fails, and the question count is within the budget or some entry for the budget is pending.
pub check_dispatch_gate-allowed_iff :
    (gate : PlanGateDefinition)
    → ((check_dispatch_gate gate).allowed ≡ true) ↔ (
        (gate.current_status ≡ overridden)
        ⊎ (gate.current_status ≡ satisfied)
          × All (λ e. e.eval ≢ fail) gate.condition_entries
          × ((leℤ gate.unresolved_question_count gate.unresolved_question_budget ≡ true)
              ⊎ Any Pending gate.condition_entries))
unfolding check_dispatch_gate status_allows
check_dispatch_gate-allowed_iff gate = ground (
  arith,
  is_empty-filter blocks (validate_plan gate),
  any-blocks-validate_plan gate,
  none_fails_iff gate.condition_entries,
  unpassed-Pending gate.condition_entries,
  leℤ_iff gate.unresolved_question_count gate.unresolved_question_budget,
)

failures_of-nil_iff :
    (entries : List GateConditionEntry)
    → (failures_of entries ≡ []) ↔ All (λ e. e.eval ≡ pass) entries
unfolding failures_of entry_failures
failures_of-nil_iff [] = (λ h. tt, λ h. refl)
failures_of-nil_iff (e ∷ es) = ground (arith, failures_of-nil_iff es)

-- No failure is reported exactly when every entry passes and the count is within the budget.
pub validate_plan-nil_iff :
    (gate : PlanGateDefinition)
    → (validate_plan gate ≡ []) ↔ (
        All (λ e. e.eval ≡ pass) gate.condition_entries
        × (leℤ gate.unresolved_question_count gate.unresolved_question_budget ≡ true))
unfolding validate_plan
validate_plan-nil_iff gate = ground (
  arith,
  failures_of-nil_iff gate.condition_entries,
  leℤ_iff gate.unresolved_question_count gate.unresolved_question_budget,
)
