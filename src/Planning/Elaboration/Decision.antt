-- ===== src/Planning/Elaboration/Decision.antt =====
-- When the loop runner opens the gate, and what it writes then.
use swarm_intelligence_engin.Prelude.{
  ◌<◌, ◌≤◌, ℕ, pos, as_i32, leℤ, ◌≡◌, ◌↔◌, ◌⊎◌, inl, inr, Bool-cases, true, false, not, ◌&&◌, [],
  any, any_iff, Any, leb, String, str_is_empty, arith,
}
use swarm_intelligence_engin.Planning.Schemas.{open_status, satisfied}
use swarm_intelligence_engin.Planning.Validation.{
  ValidationFailure, error, validate_plan, score_plan_completeness, lookup_pass,
}
use swarm_intelligence_engin.Planning.Dispatch.{
  blocks, fails, over_budget, unpassed_budget, any-blocks-validate_plan, validate_plan-nil_iff,
}
use swarm_intelligence_engin.Planning.Elaboration.{
  PlanFacts, or_zero, condition_entries, gate_def, gate_satisfied, reaches_threshold, drafted,
  gate_update, plan_gate_after,
}

-- The conditions of the gate, on the facts themselves.
pub record IsReady (f : PlanFacts) : Type 0 where
  pub summarized : str_is_empty f.summary ≡ false
  pub arch_drafted : drafted f.plan_arch ≡ true
  pub milestones : 0 < or_zero f.milestone_count
  pub criteria : 0 < or_zero f.ac_count
  pub acyclic : f.cycle_check ≡ 0
  pub invariants : 0 < or_zero f.invariant_count
  pub risks : 0 < or_zero f.risk_count
  pub few_unresolved : or_zero f.unresolved_count ≤ 3
  pub within_budget : leℤ (pos (or_zero f.unresolved_count)) f.policy_question_budget ≡ true
  pub few_open : f.open_questions ≤ 5

unblocked :
    (f : PlanFacts)
    → gate_satisfied f ≡ true
    → (any blocks (validate_plan (gate_def f)) ≡ false) × (f.open_questions ≤ 5)
unfolding gate_satisfied
unblocked f h = ground arith

within_budget-none_fails :
    (f : PlanFacts)
    → any blocks (validate_plan (gate_def f)) ≡ false
    → (any fails (condition_entries f) ≡ false)
      × ((over_budget (gate_def f) && not (any unpassed_budget (condition_entries f))) ≡ false)
unfolding gate_def
within_budget-none_fails f h = ground (arith, any-blocks-validate_plan (gate_def f))

none_fails-few :
    (f : PlanFacts) → any fails (condition_entries f) ≡ false → or_zero f.unresolved_count ≤ 3
unfolding condition_entries
none_fails-few f h = ground arith

few-passed_budget :
    (f : PlanFacts)
    → or_zero f.unresolved_count ≤ 3
    → any unpassed_budget (condition_entries f) ≡ false
unfolding condition_entries
few-passed_budget f h = ground arith

as_i32_small : (n : ℕ) → n ≤ 3 → as_i32 n ≡ pos n
as_i32_small n h = ground arith

-- With few questions the cast to `i32` is exact and the budget is really tested.
few-within_budget :
    (f : PlanFacts)
    → or_zero f.unresolved_count ≤ 3
    → (over_budget (gate_def f) && not (any unpassed_budget (condition_entries f))) ≡ false
    → leℤ (pos (or_zero f.unresolved_count)) f.policy_question_budget ≡ true
unfolding gate_def
few-within_budget f few h =
    ground (arith, few-passed_budget f few, as_i32_small (or_zero f.unresolved_count) few)

none_fails-IsReady :
    (f : PlanFacts)
    → any fails (condition_entries f) ≡ false
    → leℤ (pos (or_zero f.unresolved_count)) f.policy_question_budget ≡ true
    → f.open_questions ≤ 5
    → IsReady f
unfolding condition_entries
none_fails-IsReady f h k o = ground arith

-- Without a blocking failure, and with at most five open questions, the gate is satisfied.
not_blocked-IsReady :
    (f : PlanFacts)
    → any blocks (validate_plan (gate_def f)) ≡ false
    → f.open_questions ≤ 5
    → IsReady f
not_blocked-IsReady f h few_open =
    let (none_fails, in_budget) = within_budget-none_fails f h in
    none_fails-IsReady f none_fails (few-within_budget f (none_fails-few f none_fails) in_budget)
      few_open

gate_satisfied-IsReady : (f : PlanFacts) → gate_satisfied f ≡ true → IsReady f
gate_satisfied-IsReady f h =
    let (unblocked_f, few_open) = unblocked f h in not_blocked-IsReady f unblocked_f few_open

IsReady-unblocked : (f : PlanFacts) → IsReady f → any blocks (validate_plan (gate_def f)) ≡ false
unfolding gate_def condition_entries
IsReady-unblocked f r = ground (
  arith,
  any-blocks-validate_plan (gate_def f),
  as_i32_small (or_zero f.unresolved_count) r.few_unresolved,
)

IsReady-full : (f : PlanFacts) → IsReady f → (score_plan_completeness (gate_def f)).overall ≡ 8
unfolding gate_def condition_entries score_plan_completeness lookup_pass
IsReady-full f r = ground arith

IsReady-reaches :
    (f : PlanFacts) → IsReady f → reaches_threshold (score_plan_completeness (gate_def f)) ≡ true
IsReady-reaches f r = ground (arith, IsReady-full f r)

IsReady-gate_satisfied : (f : PlanFacts) → IsReady f → gate_satisfied f ≡ true
unfolding gate_satisfied
IsReady-gate_satisfied f r = ground (arith, IsReady-unblocked f r, IsReady-reaches f r)

-- The loop runner opens the gate exactly when the facts meet the conditions of `IsReady`: the
-- score threshold and the nodes that exist already make no difference.
pub gate_satisfied_iff : (f : PlanFacts) → (gate_satisfied f ≡ true) ↔ IsReady f
gate_satisfied_iff f = (gate_satisfied-IsReady f, IsReady-gate_satisfied f)

IsReady-validate_plan : (f : PlanFacts) → IsReady f → validate_plan (gate_def f) ≡ []
unfolding gate_def condition_entries
IsReady-validate_plan f r =
    (validate_plan-nil_iff (gate_def f)).1 (
      ground arith,
      rw (as_i32_small (or_zero f.unresolved_count) r.few_unresolved) r.within_budget,
    )

blocks_iff : (x : ValidationFailure) → (blocks x ≡ true) ↔ (x.severity ≡ error)
blocks_iff x = ground arith

-- Why a gate is not satisfied.
not_satisfied-reason :
    (f : PlanFacts)
    → gate_satisfied f ≡ false
    → Any (λ x. x.severity ≡ error) (validate_plan (gate_def f)) ⊎ (5 < f.open_questions)
not_satisfied-reason f h = elim (Bool-cases (any blocks (validate_plan (gate_def f)))) [
  | inl e ↦ inl ((any_iff blocks _ blocks_iff (validate_plan (gate_def f))).0 e)
  | inr n ↦ elim (Bool-cases (leb f.open_questions 5)) [
    | inl few ↦ let ready = IsReady-gate_satisfied f (not_blocked-IsReady f n (ground arith)) in cc
    | inr many ↦ inr (ground arith)
  ]
]

-- A gate that is written as satisfied is written with no failure, a full score and an exact question
-- count, and the plan becomes ready for execution. A gate that is written as open is written with a
-- failure that is an error, or there are more than five open questions; the plan keeps the mark that
-- it had, also when it was ready.
pub gate_update-agrees :
    (f : PlanFacts) (before : String)
    → (((gate_update f).current_status ≡ satisfied)
        × ((gate_update f).failure_reasons ≡ [])
        × ((gate_update f).completeness_score.overall ≡ 8)
        × ((gate_update f).unresolved_question_count ≡ pos (or_zero f.unresolved_count))
        × (plan_gate_after f before ≡ "ready_for_execution"))
      ⊎ (((gate_update f).current_status ≡ open_status)
          × (Any (λ x. x.severity ≡ error) (gate_update f).failure_reasons ⊎ (5 < f.open_questions))
          × (plan_gate_after f before ≡ before))
unfolding gate_update plan_gate_after
gate_update-agrees f before = elim (Bool-cases (gate_satisfied f)) [
  | inl h ↦
      let r = gate_satisfied-IsReady f h in
      inl (
        rw h,
        IsReady-validate_plan f r,
        IsReady-full f r,
        as_i32_small (or_zero f.unresolved_count) r.few_unresolved,
        rw h,
      )
  | inr h ↦ inr (rw h, not_satisfied-reason f h, rw h)
]
