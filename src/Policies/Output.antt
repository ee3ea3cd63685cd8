-- ===== src/Policies/Output.antt =====
-- packages/robustness-policy/src/lib.rs: the context budget, the classification of a worker's output,
-- and the limits of a parse retry.
use swarm_intelligence_engin.Prelude.{
  ℕ, ◌/◌, ◌≤◌, ltb, ◌≡◌, ◌↔◌, Bool, true, false, not, ◌&&◌, if◌then◌else◌, String, is_blank,
  byte_length, arith,
}

pub data BudgetDecision : Type 0 where
  within : BudgetDecision
  exceeded : ℕ → ℕ → BudgetDecision

-- `enforce_context_budget` of the field `max_input_tokens`, with `limit` and `actual` in this order.
unfoldable pub enforce_context_budget : ℕ → ℕ → BudgetDecision
enforce_context_budget max_input_tokens input_tokens =
    if ltb max_input_tokens input_tokens then exceeded max_input_tokens input_tokens else within

pub data MalformedOutputKind : Type 0 where
  invalid_json missing_required_fields wrong_field_type : MalformedOutputKind
  hallucinated_references truncated_output empty_output : MalformedOutputKind
  exceeded_length_budget unexpected_format mixed_prose_and_json : MalformedOutputKind

pub data OutputPreference : Type 0 where
  strict fuzzy lenient : OutputPreference

abbrev pub is_strict : OutputPreference → Bool
is_strict strict = true
is_strict _ = false

pub data OutputClassification : Type 0 where
  valid empty : OutputClassification
  malformed : MalformedOutputKind → OutputClassification

-- `is_json` is the test whether `serde_json` reads the text as a value: that library is not part of
-- the repository.
module _ (is_json : String → Bool) where
  unfoldable pub classify_output : String → OutputPreference → OutputClassification
  classify_output output preference =
      if is_blank output
      then empty
      else if ltb 100000 (byte_length output)
      then malformed exceeded_length_budget
      else if is_strict preference && not (is_json output)
      then malformed invalid_json
      else valid

  -- An output is valid exactly when it is not blank, has at most 100,000 bytes, and, under the strict
  -- preference, is JSON.
  pub classify_output-valid_iff :
      (output : String) (preference : OutputPreference)
      → (classify_output output preference ≡ valid) ↔ (
          (is_blank output ≡ false)
          × (byte_length output ≤ 100000)
          × (preference ≡ strict → is_json output ≡ true))
  unfolding classify_output
  classify_output-valid_iff output strict = ground arith
  classify_output-valid_iff output fuzzy = ground arith
  classify_output-valid_iff output lenient = ground arith

pub data BackoffStrategy : Type 0 where
  none fixed_ms exponential : BackoffStrategy

pub record ParseRetryPolicy : Type 0 where
  pub max_attempts : ℕ
  pub backoff_strategy : BackoffStrategy
  pub backoff_base_ms : ℕ

abbrev backoff_seconds : BackoffStrategy → ℕ → ℕ
backoff_seconds none base = 0
backoff_seconds fixed_ms base = base / 1000
backoff_seconds exponential base = base / 1000

unfoldable pub timeout_from_policy : ParseRetryPolicy → ℕ
timeout_from_policy policy = backoff_seconds policy.backoff_strategy policy.backoff_base_ms

unfoldable pub retry_budget_from_policy : ParseRetryPolicy → ℕ
retry_budget_from_policy policy = policy.max_attempts
