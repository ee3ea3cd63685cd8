-- ===== src/Examples/PolicyRuns.antt =====
-- Concrete policies and outputs: packages/user-policy, packages/control-plane/src/policy_enforcer.rs
-- and packages/robustness-policy.
use swarm_intelligence_engin.Prelude.{
  ◌≡◌, ◌↔◌, ◌≤◌, Bool, true, false, String, str_eq, is_blank, byte_length, ok,
}
use swarm_intelligence_engin.Skills.Manifests.{session}
use swarm_intelligence_engin.Skills.Modes.{fmt, from_str, from_str-ok_iff}
use swarm_intelligence_engin.Policies.Output.{
  strict, valid, classify_output, classify_output-valid_iff,
}

-- A reader that accepts one document.
abbrev is_empty_object : String → Bool
is_empty_object s = str_eq s "{}"

classify_output-valid_iff_example : (classify_output is_empty_object "{}" strict ≡ valid) ↔ (
    (is_blank "{}" ≡ false)
    × (byte_length "{}" ≤ 100000)
    × (strict ≡ strict → is_empty_object "{}" ≡ true))
classify_output-valid_iff_example = classify_output-valid_iff is_empty_object "{}" strict

from_str-ok_iff_example : (from_str "session" ≡ ok session) ↔ ("session" ≡ fmt session)
from_str-ok_iff_example = from_str-ok_iff "session" session
