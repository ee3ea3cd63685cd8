-- ===== src/Control/Lanes/Promotion.antt =====
-- What the table of lanes allows.
use swarm_intelligence_engin.Prelude.{◌≡◌, refl, ◌≢◌, ◌⊎◌, inl, true, arith}
use swarm_intelligence_engin.Machine.{Run, RunAvoiding, Run-keeps, RunAvoiding-keeps}
use swarm_intelligence_engin.Control.Lanes.{
  NodeLane, mainline_candidate, mainline, archived, is_valid_lane_transition,
}

off_mainline-keep :
    (l m : NodeLane)
    → is_valid_lane_transition l m ≡ true
    → m ≢ mainline_candidate
    → (l ≢ mainline) × (l ≢ mainline_candidate)
    → (m ≢ mainline) × (m ≢ mainline_candidate)
unfolding is_valid_lane_transition
off_mainline-keep l m v n h = ground arith

-- A node that starts off the mainline enters it only after it has been a mainline candidate.
pub mainline_needs_candidate :
    (l : NodeLane)
    → l ≢ mainline
    → ¬ RunAvoiding is_valid_lane_transition mainline_candidate l mainline
mainline_needs_candidate l h run = ground (
  arith,
  RunAvoiding-keeps is_valid_lane_transition (λ m. (m ≢ mainline) × (m ≢ mainline_candidate))
      mainline_candidate off_mainline-keep (λ n. (h, n)) run,
)

settled-keep :
    (l m : NodeLane)
    → is_valid_lane_transition l m ≡ true
    → (l ≡ mainline) ⊎ (l ≡ archived)
    → (m ≡ mainline) ⊎ (m ≡ archived)
unfolding is_valid_lane_transition
settled-keep l m v h = ground arith

-- What is on the mainline stays there or is archived: it is never demoted to a branch, made a
-- candidate again, or blocked.
pub mainline_settled :
    (m : NodeLane) → Run is_valid_lane_transition mainline m → (m ≡ mainline) ⊎ (m ≡ archived)
mainline_settled m =
    Run-keeps is_valid_lane_transition (λ m. (m ≡ mainline) ⊎ (m ≡ archived)) settled-keep
      (inl refl)
