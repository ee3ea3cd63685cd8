-- ===== src/Control/Lanes.antt =====
-- packages/control-plane/src/commands.rs: the lanes of a node (`NodeLane` of packages/state-model)
-- and the table of legal moves between them.
pub mod Promotion
use swarm_intelligence_engin.Prelude.{ℕ, Bool, ◌&&◌, ◌==◌, List, [], ◌∷◌, any}

pub data NodeLane : Type 0 where
  branch mainline_candidate mainline blocked archived : NodeLane

-- The discriminant, by which the derived `PartialEq` compares.
abbrev pub lane_index : NodeLane → ℕ
lane_index branch = 0
lane_index mainline_candidate = 1
lane_index mainline = 2
lane_index blocked = 3
lane_index archived = 4

abbrev pub same_lane : NodeLane → NodeLane → Bool
same_lane l m = lane_index l == lane_index m

pub record LaneTransitionRule : Type 0 where
  pub from : NodeLane
  pub to : NodeLane

abbrev rule : NodeLane → NodeLane → LaneTransitionRule
rule l m = record { from = l; to = m }

unfoldable pub valid_lane_transitions : List LaneTransitionRule
valid_lane_transitions =
    rule branch mainline_candidate
    ∷ rule mainline_candidate mainline
    ∷ rule mainline_candidate branch
    ∷ rule branch blocked
    ∷ rule mainline_candidate blocked
    ∷ rule blocked branch
    ∷ rule branch archived
    ∷ rule mainline archived
    ∷ []

unfoldable pub is_valid_lane_transition : NodeLane → NodeLane → Bool
unfolding valid_lane_transitions
is_valid_lane_transition from to =
    any (λ r. same_lane r.from from && same_lane r.to to) valid_lane_transitions
