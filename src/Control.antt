-- ===== src/Control.antt =====
-- packages/control-plane: the transition tables of cycles, nodes and workers, and policy checks.
pub mod Phases
pub mod Lanes
pub mod Workers
