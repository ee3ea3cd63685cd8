-- ===== src/Planning.antt =====
-- packages/planning-engine: the plan gate, its scoring, its validation and the dispatch check;
-- and the gate decision of services/loop-runner/src/planning.rs, which rests on them.
pub mod Schemas
pub mod Validation
pub mod Scoring
pub mod Dispatch
pub mod Elaboration
pub mod Cycles
