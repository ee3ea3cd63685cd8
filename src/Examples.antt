-- ===== src/Examples.antt =====
-- Runs of the models on concrete inputs.
mod TaskRuns
mod CommandRuns
mod SweepRuns
mod TaskingRuns
mod PolicyRuns
mod GateRuns
mod TransitionRuns
mod SkillRuns
mod RoutingRuns
mod AdapterRuns
