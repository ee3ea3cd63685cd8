-- ===== src/Skills.antt =====
-- packages/skill-registry: manifests of skill packs, their validation, and the resolution of a task
-- to a skill pack.
pub mod Manifests
pub mod Validation
pub mod Resolution
pub mod Modes
