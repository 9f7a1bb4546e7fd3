-- ===== src/Tests.antt =====
-- Concrete inputs, on which the theorems are applied.
pub mod Scene
pub mod PlanScene
pub mod MicroLaws
mod PlannerWitnesses
mod MergeWitnesses
mod BehaviorWitnesses
mod MapWitnesses
mod GapWitnesses
mod PlanWitnesses
mod ControllerWitnesses
mod FeatureWitnesses
