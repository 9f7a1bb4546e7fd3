-- ===== src/Behavior.antt =====
-- behavior_planner: the features of the scene, the hard rules, the scores and the decision.
pub mod Types
pub mod Decision
pub mod Map
pub mod Feature
