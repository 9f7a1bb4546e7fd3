-- ===== src/Planner.antt =====
-- frenet_planner: the planner's data, its geometry, its selectors and the cycle of Plan.
pub mod Types
pub mod Config
pub mod RefLine
pub mod Converter
pub mod Collision
pub mod Cost
pub mod Polynomial
pub mod Generator
pub mod Maneuver
pub mod Leader
pub mod Avoidance
pub mod Gap
pub mod Tracks
pub mod Contexts
pub mod AvoidPhases
pub mod Follow
pub mod Locked
pub mod Merge
pub mod Command
pub mod Settings
pub mod Fallback
pub mod Generate
pub mod Plan
pub mod Node
