-- ===== src/Planner/Settings.antt =====
-- The members of FrenetPlanner (frenet_planner/src/frenet_planner/frenet_planner.hpp): what Init sets
-- and no cycle changes, and what Plan keeps from cycle to cycle.
use mpc_ws.Prelude.{
  Bool, true, false, not, ◌&&◌, Option, none, some, List, [], ◌∷◌, if◌then◌else◌, is_empty,
}
use mpc_ws.Double.{Double, ◌>◌, ◌≥◌, num}
use mpc_ws.Planner.Config.{
  AvoidConfig, CostWeights, CurveSpeedConfig, FollowingConfig, HighwayMergeCheckpoint,
  HighwayMergeConfig, HighwayMergeZone, MergeConfig,
}
use mpc_ws.Planner.Contexts.{
  AvoidanceContext, FollowingContext, MergeContext, MergePhase, no_avoidance, no_following,
  no_merge,
}
use mpc_ws.Planner.Generator.{KinematicLimits, PathGeneratorConfig}
use mpc_ws.Planner.Tracks.{Tracks}
use mpc_ws.Planner.Types.{
  BehaviorState, CollisionCheckConfig, PlanFailureReason, RefLine, VehicleShape,
}
use mpc_ws.Prelude.{
  Bool, true, false, not, ◌&&◌, Option, none, some, List, [], ◌∷◌, if◌then◌else◌, is_empty,
}
use mpc_ws.Double.{Double, ◌>◌, ◌≥◌, num}

pub record PlannerSettings (R : Type 0) : Type 0 where
  pub ref : RefLine R
  pub path_cfg : PathGeneratorConfig R
  pub limits : KinematicLimits R
  pub cost_weights : CostWeights R
  pub vehicle_shape : VehicleShape R
  pub collision_cfg : CollisionCheckConfig R
  pub curve_speed_cfg : CurveSpeedConfig R
  pub following_cfg : FollowingConfig R
  pub avoid_cfg : AvoidConfig R
  pub merge_cfg : MergeConfig R
  pub highway_merge_cfg : HighwayMergeConfig R
  pub lane_width : R

-- `last_s` is none as long as `has_last_s_` is false.
pub record PlannerState (R : Type 0) : Type 0 where
  pub ref_loaded : Bool
  pub last_s : Option R
  pub last_d : R
  pub last_d_dot : R
  pub last_failure_reason : PlanFailureReason
  pub prev_mode : BehaviorState
  pub prev_merge_phase : MergePhase
  pub avoidance : AvoidanceContext R
  pub following : FollowingContext R
  pub merge : MergeContext R
  pub object_tracks : Tracks R

module _ {R : Type 0} ⦃d : Double R⦄ where
  -- The state before Init.
  abbrev pub initial_state : PlannerState R
  initial_state = record {
    ref_loaded = false;
    last_s = none;
    last_d = num 0;
    last_d_dot = num 0;
    last_failure_reason = PlanFailureReason.none;
    prev_mode = BehaviorState.lane_keeping;
    prev_merge_phase = MergePhase.clear;
    avoidance = no_avoidance;
    following = no_following;
    merge = no_merge;
    object_tracks = [];
  }

  -- The loop of Init over the checkpoints of a zone, from the end of the one before on.
  unfoldable pub checkpoints_in_order : R → List (HighwayMergeCheckpoint R) → R → Bool
  checkpoints_in_order previous_clear_s [] completion_s = completion_s ≥ previous_clear_s
  checkpoints_in_order previous_clear_s (c ∷ checkpoints) completion_s =
      (c.conflict_s > previous_clear_s)
      && (c.clear_s > c.conflict_s)
      && checkpoints_in_order c.clear_s checkpoints completion_s

  unfoldable pub is_valid_zone : HighwayMergeZone R → Bool
  unfolding checkpoints_in_order
  is_valid_zone zone =
      (zone.start_s ≥ num 0)
      && not (is_empty zone.checkpoints)
      && checkpoints_in_order zone.start_s zone.checkpoints zone.completion_s

  unfoldable pub all_valid_zones : List (HighwayMergeZone R) → Bool
  unfolding is_valid_zone
  all_valid_zones [] = true
  all_valid_zones (zone ∷ zones) = is_valid_zone zone && all_valid_zones zones

  -- Init disables the policy if a zone is out of order.
  unfoldable pub check_highway_merge : HighwayMergeConfig R → HighwayMergeConfig R
  unfolding all_valid_zones
  check_highway_merge cfg =
      if cfg.enabled && not (all_valid_zones cfg.zones) then record cfg { enabled = false } else cfg

  -- Init, after the parameters are read: the line that LoadReferenceLine returns, if it does.
  unfoldable pub init :
      PlannerSettings R
      → Option (RefLine R)
      → PlannerState R
      → Option (PlannerSettings R × PlannerState R)
  unfolding check_highway_merge
  init settings none st = none
  init settings (some line) st = some (
    record settings {
      ref = line;
      highway_merge_cfg = check_highway_merge settings.highway_merge_cfg;
    },
    record st { ref_loaded = true },
  )
