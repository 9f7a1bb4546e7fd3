-- ===== src/Planner/Config.antt =====
-- The planner's parameters: frenet_planner/src/frenet_planner/global/data_logger.hpp and
-- frenet/cost.hpp. The values come from params.yaml, so they are arguments here.
use Prim.Native.String.{String}
use mpc_ws.Prelude.{ℕ, Bool, List}

pub record CostWeights (R : Type 0) : Type 0 where
  pub kj : R
  pub kt : R
  pub kd : R
  pub kd_path : R
  pub ks : R
  pub ks_dot : R
  pub klat : R
  pub klon : R

pub record CurveSpeedConfig (R : Type 0) : Type 0 where
  pub target_vel : R
  pub curve_vel_sharp : R
  pub curve_vel_mid : R
  pub curve_vel_mild : R
  pub curve_th_sharp : R
  pub curve_th_mid : R
  pub curve_th_mild : R
  pub curve_lookahead_m : R

pub record FollowingConfig (R : Type 0) : Type 0 where
  pub time_gap : R
  pub min_gap : R
  pub gap_gain : R
  pub max_leader_search_s : R
  pub min_leader_speed : R
  pub exit_search_margin : R
  pub leader_switch_margin : R
  pub dropout_grace_cycles : ℕ

pub record AvoidConfig (R : Type 0) : Type 0 where
  pub detection_distance : R
  pub shift_start_distance : R
  pub trigger_max_speed : R
  pub avoid_offset : R
  pub comfortable_decel : R
  pub lateral_tolerance : R
  pub pass_clearance : R
  pub prefer_right_when_equal : Bool

pub record MergeConfig (R : Type 0) : Type 0 where
  pub conflict_s : R
  pub approach_distance : R
  pub stop_buffer : R
  pub conflict_radius : R
  pub min_object_speed : R
  pub min_front_time_gap : R
  pub min_rear_time_gap : R
  pub ego_clear_time : R
  pub max_wait_time : R
  pub completion_distance : R
  pub commit_distance : R
  pub safe_confirm_cycles : ℕ
  pub cross_speed_floor : R

pub record HighwayMergeCheckpoint (R : Type 0) : Type 0 where
  pub conflict_s : R
  pub clear_s : R

pub record HighwayMergeZone (R : Type 0) : Type 0 where
  pub name : String
  pub start_s : R
  pub completion_s : R
  pub checkpoints : List (HighwayMergeCheckpoint R)

pub record HighwayMergeConfig (R : Type 0) : Type 0 where
  pub enabled : Bool
  pub zones : List (HighwayMergeZone R)
  pub approach_distance : R
  pub stop_buffer : R
  pub target_corridor_half_width : R
  pub object_search_distance : R
  pub min_heading_alignment : R
  pub min_front_gap : R
  pub min_rear_gap : R
  pub min_front_ttc : R
  pub min_rear_ttc : R
  pub max_wait_time : R
  pub commit_distance : R
  pub safe_confirm_cycles : ℕ
  pub cross_speed_floor : R
