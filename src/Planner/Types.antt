-- ===== src/Planner/Types.antt =====
-- The planner's data: frenet_planner/src/frenet_planner/global/global.hpp, ref_line.hpp,
-- frenet_converter.hpp and collision_checker.hpp. `int` identifiers are ℤ, counts are ℕ, and `double`
-- is a type of numbers.
use mpc_ws.Prelude.{Bool, List, []}
use mpc_ws.Prelude.Int.{ℤ}

-- `enum BehaviorState`
pub data BehaviorState : Type 0 where
  lane_keeping following lane_change_left lane_change_right intersection_wait : BehaviorState
  turn_left turn_right avoid merge stop emergency : BehaviorState

pub data MergeType : Type 0 where
  none roundabout highway : MergeType

pub data RejectionReason : Type 0 where
  none curvature collision : RejectionReason

-- FrenetPlanner::PlanFailureReason, of frenet_planner.hpp.
pub data PlanFailureReason : Type 0 where
  none collision_blocked transient_generation_failure not_initialized : PlanFailureReason

pub record ObjectInfo (R : Type 0) : Type 0 where
  pub id : ℤ
  pub type : ℤ
  pub x : R
  pub y : R
  pub heading : R
  pub speed : R
  pub width : R
  pub length : R
  pub yaw_rate : R

pub record PlannerCommand (R : Type 0) : Type 0 where
  pub mode : BehaviorState
  pub target_lane : ℤ
  pub avoidance_d_offset : R
  pub target_speed : R
  pub stop_position : R
  pub leader_id : ℤ
  pub leader_s : R
  pub leader_speed : R
  pub leader_accel : R
  pub time_gap : R
  pub min_gap : R
  pub gap_gain : R
  pub merge_sa_s : R
  pub merge_sa_id : ℤ
  pub merge_sa_speed : R
  pub merge_sa_accel : R
  pub merge_sb_s : R
  pub merge_sb_id : ℤ
  pub merge_sb_speed : R
  pub merge_sb_accel : R
  pub merge_target_d : R
  pub merge_gap_safe : Bool
  pub merge_conflict_s : R
  pub merge_stop_s : R
  pub merge_entry_time : R
  pub merge_committed : Bool
  pub merge_crossing : Bool
  pub merge_type : MergeType

pub record FrenetState (R : Type 0) : Type 0 where
  pub s : R
  pub s_d : R
  pub s_dd : R
  pub d : R
  pub d_d : R
  pub d_dd : R

pub record FrenetPath (R : Type 0) : Type 0 where
  pub t : List R
  pub d : List R
  pub d_d : List R
  pub d_dd : List R
  pub s : List R
  pub s_d : List R
  pub s_dd : List R
  pub cost_lat : R
  pub cost_lon : R
  pub cost_total : R
  pub jerk_cost_lat : R
  pub jerk_cost_lon : R
  pub delta_s : R
  pub delta_s_dot : R
  pub valid : Bool
  pub rejection_reason : RejectionReason
  pub collision_object_id : ℤ
  pub collision_sample_index : ℤ

pub record CartesianPath (R : Type 0) : Type 0 where
  pub x : List R
  pub y : List R
  pub yaw : List R
  pub kappa : List R
  pub v : List R
  pub a : List R

pub record RefPoint (R : Type 0) : Type 0 where
  pub x : R
  pub y : R
  pub s : R
  pub theta : R
  pub kappa : R
  pub d_kappa : R

pub record RefLine (R : Type 0) : Type 0 where
  pub points : List (RefPoint R)

pub record CartesianState (R : Type 0) : Type 0 where
  pub x : R
  pub y : R
  pub yaw : R
  pub kappa : R
  pub v : R
  pub a : R

pub record GeometricPath (R : Type 0) : Type 0 where
  pub x : List R
  pub y : List R
  pub yaw : List R
  pub kappa : List R

pub record VehicleShape (R : Type 0) : Type 0 where
  pub width : R
  pub length : R

pub record CollisionCheckConfig (R : Type 0) : Type 0 where
  pub safety_margin : R
  pub margin_growth_rate : R
  pub reactive_lookahead : R

pub record OrientedBox (R : Type 0) : Type 0 where
  pub cx : R
  pub cy : R
  pub heading : R
  pub half_length : R
  pub half_width : R

-- `CartesianPath{}`
abbrev pub empty_path : {R : Type 0} → CartesianPath R
empty_path = record { x = []; y = []; yaw = []; kappa = []; v = []; a = [] }
