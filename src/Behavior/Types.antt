-- ===== src/Behavior/Types.antt =====
-- The data of behavior_planner: behavior_planner/src/context/behavior_types.hpp,
-- behavior_context.hpp and feature/urban_feature.hpp. A map from texts is an association list.
use mpc_ws.Prelude.{ℕ, Bool, List}
use mpc_ws.Prelude.Int.{ℤ}
use Prim.Native.String.{String}

pub data TrafficLightState : Type 0 where
  unknown red yellow green : TrafficLightState

pub data ObjectType : Type 0 where
  unknown vehicle pedestrian static_obstacle : ObjectType

pub data BehaviorType : Type 0 where
  keep follow left_change right_change stop yield emergency_stop : BehaviorType

pub data BehaviorState : Type 0 where
  keep_lane follow left_change_prepare left_change_execute right_change_prepare : BehaviorState
  right_change_execute stop emergency_stop : BehaviorState

pub record EgoFeature (R : Type 0) : Type 0 where
  pub x : R
  pub y : R
  pub yaw : R
  pub speed : R
  pub s : R
  pub d : R
  pub map_s : R
  pub valid : Bool

pub record RouteFeature (R : Type 0) : Type 0 where
  pub current_link_id : String
  pub target_link_id : String
  pub route_required_link_id : String
  pub speed_limit : R
  pub distance_to_turn : R
  pub distance_to_intersection : R
  pub lane_change_left_allowed : Bool
  pub lane_change_right_allowed : Bool
  pub current_link_valid : Bool
  pub left_target_link_id : String
  pub right_target_link_id : String

pub record SignalFeature (R : Type 0) : Type 0 where
  pub light_state : TrafficLightState
  pub traffic_light_id : String
  pub has_stop_line : Bool
  pub stop_line_s : R
  pub distance_to_stop_line : R
  pub stop_line_x : R
  pub stop_line_y : R
  pub stop_line_valid : Bool

pub record ObjectFeature (R : Type 0) : Type 0 where
  pub type : ObjectType
  pub id : ℤ
  pub x : R
  pub y : R
  pub yaw : R
  pub speed : R
  pub accel : R
  pub length : R
  pub width : R
  pub s : R
  pub d : R
  pub link_s : R
  pub gap : R
  pub relative_speed : R
  pub ttc : R
  pub link_id : String
  pub valid : Bool

pub record SurroundingFeature (R : Type 0) : Type 0 where
  pub has_front_vehicle : Bool
  pub front_vehicle : ObjectFeature R
  pub left_lane_safe : Bool
  pub right_lane_safe : Bool
  pub left_front_gap : R
  pub left_rear_gap : R
  pub right_front_gap : R
  pub right_rear_gap : R
  pub left_rear_ttc : R
  pub right_rear_ttc : R

pub record RiskFeature (R : Type 0) : Type 0 where
  pub static_obstacle_ahead : Bool
  pub pedestrian_risk : Bool
  pub emergency_risk : Bool
  pub min_ttc : R
  pub nearest_obstacle_s : R
  pub nearest_pedestrian_s : R

pub record UrbanFeature (R : Type 0) : Type 0 where
  pub timestamp : R
  pub frame_count : ℕ
  pub ego : EgoFeature R
  pub route : RouteFeature R
  pub signal : SignalFeature R
  pub surrounding : SurroundingFeature R
  pub risk : RiskFeature R
  pub extra_values : List (String × R)

pub record HardConstraint (R : Type 0) : Type 0 where
  pub force_stop : Bool
  pub emergency_stop : Bool
  pub forbid_left_change : Bool
  pub forbid_right_change : Bool
  pub forbid_lane_change : Bool
  pub stop_line_constraint : Bool
  pub stop_before_s : R
  pub max_speed : R

pub record BehaviorEnable : Type 0 where
  pub keep : Bool
  pub follow : Bool
  pub left_change : Bool
  pub right_change : Bool
  pub stop : Bool
  pub emergency_stop : Bool

pub record BehaviorScore (R : Type 0) : Type 0 where
  pub keep : R
  pub follow : R
  pub left_change : R
  pub right_change : R
  pub stop : R
  pub emergency_stop : R

pub record BehaviorTarget (R : Type 0) : Type 0 where
  pub current_link_id : String
  pub route_required_link_id : String
  pub target_link_id : String
  pub candidate_link_ids : List String
  pub desired_speed : R
  pub stop_before_s : R
  pub lead_vehicle_id : ℤ
  pub follow_time_gap : R
  pub follow_min_gap : R

pub record BehaviorDebug (R : Type 0) : Type 0 where
  pub selected_reason : String
  pub hard_rule_reason : String
  pub cost_terms : List (String × R)

pub record BehaviorContextData (R : Type 0) : Type 0 where
  pub timestamp : R
  pub state : BehaviorState
  pub selected_behavior : BehaviorType
  pub hard : HardConstraint R
  pub enable : BehaviorEnable
  pub score : BehaviorScore R
  pub target : BehaviorTarget R
  pub debug : BehaviorDebug R
  pub extra_values : List (String × R)
