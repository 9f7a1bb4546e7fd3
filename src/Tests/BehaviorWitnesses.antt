-- ===== src/Tests/BehaviorWitnesses.antt =====
-- The theorems on the decision, on a scene with a slow vehicle in front.
use mpc_ws.Prelude.{◌≡◌, refl, Bool, true, false, []}
use mpc_ws.Double.{◌≤◌}
use mpc_ws.Prelude.Int.{pos}
use mpc_ws.Behavior.Decision.{best_of, candidates, choose, decide, enable, hard_rules, score}
use mpc_ws.Behavior.Decision.Safety.Limits.{decide-speed_limit}
use mpc_ws.Behavior.Decision.Safety.Stops.{StopsWith, decide-emergency, decide-stop}
use mpc_ws.Behavior.Types.{
  BehaviorState, BehaviorType, ObjectFeature, ObjectType, TrafficLightState, UrbanFeature,
}
use mpc_ws.Double.Micro.{Micro, Micro-IsExact, Micro-IsOrdered, micro}
use mpc_ws.Tests.Scene.{m}

abbrev front : ObjectFeature Micro
front = record {
  type = ObjectType.vehicle;
  id = pos 7;
  x = m 0;
  y = m 0;
  yaw = m 0;
  speed = m 3;
  accel = m 0;
  length = m 4;
  width = m 2;
  s = m 20;
  d = m 0;
  link_s = m 20;
  gap = m 20;
  relative_speed = m 2;
  ttc = m 10;
  link_id = "A";
  valid = true;
}

-- A scene with the state of a light 20 m ahead, and with or without an emergency.
abbrev scene : TrafficLightState → Bool → UrbanFeature Micro
scene light emergency_risk = record {
  timestamp = m 0;
  frame_count = 1;
  ego = record {
    x = m 0;
    y = m 0;
    yaw = m 0;
    speed = m 5;
    s = m 0;
    d = m 0;
    map_s = m 0;
    valid = true;
  };
  route = record {
    current_link_id = "A";
    target_link_id = "";
    route_required_link_id = "A";
    speed_limit = m 10;
    distance_to_turn = m 100;
    distance_to_intersection = m 100;
    lane_change_left_allowed = true;
    lane_change_right_allowed = false;
    current_link_valid = true;
    left_target_link_id = "B";
    right_target_link_id = "";
  };
  signal = record {
    light_state = light;
    traffic_light_id = "T";
    has_stop_line = true;
    stop_line_s = m 20;
    distance_to_stop_line = m 20;
    stop_line_x = m 20;
    stop_line_y = m 0;
    stop_line_valid = true;
  };
  surrounding = record {
    has_front_vehicle = true;
    front_vehicle = front;
    left_lane_safe = true;
    right_lane_safe = false;
    left_front_gap = m 100;
    left_rear_gap = m 100;
    right_front_gap = m 100;
    right_rear_gap = m 100;
    left_rear_ttc = m 100;
    right_rear_ttc = m 100;
  };
  risk = record {
    static_obstacle_ahead = false;
    pedestrian_risk = false;
    emergency_risk = emergency_risk;
    min_ttc = m 10;
    nearest_obstacle_s = m 100;
    nearest_pedestrian_s = m 100;
  };
  extra_values = [];
}

-- With a green light the slow vehicle is overtaken.
overtakes :
    (decide (scene TrafficLightState.green false)).selected_behavior ≡ BehaviorType.left_change
unfolding decide hard_rules score enable choose candidates best_of
overtakes = refl

decide-emergency_example :
    StopsWith
      (decide (scene TrafficLightState.green true))
      BehaviorType.emergency_stop
      BehaviorState.emergency_stop
decide-emergency_example =
    decide-emergency Micro-IsExact Micro-IsOrdered (scene TrafficLightState.green true) refl

decide-stop_example :
    StopsWith (decide (scene TrafficLightState.yellow false)) BehaviorType.stop BehaviorState.stop
decide-stop_example =
    decide-stop Micro-IsExact Micro-IsOrdered (scene TrafficLightState.yellow false) refl refl

decide-speed_limit_example :
    (decide (scene TrafficLightState.green false)).target.desired_speed ≤ m 10 ≡ true
unfolding hard_rules enable
decide-speed_limit_example =
    decide-speed_limit Micro-IsOrdered (scene TrafficLightState.green false) refl refl
