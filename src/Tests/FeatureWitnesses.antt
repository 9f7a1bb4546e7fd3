-- ===== src/Tests/FeatureWitnesses.antt =====
-- The theorem on lane changes, with a slow vehicle ahead and a free lane to the left.
use mpc_ws.Prelude.{
  ◌≡◌, refl, inl, inr, true, false, none, some, [], ◌∷◌, arith, if◌then◌else◌, Mem,
}
use mpc_ws.Double.{◌-◌, ◌<◌, neg}
use mpc_ws.Double.Laws.{IsNumber}
use mpc_ws.Prelude.Int.{pos, negsuc, minus_one}
use mpc_ws.Behavior.Decision.{best_of, candidates, choose, decide, enable, hard_rules, score}
use mpc_ws.Behavior.Feature.{
  EgoState, PerceptionObjects, RouteManager, TrackedObject, add_gap, build, ego_feature, in_lane,
  place, project, project_all, signal_feature,
}
use mpc_ws.Behavior.Feature.Change.{decide-KeepsDistance, feature, gap_of, goes_to}
use mpc_ws.Behavior.Feature.Lanes.{KeepsDistance}
use mpc_ws.Behavior.Map.{LinkInfo}
use mpc_ws.Behavior.Types.{ObjectFeature, ObjectType, TrafficLightState}
use mpc_ws.Double.Micro.{Micro, Micro-IsOrdered, micro, root}
use mpc_ws.Tests.Scene.{m}

-- A link along the x axis, with a lane to the left of it.
abbrev link : LinkInfo Micro
link = record {
  id = "A";
  from_node_id = "";
  to_node_id = "";
  centerline = [];
  max_speed = m 10;
  min_speed = m 0;
  width_start = m 3;
  width_end = m 3;
  link_length = m 200;
  can_move_left = true;
  can_move_right = false;
  left_dst_link_id = "B";
  right_dst_link_id = "";
  related_signal = "";
  road_id = "";
  ego_lane = pos 1;
}

abbrev manager : RouteManager Micro
manager = record {
  project_ego = λ x y. some (record { s = x; d = y; link_id = "A" });
  match_map_link = λ x y yaw. some (record { link_id = "A"; link_s = x; d = y; distance = m 0 });
  get_current_link_info = λ id. some link;
  find_next_map_stop_line = λ id s limit. none;
  forward_distance = λ id s to_id to_s limit. if s < to_s then some (to_s - s) else none;
  get_state = λ id. TrafficLightState.green;
}

abbrev tracked_object : Micro → Micro → Micro → TrackedObject Micro
tracked_object x y speed = record {
  id = pos 7;
  type = ObjectType.vehicle;
  x = x;
  y = y;
  yaw = m 0;
  speed = speed;
  accel = m 0;
  length = m 4;
  width = m 2;
}

-- 30 m behind in the left lane, and 20 m ahead.
abbrev behind : TrackedObject Micro
behind = tracked_object (negsuc 29999999) (pos 3500000) (m 5)

abbrev objects : PerceptionObjects Micro
objects = record {
  vehicles = tracked_object (m 20) (m 0) (m 3) ∷ behind ∷ [];
  pedestrians = [];
  obstacles = [];
}

abbrev state : EgoState Micro
state = record { x = m 0; y = m 0; yaw = m 0; speed = m 5; stamp = m 0 }

-- The vehicle behind, with its features.
abbrev seen : ObjectFeature Micro
seen = project manager behind (ego_feature manager state)

seen-Mem :
    Mem seen
      (project_all manager (feature Micro-IsOrdered manager state objects 0 minus_one).ego objects)
unfolding project_all build
seen-Mem = inr (inl refl)

seen-valid : seen.valid ≡ true
unfolding project
seen-valid = refl

changes_left :
    goes_to Micro-IsOrdered manager state objects 0 minus_one
      (decide (feature Micro-IsOrdered manager state objects 0 minus_one)).selected_behavior
      seen
    ≡ true
unfolding decide build choose best_of candidates enable hard_rules project place root signal_feature
    add_gap in_lane score
changes_left = refl

Micro-IsNumber : (x : Micro) → IsNumber x
Micro-IsNumber x = ground arith

-- The gap of the vehicle behind, as the builder places it.
abbrev placed : Micro
placed = gap_of Micro-IsOrdered manager state objects 0 minus_one seen

decide-KeepsDistance_example :
    KeepsDistance Micro-IsOrdered (gap_of Micro-IsOrdered manager state objects 0 minus_one seen)
decide-KeepsDistance_example =
    decide-KeepsDistance Micro-IsOrdered manager state objects 0 minus_one seen seen-Mem seen-valid
      changes_left (Micro-IsNumber placed) (Micro-IsNumber (neg placed))
