-- ===== src/Tests/Scene.antt =====
-- A straight road, a vehicle at its start, and obstacles on it.
use mpc_ws.Prelude.{ℕ, Bool, true, false, List, [], ◌∷◌}
use mpc_ws.Prelude.Int.{pos, minus_one}
use mpc_ws.Double.Micro.{Micro, micro}
use mpc_ws.Planner.Config.{
  AvoidConfig, CurveSpeedConfig, FollowingConfig, HighwayMergeConfig, HighwayMergeZone, MergeConfig,
}
use mpc_ws.Planner.Contexts.{
  AvoidanceContext, FollowingContext, MergeContext, MergePhase, no_avoidance, no_following,
  no_merge,
}
use mpc_ws.Planner.Gap.{RoundaboutGap, no_gap}
use mpc_ws.Planner.Leader.{LeaderTarget}
use mpc_ws.Planner.Types.{
  CartesianPath, CollisionCheckConfig, FrenetPath, FrenetState, MergeType, ObjectInfo, RefLine,
  RefPoint, RejectionReason, VehicleShape,
}
use Prim.Native.Nat

abbrev pub m : ℕ → Micro
m n = pos (Nat.◌*◌ n 1000000)

abbrev pub point : ℕ → RefPoint Micro
point n = record { x = m n; y = m 0; s = m n; theta = m 0; kappa = m 0; d_kappa = m 0 }

abbrev pub road : RefLine Micro
road = record { points = point 0 ∷ point 50 ∷ point 100 ∷ [] }

abbrev pub ego : FrenetState Micro
ego = record { s = m 5; s_d = m 5; s_dd = m 0; d = m 0; d_d = m 0; d_dd = m 0 }

abbrev pub object : ℕ → ℕ → ℕ → ObjectInfo Micro
object id x speed = record {
  id = pos id;
  type = pos 1;
  x = m x;
  y = m 0;
  heading = m 0;
  speed = m speed;
  width = m 2;
  length = m 4;
  yaw_rate = m 0;
}

abbrev pub shape : VehicleShape Micro
shape = record { width = m 2; length = m 4 }

abbrev pub collision : CollisionCheckConfig Micro
collision = record { safety_margin = m 0; margin_growth_rate = m 0; reactive_lookahead = m 2 }

abbrev pub curve : CurveSpeedConfig Micro
curve = record {
  target_vel = m 10;
  curve_vel_sharp = m 3;
  curve_vel_mid = m 5;
  curve_vel_mild = m 7;
  curve_th_sharp = m 1;
  curve_th_mid = m 1;
  curve_th_mild = m 1;
  curve_lookahead_m = m 20;
}

abbrev pub following : FollowingConfig Micro
following = record {
  time_gap = m 1;
  min_gap = m 5;
  gap_gain = m 1;
  max_leader_search_s = m 40;
  min_leader_speed = m 0;
  exit_search_margin = m 10;
  leader_switch_margin = m 3;
  dropout_grace_cycles = 2;
}

abbrev pub avoid : AvoidConfig Micro
avoid = record {
  detection_distance = m 40;
  shift_start_distance = m 25;
  trigger_max_speed = m 1;
  avoid_offset = m 3;
  comfortable_decel = m 2;
  lateral_tolerance = m 1;
  pass_clearance = m 2;
  prefer_right_when_equal = true;
}

abbrev pub merge : MergeConfig Micro
merge = record {
  conflict_s = m 20;
  approach_distance = m 30;
  stop_buffer = m 5;
  conflict_radius = m 3;
  min_object_speed = m 1;
  min_front_time_gap = m 1;
  min_rear_time_gap = m 1;
  ego_clear_time = m 2;
  max_wait_time = m 10;
  completion_distance = m 10;
  commit_distance = m 20;
  safe_confirm_cycles = 1;
  cross_speed_floor = m 3;
}

abbrev pub zone : HighwayMergeZone Micro
zone = record {
  name = "ramp";
  start_s = m 40;
  completion_s = m 90;
  checkpoints = record { conflict_s = m 60; clear_s = m 70 } ∷ [];
}

abbrev pub highway : HighwayMergeConfig Micro
highway = record {
  enabled = true;
  zones = zone ∷ [];
  approach_distance = m 20;
  stop_buffer = m 5;
  target_corridor_half_width = m 2;
  object_search_distance = m 40;
  min_heading_alignment = m 0;
  min_front_gap = m 5;
  min_rear_gap = m 5;
  min_front_ttc = m 2;
  min_rear_ttc = m 2;
  max_wait_time = m 10;
  commit_distance = m 20;
  safe_confirm_cycles = 1;
  cross_speed_floor = m 3;
}

abbrev pub times : List Micro
times = m 0 ∷ m 1 ∷ []

-- A candidate that keeps to the line, from s = 5 on.
abbrev pub candidate : Micro → Bool → FrenetPath Micro
candidate cost valid = record {
  t = times;
  d = m 0 ∷ m 0 ∷ [];
  d_d = m 0 ∷ m 0 ∷ [];
  d_dd = m 0 ∷ m 0 ∷ [];
  s = m 5 ∷ m 10 ∷ [];
  s_d = m 5 ∷ m 5 ∷ [];
  s_dd = m 0 ∷ m 0 ∷ [];
  cost_lat = m 0;
  cost_lon = m 0;
  cost_total = cost;
  jerk_cost_lat = m 0;
  jerk_cost_lon = m 0;
  delta_s = m 0;
  delta_s_dot = m 0;
  valid = valid;
  rejection_reason = RejectionReason.none;
  collision_object_id = minus_one;
  collision_sample_index = minus_one;
}

abbrev pub tracked : AvoidanceContext Micro
tracked = record no_avoidance {
  active = true;
  obstacle_id = pos 7;
  obstacle_s = m 20;
  obstacle_width = m 2;
  obstacle_length = m 4;
  target_d = m 3;
}

abbrev pub led : FollowingContext Micro
led = record no_following { active = true; leader_id = pos 7; leader_s = m 30; leader_speed = m 5 }

abbrev pub leader : ℕ → ℕ → LeaderTarget Micro
leader id s = record { id = pos id; s = m s; d = m 0; speed = m 5; accel = m 0 }

-- A roundabout merge that waits, and one that is committed to a path of two samples.
abbrev pub waiting : MergeContext Micro
waiting = record no_merge {
  active = true;
  type = MergeType.roundabout;
  phase = MergePhase.wait;
  commit_pending = true;
}

abbrev pub locked_path : CartesianPath Micro
locked_path = record {
  x = m 5 ∷ m 10 ∷ [];
  y = m 0 ∷ m 0 ∷ [];
  yaw = m 0 ∷ m 0 ∷ [];
  kappa = m 0 ∷ m 0 ∷ [];
  v = m 5 ∷ m 5 ∷ [];
  a = m 0 ∷ m 0 ∷ [];
}

abbrev pub committed : MergeContext Micro
committed = record waiting {
  phase = MergePhase.commit;
  commit_pending = false;
  gap_locked = true;
  locked_path = locked_path;
}

abbrev pub gap : RoundaboutGap Micro
gap = record no_gap { safe = true; confirmed = true; entry_time = m 2; clear_time = m 4 }
