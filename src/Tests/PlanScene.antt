-- ===== src/Tests/PlanScene.antt =====
-- The settings of a planner that samples one candidate, and a vehicle on the line.
use mpc_ws.Prelude.{ℕ, true, none, List, [], ◌∷◌}
use mpc_ws.Prelude.Int.{pos, minus_one}
use mpc_ws.Double.Micro.{Micro, micro}
use mpc_ws.Planner.Command.{no_command}
use mpc_ws.Planner.Generator.{KinematicLimits, PathGeneratorConfig, SamplingRange}
use mpc_ws.Planner.Node.{Frame, NodeState, VehicleState, ego_of}
use mpc_ws.Planner.Settings.{PlannerSettings, PlannerState, initial_state}
use mpc_ws.Planner.Types.{CartesianPath, CartesianState, FrenetPath, ObjectInfo, PlannerCommand}
use mpc_ws.Tests.Scene.{
  avoid, candidate, collision, curve, following, highway, m, merge, object, road, shape,
}

-- Settings that sample one candidate, of three samples.
abbrev pub one_value : ℕ → SamplingRange Micro
one_value n = record { min = m n; max = m n; step = m 1 }

abbrev pub sampling : PathGeneratorConfig Micro
sampling = record {
  lateral_d1 = one_value 0;
  lateral_target_tolerance = m 0;
  time_horizon = one_value 2;
  delta_s = one_value 0;
  delta_s_dot = one_value 0;
  dt = m 1;
}

abbrev pub limits : KinematicLimits Micro
limits = record { max_lateral_accel = m 3; max_longitudinal_accel = m 9; max_curvature = m 1 }

abbrev pub settings : PlannerSettings Micro
settings = record {
  ref = road;
  path_cfg = sampling;
  limits = limits;
  cost_weights = record {
    kj = m 1;
    kt = m 1;
    kd = m 1;
    kd_path = m 1;
    ks = m 1;
    ks_dot = m 1;
    klat = m 1;
    klon = m 1;
  };
  vehicle_shape = shape;
  collision_cfg = collision;
  curve_speed_cfg = curve;
  following_cfg = following;
  avoid_cfg = avoid;
  merge_cfg = record merge { conflict_s = minus_one };
  highway_merge_cfg = highway;
  lane_width = m 4;
}

-- The planner after Init, and a vehicle on the line.
abbrev pub planner_state : PlannerState Micro
planner_state = record initial_state { ref_loaded = true }

abbrev pub vehicle : ℕ → VehicleState Micro
vehicle v = record { x = m 5; y = m 0; yaw = m 0; v = m v; steer = m 0; accel = m 0 }

abbrev pub car : ℕ → CartesianState Micro
car v = ego_of (vehicle v)

-- What Plan publishes at 5 m/s on the empty road: a quartic of two seconds up to 10 m/s.
abbrev pub driving_path : CartesianPath Micro
driving_path = record {
  x = m 5 ∷ pos 10937500 ∷ m 20 ∷ [];
  y = m 0 ∷ m 0 ∷ m 0 ∷ [];
  yaw = m 0 ∷ m 0 ∷ m 0 ∷ [];
  kappa = m 0 ∷ m 0 ∷ m 0 ∷ [];
  v = m 5 ∷ pos 7500000 ∷ m 10 ∷ [];
  a = m 0 ∷ pos 3750000 ∷ m 0 ∷ [];
}

abbrev pub keep_lane : PlannerCommand Micro
keep_lane = record no_command { target_speed = m 10 }

abbrev pub parked : List (ObjectInfo Micro)
parked = object 7 80 0 ∷ []

-- The one candidate that keeps the lane, without and with its costs.
abbrev pub sampled : FrenetPath Micro
sampled = record (candidate (m 0) true) {
  t = m 0 ∷ m 1 ∷ m 2 ∷ [];
  d = m 0 ∷ m 0 ∷ m 0 ∷ [];
  d_d = m 0 ∷ m 0 ∷ m 0 ∷ [];
  d_dd = m 0 ∷ m 0 ∷ m 0 ∷ [];
  s = m 5 ∷ pos 10937500 ∷ m 20 ∷ [];
  s_d = m 5 ∷ pos 7500000 ∷ m 10 ∷ [];
  s_dd = m 0 ∷ pos 3750000 ∷ m 0 ∷ [];
  jerk_cost_lon = pos 37500000;
}

abbrev pub costed : FrenetPath Micro
costed = record sampled { cost_lat = m 2; cost_lon = pos 39500000; cost_total = pos 41500000 }

-- The loop at its start, with Init done and not done.
abbrev pub node : PlannerState Micro → NodeState Micro
node planner = record {
  planner = planner;
  plan_fail_streak = 0;
  last_cp = none;
  last_vehicle_state = none;
}

abbrev pub frame : Frame Micro
frame = record { vehicle = vehicle 5; obstacles = [] }
