-- ===== src/Planner/Maneuver.antt =====
-- frenet_planner/src/frenet_planner/frenet/path_generator.cpp: the filters, the combination of the
-- lateral and the longitudinal candidates, and ResolveManeuver.
pub mod Arrays
pub mod Joined
pub mod Feasible
pub mod Sampled
use mpc_ws.Prelude.{
  ℕ, Bool, true, false, not, ◌&&◌, ◌||◌, none, some, List, [], ◌∷◌, map, ◌==◌, if◌then◌else◌,
  length, last_or, filter_map, is_empty, concat_map,
}
use mpc_ws.Double.{Double, ◌+◌, ◌-◌, ◌*◌, ◌/◌, ◌>◌, ◌≥◌, neg, abs, decimal, num, max, min}
use mpc_ws.Prelude.Int.{ℤ, minus_one, is_negative}
use mpc_ws.Planner.Collision.{filter_by_collision}
use mpc_ws.Planner.Command.{is_merge_mode}
use mpc_ws.Planner.Converter.{compute_geometric_path}
use mpc_ws.Planner.Generator.{
  KinematicLimits, PathGeneratorConfig, generate_following_candidates, generate_lateral_candidates,
  generate_merge_arrival_candidates, generate_stopping_candidates,
  generate_velocity_keeping_candidates,
}
use mpc_ws.Planner.Merge.Commit.{count_valid}
use mpc_ws.Planner.Types.{
  BehaviorState, CollisionCheckConfig, FrenetPath, FrenetState, ObjectInfo, PlannerCommand, RefLine,
  RejectionReason, VehicleShape,
}
use mpc_ws.Prelude.{
  ℕ, Bool, true, false, not, ◌&&◌, ◌||◌, none, some, List, [], ◌∷◌, map, ◌==◌, if◌then◌else◌,
  length, last_or, filter_map, is_empty, concat_map,
}
use mpc_ws.Double.{Double, ◌+◌, ◌-◌, ◌*◌, ◌/◌, ◌>◌, ◌≥◌, neg, abs, decimal, num, max, min}
use mpc_ws.Prelude.Int.{ℤ, minus_one, is_negative}

-- The counters of a cycle for the log and for the reason of a failure.
pub record PlannerDebugStats : Type 0 where
  pub lateral_total : ℕ
  pub lateral_valid : ℕ
  pub longitudinal_total : ℕ
  pub longitudinal_valid : ℕ
  pub combined_total : ℕ
  pub combined_valid_after_curvature : ℕ
  pub combined_valid_after_collision : ℕ

module _ {R : Type 0} ⦃d : Double R⦄ where
  -- The loop over the samples: one of them is larger than the limit.
  unfoldable pub exceeds : R → List R → Bool
  exceeds limit [] = false
  exceeds limit (x ∷ xs) = abs x > limit || exceeds limit xs

  unfoldable pub filter_lateral : KinematicLimits R → FrenetPath R → FrenetPath R
  filter_lateral limits path =
      if path.valid && exceeds limits.max_lateral_accel path.d_dd
      then record path { valid = false }
      else path

  unfoldable pub filter_longitudinal : KinematicLimits R → FrenetPath R → FrenetPath R
  filter_longitudinal limits path =
      if path.valid && exceeds limits.max_longitudinal_accel path.s_dd
      then record path { valid = false }
      else path

  unfoldable pub filter_lateral_by_acceleration :
      KinematicLimits R → List (FrenetPath R) → List (FrenetPath R)
  filter_lateral_by_acceleration limits = map (filter_lateral limits)

  unfoldable pub filter_longitudinal_by_acceleration :
      KinematicLimits R → List (FrenetPath R) → List (FrenetPath R)
  filter_longitudinal_by_acceleration limits = map (filter_longitudinal limits)

  -- The two parts of a path in one.
  abbrev pub join : FrenetPath R → FrenetPath R → FrenetPath R
  join lat lon = record {
    t = lat.t;
    d = lat.d;
    d_d = lat.d_d;
    d_dd = lat.d_dd;
    s = lon.s;
    s_d = lon.s_d;
    s_dd = lon.s_dd;
    cost_lat = num 0;
    cost_lon = num 0;
    cost_total = num 0;
    jerk_cost_lat = lat.jerk_cost_lat;
    jerk_cost_lon = lon.jerk_cost_lon;
    delta_s = lon.delta_s;
    delta_s_dot = lon.delta_s_dot;
    valid = true;
    rejection_reason = RejectionReason.none;
    collision_object_id = minus_one;
    collision_sample_index = minus_one;
  }

  -- The tests of the two loops, in their order.
  abbrev pub joins : FrenetPath R → FrenetPath R → Bool
  joins lat lon =
      lon.valid
      && not (is_empty lon.t)
      && not (abs (last_or (num 0) lat.t - last_or (num 0) lon.t) > decimal 1 6)
      && (length lat.t == length lon.t)

  unfoldable pub join_all : FrenetPath R → List (FrenetPath R) → List (FrenetPath R)
  join_all lat longitudinal_set =
      if lat.valid && not (is_empty lat.t)
      then filter_map (λ lon. if joins lat lon then some (join lat lon) else none) longitudinal_set
      else []

  unfoldable pub combine_lateral_longitudinal :
      List (FrenetPath R) → List (FrenetPath R) → List (FrenetPath R)
  unfolding join_all
  combine_lateral_longitudinal lateral_set longitudinal_set =
      concat_map (λ lat. join_all lat longitudinal_set) lateral_set

  unfoldable pub filter_curvature : ℕ → RefLine R → KinematicLimits R → FrenetPath R → FrenetPath R
  filter_curvature fuel ref limits path =
      if path.valid
        && exceeds limits.max_curvature (compute_geometric_path fuel path.s path.d ref).kappa
      then record path { valid = false; rejection_reason = RejectionReason.curvature }
      else path

  unfoldable pub filter_by_curvature :
      ℕ → RefLine R → KinematicLimits R → List (FrenetPath R) → List (FrenetPath R)
  unfolding filter_curvature
  filter_by_curvature fuel ref limits = map (filter_curvature fuel ref limits)

  unfoldable pub resolve_lateral_offset : PlannerCommand R → R → R
  resolve_lateral_offset cmd lane_width = elim cmd.mode as (λ _. R) [
    | BehaviorState.avoid ↦ cmd.avoidance_d_offset
    | BehaviorState.lane_change_left ↦ lane_width
    | BehaviorState.lane_change_right ↦ neg lane_width
    | _ ↦ num 0
  ]

  -- The grid of the lateral end positions around the place that the mode asks for.
  unfoldable pub maneuver_config :
      FrenetState R → PlannerCommand R → PathGeneratorConfig R → R → PathGeneratorConfig R
  unfolding resolve_lateral_offset
  maneuver_config start cmd cfg lane_width =
      let d_offset =
        if is_merge_mode cmd.mode && cmd.merge_committed
        then start.d
        else resolve_lateral_offset cmd lane_width in
      let tolerance = if is_merge_mode cmd.mode then num 0 else cfg.lateral_target_tolerance in
      record cfg {
        lateral_d1 = record cfg.lateral_d1 {
          min = d_offset - tolerance;
          max = d_offset + tolerance;
        };
      }

  abbrev pub follow_leader :
      ℕ → FrenetState R → PlannerCommand R → R → PathGeneratorConfig R → List (FrenetPath R)
  follow_leader fuel start cmd speed cfg =
      generate_following_candidates fuel start cmd.leader_s cmd.leader_speed cmd.leader_accel
        cmd.time_gap cmd.min_gap speed cmd.gap_gain cfg

  -- Behind the leader, if there is one, and else at the speed.
  abbrev pub follow_or_keep :
      ℕ → FrenetState R → PlannerCommand R → R → PathGeneratorConfig R → List (FrenetPath R)
  follow_or_keep fuel start cmd speed cfg =
      if is_negative cmd.leader_id
      then generate_velocity_keeping_candidates fuel start speed cfg
      else follow_leader fuel start cmd speed cfg

  -- MERGE without a safe gap: on at the speed until the braking distance, then to the stop.
  unfoldable pub merge_waiting :
      ℕ
      → FrenetState R
      → PlannerCommand R
      → PathGeneratorConfig R
      → KinematicLimits R
      → List (FrenetPath R)
  merge_waiting fuel start cmd cfg limits =
      let stop_distance = max (num 0) (cmd.merge_stop_s - start.s) in
      let braking_distance =
        start.s_d * start.s_d / (num 2 * max limits.max_longitudinal_accel (decimal 1 1)) in
      if stop_distance > braking_distance + num 3
      then generate_velocity_keeping_candidates fuel start cmd.target_speed cfg
      else generate_stopping_candidates fuel start cmd.merge_stop_s cfg

  -- MERGE with a safe gap.
  unfoldable pub merge_entering :
      ℕ → FrenetState R → PlannerCommand R → PathGeneratorConfig R → List (FrenetPath R)
  merge_entering fuel start cmd cfg =
      let distance = max (num 0) (cmd.merge_conflict_s - start.s) in
      let arrival_speed =
        if cmd.merge_entry_time > decimal 1 1
        then distance / cmd.merge_entry_time
        else cmd.target_speed in
      let speed = min cmd.target_speed (max arrival_speed (num 1)) in
      if cmd.merge_committed && (cmd.merge_entry_time ≥ cfg.time_horizon.min - decimal 1 6)
      then generate_merge_arrival_candidates fuel start cmd.merge_conflict_s cmd.merge_entry_time
          speed cfg
      else if cmd.merge_committed
      then generate_velocity_keeping_candidates fuel start cmd.target_speed cfg
      else follow_or_keep fuel start cmd speed cfg

  unfoldable pub merge_candidates :
      ℕ
      → FrenetState R
      → PlannerCommand R
      → PathGeneratorConfig R
      → KinematicLimits R
      → List (FrenetPath R)
  unfolding merge_waiting merge_entering
  merge_candidates fuel start cmd cfg limits =
      if cmd.merge_crossing
      then follow_or_keep fuel start cmd cmd.target_speed cfg
      else if not cmd.merge_gap_safe
      then merge_waiting fuel start cmd cfg limits
      else merge_entering fuel start cmd cfg

  -- `switch (cmd.mode)`
  unfoldable pub longitudinal_candidates :
      ℕ
      → FrenetState R
      → PlannerCommand R
      → PathGeneratorConfig R
      → KinematicLimits R
      → List (FrenetPath R)
  unfolding merge_candidates
  longitudinal_candidates fuel start cmd cfg limits = elim cmd.mode as (λ _. List (FrenetPath R)) [
    | BehaviorState.following ↦ follow_leader fuel start cmd cmd.target_speed cfg
    | BehaviorState.stop ↦ generate_stopping_candidates fuel start cmd.stop_position cfg
    | BehaviorState.intersection_wait ↦
        generate_stopping_candidates fuel start cmd.stop_position cfg
    | BehaviorState.emergency ↦ generate_stopping_candidates fuel start cmd.stop_position cfg
    | BehaviorState.merge ↦ merge_candidates fuel start cmd cfg limits
    | _ ↦ generate_velocity_keeping_candidates fuel start cmd.target_speed cfg
  ]

  -- The object that the coast does not check: the leader, in FOLLOWING and in MERGE.
  abbrev pub coast_exempt_id : PlannerCommand R → ℤ
  coast_exempt_id cmd = elim cmd.mode as (λ _. ℤ) [
    | BehaviorState.following ↦ cmd.leader_id
    | BehaviorState.merge ↦ cmd.leader_id
    | _ ↦ minus_one
  ]

  -- The candidates of a command, and the counts of the stages.
  unfoldable pub resolve_maneuver :
      ℕ
      → FrenetState R
      → PlannerCommand R
      → RefLine R
      → PathGeneratorConfig R
      → KinematicLimits R
      → R
      → List (ObjectInfo R)
      → VehicleShape R
      → CollisionCheckConfig R
      → List (FrenetPath R) × PlannerDebugStats
  unfolding maneuver_config filter_lateral_by_acceleration filter_longitudinal_by_acceleration
  resolve_maneuver fuel start cmd ref cfg limits lane_width objs shape collision =
      let lateral_set =
        filter_lateral_by_acceleration limits
          (generate_lateral_candidates fuel start (maneuver_config start cmd cfg lane_width)) in
      let longitudinal_set =
        filter_longitudinal_by_acceleration limits
          (longitudinal_candidates fuel start cmd cfg limits) in
      let combined = combine_lateral_longitudinal lateral_set longitudinal_set in
      let curved = filter_by_curvature fuel ref limits combined in
      let checked =
        if is_empty objs
        then curved
        else filter_by_collision fuel ref objs shape collision (coast_exempt_id cmd) curved in
      (
        checked,
        record {
          lateral_total = length lateral_set;
          lateral_valid = count_valid lateral_set;
          longitudinal_total = length longitudinal_set;
          longitudinal_valid = count_valid longitudinal_set;
          combined_total = length combined;
          combined_valid_after_curvature = count_valid curved;
          combined_valid_after_collision = count_valid checked;
        },
      )
