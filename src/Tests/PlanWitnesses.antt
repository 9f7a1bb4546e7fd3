-- ===== src/Tests/PlanWitnesses.antt =====
-- The theorems on whole cycles of Plan and of its loop, on the scene.
use mpc_ws.Prelude.{
  ◌≡◌, refl, ◌⊎◌, inl, Bool, true, false, Option, none, some, [], ◌∷◌, ltb, length, All, Mem,
  filter_map, concat_map,
}
use mpc_ws.Double.{◌≤◌}
use mpc_ws.Prelude.Int.{minus_one}
use mpc_ws.Double.Least.{pick_least}
use mpc_ws.Double.Micro.{Micro, Micro-IsOrdered, micro, root}
use mpc_ws.Double.Steps.{steps}
use mpc_ws.Planner.AvoidPhases.{update_avoidance}
use mpc_ws.Planner.Avoidance.{find_static_avoidance_target}
use mpc_ws.Planner.Collision.{
  check_obb_overlap, coast_times, filter_by_collision, filter_path, first_coast_hit, first_overlap,
  first_sample_hit, make_ego_box, make_obstacle_box, projected_radius, sample_box,
  separated_along_axis,
}
use mpc_ws.Planner.Command.{
  build_command, lookahead_target_speed, max_curvature_in, planning_obstacles,
  velocity_from_curvature,
}
use mpc_ws.Planner.Contexts.{no_avoidance}
use mpc_ws.Planner.Converter.{
  arc_deriv_to_time_deriv, cartesian_to_frenet, compute_geometric_path, convert_sample,
  convert_to_cartesian_path, frenet_to_cartesian, time_deriv_to_arc_deriv,
}
use mpc_ws.Planner.Cost.{
  compute_lateral_cost, compute_longitudinal_cost, compute_total_cost, evaluate_costs,
  select_best_path,
}
use mpc_ws.Planner.Fallback.{crawl_speed_cap, min_creep_speed, plan_low_speed_fallback}
use mpc_ws.Planner.Fallback.Bounds.{plan_low_speed_fallback_bounds}
use mpc_ws.Planner.Follow.{update_following}
use mpc_ws.Planner.Generate.{generate}
use mpc_ws.Planner.Generate.Feasible.{Feasible, IsSmooth, generate-Feasible}
use mpc_ws.Planner.Generator.{
  generate_lateral_candidates, generate_velocity_keeping_candidates, sample_lateral_quintic,
}
use mpc_ws.Planner.Leader.{find_leader}
use mpc_ws.Planner.Locked.{plan_locked}
use mpc_ws.Planner.Maneuver.{
  combine_lateral_longitudinal, exceeds, filter_by_curvature, filter_lateral, filter_longitudinal,
  longitudinal_candidates, resolve_maneuver,
}
use mpc_ws.Planner.Maneuver.Feasible.{IsFeasible, resolve_maneuver-IsFeasible}
use mpc_ws.Planner.Maneuver.Sampled.{IsSampled, resolve_maneuver-IsSampled}
use mpc_ws.Planner.Merge.{update_merge}
use mpc_ws.Planner.Merge.Commit.{end_cycle, finish_cycle, validate_candidates}
use mpc_ws.Planner.Node.{after_failure, choose_path, is_blocked, node_run, node_step, stop_path_of}
use mpc_ws.Planner.Node.Stops.{PlanFails, node_step-sent, reason_of, run-stop}
use mpc_ws.Planner.Plan.{
  after_locked, command_of, finish_plan, plan, plan_candidates, plan_cycle, start_of,
  update_contexts,
}
use mpc_ws.Planner.Plan.Invariant.{IsValidState, initial_state-IsValidState, plan-IsValidState}
use mpc_ws.Planner.Plan.Published.{IsFallback, IsPlanned, IsRest, plan-published}
use mpc_ws.Planner.Polynomial.Quartic.{
  eval_acc, eval_jerk, eval_pos, eval_vel, jerk_cost, make_quartic,
}
use mpc_ws.Planner.Polynomial.Quintic.{make_quintic}
use mpc_ws.Planner.RefLine.{between, bisect, find_closest_s, interpolate, normalize_angle, wrap_s}
use mpc_ws.Planner.Settings.{initial_state}
use mpc_ws.Planner.Tracks.{update_tracks}
use mpc_ws.Planner.Types.{CartesianPath}
use mpc_ws.Tests.PlanScene.{
  car, costed, driving_path, frame, keep_lane, limits, node, parked, planner_state, sampled,
  sampling, settings, vehicle,
}
use mpc_ws.Tests.Scene.{collision, ego, m, road, shape}
use mpc_ws.Planner.Polynomial.Quintic
use mpc_ws.Planner.Polynomial.Quartic

driving-publishes : (plan 5 settings (car 5) [] planner_state).0 ≡ some driving_path
unfolding plan after_locked plan_locked plan_cycle plan_candidates update_contexts update_merge
    start_of cartesian_to_frenet find_closest_s interpolate wrap_s between bisect normalize_angle
    finish_plan finish_cycle end_cycle select_best_path validate_candidates generate
    update_avoidance command_of build_command find_static_avoidance_target pick_least filter_map
    update_following find_leader evaluate_costs resolve_maneuver planning_obstacles update_tracks
    filter_by_curvature combine_lateral_longitudinal concat_map generate_lateral_candidates steps
    filter_lateral sample_lateral_quintic exceeds make_quintic arc_deriv_to_time_deriv
    longitudinal_candidates generate_velocity_keeping_candidates filter_longitudinal make_quartic
    lookahead_target_speed velocity_from_curvature root Quintic.eval_pos Quintic.eval_vel
    Quintic.eval_acc Quintic.eval_jerk Quintic.jerk_cost Quartic.eval_pos Quartic.eval_vel
    Quartic.eval_acc Quartic.eval_jerk Quartic.jerk_cost max_curvature_in compute_geometric_path
    convert_to_cartesian_path convert_sample frenet_to_cartesian time_deriv_to_arc_deriv
driving-publishes = refl

sampled-made :
    Mem sampled
      (resolve_maneuver 5 ego keep_lane road sampling limits (m 4) parked shape collision).0
unfolding filter_by_collision filter_path interpolate wrap_s between bisect normalize_angle
    filter_map resolve_maneuver filter_by_curvature combine_lateral_longitudinal concat_map
    generate_lateral_candidates steps filter_lateral sample_lateral_quintic exceeds make_quintic
    arc_deriv_to_time_deriv longitudinal_candidates generate_velocity_keeping_candidates
    filter_longitudinal make_quartic root Quintic.eval_pos Quintic.eval_vel Quintic.eval_acc
    Quintic.eval_jerk Quintic.jerk_cost Quartic.eval_pos Quartic.eval_vel Quartic.eval_acc
    Quartic.eval_jerk Quartic.jerk_cost compute_geometric_path frenet_to_cartesian
    time_deriv_to_arc_deriv generate select_best_path evaluate_costs compute_lateral_cost
    compute_longitudinal_cost compute_total_cost first_sample_hit first_overlap check_obb_overlap
    separated_along_axis projected_radius sample_box make_ego_box make_obstacle_box first_coast_hit
    coast_times
sampled-made = inl refl

costed-made : Mem costed (generate 5 settings ego parked false keep_lane no_avoidance).candidates
unfolding filter_by_collision filter_path generate interpolate wrap_s between bisect normalize_angle
    select_best_path filter_map evaluate_costs resolve_maneuver filter_by_curvature
    combine_lateral_longitudinal concat_map generate_lateral_candidates steps filter_lateral
    sample_lateral_quintic exceeds make_quintic arc_deriv_to_time_deriv longitudinal_candidates
    generate_velocity_keeping_candidates filter_longitudinal make_quartic root Quintic.eval_pos
    Quintic.eval_vel Quintic.eval_acc Quintic.eval_jerk Quintic.jerk_cost Quartic.eval_pos
    Quartic.eval_vel Quartic.eval_acc Quartic.eval_jerk Quartic.jerk_cost compute_geometric_path
    frenet_to_cartesian time_deriv_to_arc_deriv first_sample_hit compute_lateral_cost
    compute_longitudinal_cost compute_total_cost first_overlap check_obb_overlap
    separated_along_axis projected_radius sample_box make_ego_box make_obstacle_box first_coast_hit
    coast_times
costed-made = inl refl

plan-published_example :
    IsRest 5 settings (car 5) [] planner_state driving_path
    ⊎ IsFallback 5 settings (car 5) [] planner_state driving_path
    ⊎ IsPlanned 5 settings (car 5) [] planner_state driving_path
plan-published_example =
    plan-published 5 settings (car 5) [] planner_state driving_path driving-publishes

plan-IsValidState_example : IsValidState 5 settings (plan 5 settings (car 5) parked initial_state).1
plan-IsValidState_example =
    plan-IsValidState 5 settings (car 5) parked initial_state
      (initial_state-IsValidState 5 settings)

resolve_maneuver-IsFeasible_example :
    IsFeasible 5 road limits parked shape collision minus_one sampled
resolve_maneuver-IsFeasible_example =
    resolve_maneuver-IsFeasible 5 ego keep_lane road sampling limits (m 4) parked shape collision
      sampled sampled-made refl

resolve_maneuver-IsSampled_example : IsSampled sampled
resolve_maneuver-IsSampled_example =
    resolve_maneuver-IsSampled 5 ego keep_lane road sampling limits (m 4) parked shape collision
      sampled sampled-made

generate-Feasible_example :
    Feasible 5 settings ego parked minus_one costed
    × ((◌≡◌ {A = Bool} false false) ⊎ IsSmooth 5 settings costed)
generate-Feasible_example =
    generate-Feasible 5 settings ego parked false keep_lane no_avoidance costed costed-made refl

node_step-sent_example :
    ((plan 5 settings (car 5) [] planner_state).0 ≡ some driving_path)
    ⊎ (driving_path ≡ stop_path_of (vehicle 5))
    ⊎ (PlanFails 5 settings frame (node planner_state)
        × (◌≡◌ {A = Option (CartesianPath Micro)} none (some driving_path))
        × (is_blocked (reason_of 5 settings frame (node planner_state)) ≡ false)
        × (ltb 0 5 ≡ true))
unfolding node_step choose_path
node_step-sent_example =
    node_step-sent 5 settings frame (node planner_state) driving_path (rw driving-publishes refl)

run-stop_example :
    (node_step 5 settings
      (some frame)
      (node_run 5 settings (frame ∷ frame ∷ frame ∷ frame ∷ frame ∷ []) (node initial_state))).0
    ≡ some (stop_path_of (vehicle 5))
unfolding plan node_step node_run choose_path after_failure
run-stop_example =
    run-stop 5 settings (frame ∷ frame ∷ frame ∷ frame ∷ frame ∷ []) frame (node initial_state)
      (refl, (refl, (refl, (refl, (refl, tt))))) refl refl

plan_low_speed_fallback_example :
    let path = plan_low_speed_fallback 5 road (m 1) (car 0) (m 5) (m 1) (m 0) (m 2) in
    All (λ v. (min_creep_speed ≤ v ≡ true) × (v ≤ crawl_speed_cap ≡ true)) path.v
    × (length path.x ≡ 3)
    × (length path.v ≡ length path.x)
plan_low_speed_fallback_example =
    plan_low_speed_fallback_bounds Micro-IsOrdered 5 road (m 1) (car 0) (m 5) (m 1) (m 0) (m 2) refl
