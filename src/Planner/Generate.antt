-- ===== src/Planner/Generate.antt =====
-- The candidates of a cycle of Plan (frenet_planner/src/frenet_planner/frenet_planner.cpp): the
-- adaptive speed of AVOID, the comparison of its two sides, and ResolveManeuver for the other modes.
pub mod Feasible
use mpc_ws.Prelude.{
  ℕ, suc, Bool, true, false, ◌&&◌, ◌||◌, Option, none, some, List, [], ◌∷◌, ◌++◌, map,
  if◌then◌else◌,
}
use mpc_ws.Double.{Double, ◌+◌, ◌-◌, ◌*◌, ◌/◌, ◌<◌, ◌>◌, abs, decimal, num, max}
use Prim.Native.Nat
use mpc_ws.Planner.AvoidPhases.{choose_side, lock_side}
use mpc_ws.Planner.Contexts.{AvoidanceContext}
use mpc_ws.Planner.Converter.{compute_geometric_path}
use mpc_ws.Planner.Cost.{evaluate_costs, select_best_path}
use mpc_ws.Planner.Maneuver.{PlannerDebugStats, resolve_maneuver}
use mpc_ws.Planner.Merge.Commit.{count_valid}
use mpc_ws.Planner.Settings.{PlannerSettings}
use mpc_ws.Planner.Types.{
  BehaviorState, FrenetPath, FrenetState, ObjectInfo, PlannerCommand, RefLine, RejectionReason,
}
use mpc_ws.Prelude.{
  ℕ, suc, Bool, true, false, ◌&&◌, ◌||◌, Option, none, some, List, [], ◌∷◌, ◌++◌, map,
  if◌then◌else◌,
}
use mpc_ws.Double.{Double, ◌+◌, ◌-◌, ◌*◌, ◌/◌, ◌<◌, ◌>◌, abs, decimal, num, max}

abbrev pub is_avoid_mode : BehaviorState → Bool
is_avoid_mode BehaviorState.avoid = true
is_avoid_mode _ = false

abbrev pub is_collision : RejectionReason → Bool
is_collision RejectionReason.collision = true
is_collision _ = false

-- The candidates with their counters, the command and the AVOID context as they are left.
pub record Generated (R : Type 0) : Type 0 where
  pub candidates : List (FrenetPath R)
  pub stats : PlannerDebugStats
  pub cmd : PlannerCommand R
  pub avoidance : AvoidanceContext R

module _ {R : Type 0} ⦃d : Double R⦄ where
  abbrev pub lateral_accel_margin : R
  lateral_accel_margin = decimal 8 1

  -- The loop over the curvatures.
  pub max_abs : R → List R → R
  max_abs max_kappa [] = max_kappa
  max_abs max_kappa (kappa ∷ kappas) = max_abs (max max_kappa (abs kappa)) kappas

  unfoldable pub candidate_curvature_speed_limit : ℕ → FrenetPath R → RefLine R → R → R
  unfolding max_abs
  candidate_curvature_speed_limit fuel path ref max_lateral_accel =
      let max_kappa = max_abs (num 0) (compute_geometric_path fuel path.s path.d ref).kappa in
      if max_kappa < decimal 1 4
      then d.infinity
      else d.sqrt (max_lateral_accel * lateral_accel_margin / max_kappa)

  -- The loop over the samples: at one of them the squared speed times the curvature is too large.
  unfoldable pub turns_too_fast : R → List R → List R → Bool
  turns_too_fast limit [] kappas = false
  turns_too_fast limit (v ∷ speeds) [] = false
  turns_too_fast limit (v ∷ speeds) (kappa ∷ kappas) =
      v * v * abs kappa > limit || turns_too_fast limit speeds kappas

  unfoldable pub filter_turning : ℕ → RefLine R → R → FrenetPath R → FrenetPath R
  unfolding turns_too_fast
  filter_turning fuel ref max_lateral_accel path =
      if path.valid
        && turns_too_fast (max_lateral_accel * lateral_accel_margin) path.s_d
            (compute_geometric_path fuel path.s path.d ref).kappa
      then record path { valid = false; rejection_reason = RejectionReason.curvature }
      else path

  unfoldable pub filter_by_cartesian_lateral_acceleration :
      ℕ → RefLine R → R → List (FrenetPath R) → List (FrenetPath R)
  unfolding filter_turning
  filter_by_cartesian_lateral_acceleration fuel ref max_lateral_accel =
      map (filter_turning fuel ref max_lateral_accel)

  abbrev pub count_curved : List (FrenetPath R) → ℕ
  count_curved [] = 0
  count_curved (path ∷ paths) =
      if path.valid || is_collision path.rejection_reason
      then suc (count_curved paths)
      else count_curved paths

  module _ (fuel : ℕ) (settings : PlannerSettings R) (start : FrenetState R)
      (planning : List (ObjectInfo R)) where
    -- `generate_once`, and the candidates of the other modes.
    unfoldable pub generate_once : PlannerCommand R → R → List (FrenetPath R) × PlannerDebugStats
    generate_once cmd target_d =
        let (paths, stats) =
          resolve_maneuver fuel start cmd settings.ref settings.path_cfg settings.limits
            settings.lane_width planning settings.vehicle_shape settings.collision_cfg in
        (evaluate_costs settings.cost_weights target_d paths, stats)

    -- The lower speed that the curvature of the best candidate asks for.
    unfoldable pub slower : PlannerCommand R → Option (FrenetPath R) → Option R
    unfolding candidate_curvature_speed_limit
    slower cmd none = none
    slower cmd (some best) =
        let limit =
          candidate_curvature_speed_limit fuel best settings.ref
            settings.limits.max_lateral_accel in
        if d.is_finite limit && (limit + decimal 1 1 < cmd.target_speed) then some limit else none

    -- The command with the lower speed.
    abbrev pub slow_down : PlannerCommand R → Option R → PlannerCommand R
    slow_down cmd none = cmd
    slow_down cmd (some speed) = record cmd { target_speed = speed }

    -- `generate_adaptive_avoid`, with the command that it leaves.
    unfoldable pub generate_adaptive_avoid : PlannerCommand R → R → AvoidanceContext R → Generated R
    unfolding generate_once slower filter_by_cartesian_lateral_acceleration
    generate_adaptive_avoid cmd target_d avoidance =
        let speed = slower cmd (select_best_path (generate_once cmd target_d).0) in
        let avoid_cmd = slow_down cmd speed in
        let (generated, stats) = generate_once avoid_cmd target_d in
        let filtered =
          filter_by_cartesian_lateral_acceleration fuel settings.ref
            settings.limits.max_lateral_accel generated in
        record {
          candidates = filtered;
          stats = record stats {
            combined_valid_after_curvature = count_curved filtered;
            combined_valid_after_collision = count_valid filtered;
          };
          cmd = avoid_cmd;
          avoidance = avoidance;
        }

    -- Half of both widths, the safety margin, and 0.3 m.
    abbrev pub side_clearance : AvoidanceContext R → R
    side_clearance avoidance =
        decimal 5 1 * (settings.vehicle_shape.width + avoidance.obstacle_width)
        + settings.collision_cfg.safety_margin
        + decimal 3 1

    abbrev pub add_stats : PlannerDebugStats → PlannerDebugStats → PlannerDebugStats
    add_stats a b = record {
      lateral_total = Nat.◌+◌ a.lateral_total b.lateral_total;
      lateral_valid = Nat.◌+◌ a.lateral_valid b.lateral_valid;
      longitudinal_total = Nat.◌+◌ a.longitudinal_total b.longitudinal_total;
      longitudinal_valid = Nat.◌+◌ a.longitudinal_valid b.longitudinal_valid;
      combined_total = Nat.◌+◌ a.combined_total b.combined_total;
      combined_valid_after_curvature =
          Nat.◌+◌ a.combined_valid_after_curvature b.combined_valid_after_curvature;
      combined_valid_after_collision = 0;
    }

    -- The side that is chosen, or both where neither has a valid candidate.
    unfoldable pub take_side :
        PlannerCommand R
        → AvoidanceContext R
        → R
        → R
        → Generated R
        → Generated R
        → Option Bool
        → Generated R
    take_side cmd avoidance left_target right_target left right none = record {
      candidates = left.candidates ++ right.candidates;
      stats = add_stats left.stats right.stats;
      cmd = cmd;
      avoidance = avoidance;
    }
    take_side cmd avoidance left_target right_target left right (some choose_right) = record {
      candidates = if choose_right then right.candidates else left.candidates;
      stats = if choose_right then right.stats else left.stats;
      cmd = record cmd {
        avoidance_d_offset = if choose_right then right_target else left_target;
        target_speed = if choose_right then right.cmd.target_speed else left.cmd.target_speed;
      };
      avoidance = lock_side left_target right_target (some choose_right) avoidance;
    }

    -- `begin_avoidance`: both sides are generated and compared.
    unfoldable pub compare_sides : PlannerCommand R → AvoidanceContext R → Generated R
    unfolding generate_adaptive_avoid take_side choose_side
    compare_sides cmd avoidance =
        let left_target = avoidance.obstacle_d + side_clearance avoidance in
        let right_target = avoidance.obstacle_d - side_clearance avoidance in
        let left =
          generate_adaptive_avoid (record cmd { avoidance_d_offset = left_target }) left_target
            avoidance in
        let right =
          generate_adaptive_avoid (record cmd { avoidance_d_offset = right_target }) right_target
            avoidance in
        take_side cmd avoidance left_target right_target left right (
          choose_side settings.avoid_cfg (select_best_path left.candidates)
            (select_best_path right.candidates))

    -- The candidates of the command.
    unfoldable pub generate : Bool → PlannerCommand R → AvoidanceContext R → Generated R
    unfolding compare_sides generate_adaptive_avoid generate_once
    generate begin_avoidance cmd avoidance =
        if begin_avoidance
        then compare_sides cmd avoidance
        else if is_avoid_mode cmd.mode
        then generate_adaptive_avoid cmd cmd.avoidance_d_offset avoidance
        else record {
          candidates = (generate_once cmd (num 0)).0;
          stats = (generate_once cmd (num 0)).1;
          cmd = cmd;
          avoidance = avoidance;
        }
