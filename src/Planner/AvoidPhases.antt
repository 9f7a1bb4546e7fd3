-- ===== src/Planner/AvoidPhases.antt =====
-- The AVOID context of Plan (frenet_planner/src/frenet_planner/frenet_planner.cpp): following the
-- obstacle, the phases TRACKING, SHIFT and PASS, the acquisition of the next obstacle, and the
-- choice of the side.
pub mod Graph
pub mod Side
use mpc_ws.Prelude.{
  ℕ, zero, suc, ◌≡◌, refl, sym, ap, ◌∙◌, ◌≢◌, ◌↔◌, ◌⊎◌, inl, inr, Bool, true, false, not, ◌&&◌,
  ◌||◌, Option, none, some, List, [], ◌∷◌, ◌++◌, map, arith, ltb, leb, ◌==◌, if◌then◌else◌,
  Bool-cases, Option-cases, is_some, true≢false, &&_split, length, get_elem?, get_or, last_or,
  head_or, drop, take, All, Any, length-map, All-map, All-of, iota, length-iota, filter, Mem,
  filter_map, Whenever, Mem-filter_map, All-filter_map, Any-map,
}
use mpc_ws.Double.{
  Double, ◌+◌, ◌-◌, ◌*◌, ◌/◌, ◌<◌, ◌≤◌, ◌>◌, ◌≥◌, neg, abs, decimal, num, max, min, clamp,
}
use mpc_ws.Double.Laws.{
  IsOrdered, IsExact, IsNumber, min_le_left, min_le_right, le_max_left, le_max_right, clamp_bounds,
  exact_limit,
}
use mpc_ws.Prelude.Int.{ℤ, pos, negsuc, minus_one, is_negative, ◌==ℤ◌, ==ℤ_iff, ltb_ℤ, leb_ℤ, ◌+ℤ◌}
use mpc_ws.Planner.Avoidance.{StaticObstacleTarget}
use mpc_ws.Planner.Config.{AvoidConfig, CurveSpeedConfig}
use mpc_ws.Planner.Contexts.{
  AvoidPhase, AvoidanceContext, is_pass, is_shift, is_tracking, no_avoidance,
}
use mpc_ws.Planner.Leader.{project_object_to_frenet}
use mpc_ws.Planner.Types.{CollisionCheckConfig, FrenetPath, ObjectInfo, RefLine, VehicleShape}

module _ {R : Type 0} ⦃d : Double R⦄ where
  -- The active obstacle at its place in the new frame, if the frame has it.
  unfoldable pub refresh_obstacle :
      ℕ → RefLine R → AvoidanceContext R → List (ObjectInfo R) → AvoidanceContext R
  refresh_obstacle fuel ref ctx [] = ctx
  refresh_obstacle fuel ref ctx (obj ∷ objs) =
      let p = project_object_to_frenet fuel ref obj in
      if not (obj.id ==ℤ ctx.obstacle_id) then refresh_obstacle fuel ref ctx objs else record ctx {
        obstacle_s = p.s;
        obstacle_d = p.d;
        obstacle_width = obj.width;
        obstacle_length = obj.length;
      }

  abbrev pub clear_distance : AvoidConfig R → VehicleShape R → AvoidanceContext R → R
  clear_distance cfg shape ctx =
      decimal 5 1 * (shape.length + ctx.obstacle_length) + cfg.pass_clearance

  -- The phases of an active context, with `begin_avoidance`.
  pub advance_phase :
      AvoidConfig R → VehicleShape R → R → R → AvoidanceContext R → AvoidanceContext R × Bool
  advance_phase cfg shape s e ctx =
      let gap = ctx.obstacle_s - s in
      if is_tracking ctx.phase && (gap ≤ cfg.shift_start_distance)
      then (ctx, true)
      else if is_shift ctx.phase && (abs (e - ctx.target_d) ≤ cfg.lateral_tolerance)
      then (record ctx { phase = AvoidPhase.pass }, false)
      else if (is_shift ctx.phase || is_pass ctx.phase)
          && (gap < neg (clear_distance cfg shape ctx))
      then (no_avoidance, false)
      else (ctx, false)

  -- The distance that the collision filter looks ahead.
  abbrev pub collision_horizon : CurveSpeedConfig R → CollisionCheckConfig R → VehicleShape R → R
  collision_horizon curve collision shape =
      curve.target_vel * collision.reactive_lookahead + shape.length + collision.safety_margin

  abbrev pub acquisition_config :
      AvoidConfig R → CurveSpeedConfig R → CollisionCheckConfig R → VehicleShape R → AvoidConfig R
  acquisition_config cfg curve collision shape = record cfg {
    detection_distance = max cfg.detection_distance (collision_horizon curve collision shape);
  }

  -- A target becomes the tracked obstacle.
  abbrev pub acquire : AvoidanceContext R → Option (StaticObstacleTarget R) → AvoidanceContext R
  acquire ctx none = ctx
  acquire ctx (some target) = record ctx {
    active = true;
    obstacle_id = target.id;
    phase = AvoidPhase.tracking;
    obstacle_s = target.s;
    obstacle_d = target.d;
    obstacle_width = target.width;
    obstacle_length = target.length;
    target_d = target.avoidance_offset;
  }

  -- Both parts, in the order of Plan: an obstacle that is passed makes room for the next one in the
  -- same cycle.
  unfoldable pub update_avoidance :
      AvoidConfig R
      → VehicleShape R
      → R
      → R
      → (AvoidanceContext R → AvoidanceContext R)
      → Option (StaticObstacleTarget R)
      → AvoidanceContext R
      → AvoidanceContext R × Bool
  unfolding advance_phase
  update_avoidance cfg shape s e refresh target ctx =
      let (ctx', begin) =
        if ctx.active then advance_phase cfg shape s e (refresh ctx) else (ctx, false) in
      if ctx'.active then (ctx', begin) else (acquire ctx' target, begin)

  -- `choose_right` and `direction_found` of the comparison of the two sides: none if neither side
  -- has a valid candidate.
  unfoldable pub choose_side :
      AvoidConfig R → Option (FrenetPath R) → Option (FrenetPath R) → Option Bool
  choose_side cfg none none = none
  choose_side cfg none (some right) = some true
  choose_side cfg (some left) none = some false
  choose_side cfg (some left) (some right) =
      let tie_margin = max (num 1) (abs left.cost_total) * decimal 5 2 in
      some (
        (right.cost_total < left.cost_total)
        || (cfg.prefer_right_when_equal && (right.cost_total ≤ left.cost_total + tie_margin)))

  -- The context after the comparison: locked on a side, or as it was.
  unfoldable pub lock_side : R → R → Option Bool → AvoidanceContext R → AvoidanceContext R
  lock_side left_target right_target none ctx = ctx
  lock_side left_target right_target (some right) ctx = record ctx {
    target_d = if right then right_target else left_target;
    phase = AvoidPhase.shift;
  }
