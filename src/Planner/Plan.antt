-- ===== src/Planner/Plan.antt =====
-- FrenetPlanner::Plan of frenet_planner/src/frenet_planner/frenet_planner.cpp: the blocks of a cycle in
-- the order of the source. The result is the published path, or none, and the planner's new state.
pub mod Ends
pub mod Published
pub mod Invariant
use mpc_ws.Prelude.{
  subst, range_from, Mem-filter, ℕ, zero, suc, ◌≡◌, refl, sym, ap, ◌∙◌, ◌≢◌, ◌↔◌, ◌⊎◌, inl, inr,
  Bool, true, false, not, ◌&&◌, ◌||◌, Option, none, some, List, [], ◌∷◌, ◌++◌, map, arith, ltb, leb,
  ◌==◌, if◌then◌else◌, Bool-cases, Option-cases, is_some, true≢false, &&_split, length, get_elem?,
  get_or, last_or, head_or, drop, take, All, Any, length-map, All-map, All-of, iota, length-iota,
  filter, Mem, filter_map, Whenever, Mem-filter_map, All-filter_map, Any-map, is_empty, concat_map,
  Mem-append, Mem-map, Mem-concat_map, Any-Mem, All-Mem,
}
use mpc_ws.Double.{
  Double, ◌+◌, ◌-◌, ◌*◌, ◌/◌, ◌<◌, ◌≤◌, ◌>◌, ◌≥◌, neg, abs, decimal, num, max, min, clamp,
}
use mpc_ws.Double.Laws.{
  IsOrdered, IsExact, IsNumber, min_le_left, min_le_right, le_max_left, le_max_right, clamp_bounds,
  exact_limit,
}
use mpc_ws.Prelude.Int.{
  ℤ, pos, negsuc, minus_one, is_negative, ◌==ℤ◌, ==ℤ_iff, ltb_ℤ, leb_ℤ, ◌+ℤ◌, sub_ℕ, pos_part,
  neg_part,
}
use mpc_ws.Behavior.Decision.{candidates, reason}
use mpc_ws.Planner.AvoidPhases.{
  acquisition_config, collision_horizon, refresh_obstacle, update_avoidance,
}
use mpc_ws.Planner.Avoidance.{find_static_avoidance_target}
use mpc_ws.Planner.Command.{
  build_command, cross_speed_floor, is_merge_mode, lookahead_target_speed, planning_obstacles,
}
use mpc_ws.Planner.Config.{FollowingConfig}
use mpc_ws.Planner.Contexts.{
  AvoidanceContext, FollowingContext, MergeContext, MergePhase, find_highway_merge_zone,
  highway_checkpoint_at, is_highway, is_pass, is_shift, is_tracking,
}
use mpc_ws.Planner.Converter.{FrenetCoordinates, arc_deriv_to_time_deriv, cartesian_to_frenet}
use mpc_ws.Planner.Fallback.{plan_low_speed_fallback}
use mpc_ws.Planner.Follow.{sight_leader, update_following}
use mpc_ws.Planner.Generate.{Generated, generate}
use mpc_ws.Planner.Leader.{LeaderTarget, find_leader}
use mpc_ws.Planner.Locked.{LockedOutcome, plan_locked}
use mpc_ws.Planner.Merge.{find_gap, update_merge}
use mpc_ws.Planner.Merge.Commit.{CycleEnd, Extension, finish_cycle}
use mpc_ws.Planner.Settings.{PlannerSettings, PlannerState}
use mpc_ws.Planner.Tracks.{Observed, clip, update_tracks}
use mpc_ws.Planner.Types.{
  CartesianPath, CartesianState, FrenetState, ObjectInfo, PlanFailureReason, PlannerCommand,
}

-- The contexts after their blocks, with what the blocks hand on.
pub record Updated (R : Type 0) : Type 0 where
  pub avoidance : AvoidanceContext R
  pub begin_avoidance : Bool
  pub following : FollowingContext R
  pub nearest : Option (LeaderTarget R)
  pub merge : MergeContext R
  -- False where Plan ends for a highway zone that is missing.
  pub goes_on : Bool

abbrev pub PlanResult : Type 0 → Type 0
PlanResult R = Option (CartesianPath R) × PlannerState R

abbrev pub fail_with : {R : Type 0} → PlanFailureReason → PlannerState R → PlanResult R
fail_with reason st = (none, record st { last_failure_reason = reason })

module _ {R : Type 0} ⦃d : Double R⦄ (fuel : ℕ) (settings : PlannerSettings R) where
  abbrev pub boundary_margin : R
  boundary_margin = decimal 8 1

  -- The start of the candidates: the projected state, with what the projection may exaggerate cut off.
  unfoldable pub start_of : FrenetCoordinates R → FrenetState R
  start_of f =
      let (d_dot, d_ddot) = arc_deriv_to_time_deriv f.s_dot f.s_ddot f.d_prime f.d_pprime in
      let s_limit = settings.limits.max_longitudinal_accel * boundary_margin in
      let d_limit = settings.limits.max_lateral_accel * boundary_margin in
      record {
        s = f.s;
        s_d = f.s_dot;
        s_dd = clip f.s_ddot (neg settings.limits.max_longitudinal_accel * boundary_margin) s_limit;
        d = f.d;
        d_d = clip d_dot (neg (decimal 5 1)) (decimal 5 1);
        d_dd = clip d_ddot (neg settings.limits.max_lateral_accel * boundary_margin) d_limit;
      }

  -- `near_any_merge`: no fallback near a conflict point.
  unfoldable pub near_any_merge : R → MergeContext R → Bool
  near_any_merge s merge =
      let cfg = settings.merge_cfg in
      let gap = cfg.conflict_s - s in
      ((cfg.conflict_s ≥ num 0)
        && (gap ≥ neg cfg.completion_distance)
        && (gap ≤ cfg.approach_distance))
      || not (is_negative (find_highway_merge_zone settings.highway_merge_cfg s))
      || merge.active

  -- The lateral target of the fallback.
  unfoldable pub fallback_target : R → AvoidanceContext R → R
  fallback_target s avoidance =
      let tracking_near =
        avoidance.active
        && is_tracking avoidance.phase
        && (avoidance.obstacle_s - s ≤ settings.avoid_cfg.shift_start_distance) in
      if avoidance.active && (tracking_near || is_shift avoidance.phase || is_pass avoidance.phase)
      then avoidance.target_d
      else num 0

  -- `effective_following_cfg`
  abbrev pub effective_following : FollowingConfig R
  effective_following = record settings.following_cfg {
    max_leader_search_s =
        max settings.following_cfg.max_leader_search_s (
          collision_horizon settings.curve_speed_cfg settings.collision_cfg settings.vehicle_shape);
  }

  -- The blocks of AVOID, FOLLOWING and MERGE.
  unfoldable pub update_contexts :
      FrenetState R
      → R
      → List (ObjectInfo R)
      → Observed R
      → AvoidanceContext R
      → FollowingContext R
      → MergeContext R
      → Updated R
  update_contexts start ego_v obstacles observed old_avoidance old_following old_merge =
      let ref = settings.ref in
      let target =
        find_static_avoidance_target fuel ref start obstacles settings.lane_width
          settings.vehicle_shape
          (acquisition_config settings.avoid_cfg settings.curve_speed_cfg settings.collision_cfg
            settings.vehicle_shape) in
      let (avoidance, begin) =
        update_avoidance settings.avoid_cfg settings.vehicle_shape start.s start.d
          (λ ctx. refresh_obstacle fuel ref ctx obstacles) target old_avoidance in
      let nearest = find_leader fuel ref start obstacles settings.lane_width effective_following in
      let sighting =
        sight_leader fuel ref start.s settings.following_cfg effective_following.max_leader_search_s
          settings.lane_width old_following.leader_id obstacles in
      let (merge, goes_on) =
        update_merge settings.merge_cfg settings.highway_merge_cfg settings.collision_cfg start.s
          ego_v settings.limits.max_longitudinal_accel
          (find_gap fuel ref start observed.predicted settings.merge_cfg settings.highway_merge_cfg
            settings.vehicle_shape settings.collision_cfg ego_v
            settings.limits.max_longitudinal_accel (some observed.rates))
          old_merge in
      record {
        avoidance = avoidance;
        begin_avoidance = begin;
        following = update_following start.s settings.following_cfg sighting nearest old_following;
        nearest = nearest;
        merge = merge;
        goes_on = goes_on;
      }

  unfoldable pub command_of : FrenetState R → R → Updated R → PlannerCommand R
  command_of start ego_v u =
      build_command settings.merge_cfg settings.highway_merge_cfg settings.following_cfg
        (lookahead_target_speed settings.ref start.s ego_v settings.curve_speed_cfg
          settings.limits.max_longitudinal_accel settings.limits.max_lateral_accel
          settings.limits.max_curvature)
        u.begin_avoidance u.avoidance u.merge u.following u.nearest

  -- `active_merge_completion_distance`
  unfoldable pub completion_distance : MergeContext R → R
  completion_distance merge =
      elim (if is_highway merge.type
        then highway_checkpoint_at settings.highway_merge_cfg merge.highway_zone_index
            merge.highway_conflict_index
        else none) [
          | none ↦ settings.merge_cfg.completion_distance
          | some checkpoint ↦ checkpoint.clear_s - checkpoint.conflict_s
        ]

  abbrev pub extension_of : PlannerCommand R → MergeContext R → Extension R
  extension_of cmd merge = record {
    conflict_s = cmd.merge_conflict_s;
    completion_distance = completion_distance merge;
    target_speed =
        max cmd.target_speed
          (cross_speed_floor settings.merge_cfg settings.highway_merge_cfg merge);
    dt = settings.path_cfg.dt;
  }

  -- The state after the contexts are updated.
  abbrev pub with_contexts : Updated R → PlannerState R → PlannerState R
  with_contexts u st = record st {
    avoidance = u.avoidance;
    following = u.following;
    merge = u.merge;
  }

  abbrev pub end_plan : CycleEnd R → PlannerState R → PlanResult R
  end_plan (CycleEnd.publish path merge) st = (some path, record st { merge = merge })
  end_plan (CycleEnd.failure reason merge) st = fail_with reason (record st { merge = merge })

  -- The candidates of this cycle.
  abbrev pub generated_of : FrenetState R → R → Observed R → Updated R → Generated R
  generated_of start ego_v observed u =
      generate fuel settings start
        (planning_obstacles u.avoidance u.begin_avoidance observed.predicted) u.begin_avoidance
        (command_of start ego_v u) u.avoidance

  -- From the candidates to the end.
  unfoldable pub finish_plan :
      FrenetState R → R → Observed R → Updated R → PlannerState R → PlanResult R
  finish_plan start ego_v observed u st =
      let g = generated_of start ego_v observed u in
      let is_merge = is_merge_mode g.cmd.mode in
      end_plan
        (finish_cycle fuel settings.ref (extension_of g.cmd u.merge) observed.predicted
          settings.vehicle_shape settings.collision_cfg start.s g.cmd.merge_stop_s is_merge
          g.stats.combined_valid_after_curvature g.stats.combined_valid_after_collision g.candidates
          u.merge)
        (record st {
          avoidance = g.avoidance;
          prev_mode = g.cmd.mode;
          prev_merge_phase = if is_merge then u.merge.phase else MergePhase.clear;
        })

  -- From the start state on.
  unfoldable pub plan_candidates :
      FrenetState R → R → List (ObjectInfo R) → Observed R → PlannerState R → PlanResult R
  plan_candidates start ego_v obstacles observed st =
      let u = update_contexts start ego_v obstacles observed st.avoidance st.following st.merge in
      if u.goes_on
      then finish_plan start ego_v observed u (with_contexts u st)
      else (none, with_contexts u st)

  -- The fallback at a low speed, or the candidates.
  unfoldable pub plan_cycle :
      CartesianState R
      → FrenetCoordinates R
      → List (ObjectInfo R)
      → Observed R
      → Bool
      → PlannerState R
      → PlanResult R
  plan_cycle ego f obstacles observed near_merge st =
      if (abs ego.v < decimal 5 1) && not near_merge
      then (
        some (
            plan_low_speed_fallback fuel settings.ref settings.path_cfg.dt ego f.s f.d
              (fallback_target f.s st.avoidance) (num 2)),
        st,
      )
      else plan_candidates (start_of f) ego.v obstacles observed (record st {
        last_d_dot = (arc_deriv_to_time_deriv f.s_dot f.s_ddot f.d_prime f.d_pprime).0;
      })

  -- What follows the COMMIT block.
  unfoldable pub after_locked :
      CartesianState R
      → FrenetCoordinates R
      → List (ObjectInfo R)
      → Observed R
      → Bool
      → PlannerState R
      → LockedOutcome R
      → PlanResult R
  after_locked ego f obstacles observed near_merge st (LockedOutcome.follow path merge) =
      (some path, record st { merge = merge })
  after_locked ego f obstacles observed near_merge st (LockedOutcome.fail reason merge) =
      fail_with reason (record st { merge = merge })
  after_locked ego f obstacles observed near_merge st (LockedOutcome.go_on merge) =
      plan_cycle ego f obstacles observed near_merge (record st { merge = merge })

  unfoldable pub plan : CartesianState R → List (ObjectInfo R) → PlannerState R → PlanResult R
  plan ego obstacles st =
      let f = cartesian_to_frenet fuel settings.ref ego st.last_s in
      let observed = update_tracks st.object_tracks obstacles in
      let seen : PlannerState R = record st {
        last_failure_reason = PlanFailureReason.none;
        last_s = some f.s;
        last_d = f.d;
        object_tracks = observed.tracks;
      } in
      if not st.ref_loaded
      then fail_with PlanFailureReason.not_initialized st
      else after_locked ego f obstacles observed (near_any_merge f.s st.merge) seen (
          plan_locked settings.merge_cfg settings.highway_merge_cfg settings.vehicle_shape
            settings.collision_cfg settings.path_cfg.dt f.s ego.x ego.y observed.predicted st.merge)
