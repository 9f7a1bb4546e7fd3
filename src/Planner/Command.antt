-- ===== src/Planner/Command.antt =====
-- The command of a cycle (frenet_planner/src/frenet_planner/frenet_planner.cpp): the mode with its
-- fields, the speed for the curves ahead, and the obstacles that the candidates are checked against.
pub mod Modes
use mpc_ws.Prelude.{
  range_from, ℕ, zero, suc, ◌≡◌, refl, sym, ap, ◌∙◌, ◌≢◌, ◌↔◌, ◌⊎◌, inl, inr, Bool, true, false,
  not, ◌&&◌, ◌||◌, Option, none, some, List, [], ◌∷◌, ◌++◌, map, arith, ltb, leb, ◌==◌,
  if◌then◌else◌, Bool-cases, Option-cases, is_some, true≢false, &&_split, length, get_elem?, get_or,
  last_or, head_or, drop, take, All, Any, length-map, All-map, All-of, iota, length-iota, filter,
  Mem, filter_map, Whenever, Mem-filter_map, All-filter_map, Any-map,
}
use mpc_ws.Double.{
  Double, ◌+◌, ◌-◌, ◌*◌, ◌/◌, ◌<◌, ◌≤◌, ◌>◌, ◌≥◌, neg, abs, decimal, num, max, min, clamp,
}
use mpc_ws.Double.Laws.{
  IsOrdered, IsExact, IsNumber, min_le_left, min_le_right, le_max_left, le_max_right, clamp_bounds,
  exact_limit,
}
use mpc_ws.Prelude.Int.{ℤ, pos, negsuc, minus_one, is_negative, ◌==ℤ◌, ==ℤ_iff, ltb_ℤ, leb_ℤ, ◌+ℤ◌}
use mpc_ws.Planner.Config.{CurveSpeedConfig, FollowingConfig, HighwayMergeConfig, MergeConfig}
use mpc_ws.Planner.Contexts.{
  AvoidanceContext, FollowingContext, MergeContext, is_cross, is_highway, is_pass, is_shift,
  is_tracking,
}
use mpc_ws.Planner.Leader.{LeaderTarget, track_length}
use mpc_ws.Planner.Locked.{context_conflict_s, context_stop_buffer}
use mpc_ws.Planner.Tracks.{clip}
use mpc_ws.Planner.Types.{BehaviorState, MergeType, ObjectInfo, PlannerCommand, RefLine, RefPoint}

abbrev pub is_merge_mode : BehaviorState → Bool
is_merge_mode BehaviorState.merge = true
is_merge_mode _ = false

module _ {R : Type 0} ⦃d : Double R⦄ where
  -- PlannerCommand{}
  abbrev pub no_command : PlannerCommand R
  no_command = record {
    mode = BehaviorState.lane_keeping;
    target_lane = pos 0;
    avoidance_d_offset = num 0;
    target_speed = num 0;
    stop_position = num 0;
    leader_id = pos 0;
    leader_s = num 0;
    leader_speed = num 0;
    leader_accel = num 0;
    time_gap = num 0;
    min_gap = num 0;
    gap_gain = num 0;
    merge_sa_s = num 0;
    merge_sa_id = pos 0;
    merge_sa_speed = num 0;
    merge_sa_accel = num 0;
    merge_sb_s = num 0;
    merge_sb_id = pos 0;
    merge_sb_speed = num 0;
    merge_sb_accel = num 0;
    merge_target_d = num 0;
    merge_gap_safe = false;
    merge_conflict_s = num 0;
    merge_stop_s = num 0;
    merge_entry_time = num 0;
    merge_committed = false;
    merge_crossing = false;
    merge_type = MergeType.none;
  }

  unfoldable pub velocity_from_curvature : R → CurveSpeedConfig R → R → R
  velocity_from_curvature k cfg max_lateral_accel =
      let v_curve = d.sqrt (max_lateral_accel * decimal 8 1 / max k (decimal 1 4)) in
      clip v_curve (num 0) cfg.target_vel

  -- The greatest curvature of the points that the test takes.
  unfoldable pub max_curvature_in : (RefPoint R → Bool) → List (RefPoint R) → R → R
  max_curvature_in in_range [] max_k = max_k
  max_curvature_in in_range (p ∷ points) max_k =
      max_curvature_in in_range points (if in_range p then max max_k (abs p.kappa) else max_k)

  abbrev pub lookahead_distance : R → CurveSpeedConfig R → R → R → R → R
  lookahead_distance ego_speed cfg max_longitudinal_accel max_lateral_accel max_curvature =
      let usable_decel = max (decimal 5 1) (max_longitudinal_accel * decimal 5 1) in
      let v_floor = velocity_from_curvature max_curvature cfg max_lateral_accel in
      let speed_drop = max (num 0) (ego_speed * ego_speed - v_floor * v_floor) in
      let required_dist = speed_drop / (num 2 * usable_decel) in
      max cfg.curve_lookahead_m (required_dist + num 5)

  -- The part of the closed track ahead, across its seam.
  abbrev pub is_ahead : R → R → R → RefPoint R → Bool
  is_ahead s_max s_start_w s_end_w p =
      if s_end_w ≤ s_max
      then (p.s ≥ s_start_w) && (p.s ≤ s_end_w)
      else (p.s ≥ s_start_w) || (p.s ≤ s_end_w - s_max)

  unfoldable pub lookahead_target_speed : RefLine R → R → R → CurveSpeedConfig R → R → R → R → R
  lookahead_target_speed ref s_start ego_speed cfg max_longitudinal_accel max_lateral_accel
        max_curvature =
      let s_max = track_length ref in
      let s_start_w = let m = d.fmod s_start s_max in if m < num 0 then m + s_max else m in
      let s_end_w =
        s_start_w
        + lookahead_distance ego_speed cfg max_longitudinal_accel max_lateral_accel max_curvature in
      velocity_from_curvature
        (max_curvature_in (is_ahead s_max s_start_w s_end_w) ref.points (num 0)) cfg
        max_lateral_accel

  abbrev pub with_leader :
      FollowingConfig R → Option (LeaderTarget R) → PlannerCommand R → PlannerCommand R
  with_leader cfg none cmd = record cmd { leader_id = minus_one }
  with_leader cfg (some leader) cmd = record cmd {
    leader_id = leader.id;
    leader_s = leader.s;
    leader_speed = leader.speed;
    leader_accel = leader.accel;
    time_gap = cfg.time_gap;
    min_gap = cfg.min_gap;
    gap_gain = cfg.gap_gain;
  }

  abbrev pub avoid_command : AvoidanceContext R → PlannerCommand R
  avoid_command avoidance = record no_command {
    mode = BehaviorState.avoid;
    avoidance_d_offset =
        if is_shift avoidance.phase || is_pass avoidance.phase then avoidance.target_d else num 0;
  }

  abbrev pub merge_command :
      MergeConfig R
      → HighwayMergeConfig R
      → FollowingConfig R
      → MergeContext R
      → Option (LeaderTarget R)
      → PlannerCommand R
  merge_command cfg hcfg following_cfg ctx nearest =
      let active_conflict_s = context_conflict_s cfg hcfg ctx in
      with_leader following_cfg nearest (record no_command {
        mode = BehaviorState.merge;
        target_lane = pos 0;
        merge_target_d = num 0;
        merge_gap_safe = ctx.gap_safe;
        merge_conflict_s = active_conflict_s;
        merge_stop_s = active_conflict_s - context_stop_buffer cfg hcfg ctx;
        merge_entry_time = ctx.entry_time;
        merge_sa_id = ctx.preceding_id;
        merge_sb_id = ctx.following_id;
        merge_committed = ctx.gap_locked || ctx.commit_pending;
        merge_crossing = is_cross ctx.phase;
        merge_type = ctx.type;
      })

  abbrev pub following_command : FollowingConfig R → FollowingContext R → PlannerCommand R
  following_command cfg following = record no_command {
    mode = BehaviorState.following;
    leader_id = following.leader_id;
    leader_s = following.leader_s;
    leader_speed = following.leader_speed;
    leader_accel = following.leader_accel;
    time_gap = cfg.time_gap;
    min_gap = cfg.min_gap;
    gap_gain = cfg.gap_gain;
  }

  -- The command but for its speed, by the priority of the modes.
  unfoldable pub mode_command :
      MergeConfig R
      → HighwayMergeConfig R
      → FollowingConfig R
      → Bool
      → AvoidanceContext R
      → MergeContext R
      → FollowingContext R
      → Option (LeaderTarget R)
      → PlannerCommand R
  mode_command cfg hcfg following_cfg begin_avoidance avoidance merge following nearest =
      if begin_avoidance || (avoidance.active && not (is_tracking avoidance.phase))
      then avoid_command avoidance
      else if merge.active
      then merge_command cfg hcfg following_cfg merge nearest
      else if following.active
      then following_command following_cfg following
      else no_command

  abbrev pub cross_speed_floor : MergeConfig R → HighwayMergeConfig R → MergeContext R → R
  cross_speed_floor cfg hcfg ctx =
      if is_highway ctx.type then hcfg.cross_speed_floor else cfg.cross_speed_floor

  unfoldable pub build_command :
      MergeConfig R
      → HighwayMergeConfig R
      → FollowingConfig R
      → R
      → Bool
      → AvoidanceContext R
      → MergeContext R
      → FollowingContext R
      → Option (LeaderTarget R)
      → PlannerCommand R
  unfolding mode_command
  build_command cfg hcfg following_cfg curve_speed begin_avoidance avoidance merge following
        nearest =
      let cmd =
        mode_command cfg hcfg following_cfg begin_avoidance avoidance merge following nearest in
      record cmd {
        target_speed =
            if is_merge_mode cmd.mode && is_cross merge.phase
            then max curve_speed (cross_speed_floor cfg hcfg merge)
            else curve_speed;
      }

  -- `planning_obstacles`: a tracked obstacle that is still far is left out.
  unfoldable pub planning_obstacles :
      AvoidanceContext R → Bool → List (ObjectInfo R) → List (ObjectInfo R)
  planning_obstacles avoidance begin_avoidance obstacles =
      if avoidance.active && is_tracking avoidance.phase && not begin_avoidance
      then filter (λ obj. not (obj.id ==ℤ avoidance.obstacle_id)) obstacles
      else obstacles
