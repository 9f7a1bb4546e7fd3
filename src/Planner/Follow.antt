-- ===== src/Planner/Follow.antt =====
-- The FOLLOWING context of Plan (frenet_planner/src/frenet_planner/frenet_planner.cpp): keeping the
-- leader through gaps in the object data, handing over to a nearer vehicle, and taking a new one.
pub mod Leadership
use mpc_ws.Prelude.{
  ℕ, zero, suc, ◌≡◌, refl, sym, ap, ◌∙◌, ◌≢◌, ◌↔◌, ◌⊎◌, inl, inr, Bool, true, false, not, ◌&&◌,
  ◌||◌, Option, none, some, List, [], ◌∷◌, ◌++◌, map, arith, ltb, leb, ◌==◌, if◌then◌else◌,
  Bool-cases, Option-cases, is_some, true≢false, &&_split, length, get_elem?, get_or, last_or,
  head_or, drop, take, All, Any, length-map, All-map, All-of, iota, length-iota, filter, Mem,
  filter_map, Whenever, Mem-filter_map, All-filter_map, Any-map,
}
use mpc_ws.Double.{
  Double, ◌+◌, ◌-◌, ◌*◌, ◌/◌, ◌<◌, ◌≤◌, ◌>◌, ◌≥◌, neg, abs, decimal, num, max, min, clamp,
}
use mpc_ws.Double.Laws.{
  IsOrdered, IsExact, IsNumber, min_le_left, min_le_right, le_max_left, le_max_right, clamp_bounds,
  exact_limit,
}
use mpc_ws.Prelude.Int.{ℤ, pos, negsuc, minus_one, is_negative, ◌==ℤ◌, ==ℤ_iff, ltb_ℤ, leb_ℤ, ◌+ℤ◌}
use mpc_ws.Planner.Config.{FollowingConfig}
use mpc_ws.Planner.Contexts.{FollowingContext, no_following}
use mpc_ws.Planner.Leader.{LeaderTarget, gap_ahead, project_object_to_frenet, track_length}
use mpc_ws.Planner.Types.{ObjectInfo, RefLine}

-- What the frame says of the leader: nothing, that it is no leader any more, or where it is.
pub data Sighting (R : Type 0) : Type 0 where
  unseen : Sighting R
  lost : Sighting R
  kept : R → R → R → Sighting R

module _ {R : Type 0} ⦃d : Double R⦄ where
  -- The loop over the obstacles, which ends at the leader.
  pub sight_leader :
      ℕ → RefLine R → R → FollowingConfig R → R → R → ℤ → List (ObjectInfo R) → Sighting R
  sight_leader fuel ref s cfg search lane_width leader_id [] = Sighting.unseen
  sight_leader fuel ref s cfg search lane_width leader_id (obj ∷ objs) =
      let p = project_object_to_frenet fuel ref obj in
      let gap = gap_ahead (track_length ref) s p.s in
      let same_direction = p.s_dot > cfg.min_leader_speed in
      let same_lane = abs p.d ≤ lane_width * decimal 5 1 in
      let in_range = (gap > num 0) && (gap ≤ search + cfg.exit_search_margin) in
      if not (obj.id ==ℤ leader_id)
      then sight_leader fuel ref s cfg search lane_width leader_id objs
      else if same_direction && same_lane && in_range
      then Sighting.kept (s + gap) p.d p.s_dot
      else Sighting.lost

  -- The context after the sighting: the leader's new place, none, or its place as predicted for
  -- `dropout_grace_cycles` cycles.
  pub hold_leader : FollowingConfig R → Sighting R → FollowingContext R → FollowingContext R
  hold_leader cfg (Sighting.kept leader_s leader_d speed) ctx = record ctx {
    leader_s = leader_s;
    leader_d = leader_d;
    leader_speed = speed;
    leader_accel = num 0;
    missing_cycles = 0;
  }
  hold_leader cfg Sighting.lost ctx = no_following
  hold_leader cfg Sighting.unseen ctx =
      if leb (suc ctx.missing_cycles) cfg.dropout_grace_cycles
      then record ctx {
        missing_cycles = suc ctx.missing_cycles;
        leader_s = ctx.leader_s + ctx.leader_speed * decimal 5 2;
      }
      else no_following

  -- The context with another vehicle as the leader.
  abbrev pub lead : FollowingContext R → LeaderTarget R → FollowingContext R
  lead ctx leader = record ctx {
    leader_id = leader.id;
    leader_s = leader.s;
    leader_d = leader.d;
    leader_speed = leader.speed;
    leader_accel = leader.accel;
    missing_cycles = 0;
  }

  -- A nearer vehicle takes over only if it is nearer by the margin.
  pub hand_over :
      R → FollowingConfig R → Option (LeaderTarget R) → FollowingContext R → FollowingContext R
  hand_over s cfg none ctx = ctx
  hand_over s cfg (some nearest) ctx =
      if ctx.active
        && not (nearest.id ==ℤ ctx.leader_id)
        && (nearest.s - s + cfg.leader_switch_margin < ctx.leader_s - s)
      then lead ctx nearest
      else ctx

  pub take_leader : Option (LeaderTarget R) → FollowingContext R → FollowingContext R
  take_leader none ctx = ctx
  take_leader (some nearest) ctx =
      if ctx.active then ctx else record (lead ctx nearest) { active = true }

  unfoldable pub update_following :
      R
      → FollowingConfig R
      → Sighting R
      → Option (LeaderTarget R)
      → FollowingContext R
      → FollowingContext R
  unfolding hold_leader hand_over take_leader
  update_following s cfg sighting nearest ctx =
      take_leader nearest
        (hand_over s cfg nearest (if ctx.active then hold_leader cfg sighting ctx else ctx))
