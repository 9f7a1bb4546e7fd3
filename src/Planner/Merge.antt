-- ===== src/Planner/Merge.antt =====
-- The MERGE context of Plan (frenet_planner/src/frenet_planner/frenet_planner.cpp): which merge is
-- requested, its activation, the countdown of a locked gap, and the evaluation of a new one.
pub mod Commit
pub mod Phases
pub mod Reachable
use mpc_ws.Prelude.{
  range_from, ℕ, zero, suc, ◌≡◌, refl, sym, ap, ◌∙◌, ◌≢◌, ◌↔◌, ◌⊎◌, inl, inr, Bool, true, false,
  not, ◌&&◌, ◌||◌, Option, none, some, List, [], ◌∷◌, ◌++◌, map, arith, ltb, leb, ◌==◌,
  if◌then◌else◌, Bool-cases, Option-cases, is_some, true≢false, &&_split, length, get_elem?, get_or,
  last_or, head_or, drop, take, All, Any, length-map, All-map, All-of, iota, length-iota, filter,
  Mem, filter_map, Whenever, Mem-filter_map, All-filter_map, Any-map,
}
use mpc_ws.Double.{
  Double, ◌+◌, ◌-◌, ◌*◌, ◌/◌, ◌<◌, ◌≤◌, ◌>◌, ◌≥◌, neg, abs, decimal, num, max, min, clamp,
}
use mpc_ws.Double.Laws.{
  IsOrdered, IsExact, IsNumber, min_le_left, min_le_right, le_max_left, le_max_right, clamp_bounds,
  exact_limit,
}
use mpc_ws.Prelude.Int.{ℤ, pos, negsuc, minus_one, is_negative, ◌==ℤ◌, ==ℤ_iff, ltb_ℤ, leb_ℤ, ◌+ℤ◌}
use mpc_ws.Planner.Config.{HighwayMergeCheckpoint, HighwayMergeConfig, MergeConfig}
use mpc_ws.Planner.Contexts.{
  MergeContext, MergePhase, find_highway_merge_zone, highway_checkpoint_at, highway_zone_at,
  is_highway, is_none, is_roundabout, no_merge,
}
use mpc_ws.Planner.Gap.{RoundaboutGap, find_roundabout_gap}
use mpc_ws.Planner.Gap.Highway.{find_highway_merge_gap}
use mpc_ws.Planner.Locked.{next_checkpoint}
use mpc_ws.Planner.Types.{
  CollisionCheckConfig, FrenetState, MergeType, ObjectInfo, RefLine, VehicleShape, empty_path,
}

abbrev pub request_of : Bool → Bool → MergeType
request_of true highway = MergeType.roundabout
request_of false true = MergeType.highway
request_of false false = MergeType.none

module _ {R : Type 0} ⦃d : Double R⦄ where
  -- The distance at which the roundabout is approached: ego's braking distance at least.
  abbrev pub dynamic_roundabout_approach : MergeConfig R → CollisionCheckConfig R → R → R → R
  dynamic_roundabout_approach cfg collision ego_v max_accel =
      let braking_distance = ego_v * ego_v / (num 2 * max max_accel (decimal 1 1)) in
      max cfg.approach_distance (ego_v * collision.reactive_lookahead + braking_distance + num 5)

  unfoldable pub roundabout_window : MergeConfig R → CollisionCheckConfig R → R → R → R → Bool
  roundabout_window cfg collision s ego_v max_accel =
      let gap = cfg.conflict_s - s in
      (cfg.conflict_s ≥ num 0)
      && (gap ≥ neg cfg.completion_distance)
      && (gap ≤ dynamic_roundabout_approach cfg collision ego_v max_accel)

  -- `requested_merge_type`
  unfoldable pub requested_merge_type : MergeContext R → Bool → Bool → MergeType
  requested_merge_type ctx in_roundabout in_highway =
      if ctx.active && not (is_none ctx.type) then ctx.type else request_of in_roundabout in_highway

  -- `in_merge_approach`
  unfoldable pub in_merge_approach :
      MergeConfig R → HighwayMergeConfig R → R → MergeContext R → Bool → Bool → Bool
  unfolding highway_zone_at requested_merge_type
  in_merge_approach cfg hcfg s ctx in_roundabout in_highway =
      let requested = requested_merge_type ctx in_roundabout in_highway in
      let before_end = elim (highway_zone_at hcfg ctx.highway_zone_index) as (λ _. Bool) [
        | none ↦ false
        | some zone ↦ s ≤ zone.completion_s
      ] in
      (is_roundabout requested
        && (in_roundabout || (ctx.active && (cfg.conflict_s - s ≥ neg cfg.completion_distance))))
      || (is_highway requested && (if ctx.active then before_end else in_highway))

  -- A context that is not active starts afresh.
  abbrev pub activate : MergeType → ℤ → MergeContext R → MergeContext R
  activate requested zone ctx = if ctx.active then ctx else record no_merge {
    active = true;
    type = requested;
    highway_zone_index = if is_highway requested then zone else minus_one;
  }

  abbrev pub cycle : R
  cycle = decimal 5 2

  -- A time that a cycle less remains of, kept at `-1` where there is none.
  abbrev pub count_down : R → R
  count_down t = max (num 0) (t - cycle)

  abbrev pub count_down_if : R → R
  count_down_if t = if t ≥ num 0 then count_down t else t

  abbrev pub hold_gap : MergeContext R → MergeContext R
  hold_gap ctx = record ctx {
    commit_pending = false;
    entry_time = count_down ctx.entry_time;
    preceding_time = count_down_if ctx.preceding_time;
    following_time = count_down_if ctx.following_time;
    gap_safe = true;
  }

  -- The locked gap, and the conflict point once it is reached: the next checkpoint of the zone, or
  -- the crossing.
  abbrev pub to_next_checkpoint : MergeContext R → MergeContext R
  to_next_checkpoint ctx = record ctx {
    highway_conflict_index = ctx.highway_conflict_index +ℤ pos 1;
    gap_locked = false;
    gap_safe = false;
    safe_cycles = 0;
    phase = MergePhase.approach;
    locked_path = empty_path;
    locked_elapsed = num 0;
    locked_path_index = 0;
    preceding_id = minus_one;
    following_id = minus_one;
    preceding_time = neg (num 1);
    following_time = neg (num 1);
  }

  unfoldable pub locked_gap : HighwayMergeConfig R → R → R → MergeContext R → MergeContext R
  locked_gap hcfg s active_conflict_s ctx =
      if s ≥ active_conflict_s
      then elim (next_checkpoint hcfg ctx) [
        | some next ↦ to_next_checkpoint (hold_gap ctx)
        | none ↦ record (hold_gap ctx) { phase = MergePhase.cross }
      ]
      else hold_gap ctx

  -- The gap of this cycle, with the number of cycles in a row in which it is the same safe one.
  abbrev pub take_gap : RoundaboutGap R → MergeContext R → MergeContext R
  take_gap gap ctx =
      let same_gap =
        (ctx.preceding_id ==ℤ gap.preceding_id) && (ctx.following_id ==ℤ gap.following_id) in
      record ctx {
        safe_cycles =
            if gap.confirmed && gap.safe then (if same_gap then suc ctx.safe_cycles else 1) else 0;
        gap_safe = gap.safe;
        entry_time = gap.entry_time;
        clear_time = gap.clear_time;
        preceding_id = gap.preceding_id;
        preceding_time = gap.preceding_time;
        following_id = gap.following_id;
        following_time = gap.following_time;
        crossing_vehicle_count = gap.crossing_vehicle_count;
      }

  unfoldable pub judge_gap : R → R → ℕ → RoundaboutGap R → MergeContext R → MergeContext R
  judge_gap conflict_gap commit_distance confirm_cycles gap ctx =
      let next = take_gap gap ctx in
      if conflict_gap > commit_distance
      then record next {
        phase = MergePhase.approach;
        gap_safe = not gap.confirmed || gap.safe;
        commit_pending = false;
      }
      else if gap.confirmed && gap.safe && leb confirm_cycles next.safe_cycles
      then record next { phase = MergePhase.wait; commit_pending = true }
      else record next { phase = MergePhase.wait; gap_safe = false; commit_pending = false }

  -- The gap that the selectors find, for the type of the merge.
  pub find_gap :
      ℕ
      → RefLine R
      → FrenetState R
      → List (ObjectInfo R)
      → MergeConfig R
      → HighwayMergeConfig R
      → VehicleShape R
      → CollisionCheckConfig R
      → R
      → R
      → Option (List (ℤ × R))
      → Option (HighwayMergeCheckpoint R)
      → RoundaboutGap R
  unfolding find_highway_merge_gap find_roundabout_gap
  find_gap fuel ref start objs cfg hcfg shape collision ego_v max_accel yaw_rates
        (some checkpoint) =
      find_highway_merge_gap fuel ref start objs hcfg checkpoint shape collision
        (max hcfg.cross_speed_floor ego_v) max_accel
  find_gap fuel ref start objs cfg hcfg shape collision ego_v max_accel yaw_rates none =
      find_roundabout_gap fuel ref start objs cfg (max cfg.cross_speed_floor ego_v) max_accel
        yaw_rates

  -- An active context in its approach: the checkpoint of a highway merge, or none of a roundabout.
  unfoldable pub advance_merge :
      MergeConfig R
      → HighwayMergeConfig R
      → R
      → (Option (HighwayMergeCheckpoint R) → RoundaboutGap R)
      → Option (HighwayMergeCheckpoint R)
      → MergeContext R
      → MergeContext R
  unfolding locked_gap judge_gap
  advance_merge cfg hcfg s gap_at none ctx =
      if ctx.gap_locked
      then locked_gap hcfg s cfg.conflict_s ctx
      else judge_gap (cfg.conflict_s - s) cfg.commit_distance cfg.safe_confirm_cycles (gap_at none)
          ctx
  advance_merge cfg hcfg s gap_at (some checkpoint) ctx =
      if ctx.gap_locked
      then locked_gap hcfg s checkpoint.conflict_s ctx
      else judge_gap (checkpoint.conflict_s - s) hcfg.commit_distance hcfg.safe_confirm_cycles
          (gap_at (some checkpoint)) ctx

  -- The MERGE block: the context after it, and whether Plan goes on (it ends with a failure when the
  -- zone of an active highway merge is missing).
  unfoldable pub update_merge :
      MergeConfig R
      → HighwayMergeConfig R
      → CollisionCheckConfig R
      → R
      → R
      → R
      → (Option (HighwayMergeCheckpoint R) → RoundaboutGap R)
      → MergeContext R
      → MergeContext R × Bool
  unfolding roundabout_window requested_merge_type in_merge_approach advance_merge
      highway_checkpoint_at find_highway_merge_zone
  update_merge cfg hcfg collision s ego_v max_accel gap_at ctx =
      let zone = find_highway_merge_zone hcfg s in
      let in_roundabout = roundabout_window cfg collision s ego_v max_accel in
      let in_highway = not (is_negative zone) in
      let next = activate (requested_merge_type ctx in_roundabout in_highway) zone ctx in
      let checkpoint =
        highway_checkpoint_at hcfg next.highway_zone_index next.highway_conflict_index in
      if not (in_merge_approach cfg hcfg s ctx in_roundabout in_highway)
      then (no_merge, true)
      else if not (is_highway next.type)
      then (advance_merge cfg hcfg s gap_at none next, true)
      else if not (is_some checkpoint)
      then (no_merge, false)
      else (advance_merge cfg hcfg s gap_at checkpoint next, true)
