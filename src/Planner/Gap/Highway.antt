-- ===== src/Planner/Gap/Highway.antt =====
-- FindHighwayMergeGap: the first entry time at which the whole way through the conflict zone is
-- clear and the vehicles before and behind keep their distances.
pub mod Sides
pub mod Merging
use mpc_ws.Prelude.{
  ℕ, suc, Bool, true, not, ◌&&◌, ◌||◌, some, List, [], ◌∷◌, ltb, ◌==◌, if◌then◌else◌, is_some,
  length,
}
use mpc_ws.Double.{Double, ◌+◌, ◌-◌, ◌*◌, ◌/◌, ◌<◌, ◌≤◌, ◌>◌, ◌≥◌, neg, abs, decimal, num, max, min}
use mpc_ws.Prelude.Int.{ℤ, minus_one, is_negative}
use mpc_ws.Double.Steps.{steps}
use mpc_ws.Planner.Collision.{first_coast_hit, make_ego_box, make_obstacle_box, no_exemption}
use mpc_ws.Planner.Config.{HighwayMergeCheckpoint, HighwayMergeConfig}
use mpc_ws.Planner.Gap.{RoundaboutGap, entry_speed, minimum_travel_time, no_gap}
use mpc_ws.Planner.RefLine.{find_closest_s, interpolate}
use mpc_ws.Planner.Types.{
  CartesianState, CollisionCheckConfig, FrenetState, ObjectInfo, OrientedBox, RefLine, VehicleShape,
}

-- The nearest vehicles before and behind the point where the zone is clear.
pub record Flanks (R : Type 0) : Type 0 where
  pub front_id : ℤ
  pub rear_id : ℤ
  pub front_gap : R
  pub rear_gap : R
  pub front_speed : R
  pub rear_speed : R
  pub relevant_count : ℕ

-- std::max of two counts.
abbrev pub larger : ℕ → ℕ → ℕ
larger a b = if ltb a b then b else a

module _ {R : Type 0} ⦃d : Double R⦄ where
  -- Where the vehicle is after t seconds, if it enters at `entry`.
  unfoldable pub merging_s : FrenetState R → HighwayMergeCheckpoint R → R → R → R → R
  merging_s ego checkpoint entry clear_time t =
      let tau = max (num 0) (t - entry) in
      let ratio = if clear_time > decimal 1 6 then min (num 1) (tau / clear_time) else num 1 in
      if (t ≤ entry) && (entry > decimal 1 6)
      then ego.s + min (num 1) (t / entry) * (checkpoint.conflict_s - ego.s)
      else checkpoint.conflict_s + ratio * (checkpoint.clear_s - checkpoint.conflict_s)

  unfoldable pub merging_box :
      ℕ
      → RefLine R
      → FrenetState R
      → HighwayMergeCheckpoint R
      → VehicleShape R
      → CollisionCheckConfig R
      → R
      → R
      → R
      → R
      → OrientedBox R
  unfolding merging_s
  merging_box fuel ref ego checkpoint shape cfg desired_speed entry clear_time t =
      let rp = interpolate fuel ref (merging_s ego checkpoint entry clear_time t) in
      let cs : CartesianState R = record {
        x = rp.x;
        y = rp.y;
        yaw = rp.theta;
        kappa = rp.kappa;
        v = desired_speed;
        a = num 0;
      } in
      make_ego_box cs shape (cfg.safety_margin + cfg.margin_growth_rate * t)

  -- The collision loop over the times of the manoeuvre: clear if no box overlaps.
  unfoldable pub way_clear : (R → OrientedBox R) → List (ObjectInfo R) → List R → Bool
  way_clear box obstacles ts = not (is_some (first_coast_hit box no_exemption obstacles ts))

  -- One obstacle of the second loop, at the time when the zone is clear.
  unfoldable pub flank :
      ℕ
      → RefLine R
      → HighwayMergeConfig R
      → HighwayMergeCheckpoint R
      → R
      → Flanks R
      → ObjectInfo R
      → Flanks R
  flank fuel ref cfg checkpoint clear_absolute_t st obj =
      let predicted = make_obstacle_box obj clear_absolute_t (num 0) in
      let obj_s =
        find_closest_s fuel ref predicted.cx predicted.cy (some checkpoint.clear_s)
          cfg.object_search_distance in
      let rp = interpolate fuel ref obj_s in
      let dx = predicted.cx - rp.x in
      let dy = predicted.cy - rp.y in
      let obj_d = neg dx * d.sin rp.theta + dy * d.cos rp.theta in
      let alignment = d.cos (predicted.heading - rp.theta) in
      let speed = max (num 0) (obj.speed * alignment) in
      let counted = record st { relevant_count = suc st.relevant_count } in
      let ahead = obj_s - checkpoint.clear_s in
      let behind = checkpoint.clear_s - obj_s in
      if abs ahead > cfg.object_search_distance
      then st
      else if (abs obj_d > cfg.target_corridor_half_width)
          || (alignment < cfg.min_heading_alignment)
      then st
      else if obj_s ≥ checkpoint.clear_s
      then (if ahead < st.front_gap
          then record counted { front_gap = ahead; front_id = obj.id; front_speed = speed }
          else counted)
      else if behind < st.rear_gap
      then record counted { rear_gap = behind; rear_id = obj.id; rear_speed = speed }
      else counted

  unfoldable pub flanks_of :
      ℕ
      → RefLine R
      → HighwayMergeConfig R
      → HighwayMergeCheckpoint R
      → R
      → List (ObjectInfo R)
      → Flanks R
      → Flanks R
  unfolding flank
  flanks_of fuel ref cfg checkpoint t [] st = st
  flanks_of fuel ref cfg checkpoint t (obj ∷ objs) st =
      flanks_of fuel ref cfg checkpoint t objs (flank fuel ref cfg checkpoint t st obj)

  abbrev pub no_flanks : Flanks R
  no_flanks = record {
    front_id = minus_one;
    rear_id = minus_one;
    front_gap = d.infinity;
    rear_gap = d.infinity;
    front_speed = num 0;
    rear_speed = num 0;
    relevant_count = 0;
  }

  -- Time to collision, infinite for a vehicle that is not closing.
  abbrev pub ttc : R → R → R
  ttc gap closing = if closing > decimal 1 3 then gap / closing else d.infinity

  unfoldable pub flanks_wide : HighwayMergeConfig R → R → Flanks R → Bool
  flanks_wide cfg desired_speed st =
      (st.front_gap ≥ cfg.min_front_gap)
      && (st.rear_gap ≥ cfg.min_rear_gap)
      && (ttc st.front_gap (max (num 0) (desired_speed - st.front_speed)) ≥ cfg.min_front_ttc)
      && (ttc st.rear_gap (max (num 0) (st.rear_speed - desired_speed)) ≥ cfg.min_rear_ttc)

  -- The search over the entry times, for a test of the way and the flanks at each of them.
  unfoldable pub search_highway :
      HighwayMergeConfig R
      → R
      → (R → Bool)
      → (R → Flanks R)
      → RoundaboutGap R
      → List R
      → RoundaboutGap R
  search_highway cfg desired_speed clear_at flanks_at result [] = record result {
    entry_time = cfg.max_wait_time;
  }
  search_highway cfg desired_speed clear_at flanks_at result (entry ∷ entries) =
      let st = flanks_at entry in
      let counted = record result {
        crossing_vehicle_count = larger result.crossing_vehicle_count st.relevant_count;
      } in
      let rest =
        search_highway cfg desired_speed clear_at flanks_at
          (if clear_at entry then counted else result) entries in
      if clear_at entry && flanks_wide cfg desired_speed st
      then record counted {
        safe = true;
        entry_time = entry;
        preceding_id = st.front_id;
        following_id = st.rear_id;
        preceding_time = if is_negative st.front_id then neg (num 1) else st.front_gap;
        following_time = if is_negative st.rear_id then neg (num 1) else st.rear_gap;
      }
      else rest

  -- The times of the collision loop for an entry.
  abbrev pub way_times : ℕ → R → R → List R
  way_times fuel entry clear_time =
      steps fuel (num 0) (decimal 1 1) (entry + clear_time + decimal 1 9)

  unfoldable pub find_highway_merge_gap :
      ℕ
      → RefLine R
      → FrenetState R
      → List (ObjectInfo R)
      → HighwayMergeConfig R
      → HighwayMergeCheckpoint R
      → VehicleShape R
      → CollisionCheckConfig R
      → R
      → R
      → RoundaboutGap R
  unfolding search_highway
  find_highway_merge_gap fuel ref ego obstacles cfg checkpoint shape collision_cfg desired_speed
        max_ego_accel =
      let distance = max (num 0) (checkpoint.conflict_s - ego.s) in
      let earliest = minimum_travel_time distance ego.s_d desired_speed max_ego_accel in
      let speed =
        max (decimal 5 1)
          (min desired_speed (entry_speed ego.s_d desired_speed max_ego_accel distance)) in
      let clear_time =
        minimum_travel_time (checkpoint.clear_s - checkpoint.conflict_s) speed desired_speed
          max_ego_accel in
      let result : RoundaboutGap R = record no_gap { clear_time = clear_time } in
      let box = merging_box fuel ref ego checkpoint shape collision_cfg desired_speed in
      if not cfg.enabled
        || (checkpoint.conflict_s < num 0)
        || (checkpoint.clear_s ≤ checkpoint.conflict_s)
        || (length ref.points == 0)
      then no_gap
      else if earliest > cfg.max_wait_time
      then record result { entry_time = earliest }
      else search_highway cfg desired_speed
          (λ entry. way_clear (box entry clear_time) obstacles (way_times fuel entry clear_time))
          (λ entry. flanks_of fuel ref cfg checkpoint (entry + clear_time) obstacles no_flanks)
          (record result { confirmed = true })
          (steps fuel earliest (decimal 1 1) (cfg.max_wait_time + decimal 1 9))
