-- ===== src/Planner/Gap.antt =====
-- frenet_planner/src/frenet_planner/frenet/merge_selector.cpp: when the vehicle may enter the
-- roundabout or join the highway. `fuel` bounds the loops over time.
pub mod Arrivals
pub mod Highway
pub mod Entry
use mpc_ws.Prelude.{
  ℕ, zero, suc, ◌≡◌, refl, sym, ap, ◌∙◌, ◌≢◌, ◌↔◌, ◌⊎◌, inl, inr, Bool, true, false, not, ◌&&◌,
  ◌||◌, Option, none, some, List, [], ◌∷◌, ◌++◌, map, arith, ltb, leb, ◌==◌, if◌then◌else◌,
  Bool-cases, Option-cases, is_some, true≢false, &&_split, length, get_elem?, get_or, last_or,
  head_or, drop, take, All, Any, length-map, All-map, All-of, iota, length-iota, filter, Mem,
  filter_map, Whenever, Mem-filter_map, All-filter_map, Any-map,
}
use mpc_ws.Double.{
  Double, ◌+◌, ◌-◌, ◌*◌, ◌/◌, ◌<◌, ◌≤◌, ◌>◌, ◌≥◌, neg, abs, decimal, num, max, min, clamp,
}
use mpc_ws.Double.Laws.{
  IsOrdered, IsExact, IsNumber, min_le_left, min_le_right, le_max_left, le_max_right, clamp_bounds,
  exact_limit,
}
use mpc_ws.Prelude.Int.{ℤ, pos, negsuc, minus_one, is_negative, ◌==ℤ◌, ==ℤ_iff, ltb_ℤ, leb_ℤ, ◌+ℤ◌}
use mpc_ws.Double.Steps.{steps}
use mpc_ws.Planner.Config.{MergeConfig}
use mpc_ws.Planner.RefLine.{interpolate}
use mpc_ws.Planner.Types.{FrenetState, ObjectInfo, RefLine, RefPoint}

pub record Arrival (R : Type 0) : Type 0 where
  pub id : ℤ
  pub time : R

pub record RoundaboutGap (R : Type 0) : Type 0 where
  pub safe : Bool
  pub confirmed : Bool
  pub entry_time : R
  pub clear_time : R
  pub preceding_id : ℤ
  pub preceding_time : R
  pub following_id : ℤ
  pub following_time : R
  pub crossing_vehicle_count : ℕ

-- The nearest pass of an obstacle by the conflict point: its time and its distance.
pub record Pass (R : Type 0) : Type 0 where
  pub time : R
  pub miss : R

-- The arrivals just before and just after an entry time.
pub record Around (R : Type 0) : Type 0 where
  pub preceding_id : ℤ
  pub preceding_time : R
  pub following_id : ℤ
  pub following_time : R

module _ {R : Type 0} ⦃d : Double R⦄ where
  -- RoundaboutGap{}
  abbrev pub no_gap : RoundaboutGap R
  no_gap = record {
    safe = false;
    confirmed = false;
    entry_time = num 0;
    clear_time = num 0;
    preceding_id = minus_one;
    preceding_time = neg (num 1);
    following_id = minus_one;
    following_time = neg (num 1);
    crossing_vehicle_count = 0;
  }

  unfoldable pub minimum_travel_time : R → R → R → R → R
  minimum_travel_time distance initial_speed desired_speed accel =
      let v0 = max (num 0) initial_speed in
      let target = max desired_speed (decimal 5 1) in
      let a = max accel (decimal 1 1) in
      let accel_time = (target - v0) / a in
      let accel_distance = v0 * accel_time + decimal 5 1 * a * accel_time * accel_time in
      if distance ≤ num 0
      then num 0
      else if v0 ≥ target
      then distance / max v0 (decimal 5 1)
      else if distance ≤ accel_distance
      then (neg v0 + d.sqrt (v0 * v0 + num 2 * a * distance)) / a
      else accel_time + (distance - accel_distance) / target

  -- `yaw_rates->find(obj.id)`, over an association list.
  unfoldable pub find_rate : ℤ → List (ℤ × R) → Option R
  find_rate id [] = none
  find_rate id ((j, w) ∷ rates) = if j ==ℤ id then some w else find_rate id rates

  unfoldable pub rate_of : ObjectInfo R → Option (List (ℤ × R)) → R
  unfolding find_rate
  rate_of obj none = obj.yaw_rate
  rate_of obj (some rates) = elim (find_rate obj.id rates) [ none ↦ obj.yaw_rate | some w ↦ w ]

  -- The distance of the obstacle from the conflict point after t seconds.
  unfoldable pub miss_at : RefPoint R → ObjectInfo R → R → R → R
  miss_at conflict obj yaw_rate t =
      let turning = abs yaw_rate > decimal 1 3 in
      let ahead = obj.heading + yaw_rate * t in
      let px =
        if turning
        then obj.x + obj.speed / yaw_rate * (d.sin ahead - d.sin obj.heading)
        else obj.x + obj.speed * d.cos obj.heading * t in
      let py =
        if turning
        then obj.y - obj.speed / yaw_rate * (d.cos ahead - d.cos obj.heading)
        else obj.y + obj.speed * d.sin obj.heading * t in
      d.hypot (conflict.x - px) (conflict.y - py)

  unfoldable pub nearest_pass : RefPoint R → ObjectInfo R → R → List R → Pass R → Pass R
  unfolding miss_at
  nearest_pass conflict obj yaw_rate [] best = best
  nearest_pass conflict obj yaw_rate (t ∷ ts) best =
      let miss = miss_at conflict obj yaw_rate t in
      nearest_pass conflict obj yaw_rate ts
        (if miss < best.miss then record { time = t; miss = miss } else best)

  -- The loop body over the obstacles: `none` is `continue`.
  unfoldable pub arrival_of :
      ℕ → RefPoint R → MergeConfig R → Option (List (ℤ × R)) → ObjectInfo R → Option (Arrival R)
  unfolding rate_of nearest_pass
  arrival_of fuel conflict cfg yaw_rates obj =
      let t_end = cfg.max_wait_time + cfg.ego_clear_time in
      let start : Pass R = record {
        time = num 0;
        miss = d.hypot (conflict.x - obj.x) (conflict.y - obj.y);
      } in
      let times = steps fuel (decimal 5 2) (decimal 5 2) (t_end + decimal 1 9) in
      let best = nearest_pass conflict obj (rate_of obj yaw_rates) times start in
      if obj.speed < cfg.min_object_speed
      then none
      else if best.miss > cfg.conflict_radius
      then none
      else some (record { id = obj.id; time = best.time })

  -- std::sort by time, as an insertion sort.
  unfoldable pub insert_arrival : Arrival R → List (Arrival R) → List (Arrival R)
  insert_arrival a [] = a ∷ []
  insert_arrival a (b ∷ bs) =
      let rest = insert_arrival a bs in if a.time < b.time then a ∷ b ∷ bs else b ∷ rest

  unfoldable pub sort_arrivals : List (Arrival R) → List (Arrival R)
  unfolding insert_arrival
  sort_arrivals [] = []
  sort_arrivals (a ∷ as') = insert_arrival a (sort_arrivals as')

  -- The loop over the arrivals, which breaks at the first one after the entry.
  unfoldable pub around_entry : R → List (Arrival R) → Around R → Around R
  around_entry entry [] st = st
  around_entry entry (a ∷ as') st =
      let rest =
        around_entry entry as' (record st { preceding_id = a.id; preceding_time = a.time }) in
      if a.time ≤ entry then rest else record st { following_id = a.id; following_time = a.time }

  abbrev pub nobody : Around R
  nobody = record {
    preceding_id = minus_one;
    preceding_time = neg (num 1);
    following_id = minus_one;
    following_time = neg (num 1);
  }

  unfoldable pub entry_clear : MergeConfig R → R → R → Around R → Bool
  entry_clear cfg clear_duration entry st =
      (is_negative st.preceding_id || (entry - st.preceding_time ≥ cfg.min_front_time_gap))
      && (is_negative st.following_id
          || (st.following_time - entry ≥ clear_duration + cfg.min_rear_time_gap))

  -- The search over the entry times.
  unfoldable pub search_entry :
      MergeConfig R → R → List (Arrival R) → RoundaboutGap R → List R → RoundaboutGap R
  unfolding around_entry entry_clear
  search_entry cfg clear_duration arrivals result [] = record result {
    entry_time = cfg.max_wait_time;
  }
  search_entry cfg clear_duration arrivals result (entry ∷ entries) =
      let st = around_entry entry arrivals nobody in
      let rest = search_entry cfg clear_duration arrivals result entries in
      if entry_clear cfg clear_duration entry st
      then record result {
        safe = true;
        entry_time = entry;
        preceding_id = st.preceding_id;
        preceding_time = st.preceding_time;
        following_id = st.following_id;
        following_time = st.following_time;
      }
      else rest

  abbrev pub entry_speed : R → R → R → R → R
  entry_speed ego_speed desired_speed max_ego_accel distance =
      d.sqrt
        (max (num 0) (ego_speed * ego_speed + num 2 * max max_ego_accel (decimal 1 1) * distance))

  -- The arrivals at the conflict point, in order of time.
  unfoldable pub arrivals_at :
      ℕ → RefLine R → List (ObjectInfo R) → MergeConfig R → Option (List (ℤ × R)) → List (Arrival R)
  unfolding arrival_of sort_arrivals
  arrivals_at fuel ref obstacles cfg yaw_rates =
      sort_arrivals
        (filter_map (arrival_of fuel (interpolate fuel ref cfg.conflict_s) cfg yaw_rates) obstacles)

  unfoldable pub find_roundabout_gap :
      ℕ
      → RefLine R
      → FrenetState R
      → List (ObjectInfo R)
      → MergeConfig R
      → R
      → R
      → Option (List (ℤ × R))
      → RoundaboutGap R
  unfolding arrivals_at search_entry
  find_roundabout_gap fuel ref ego obstacles cfg desired_speed max_ego_accel yaw_rates =
      let arrivals = arrivals_at fuel ref obstacles cfg yaw_rates in
      let distance = max (num 0) (cfg.conflict_s - ego.s) in
      let earliest = minimum_travel_time distance ego.s_d desired_speed max_ego_accel in
      let speed =
        min (max desired_speed (decimal 5 1))
          (entry_speed ego.s_d desired_speed max_ego_accel distance) in
      let clear_duration =
        max cfg.ego_clear_time
          (minimum_travel_time cfg.completion_distance speed desired_speed max_ego_accel) in
      let result : RoundaboutGap R = record no_gap {
        crossing_vehicle_count = length arrivals;
        clear_time = clear_duration;
      } in
      if (cfg.conflict_s < num 0) || (length ref.points == 0)
      then no_gap
      else if earliest > cfg.max_wait_time
      then record result { entry_time = earliest }
      else search_entry cfg clear_duration arrivals (record result { confirmed = true })
          (steps fuel earliest (decimal 1 1) (cfg.max_wait_time + decimal 1 9))
