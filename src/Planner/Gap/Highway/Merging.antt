-- ===== src/Planner/Gap/Highway/Merging.antt =====
-- What FindHighwayMergeGap promises when it reports a safe gap.
use mpc_ws.Prelude.{ℕ, ◌≡◌, refl, Bool, true, false, List, [], ◌∷◌, arith, All, filter}
use mpc_ws.Double.{Double, ◌+◌, ◌-◌, ◌≤◌, ◌≥◌, decimal, num, max, min}
use mpc_ws.Double.Laws.{IsOrdered}
use mpc_ws.Double.Steps.{steps, steps_le}
use mpc_ws.Planner.Collision.{no_exemption}
use mpc_ws.Planner.Collision.Filter.{CoastClear, first_coast_hit-Clear}
use mpc_ws.Planner.Config.{HighwayMergeCheckpoint, HighwayMergeConfig}
use mpc_ws.Planner.Gap.{RoundaboutGap, entry_speed, minimum_travel_time, no_gap}
use mpc_ws.Planner.Gap.Highway.{
  Flanks, find_highway_merge_gap, flanks_of, flanks_wide, larger, merging_box, no_flanks,
  search_highway, ttc, way_clear, way_times,
}
use mpc_ws.Planner.Gap.Highway.Sides.{
  IsWide, flank-before, flank-behind, flanks_of-IsWide, gap_ahead, gap_behind, is_before, is_behind,
  lane_speed,
}
use mpc_ws.Planner.Types.{
  CollisionCheckConfig, FrenetState, ObjectInfo, OrientedBox, RefLine, VehicleShape,
}

module _ {R : Type 0} ⦃d : Double R⦄ where
  search_highway-safe :
      (cfg : HighwayMergeConfig R) (desired_speed : R) (clear_at : R → Bool)
      (flanks_at : R → Flanks R) (result : RoundaboutGap R) (P : R → Type 0) (entries : List R)
      → All P entries
      → result.safe ≡ false
      → (search_highway cfg desired_speed clear_at flanks_at result entries).safe ≡ true
      → ((search_highway cfg desired_speed clear_at flanks_at result entries).confirmed
          ≡ result.confirmed)
        × ((search_highway cfg desired_speed clear_at flanks_at result entries).clear_time
            ≡ result.clear_time)
        × P (search_highway cfg desired_speed clear_at flanks_at result entries).entry_time
        × (clear_at (search_highway cfg desired_speed clear_at flanks_at result entries).entry_time
            ≡ true)
        × (flanks_wide cfg desired_speed (
              flanks_at
                (search_highway cfg desired_speed clear_at flanks_at result entries).entry_time)
            ≡ true)
  unfolding search_highway
  search_highway-safe cfg desired_speed clear_at flanks_at result P [] h n e = cc
  search_highway-safe cfg desired_speed clear_at flanks_at result P (entry ∷ entries) h n e =
      ground (
        arith,
        search_highway-safe cfg desired_speed clear_at flanks_at result P entries h.1 n,
        search_highway-safe cfg desired_speed clear_at flanks_at
            (record result {
              crossing_vehicle_count =
                  larger result.crossing_vehicle_count (flanks_at entry).relevant_count;
            })
            P entries h.1 n,
      )

  way_clear-CoastClear :
      (box : R → OrientedBox R) (obstacles : List (ObjectInfo R)) (ts : List R)
      → way_clear box obstacles ts ≡ true
      → CoastClear box no_exemption obstacles ts
  unfolding way_clear
  way_clear-CoastClear box obstacles ts h =
      (first_coast_hit-Clear box no_exemption obstacles ts).0 (ground arith)

  flanks_wide-parts :
      (cfg : HighwayMergeConfig R) (desired_speed : R) (st : Flanks R)
      → flanks_wide cfg desired_speed st ≡ true
      → (st.front_gap ≥ cfg.min_front_gap ≡ true)
        × (st.rear_gap ≥ cfg.min_rear_gap ≡ true)
        × (ttc st.front_gap (max (num 0) (desired_speed - st.front_speed)) ≥ cfg.min_front_ttc
            ≡ true)
        × (ttc st.rear_gap (max (num 0) (st.rear_speed - desired_speed)) ≥ cfg.min_rear_ttc ≡ true)
  unfolding flanks_wide
  flanks_wide-parts cfg desired_speed st e = ground arith

  module _ (fuel : ℕ) (ref : RefLine R) (ego : FrenetState R) (obstacles : List (ObjectInfo R))
      (cfg : HighwayMergeConfig R) (checkpoint : HighwayMergeCheckpoint R) (shape : VehicleShape R)
      (collision_cfg : CollisionCheckConfig R) (desired_speed max_ego_accel : R) where
    abbrev gap : RoundaboutGap R
    gap =
        find_highway_merge_gap fuel ref ego obstacles cfg checkpoint shape collision_cfg
          desired_speed max_ego_accel

    abbrev box : R → R → R → OrientedBox R
    box = merging_box fuel ref ego checkpoint shape collision_cfg desired_speed

    safe_parts :
        gap.safe ≡ true
        → (cfg.enabled ≡ true)
          × (gap.confirmed ≡ true)
          × (gap.entry_time ≤ cfg.max_wait_time + decimal 1 9 ≡ true)
          × (way_clear
                (box gap.entry_time gap.clear_time)
                obstacles
                (way_times fuel gap.entry_time gap.clear_time)
              ≡ true)
          × (flanks_wide cfg desired_speed (
                flanks_of fuel ref cfg checkpoint
                  (gap.entry_time + gap.clear_time)
                  obstacles
                  no_flanks)
              ≡ true)
    unfolding find_highway_merge_gap
    safe_parts safe =
        let distance = max (num 0) (checkpoint.conflict_s - ego.s) in
        let earliest = minimum_travel_time distance ego.s_d desired_speed max_ego_accel in
        let speed =
          max (decimal 5 1)
            (min desired_speed (entry_speed ego.s_d desired_speed max_ego_accel distance)) in
        let clear_time =
          minimum_travel_time (checkpoint.clear_s - checkpoint.conflict_s) speed desired_speed
            max_ego_accel in
        let result : RoundaboutGap R = record no_gap {
          clear_time = clear_time;
          confirmed = true;
        } in
        let last = cfg.max_wait_time + decimal 1 9 in
        ground (
          arith,
          search_highway-safe cfg desired_speed
              (λ entry.
                way_clear (box entry clear_time) obstacles (way_times fuel entry clear_time))
              (λ entry. flanks_of fuel ref cfg checkpoint (entry + clear_time) obstacles no_flanks)
              result (λ t. t ≤ last ≡ true) (steps fuel earliest (decimal 1 1) last)
              (steps_le fuel earliest (decimal 1 1) last) refl,
        )

    -- When the zone is clear.
    abbrev pub clear_at : R
    clear_at = gap.entry_time + gap.clear_time

    abbrev pub vehicles_before : List (ObjectInfo R)
    vehicles_before = filter (is_before fuel ref cfg checkpoint clear_at) obstacles

    abbrev pub vehicles_behind : List (ObjectInfo R)
    vehicles_behind = filter (is_behind fuel ref cfg checkpoint clear_at) obstacles

    -- Every vehicle before keeps the distance, and the vehicle does not reach the nearest too soon.
    abbrev pub IsWideBefore : Type 0
    IsWideBefore =
        IsWide fuel ref cfg checkpoint clear_at (gap_ahead fuel ref cfg checkpoint clear_at)
          (λ v. max (num 0) (desired_speed - lane_speed fuel ref cfg checkpoint clear_at v))
          cfg.min_front_gap cfg.min_front_ttc vehicles_before

    -- Every vehicle behind keeps the distance, and the nearest does not reach the vehicle too soon.
    abbrev pub IsWideBehind : Type 0
    IsWideBehind =
        IsWide fuel ref cfg checkpoint clear_at (gap_behind fuel ref cfg checkpoint clear_at)
          (λ v. max (num 0) (lane_speed fuel ref cfg checkpoint clear_at v - desired_speed))
          cfg.min_rear_gap cfg.min_rear_ttc vehicles_behind

    -- If FindHighwayMergeGap reports a safe gap, the policy is enabled, the gap is confirmed, the
    -- entry lies within the waiting time, and at every time of the loop no obstacle overlaps the
    -- vehicle on its way through the conflict zone. When the zone is clear, every vehicle of the lane
    -- before or behind its end keeps the configured distance of its side, and on either side there is
    -- none at a finite distance, or the nearest one does not close in or has the configured time to
    -- collision.
    pub find_highway_merge_gap-safe :
        (laws : IsOrdered R)
        → gap.safe ≡ true
        → (cfg.enabled ≡ true)
          × (gap.confirmed ≡ true)
          × (gap.entry_time ≤ cfg.max_wait_time + decimal 1 9 ≡ true)
          × CoastClear
              (box gap.entry_time gap.clear_time)
              no_exemption
              obstacles
              (way_times fuel gap.entry_time gap.clear_time)
          × IsWideBefore
          × IsWideBehind
    find_highway_merge_gap-safe laws safe =
        let (enabled, confirmed, within, way, flanks) = safe_parts safe in
        let found = flanks_of fuel ref cfg checkpoint clear_at obstacles no_flanks in
        let (front_gap, rear_gap, front_ttc, rear_ttc) =
          flanks_wide-parts cfg desired_speed found flanks in
        (
          enabled,
          confirmed,
          within,
          way_clear-CoastClear (box gap.entry_time gap.clear_time) obstacles
              (way_times fuel gap.entry_time gap.clear_time) way,
          flanks_of-IsWide fuel ref cfg checkpoint clear_at (λ st. st.front_gap)
              (λ st. st.front_speed) (is_before fuel ref cfg checkpoint clear_at)
              (gap_ahead fuel ref cfg checkpoint clear_at)
              (flank-before fuel ref cfg checkpoint clear_at) laws
              (λ v. max (num 0) (desired_speed - v)) cfg.min_front_gap cfg.min_front_ttc obstacles
              refl refl front_gap front_ttc,
          flanks_of-IsWide fuel ref cfg checkpoint clear_at (λ st. st.rear_gap)
              (λ st. st.rear_speed) (is_behind fuel ref cfg checkpoint clear_at)
              (gap_behind fuel ref cfg checkpoint clear_at)
              (flank-behind fuel ref cfg checkpoint clear_at) laws
              (λ v. max (num 0) (v - desired_speed)) cfg.min_rear_gap cfg.min_rear_ttc obstacles
              refl refl rear_gap rear_ttc,
        )
