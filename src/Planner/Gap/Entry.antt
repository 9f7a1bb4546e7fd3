-- ===== src/Planner/Gap/Entry.antt =====
-- What FindRoundaboutGap promises when it reports a safe gap.
use mpc_ws.Prelude.{
  ℕ, ◌≡◌, refl, true, false, Option, List, [], ◌∷◌, arith, length, All, filter_map,
}
use mpc_ws.Double.{Double, ◌+◌, ◌-◌, ◌≤◌, decimal, num, max, min}
use mpc_ws.Double.Laws.{IsOrdered}
use mpc_ws.Prelude.Int.{ℤ}
use mpc_ws.Double.Steps.{steps, steps_le}
use mpc_ws.Planner.Config.{MergeConfig}
use mpc_ws.Planner.Gap.{
  Arrival, RoundaboutGap, around_entry, arrival_of, arrivals_at, entry_clear, entry_speed,
  find_roundabout_gap, minimum_travel_time, no_gap, nobody, search_entry,
}
use mpc_ws.Planner.Gap.Arrivals.{
  All-sort_arrivals, IsMonotone, IsProper, Respects, entry_clear-Respects, sort_arrivals-Sorted,
}
use mpc_ws.Planner.RefLine.{interpolate}
use mpc_ws.Planner.Types.{FrenetState, ObjectInfo, RefLine}

module _ {R : Type 0} ⦃d : Double R⦄ where
  -- A gap that is not safe yet and becomes safe in the search is confirmed as before, and its entry
  -- time is one of the times that were tried, with both neighbours far enough.
  search_entry-safe :
      (cfg : MergeConfig R) (clear_duration : R) (arrivals : List (Arrival R))
      (result : RoundaboutGap R) (P : R → Type 0) (entries : List R)
      → All P entries
      → result.safe ≡ false
      → let out = search_entry cfg clear_duration arrivals result entries in
        out.safe ≡ true
        → (out.confirmed ≡ result.confirmed)
          × (out.clear_time ≡ result.clear_time)
          × P out.entry_time
          × (entry_clear cfg clear_duration out.entry_time
                (around_entry out.entry_time arrivals nobody)
              ≡ true)
  unfolding search_entry
  search_entry-safe cfg clear_duration arrivals result P [] h n e = cc
  search_entry-safe cfg clear_duration arrivals result P (entry ∷ entries) h n e =
      ground (arith, search_entry-safe cfg clear_duration arrivals result P entries h.1 n)

  module _ (fuel : ℕ) (ref : RefLine R) (ego : FrenetState R) (obstacles : List (ObjectInfo R))
      (cfg : MergeConfig R) (desired_speed max_ego_accel : R)
      (yaw_rates : Option (List (ℤ × R))) where
    abbrev gap : RoundaboutGap R
    gap = find_roundabout_gap fuel ref ego obstacles cfg desired_speed max_ego_accel yaw_rates

    abbrev arrivals : List (Arrival R)
    arrivals = arrivals_at fuel ref obstacles cfg yaw_rates

    safe_parts :
        gap.safe ≡ true
        → (gap.confirmed ≡ true)
          × (gap.entry_time ≤ cfg.max_wait_time + decimal 1 9 ≡ true)
          × (entry_clear cfg gap.clear_time gap.entry_time
                (around_entry gap.entry_time arrivals nobody)
              ≡ true)
    unfolding find_roundabout_gap
    safe_parts safe =
        let distance = max (num 0) (cfg.conflict_s - ego.s) in
        let earliest = minimum_travel_time distance ego.s_d desired_speed max_ego_accel in
        let speed =
          min (max desired_speed (decimal 5 1))
            (entry_speed ego.s_d desired_speed max_ego_accel distance) in
        let clear_duration =
          max cfg.ego_clear_time
            (minimum_travel_time cfg.completion_distance speed desired_speed max_ego_accel) in
        let result : RoundaboutGap R = record no_gap {
          crossing_vehicle_count = length arrivals;
          clear_time = clear_duration;
          confirmed = true;
        } in
        let last = cfg.max_wait_time + decimal 1 9 in
        ground (
          arith,
          search_entry-safe cfg clear_duration arrivals result (λ t. t ≤ last ≡ true)
              (steps fuel earliest (decimal 1 1) last) (steps_le fuel earliest (decimal 1 1) last)
              refl,
        )

    -- If FindRoundaboutGap reports a safe gap, the gap is confirmed, the entry lies within the
    -- waiting time, and every predicted arrival at the conflict point keeps its distance in time: the
    -- front gap before the entry, or the clearing time and the rear gap after it. The identifiers of
    -- the arriving vehicles are not negative, and their times and the entry time are finite.
    pub find_roundabout_gap-safe :
        IsOrdered R
        → IsMonotone R
        → All IsProper (
            filter_map
              (arrival_of fuel (interpolate fuel ref cfg.conflict_s) cfg yaw_rates)
              obstacles)
        → d.is_finite gap.entry_time ≡ true
        → gap.safe ≡ true
        → (gap.confirmed ≡ true)
          × (gap.entry_time ≤ cfg.max_wait_time + decimal 1 9 ≡ true)
          × All (Respects cfg gap.clear_time gap.entry_time) arrivals
    find_roundabout_gap-safe laws mono proper finite safe =
        let (confirmed, within, clear) = safe_parts safe in
        (
          confirmed,
          within,
          entry_clear-Respects laws mono cfg gap.clear_time gap.entry_time arrivals nobody finite
              (unfold arrivals_at in All-sort_arrivals IsProper _ proper)
              (unfold arrivals_at in sort_arrivals-Sorted laws mono _ proper) clear,
        )
