-- ===== src/Tests/GapWitnesses.antt =====
-- The theorems on gaps and boxes, with the laws of arithmetic that they use.
use mpc_ws.Prelude.{ℕ, ◌≡◌, refl, sym, true, none, List, [], ◌∷◌, arith, All, filter_map}
use mpc_ws.Double.{◌+◌, ◌≤◌, decimal}
use mpc_ws.Prelude.Int.{pos, negsuc, sub_ℕ, pos_part, neg_part}
use mpc_ws.Double.Micro.{Micro, Micro-IsOrdered, micro, root}
use mpc_ws.Double.Steps.{steps}
use mpc_ws.Planner.Collision.{
  check_obb_overlap, first_coast_hit, first_overlap, make_ego_box, make_obstacle_box, no_exemption,
  projected_radius, separated_along_axis,
}
use mpc_ws.Planner.Collision.Axes.{IsSymmetric}
use mpc_ws.Planner.Collision.Filter.{CoastClear}
use mpc_ws.Planner.Config.{HighwayMergeCheckpoint}
use mpc_ws.Planner.Gap.{
  RoundaboutGap, around_entry, arrival_of, arrivals_at, entry_clear, find_rate, find_roundabout_gap,
  insert_arrival, minimum_travel_time, miss_at, nearest_pass, rate_of, search_entry, sort_arrivals,
}
use mpc_ws.Planner.Gap.Arrivals.{IsMonotone, Respects}
use mpc_ws.Planner.Gap.Entry.{find_roundabout_gap-safe}
use mpc_ws.Planner.Gap.Highway.{
  find_highway_merge_gap, flank, flanks_of, flanks_wide, merging_box, search_highway, way_clear,
  way_times,
}
use mpc_ws.Planner.Gap.Highway.Merging.{IsWideBefore, IsWideBehind, find_highway_merge_gap-safe}
use mpc_ws.Planner.RefLine.{
  between, bisect, find_closest_s, interpolate, normalize_angle, turn_down, turn_up, wrap_s,
}
use mpc_ws.Planner.Types.{ObjectInfo, OrientedBox}
use mpc_ws.Tests.Scene.{collision, ego, highway, m, merge, object, road, shape}
use Prim.Native.Nat

Micro-IsMonotone : IsMonotone Micro
Micro-IsMonotone = record {
  number_of_finite = λ x p. ground arith;
  sub_mono = λ x y z c p q r h. ground arith;
  sub_antitone = λ x y z c p q r h. ground arith;
}

-- The opposite number, as a difference of the parts.
abbrev opposite : Micro → Micro
opposite z = sub_ℕ (neg_part z) (pos_part z)

pos_part-opposite : (z : Micro) → pos_part (opposite z) ≡ neg_part z
pos_part-opposite (pos n) = ground arith
pos_part-opposite (negsuc n) = ground arith

neg_part-opposite : (z : Micro) → neg_part (opposite z) ≡ pos_part z
neg_part-opposite (pos n) = ground arith
neg_part-opposite (negsuc n) = ground arith

pos_part-sub : (a b : ℕ) → pos_part (sub_ℕ a b) ≡ Nat.◌-◌ a b
pos_part-sub a b = ground arith

neg_part-sub : (a b : ℕ) → neg_part (sub_ℕ a b) ≡ Nat.◌-◌ b a
neg_part-sub a b = ground arith

sub-opposite : (a b : Micro) → micro.sub b a ≡ opposite (micro.sub a b)
sub-opposite a b = ground arith

opposite-sub : (a b : ℕ) → opposite (sub_ℕ a b) ≡ sub_ℕ b a
opposite-sub a b = ground arith

mul-opposite : (z x : Micro) → micro.mul (opposite z) x ≡ opposite (micro.mul z x)
mul-opposite z x = rw (pos_part-opposite z, neg_part-opposite z) (ground arith)

abs_add-opposite :
    (u v : Micro) → micro.abs (micro.add (opposite u) (opposite v)) ≡ micro.abs (micro.add u v)
abs_add-opposite u v =
    rw (pos_part-opposite u, neg_part-opposite u, pos_part-opposite v, neg_part-opposite v)
      (ground arith)

Micro-IsSymmetric : IsSymmetric Micro
Micro-IsSymmetric = record {
  add_comm = λ a b. ground arith;
  abs_flip = λ a b c e x y.
      rw
        (
          sub-opposite a b,
          sub-opposite c e,
          mul-opposite (micro.sub a b) x,
          mul-opposite (micro.sub c e) y,
        )
        (sym (abs_add-opposite (micro.mul (micro.sub a b) x) (micro.mul (micro.sub c e) y)));
}

abbrev box : ℕ → OrientedBox Micro
box n = record { cx = m n; cy = m 0; heading = m 0; half_length = m 2; half_width = m 1 }

abbrev arriving : List (ObjectInfo Micro)
arriving = object 7 18 10 ∷ []

abbrev roundabout_gap : RoundaboutGap Micro
roundabout_gap = find_roundabout_gap 4 road ego arriving merge (m 5) (m 2) none

find_roundabout_gap-safe_example :
    (roundabout_gap.confirmed ≡ true)
    × (roundabout_gap.entry_time ≤ merge.max_wait_time + decimal 1 9 ≡ true)
    × All
        (Respects merge roundabout_gap.clear_time roundabout_gap.entry_time)
        (arrivals_at 4 road arriving merge none)
unfolding find_roundabout_gap arrivals_at sort_arrivals insert_arrival arrival_of nearest_pass
    miss_at rate_of find_rate steps filter_map interpolate between bisect wrap_s normalize_angle
    turn_up turn_down minimum_travel_time root search_entry around_entry entry_clear
find_roundabout_gap-safe_example =
    find_roundabout_gap-safe 4 road ego arriving merge (m 5) (m 2) none Micro-IsOrdered
      Micro-IsMonotone ((refl, refl), tt) refl refl

-- Two vehicles ahead on the lane, and a slow one behind.
abbrev around : List (ObjectInfo Micro)
around = object 2 45 4 ∷ object 3 40 4 ∷ object 4 0 1 ∷ []

abbrev through : HighwayMergeCheckpoint Micro
through = record { conflict_s = m 20; clear_s = m 22 }

abbrev highway_gap : RoundaboutGap Micro
highway_gap = find_highway_merge_gap 4 road ego around highway through shape collision (m 5) (m 2)

find_highway_merge_gap-safe_example :
    (highway.enabled ≡ true)
    × (highway_gap.confirmed ≡ true)
    × (highway_gap.entry_time ≤ highway.max_wait_time + decimal 1 9 ≡ true)
    × CoastClear
        (merging_box 4 road ego through shape collision
          (m 5)
          highway_gap.entry_time
          highway_gap.clear_time)
        no_exemption
        around
        (way_times 4 highway_gap.entry_time highway_gap.clear_time)
    × IsWideBefore 4 road ego around highway through shape collision (m 5) (m 2)
    × IsWideBehind 4 road ego around highway through shape collision (m 5) (m 2)
unfolding find_highway_merge_gap minimum_travel_time root steps search_highway way_clear
    first_coast_hit first_overlap flanks_of flank flanks_wide check_obb_overlap separated_along_axis
    projected_radius merging_box make_ego_box interpolate wrap_s between bisect normalize_angle
    make_obstacle_box find_closest_s
find_highway_merge_gap-safe_example =
    find_highway_merge_gap-safe 4 road ego around highway through shape collision (m 5) (m 2)
      Micro-IsOrdered refl
