-- ===== src/Planner/Avoidance.antt =====
-- frenet_planner/src/frenet_planner/frenet/avoidance_selector.cpp: the nearest standing obstacle in
-- the lane, and the side on which to pass it first.
pub mod Target
use mpc_ws.Prelude.{
  ℕ, zero, suc, ◌≡◌, refl, sym, ap, ◌∙◌, ◌≢◌, ◌↔◌, ◌⊎◌, inl, inr, Bool, true, false, not, ◌&&◌,
  ◌||◌, Option, none, some, List, [], ◌∷◌, ◌++◌, map, arith, ltb, leb, ◌==◌, if◌then◌else◌,
  Bool-cases, Option-cases, is_some, true≢false, &&_split, length, get_elem?, get_or, last_or,
  head_or, drop, take, All, Any, length-map, All-map, All-of, iota, length-iota, filter, Mem,
  filter_map, Whenever, Mem-filter_map, All-filter_map, Any-map,
}
use mpc_ws.Double.{
  Double, ◌+◌, ◌-◌, ◌*◌, ◌/◌, ◌<◌, ◌≤◌, ◌>◌, ◌≥◌, neg, abs, decimal, num, max, min, clamp,
}
use mpc_ws.Double.Laws.{
  IsOrdered, IsExact, IsNumber, min_le_left, min_le_right, le_max_left, le_max_right, clamp_bounds,
  exact_limit,
}
use mpc_ws.Prelude.Int.{ℤ, pos, negsuc, minus_one, is_negative, ◌==ℤ◌, ==ℤ_iff, ltb_ℤ, leb_ℤ, ◌+ℤ◌}
use mpc_ws.Double.Least.{pick_least}
use mpc_ws.Planner.Config.{AvoidConfig}
use mpc_ws.Planner.Leader.{Projection, project_object_to_frenet}
use mpc_ws.Planner.Types.{FrenetState, ObjectInfo, RefLine, VehicleShape}

pub record StaticObstacleTarget (R : Type 0) : Type 0 where
  pub id : ℤ
  pub s : R
  pub d : R
  pub s_dot : R
  pub width : R
  pub length : R
  pub avoidance_offset : R

-- An obstacle that passes the tests of the first loop, with its gap and its projection.
pub record Blocking (R : Type 0) : Type 0 where
  pub gap : R
  pub object : ObjectInfo R
  pub place : Projection R

module _ {R : Type 0} ⦃d : Double R⦄ where
  -- One round of IsSideClear: the obstacle is out of range, or far enough from the offset.
  unfoldable pub leaves_side_clear :
      ℕ → RefLine R → FrenetState R → R → VehicleShape R → R → ObjectInfo R → Bool
  leaves_side_clear fuel ref ego offset shape trigger_distance obj =
      let p = project_object_to_frenet fuel ref obj in
      let gap = p.s - ego.s in
      let need = shape.width * decimal 5 1 + obj.width * decimal 5 1 + decimal 3 1 in
      if (gap ≤ num 0) || (gap > trigger_distance)
      then true
      else if abs (p.d - offset) < need
      then false
      else true

  unfoldable pub is_side_clear :
      ℕ → RefLine R → FrenetState R → List (ObjectInfo R) → R → VehicleShape R → R → Bool
  unfolding leaves_side_clear
  is_side_clear fuel ref ego [] offset shape trigger_distance = true
  is_side_clear fuel ref ego (obj ∷ objs) offset shape trigger_distance =
      if leaves_side_clear fuel ref ego offset shape trigger_distance obj
      then is_side_clear fuel ref ego objs offset shape trigger_distance
      else false

  -- The body of the first loop: `none` is `continue`.
  unfoldable pub blocking_candidate :
      ℕ → RefLine R → FrenetState R → R → AvoidConfig R → ObjectInfo R → Option (Blocking R)
  blocking_candidate fuel ref ego half_lane cfg obj =
      let p = project_object_to_frenet fuel ref obj in
      let gap = p.s - ego.s in
      if abs p.s_dot > cfg.trigger_max_speed
      then none
      else if (gap ≤ num 0) || (gap > cfg.detection_distance)
      then none
      else if abs p.d > half_lane
      then none
      else some (record { gap = gap; object = obj; place = p })

  abbrev pub blocking_gap : Blocking R → R
  blocking_gap b = b.gap

  -- Left, unless only the right side is clear.
  unfoldable pub choose_offset :
      ℕ → RefLine R → FrenetState R → List (ObjectInfo R) → VehicleShape R → AvoidConfig R → R
  choose_offset fuel ref ego obstacles shape cfg =
      let left_clear =
        is_side_clear fuel ref ego obstacles cfg.avoid_offset shape cfg.detection_distance in
      let right_clear =
        is_side_clear fuel ref ego obstacles (neg cfg.avoid_offset) shape cfg.detection_distance in
      if left_clear
      then cfg.avoid_offset
      else if right_clear
      then neg cfg.avoid_offset
      else cfg.avoid_offset

  abbrev pub target_of : R → Blocking R → StaticObstacleTarget R
  target_of offset b = record {
    id = b.object.id;
    s = b.place.s;
    d = b.place.d;
    s_dot = b.place.s_dot;
    width = b.object.width;
    length = b.object.length;
    avoidance_offset = offset;
  }

  unfoldable pub find_static_avoidance_target :
      ℕ
      → RefLine R
      → FrenetState R
      → List (ObjectInfo R)
      → R
      → VehicleShape R
      → AvoidConfig R
      → Option (StaticObstacleTarget R)
  find_static_avoidance_target fuel ref ego obstacles lane_width shape cfg =
      elim (pick_least blocking_gap d.max_value none
        (filter_map (blocking_candidate fuel ref ego (lane_width * decimal 5 1) cfg) obstacles)) [
          | none ↦ none
          | some b ↦ some (target_of (choose_offset fuel ref ego obstacles shape cfg) b)
        ]
