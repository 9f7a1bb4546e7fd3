-- ===== src/Planner/Fallback.antt =====
-- PlanLowSpeedFallback of frenet_planner/src/frenet_planner/frenet_planner.cpp: the path of a vehicle
-- that hardly moves, by the distance and not by the time.
pub mod Bounds
use mpc_ws.Prelude.{
  subst, range_from, Mem-filter, ℕ, zero, suc, ◌≡◌, refl, sym, ap, ◌∙◌, ◌≢◌, ◌↔◌, ◌⊎◌, inl, inr,
  Bool, true, false, not, ◌&&◌, ◌||◌, Option, none, some, List, [], ◌∷◌, ◌++◌, map, arith, ltb, leb,
  ◌==◌, if◌then◌else◌, Bool-cases, Option-cases, is_some, true≢false, &&_split, length, get_elem?,
  get_or, last_or, head_or, drop, take, All, Any, length-map, All-map, All-of, iota, length-iota,
  filter, Mem, filter_map, Whenever, Mem-filter_map, All-filter_map, Any-map, is_empty, concat_map,
  Mem-append, Mem-map, Mem-concat_map, Any-Mem, All-Mem,
}
use mpc_ws.Double.{
  Double, ◌+◌, ◌-◌, ◌*◌, ◌/◌, ◌<◌, ◌≤◌, ◌>◌, ◌≥◌, neg, abs, decimal, num, max, min, clamp,
}
use mpc_ws.Double.Laws.{
  IsOrdered, IsExact, IsNumber, min_le_left, min_le_right, le_max_left, le_max_right, clamp_bounds,
  exact_limit,
}
use mpc_ws.Prelude.Int.{
  ℤ, pos, negsuc, minus_one, is_negative, ◌==ℤ◌, ==ℤ_iff, ltb_ℤ, leb_ℤ, ◌+ℤ◌, sub_ℕ, pos_part,
  neg_part,
}
use mpc_ws.Planner.Converter.{frenet_to_cartesian, path_of}
use mpc_ws.Planner.RefLine.{interpolate, π}
use mpc_ws.Planner.Tracks.{clip}
use mpc_ws.Planner.Types.{CartesianPath, CartesianState, RefLine}

module _ {R : Type 0} ⦃d : Double R⦄ where
  abbrev pub crawl_accel : R
  crawl_accel = decimal 5 1

  abbrev pub min_creep_speed : R
  min_creep_speed = decimal 3 1

  abbrev pub crawl_speed_cap : R
  crawl_speed_cap = num 2

  abbrev pub recenter_distance : R
  recenter_distance = num 15

  unfoldable pub crawl_speed : R → R → R
  crawl_speed ego_v t = clip (ego_v + crawl_accel * t) min_creep_speed crawl_speed_cap

  -- The sample at s_i with the speed v_i; the path goes from d at s to target_d.
  unfoldable pub crawl_sample : ℕ → RefLine R → R → R → R → R → R → CartesianState R
  crawl_sample fuel ref s e target_d s_i v_i =
      let ds = s_i - s in
      let frac = clip (ds / recenter_distance) (num 0) (num 1) in
      let d_error = e - target_d in
      let d_i = target_d + d_error * decimal 5 1 * (num 1 + d.cos (π * frac)) in
      let d_prime =
        if ds ≥ recenter_distance
        then num 0
        else d_error * (neg (decimal 5 1) * π / recenter_distance) * d.sin (π * frac) in
      let d_pprime =
        if ds ≥ recenter_distance
        then num 0
        else d_error
          * (neg (decimal 5 1) * π * π / (recenter_distance * recenter_distance))
          * d.cos (π * frac) in
      let a_i = if v_i < crawl_speed_cap then crawl_accel else num 0 in
      let cs =
        frenet_to_cartesian fuel (interpolate fuel ref s_i) s_i v_i a_i d_i d_prime d_pprime in
      record cs { v = v_i; a = a_i }

  -- The loop over the samples, with `s_i` and `v_prev`.
  unfoldable pub crawl :
      ℕ → RefLine R → R → R → R → R → R → List ℕ → R → R → List (CartesianState R)
  unfolding crawl_speed crawl_sample
  crawl fuel ref dt ego_v s e target_d [] s_i v_prev = []
  crawl fuel ref dt ego_v s e target_d (i ∷ is) s_i v_prev =
      let v_i = crawl_speed ego_v (d.of_ℕ i * dt) in
      let s_next = if i == 0 then s_i else s_i + decimal 5 1 * (v_i + v_prev) * dt in
      crawl_sample fuel ref s e target_d s_next v_i
      ∷ crawl fuel ref dt ego_v s e target_d is s_next v_i

  unfoldable pub plan_low_speed_fallback :
      ℕ → RefLine R → R → CartesianState R → R → R → R → R → CartesianPath R
  unfolding crawl
  plan_low_speed_fallback fuel ref dt ego s e target_d duration_s = path_of (
      crawl fuel ref dt ego.v s e target_d (iota (suc (d.to_ℕ (duration_s / dt)))) s
        (max ego.v min_creep_speed))
