-- ===== src/Planner/Cost.antt =====
-- frenet_planner/src/frenet_planner/frenet/cost.cpp: the cost of a candidate, and the choice of the
-- cheapest valid one. A pointer to a candidate is an optional candidate.
pub mod Best
use mpc_ws.Prelude.{
  ℕ, zero, suc, ◌≡◌, refl, sym, ap, ◌∙◌, ◌≢◌, ◌↔◌, ◌⊎◌, inl, inr, Bool, true, false, not, ◌&&◌,
  ◌||◌, Option, none, some, List, [], ◌∷◌, ◌++◌, map, arith, ltb, leb, ◌==◌, if◌then◌else◌,
  Bool-cases, Option-cases, is_some, true≢false, &&_split, length, get_elem?, get_or, last_or,
  head_or, drop, take, All, Any, length-map, All-map, All-of, iota, length-iota, filter, Mem,
}
use mpc_ws.Double.{
  Double, ◌+◌, ◌-◌, ◌*◌, ◌/◌, ◌<◌, ◌≤◌, ◌>◌, ◌≥◌, neg, abs, decimal, num, max, min, clamp,
}
use mpc_ws.Double.Laws.{
  IsOrdered, IsExact, IsNumber, min_le_left, min_le_right, le_max_left, le_max_right, clamp_bounds,
  exact_limit,
}
use mpc_ws.Prelude.Int.{ℤ, pos, negsuc, minus_one, is_negative, ◌==ℤ◌, ==ℤ_iff, ltb_ℤ, leb_ℤ, ◌+ℤ◌}
use Prim.Native.Nat
use mpc_ws.Planner.Config.{CostWeights}
use mpc_ws.Planner.Converter.{item}
use mpc_ws.Planner.Types.{FrenetPath}

module _ {R : Type 0} ⦃d : Double R⦄ where
  -- The trapezoid rule for (d - target_d)^2 over the samples.
  pub path_integral : List R → List R → R → List ℕ → R → R
  path_integral ts ds target_d [] acc = acc
  path_integral ts ds target_d (i ∷ is) acc =
      let dt = item ts (suc i) - item ts i in
      let e0 = item ds i - target_d in
      let e1 = item ds (suc i) - target_d in
      path_integral ts ds target_d is (acc + decimal 5 1 * (e0 * e0 + e1 * e1) * dt)

  unfoldable pub compute_lateral_cost : FrenetPath R → CostWeights R → R → R
  unfolding path_integral
  compute_lateral_cost path w target_d =
      let T = last_or (num 0) path.t in
      let terminal_error = last_or (num 0) path.d - target_d in
      let rounds = iota (Nat.◌-◌ (length path.d) 1) in
      w.kj * path.jerk_cost_lat
      + w.kt * T
      + w.kd * terminal_error * terminal_error
      + w.kd_path * path_integral path.t path.d target_d rounds (num 0)

  unfoldable pub compute_longitudinal_cost : FrenetPath R → CostWeights R → R
  compute_longitudinal_cost path w =
      let T = last_or (num 0) path.t in
      w.kj * path.jerk_cost_lon
      + w.kt * T
      + w.ks * path.delta_s * path.delta_s
      + w.ks_dot * path.delta_s_dot * path.delta_s_dot

  unfoldable pub compute_total_cost : R → R → CostWeights R → R
  compute_total_cost cost_lat cost_lon w = w.klat * cost_lat + w.klon * cost_lon

  unfoldable pub evaluate_cost : CostWeights R → R → FrenetPath R → FrenetPath R
  evaluate_cost w target_d path =
      let lat = compute_lateral_cost path w target_d in
      let lon = compute_longitudinal_cost path w in
      record path { cost_lat = lat; cost_lon = lon; cost_total = compute_total_cost lat lon w }

  unfoldable pub evaluate_costs : CostWeights R → R → List (FrenetPath R) → List (FrenetPath R)
  unfolding evaluate_cost
  evaluate_costs w target_d = map (evaluate_cost w target_d)

  -- The loop of SelectBestPath, with `best` as it stands.
  pub better : Option (FrenetPath R) → FrenetPath R → Bool
  better none path = true
  better (some best) path = path.cost_total < best.cost_total

  unfoldable pub select_from : Option (FrenetPath R) → List (FrenetPath R) → Option (FrenetPath R)
  unfolding better
  select_from best [] = best
  select_from best (path ∷ paths) =
      select_from (if path.valid && better best path then some path else best) paths

  unfoldable pub select_best_path : List (FrenetPath R) → Option (FrenetPath R)
  unfolding select_from
  select_best_path = select_from none
