-- ===== src/Planner/Converter.antt =====
-- frenet_planner/src/frenet_planner/math/frenet_converter.cpp. The `for` loops over a path run over
-- its samples; `fuel` bounds the turns of NormalizeAngle.
use Prim.Native.Nat
use mpc_ws.Prelude.{
  Bool, ℕ, zero, suc, Bool, true, false, ◌&&◌, ◌||◌, Option, List, ltb, leb, ◌==◌, if◌then◌else◌,
  length, get_or, map, iota,
}
use mpc_ws.Double.{Double, ◌+◌, ◌-◌, ◌*◌, ◌/◌, ◌<◌, ◌>◌, neg, abs, decimal, num}
use mpc_ws.Planner.Types.{
  RefPoint, RefLine, CartesianState, CartesianPath, FrenetPath, GeometricPath,
}
use mpc_ws.Planner.RefLine.{normalize_angle, interpolate, find_closest_s}

-- The six outputs of CartesianToFrenet.
pub record FrenetCoordinates (R : Type 0) : Type 0 where
  pub s : R
  pub s_dot : R
  pub s_ddot : R
  pub d : R
  pub d_prime : R
  pub d_pprime : R

-- The variables of the loop that widens the difference around a sample.
pub record Reach (R : Type 0) : Type 0 where
  pub found : Bool
  pub dx : R
  pub dy : R
  pub used : ℕ

module _ {R : Type 0} ⦃d : Double R⦄ where
  unfoldable pub frenet_to_cartesian : ℕ → RefPoint R → R → R → R → R → R → R → CartesianState R
  frenet_to_cartesian fuel rp s s_dot s_ddot e e_prime e_pprime =
      let nx = neg (d.sin rp.theta) in
      let ny = d.cos rp.theta in
      let one_minus_kd = num 1 - rp.kappa * e in
      let delta_theta = d.atan2 e_prime one_minus_kd in
      let cos_dtheta = d.cos delta_theta in
      let tan_dtheta = d.tan delta_theta in
      let slope = rp.d_kappa * e + rp.kappa * e_prime in
      let bracket = e_pprime + slope * tan_dtheta in
      let kappa =
        rp.kappa * cos_dtheta / one_minus_kd
        + bracket * cos_dtheta * cos_dtheta * cos_dtheta / (one_minus_kd * one_minus_kd) in
      let delta_theta_prime = kappa * one_minus_kd / cos_dtheta - rp.kappa in
      record {
        x = rp.x + e * nx;
        y = rp.y + e * ny;
        yaw = normalize_angle fuel (rp.theta + delta_theta);
        kappa = kappa;
        v = s_dot * one_minus_kd / cos_dtheta;
        a =
            s_ddot * one_minus_kd / cos_dtheta
            + s_dot * s_dot / cos_dtheta * (one_minus_kd * tan_dtheta * delta_theta_prime - slope);
      }

  -- (d', d'') from (d_dot, d_ddot), and back.
  unfoldable pub time_deriv_to_arc_deriv : R → R → R → R → R × R
  time_deriv_to_arc_deriv s_dot s_ddot e_dot e_ddot =
      let e_prime = e_dot / s_dot in (e_prime, (e_ddot - e_prime * s_ddot) / (s_dot * s_dot))

  unfoldable pub arc_deriv_to_time_deriv : R → R → R → R → R × R
  arc_deriv_to_time_deriv s_dot s_ddot e_prime e_pprime =
      (s_dot * e_prime, e_pprime * s_dot * s_dot + e_prime * s_ddot)

  unfoldable pub cartesian_to_frenet :
      ℕ → RefLine R → CartesianState R → Option R → FrenetCoordinates R
  cartesian_to_frenet fuel ref cs s_hint =
      let s = find_closest_s fuel ref cs.x cs.y s_hint (num 30) in
      let rp = interpolate fuel ref s in
      let e = (cs.x - rp.x) * neg (d.sin rp.theta) + (cs.y - rp.y) * d.cos rp.theta in
      let one_minus_kd = num 1 - rp.kappa * e in
      let delta_theta = normalize_angle fuel (cs.yaw - rp.theta) in
      let cos_dtheta = d.cos delta_theta in
      let tan_dtheta = d.tan delta_theta in
      let e_prime = one_minus_kd * tan_dtheta in
      let slope = rp.d_kappa * e + rp.kappa * e_prime in
      let delta_theta_prime = cs.kappa * one_minus_kd / cos_dtheta - rp.kappa in
      let s_dot = cs.v * cos_dtheta / one_minus_kd in
      let rhs =
        cs.a
        - s_dot * s_dot / cos_dtheta * (one_minus_kd * tan_dtheta * delta_theta_prime - slope) in
      record {
        s = s;
        s_dot = s_dot;
        s_ddot = rhs * cos_dtheta / one_minus_kd;
        d = e;
        d_prime = e_prime;
        d_pprime =
            neg slope * tan_dtheta + one_minus_kd / (cos_dtheta * cos_dtheta) * delta_theta_prime;
      }

  -- ComputeGeometricPath, position of sample i: eq. (1), x = r(s) + d n(s).
  unfoldable pub geometric_x : ℕ → RefLine R → R → R → R
  geometric_x fuel ref s e = let rp = interpolate fuel ref s in rp.x + e * neg (d.sin rp.theta)

  unfoldable pub geometric_y : ℕ → RefLine R → R → R → R
  geometric_y fuel ref s e = let rp = interpolate fuel ref s in rp.y + e * d.cos rp.theta

  abbrev pub min_segment_length : R
  min_segment_length = decimal 15 2

  abbrev pub item : List R → ℕ → R
  item xs i = get_or (num 0) xs i

  -- `for (reach = 1; reach < n; reach++)`, with `left` rounds to go.
  unfoldable pub widen : ℕ → List R → List R → ℕ → ℕ → ℕ → Reach R → Reach R
  widen zero xs ys n i reach st = st
  widen (suc left) xs ys n i reach st =
      let a = if leb reach i then Nat.◌-◌ i reach else 0 in
      let b = if ltb (Nat.◌+◌ i reach) n then Nat.◌+◌ i reach else Nat.◌-◌ n 1 in
      let dx = item xs b - item xs a in
      let dy = item ys b - item ys a in
      let enough = (d.hypot dx dy > min_segment_length) || ((a == 0) && (b == Nat.◌-◌ n 1)) in
      let rest =
        widen left xs ys n i (suc reach)
          (record { found = false; dx = dx; dy = dy; used = reach }) in
      if a == b
      then st
      else if enough
      then record { found = true; dx = dx; dy = dy; used = reach }
      else rest

  unfoldable pub reach_of : List R → List R → ℕ → ℕ → Reach R
  unfolding widen
  reach_of xs ys n i =
      widen (Nat.◌-◌ n 1) xs ys n i 1 (record { found = false; dx = num 0; dy = num 0; used = 1 })

  unfoldable pub geometric_yaw : List R → List R → ℕ → R → ℕ → R
  unfolding reach_of
  geometric_yaw xs ys n ref_theta0 i =
      let r = reach_of xs ys n i in if r.found then d.atan2 r.dy r.dx else ref_theta0

  -- Held at 0 where a neighbour's heading came from a wider reach, and on short segments.
  unfoldable pub geometric_kappa : ℕ → List R → List R → List R → List ℕ → ℕ → ℕ → R
  geometric_kappa fuel xs ys yaws reaches n i =
      let a = if i == 0 then 0 else Nat.◌-◌ i 1 in
      let b = if i == Nat.◌-◌ n 1 then Nat.◌-◌ n 1 else Nat.◌+◌ i 1 in
      let seg_len = d.hypot (item xs b - item xs a) (item ys b - item ys a) in
      if ltb 1 (get_or 1 reaches a) || ltb 1 (get_or 1 reaches b)
      then num 0
      else if seg_len > min_segment_length
      then normalize_angle fuel (item yaws b - item yaws a) / seg_len
      else num 0

  unfoldable pub compute_geometric_path : ℕ → List R → List R → RefLine R → GeometricPath R
  unfolding geometric_x geometric_y geometric_yaw geometric_kappa reach_of
  compute_geometric_path fuel ss ds ref =
      let n = length ss in
      let xs = map (λ i. geometric_x fuel ref (item ss i) (item ds i)) (iota n) in
      let ys = map (λ i. geometric_y fuel ref (item ss i) (item ds i)) (iota n) in
      let ref_theta0 = if n == 0 then num 0 else (interpolate fuel ref (item ss 0)).theta in
      let yaws = map (geometric_yaw xs ys n ref_theta0) (iota n) in
      let reaches = map (λ i. (reach_of xs ys n i).used) (iota n) in
      record {
        x = xs;
        y = ys;
        yaw = yaws;
        kappa = map (geometric_kappa fuel xs ys yaws reaches n) (iota n);
      }

  -- Below this speed ConvertToCartesianPath takes the geometric values, and divides by nothing.
  abbrev pub min_speed_for_analytic : R
  min_speed_for_analytic = decimal 1 1

  unfoldable pub convert_sample :
      ℕ → FrenetPath R → RefLine R → GeometricPath R → ℕ → CartesianState R
  convert_sample fuel path ref geo i =
      let s_d = item path.s_d i in
      let s_dd = item path.s_dd i in
      let (e_prime, e_pprime) =
        time_deriv_to_arc_deriv s_d s_dd (item path.d_d i) (item path.d_dd i) in
      let rp = interpolate fuel ref (item path.s i) in
      if abs s_d < min_speed_for_analytic
      then record {
        x = item geo.x i;
        y = item geo.y i;
        yaw = item geo.yaw i;
        kappa = item geo.kappa i;
        v = s_d;
        a = s_dd;
      }
      else frenet_to_cartesian fuel rp (item path.s i) s_d s_dd (item path.d i) e_prime e_pprime

  -- The six arrays of a path, from its samples.
  abbrev pub path_of : List (CartesianState R) → CartesianPath R
  path_of cs = record {
    x = map (λ c. c.x) cs;
    y = map (λ c. c.y) cs;
    yaw = map (λ c. c.yaw) cs;
    kappa = map (λ c. c.kappa) cs;
    v = map (λ c. c.v) cs;
    a = map (λ c. c.a) cs;
  }

  unfoldable pub convert_to_cartesian_path : ℕ → FrenetPath R → RefLine R → CartesianPath R
  convert_to_cartesian_path fuel path ref =
      let geo = compute_geometric_path fuel path.s path.d ref in
      path_of (map (convert_sample fuel path ref geo) (iota (length path.t)))
