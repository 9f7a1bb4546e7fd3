-- ===== src/Planner/RefLine.antt =====
-- frenet_planner/src/frenet_planner/frenet/ref_line.cpp: interpolation on the reference line and
-- the projection of a point on it. `pts.back()` of an empty line is undefined in the source, and
-- the point `origin` here; every caller loads a line of at least two points first.
pub mod Bracket
use Prim.Native.Nat
use mpc_ws.Prelude.{
  ℕ, zero, suc, Bool, true, false, ◌&&◌, ◌||◌, not, Option, none, some, List, [], ◌∷◌, ltb, leb,
  if◌then◌else◌, length, get_or, last_or, head_or,
}
use mpc_ws.Double.{Double, ◌+◌, ◌-◌, ◌*◌, ◌/◌, ◌<◌, ◌≤◌, ◌>◌, ◌≥◌, neg, abs, decimal, num, min}
use mpc_ws.Planner.Types.{RefPoint, RefLine}

-- The best waypoint so far: its squared distance, its s, and `found`.
pub record Nearest (R : Type 0) : Type 0 where
  pub d2 : R
  pub s : R
  pub found : Bool

module _ {R : Type 0} ⦃d : Double R⦄ where
  abbrev pub π : R
  π = decimal 3_141_592_653_589_793 15

  -- The two loops of NormalizeAngleDiff, and of NormalizeAngle in frenet_converter.cpp.
  unfoldable pub turn_down : ℕ → R → R
  turn_down zero θ = θ
  turn_down (suc fuel) θ = let rest = turn_down fuel (θ - num 2 * π) in if θ > π then rest else θ

  unfoldable pub turn_up : ℕ → R → R
  turn_up zero θ = θ
  turn_up (suc fuel) θ = let rest = turn_up fuel (θ + num 2 * π) in if θ < neg π then rest else θ

  unfoldable pub normalize_angle : ℕ → R → R
  unfolding turn_down turn_up
  normalize_angle fuel θ = turn_up fuel (turn_down fuel θ)

  abbrev pub origin : RefPoint R
  origin = record { x = num 0; y = num 0; s = num 0; theta = num 0; kappa = num 0; d_kappa = num 0 }

  abbrev pub point_at : List (RefPoint R) → ℕ → RefPoint R
  point_at pts i = get_or origin pts i

  abbrev pub back_point : List (RefPoint R) → RefPoint R
  back_point pts = last_or origin pts

  -- `while (hi - lo > 1)` of Interpolate: the interval that holds `s`.
  unfoldable pub bisect : ℕ → List (RefPoint R) → R → ℕ → ℕ → ℕ × ℕ
  bisect zero pts s lo hi = (lo, hi)
  bisect (suc fuel) pts s lo hi =
      let mid = Nat.◌/◌ (Nat.◌+◌ lo hi) 2 in
      let left = (point_at pts mid).s ≤ s in
      let rest = bisect fuel pts s (if left then mid else lo) (if left then hi else mid) in
      if ltb 1 (Nat.◌-◌ hi lo) then rest else (lo, hi)

  -- s, wrapped into the closed track.
  unfoldable pub wrap_s : R → R → R
  wrap_s s_max s =
      let wrapped = d.fmod s s_max in if wrapped < num 0 then wrapped + s_max else wrapped

  abbrev blend : R → R → R → R
  blend ratio a b = a + ratio * (b - a)

  unfoldable pub between : ℕ → RefPoint R → RefPoint R → R → RefPoint R
  between fuel lo hi s =
      let ds = hi.s - lo.s in
      let ratio = if ds > decimal 1 9 then (s - lo.s) / ds else num 0 in
      record {
        s = s;
        x = blend ratio lo.x hi.x;
        y = blend ratio lo.y hi.y;
        theta = lo.theta + ratio * normalize_angle fuel (hi.theta - lo.theta);
        kappa = blend ratio lo.kappa hi.kappa;
        d_kappa = blend ratio lo.d_kappa hi.d_kappa;
      }

  -- Interpolate, with the search on an interval of `n - 1` steps.
  unfoldable pub interpolate : ℕ → RefLine R → R → RefPoint R
  interpolate fuel ref s =
      let pts = ref.points in
      let s' = wrap_s (back_point pts).s s in
      if s' ≤ (head_or origin pts).s
      then head_or origin pts
      else if s' ≥ (back_point pts).s
      then back_point pts
      else (let (lo, hi) = bisect (length pts) pts s' 0 (Nat.◌-◌ (length pts) 1) in
          between fuel (point_at pts lo) (point_at pts hi) s')

  abbrev squared_distance : R → R → RefPoint R → R
  squared_distance x y pt = let dx = x - pt.x in let dy = y - pt.y in dx * dx + dy * dy

  abbrev closer : R → R → Nearest R → RefPoint R → Nearest R
  closer x y best pt =
      if squared_distance x y pt < best.d2
      then record { d2 = squared_distance x y pt; s = pt.s; found = true }
      else best

  -- The loop over the whole line.
  unfoldable pub nearest_all : R → R → List (RefPoint R) → Nearest R → Nearest R
  nearest_all x y [] best = best
  nearest_all x y (pt ∷ pts) best = nearest_all x y pts (closer x y best pt)

  abbrev pub circular_distance : R → R → R → R
  circular_distance s_max hint s = let diff = abs (s - hint) in min diff (s_max - diff)

  -- The loop over the points within `window` of the hint, across the seam too.
  unfoldable pub nearest_window : R → R → R → R → R → List (RefPoint R) → Nearest R → Nearest R
  nearest_window x y s_max hint window [] best = best
  nearest_window x y s_max hint window (pt ∷ pts) best =
      nearest_window x y s_max hint window pts
        (if circular_distance s_max hint pt.s > window then best else closer x y best pt)

  unfoldable pub nearest_hinted : RefLine R → R → R → Option R → R → Nearest R → Nearest R
  unfolding nearest_window
  nearest_hinted ref x y none window best = best
  nearest_hinted ref x y (some hint) window best =
      nearest_window x y (back_point ref.points).s hint window ref.points best

  -- The Newton iterations of FindClosestS, at most 20.
  unfoldable pub newton : ℕ → ℕ → RefLine R → R → R → R → R
  newton fuel zero ref x y s = s
  newton fuel (suc iters) ref x y s =
      let rp = interpolate fuel ref s in
      let f = (rp.x - x) * d.cos rp.theta + (rp.y - y) * d.sin rp.theta in
      let e = (x - rp.x) * neg (d.sin rp.theta) + (y - rp.y) * d.cos rp.theta in
      let fp = num 1 - rp.kappa * e in
      let ds = neg f / fp in
      let s' = wrap_s (back_point ref.points).s (s + ds) in
      let rest = newton fuel iters ref x y s' in
      if abs fp < decimal 1 9 then s else if abs ds < decimal 1 6 then s' else rest

  unfoldable pub find_closest_s : ℕ → RefLine R → R → R → Option R → R → R
  unfolding newton nearest_all nearest_hinted
  find_closest_s fuel ref x y s_hint window =
      let start : Nearest R = record {
        d2 = d.max_value;
        s = (head_or origin ref.points).s;
        found = false;
      } in
      let near = nearest_hinted ref x y s_hint window start in
      let best = if near.found then near else nearest_all x y ref.points near in
      newton fuel 20 ref x y best.s
