-- ===== src/Planner/Collision.antt =====
-- frenet_planner/src/frenet_planner/frenet/collision_checker.cpp: oriented boxes, the separating
-- axis test, and the filter of the candidates. `fuel` bounds the turns of the angle loops and the
-- rounds of the coast loop.
pub mod Axes
pub mod Filter
use Prim.Native.Nat
use mpc_ws.Prelude.{
  ℕ, zero, suc, ◌≡◌, refl, sym, ap, ◌∙◌, ◌≢◌, ◌↔◌, ◌⊎◌, inl, inr, Bool, true, false, not, ◌&&◌,
  ◌||◌, Option, none, some, List, [], ◌∷◌, ◌++◌, map, arith, ltb, leb, ◌==◌, if◌then◌else◌,
  Bool-cases, Option-cases, is_some, true≢false, &&_split, length, get_elem?, get_or, last_or,
  head_or, drop, take, All, Any, length-map, All-map, All-of, iota, length-iota, filter, Mem,
}
use mpc_ws.Double.{
  Double, ◌+◌, ◌-◌, ◌*◌, ◌/◌, ◌<◌, ◌≤◌, ◌>◌, ◌≥◌, neg, abs, decimal, num, max, min, clamp,
}
use mpc_ws.Double.Laws.{
  IsOrdered, IsExact, IsNumber, min_le_left, min_le_right, le_max_left, le_max_right, clamp_bounds,
  exact_limit,
}
use mpc_ws.Prelude.Int.{ℤ, pos, negsuc, minus_one, is_negative, ◌==ℤ◌, ==ℤ_iff, ltb_ℤ, leb_ℤ, ◌+ℤ◌}
use mpc_ws.Double.Steps.{steps}
use mpc_ws.Planner.Types.{
  ObjectInfo, RefLine, CartesianState, FrenetPath, VehicleShape, CollisionCheckConfig, OrientedBox,
  RejectionReason, GeometricPath,
}
use mpc_ws.Planner.RefLine.{interpolate}
use mpc_ws.Planner.Converter.{frenet_to_cartesian, compute_geometric_path, item}

module _ {R : Type 0} ⦃d : Double R⦄ where
  unfoldable pub make_ego_box : CartesianState R → VehicleShape R → R → OrientedBox R
  make_ego_box cs shape margin = record {
    cx = cs.x;
    cy = cs.y;
    heading = cs.yaw;
    half_length = shape.length / num 2 + margin;
    half_width = shape.width / num 2 + margin;
  }

  -- The obstacle after t seconds at a constant turn rate, or straight on if it hardly turns.
  unfoldable pub make_obstacle_box : ObjectInfo R → R → R → OrientedBox R
  make_obstacle_box obj t margin =
      let turning = abs obj.yaw_rate > decimal 1 3 in
      let ahead = obj.heading + obj.yaw_rate * t in
      record {
        cx =
            if turning
            then obj.x + obj.speed / obj.yaw_rate * (d.sin ahead - d.sin obj.heading)
            else obj.x + obj.speed * d.cos obj.heading * t;
        cy =
            if turning
            then obj.y - obj.speed / obj.yaw_rate * (d.cos ahead - d.cos obj.heading)
            else obj.y + obj.speed * d.sin obj.heading * t;
        heading = ahead;
        half_length = obj.length / num 2 + margin;
        half_width = obj.width / num 2 + margin;
      }

  unfoldable pub projected_radius : OrientedBox R → R → R → R
  projected_radius box lx ly =
      box.half_length * abs (d.cos box.heading * lx + d.sin box.heading * ly)
      + box.half_width * abs (neg (d.sin box.heading) * lx + d.cos box.heading * ly)

  unfoldable pub separated_along_axis : OrientedBox R → OrientedBox R → R → R → Bool
  separated_along_axis a b lx ly =
      abs ((b.cx - a.cx) * lx + (b.cy - a.cy) * ly)
      > projected_radius a lx ly + projected_radius b lx ly

  -- The four candidate axes: the length and the width of each box.
  abbrev pub axes_of : OrientedBox R → OrientedBox R → List (R × R)
  axes_of a b =
      (d.cos a.heading, d.sin a.heading)
      ∷ (neg (d.sin a.heading), d.cos a.heading)
      ∷ (d.cos b.heading, d.sin b.heading)
      ∷ (neg (d.sin b.heading), d.cos b.heading)
      ∷ []

  unfoldable pub none_separates : OrientedBox R → OrientedBox R → List (R × R) → Bool
  none_separates a b [] = true
  none_separates a b ((lx, ly) ∷ axes) =
      if separated_along_axis a b lx ly then false else none_separates a b axes

  unfoldable pub check_obb_overlap : OrientedBox R → OrientedBox R → Bool
  unfolding none_separates
  check_obb_overlap a b = none_separates a b (axes_of a b)

  -- The inner loop of FilterByCollision: the first obstacle, but for the exempt ones, whose box at
  -- time t overlaps.
  unfoldable pub first_overlap :
      (ObjectInfo R → Bool) → OrientedBox R → R → List (ObjectInfo R) → Option ℤ
  first_overlap exempt box t [] = none
  first_overlap exempt box t (obj ∷ objs) =
      let rest = first_overlap exempt box t objs in
      if exempt obj
      then rest
      else if check_obb_overlap box (make_obstacle_box obj t (num 0))
      then some obj.id
      else rest

  abbrev pub no_exemption : ObjectInfo R → Bool
  no_exemption obj = false

  -- The ego box at sample i of a candidate.
  unfoldable pub sample_box :
      VehicleShape R → CollisionCheckConfig R → GeometricPath R → List R → ℕ → OrientedBox R
  sample_box shape cfg geo ts i =
      let cs : CartesianState R = record {
        x = item geo.x i;
        y = item geo.y i;
        yaw = item geo.yaw i;
        kappa = num 0;
        v = num 0;
        a = num 0;
      } in
      make_ego_box cs shape (cfg.safety_margin + cfg.margin_growth_rate * item ts i)

  -- `for (i = 0; i < path.t.size() && !collided; i++)`: the object and the sample of a collision.
  unfoldable pub first_sample_hit :
      VehicleShape R
      → CollisionCheckConfig R
      → GeometricPath R
      → List R
      → List (ObjectInfo R)
      → List ℕ
      → Option (ℤ × ℕ)
  first_sample_hit shape cfg geo ts objs [] = none
  first_sample_hit shape cfg geo ts objs (i ∷ is) =
      elim (first_overlap no_exemption (sample_box shape cfg geo ts i) (item ts i) objs) [
        | some id ↦ some (id, i)
        | none ↦ first_sample_hit shape cfg geo ts objs is
      ]

  -- The ego box that coasts on from the end of a candidate, at time t.
  unfoldable pub coast_box :
      ℕ → RefLine R → VehicleShape R → CollisionCheckConfig R → FrenetPath R → R → OrientedBox R
  coast_box fuel ref shape cfg path t =
      let last_t = last_or (num 0) path.t in
      let last_s_dot = last_or (num 0) path.s_d in
      let s_coast = last_or (num 0) path.s + last_s_dot * (t - last_t) in
      let cs =
        frenet_to_cartesian fuel (interpolate fuel ref s_coast) s_coast last_s_dot (num 0)
          (last_or (num 0) path.d) (num 0) (num 0) in
      make_ego_box cs shape (cfg.safety_margin + cfg.margin_growth_rate * last_t)

  -- The coast loop over its times.
  unfoldable pub first_coast_hit :
      (R → OrientedBox R) → (ObjectInfo R → Bool) → List (ObjectInfo R) → List R → Option ℤ
  first_coast_hit box exempt objs [] = none
  first_coast_hit box exempt objs (t ∷ ts) = elim (first_overlap exempt (box t) t objs) [
    | some id ↦ some id
    | none ↦ first_coast_hit box exempt objs ts
  ]

  -- The times of the coast loop: none for a candidate with no samples or at a standstill.
  unfoldable pub coast_times : ℕ → CollisionCheckConfig R → FrenetPath R → List R
  coast_times fuel cfg path =
      let dt = if leb 2 (length path.t) then item path.t 1 - item path.t 0 else decimal 1 1 in
      if length path.t == 0
      then []
      else if abs (last_or (num 0) path.s_d) ≥ decimal 1 1
      then steps fuel (last_or (num 0) path.t + dt) dt (cfg.reactive_lookahead + decimal 1 9)
      else []

  abbrev pub reject_collision : FrenetPath R → ℤ → ℕ → FrenetPath R
  reject_collision path id index = record path {
    valid = false;
    rejection_reason = RejectionReason.collision;
    collision_object_id = id;
    collision_sample_index = pos index;
  }

  -- The body of the loop over the candidates.
  unfoldable pub filter_path :
      ℕ
      → RefLine R
      → List (ObjectInfo R)
      → VehicleShape R
      → CollisionCheckConfig R
      → ℤ
      → FrenetPath R
      → FrenetPath R
  filter_path fuel ref objs shape cfg exempt_id path =
      let geo = compute_geometric_path fuel path.s path.d ref in
      let on_path = first_sample_hit shape cfg geo path.t objs (iota (length path.t)) in
      let coasting =
        first_coast_hit (coast_box fuel ref shape cfg path) (λ obj. obj.id ==ℤ exempt_id) objs
          (coast_times fuel cfg path) in
      if path.valid
      then (elim on_path [
        | some (id, i) ↦ reject_collision path id i
        | none ↦ elim coasting [
          | some id ↦ reject_collision path id (Nat.◌-◌ (length path.t) 1)
          | none ↦ path
        ]
      ])
      else path

  unfoldable pub filter_by_collision :
      ℕ
      → RefLine R
      → List (ObjectInfo R)
      → VehicleShape R
      → CollisionCheckConfig R
      → ℤ
      → List (FrenetPath R)
      → List (FrenetPath R)
  unfolding filter_path
  filter_by_collision fuel ref objs shape cfg exempt_id =
      map (filter_path fuel ref objs shape cfg exempt_id)
