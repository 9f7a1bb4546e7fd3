-- ===== src/Planner/Maneuver/Sampled.antt =====
-- The arrays of the candidates of ResolveManeuver have one length: no loop over the samples reads
-- out of range.
use mpc_ws.Prelude.{
  subst, ℕ, ◌≡◌, sym, inl, inr, false, List, [], ◌∷◌, map, arith, if◌then◌else◌, Mem, is_empty,
  Mem-map,
}
use mpc_ws.Double.{Double}
use mpc_ws.Prelude.Int.{ℤ}
use mpc_ws.Planner.Collision.{filter_by_collision, filter_path}
use mpc_ws.Planner.Collision.Filter.{filter_path_cases}
use mpc_ws.Planner.Generator.{KinematicLimits, PathGeneratorConfig, generate_lateral_candidates}
use mpc_ws.Planner.Maneuver.{
  coast_exempt_id, combine_lateral_longitudinal, filter_by_curvature, filter_curvature,
  filter_lateral, filter_lateral_by_acceleration, filter_longitudinal,
  filter_longitudinal_by_acceleration, join, longitudinal_candidates, maneuver_config,
  resolve_maneuver,
}
use mpc_ws.Planner.Maneuver.Arrays.{
  HasLateral, HasLongitudinal, for_mode-HasLongitudinal, lateral_candidates-HasLateral,
}
use mpc_ws.Planner.Maneuver.Joined.{IsJoined, combine-Joined}
use mpc_ws.Planner.Types.{
  CollisionCheckConfig, FrenetPath, FrenetState, ObjectInfo, PlannerCommand, RefLine, VehicleShape,
}

module _ {R : Type 0} ⦃d : Double R⦄ where
  -- A filter changes no array.
  lateral_set-HasLateral :
      (limits : KinematicLimits R) (paths : List (FrenetPath R)) (lat : FrenetPath R)
      → ((p : FrenetPath R) → Mem p paths → HasLateral p)
      → Mem lat (filter_lateral_by_acceleration limits paths)
      → HasLateral lat
  unfolding filter_lateral_by_acceleration filter_lateral
  lateral_set-HasLateral limits paths lat each m =
      let (x, n, e) = Mem-map (filter_lateral limits) paths lat m in
      let h : HasLateral (filter_lateral limits x) = ground (arith, each x n) in
      subst HasLateral e h

  longitudinal_set-HasLongitudinal :
      (limits : KinematicLimits R) (paths : List (FrenetPath R)) (lon : FrenetPath R)
      → ((p : FrenetPath R) → Mem p paths → HasLongitudinal p)
      → Mem lon (filter_longitudinal_by_acceleration limits paths)
      → HasLongitudinal lon
  unfolding filter_longitudinal_by_acceleration filter_longitudinal
  longitudinal_set-HasLongitudinal limits paths lon each m =
      let (x, n, e) = Mem-map (filter_longitudinal limits) paths lon m in
      let h : HasLongitudinal (filter_longitudinal limits x) = ground (arith, each x n) in
      subst HasLongitudinal e h

  -- The arrays of a candidate, of one length that is not 0.
  pub record IsSampled (p : FrenetPath R) : Type 0 where
    pub some_time : is_empty p.t ≡ false
    pub lateral : HasLateral p
    pub longitudinal : HasLongitudinal p

  joined-IsSampled :
      (lats lons : List (FrenetPath R)) (p lat lon : FrenetPath R)
      → IsJoined lats lons p lat lon
      → HasLateral lat
      → HasLongitudinal lon
      → IsSampled p
  joined-IsSampled lats lons p lat lon j a b =
      let both : IsSampled (join lat lon) = record {
        some_time = j.sampled;
        lateral = a;
        longitudinal = ground (arith, j.same_length);
      } in
      subst IsSampled j.joined both

  map-IsSampled :
      (f : FrenetPath R → FrenetPath R) (paths : List (FrenetPath R)) (p : FrenetPath R)
      → ((q : FrenetPath R) → IsSampled q → IsSampled (f q))
      → ((q : FrenetPath R) → Mem q paths → IsSampled q)
      → Mem p (map f paths)
      → IsSampled p
  map-IsSampled f paths p keeps each m =
      let (x, n, e) = Mem-map f paths p m in subst IsSampled e (keeps x (each x n))

  filter_curvature-IsSampled :
      (fuel : ℕ) (ref : RefLine R) (limits : KinematicLimits R) (q : FrenetPath R)
      → IsSampled q
      → IsSampled (filter_curvature fuel ref limits q)
  unfolding filter_curvature
  filter_curvature-IsSampled fuel ref limits q h = ground arith

  filter_path-IsSampled :
      (fuel : ℕ) (ref : RefLine R) (objs : List (ObjectInfo R)) (shape : VehicleShape R)
      (collision : CollisionCheckConfig R) (exempt_id : ℤ) (q : FrenetPath R)
      → IsSampled q
      → IsSampled (filter_path fuel ref objs shape collision exempt_id q)
  filter_path-IsSampled fuel ref objs shape collision exempt_id q h =
      elim (filter_path_cases fuel ref objs shape collision exempt_id q) [
        | inl e ↦ subst IsSampled (sym e) h
        | inr (id, index, v, k, e) ↦
            subst IsSampled (sym e) (record {
              some_time = h.some_time;
              lateral = h.lateral;
              longitudinal = h.longitudinal;
            })
      ]

  checked-IsSampled :
      (fuel : ℕ) (ref : RefLine R) (objs : List (ObjectInfo R)) (shape : VehicleShape R)
      (collision : CollisionCheckConfig R) (exempt_id : ℤ) (paths : List (FrenetPath R))
      (p : FrenetPath R)
      → ((q : FrenetPath R) → Mem q paths → IsSampled q)
      → Mem p (
          if is_empty objs
          then paths
          else filter_by_collision fuel ref objs shape collision exempt_id paths)
      → IsSampled p
  unfolding filter_by_collision
  checked-IsSampled fuel ref [] shape collision exempt_id paths p each m = each p m
  checked-IsSampled fuel ref (obj ∷ objs) shape collision exempt_id paths p each m =
      map-IsSampled (filter_path fuel ref (obj ∷ objs) shape collision exempt_id) paths p
        (filter_path-IsSampled fuel ref (obj ∷ objs) shape collision exempt_id) each m

  -- Every candidate of ResolveManeuver, valid or not, has a time at least, and its six other arrays
  -- are as long as the times: the loops over the samples read in range.
  pub resolve_maneuver-IsSampled :
      (fuel : ℕ)
      → (start : FrenetState R) → (cmd : PlannerCommand R) → (ref : RefLine R)
      → (cfg : PathGeneratorConfig R) → (limits : KinematicLimits R) → (lane_width : R)
      → (objs : List (ObjectInfo R)) → (shape : VehicleShape R)
      → (collision : CollisionCheckConfig R) → (p : FrenetPath R)
      → Mem p (resolve_maneuver fuel start cmd ref cfg limits lane_width objs shape collision).0
      → IsSampled p
  unfolding resolve_maneuver filter_by_curvature
  resolve_maneuver-IsSampled fuel start cmd ref cfg limits lane_width objs shape collision p =
      let lat_cfg = maneuver_config start cmd cfg lane_width in
      let lats = generate_lateral_candidates fuel start lat_cfg in
      let lons = longitudinal_candidates fuel start cmd cfg limits in
      let lat_set = filter_lateral_by_acceleration limits lats in
      let lon_set = filter_longitudinal_by_acceleration limits lons in
      let combined = combine_lateral_longitudinal lat_set lon_set in
      let joined : (q : FrenetPath R) → Mem q combined → IsSampled q = λ q n.
        let (lat, lon, j) = combine-Joined lat_set lon_set q n in
        joined-IsSampled lat_set lon_set q lat lon j
          (lateral_set-HasLateral limits lats lat (lateral_candidates-HasLateral fuel start lat_cfg)
            j.from_lateral)
          (longitudinal_set-HasLongitudinal limits lons lon
            (λ x. for_mode-HasLongitudinal fuel start cfg x cmd.mode cmd limits)
            j.from_longitudinal) in
      checked-IsSampled fuel ref objs shape collision (coast_exempt_id cmd)
        (filter_by_curvature fuel ref limits combined) p
        (λ q.
          map-IsSampled (filter_curvature fuel ref limits) combined q
            (filter_curvature-IsSampled fuel ref limits) joined)
