-- ===== src/Planner/Maneuver/Feasible.antt =====
-- What ResolveManeuver leaves valid keeps the limits of the vehicle and is free of collisions.
use mpc_ws.Prelude.{
  subst, ℕ, ◌≡◌, refl, sym, ap, ◌∙◌, ◌↔◌, true, false, List, [], ◌∷◌, arith, if◌then◌else◌, length,
  All, All-of, iota, Mem, is_empty, Mem-map,
}
use mpc_ws.Double.{Double, ◌>◌, abs}
use mpc_ws.Prelude.Int.{ℤ}
use mpc_ws.Behavior.Feature.{lane_width}
use mpc_ws.Planner.Collision.{coast_times, filter_by_collision, filter_path}
use mpc_ws.Planner.Collision.Filter.{
  IsCollisionFree, coast_times-IsCoastClear, filter_path-IsCollisionFree, filter_path-same,
}
use mpc_ws.Planner.Converter.{compute_geometric_path}
use mpc_ws.Planner.Generator.{KinematicLimits, PathGeneratorConfig, generate_lateral_candidates}
use mpc_ws.Planner.Maneuver.{
  coast_exempt_id, combine_lateral_longitudinal, exceeds, filter_by_curvature, filter_curvature,
  filter_lateral, filter_lateral_by_acceleration, filter_longitudinal,
  filter_longitudinal_by_acceleration, longitudinal_candidates, maneuver_config, resolve_maneuver,
}
use mpc_ws.Planner.Maneuver.Joined.{combine-Joined}
use mpc_ws.Planner.Types.{
  CollisionCheckConfig, FrenetPath, FrenetState, ObjectInfo, PlannerCommand, RefLine, VehicleShape,
}

module _ {R : Type 0} ⦃d : Double R⦄ where
  -- No sample is larger than the limit.
  abbrev pub Within : R → List R → Type 0
  Within limit = All λ x. abs x > limit ≡ false

  exceeds-Within : (limit : R) (xs : List R) → (exceeds limit xs ≡ false) ↔ Within limit xs
  unfolding exceeds
  exceeds-Within limit [] = (λ _. tt, λ _. refl)
  exceeds-Within limit (x ∷ xs) =
      let ih = exceeds-Within limit xs in (λ e. ground (arith, ih.0), λ h. ground (arith, ih.1))

  filter_lateral-valid :
      (limits : KinematicLimits R) (path : FrenetPath R)
      → (filter_lateral limits path).valid ≡ true
      → (filter_lateral limits path ≡ path) × Within limits.max_lateral_accel path.d_dd
  unfolding filter_lateral
  filter_lateral-valid limits path v =
      let w = exceeds-Within limits.max_lateral_accel path.d_dd in ground (arith, w.0)

  filter_longitudinal-valid :
      (limits : KinematicLimits R) (path : FrenetPath R)
      → (filter_longitudinal limits path).valid ≡ true
      → (filter_longitudinal limits path ≡ path) × Within limits.max_longitudinal_accel path.s_dd
  unfolding filter_longitudinal
  filter_longitudinal-valid limits path v =
      let w = exceeds-Within limits.max_longitudinal_accel path.s_dd in ground (arith, w.0)

  filter_curvature-valid :
      (fuel : ℕ) (ref : RefLine R) (limits : KinematicLimits R) (path : FrenetPath R)
      → (filter_curvature fuel ref limits path).valid ≡ true
      → (filter_curvature fuel ref limits path ≡ path)
        × Within limits.max_curvature (compute_geometric_path fuel path.s path.d ref).kappa
  unfolding filter_curvature
  filter_curvature-valid fuel ref limits path v =
      let w =
        exceeds-Within limits.max_curvature (compute_geometric_path fuel path.s path.d ref).kappa in
      ground (arith, w.0)

  -- The limits of the vehicle, and no collision but with the exempt object in the coast.
  pub record IsFeasible (fuel : ℕ) (ref : RefLine R) (limits : KinematicLimits R)
      (objs : List (ObjectInfo R)) (shape : VehicleShape R) (collision : CollisionCheckConfig R)
      (exempt_id : ℤ) (p : FrenetPath R) : Type 0 where
    pub lateral : Within limits.max_lateral_accel p.d_dd
    pub longitudinal : Within limits.max_longitudinal_accel p.s_dd
    pub curvature : Within limits.max_curvature (compute_geometric_path fuel p.s p.d ref).kappa
    pub clear : IsCollisionFree fuel ref objs shape collision exempt_id p

  lateral_set-Within :
      (limits : KinematicLimits R) (paths : List (FrenetPath R)) (lat : FrenetPath R)
      → Mem lat (filter_lateral_by_acceleration limits paths)
      → lat.valid ≡ true
      → Within limits.max_lateral_accel lat.d_dd
  unfolding filter_lateral_by_acceleration
  lateral_set-Within limits paths lat m v =
      let (x, _, e) = Mem-map (filter_lateral limits) paths lat m in
      let (same, w) = filter_lateral-valid limits x (ap (λ q. q.valid) e ∙ v) in
      subst (λ (q : FrenetPath R). Within limits.max_lateral_accel q.d_dd) (sym same ∙ e) w

  longitudinal_set-Within :
      (limits : KinematicLimits R) (paths : List (FrenetPath R)) (lon : FrenetPath R)
      → Mem lon (filter_longitudinal_by_acceleration limits paths)
      → lon.valid ≡ true
      → Within limits.max_longitudinal_accel lon.s_dd
  unfolding filter_longitudinal_by_acceleration
  longitudinal_set-Within limits paths lon m v =
      let (x, _, e) = Mem-map (filter_longitudinal limits) paths lon m in
      let (same, w) = filter_longitudinal-valid limits x (ap (λ q. q.valid) e ∙ v) in
      subst (λ (q : FrenetPath R). Within limits.max_longitudinal_accel q.s_dd) (sym same ∙ e) w

  -- With no obstacle nothing is to be checked.
  no_obstacle-IsCollisionFree :
      (fuel : ℕ) (ref : RefLine R) (shape : VehicleShape R) (collision : CollisionCheckConfig R)
      (exempt_id : ℤ) (p : FrenetPath R)
      → IsCollisionFree fuel ref [] shape collision exempt_id p
  no_obstacle-IsCollisionFree fuel ref shape collision exempt_id p = record {
    samples_clear = All-of _ (iota (length p.t)) (λ _. tt);
    coast_clear =
        (coast_times-IsCoastClear fuel ref [] shape collision exempt_id p).0
          (All-of _ (coast_times fuel collision p) (λ _. tt));
  }

  -- The last two stages: what is valid after them was valid in the combined set.
  checked-IsCollisionFree :
      (fuel : ℕ) (ref : RefLine R) (objs : List (ObjectInfo R)) (shape : VehicleShape R)
      (collision : CollisionCheckConfig R) (exempt_id : ℤ) (paths : List (FrenetPath R))
      (p : FrenetPath R)
      → Mem p (
          if is_empty objs
          then paths
          else filter_by_collision fuel ref objs shape collision exempt_id paths)
      → p.valid ≡ true
      → Mem p paths × IsCollisionFree fuel ref objs shape collision exempt_id p
  unfolding filter_by_collision
  checked-IsCollisionFree fuel ref [] shape collision exempt_id paths p m v =
      (m, no_obstacle-IsCollisionFree fuel ref shape collision exempt_id p)
  checked-IsCollisionFree fuel ref (obj ∷ objs) shape collision exempt_id paths p m v =
      let all = obj ∷ objs in
      let (x, n, e) = Mem-map (filter_path fuel ref all shape collision exempt_id) paths p m in
      let still = ap (λ q. q.valid) e ∙ v in
      let free = (filter_path-IsCollisionFree fuel ref all shape collision exempt_id x).0 still in
      let same = filter_path-same fuel ref all shape collision exempt_id x still in
      (
        subst (λ q. Mem q paths) (sym same ∙ e) n,
        subst (IsCollisionFree fuel ref all shape collision exempt_id) (sym same ∙ e) free.1,
      )

  curved-Within :
      (fuel : ℕ) (ref : RefLine R) (limits : KinematicLimits R) (paths : List (FrenetPath R))
      (p : FrenetPath R)
      → Mem p (filter_by_curvature fuel ref limits paths)
      → p.valid ≡ true
      → Mem p paths × Within limits.max_curvature (compute_geometric_path fuel p.s p.d ref).kappa
  unfolding filter_by_curvature
  curved-Within fuel ref limits paths p m v =
      let (x, n, e) = Mem-map (filter_curvature fuel ref limits) paths p m in
      let (same, w) = filter_curvature-valid fuel ref limits x (ap (λ q. q.valid) e ∙ v) in
      (
        subst (λ q. Mem q paths) (sym same ∙ e) n,
        subst
            (λ (q : FrenetPath R).
              Within limits.max_curvature (compute_geometric_path fuel q.s q.d ref).kappa)
            (sym same ∙ e) w,
      )

  -- A candidate of ResolveManeuver that is valid keeps the limits of the lateral and of the
  -- longitudinal acceleration and of the curvature at every sample, and collides with no obstacle,
  -- at any sample or in the coast, where the leader of FOLLOWING and MERGE is exempt.
  pub resolve_maneuver-IsFeasible :
      (fuel : ℕ)
      → (start : FrenetState R) → (cmd : PlannerCommand R) → (ref : RefLine R)
      → (cfg : PathGeneratorConfig R) → (limits : KinematicLimits R) → (lane_width : R)
      → (objs : List (ObjectInfo R)) → (shape : VehicleShape R)
      → (collision : CollisionCheckConfig R) → (p : FrenetPath R)
      → Mem p (resolve_maneuver fuel start cmd ref cfg limits lane_width objs shape collision).0
      → p.valid ≡ true
      → IsFeasible fuel ref limits objs shape collision (coast_exempt_id cmd) p
  unfolding resolve_maneuver
  resolve_maneuver-IsFeasible fuel start cmd ref cfg limits lane_width objs shape collision p m v =
      let lats =
        generate_lateral_candidates fuel start (maneuver_config start cmd cfg lane_width) in
      let lons = longitudinal_candidates fuel start cmd cfg limits in
      let lat_set = filter_lateral_by_acceleration limits lats in
      let lon_set = filter_longitudinal_by_acceleration limits lons in
      let combined = combine_lateral_longitudinal lat_set lon_set in
      let (m1, free) =
        checked-IsCollisionFree fuel ref objs shape collision (coast_exempt_id cmd)
          (filter_by_curvature fuel ref limits combined) p m v in
      let (m2, curved) = curved-Within fuel ref limits combined p m1 v in
      let (lat, lon, j) = combine-Joined lat_set lon_set p m2 in
      record {
        lateral =
            subst (λ (q : FrenetPath R). Within limits.max_lateral_accel q.d_dd) j.joined
              (lateral_set-Within limits lats lat j.from_lateral j.lateral_valid);
        longitudinal =
            subst (λ (q : FrenetPath R). Within limits.max_longitudinal_accel q.s_dd) j.joined
              (longitudinal_set-Within limits lons lon j.from_longitudinal j.longitudinal_valid);
        curvature = curved;
        clear = free;
      }
