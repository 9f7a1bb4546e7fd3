-- ===== src/Planner/Maneuver/Joined.antt =====
-- CombineLateralLongitudinal of path_generator.cpp: what the combined paths are made of.
use mpc_ws.Prelude.{
  ◌≡◌, true, false, Option, none, some, List, arith, ◌==◌, if◌then◌else◌, length, last_or, Mem,
  filter_map, Mem-filter_map, is_empty, Mem-concat_map, Any-Mem,
}
use mpc_ws.Double.{Double, ◌-◌, ◌>◌, abs, decimal, num}
use mpc_ws.Planner.Maneuver.{combine_lateral_longitudinal, join, join_all, joins}
use mpc_ws.Planner.Types.{FrenetPath}

module _ {R : Type 0} ⦃d : Double R⦄ where
  -- A combined path is made of a lateral and a longitudinal candidate, both valid, with as many
  -- samples and ends within a microsecond.
  pub record IsJoined (lateral_set longitudinal_set : List (FrenetPath R))
      (p lat lon : FrenetPath R) : Type 0 where
    pub from_lateral : Mem lat lateral_set
    pub from_longitudinal : Mem lon longitudinal_set
    pub lateral_valid : lat.valid ≡ true
    pub longitudinal_valid : lon.valid ≡ true
    pub sampled : is_empty lat.t ≡ false
    pub same_length : (length lat.t == length lon.t) ≡ true
    pub same_end : abs (last_or (num 0) lat.t - last_or (num 0) lon.t) > decimal 1 6 ≡ false
    pub joined : join lat lon ≡ p

  join_all-valid :
      (lat : FrenetPath R) (lons : List (FrenetPath R)) (p : FrenetPath R)
      → Mem p (join_all lat lons)
      → (lat.valid ≡ true) × (is_empty lat.t ≡ false)
  unfolding join_all
  join_all-valid lat lons p m = ground arith

  join_all-Joined :
      (lats lons : List (FrenetPath R)) (lat p : FrenetPath R)
      → Mem lat lats
      → Mem p (join_all lat lons)
      → (lon : FrenetPath R) × IsJoined lats lons p lat lon
  unfolding join_all
  join_all-Joined lats lons lat p n m =
      let (v, e) = join_all-valid lat lons p m in
      let f : FrenetPath R → Option (FrenetPath R) =
        λ lon. if joins lat lon then some (join lat lon) else none in
      let m' : Mem p (filter_map f lons) = rw (v, e) at m in
      let (lon, k, g) = Any-Mem (λ lon. f lon ≡ some p) lons (Mem-filter_map f lons p m') in
      (
        lon,
        record {
          from_lateral = n;
          from_longitudinal = k;
          lateral_valid = v;
          longitudinal_valid = ground arith;
          sampled = e;
          same_length = ground arith;
          same_end = ground arith;
          joined = ground arith;
        },
      )

  pub combine-Joined :
      (lats lons : List (FrenetPath R)) (p : FrenetPath R)
      → Mem p (combine_lateral_longitudinal lats lons)
      → (lat : FrenetPath R) × (lon : FrenetPath R) × IsJoined lats lons p lat lon
  unfolding combine_lateral_longitudinal
  combine-Joined lats lons p m =
      let (lat, n, k) = Mem-concat_map (λ lat. join_all lat lons) lats p m in
      let (lon, j) = join_all-Joined lats lons lat p n k in (lat, lon, j)
