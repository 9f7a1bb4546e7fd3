-- ===== src/Planner/Gap/Highway/Sides.antt =====
-- The vehicles before and behind the point where the zone is clear, told without the second loop of
-- FindHighwayMergeGap, and that the loop finds the nearest of either side.
use mpc_ws.Prelude.{
  ℕ, ◌≡◌, ◌⊎◌, inl, inr, Bool, true, false, not, ◌&&◌, Option, none, some, List, [], ◌∷◌, arith,
  if◌then◌else◌, Option-cases, All, All-map, filter, Mem,
}
use mpc_ws.Double.{Double, ◌+◌, ◌-◌, ◌*◌, ◌/◌, ◌<◌, ◌≤◌, ◌>◌, ◌≥◌, neg, abs, decimal, num, max}
use mpc_ws.Double.Laws.{IsOrdered}
use mpc_ws.Double.Least.{pick_least, pick_least-none, pick_least-some}
use mpc_ws.Planner.Collision.{make_obstacle_box}
use mpc_ws.Planner.Config.{HighwayMergeCheckpoint, HighwayMergeConfig}
use mpc_ws.Planner.Gap.Highway.{Flanks, flank, flanks_of, no_flanks, ttc}
use mpc_ws.Planner.RefLine.{find_closest_s, interpolate}
use mpc_ws.Planner.Types.{ObjectInfo, OrientedBox, RefLine, RefPoint}

not_below :
    {R : Type 0} ⦃d : Double R⦄ (laws : IsOrdered R)
    → (x limit low : R) → low ≤ limit ≡ true
    → x < limit ≡ false
    → x < low ≡ false
not_below laws x limit low h n = ground (arith, laws.lt_le_trans x low limit)

module _ {R : Type 0} ⦃d : Double R⦄ (fuel : ℕ) (ref : RefLine R) (cfg : HighwayMergeConfig R)
    (checkpoint : HighwayMergeCheckpoint R) (t : R) where
  -- Where an obstacle is after t seconds, and the point of the line next to it.
  abbrev pub place : ObjectInfo R → OrientedBox R
  place obj = make_obstacle_box obj t (num 0)

  abbrev pub lane_s : ObjectInfo R → R
  lane_s obj =
      find_closest_s fuel ref (place obj).cx (place obj).cy (some checkpoint.clear_s)
        cfg.object_search_distance

  abbrev pub lane_point : ObjectInfo R → RefPoint R
  lane_point obj = interpolate fuel ref (lane_s obj)

  abbrev pub lane_d : ObjectInfo R → R
  lane_d obj =
      neg ((place obj).cx - (lane_point obj).x) * d.sin (lane_point obj).theta
      + ((place obj).cy - (lane_point obj).y) * d.cos (lane_point obj).theta

  abbrev pub lane_alignment : ObjectInfo R → R
  lane_alignment obj = d.cos ((place obj).heading - (lane_point obj).theta)

  abbrev pub lane_speed : ObjectInfo R → R
  lane_speed obj = max (num 0) (obj.speed * lane_alignment obj)

  abbrev pub gap_ahead : ObjectInfo R → R
  gap_ahead obj = lane_s obj - checkpoint.clear_s

  abbrev pub gap_behind : ObjectInfo R → R
  gap_behind obj = checkpoint.clear_s - lane_s obj

  -- On the lane, within the search distance, and headed along it.
  abbrev pub is_relevant : ObjectInfo R → Bool
  is_relevant obj =
      not (abs (gap_ahead obj) > cfg.object_search_distance)
      && not (abs (lane_d obj) > cfg.target_corridor_half_width)
      && not (lane_alignment obj < cfg.min_heading_alignment)

  abbrev pub is_before : ObjectInfo R → Bool
  is_before obj = is_relevant obj && (lane_s obj ≥ checkpoint.clear_s)

  abbrev pub is_behind : ObjectInfo R → Bool
  is_behind obj = is_relevant obj && not (lane_s obj ≥ checkpoint.clear_s)

  -- What one obstacle does to the gap and the speed that are kept for the two sides.
  pub flank-before :
      (st : Flanks R) (obj : ObjectInfo R)
      → let out = flank fuel ref cfg checkpoint t st obj in
        let taken = is_before obj && (gap_ahead obj < st.front_gap) in
        (out.front_gap ≡ (if taken then gap_ahead obj else st.front_gap))
        × (out.front_speed ≡ (if taken then lane_speed obj else st.front_speed))
  unfolding flank
  flank-before st obj = ground arith

  pub flank-behind :
      (st : Flanks R) (obj : ObjectInfo R)
      → let out = flank fuel ref cfg checkpoint t st obj in
        let taken = is_behind obj && (gap_behind obj < st.rear_gap) in
        (out.rear_gap ≡ (if taken then gap_behind obj else st.rear_gap))
        × (out.rear_speed ≡ (if taken then lane_speed obj else st.rear_speed))
  unfolding flank
  flank-behind st obj = ground arith

  -- The vehicles of a side keep a distance, and so does the time until the nearest of them is met at
  -- the speed it closes with, if it closes.
  abbrev pub IsWide : (ObjectInfo R → R) → (ObjectInfo R → R) → R → R → List (ObjectInfo R) → Type 0
  IsWide gap closing min_gap min_ttc vehicles =
      All (λ v. gap v < min_gap ≡ false) vehicles
      × (All (λ v. gap v < d.infinity ≡ false) vehicles
          ⊎ ((near : ObjectInfo R) × Mem near vehicles
              × All (λ v. gap v < gap near ≡ false) vehicles
              × ((closing near > decimal 1 3 ≡ false)
                  ⊎ (gap near / closing near ≥ min_ttc ≡ true))))

  -- The gap and the speed of the vehicle that is kept, if there is one.
  abbrev gap_or : (ObjectInfo R → R) → Option (ObjectInfo R) → R
  gap_or gap none = d.infinity
  gap_or gap (some obj) = gap obj

  abbrev speed_or : Option (ObjectInfo R) → R
  speed_or none = num 0
  speed_or (some obj) = lane_speed obj

  -- One side of the flanks: the fields that are kept, the test and the distance of the side.
  module _ (kept_gap kept_speed : Flanks R → R) (is_side : ObjectInfo R → Bool)
      (gap : ObjectInfo R → R)
      (step : (st : Flanks R) (obj : ObjectInfo R)
        → let out = flank fuel ref cfg checkpoint t st obj in
          let taken = is_side obj && (gap obj < kept_gap st) in
          (kept_gap out ≡ (if taken then gap obj else kept_gap st))
          × (kept_speed out ≡ (if taken then lane_speed obj else kept_speed st))) where
    -- The loop keeps what the search for the least gap on the side picks.
    flanks_of-pick_least :
        (objs : List (ObjectInfo R)) (st : Flanks R) (best : Option (ObjectInfo R))
        → kept_gap st ≡ gap_or gap best
        → kept_speed st ≡ speed_or best
        → let out = flanks_of fuel ref cfg checkpoint t objs st in
          let picked = pick_least gap (gap_or gap best) best (filter is_side objs) in
          (kept_gap out ≡ gap_or gap picked) × (kept_speed out ≡ speed_or picked)
    unfolding flanks_of filter pick_least
    flanks_of-pick_least [] st best g v = (g, v)
    flanks_of-pick_least (obj ∷ objs) st best g v =
        let next = flank fuel ref cfg checkpoint t st obj in
        ground (
          arith,
          step st obj,
          flanks_of-pick_least objs next best,
          flanks_of-pick_least objs next (some obj),
        )

    pub flanks_of-IsWide :
        (laws : IsOrdered R)
        → (closing : R → R) → (min_gap min_ttc : R) → (objs : List (ObjectInfo R))
        → kept_gap no_flanks ≡ d.infinity
        → kept_speed no_flanks ≡ num 0
        → let out = flanks_of fuel ref cfg checkpoint t objs no_flanks in
          kept_gap out ≥ min_gap ≡ true
          → ttc (kept_gap out) (closing (kept_speed out)) ≥ min_ttc ≡ true
          → IsWide gap (λ v. closing (lane_speed v)) min_gap min_ttc (filter is_side objs)
    flanks_of-IsWide laws closing min_gap min_ttc objs g v wide late =
        let side = filter is_side objs in
        let found = flanks_of-pick_least objs no_flanks none g v in
        elim (Option-cases (pick_least gap d.infinity none side)) [
          | inl n ↦
              let least = (pick_least-none gap laws d.infinity none side n).1 in
              (
                All-map (λ v. gap v < d.infinity ≡ false) (λ v. gap v < min_gap ≡ false) side
                    (λ v. not_below laws (gap v) d.infinity min_gap (ground arith)) least,
                inl least,
              )
          | inr (near, p) ↦
              let (member, least) =
                pick_least-some gap laws d.infinity none side (λ b h. cc) near p in
              (
                All-map (λ v. gap v < gap near ≡ false) (λ v. gap v < min_gap ≡ false) side
                    (λ v. not_below laws (gap v) (gap near) min_gap (ground arith)) least,
                inr (near, ground arith, least, ground arith),
              )
        ]
