-- ===== src/Planner/Leader.antt =====
-- frenet_planner/src/frenet_planner/frenet/leader_selector.cpp: an obstacle in the coordinates of
-- the reference line, and the choice of the vehicle to follow.
pub mod Choice
use mpc_ws.Prelude.{
  ℕ, zero, suc, ◌≡◌, refl, sym, ap, ◌∙◌, ◌≢◌, ◌↔◌, ◌⊎◌, inl, inr, Bool, true, false, not, ◌&&◌,
  ◌||◌, Option, none, some, List, [], ◌∷◌, ◌++◌, map, arith, ltb, leb, ◌==◌, if◌then◌else◌,
  Bool-cases, Option-cases, is_some, true≢false, &&_split, length, get_elem?, get_or, last_or,
  head_or, drop, take, All, Any, length-map, All-map, All-of, iota, length-iota, filter, Mem,
  filter_map, Whenever, Mem-filter_map, All-filter_map, Any-map,
}
use mpc_ws.Double.{
  Double, ◌+◌, ◌-◌, ◌*◌, ◌/◌, ◌<◌, ◌≤◌, ◌>◌, ◌≥◌, neg, abs, decimal, num, max, min, clamp,
}
use mpc_ws.Double.Laws.{
  IsOrdered, IsExact, IsNumber, min_le_left, min_le_right, le_max_left, le_max_right, clamp_bounds,
  exact_limit,
}
use mpc_ws.Prelude.Int.{ℤ, pos, negsuc, minus_one, is_negative, ◌==ℤ◌, ==ℤ_iff, ltb_ℤ, leb_ℤ, ◌+ℤ◌}
use mpc_ws.Double.Least.{pick_least}
use mpc_ws.Planner.Config.{FollowingConfig}
use mpc_ws.Planner.Converter.{cartesian_to_frenet}
use mpc_ws.Planner.RefLine.{back_point}
use mpc_ws.Planner.Types.{CartesianState, FrenetState, ObjectInfo, RefLine}

-- The outputs of ProjectObjectToFrenet.
pub record Projection (R : Type 0) : Type 0 where
  pub s : R
  pub d : R
  pub s_dot : R

pub record LeaderTarget (R : Type 0) : Type 0 where
  pub id : ℤ
  pub s : R
  pub d : R
  pub speed : R
  pub accel : R

-- An obstacle that passes the tests of the loop of FindLeader.
pub record Ahead (R : Type 0) : Type 0 where
  pub gap : R
  pub id : ℤ
  pub d : R
  pub s_dot : R

module _ {R : Type 0} ⦃d : Double R⦄ where
  unfoldable pub project_object_to_frenet : ℕ → RefLine R → ObjectInfo R → Projection R
  project_object_to_frenet fuel ref obj =
      let cs : CartesianState R = record {
        x = obj.x;
        y = obj.y;
        yaw = obj.heading;
        kappa = num 0;
        v = obj.speed;
        a = num 0;
      } in
      let f = cartesian_to_frenet fuel ref cs none in record { s = f.s; d = f.d; s_dot = f.s_dot }

  abbrev pub track_length : RefLine R → R
  track_length ref = (back_point ref.points).s

  -- The gap to something at s ahead on the closed track.
  abbrev pub gap_ahead : R → R → R → R
  gap_ahead length ego_s s =
      if (s - ego_s ≤ num 0) && (length > num 0) then s - ego_s + length else s - ego_s

  -- The body of the loop: `none` is `continue`.
  unfoldable pub leader_candidate :
      ℕ → RefLine R → FrenetState R → R → FollowingConfig R → ObjectInfo R → Option (Ahead R)
  leader_candidate fuel ref ego half_lane cfg obj =
      let p = project_object_to_frenet fuel ref obj in
      let gap = gap_ahead (track_length ref) ego.s p.s in
      if p.s_dot ≤ cfg.min_leader_speed
      then none
      else if gap ≤ num 0
      then none
      else if gap > cfg.max_leader_search_s
      then none
      else if abs p.d > half_lane
      then none
      else some (record { gap = gap; id = obj.id; d = p.d; s_dot = p.s_dot })

  abbrev pub leader_of : FrenetState R → Ahead R → LeaderTarget R
  leader_of ego a = record { id = a.id; s = ego.s + a.gap; d = a.d; speed = a.s_dot; accel = num 0 }

  abbrev pub ahead_gap : Ahead R → R
  ahead_gap a = a.gap

  -- `none` is false, with `out_leader` untouched.
  unfoldable pub find_leader :
      ℕ
      → RefLine R
      → FrenetState R
      → List (ObjectInfo R)
      → R
      → FollowingConfig R
      → Option (LeaderTarget R)
  find_leader fuel ref ego obstacles lane_width cfg =
      elim (pick_least ahead_gap d.max_value none
        (filter_map (leader_candidate fuel ref ego (lane_width * decimal 5 1) cfg) obstacles)) [
          | none ↦ none
          | some a ↦ some (leader_of ego a)
        ]
