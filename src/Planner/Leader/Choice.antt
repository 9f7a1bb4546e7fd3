-- ===== src/Planner/Leader/Choice.antt =====
-- FindLeader returns the nearest vehicle ahead in the lane.
use mpc_ws.Prelude.{
  ℕ, ◌≡◌, inl, inr, false, Option, none, some, List, arith, Option-cases, All, Any, Mem, filter_map,
  Whenever, Mem-filter_map, All-filter_map, Any-map,
}
use mpc_ws.Double.{Double, ◌*◌, ◌<◌, ◌≤◌, ◌>◌, abs, decimal, num}
use mpc_ws.Double.Laws.{IsOrdered}
use mpc_ws.Double.Least.{pick_least, pick_least-none, pick_least-some}
use mpc_ws.Planner.Config.{FollowingConfig}
use mpc_ws.Planner.Leader.{
  Ahead, LeaderTarget, ahead_gap, find_leader, gap_ahead, leader_candidate, leader_of,
  project_object_to_frenet, track_length,
}
use mpc_ws.Planner.Types.{FrenetState, ObjectInfo, RefLine}

module _ {R : Type 0} ⦃d : Double R⦄ (laws : IsOrdered R) (fuel : ℕ) (ref : RefLine R)
    (ego : FrenetState R) (lane_width : R) (cfg : FollowingConfig R) where
  abbrev candidate : ObjectInfo R → Option (Ahead R)
  candidate = leader_candidate fuel ref ego (lane_width * decimal 5 1) cfg

  -- What every leader satisfies, in terms of the projection of its obstacle.
  pub record IsEligible (a : Ahead R) (obj : ObjectInfo R) : Type 0 where
    pub same_id : a.id ≡ obj.id
    pub gap_eq :
        a.gap ≡ gap_ahead (track_length ref) ego.s (project_object_to_frenet fuel ref obj).s
    pub d_eq : a.d ≡ (project_object_to_frenet fuel ref obj).d
    pub speed_eq : a.s_dot ≡ (project_object_to_frenet fuel ref obj).s_dot
    pub fast : a.s_dot ≤ cfg.min_leader_speed ≡ false
    pub in_front : a.gap ≤ num 0 ≡ false
    pub in_range : a.gap > cfg.max_leader_search_s ≡ false
    pub in_lane : abs a.d > lane_width * decimal 5 1 ≡ false

  candidate-IsEligible :
      (obj : ObjectInfo R) (a : Ahead R) → candidate obj ≡ some a → IsEligible a obj
  unfolding leader_candidate
  candidate-IsEligible obj a e = ground arith

  -- If FindLeader finds a leader, it is one of the obstacles, moves along the line faster than the
  -- threshold, lies ahead within the search distance and within half a lane, and no obstacle that
  -- passes the tests has a smaller gap.
  pub find_leader-nearest :
      (obstacles : List (ObjectInfo R)) (leader : LeaderTarget R)
      → find_leader fuel ref ego obstacles lane_width cfg ≡ some leader
      → (a : Ahead R) × (leader ≡ leader_of ego a)
        × Any (IsEligible a) obstacles
        × All (λ obj. Whenever (λ b. b.gap < a.gap ≡ false) (candidate obj)) obstacles
  unfolding find_leader
  find_leader-nearest obstacles leader e =
      let seen = filter_map candidate obstacles in
      elim (Option-cases (pick_least ahead_gap d.max_value none seen)) [
        | inl n ↦ absurd (ground arith)
        | inr (a, p) ↦
            let (found, least) =
              pick_least-some ahead_gap laws d.max_value none seen (λ b h. cc) a p in
            let member : Mem a seen = ground arith in
            (
              a,
              ground arith,
              Any-map (λ obj. candidate obj ≡ some a) (IsEligible a) obstacles
                  (λ obj q. candidate-IsEligible obj a q)
                  (Mem-filter_map candidate obstacles a member),
              All-filter_map candidate (λ b. b.gap < a.gap ≡ false) obstacles least,
            )
      ]

  -- If FindLeader finds none, every obstacle fails a test or has a gap beyond the largest double.
  pub find_leader-none :
      (obstacles : List (ObjectInfo R))
      → find_leader fuel ref ego obstacles lane_width cfg ≡ none
      → All (λ obj. Whenever (λ b. b.gap < d.max_value ≡ false) (candidate obj)) obstacles
  unfolding find_leader
  find_leader-none obstacles e =
      let seen = filter_map candidate obstacles in
      elim (Option-cases (pick_least ahead_gap d.max_value none seen)) [
        | inl n ↦
            All-filter_map candidate (λ b. b.gap < d.max_value ≡ false) obstacles
              (pick_least-none ahead_gap laws d.max_value none seen n).1
        | inr (a, p) ↦ absurd (ground arith)
      ]
