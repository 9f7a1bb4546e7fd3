-- ===== src/Tests/PlannerWitnesses.antt =====
-- The planner's theorems on the scene: candidates, leaders, avoidance and tracks.
use mpc_ws.Prelude.{
  ◌≡◌, refl, ◌↔◌, ◌⊎◌, true, false, none, some, List, [], ◌∷◌, All, Any, filter_map, Whenever,
}
use mpc_ws.Double.{◌+◌, ◌-◌, ◌*◌, ◌<◌, ◌≤◌, abs, decimal, num, max}
use mpc_ws.Prelude.Int.{pos, minus_one}
use mpc_ws.Double.Least.{pick_least}
use mpc_ws.Double.Micro.{Micro, Micro-IsOrdered, micro}
use mpc_ws.Planner.AvoidPhases.{choose_side, refresh_obstacle, update_avoidance}
use mpc_ws.Planner.AvoidPhases.Graph.{stage, update_avoidance-edge, ◌⟶◌}
use mpc_ws.Planner.AvoidPhases.Side.{choose_side-cheapest}
use mpc_ws.Planner.Avoidance.{
  Blocking, StaticObstacleTarget, blocking_candidate, choose_offset, find_static_avoidance_target,
  is_side_clear, leaves_side_clear, target_of,
}
use mpc_ws.Planner.Avoidance.Target.{IsChosen, IsStanding, find_static_avoidance_target_lem}
use mpc_ws.Planner.Collision.{filter_path}
use mpc_ws.Planner.Collision.Filter.{IsCollisionFree, filter_path-IsCollisionFree}
use mpc_ws.Planner.Converter.{cartesian_to_frenet}
use mpc_ws.Planner.Cost.{select_best_path}
use mpc_ws.Planner.Cost.Best.{IsBest, select_best_path-IsBest, select_best_path-none}
use mpc_ws.Planner.Follow.{Sighting, update_following}
use mpc_ws.Planner.Follow.Leadership.{
  WithinGrace, update_following-WithinGrace, update_following-kept,
}
use mpc_ws.Planner.Leader.{
  Ahead, find_leader, leader_candidate, leader_of, project_object_to_frenet,
}
use mpc_ws.Planner.Leader.Choice.{IsEligible, find_leader-nearest}
use mpc_ws.Planner.RefLine.{
  between, bisect, find_closest_s, interpolate, nearest_all, nearest_hinted, newton,
  normalize_angle, turn_down, turn_up, wrap_s,
}
use mpc_ws.Planner.Tracks.{Tracks}
use mpc_ws.Planner.Types.{FrenetPath, ObjectInfo}
use mpc_ws.Tests.Scene.{
  avoid, candidate, collision, ego, following, leader, led, m, object, road, shape, tracked,
}

abbrev cheap : FrenetPath Micro
cheap = candidate (m 1) true

abbrev dear : FrenetPath Micro
dear = candidate (m 2) true

abbrev off : FrenetPath Micro
off = candidate (m 0) false

select_best_path-IsBest_example : IsBest (off ∷ dear ∷ cheap ∷ []) cheap
unfolding select_best_path
select_best_path-IsBest_example =
    select_best_path-IsBest Micro-IsOrdered (off ∷ dear ∷ cheap ∷ []) cheap refl

select_best_path-none_example :
    (select_best_path (off ∷ off ∷ []) ≡ none) ↔ All (λ path. path.valid ≡ false) (off ∷ off ∷ [])
select_best_path-none_example = select_best_path-none (off ∷ off ∷ [])

filter_path-IsCollisionFree_example :
    ((filter_path 5 road (object 7 60 0 ∷ []) shape collision minus_one cheap).valid ≡ true) ↔ (
      (cheap.valid ≡ true)
      × IsCollisionFree 5 road (object 7 60 0 ∷ []) shape collision minus_one cheap)
filter_path-IsCollisionFree_example =
    filter_path-IsCollisionFree 5 road (object 7 60 0 ∷ []) shape collision minus_one cheap

choose_side-cheapest_example :
    (choose_side avoid (some dear) (some cheap) ≡ some false)
      × (dear.cost_total ≤ cheap.cost_total ≡ true)
    ⊎ (choose_side avoid (some dear) (some cheap) ≡ some true)
      × ((cheap.cost_total ≤ dear.cost_total ≡ true)
          ⊎ (avoid.prefer_right_when_equal ≡ true)
            × (cheap.cost_total ≤ dear.cost_total + max (num 1) (abs dear.cost_total) * decimal 5 2
                ≡ true))
choose_side-cheapest_example = choose_side-cheapest Micro-IsOrdered avoid dear cheap refl refl

update_avoidance-edge_example :
    stage tracked
    ⟶ stage
        (update_avoidance avoid shape
          (m 5)
          (m 0)
          (λ c. refresh_obstacle 5 road c (object 7 20 0 ∷ []))
          none
          tracked).0
update_avoidance-edge_example =
    update_avoidance-edge 5 road (object 7 20 0 ∷ []) avoid shape (m 5) (m 0) tracked none

update_following-WithinGrace_example :
    WithinGrace following
      (update_following (m 5) following Sighting.unseen (some (leader 8 20)) led)
update_following-WithinGrace_example =
    update_following-WithinGrace (m 5) following Sighting.unseen (some (leader 8 20)) led refl

update_following-kept_example :
    ((update_following
        (m 5)
        following
        (Sighting.kept (m 30) (m 0) (m 5))
        (some (leader 8 20))
        led).active
      ≡ true)
    × (((update_following
              (m 5)
              following
              (Sighting.kept (m 30) (m 0) (m 5))
              (some (leader 8 20))
              led).leader_id
            ≡ led.leader_id)
          × ((update_following
                (m 5)
                following
                (Sighting.kept (m 30) (m 0) (m 5))
                (some (leader 8 20))
                led).leader_s
              ≡ m 30)
        ⊎ ((update_following
                  (m 5)
                  following
                  (Sighting.kept (m 30) (m 0) (m 5))
                  (some (leader 8 20))
                  led).leader_s
                - m 5
                + following.leader_switch_margin
              < m 30 - m 5
            ≡ true))
update_following-kept_example =
    update_following-kept (m 5) following (m 30) (m 0) (m 5) (some (leader 8 20)) led refl

find_leader-nearest_example :
    (a : Ahead Micro) × (leader 7 30 ≡ leader_of ego a)
    × Any (IsEligible Micro-IsOrdered 5 road ego (m 4) following a) (object 7 30 5 ∷ [])
    × All
        (λ obj.
          Whenever
            (λ b. b.gap < a.gap ≡ false)
            (leader_candidate 5 road ego (m 4 * decimal 5 1) following obj))
        (object 7 30 5 ∷ [])
unfolding find_leader pick_least filter_map leader_candidate project_object_to_frenet
    cartesian_to_frenet find_closest_s newton nearest_all nearest_hinted interpolate between bisect
    wrap_s normalize_angle turn_up turn_down
find_leader-nearest_example =
    find_leader-nearest Micro-IsOrdered 5 road ego (m 4) following (object 7 30 5 ∷ [])
      (leader 7 30) refl

-- An obstacle that stands in the lane, and the target that it makes.
abbrev standing : List (ObjectInfo Micro)
standing = object 7 20 0 ∷ []

abbrev target : StaticObstacleTarget Micro
target = record {
  id = pos 7;
  s = m 20;
  d = m 0;
  width = m 2;
  length = m 4;
  s_dot = m 0;
  avoidance_offset = m 3;
}

find_static_avoidance_target_example :
    (b : Blocking Micro) × (target ≡ target_of (choose_offset 5 road ego standing shape avoid) b)
    × Any (IsStanding 5 road ego (m 4) shape avoid b) standing
    × All
        (λ obj.
          Whenever
            (λ c. c.gap < b.gap ≡ false)
            (blocking_candidate 5 road ego (m 4 * decimal 5 1) avoid obj))
        standing
    × IsChosen 5 road ego (m 4) shape avoid target.avoidance_offset standing
unfolding find_static_avoidance_target pick_least filter_map blocking_candidate choose_offset
    is_side_clear leaves_side_clear project_object_to_frenet cartesian_to_frenet find_closest_s
    newton nearest_all nearest_hinted interpolate between bisect wrap_s normalize_angle turn_up
    turn_down
find_static_avoidance_target_example =
    find_static_avoidance_target_lem 5 road ego (m 4) shape avoid Micro-IsOrdered standing target
      refl

abbrev tracks : Tracks Micro
tracks = (pos 7, record { heading = m 0; yaw_rate = m 0; missing_cycles = 20 }) ∷ []
