-- ===== src/Tests/MergeWitnesses.antt =====
-- The theorems on merges, geometry and commands on the scene.
use mpc_ws.Prelude.{◌≡◌, refl, true, false, Option, none, List, [], ◌∷◌, arith, leb, length, Any}
use mpc_ws.Double.Least.{pick_least}
use mpc_ws.Double.Micro.{Micro, Micro-IsOrdered, micro}
use mpc_ws.Double.Steps.{steps}
use mpc_ws.Planner.Collision.{
  check_obb_overlap, make_ego_box, make_obstacle_box, none_separates, projected_radius,
  separated_along_axis,
}
use mpc_ws.Planner.Command.{build_command}
use mpc_ws.Planner.Config.{HighwayMergeCheckpoint}
use mpc_ws.Planner.Contexts.{
  MergeContext, MergePhase, find_highway_merge_zone, highway_checkpoint_at, highway_zone_at,
  no_avoidance, no_following, no_merge, zone_from,
}
use mpc_ws.Planner.Converter.{
  compute_geometric_path, convert_sample, convert_to_cartesian_path, frenet_to_cartesian,
  time_deriv_to_arc_deriv,
}
use mpc_ws.Planner.Cost.{select_best_path, select_from}
use mpc_ws.Planner.Locked.{
  blocker_among, blocker_from, cartesian_trajectory_blocker, context_conflict_s, hits, locked_box,
  plan_locked, progress_of, recheck_locked, remaining_path,
}
use mpc_ws.Planner.Locked.Recheck.{IsTrajectoryClear, plan_locked-follow}
use mpc_ws.Planner.Merge.{
  advance_merge, in_merge_approach, judge_gap, requested_merge_type, roundabout_window,
  update_merge,
}
use mpc_ws.Planner.Merge.Commit.{
  Extension, commit_gap, end_cycle, extend_merge_path_through_conflict, finish_cycle, full_path,
  validate_candidate, validate_candidates,
}
use mpc_ws.Planner.Merge.Commit.Locking.{finish_cycle-locked}
use mpc_ws.Planner.Merge.Phases.{IsConsistent, update_merge-pending}
use mpc_ws.Planner.Merge.Reachable.{IsReachable, IsReachable-IsConsistent}
use mpc_ws.Planner.RefLine.{
  between, bisect, find_closest_s, interpolate, nearest_all, nearest_hinted, newton,
  normalize_angle, turn_down, turn_up, wrap_s,
}
use mpc_ws.Planner.RefLine.Bracket.{IsBracket, bisect-IsBracket}
use mpc_ws.Planner.Types.{CartesianPath, FrenetPath, ObjectInfo, PlannerCommand}
use mpc_ws.Tests.Scene.{
  candidate, collision, committed, following, gap, highway, locked_path, m, merge, object, road,
  shape, waiting,
}

abbrev ext : Extension Micro
ext = record { conflict_s = m 20; completion_distance = m 0; target_speed = m 5; dt = m 1 }

abbrev far : List (ObjectInfo Micro)
far = object 7 60 0 ∷ []

abbrev candidates : List (FrenetPath Micro)
candidates = candidate (m 1) true ∷ []

abbrev chosen_path : CartesianPath Micro
chosen_path = full_path 5 road ext (candidate (m 1) true)

finish_cycle-locked_example :
    (true ≡ true)
    × (waiting.commit_pending ≡ true)
    × ((commit_gap chosen_path waiting).locked_path ≡ chosen_path)
    × ((commit_gap chosen_path waiting).phase ≡ MergePhase.commit)
    × IsTrajectoryClear chosen_path far shape collision (m 1)
    × Any (λ c. (c.valid ≡ true) × (chosen_path ≡ full_path 5 road ext c)) candidates
unfolding finish_cycle validate_candidates validate_candidate end_cycle full_path select_best_path
    select_from cartesian_trajectory_blocker blocker_from blocker_among hits locked_box make_ego_box
    make_obstacle_box check_obb_overlap projected_radius none_separates separated_along_axis
    find_closest_s newton nearest_all nearest_hinted interpolate between bisect wrap_s
    normalize_angle turn_up turn_down convert_to_cartesian_path compute_geometric_path
    convert_sample extend_merge_path_through_conflict frenet_to_cartesian time_deriv_to_arc_deriv
    steps
finish_cycle-locked_example =
    finish_cycle-locked Micro-IsOrdered 5 road ext far shape collision (m 5) (m 15) true 1 1
      candidates waiting (commit_gap chosen_path waiting) chosen_path refl refl refl

plan_locked-follow_example :
    ((remaining_path locked_path (m 5) (m 0) 0).0 ≡ locked_path)
    × IsTrajectoryClear locked_path far shape collision (m 1)
    × (leb 2 (length locked_path.x) ≡ true)
    × (committed.gap_locked ≡ true)
    × (committed.phase ≡ MergePhase.commit)
unfolding plan_locked context_conflict_s recheck_locked remaining_path progress_of pick_least
    cartesian_trajectory_blocker blocker_from blocker_among hits locked_box make_ego_box
    make_obstacle_box check_obb_overlap projected_radius none_separates separated_along_axis
plan_locked-follow_example =
    plan_locked-follow merge highway shape collision (m 1) (m 5) (m 5) (m 0) far committed committed
      locked_path refl

update_merge-pending_example :
    ((update_merge merge highway collision (m 5) (m 5) (m 2) (λ _. gap) no_merge).0.gap_locked
      ≡ false)
    × ((checkpoint : Option (HighwayMergeCheckpoint Micro)) × (gap.confirmed ≡ true)
        × (gap.safe ≡ true))
unfolding update_merge roundabout_window requested_merge_type in_merge_approach advance_merge
    judge_gap highway_checkpoint_at highway_zone_at find_highway_merge_zone zone_from
update_merge-pending_example =
    update_merge-pending merge highway collision (m 5) (m 5) (m 2) (λ _. gap) no_merge refl

abbrev crossing : MergeContext Micro
crossing = record committed { phase = MergePhase.cross }

abbrev command : PlannerCommand Micro
command = build_command merge highway following (m 2) false no_avoidance crossing no_following none

bisect-IsBracket_example : IsBracket road.points (m 60) 0 2 (bisect 2 road.points (m 60) 0 2)
bisect-IsBracket_example =
    bisect-IsBracket 2 road.points (m 60) 0 2 (omega arith) (omega arith) refl refl

IsReachable-IsConsistent_example :
    IsConsistent
      (update_merge merge highway collision (m 5) (m 5) (m 2) (λ _. gap) (no_merge {R = Micro})).0
IsReachable-IsConsistent_example =
    IsReachable-IsConsistent
      (update_merge merge highway collision (m 5) (m 5) (m 2) (λ _. gap) no_merge).0
      (IsReachable.merge merge highway collision (m 5) (m 5) (m 2) (λ _. gap) IsReachable.start)
