-- ===== src/Planner/Merge/Commit.antt =====
-- The end of Plan (frenet_planner/src/frenet_planner/frenet_planner.cpp) for a merge: the extension of
-- a candidate through the conflict zone, the check of the extended trajectories, the commit, and the
-- way back to WAIT.
pub mod Locking
use mpc_ws.Prelude.{
  ℕ, suc, Bool, true, false, not, ◌&&◌, Option, none, some, List, [], ◌∷◌, ◌++◌, map, ltb, ◌==◌,
  if◌then◌else◌, length, last_or,
}
use mpc_ws.Double.{Double, ◌+◌, ◌*◌, ◌<◌, decimal, num, max}
use mpc_ws.Double.Steps.{steps}
use mpc_ws.Planner.Contexts.{MergeContext, MergePhase}
use mpc_ws.Planner.Converter.{convert_to_cartesian_path}
use mpc_ws.Planner.Cost.{select_best_path}
use mpc_ws.Planner.Locked.{cartesian_trajectory_blocker}
use mpc_ws.Planner.RefLine.{interpolate}
use mpc_ws.Planner.Types.{
  CartesianPath, CollisionCheckConfig, FrenetPath, ObjectInfo, PlanFailureReason, RefLine,
  RejectionReason, VehicleShape,
}

-- What the extension takes from the command and the context: `cmd.merge_conflict_s`,
-- `active_merge_completion_distance`, and the greater of the target and the crossing speed.
pub record Extension (R : Type 0) : Type 0 where
  pub conflict_s : R
  pub completion_distance : R
  pub target_speed : R
  pub dt : R

-- The end of a cycle: the published path, or the reason that there is none.
pub data CycleEnd (R : Type 0) : Type 0 where
  publish : CartesianPath R → MergeContext R → CycleEnd R
  failure : PlanFailureReason → MergeContext R → CycleEnd R

-- The failure is a collision only if the curvature stage left candidates and the collision stage
-- left none.
abbrev pub failure_reason : ℕ → ℕ → PlanFailureReason
failure_reason after_curvature after_collision =
    if ltb 0 after_curvature && (after_collision == 0)
    then PlanFailureReason.collision_blocked
    else PlanFailureReason.transient_generation_failure

module _ {R : Type 0} ⦃d : Double R⦄ where
  -- The samples at the crossing speed, at the places of the loop.
  abbrev pub extension_places : ℕ → Extension R → R → List R
  extension_places fuel ext path_end_s =
      let speed = max ext.target_speed (decimal 5 1) in
      steps fuel (max ext.conflict_s path_end_s + speed * ext.dt) (speed * ext.dt)
        (ext.conflict_s + ext.completion_distance + decimal 1 6)

  unfoldable pub extend_merge_path_through_conflict :
      ℕ → RefLine R → Extension R → R → CartesianPath R → CartesianPath R
  extend_merge_path_through_conflict fuel ref ext path_end_s path =
      let speed = max ext.target_speed (decimal 5 1) in
      let places = extension_places fuel ext path_end_s in
      let points = map (interpolate fuel ref) places in
      if length path.x == 0 then path else record {
        x = path.x ++ map (λ p. p.x) points;
        y = path.y ++ map (λ p. p.y) points;
        yaw = path.yaw ++ map (λ p. p.theta) points;
        kappa = path.kappa ++ map (λ p. p.kappa) points;
        v = path.v ++ map (λ _. speed) points;
        a = path.a ++ map (λ _. num 0) points;
      }

  -- A candidate in x and y, up to the end of the conflict zone.
  unfoldable pub full_path : ℕ → RefLine R → Extension R → FrenetPath R → CartesianPath R
  full_path fuel ref ext candidate =
      extend_merge_path_through_conflict fuel ref ext (last_or ext.conflict_s candidate.s)
        (convert_to_cartesian_path fuel candidate ref)

  unfoldable pub validate_candidate :
      ℕ
      → RefLine R
      → Extension R
      → List (ObjectInfo R)
      → VehicleShape R
      → CollisionCheckConfig R
      → FrenetPath R
      → FrenetPath R
  validate_candidate fuel ref ext objs shape collision candidate =
      if not candidate.valid
      then candidate
      else elim (cartesian_trajectory_blocker (full_path fuel ref ext candidate) objs shape
          collision ext.dt) [
            | none ↦ candidate
            | some blocking_id ↦ record candidate {
              valid = false;
              rejection_reason = RejectionReason.collision;
              collision_object_id = blocking_id;
            }
          ]

  -- The loop over the candidates, which runs only while a commit is pending.
  unfoldable pub validate_candidates :
      ℕ
      → RefLine R
      → Extension R
      → List (ObjectInfo R)
      → VehicleShape R
      → CollisionCheckConfig R
      → Bool
      → List (FrenetPath R)
      → List (FrenetPath R)
  validate_candidates fuel ref ext objs shape collision pending candidates =
      if pending
      then map (validate_candidate fuel ref ext objs shape collision) candidates
      else candidates

  abbrev pub count_valid : List (FrenetPath R) → ℕ
  count_valid [] = 0
  count_valid (path ∷ paths) = if path.valid then suc (count_valid paths) else count_valid paths

  abbrev pub back_to_wait : MergeContext R → MergeContext R
  back_to_wait ctx = record ctx {
    gap_locked = false;
    commit_pending = false;
    gap_safe = false;
    safe_cycles = 0;
    phase = MergePhase.wait;
  }

  abbrev pub commit_gap : CartesianPath R → MergeContext R → MergeContext R
  commit_gap path ctx = record ctx {
    commit_pending = false;
    gap_locked = true;
    phase = MergePhase.commit;
    locked_path = path;
    locked_elapsed = num 0;
    locked_path_index = 0;
  }

  unfoldable pub end_cycle :
      ℕ
      → RefLine R
      → Extension R
      → R
      → R
      → Bool
      → ℕ
      → ℕ
      → MergeContext R
      → Option (FrenetPath R)
      → CycleEnd R
  end_cycle fuel ref ext s stop_s pending after_curvature after_collision ctx none =
      CycleEnd.failure (failure_reason after_curvature after_collision)
        (if pending && (s < stop_s) then back_to_wait ctx else ctx)
  end_cycle fuel ref ext s stop_s pending after_curvature after_collision ctx (some best) =
      let full = full_path fuel ref ext best in
      let own = convert_to_cartesian_path fuel best ref in
      if pending then CycleEnd.publish full (commit_gap full ctx) else CycleEnd.publish own ctx

  -- From the candidates to the end of the cycle. `is_merge` is `cmd.mode == MERGE`;
  -- `after_collision` of the statistics is recounted while a commit is pending.
  unfoldable pub finish_cycle :
      ℕ
      → RefLine R
      → Extension R
      → List (ObjectInfo R)
      → VehicleShape R
      → CollisionCheckConfig R
      → R
      → R
      → Bool
      → ℕ
      → ℕ
      → List (FrenetPath R)
      → MergeContext R
      → CycleEnd R
  finish_cycle fuel ref ext objs shape collision s stop_s is_merge after_curvature after_collision
        candidates ctx =
      let pending = is_merge && ctx.commit_pending in
      let checked = validate_candidates fuel ref ext objs shape collision pending candidates in
      end_cycle fuel ref ext s stop_s pending after_curvature
        (if pending then count_valid checked else after_collision) ctx (select_best_path checked)
