-- ===== src/Planner/Merge/Reachable.antt =====
-- The MERGE context over the cycles of Plan: the COMMIT block, the MERGE block and the end of the cycle,
-- with whatever inputs.
use mpc_ws.Prelude.{ℕ, Bool, ◌&&◌, Option, none, some, List, arith, if◌then◌else◌, Option-cases}
use mpc_ws.Double.{Double}
use mpc_ws.Prelude.Int.{ℤ}
use mpc_ws.Behavior.Decision.{reason}
use mpc_ws.Planner.Config.{HighwayMergeCheckpoint, HighwayMergeConfig, MergeConfig}
use mpc_ws.Planner.Contexts.{MergeContext, no_merge}
use mpc_ws.Planner.Cost.{select_best_path}
use mpc_ws.Planner.Gap.{RoundaboutGap}
use mpc_ws.Planner.Locked.{
  LockedOutcome, cartesian_trajectory_blocker, context_conflict_s, context_stop_buffer,
  next_checkpoint, plan_locked, recheck_locked, remaining_path,
}
use mpc_ws.Planner.Merge.{update_merge}
use mpc_ws.Planner.Merge.Commit.{
  CycleEnd, Extension, count_valid, end_cycle, finish_cycle, validate_candidates,
}
use mpc_ws.Planner.Merge.Phases.{IsConsistent, update_merge-IsConsistent}
use mpc_ws.Planner.Types.{
  CartesianPath, CollisionCheckConfig, FrenetPath, ObjectInfo, RefLine, VehicleShape,
}

abbrev pub locked_context : {R : Type 0} → LockedOutcome R → MergeContext R
locked_context (LockedOutcome.follow path ctx) = ctx
locked_context (LockedOutcome.fail reason ctx) = ctx
locked_context (LockedOutcome.go_on ctx) = ctx

abbrev pub end_context : {R : Type 0} → CycleEnd R → MergeContext R
end_context (CycleEnd.publish path ctx) = ctx
end_context (CycleEnd.failure reason ctx) = ctx

-- The contexts that the blocks reach from the initial one, in any order and with any inputs.
pub data IsReachable {R : Type 0} ⦃d : Double R⦄ : MergeContext R → Type 0 where
  start : IsReachable no_merge
  lock :
      {ctx : MergeContext R}
      → (cfg : MergeConfig R) → (hcfg : HighwayMergeConfig R) → (shape : VehicleShape R)
      → (collision : CollisionCheckConfig R) → (dt s ego_x ego_y : R) → (objs : List (ObjectInfo R))
      → IsReachable ctx
      → IsReachable
          (locked_context (plan_locked cfg hcfg shape collision dt s ego_x ego_y objs ctx))
  merge :
      {ctx : MergeContext R}
      → (cfg : MergeConfig R) → (hcfg : HighwayMergeConfig R) → (collision : CollisionCheckConfig R)
      → (s ego_v max_accel : R) → (gap_at : Option (HighwayMergeCheckpoint R) → RoundaboutGap R)
      → IsReachable ctx
      → IsReachable (update_merge cfg hcfg collision s ego_v max_accel gap_at ctx).0
  finish :
      {ctx : MergeContext R}
      → (fuel : ℕ) → (ref : RefLine R) → (ext : Extension R) → (objs : List (ObjectInfo R))
      → (shape : VehicleShape R) → (collision : CollisionCheckConfig R) → (s stop_s : R)
      → (is_merge : Bool) → (after_curvature after_collision : ℕ)
      → (candidates : List (FrenetPath R)) → IsReachable ctx
      → IsReachable (
          end_context (
            finish_cycle fuel ref ext objs shape collision s stop_s is_merge after_curvature
              after_collision candidates ctx))

module _ {R : Type 0} ⦃d : Double R⦄ where
  recheck_locked-IsConsistent :
      (s conflict_s stop_buffer : R)
      → (blocker : Option ℤ) → (remaining : CartesianPath R) → (ctx : MergeContext R)
      → IsConsistent ctx
      → IsConsistent
          (locked_context (recheck_locked s conflict_s stop_buffer blocker remaining ctx))
  unfolding recheck_locked
  recheck_locked-IsConsistent s conflict_s stop_buffer (some id) remaining ctx h = ground arith
  recheck_locked-IsConsistent s conflict_s stop_buffer none remaining ctx h = ground arith

  pub plan_locked-IsConsistent :
      (cfg : MergeConfig R)
      → (hcfg : HighwayMergeConfig R) → (shape : VehicleShape R)
      → (collision : CollisionCheckConfig R) → (dt s ego_x ego_y : R) → (objs : List (ObjectInfo R))
      → (ctx : MergeContext R) → IsConsistent ctx
      → IsConsistent
          (locked_context (plan_locked cfg hcfg shape collision dt s ego_x ego_y objs ctx))
  unfolding plan_locked
  plan_locked-IsConsistent cfg hcfg shape collision dt s ego_x ego_y objs ctx h =
      let left = remaining_path ctx.locked_path ego_x ego_y ctx.locked_path_index in
      let next : MergeContext R = record ctx { locked_path_index = left.1 } in
      let moved : IsConsistent next = h in
      let r =
        recheck_locked-IsConsistent s (context_conflict_s cfg hcfg ctx)
          (context_stop_buffer cfg hcfg ctx)
          (cartesian_trajectory_blocker left.0 objs shape collision dt) left.0 next moved in
      ground (arith, r, Option-cases (next_checkpoint hcfg ctx))

  end_cycle-IsConsistent :
      (fuel : ℕ)
      → (ref : RefLine R) → (ext : Extension R) → (s stop_s : R) → (is_merge : Bool)
      → (after_curvature after_collision : ℕ) → (ctx : MergeContext R) → (o : Option (FrenetPath R))
      → IsConsistent ctx
      → IsConsistent (
          end_context (
            end_cycle fuel ref ext s stop_s
              (is_merge && ctx.commit_pending)
              after_curvature
              after_collision
              ctx
              o))
  unfolding end_cycle
  end_cycle-IsConsistent fuel ref ext s stop_s is_merge n k ctx none h = ground arith
  end_cycle-IsConsistent fuel ref ext s stop_s is_merge n k ctx (some b) h = ground arith

  pub finish_cycle-IsConsistent :
      (fuel : ℕ)
      → (ref : RefLine R) → (ext : Extension R) → (objs : List (ObjectInfo R))
      → (shape : VehicleShape R) → (collision : CollisionCheckConfig R) → (s stop_s : R)
      → (is_merge : Bool) → (after_curvature after_collision : ℕ)
      → (candidates : List (FrenetPath R)) → (ctx : MergeContext R) → IsConsistent ctx
      → IsConsistent (
          end_context (
            finish_cycle fuel ref ext objs shape collision s stop_s is_merge after_curvature
              after_collision candidates ctx))
  unfolding finish_cycle
  finish_cycle-IsConsistent fuel ref ext objs shape collision s stop_s is_merge n k cs c h =
      let checked =
        validate_candidates fuel ref ext objs shape collision (is_merge && c.commit_pending) cs in
      end_cycle-IsConsistent fuel ref ext s stop_s is_merge n
        (if is_merge && c.commit_pending then count_valid checked else k) c
        (select_best_path checked) h

  -- In every context that the blocks of Plan reach from the initial one, COMMIT is a phase of a locked
  -- gap, a locked gap is one of an active merge with no commit pending, and a commit is pending only
  -- in an active merge.
  pub IsReachable-IsConsistent : (ctx : MergeContext R) → IsReachable ctx → IsConsistent ctx
  IsReachable-IsConsistent _ IsReachable.start = ground arith
  IsReachable-IsConsistent _ (IsReachable.lock cfg hcfg shape collision dt s x y objs r) =
      plan_locked-IsConsistent cfg hcfg shape collision dt s x y objs _
        (IsReachable-IsConsistent _ r)
  IsReachable-IsConsistent _ (IsReachable.merge cfg hcfg collision s v a gap_at r) =
      update_merge-IsConsistent cfg hcfg collision s v a gap_at _ (IsReachable-IsConsistent _ r)
  IsReachable-IsConsistent _
        (IsReachable.finish {ctx = c} fuel ref ext objs shape collision s stop_s is_merge n k cs
          r) =
      finish_cycle-IsConsistent fuel ref ext objs shape collision s stop_s is_merge n k cs c
        (IsReachable-IsConsistent _ r)
