-- ===== src/Planner/Plan/Invariant.antt =====
-- What Plan keeps true of the planner's state from cycle to cycle.
use mpc_ws.Prelude.{ℕ, Bool, true, false, not, ◌&&◌, List, arith, if◌then◌else◌}
use mpc_ws.Double.{Double, ◌<◌, abs, decimal}
use mpc_ws.Behavior.Decision.{reason}
use mpc_ws.Planner.Command.{is_merge_mode}
use mpc_ws.Planner.Contexts.{AvoidanceContext, FollowingContext, MergeContext, MergePhase}
use mpc_ws.Planner.Converter.{FrenetCoordinates, cartesian_to_frenet}
use mpc_ws.Planner.Follow.Leadership.{WithinGrace, update_following-WithinGrace}
use mpc_ws.Planner.Locked.{LockedOutcome}
use mpc_ws.Planner.Merge.Commit.{CycleEnd, finish_cycle}
use mpc_ws.Planner.Merge.Phases.{IsConsistent, update_merge-IsConsistent}
use mpc_ws.Planner.Merge.Reachable.{
  end_context, finish_cycle-IsConsistent, locked_context, plan_locked-IsConsistent,
}
use mpc_ws.Planner.Plan.{
  PlanResult, Updated, after_locked, end_plan, extension_of, finish_plan, generated_of,
  near_any_merge, plan, plan_candidates, plan_cycle, start_of, update_contexts, with_contexts,
}
use mpc_ws.Planner.Settings.{PlannerSettings, PlannerState, initial_state}
use mpc_ws.Planner.Tracks.{Observed, find_track, update_tracks}
use mpc_ws.Planner.Tracks.Aging.{Distinct, update_tracks-Distinct}
use mpc_ws.Planner.Types.{CartesianState, FrenetState, ObjectInfo}

module _ {R : Type 0} ⦃d : Double R⦄ (fuel : ℕ) (settings : PlannerSettings R) where
  -- The MERGE context is consistent, the FOLLOWING context has not waited for longer than the grace,
  -- and no two tracks have one identifier.
  pub record IsValidState (st : PlannerState R) : Type 0 where
    pub merge : IsConsistent st.merge
    pub following : WithinGrace settings.following_cfg st.following
    pub tracks : Distinct st.object_tracks

  pub initial_state-IsValidState : IsValidState initial_state
  unfolding find_track
  initial_state-IsValidState = record {
    merge = ground arith;
    following = ground arith;
    tracks = tt;
  }

  -- Another MERGE context that is consistent.
  with_merge :
      (st : PlannerState R) (m : MergeContext R)
      → IsConsistent m
      → IsValidState st
      → IsValidState (record st { merge = m })
  with_merge st m c v = record { merge = c; following = v.following; tracks = v.tracks }

  end_plan-IsValidState :
      (e : CycleEnd R) (st : PlannerState R)
      → IsConsistent (end_context e)
      → IsValidState st
      → IsValidState (end_plan fuel settings e st).1
  end_plan-IsValidState (CycleEnd.publish path m) st c v = with_merge st m c v
  end_plan-IsValidState (CycleEnd.failure reason m) st c v = record {
    merge = c;
    following = v.following;
    tracks = v.tracks;
  }

  finish_plan-IsValidState :
      (start : FrenetState R) (ego_v : R) (observed : Observed R) (u : Updated R)
      (st : PlannerState R)
      → IsConsistent u.merge
      → IsValidState st
      → IsValidState (finish_plan fuel settings start ego_v observed u st).1
  unfolding finish_plan
  finish_plan-IsValidState start ego_v observed u st c v =
      let g = generated_of fuel settings start ego_v observed u in
      let is_merge = is_merge_mode g.cmd.mode in
      let ext = extension_of fuel settings g.cmd u.merge in
      let shape = settings.vehicle_shape in
      let collision = settings.collision_cfg in
      let cycle_end =
        finish_cycle fuel settings.ref ext observed.predicted shape collision start.s
          g.cmd.merge_stop_s is_merge g.stats.combined_valid_after_curvature
          g.stats.combined_valid_after_collision g.candidates u.merge in
      let kept : PlannerState R = record st {
        avoidance = g.avoidance;
        prev_mode = g.cmd.mode;
        prev_merge_phase = if is_merge then u.merge.phase else MergePhase.clear;
      } in
      end_plan-IsValidState cycle_end kept
        (finish_cycle-IsConsistent fuel settings.ref ext observed.predicted shape collision start.s
          g.cmd.merge_stop_s is_merge g.stats.combined_valid_after_curvature
          g.stats.combined_valid_after_collision g.candidates u.merge c)
        (record { merge = v.merge; following = v.following; tracks = v.tracks })

  update_contexts-valid :
      (start : FrenetState R) (ego_v : R) (obstacles : List (ObjectInfo R)) (observed : Observed R)
      (avoidance : AvoidanceContext R) (following : FollowingContext R) (merge : MergeContext R)
      → IsConsistent merge
      → WithinGrace settings.following_cfg following
      → let u =
          update_contexts fuel settings start ego_v obstacles observed avoidance following merge in
        IsConsistent u.merge × WithinGrace settings.following_cfg u.following
  unfolding update_contexts
  update_contexts-valid start ego_v obstacles observed avoidance following merge c w = (
    update_merge-IsConsistent settings.merge_cfg settings.highway_merge_cfg settings.collision_cfg
        start.s ego_v settings.limits.max_longitudinal_accel _ merge c,
    update_following-WithinGrace start.s settings.following_cfg _ _ following w,
  )

  if-IsValidState :
      (b : Bool) (x y : PlanResult R)
      → IsValidState x.1
      → IsValidState y.1
      → IsValidState (if b then x else y).1
  if-IsValidState true x y p q = p
  if-IsValidState false x y p q = q

  plan_candidates-IsValidState :
      (start : FrenetState R) (ego_v : R) (obstacles : List (ObjectInfo R)) (observed : Observed R)
      (st : PlannerState R)
      → IsValidState st
      → IsValidState (plan_candidates fuel settings start ego_v obstacles observed st).1
  unfolding plan_candidates
  plan_candidates-IsValidState start ego_v obstacles observed st v =
      let u =
        update_contexts fuel settings start ego_v obstacles observed st.avoidance st.following
          st.merge in
      let (c, w) =
        update_contexts-valid start ego_v obstacles observed st.avoidance st.following st.merge
          v.merge v.following in
      let updated : IsValidState (with_contexts fuel settings u st) = record {
        merge = c;
        following = w;
        tracks = v.tracks;
      } in
      if-IsValidState u.goes_on _ _ (finish_plan-IsValidState start ego_v observed u _ c updated)
        updated

  plan_cycle-IsValidState :
      (ego : CartesianState R) (f : FrenetCoordinates R) (obstacles : List (ObjectInfo R))
      (observed : Observed R) (near : Bool) (st : PlannerState R)
      → IsValidState st
      → IsValidState (plan_cycle fuel settings ego f obstacles observed near st).1
  unfolding plan_cycle
  plan_cycle-IsValidState ego f obstacles observed near st v =
      if-IsValidState ((abs ego.v < decimal 5 1) && not near) _ _ v (
        plan_candidates-IsValidState (start_of fuel settings f) ego.v obstacles observed _
          (record { merge = v.merge; following = v.following; tracks = v.tracks }))

  after_locked-IsValidState :
      (ego : CartesianState R) (f : FrenetCoordinates R) (obstacles : List (ObjectInfo R))
      (observed : Observed R) (near : Bool) (st : PlannerState R) (o : LockedOutcome R)
      → IsConsistent (locked_context o)
      → IsValidState st
      → IsValidState (after_locked fuel settings ego f obstacles observed near st o).1
  unfolding after_locked
  after_locked-IsValidState ego f obstacles observed near st (LockedOutcome.follow p m) c v =
      with_merge st m c v
  after_locked-IsValidState ego f obstacles observed near st (LockedOutcome.fail reason m) c v =
      record { merge = c; following = v.following; tracks = v.tracks }
  after_locked-IsValidState ego f obstacles observed near st (LockedOutcome.go_on m) c v =
      plan_cycle-IsValidState ego f obstacles observed near (record st { merge = m })
        (with_merge st m c v)

  -- A cycle of Plan keeps the state valid, whatever it publishes or for whatever reason it fails.
  pub plan-IsValidState :
      (ego : CartesianState R)
      → (obstacles : List (ObjectInfo R)) → (st : PlannerState R) → IsValidState st
      → IsValidState (plan fuel settings ego obstacles st).1
  unfolding plan
  plan-IsValidState ego obstacles st v =
      let f = cartesian_to_frenet fuel settings.ref ego st.last_s in
      let observed = update_tracks st.object_tracks obstacles in
      let locked =
        plan_locked-IsConsistent settings.merge_cfg settings.highway_merge_cfg
          settings.vehicle_shape settings.collision_cfg settings.path_cfg.dt f.s ego.x ego.y
          observed.predicted st.merge v.merge in
      if-IsValidState (not st.ref_loaded) _ _
        (record { merge = v.merge; following = v.following; tracks = v.tracks })
        (after_locked-IsValidState ego f obstacles observed
          (near_any_merge fuel settings f.s st.merge) _ _ locked
          (record {
            merge = v.merge;
            following = v.following;
            tracks = update_tracks-Distinct st.object_tracks obstacles v.tracks;
          }))
