-- ===== src/Planner/Plan/Published.antt =====
-- What Plan publishes.
use mpc_ws.Prelude.{
  subst, ℕ, ◌≡◌, refl, ◌⊎◌, inl, inr, Bool, true, false, not, ◌&&◌, ◌||◌, none, some, List, arith,
  leb, if◌then◌else◌, length, Mem,
}
use mpc_ws.Double.{Double, ◌<◌, abs, decimal, num}
use mpc_ws.Behavior.Decision.{reason}
use mpc_ws.Planner.Command.{is_merge_mode, planning_obstacles}
use mpc_ws.Planner.Contexts.{MergeContext}
use mpc_ws.Planner.Converter.{FrenetCoordinates, arc_deriv_to_time_deriv, cartesian_to_frenet}
use mpc_ws.Planner.Fallback.{plan_low_speed_fallback}
use mpc_ws.Planner.Generate.{Generated, is_avoid_mode}
use mpc_ws.Planner.Generate.Feasible.{Feasible, IsSmooth, generate-Feasible}
use mpc_ws.Planner.Locked.{LockedOutcome, plan_locked, remaining_path}
use mpc_ws.Planner.Locked.Recheck.{IsTrajectoryClear, plan_locked-follow}
use mpc_ws.Planner.Maneuver.{coast_exempt_id}
use mpc_ws.Planner.Merge.Commit.{CycleEnd}
use mpc_ws.Planner.Plan.{
  PlanResult, Updated, after_locked, command_of, end_plan, extension_of, fallback_target,
  finish_plan, generated_of, near_any_merge, plan, plan_candidates, plan_cycle, start_of,
  update_contexts, with_contexts,
}
use mpc_ws.Planner.Plan.Ends.{IsEnd, finish_cycle-published}
use mpc_ws.Planner.Settings.{PlannerSettings, PlannerState}
use mpc_ws.Planner.Tracks.{Observed, update_tracks}
use mpc_ws.Planner.Types.{
  CartesianPath, CartesianState, FrenetPath, ObjectInfo, PlanFailureReason, PlannerCommand,
}

module _ {R : Type 0} ⦃d : Double R⦄ where
  -- The branch that publishes.
  published-if :
      (b : Bool) (x y : PlanResult R) (path : CartesianPath R)
      → (if b then x else y).0 ≡ some path
      → ((b ≡ true) × (x.0 ≡ some path)) ⊎ ((b ≡ false) × (y.0 ≡ some path))
  published-if true x y path e = inl (refl, e)
  published-if false x y path e = inr (refl, e)

  module _ (fuel : ℕ) (settings : PlannerSettings R) (ego : CartesianState R)
      (obstacles : List (ObjectInfo R)) (st : PlannerState R) where
    abbrev pub cycle_projection : FrenetCoordinates R
    cycle_projection = cartesian_to_frenet fuel settings.ref ego st.last_s

    abbrev pub cycle_observed : Observed R
    cycle_observed = update_tracks st.object_tracks obstacles

    abbrev pub cycle_locked : LockedOutcome R
    cycle_locked =
        plan_locked settings.merge_cfg settings.highway_merge_cfg settings.vehicle_shape
          settings.collision_cfg settings.path_cfg.dt cycle_projection.s ego.x ego.y
          cycle_observed.predicted st.merge

    abbrev pub cycle_contexts : MergeContext R → Updated R
    cycle_contexts merge =
        update_contexts fuel settings (start_of fuel settings cycle_projection) ego.v obstacles
          cycle_observed st.avoidance st.following merge

    abbrev pub cycle_planning : MergeContext R → List (ObjectInfo R)
    cycle_planning merge =
        let u = cycle_contexts merge in
        planning_obstacles u.avoidance u.begin_avoidance cycle_observed.predicted

    abbrev pub cycle_command : MergeContext R → PlannerCommand R
    cycle_command merge =
        command_of fuel settings (start_of fuel settings cycle_projection) ego.v
          (cycle_contexts merge)

    abbrev pub cycle_generated : MergeContext R → Generated R
    cycle_generated merge =
        generated_of fuel settings (start_of fuel settings cycle_projection) ego.v cycle_observed
          (cycle_contexts merge)

    -- The rest of the locked path.
    abbrev pub IsRest : CartesianPath R → Type 0
    IsRest path =
        ((remaining_path st.merge.locked_path ego.x ego.y st.merge.locked_path_index).0 ≡ path)
        × IsTrajectoryClear path cycle_observed.predicted settings.vehicle_shape
            settings.collision_cfg settings.path_cfg.dt
        × (leb 2 (length path.x) ≡ true)

    -- The fallback, at a low speed and away from a conflict point.
    abbrev pub IsFallback : CartesianPath R → Type 0
    IsFallback path =
        (abs ego.v < decimal 5 1 ≡ true)
        × (near_any_merge fuel settings cycle_projection.s st.merge ≡ false)
        × (path
            ≡ plan_low_speed_fallback fuel settings.ref settings.path_cfg.dt ego cycle_projection.s
                cycle_projection.d (fallback_target fuel settings cycle_projection.s st.avoidance)
                (num 2))

    -- A candidate for the contexts of this cycle, where `merge` is what the COMMIT block leaves.
    pub record IsPlanned (path : CartesianPath R) : Type 0 where
      pub merge : MergeContext R
      pub unlocked : cycle_locked ≡ LockedOutcome.go_on merge
      pub best : FrenetPath R
      pub feasible :
          Feasible fuel settings
            (start_of fuel settings cycle_projection)
            (cycle_planning merge)
            (coast_exempt_id (cycle_command merge))
            best
      pub smooth :
          ((cycle_contexts merge).begin_avoidance || is_avoid_mode (cycle_command merge).mode
            ≡ false)
          ⊎ IsSmooth fuel settings best
      pub candidate : Mem best (cycle_generated merge).candidates
      pub published :
          IsEnd fuel settings.ref
            (extension_of fuel settings (cycle_generated merge).cmd (cycle_contexts merge).merge)
            cycle_observed.predicted
            settings.vehicle_shape
            settings.collision_cfg
            best
            path

    end_plan-published :
        (e : CycleEnd R) (after : PlannerState R) (path : CartesianPath R)
        → (end_plan fuel settings e after).0 ≡ some path
        → (m : MergeContext R) × (e ≡ CycleEnd.publish path m)
    end_plan-published (CycleEnd.publish p m) after path e = (m, ground arith)
    end_plan-published (CycleEnd.failure reason m) after path e = cc

    finish_plan-IsPlanned :
        (merge : MergeContext R) (before : PlannerState R) (path : CartesianPath R)
        → cycle_locked ≡ LockedOutcome.go_on merge
        → (finish_plan fuel settings
            (start_of fuel settings cycle_projection)
            ego.v
            cycle_observed
            (cycle_contexts merge)
            before).0
          ≡ some path
        → IsPlanned path
    unfolding finish_plan
    finish_plan-IsPlanned merge before path unlocked e =
        let start = start_of fuel settings cycle_projection in
        let u = cycle_contexts merge in
        let g = cycle_generated merge in
        let (after, published) = end_plan-published _ _ path e in
        let (best, m, v, is_end) =
          finish_cycle-published fuel settings.ref (extension_of fuel settings g.cmd u.merge)
            cycle_observed.predicted settings.vehicle_shape settings.collision_cfg start.s
            g.cmd.merge_stop_s (is_merge_mode g.cmd.mode) g.stats.combined_valid_after_curvature
            g.stats.combined_valid_after_collision g.candidates u.merge after path published in
        let (feasible, smooth) =
          generate-Feasible fuel settings start (cycle_planning merge) u.begin_avoidance
            (cycle_command merge) u.avoidance best m v in
        record {
          merge = merge;
          unlocked = unlocked;
          best = best;
          feasible = feasible;
          smooth = smooth;
          candidate = m;
          published = is_end;
        }

    -- The state that the blocks of the contexts start from.
    abbrev pub cycle_state : MergeContext R → R → PlannerState R
    cycle_state merge last_d_dot = record st {
      last_failure_reason = PlanFailureReason.none;
      last_s = some cycle_projection.s;
      last_d = cycle_projection.d;
      last_d_dot = last_d_dot;
      object_tracks = cycle_observed.tracks;
      merge = merge;
    }

    plan_candidates-IsPlanned :
        (merge : MergeContext R) (last_d_dot : R) (path : CartesianPath R)
        → cycle_locked ≡ LockedOutcome.go_on merge
        → (plan_candidates fuel settings
            (start_of fuel settings cycle_projection)
            ego.v
            obstacles
            cycle_observed
            (cycle_state merge last_d_dot)).0
          ≡ some path
        → IsPlanned path
    unfolding plan_candidates
    plan_candidates-IsPlanned merge last_d_dot path unlocked e =
        let u = cycle_contexts merge in
        let after = with_contexts fuel settings u (cycle_state merge last_d_dot) in
        let start = start_of fuel settings cycle_projection in
        let finished = finish_plan fuel settings start ego.v cycle_observed u after in
        elim (published-if u.goes_on finished (none, after) path e) [
          | inl (g, e') ↦ finish_plan-IsPlanned merge after path unlocked e'
          | inr (g, e') ↦ cc
        ]

    plan_cycle-published :
        (merge : MergeContext R) (path : CartesianPath R)
        → cycle_locked ≡ LockedOutcome.go_on merge
        → (plan_cycle fuel settings ego cycle_projection obstacles cycle_observed
            (near_any_merge fuel settings cycle_projection.s st.merge)
            (cycle_state merge st.last_d_dot)).0
          ≡ some path
        → IsFallback path ⊎ IsPlanned path
    unfolding plan_cycle
    plan_cycle-published merge path unlocked e =
        let f = cycle_projection in
        let near = near_any_merge fuel settings f.s st.merge in
        let before = cycle_state merge st.last_d_dot in
        let d_dot = (arc_deriv_to_time_deriv f.s_dot f.s_ddot f.d_prime f.d_pprime).0 in
        let fallback =
          plan_low_speed_fallback fuel settings.ref settings.path_cfg.dt ego f.s f.d
            (fallback_target fuel settings f.s st.avoidance) (num 2) in
        let planned =
          plan_candidates fuel settings (start_of fuel settings f) ego.v obstacles cycle_observed
            (cycle_state merge d_dot) in
        elim (published-if ((abs ego.v < decimal 5 1) && not near) (some fallback, before) planned
          path e) [
            | inl (p, e') ↦ inl (ground arith, ground arith, ground arith)
            | inr (q, e') ↦ inr (plan_candidates-IsPlanned merge d_dot path unlocked e')
          ]

    after_locked-published :
        (o : LockedOutcome R) (path : CartesianPath R)
        → cycle_locked ≡ o
        → (after_locked fuel settings ego cycle_projection obstacles cycle_observed
            (near_any_merge fuel settings cycle_projection.s st.merge)
            (cycle_state st.merge st.last_d_dot)
            o).0
          ≡ some path
        → IsRest path ⊎ IsFallback path ⊎ IsPlanned path
    unfolding after_locked
    after_locked-published (LockedOutcome.follow p merge) path o e =
        let r =
          plan_locked-follow settings.merge_cfg settings.highway_merge_cfg settings.vehicle_shape
            settings.collision_cfg settings.path_cfg.dt cycle_projection.s ego.x ego.y
            cycle_observed.predicted st.merge merge p o in
        let same : p ≡ path = ground arith in inl (subst IsRest same (r.0, r.1, r.2))
    after_locked-published (LockedOutcome.fail reason merge) path o e = cc
    after_locked-published (LockedOutcome.go_on merge) path o e =
        elim (plan_cycle-published merge path o e) [ inl h ↦ inr (inl h) | inr h ↦ inr (inr h) ]

    -- A path that Plan publishes is the rest of the locked one, clear in this cycle and of two
    -- samples at least; or the fallback, at a low speed and away from a conflict point; or it comes
    -- from a valid candidate of this cycle that keeps the limits of the vehicle and is free of
    -- collisions with the obstacles that are planned for (and turns within the lateral acceleration,
    -- if it avoids an obstacle), as it is or extended through the conflict zone and then clear of all
    -- obstacles.
    pub plan-published :
        (path : CartesianPath R)
        → (plan fuel settings ego obstacles st).0 ≡ some path
        → IsRest path ⊎ IsFallback path ⊎ IsPlanned path
    unfolding plan
    plan-published path e = elim (published-if (not st.ref_loaded) _ _ path e) [
      | inl (p, e') ↦ cc
      | inr (q, e') ↦ after_locked-published cycle_locked path refl e'
    ]
