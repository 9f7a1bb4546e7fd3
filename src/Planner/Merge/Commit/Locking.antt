-- ===== src/Planner/Merge/Commit/Locking.antt =====
-- What a commit rests on.
use mpc_ws.Prelude.{
  subst, ℕ, ◌≡◌, refl, sym, ap, ◌∙◌, inl, inr, Bool, true, false, ◌&&◌, Option, none, some, List,
  [], ◌∷◌, map, arith, if◌then◌else◌, Option-cases, Any, Mem, Any-map,
}
use mpc_ws.Double.{Double}
use mpc_ws.Double.Laws.{IsOrdered}
use mpc_ws.Behavior.Decision.{candidates}
use mpc_ws.Planner.Contexts.{MergeContext, MergePhase}
use mpc_ws.Planner.Cost.{select_best_path}
use mpc_ws.Planner.Cost.Best.{IsBest, select_best_path-IsBest}
use mpc_ws.Planner.Locked.{cartesian_trajectory_blocker}
use mpc_ws.Planner.Locked.Recheck.{IsTrajectoryClear, cartesian_trajectory_blocker-none}
use mpc_ws.Planner.Merge.Commit.{
  CycleEnd, Extension, commit_gap, count_valid, end_cycle, finish_cycle, full_path,
  validate_candidate, validate_candidates,
}
use mpc_ws.Planner.Types.{
  CartesianPath, CollisionCheckConfig, FrenetPath, ObjectInfo, RefLine, VehicleShape,
}

module _ {R : Type 0} ⦃d : Double R⦄ where
  -- A candidate that is valid after the check is one of the candidates as it was, and its extended
  -- trajectory is clear.
  validate_candidate-valid :
      (fuel : ℕ)
      → (ref : RefLine R) → (ext : Extension R) → (objs : List (ObjectInfo R))
      → (shape : VehicleShape R) → (collision : CollisionCheckConfig R) → (candidate : FrenetPath R)
      → let checked = validate_candidate fuel ref ext objs shape collision candidate in
        checked.valid ≡ true
        → (candidate ≡ checked)
          × IsTrajectoryClear (full_path fuel ref ext candidate) objs shape collision ext.dt
  unfolding validate_candidate
  validate_candidate-valid fuel ref ext objs shape collision candidate p =
      let full = full_path fuel ref ext candidate in
      ground (
        arith,
        (cartesian_trajectory_blocker-none full objs shape collision ext.dt).0,
        Option-cases (cartesian_trajectory_blocker full objs shape collision ext.dt),
      )

  pub Mem-validated :
      (fuel : ℕ)
      → (ref : RefLine R) → (ext : Extension R) → (objs : List (ObjectInfo R))
      → (shape : VehicleShape R) → (collision : CollisionCheckConfig R)
      → (candidates : List (FrenetPath R)) → (best : FrenetPath R) → best.valid ≡ true
      → Mem best (map (validate_candidate fuel ref ext objs shape collision) candidates)
      → Mem best candidates
        × IsTrajectoryClear (full_path fuel ref ext best) objs shape collision ext.dt
  Mem-validated fuel ref ext objs shape collision [] best v m = elim m [ ]
  Mem-validated fuel ref ext objs shape collision (c ∷ cs) best v (inl e) =
      let (same, clear) =
        validate_candidate-valid fuel ref ext objs shape collision c (ap (λ x. x.valid) e ∙ v) in
      let eq : c ≡ best = same ∙ e in
      (
        inl eq,
        subst (λ x. IsTrajectoryClear (full_path fuel ref ext x) objs shape collision ext.dt) eq
            clear,
      )
  Mem-validated fuel ref ext objs shape collision (c ∷ cs) best v (inr m) =
      let (m', clear) = Mem-validated fuel ref ext objs shape collision cs best v m in
      (inr m', clear)

  validated :
      (fuel : ℕ)
      → (ref : RefLine R) → (ext : Extension R) → (objs : List (ObjectInfo R))
      → (shape : VehicleShape R) → (collision : CollisionCheckConfig R) → (pending : Bool)
      → (candidates : List (FrenetPath R)) → (best : FrenetPath R) → pending ≡ true
      → IsBest (validate_candidates fuel ref ext objs shape collision pending candidates) best
      → Mem best candidates
        × IsTrajectoryClear (full_path fuel ref ext best) objs shape collision ext.dt
  unfolding validate_candidates
  validated fuel ref ext objs shape collision true candidates best p h =
      Mem-validated fuel ref ext objs shape collision candidates best h.is_valid h.is_candidate
  validated fuel ref ext objs shape collision false candidates best p h = absurd (ground arith)

  end_cycle-locked :
      (fuel : ℕ)
      → (ref : RefLine R) → (ext : Extension R) → (s stop_s : R) → (pending : Bool)
      → (after_curvature after_collision : ℕ) → (ctx after : MergeContext R)
      → (path : CartesianPath R) → (o : Option (FrenetPath R)) → ctx.gap_locked ≡ false
      → end_cycle fuel ref ext s stop_s pending after_curvature after_collision ctx o
        ≡ CycleEnd.publish path after
      → after.gap_locked ≡ true
      → (b : FrenetPath R) × (o ≡ some b)
        × (pending ≡ true)
        × (path ≡ full_path fuel ref ext b)
        × (after ≡ commit_gap path ctx)
  unfolding end_cycle
  end_cycle-locked fuel ref ext s stop_s pending n m ctx after path none u e l =
      absurd (ground arith)
  end_cycle-locked fuel ref ext s stop_s pending n m ctx after path (some b) u e l =
      let r : (pending ≡ true) × (path ≡ full_path fuel ref ext b) × (after ≡ commit_gap path ctx) =
        ground arith in
      (b, refl, r.0, r.1, r.2)

  -- If Plan ends with a gap newly locked, then a commit was pending in a merge, and the path that is
  -- published and locked is the extension of a valid candidate of this cycle and is clear of every
  -- obstacle at every sample.
  pub finish_cycle-locked :
      (laws : IsOrdered R)
      → (fuel : ℕ) → (ref : RefLine R) → (ext : Extension R) → (objs : List (ObjectInfo R))
      → (shape : VehicleShape R) → (collision : CollisionCheckConfig R) → (s stop_s : R)
      → (is_merge : Bool) → (after_curvature after_collision : ℕ)
      → (candidates : List (FrenetPath R)) → (ctx after : MergeContext R) → (path : CartesianPath R)
      → ctx.gap_locked ≡ false
      → finish_cycle fuel ref ext objs shape collision s stop_s is_merge after_curvature
          after_collision candidates ctx
        ≡ CycleEnd.publish path after
      → after.gap_locked ≡ true
      → (is_merge ≡ true)
        × (ctx.commit_pending ≡ true)
        × (after.locked_path ≡ path)
        × (after.phase ≡ MergePhase.commit)
        × IsTrajectoryClear path objs shape collision ext.dt
        × Any (λ c. (c.valid ≡ true) × (path ≡ full_path fuel ref ext c)) candidates
  unfolding finish_cycle
  finish_cycle-locked laws fuel ref ext objs shape collision s stop_s is_merge after_curvature
        after_collision candidates ctx after path u e l =
      let pending = is_merge && ctx.commit_pending in
      let checked = validate_candidates fuel ref ext objs shape collision pending candidates in
      let (b, chosen, p, full, committed) =
        end_cycle-locked fuel ref ext s stop_s pending after_curvature
          (if pending then count_valid checked else after_collision) ctx after path
          (select_best_path checked) u e l in
      let best = select_best_path-IsBest laws checked b chosen in
      let (m, clear) = validated fuel ref ext objs shape collision pending candidates b p best in
      (
        ground arith,
        ground arith,
        ap (λ c. c.locked_path) committed,
        ap (λ c. c.phase) committed,
        subst (λ x. IsTrajectoryClear x objs shape collision ext.dt) (sym full) clear,
        Any-map (λ c. c ≡ b) (λ c. (c.valid ≡ true) × (path ≡ full_path fuel ref ext c)) candidates
            (λ c q.
              (ap (λ x. x.valid) q ∙ best.is_valid, full ∙ sym (ap (full_path fuel ref ext) q)))
            m,
      )
