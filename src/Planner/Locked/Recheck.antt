-- ===== src/Planner/Locked/Recheck.antt =====
-- What the COMMIT block promises of a locked trajectory.
use mpc_ws.Prelude.{
  ℕ, ◌≡◌, refl, ◌↔◌, Bool, true, false, Option, none, some, List, [], ◌∷◌, arith, leb, length, All,
  iota,
}
use mpc_ws.Double.{Double, ◌+◌, ◌*◌, ◌/◌, num}
use mpc_ws.Prelude.Int.{ℤ}
use mpc_ws.Planner.Collision.{check_obb_overlap, make_ego_box, make_obstacle_box}
use mpc_ws.Planner.Config.{HighwayMergeConfig, MergeConfig}
use mpc_ws.Planner.Contexts.{MergeContext, MergePhase}
use mpc_ws.Planner.Converter.{item}
use mpc_ws.Planner.Locked.{
  LockedOutcome, blocker_among, blocker_from, cartesian_trajectory_blocker, context_conflict_s,
  context_stop_buffer, hits, locked_box, min_ℕ, plan_locked, recheck_locked, remaining_path,
}
use mpc_ws.Planner.Types.{
  CartesianPath, CollisionCheckConfig, ObjectInfo, OrientedBox, VehicleShape,
}

module _ {R : Type 0} ⦃d : Double R⦄ where
  blocker_among-none :
      (hit : ObjectInfo R → Bool) (objs : List (ObjectInfo R))
      → (blocker_among hit objs ≡ none) ↔ All (λ obj. hit obj ≡ false) objs
  unfolding blocker_among
  blocker_among-none hit [] = (λ _. tt, λ _. refl)
  blocker_among-none hit (obj ∷ objs) =
      let ih = blocker_among-none hit objs in (λ e. ground (arith, ih.0), λ h. ground (arith, ih.1))

  blocker_from-none :
      (hit : ℕ → ObjectInfo R → Bool) (objs : List (ObjectInfo R)) (is : List ℕ)
      → (blocker_from hit objs is ≡ none) ↔ All (λ i. All (λ obj. hit i obj ≡ false) objs) is
  unfolding blocker_from
  blocker_from-none hit objs [] = (λ _. tt, λ _. refl)
  blocker_from-none hit objs (i ∷ is) =
      let ih = blocker_from-none hit objs is in
      let here = blocker_among-none (hit i) objs in
      (λ e. ground (arith, ih.0, here.0), λ h. ground (arith, ih.1, here.1))

  -- The vehicle at sample i, with its sides moved out by a margin.
  abbrev pub ego_at : CartesianPath R → VehicleShape R → ℕ → R → OrientedBox R
  ego_at path shape i margin = record {
    cx = item path.x i;
    cy = item path.y i;
    heading = item path.yaw i;
    half_length = shape.length / num 2 + margin;
    half_width = shape.width / num 2 + margin;
  }

  -- No sample of the path comes into contact with an obstacle, as it is predicted for the sample's
  -- time i * dt, with both boxes widened by the safety margin and what it grows until that time.
  abbrev pub IsTrajectoryClear :
      CartesianPath R → List (ObjectInfo R) → VehicleShape R → CollisionCheckConfig R → R → Type 0
  IsTrajectoryClear path objs shape cfg dt =
      All
        (λ i.
          let t = d.of_ℕ i * dt in
          let margin = cfg.safety_margin + cfg.margin_growth_rate * t in
          All
            (λ obj.
              check_obb_overlap (ego_at path shape i margin) (make_obstacle_box obj t margin)
              ≡ false)
            objs)
        (iota (min_ℕ (length path.x) (min_ℕ (length path.y) (length path.yaw))))

  -- A trajectory has no blocking object if and only if every sample is clear of every obstacle.
  pub cartesian_trajectory_blocker-none :
      (path : CartesianPath R)
      → (objs : List (ObjectInfo R)) → (shape : VehicleShape R) → (cfg : CollisionCheckConfig R)
      → (dt : R)
      → (cartesian_trajectory_blocker path objs shape cfg dt ≡ none)
        ↔ IsTrajectoryClear path objs shape cfg dt
  unfolding cartesian_trajectory_blocker hits locked_box make_ego_box
  cartesian_trajectory_blocker-none path objs shape cfg dt =
      blocker_from-none (hits path shape cfg dt) objs
        (iota (min_ℕ (length path.x) (min_ℕ (length path.y) (length path.yaw))))

  recheck-follow :
      (s conflict_s stop_buffer : R)
      → (blocker : Option ℤ) → (remaining path : CartesianPath R) → (ctx after : MergeContext R)
      → recheck_locked s conflict_s stop_buffer blocker remaining ctx
        ≡ LockedOutcome.follow path after
      → (blocker ≡ none) × (remaining ≡ path) × (ctx ≡ after) × (leb 2 (length remaining.x) ≡ true)
  unfolding recheck_locked
  recheck-follow s c b (some id) remaining path ctx after e = ground (arith)
  recheck-follow s c b none remaining path ctx after e = ground (arith)

  -- A path that the COMMIT block publishes is what is left of the locked one: it is clear of the
  -- obstacles of this cycle and has two samples at least, and the gap stays locked.
  pub plan_locked-follow :
      (cfg : MergeConfig R)
      → (hcfg : HighwayMergeConfig R) → (shape : VehicleShape R)
      → (collision : CollisionCheckConfig R) → (dt s ego_x ego_y : R) → (objs : List (ObjectInfo R))
      → (ctx after : MergeContext R) → (path : CartesianPath R)
      → plan_locked cfg hcfg shape collision dt s ego_x ego_y objs ctx
        ≡ LockedOutcome.follow path after
      → ((remaining_path ctx.locked_path ego_x ego_y ctx.locked_path_index).0 ≡ path)
        × IsTrajectoryClear path objs shape collision dt
        × (leb 2 (length path.x) ≡ true)
        × (after.gap_locked ≡ true)
        × (after.phase ≡ MergePhase.commit)
  unfolding plan_locked
  plan_locked-follow cfg hcfg shape collision dt s ego_x ego_y objs ctx after path e =
      let conflict_s = context_conflict_s cfg hcfg ctx in
      let left = remaining_path ctx.locked_path ego_x ego_y ctx.locked_path_index in
      let blocker = cartesian_trajectory_blocker left.0 objs shape collision dt in
      let r =
        recheck-follow s conflict_s (context_stop_buffer cfg hcfg ctx) blocker left.0 path
          (record ctx { locked_path_index = left.1 }) after in
      let clear = cartesian_trajectory_blocker-none left.0 objs shape collision dt in
      ground (arith, r, clear.0)
