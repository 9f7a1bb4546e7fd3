-- ===== src/Planner/Command/Modes.antt =====
-- What the command of a cycle promises.
use mpc_ws.Prelude.{
  Mem-filter, ◌≡◌, ◌⊎◌, Bool, true, false, not, ◌&&◌, ◌||◌, Option, List, arith, Option-cases, Mem,
}
use mpc_ws.Double.{Double, ◌≤◌}
use mpc_ws.Double.Laws.{IsOrdered, IsNumber, le_max_left, le_max_right}
use mpc_ws.Prelude.Int.{◌==ℤ◌, ==ℤ_iff}
use mpc_ws.Planner.Command.{
  build_command, cross_speed_floor, is_merge_mode, mode_command, planning_obstacles,
}
use mpc_ws.Planner.Config.{FollowingConfig, HighwayMergeConfig, MergeConfig}
use mpc_ws.Planner.Contexts.{
  AvoidanceContext, FollowingContext, MergeContext, is_cross, is_tracking,
}
use mpc_ws.Planner.Leader.{LeaderTarget}
use mpc_ws.Planner.Types.{ObjectInfo}

module _ {R : Type 0} ⦃d : Double R⦄ where
  -- The command's target speed is never below the speed for the curves ahead; a merge is commanded
  -- only in an active merge context, and in its crossing at the crossing speed at least. Both speeds
  -- are numbers.
  pub build_command-cross :
      (laws : IsOrdered R)
      → (cfg : MergeConfig R) → (hcfg : HighwayMergeConfig R) → (following_cfg : FollowingConfig R)
      → (curve_speed : R) → (begin_avoidance : Bool) → (avoidance : AvoidanceContext R)
      → (merge : MergeContext R) → (following : FollowingContext R)
      → (nearest : Option (LeaderTarget R)) → IsNumber curve_speed
      → IsNumber (cross_speed_floor cfg hcfg merge)
      → let cmd =
          build_command cfg hcfg following_cfg curve_speed begin_avoidance avoidance merge following
            nearest in
        (curve_speed ≤ cmd.target_speed ≡ true)
        × ((not (is_merge_mode cmd.mode) || merge.active) ≡ true)
        × ((not (is_merge_mode cmd.mode && is_cross merge.phase)
              || (cross_speed_floor cfg hcfg merge ≤ cmd.target_speed))
            ≡ true)
  unfolding build_command mode_command
  build_command-cross laws cfg hcfg following_cfg v begin_avoidance avoidance merge following
        nearest p q =
      ground (
        arith,
        le_max_left laws v (cross_speed_floor cfg hcfg merge) p q,
        le_max_right laws v (cross_speed_floor cfg hcfg merge) p q,
        Option-cases nearest,
      )

  -- The collision filter leaves out no obstacle but the tracked one, and that one only before its
  -- avoidance starts.
  pub planning_obstacles-Mem :
      (avoidance : AvoidanceContext R)
      → (begin_avoidance : Bool) → (obstacles : List (ObjectInfo R)) → (obj : ObjectInfo R)
      → Mem obj obstacles
      → Mem obj (planning_obstacles avoidance begin_avoidance obstacles)
        ⊎ ((obj.id ≡ avoidance.obstacle_id)
            × (avoidance.active ≡ true)
            × (is_tracking avoidance.phase ≡ true)
            × (begin_avoidance ≡ false))
  unfolding planning_obstacles
  planning_obstacles-Mem avoidance begin_avoidance obstacles obj m = ground (
    arith,
    Mem-filter (λ o. not (o.id ==ℤ avoidance.obstacle_id)) obstacles obj m,
    ==ℤ_iff obj.id avoidance.obstacle_id,
  )
