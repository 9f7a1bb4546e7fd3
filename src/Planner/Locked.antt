-- ===== src/Planner/Locked.antt =====
-- The locked trajectory of a committed merge: RemainingPath, CartesianTrajectoryClear and the COMMIT
-- block of Plan (frenet_planner/src/frenet_planner/frenet_planner.cpp).
pub mod Recheck
use mpc_ws.Prelude.{
  range_from, ℕ, zero, suc, ◌≡◌, refl, sym, ap, ◌∙◌, ◌≢◌, ◌↔◌, ◌⊎◌, inl, inr, Bool, true, false,
  not, ◌&&◌, ◌||◌, Option, none, some, List, [], ◌∷◌, ◌++◌, map, arith, ltb, leb, ◌==◌,
  if◌then◌else◌, Bool-cases, Option-cases, is_some, true≢false, &&_split, length, get_elem?, get_or,
  last_or, head_or, drop, take, All, Any, length-map, All-map, All-of, iota, length-iota, filter,
  Mem, filter_map, Whenever, Mem-filter_map, All-filter_map, Any-map,
}
use mpc_ws.Double.{
  Double, ◌+◌, ◌-◌, ◌*◌, ◌/◌, ◌<◌, ◌≤◌, ◌>◌, ◌≥◌, neg, abs, decimal, num, max, min, clamp,
}
use mpc_ws.Double.Laws.{
  IsOrdered, IsExact, IsNumber, min_le_left, min_le_right, le_max_left, le_max_right, clamp_bounds,
  exact_limit,
}
use mpc_ws.Prelude.Int.{ℤ, pos, negsuc, minus_one, is_negative, ◌==ℤ◌, ==ℤ_iff, ltb_ℤ, leb_ℤ, ◌+ℤ◌}
use mpc_ws.Double.Least.{pick_least}
use mpc_ws.Planner.Collision.{check_obb_overlap, make_ego_box, make_obstacle_box}
use mpc_ws.Planner.Config.{HighwayMergeCheckpoint, HighwayMergeConfig, MergeConfig}
use mpc_ws.Planner.Contexts.{MergeContext, MergePhase, highway_checkpoint_at, is_commit, is_highway}
use mpc_ws.Planner.Converter.{item}
use mpc_ws.Planner.Types.{
  CartesianPath, CartesianState, CollisionCheckConfig, ObjectInfo, OrientedBox, PlanFailureReason,
  VehicleShape, empty_path,
}
use Prim.Native.Nat

-- How the COMMIT block leaves Plan, or goes on with it.
pub data LockedOutcome (R : Type 0) : Type 0 where
  follow : CartesianPath R → MergeContext R → LockedOutcome R
  fail : PlanFailureReason → MergeContext R → LockedOutcome R
  go_on : MergeContext R → LockedOutcome R

abbrev pub min_ℕ : ℕ → ℕ → ℕ
min_ℕ a b = if ltb b a then b else a

-- `assign(begin() + first, begin() + count)`
abbrev pub slice : {R : Type 0} → ℕ → ℕ → List R → List R
slice first count xs = drop first (take count xs)

module _ {R : Type 0} ⦃d : Double R⦄ where
  abbrev pub sample_count : CartesianPath R → ℕ
  sample_count path = min_ℕ (length path.x) (
      min_ℕ (length path.y) (
        min_ℕ (length path.yaw)
          (min_ℕ (length path.kappa) (min_ℕ (length path.v) (length path.a)))))

  abbrev pub squared_distance : CartesianPath R → R → R → ℕ → R
  squared_distance path ego_x ego_y i =
      let dx = item path.x i - ego_x in let dy = item path.y i - ego_y in dx * dx + dy * dy

  -- The sample that the search from `progress_index` on ends at.
  unfoldable pub progress_of : CartesianPath R → R → R → ℕ → ℕ
  progress_of path ego_x ego_y progress_index =
      let count = sample_count path in
      let search_begin =
        if (count == 0) || ltb progress_index count then progress_index else Nat.◌-◌ count 1 in
      elim (pick_least (squared_distance path ego_x ego_y) d.infinity none
        (range_from search_begin (Nat.◌-◌ count search_begin))) [
          | none ↦ search_begin
          | some first ↦ first
        ]

  -- What is left of a path, with the new `progress_index`.
  unfoldable pub remaining_path : CartesianPath R → R → R → ℕ → CartesianPath R × ℕ
  unfolding progress_of
  remaining_path path ego_x ego_y progress_index =
      let count = sample_count path in
      let first = progress_of path ego_x ego_y progress_index in
      if length path.x == 0 then (empty_path, progress_index) else (
        record {
          x = slice first count path.x;
          y = slice first count path.y;
          yaw = slice first count path.yaw;
          kappa = slice first count path.kappa;
          v = slice first count path.v;
          a = slice first count path.a;
        },
        first,
      )

  -- The time of sample i, the margin at it and the ego box there.
  abbrev pub sample_time : R → ℕ → R
  sample_time dt i = d.of_ℕ i * dt

  abbrev pub margin_at : CollisionCheckConfig R → R → R
  margin_at cfg t = cfg.safety_margin + cfg.margin_growth_rate * t

  unfoldable pub locked_box :
      CartesianPath R → VehicleShape R → CollisionCheckConfig R → R → ℕ → OrientedBox R
  unfolding make_ego_box
  locked_box path shape cfg dt i =
      let ego : CartesianState R = record {
        x = item path.x i;
        y = item path.y i;
        yaw = item path.yaw i;
        kappa = num 0;
        v = num 0;
        a = num 0;
      } in
      make_ego_box ego shape (margin_at cfg (sample_time dt i))

  unfoldable pub hits :
      CartesianPath R → VehicleShape R → CollisionCheckConfig R → R → ℕ → ObjectInfo R → Bool
  unfolding make_obstacle_box check_obb_overlap locked_box
  hits path shape cfg dt i obj =
      check_obb_overlap (locked_box path shape cfg dt i)
        (make_obstacle_box obj (sample_time dt i) (margin_at cfg (sample_time dt i)))

  -- The obstacles at one sample, and the samples in order: the first blocking object.
  unfoldable pub blocker_among : (ObjectInfo R → Bool) → List (ObjectInfo R) → Option ℤ
  blocker_among hit [] = none
  blocker_among hit (obj ∷ objs) = if hit obj then some obj.id else blocker_among hit objs

  unfoldable pub blocker_from : (ℕ → ObjectInfo R → Bool) → List (ObjectInfo R) → List ℕ → Option ℤ
  blocker_from hit objs [] = none
  blocker_from hit objs (i ∷ is) = elim (blocker_among (hit i) objs) [
    | some id ↦ some id
    | none ↦ blocker_from hit objs is
  ]

  -- None for a clear trajectory, and the blocking object otherwise.
  unfoldable pub cartesian_trajectory_blocker :
      CartesianPath R → List (ObjectInfo R) → VehicleShape R → CollisionCheckConfig R → R → Option ℤ
  unfolding blocker_from hits
  cartesian_trajectory_blocker path obstacles shape cfg dt =
      let count = min_ℕ (length path.x) (min_ℕ (length path.y) (length path.yaw)) in
      blocker_from (hits path shape cfg dt) obstacles (iota count)

  -- The contexts after an advance to the next checkpoint, the crossing and a cancelled commit.
  abbrev pub advance_checkpoint : MergeContext R → MergeContext R
  advance_checkpoint ctx = record ctx {
    highway_conflict_index = ctx.highway_conflict_index +ℤ pos 1;
    gap_locked = false;
    commit_pending = false;
    gap_safe = false;
    safe_cycles = 0;
    phase = MergePhase.approach;
    locked_path = empty_path;
    locked_elapsed = num 0;
    locked_path_index = 0;
  }

  abbrev pub cancel_commit : MergeContext R → MergeContext R
  cancel_commit ctx = record ctx {
    gap_locked = false;
    gap_safe = false;
    safe_cycles = 0;
    phase = MergePhase.wait;
    locked_path = empty_path;
    locked_elapsed = num 0;
    locked_path_index = 0;
  }

  -- `context_conflict_s` and `context_stop_buffer`
  unfoldable pub context_conflict_s : MergeConfig R → HighwayMergeConfig R → MergeContext R → R
  unfolding highway_checkpoint_at
  context_conflict_s cfg hcfg ctx =
      if not (is_highway ctx.type)
      then cfg.conflict_s
      else elim (highway_checkpoint_at hcfg ctx.highway_zone_index ctx.highway_conflict_index) [
        | none ↦ cfg.conflict_s
        | some checkpoint ↦ checkpoint.conflict_s
      ]

  abbrev pub context_stop_buffer : MergeConfig R → HighwayMergeConfig R → MergeContext R → R
  context_stop_buffer cfg hcfg ctx =
      if is_highway ctx.type then hcfg.stop_buffer else cfg.stop_buffer

  unfoldable pub next_checkpoint :
      HighwayMergeConfig R → MergeContext R → Option (HighwayMergeCheckpoint R)
  unfolding highway_checkpoint_at
  next_checkpoint hcfg ctx =
      if is_highway ctx.type
      then highway_checkpoint_at hcfg ctx.highway_zone_index (ctx.highway_conflict_index +ℤ pos 1)
      else none

  -- The recheck of the trajectory that is left, with the context's new progress.
  unfoldable pub recheck_locked :
      R → R → R → Option ℤ → CartesianPath R → MergeContext R → LockedOutcome R
  recheck_locked s conflict_s stop_buffer (some blocking_id) remaining ctx =
      if s < conflict_s - stop_buffer
      then LockedOutcome.go_on (cancel_commit ctx)
      else LockedOutcome.fail PlanFailureReason.collision_blocked ctx
  recheck_locked s conflict_s stop_buffer none remaining ctx =
      if leb 2 (length remaining.x)
      then LockedOutcome.follow remaining ctx
      else LockedOutcome.fail PlanFailureReason.transient_generation_failure ctx

  -- The COMMIT block.
  unfoldable pub plan_locked :
      MergeConfig R
      → HighwayMergeConfig R
      → VehicleShape R
      → CollisionCheckConfig R
      → R
      → R
      → R
      → R
      → List (ObjectInfo R)
      → MergeContext R
      → LockedOutcome R
  unfolding context_conflict_s next_checkpoint recheck_locked remaining_path
      cartesian_trajectory_blocker
  plan_locked cfg hcfg shape collision dt s ego_x ego_y obstacles ctx =
      let conflict_s = context_conflict_s cfg hcfg ctx in
      let (remaining, progress) =
        remaining_path ctx.locked_path ego_x ego_y ctx.locked_path_index in
      if not (ctx.active && ctx.gap_locked && is_commit ctx.phase)
      then LockedOutcome.go_on ctx
      else if s ≥ conflict_s
      then LockedOutcome.go_on (elim (next_checkpoint hcfg ctx) [
        | some next ↦ advance_checkpoint ctx
        | none ↦ record ctx { phase = MergePhase.cross; locked_path = empty_path }
      ])
      else if length ctx.locked_path.x == 0
      then LockedOutcome.go_on ctx
      else recheck_locked s conflict_s (context_stop_buffer cfg hcfg ctx)
          (cartesian_trajectory_blocker remaining obstacles shape collision dt) remaining
          (record ctx { locked_path_index = progress })
