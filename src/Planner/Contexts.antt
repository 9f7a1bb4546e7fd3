-- ===== src/Planner/Contexts.antt =====
-- The contexts that FrenetPlanner keeps from cycle to cycle: frenet_planner_node state in
-- frenet_planner/src/frenet_planner/frenet_planner.hpp, and the lookups of a merge zone.
use mpc_ws.Prelude.{
  ℕ, suc, Bool, true, false, not, ◌&&◌, Option, none, some, List, [], ◌∷◌, if◌then◌else◌, get_elem?,
}
use mpc_ws.Double.{Double, ◌≤◌, ◌≥◌, neg, num}
use mpc_ws.Prelude.Int.{ℤ, pos, negsuc, minus_one}
use mpc_ws.Planner.Config.{HighwayMergeCheckpoint, HighwayMergeConfig, HighwayMergeZone}
use mpc_ws.Planner.Types.{CartesianPath, MergeType, empty_path}

pub data AvoidPhase : Type 0 where
  tracking shift pass : AvoidPhase

pub data MergePhase : Type 0 where
  approach wait commit cross clear : MergePhase

pub record AvoidanceContext (R : Type 0) : Type 0 where
  pub active : Bool
  pub obstacle_id : ℤ
  pub phase : AvoidPhase
  pub obstacle_s : R
  pub obstacle_d : R
  pub obstacle_width : R
  pub obstacle_length : R
  pub target_d : R

pub record FollowingContext (R : Type 0) : Type 0 where
  pub active : Bool
  pub leader_id : ℤ
  pub leader_s : R
  pub leader_d : R
  pub leader_speed : R
  pub leader_accel : R
  pub missing_cycles : ℕ

pub record MergeContext (R : Type 0) : Type 0 where
  pub active : Bool
  pub type : MergeType
  pub highway_zone_index : ℤ
  pub highway_conflict_index : ℤ
  pub phase : MergePhase
  pub gap_safe : Bool
  pub gap_locked : Bool
  pub commit_pending : Bool
  pub safe_cycles : ℕ
  pub entry_time : R
  pub clear_time : R
  pub preceding_id : ℤ
  pub preceding_time : R
  pub following_id : ℤ
  pub following_time : R
  pub crossing_vehicle_count : ℕ
  pub locked_path : CartesianPath R
  pub locked_elapsed : R
  pub locked_path_index : ℕ

abbrev pub is_tracking : AvoidPhase → Bool
is_tracking AvoidPhase.tracking = true
is_tracking _ = false

abbrev pub is_shift : AvoidPhase → Bool
is_shift AvoidPhase.shift = true
is_shift _ = false

abbrev pub is_pass : AvoidPhase → Bool
is_pass AvoidPhase.pass = true
is_pass _ = false

abbrev pub is_commit : MergePhase → Bool
is_commit MergePhase.commit = true
is_commit _ = false

abbrev pub is_cross : MergePhase → Bool
is_cross MergePhase.cross = true
is_cross _ = false

abbrev pub is_highway : MergeType → Bool
is_highway MergeType.highway = true
is_highway _ = false

abbrev pub is_roundabout : MergeType → Bool
is_roundabout MergeType.roundabout = true
is_roundabout _ = false

abbrev pub is_none : MergeType → Bool
is_none MergeType.none = true
is_none _ = false

-- `&xs[index]`, and nullptr for an index out of range, negative ones included.
abbrev pub element_at {ℓ} : {A : Type ℓ} → List A → ℤ → Option A
element_at xs (pos n) = get_elem? xs n
element_at xs (negsuc n) = none

module _ {R : Type 0} ⦃d : Double R⦄ where
  -- AvoidanceContext{}, FollowingContext{}, MergeContext{}
  abbrev pub no_avoidance : AvoidanceContext R
  no_avoidance = record {
    active = false;
    obstacle_id = minus_one;
    phase = AvoidPhase.tracking;
    obstacle_s = num 0;
    obstacle_d = num 0;
    obstacle_width = num 0;
    obstacle_length = num 0;
    target_d = num 0;
  }

  abbrev pub no_following : FollowingContext R
  no_following = record {
    active = false;
    leader_id = minus_one;
    leader_s = num 0;
    leader_d = num 0;
    leader_speed = num 0;
    leader_accel = num 0;
    missing_cycles = 0;
  }

  abbrev pub no_merge : MergeContext R
  no_merge = record {
    active = false;
    type = MergeType.none;
    highway_zone_index = minus_one;
    highway_conflict_index = pos 0;
    phase = MergePhase.approach;
    gap_safe = false;
    gap_locked = false;
    commit_pending = false;
    safe_cycles = 0;
    entry_time = num 0;
    clear_time = num 0;
    preceding_id = minus_one;
    preceding_time = neg (num 1);
    following_id = minus_one;
    following_time = neg (num 1);
    crossing_vehicle_count = 0;
    locked_path = empty_path;
    locked_elapsed = num 0;
    locked_path_index = 0;
  }

  unfoldable pub highway_zone_at : HighwayMergeConfig R → ℤ → Option (HighwayMergeZone R)
  highway_zone_at cfg index = element_at cfg.zones index

  unfoldable pub highway_checkpoint_at :
      HighwayMergeConfig R → ℤ → ℤ → Option (HighwayMergeCheckpoint R)
  unfolding highway_zone_at
  highway_checkpoint_at cfg zone_index checkpoint_index = elim (highway_zone_at cfg zone_index) [
    | none ↦ none
    | some zone ↦ element_at zone.checkpoints checkpoint_index
  ]

  -- The loop of FindHighwayMergeZone from zone i on.
  unfoldable pub zone_from : List (HighwayMergeZone R) → R → ℕ → ℤ
  zone_from [] s i = minus_one
  zone_from (zone ∷ zones) s i =
      let rest = zone_from zones s (suc i) in
      if (s ≥ zone.start_s) && (s ≤ zone.completion_s) then pos i else rest

  unfoldable pub find_highway_merge_zone : HighwayMergeConfig R → R → ℤ
  unfolding zone_from
  find_highway_merge_zone cfg s = if not cfg.enabled then minus_one else zone_from cfg.zones s 0
