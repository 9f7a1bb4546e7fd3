-- ===== src/Behavior/Feature/Change.antt =====
-- A lane change that the decision selects on the features of the builder: what it says of the objects
-- in the lane that it goes to.
use mpc_ws.Prelude.{ℕ, ◌≡◌, Bool, true, false, arith, Mem}
use mpc_ws.Double.{Double, neg}
use mpc_ws.Double.Laws.{IsOrdered, IsNumber}
use mpc_ws.Prelude.Int.{ℤ}
use mpc_ws.Behavior.Decision.{decide}
use mpc_ws.Behavior.Decision.Safety.Limits.{allows, decide-allows}
use mpc_ws.Behavior.Feature.{
  EgoState, PerceptionObjects, RouteManager, build, in_left_lane, in_right_lane, no_scan,
  project_all,
}
use mpc_ws.Behavior.Feature.Lanes.{
  KeepsDistance, lane_safe-Clear, placed_gap, scan_object-left, scan_object-right,
  scan_objects-KeepsDistance,
}
use mpc_ws.Behavior.Types.{BehaviorType, ObjectFeature, UrbanFeature}
use mpc_ws.Prelude.{ℕ, ◌≡◌, Bool, true, false, arith, Mem}
use mpc_ws.Double.{Double, neg}
use mpc_ws.Double.Laws.{IsOrdered, IsNumber}
use mpc_ws.Prelude.Int.{ℤ}

module _ {R : Type 0} ⦃d : Double R⦄ (laws : IsOrdered R) (manager : RouteManager R)
    (state : EgoState R) (objects : PerceptionObjects R) (frame : ℕ) (last_lead : ℤ) where
  -- The features of the cycle.
  abbrev pub feature : UrbanFeature R
  feature = (build manager state objects frame last_lead).0

  -- The gap of an object, as the builder places it.
  abbrev pub gap_of : ObjectFeature R → R
  gap_of = placed_gap laws manager feature.ego feature.route last_lead

  left-safe :
      (o : ObjectFeature R)
      → Mem o (project_all manager feature.ego objects)
      → o.valid ≡ true
      → in_left_lane feature.ego feature.route o ≡ true
      → IsNumber (gap_of o)
      → IsNumber (neg (gap_of o))
      → feature.surrounding.left_lane_safe ≡ true
      → KeepsDistance laws (gap_of o)
  unfolding build
  left-safe o m v l n k safe =
      scan_objects-KeepsDistance laws manager feature.ego feature.route last_lead (λ s. s.left)
        (in_left_lane feature.ego feature.route)
        (record { adds = scan_object-left laws manager feature.ego feature.route last_lead })
        (project_all manager feature.ego objects) no_scan o m v l n k
        (lane_safe-Clear laws feature.route.lane_change_left_allowed _ safe)

  right-safe :
      (o : ObjectFeature R)
      → Mem o (project_all manager feature.ego objects)
      → o.valid ≡ true
      → in_right_lane feature.ego feature.route o ≡ true
      → IsNumber (gap_of o)
      → IsNumber (neg (gap_of o))
      → feature.surrounding.right_lane_safe ≡ true
      → KeepsDistance laws (gap_of o)
  unfolding build
  right-safe o m v l n k safe =
      scan_objects-KeepsDistance laws manager feature.ego feature.route last_lead (λ s. s.right)
        (in_right_lane feature.ego feature.route)
        (record { adds = scan_object-right laws manager feature.ego feature.route last_lead })
        (project_all manager feature.ego objects) no_scan o m v l n k
        (lane_safe-Clear laws feature.route.lane_change_right_allowed _ safe)

  -- The lane that a behavior changes to.
  abbrev pub goes_to : BehaviorType → ObjectFeature R → Bool
  goes_to BehaviorType.left_change o = in_left_lane feature.ego feature.route o
  goes_to BehaviorType.right_change o = in_right_lane feature.ego feature.route o
  goes_to _ o = false

  allowed-KeepsDistance :
      (b : BehaviorType) (o : ObjectFeature R)
      → allows feature b ≡ true
      → Mem o (project_all manager feature.ego objects)
      → o.valid ≡ true
      → goes_to b o ≡ true
      → IsNumber (gap_of o)
      → IsNumber (neg (gap_of o))
      → KeepsDistance laws (gap_of o)
  allowed-KeepsDistance BehaviorType.keep o a m v l n k = cc
  allowed-KeepsDistance BehaviorType.follow o a m v l n k = cc
  allowed-KeepsDistance BehaviorType.left_change o a m v l n k =
      left-safe o m v l n k (ground (arith, a))
  allowed-KeepsDistance BehaviorType.right_change o a m v l n k =
      right-safe o m v l n k (ground (arith, a))
  allowed-KeepsDistance BehaviorType.stop o a m v l n k = cc
  allowed-KeepsDistance BehaviorType.yield o a m v l n k = cc
  allowed-KeepsDistance BehaviorType.emergency_stop o a m v l n k = cc

  -- If the behavior selected on the builder's features changes to the lane of a perceived object that
  -- could be placed, then the gap to it, as the builder places it and if it is a number, is at least
  -- 12 m ahead or 15 m behind.
  pub decide-KeepsDistance :
      (o : ObjectFeature R)
      → Mem o (project_all manager feature.ego objects)
      → o.valid ≡ true
      → goes_to (decide feature).selected_behavior o ≡ true
      → IsNumber (gap_of o)
      → IsNumber (neg (gap_of o))
      → KeepsDistance laws (gap_of o)
  decide-KeepsDistance o =
      allowed-KeepsDistance (decide feature).selected_behavior o (decide-allows laws feature)
