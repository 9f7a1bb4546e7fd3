-- ===== src/Planner/Avoidance/Target.antt =====
-- FindStaticAvoidanceTarget returns the nearest standing obstacle in the lane and a clear side.
use mpc_ws.Prelude.{
  subst, ℕ, ◌≡◌, refl, sym, ap, ◌↔◌, ◌⊎◌, inl, inr, true, false, Option, none, some, List, [], ◌∷◌,
  arith, Bool-cases, Option-cases, true≢false, All, Any, Mem, filter_map, Whenever, Mem-filter_map,
  All-filter_map, Any-map,
}
use mpc_ws.Double.{Double, ◌-◌, ◌*◌, ◌<◌, ◌≤◌, ◌>◌, neg, abs, decimal, num}
use mpc_ws.Double.Laws.{IsOrdered}
use mpc_ws.Double.Least.{pick_least, pick_least-some}
use mpc_ws.Planner.Avoidance.{
  Blocking, StaticObstacleTarget, blocking_candidate, blocking_gap, choose_offset,
  find_static_avoidance_target, is_side_clear, leaves_side_clear, target_of,
}
use mpc_ws.Planner.Config.{AvoidConfig}
use mpc_ws.Planner.Leader.{project_object_to_frenet}
use mpc_ws.Planner.Types.{FrenetState, ObjectInfo, RefLine, VehicleShape}

module _ {R : Type 0} ⦃d : Double R⦄ (fuel : ℕ) (ref : RefLine R) (ego : FrenetState R)
    (lane_width : R) (shape : VehicleShape R) (cfg : AvoidConfig R) where
  abbrev candidate : ObjectInfo R → Option (Blocking R)
  candidate = blocking_candidate fuel ref ego (lane_width * decimal 5 1) cfg

  -- The obstacle stands ahead, within the detection distance, and within half a lane.
  pub record IsStanding (b : Blocking R) (obj : ObjectInfo R) : Type 0 where
    pub object_eq : b.object ≡ obj
    pub place_eq : b.place ≡ project_object_to_frenet fuel ref obj
    pub gap_eq : b.gap ≡ b.place.s - ego.s
    pub slow : abs b.place.s_dot > cfg.trigger_max_speed ≡ false
    pub in_front : b.gap ≤ num 0 ≡ false
    pub in_range : b.gap > cfg.detection_distance ≡ false
    pub in_lane : abs b.place.d > lane_width * decimal 5 1 ≡ false

  candidate-IsStanding :
      (obj : ObjectInfo R) (b : Blocking R) → candidate obj ≡ some b → IsStanding b obj
  unfolding blocking_candidate
  candidate-IsStanding obj b e = ground arith

  -- Every obstacle within the distance keeps its half width, the vehicle's and the margin away.
  abbrev pub SideClear : R → List (ObjectInfo R) → Type 0
  SideClear offset =
      All λ obj. leaves_side_clear fuel ref ego offset shape cfg.detection_distance obj ≡ true

  is_side_clear-SideClear :
      (objs : List (ObjectInfo R)) (offset : R)
      → (is_side_clear fuel ref ego objs offset shape cfg.detection_distance ≡ true)
        ↔ SideClear offset objs
  unfolding is_side_clear
  is_side_clear-SideClear [] offset = (λ _. tt, λ _. refl)
  is_side_clear-SideClear (obj ∷ objs) offset =
      let ih = is_side_clear-SideClear objs offset in
      (λ e. ground (arith, ih.0), λ h. ground (arith, ih.1))

  -- The offset is to the right only if the right side is clear and the left is not; otherwise it is
  -- to the left.
  abbrev pub IsChosen : R → List (ObjectInfo R) → Type 0
  IsChosen offset objs =
      ((offset ≡ neg cfg.avoid_offset)
        × SideClear (neg cfg.avoid_offset) objs
        × ¬ SideClear cfg.avoid_offset objs)
      ⊎ ((offset ≡ cfg.avoid_offset)
          × (SideClear cfg.avoid_offset objs ⊎ (¬ SideClear (neg cfg.avoid_offset) objs)))

  pub choose_offset_cases :
      (objs : List (ObjectInfo R)) → IsChosen (choose_offset fuel ref ego objs shape cfg) objs
  unfolding choose_offset
  choose_offset_cases objs =
      let left = is_side_clear-SideClear objs cfg.avoid_offset in
      let right = is_side_clear-SideClear objs (neg cfg.avoid_offset) in
      elim (Bool-cases
        (is_side_clear fuel ref ego objs cfg.avoid_offset shape cfg.detection_distance)) [
          | inl l ↦ inr (ground arith, inl (left.0 l))
          | inr l ↦
              elim (Bool-cases (
                is_side_clear fuel ref ego objs (neg cfg.avoid_offset) shape
                  cfg.detection_distance)) [
                    | inl r ↦ inl (ground arith, right.0 r, λ h. true≢false (left.1 h) l)
                    | inr r ↦ inr (ground arith, inr (λ h. true≢false (right.1 h) r))
                  ]
        ]

  -- If a target is found, it describes one of the obstacles, which stands ahead in the lane within
  -- the detection distance, no obstacle that passes the tests is nearer, and the offset is to the
  -- right only if the right side is clear of all obstacles and the left is not, and else to the left.
  pub find_static_avoidance_target_lem :
      (laws : IsOrdered R) (obstacles : List (ObjectInfo R)) (target : StaticObstacleTarget R)
      → find_static_avoidance_target fuel ref ego obstacles lane_width shape cfg ≡ some target
      → (b : Blocking R) × (target ≡ target_of (choose_offset fuel ref ego obstacles shape cfg) b)
        × Any (IsStanding b) obstacles
        × All (λ obj. Whenever (λ c. c.gap < b.gap ≡ false) (candidate obj)) obstacles
        × IsChosen target.avoidance_offset obstacles
  unfolding find_static_avoidance_target
  find_static_avoidance_target_lem laws obstacles target e =
      let seen = filter_map candidate obstacles in
      elim (Option-cases (pick_least blocking_gap d.max_value none seen)) [
        | inl n ↦ absurd (ground arith)
        | inr (b, p) ↦
            let (found, least) =
              pick_least-some blocking_gap laws d.max_value none seen (λ c h. cc) b p in
            let member : Mem b seen = ground arith in
            let chosen = choose_offset fuel ref ego obstacles shape cfg in
            let same : target ≡ target_of chosen b = ground arith in
            (
              b,
              same,
              Any-map (λ obj. candidate obj ≡ some b) (IsStanding b) obstacles
                  (λ obj q. candidate-IsStanding obj b q)
                  (Mem-filter_map candidate obstacles b member),
              All-filter_map candidate (λ c. c.gap < b.gap ≡ false) obstacles least,
              subst (λ offset. IsChosen offset obstacles) (sym (ap (λ r. r.avoidance_offset) same))
                  (choose_offset_cases obstacles),
            )
      ]
