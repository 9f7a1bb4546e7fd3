-- ===== src/Behavior/Decision/Safety/Limits.antt =====
-- The limits of the decision: lane changes only where they are allowed and safe, and speeds within
-- the limit.
use mpc_ws.Prelude.{subst, ◌≡◌, refl, sym, Bool, true, false, ◌&&◌, ◌||◌, arith}
use mpc_ws.Double.{Double, ◌≤◌, ◌>◌, num}
use mpc_ws.Double.Laws.{IsOrdered, IsNumber, clamp_bounds}
use mpc_ws.Behavior.Decision.{
  acc_target_speed, base_target, choose, decide, emergency, enable, hard_rules, red_light, score,
  target_of,
}
use mpc_ws.Behavior.Decision.Safety.{choose_lem, is_enabled}
use mpc_ws.Behavior.Types.{BehaviorTarget, BehaviorType, UrbanFeature}

module _ {R : Type 0} ⦃d : Double R⦄ where
  -- What the scene allows.
  abbrev pub allows : UrbanFeature R → BehaviorType → Bool
  allows f BehaviorType.keep = true
  allows f BehaviorType.follow = f.surrounding.has_front_vehicle
  allows f BehaviorType.left_change =
      f.route.lane_change_left_allowed && f.surrounding.left_lane_safe
  allows f BehaviorType.right_change =
      f.route.lane_change_right_allowed && f.surrounding.right_lane_safe
  allows f BehaviorType.stop = red_light f || f.risk.pedestrian_risk || emergency f
  allows f BehaviorType.yield = false
  allows f BehaviorType.emergency_stop = emergency f

  enabled-allows :
      (f : UrbanFeature R) (b : BehaviorType)
      → is_enabled (enable f (hard_rules f)) b ≡ true
      → allows f b ≡ true
  unfolding enable hard_rules
  enabled-allows f BehaviorType.keep p = refl
  enabled-allows f BehaviorType.follow p = p
  enabled-allows f BehaviorType.left_change p = ground arith
  enabled-allows f BehaviorType.right_change p = ground arith
  enabled-allows f BehaviorType.stop p = ground arith
  enabled-allows f BehaviorType.yield p = p
  enabled-allows f BehaviorType.emergency_stop p = p

  pub decide-allows :
      (laws : IsOrdered R) → (f : UrbanFeature R) → allows f (decide f).selected_behavior ≡ true
  unfolding decide enable
  decide-allows laws f =
      enabled-allows f (choose (score f (hard_rules f)) (enable f (hard_rules f))).behavior
        (choose_lem laws (score f (hard_rules f)) (enable f (hard_rules f)) refl).0

  -- No branch of the switch raises the desired speed.
  target_of-desired_speed :
      (laws : IsOrdered R)
      → (b : BehaviorType) → (f : UrbanFeature R) → (t : BehaviorTarget R)
      → num 0 ≤ t.desired_speed ≡ true
      → IsNumber (acc_target_speed f t)
      → (target_of b f t).desired_speed ≤ t.desired_speed ≡ true
  unfolding target_of
  target_of-desired_speed laws BehaviorType.keep f t p n = (laws.number_of_le _ _ p).1
  target_of-desired_speed laws BehaviorType.follow f t p n =
      (clamp_bounds laws (acc_target_speed f t) (num 0) t.desired_speed n p).1
  target_of-desired_speed laws BehaviorType.left_change f t p n = (laws.number_of_le _ _ p).1
  target_of-desired_speed laws BehaviorType.right_change f t p n = (laws.number_of_le _ _ p).1
  target_of-desired_speed laws BehaviorType.stop f t p n = p
  target_of-desired_speed laws BehaviorType.yield f t p n = (laws.number_of_le _ _ p).1
  target_of-desired_speed laws BehaviorType.emergency_stop f t p n = p

  -- With a positive speed limit, the desired speed is never above it, if the speed that following
  -- computes is a number.
  pub decide-speed_limit :
      (laws : IsOrdered R)
      → (f : UrbanFeature R) → (f.route.speed_limit > num 0) ≡ true
      → IsNumber (acc_target_speed f (base_target f (hard_rules f) (enable f (hard_rules f))))
      → (decide f).target.desired_speed ≤ f.route.speed_limit ≡ true
  unfolding decide hard_rules
  decide-speed_limit laws f p n =
      let h = hard_rules f in
      let t = base_target f h (enable f h) in
      let limit = f.route.speed_limit in
      let same : t.desired_speed ≡ limit = ground arith in
      let zero_le = subst (λ v. num 0 ≤ v ≡ true) (sym same) (laws.le_of_lt (num 0) limit p) in
      subst (λ v. (decide f).target.desired_speed ≤ v ≡ true) same
        (target_of-desired_speed laws (choose (score f h) (enable f h)).behavior f t zero_le n)
