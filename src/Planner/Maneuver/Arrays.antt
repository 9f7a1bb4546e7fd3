-- ===== src/Planner/Maneuver/Arrays.antt =====
-- The arrays that each generator of path_generator.cpp fills are as long as the times.
use mpc_ws.Prelude.{
  subst, ℕ, ◌≡◌, Bool, true, false, not, List, [], ◌∷◌, map, arith, if◌then◌else◌, length,
  length-map, Mem, is_empty, Mem-map, Mem-concat_map,
}
use mpc_ws.Double.{Double, ◌+◌, ◌≤◌, decimal, num}
use mpc_ws.Prelude.Int.{is_negative}
use mpc_ws.Planner.Gap.{entry_speed}
use mpc_ws.Planner.Generator.{
  KinematicLimits, PathGeneratorConfig, SamplingRange, approach_speed, arrival_candidate,
  arrival_times, follow_target, generate_following_candidates, generate_lateral_candidates,
  generate_merge_arrival_candidates, generate_stopping_candidates,
  generate_velocity_keeping_candidates, lateral_ends, nearest_horizon, over_grid,
  sample_lateral_quintic, sample_longitudinal_quartic, sample_longitudinal_quintic, sample_range,
  sample_times, to_target,
}
use mpc_ws.Planner.Maneuver.{
  follow_leader, follow_or_keep, longitudinal_candidates, merge_candidates,
}
use mpc_ws.Planner.Polynomial.Quartic.{QuarticPolynomial, make_quartic}
use mpc_ws.Planner.Polynomial.Quintic.{QuinticPolynomial, make_quintic}
use mpc_ws.Planner.Types.{BehaviorState, FrenetPath, FrenetState, PlannerCommand}

module _ {R : Type 0} ⦃d : Double R⦄ where
  abbrev pub HasLateral : FrenetPath R → Type 0
  HasLateral p =
      (length p.d ≡ length p.t) × (length p.d_d ≡ length p.t) × (length p.d_dd ≡ length p.t)

  abbrev pub HasLongitudinal : FrenetPath R → Type 0
  HasLongitudinal p =
      (length p.s ≡ length p.t) × (length p.s_d ≡ length p.t) × (length p.s_dd ≡ length p.t)

  lateral_quintic-HasLateral :
      (poly : QuinticPolynomial R) (ts : List R) → HasLateral (sample_lateral_quintic poly ts)
  unfolding sample_lateral_quintic
  lateral_quintic-HasLateral poly ts = (length-map _ ts, length-map _ ts, length-map _ ts)

  longitudinal_quintic-HasLongitudinal :
      (poly : QuinticPolynomial R) (ts : List R)
      → HasLongitudinal (sample_longitudinal_quintic poly ts)
  unfolding sample_longitudinal_quintic
  longitudinal_quintic-HasLongitudinal poly ts = (length-map _ ts, length-map _ ts, length-map _ ts)

  longitudinal_quartic-HasLongitudinal :
      (poly : QuarticPolynomial R) (ts : List R)
      → HasLongitudinal (sample_longitudinal_quartic poly ts)
  unfolding sample_longitudinal_quartic
  longitudinal_quartic-HasLongitudinal poly ts = (length-map _ ts, length-map _ ts, length-map _ ts)

  -- A predicate of every candidate of a grid.
  over_grid-All :
      (P : FrenetPath R → Type 0) (fuel : ℕ) (horizon : SamplingRange R) (dt : R) (ends : List R)
      (candidate : R → List R → R → FrenetPath R)
      → ((T : R) (ts : List R) (end : R) → P (candidate T ts end))
      → (p : FrenetPath R) → Mem p (over_grid fuel horizon dt ends candidate)
      → P p
  unfolding over_grid
  over_grid-All P fuel horizon dt ends candidate each p m =
      let ts : R → List R = λ T. sample_times fuel T dt in
      let f : R → List (FrenetPath R) =
        λ T. if T ≤ decimal 1 6 then [] else map (candidate T (ts T)) ends in
      let (T, _, n) = Mem-concat_map f (sample_range fuel horizon) p m in
      let k : Mem p (map (candidate T (ts T)) ends) = ground arith in
      let (x, _, e) = Mem-map (candidate T (ts T)) ends p k in subst P e (each T (ts T) x)

  pub lateral_candidates-HasLateral :
      (fuel : ℕ) (start : FrenetState R) (cfg : PathGeneratorConfig R) (p : FrenetPath R)
      → Mem p (generate_lateral_candidates fuel start cfg)
      → HasLateral p
  unfolding generate_lateral_candidates
  lateral_candidates-HasLateral fuel start cfg p m =
      let poly : R → R → QuinticPolynomial R =
        λ T d1. make_quintic start.d start.d_d start.d_dd d1 (num 0) (num 0) T in
      over_grid-All HasLateral fuel cfg.time_horizon cfg.dt (lateral_ends fuel start cfg)
        (λ T ts d1. sample_lateral_quintic (poly T d1) ts)
        (λ T ts d1. lateral_quintic-HasLateral (poly T d1) ts) p m

  to_target-HasLongitudinal :
      (start : FrenetState R) (target target_dot target_ddot T : R) (ts : List R) (delta : R)
      → HasLongitudinal (to_target start target target_dot target_ddot T ts delta)
  unfolding to_target
  to_target-HasLongitudinal start target target_dot target_ddot T ts delta =
      longitudinal_quintic-HasLongitudinal
        (make_quintic start.s start.s_d start.s_dd (target + delta) target_dot target_ddot T) ts

  module _ (fuel : ℕ) (start : FrenetState R) (cfg : PathGeneratorConfig R) (p : FrenetPath R) where
    following-HasLongitudinal :
        (s v a time_gap min_gap cruise gap_gain : R)
        → Mem p
            (generate_following_candidates fuel start s v a time_gap min_gap cruise gap_gain cfg)
        → HasLongitudinal p
    unfolding generate_following_candidates
    following-HasLongitudinal s v a time_gap min_gap cruise gap_gain m =
        let approach = approach_speed start s v time_gap min_gap cruise gap_gain in
        let target : R → R × R × R = λ T. follow_target start s v a time_gap min_gap approach T in
        over_grid-All HasLongitudinal fuel cfg.time_horizon cfg.dt (sample_range fuel cfg.delta_s)
          (λ T ts delta. to_target start (target T).0 (target T).1 (target T).2 T ts delta)
          (λ T ts delta.
            to_target-HasLongitudinal start (target T).0 (target T).1 (target T).2 T ts delta)
          p m

    stopping-HasLongitudinal :
        (stop_s : R)
        → Mem p (generate_stopping_candidates fuel start stop_s cfg)
        → HasLongitudinal p
    unfolding generate_stopping_candidates
    stopping-HasLongitudinal stop_s m =
        over_grid-All HasLongitudinal fuel cfg.time_horizon cfg.dt (sample_range fuel cfg.delta_s)
          (λ T ts delta. to_target start stop_s (num 0) (num 0) T ts delta)
          (λ T ts delta. to_target-HasLongitudinal start stop_s (num 0) (num 0) T ts delta) p m

    arrival-HasLongitudinal :
        (conflict_s entry_time entry_speed : R)
        → Mem p (generate_merge_arrival_candidates fuel start conflict_s entry_time entry_speed cfg)
        → HasLongitudinal p
    unfolding generate_merge_arrival_candidates
    arrival-HasLongitudinal conflict_s entry_time entry_speed m =
        let Ts = arrival_times fuel entry_time cfg in
        let poly : R → QuinticPolynomial R =
          λ T. make_quintic start.s start.s_d start.s_dd conflict_s entry_speed (num 0) T in
        let (T, _, e) =
          Mem-map (arrival_candidate fuel start conflict_s entry_speed cfg)
            (if is_empty Ts then nearest_horizon entry_time cfg ∷ [] else Ts) p m in
        subst HasLongitudinal e
          (longitudinal_quintic-HasLongitudinal (poly T) (sample_times fuel T cfg.dt))

    keeping-HasLongitudinal :
        (speed : R)
        → Mem p (generate_velocity_keeping_candidates fuel start speed cfg)
        → HasLongitudinal p
    unfolding generate_velocity_keeping_candidates
    keeping-HasLongitudinal speed m =
        let poly : R → R → QuarticPolynomial R =
          λ T v. make_quartic start.s start.s_d start.s_dd (speed + v) (num 0) T in
        over_grid-All HasLongitudinal fuel cfg.time_horizon cfg.dt
          (sample_range fuel cfg.delta_s_dot)
          (λ T ts v. record (sample_longitudinal_quartic (poly T v) ts) { delta_s_dot = v })
          (λ T ts v. longitudinal_quartic-HasLongitudinal (poly T v) ts) p m

    -- A property of both branches of a test.
    Mem-if :
        (b : Bool) (xs ys : List (FrenetPath R))
        → (Mem p xs → HasLongitudinal p)
        → (Mem p ys → HasLongitudinal p)
        → Mem p (if b then xs else ys)
        → HasLongitudinal p
    Mem-if true xs ys f g m = f m
    Mem-if false xs ys f g m = g m

    following_cmd-HasLongitudinal :
        (cmd : PlannerCommand R) (speed : R)
        → Mem p (follow_leader fuel start cmd speed cfg)
        → HasLongitudinal p
    following_cmd-HasLongitudinal cmd speed m =
        following-HasLongitudinal cmd.leader_s cmd.leader_speed cmd.leader_accel cmd.time_gap
          cmd.min_gap speed cmd.gap_gain m

    follow_or_keep-HasLongitudinal :
        (cmd : PlannerCommand R) (speed : R)
        → Mem p (follow_or_keep fuel start cmd speed cfg)
        → HasLongitudinal p
    follow_or_keep-HasLongitudinal cmd speed =
        Mem-if (is_negative cmd.leader_id) _ _ (keeping-HasLongitudinal speed)
          (following_cmd-HasLongitudinal cmd speed)

    merge-HasLongitudinal :
        (cmd : PlannerCommand R) (limits : KinematicLimits R)
        → Mem p (merge_candidates fuel start cmd cfg limits)
        → HasLongitudinal p
    unfolding merge_candidates
    merge-HasLongitudinal cmd limits =
        let speed = cmd.target_speed in
        Mem-if cmd.merge_crossing _ _ (follow_or_keep-HasLongitudinal cmd speed) (
          Mem-if (not cmd.merge_gap_safe) _ _
            (Mem-if _ _ _ (keeping-HasLongitudinal speed)
              (stopping-HasLongitudinal cmd.merge_stop_s))
            (Mem-if _ _ _ (arrival-HasLongitudinal cmd.merge_conflict_s cmd.merge_entry_time _) (
              Mem-if cmd.merge_committed _ _ (keeping-HasLongitudinal speed)
                (follow_or_keep-HasLongitudinal cmd _))))

    pub for_mode-HasLongitudinal :
        (mode : BehaviorState) (cmd : PlannerCommand R) (limits : KinematicLimits R)
        → Mem p (longitudinal_candidates fuel start (record cmd { mode = mode }) cfg limits)
        → HasLongitudinal p
    unfolding longitudinal_candidates
    for_mode-HasLongitudinal BehaviorState.following cmd limits m =
        following_cmd-HasLongitudinal cmd cmd.target_speed m
    for_mode-HasLongitudinal BehaviorState.stop cmd limits m =
        stopping-HasLongitudinal cmd.stop_position m
    for_mode-HasLongitudinal BehaviorState.intersection_wait cmd limits m =
        stopping-HasLongitudinal cmd.stop_position m
    for_mode-HasLongitudinal BehaviorState.emergency cmd limits m =
        stopping-HasLongitudinal cmd.stop_position m
    for_mode-HasLongitudinal BehaviorState.merge cmd limits m = merge-HasLongitudinal cmd limits m
    for_mode-HasLongitudinal _ cmd limits m = keeping-HasLongitudinal cmd.target_speed m
