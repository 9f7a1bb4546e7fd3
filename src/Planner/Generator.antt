-- ===== src/Planner/Generator.antt =====
-- frenet_planner/src/frenet_planner/frenet/path_generator.cpp: the grids of end conditions and the
-- sampled candidates of a manoeuvre. `fuel` bounds the rounds of the loops over a `double`.
use mpc_ws.Prelude.{
  ℕ, zero, suc, true, not, ◌&&◌, List, [], ◌∷◌, map, if◌then◌else◌, last_or, filter, is_empty,
  concat_map,
}
use mpc_ws.Double.{Double, ◌+◌, ◌-◌, ◌*◌, ◌/◌, ◌<◌, ◌≤◌, ◌>◌, abs, decimal, num, max, min}
use mpc_ws.Prelude.Int.{minus_one}
use mpc_ws.Double.Steps.{steps}
use mpc_ws.Planner.Gap.{entry_speed}
use mpc_ws.Planner.Polynomial.Quartic.{
  QuarticPolynomial, eval_acc, eval_pos, eval_vel, jerk_cost, make_quartic,
}
use mpc_ws.Planner.Polynomial.Quintic.{QuinticPolynomial, make_quintic}
use mpc_ws.Planner.Types.{FrenetPath, FrenetState, RejectionReason}
use mpc_ws.Planner.Polynomial.Quintic
use mpc_ws.Planner.Polynomial.Quartic

pub record SamplingRange (R : Type 0) : Type 0 where
  pub min : R
  pub max : R
  pub step : R

pub record PathGeneratorConfig (R : Type 0) : Type 0 where
  pub lateral_d1 : SamplingRange R
  pub lateral_target_tolerance : R
  pub time_horizon : SamplingRange R
  pub delta_s : SamplingRange R
  pub delta_s_dot : SamplingRange R
  pub dt : R

pub record KinematicLimits (R : Type 0) : Type 0 where
  pub max_lateral_accel : R
  pub max_longitudinal_accel : R
  pub max_curvature : R

module _ {R : Type 0} ⦃d : Double R⦄ where
  -- The values of the loop of SampleRange.
  abbrev pub range_steps : ℕ → SamplingRange R → List R
  range_steps fuel r = steps fuel r.min r.step (r.max + decimal 1 9)

  unfoldable pub sample_range : ℕ → SamplingRange R → List R
  sample_range fuel r = if r.step ≤ decimal 1 9 then r.min ∷ [] else range_steps fuel r

  -- `for (t = 0; t < T - 1e-9; t += dt)`, and the end itself.
  unfoldable pub times_from : ℕ → R → R → R → List R
  times_from zero t T dt = T ∷ []
  times_from (suc fuel) t T dt =
      let rest = times_from fuel (t + dt) T dt in if t < T - decimal 1 9 then t ∷ rest else T ∷ []

  unfoldable pub sample_times : ℕ → R → R → List R
  unfolding times_from
  sample_times fuel T dt = times_from fuel (num 0) T dt

  -- A path of times only.
  abbrev pub blank_path : List R → FrenetPath R
  blank_path ts = record {
    t = ts;
    d = [];
    d_d = [];
    d_dd = [];
    s = [];
    s_d = [];
    s_dd = [];
    cost_lat = num 0;
    cost_lon = num 0;
    cost_total = num 0;
    jerk_cost_lat = num 0;
    jerk_cost_lon = num 0;
    delta_s = num 0;
    delta_s_dot = num 0;
    valid = true;
    rejection_reason = RejectionReason.none;
    collision_object_id = minus_one;
    collision_sample_index = minus_one;
  }

  unfoldable pub sample_lateral_quintic : QuinticPolynomial R → List R → FrenetPath R
  sample_lateral_quintic poly ts = record (blank_path ts) {
    jerk_cost_lat = Quintic.jerk_cost poly (last_or (num 0) ts);
    d = map (Quintic.eval_pos poly) ts;
    d_d = map (Quintic.eval_vel poly) ts;
    d_dd = map (Quintic.eval_acc poly) ts;
  }

  unfoldable pub sample_longitudinal_quintic : QuinticPolynomial R → List R → FrenetPath R
  sample_longitudinal_quintic poly ts = record (blank_path ts) {
    jerk_cost_lon = Quintic.jerk_cost poly (last_or (num 0) ts);
    s = map (Quintic.eval_pos poly) ts;
    s_d = map (Quintic.eval_vel poly) ts;
    s_dd = map (Quintic.eval_acc poly) ts;
  }

  unfoldable pub sample_longitudinal_quartic : QuarticPolynomial R → List R → FrenetPath R
  sample_longitudinal_quartic poly ts = record (blank_path ts) {
    jerk_cost_lon = Quartic.jerk_cost poly (last_or (num 0) ts);
    s = map (Quartic.eval_pos poly) ts;
    s_d = map (Quartic.eval_vel poly) ts;
    s_dd = map (Quartic.eval_acc poly) ts;
  }

  -- The nested loops over the end times, but those next to 0, and over the other end condition.
  unfoldable pub over_grid :
      ℕ → SamplingRange R → R → List R → (R → List R → R → FrenetPath R) → List (FrenetPath R)
  unfolding sample_range sample_times
  over_grid fuel horizon dt ends candidate =
      concat_map
        (λ T. if T ≤ decimal 1 6 then [] else map (candidate T (sample_times fuel T dt)) ends)
        (sample_range fuel horizon)

  -- The lateral end positions: at a low speed the present one, with the centre of the lane.
  unfoldable pub lateral_ends : ℕ → FrenetState R → PathGeneratorConfig R → List R
  unfolding sample_range
  lateral_ends fuel start cfg =
      if abs start.s_d < decimal 5 1
      then (if abs start.d > decimal 1 3 then start.d ∷ num 0 ∷ [] else start.d ∷ [])
      else sample_range fuel cfg.lateral_d1

  unfoldable pub generate_lateral_candidates :
      ℕ → FrenetState R → PathGeneratorConfig R → List (FrenetPath R)
  unfolding over_grid lateral_ends
  generate_lateral_candidates fuel start cfg =
      over_grid fuel cfg.time_horizon cfg.dt (lateral_ends fuel start cfg) λ T ts d1.
        sample_lateral_quintic (make_quintic start.d start.d_d start.d_dd d1 (num 0) (num 0) T) ts

  -- A quintic candidate to a target state of s, moved by delta.
  unfoldable pub to_target : FrenetState R → R → R → R → R → List R → R → FrenetPath R
  unfolding sample_longitudinal_quintic
  to_target start target target_dot target_ddot T ts delta =
      record (sample_longitudinal_quintic
        (make_quintic start.s start.s_d start.s_dd (target + delta) target_dot target_ddot T) ts) {
          delta_s = delta;
        }

  -- The state that FOLLOWING aims at after T: behind the predicted leader, or on the way to it.
  abbrev pub approach_speed : FrenetState R → R → R → R → R → R → R → R
  approach_speed start leader_s leader_speed time_gap min_gap cruise_target_speed gap_gain =
      let gap_error = leader_s - start.s - (min_gap + time_gap * leader_speed) in
      max (num 0) (min cruise_target_speed (leader_speed + gap_gain * gap_error))

  unfoldable pub follow_target : FrenetState R → R → R → R → R → R → R → R → R × R × R
  follow_target start leader_s leader_speed leader_accel time_gap min_gap approach T =
      let s_lv = leader_s + leader_speed * T + decimal 5 1 * leader_accel * T * T in
      let s_lv_dot = leader_speed + leader_accel * T in
      let s_follow = s_lv - (min_gap + time_gap * s_lv_dot) in
      let free_s = start.s + decimal 5 1 * (start.s_d + approach) * T in
      if s_follow ≤ free_s
      then (s_follow, s_lv_dot - time_gap * leader_accel, leader_accel)
      else (free_s, approach, num 0)

  unfoldable pub generate_following_candidates :
      ℕ → FrenetState R → R → R → R → R → R → R → R → PathGeneratorConfig R → List (FrenetPath R)
  unfolding over_grid sample_range follow_target
  generate_following_candidates fuel start leader_s leader_speed leader_accel time_gap min_gap
        cruise_target_speed gap_gain cfg =
      let approach =
        approach_speed start leader_s leader_speed time_gap min_gap cruise_target_speed gap_gain in
      over_grid fuel cfg.time_horizon cfg.dt (sample_range fuel cfg.delta_s) λ T ts delta.
        let (target, target_dot, target_ddot) =
          follow_target start leader_s leader_speed leader_accel time_gap min_gap approach T in
        to_target start target target_dot target_ddot T ts delta

  unfoldable pub generate_stopping_candidates :
      ℕ → FrenetState R → R → PathGeneratorConfig R → List (FrenetPath R)
  unfolding over_grid sample_range
  generate_stopping_candidates fuel start stop_s cfg =
      over_grid fuel cfg.time_horizon cfg.dt (sample_range fuel cfg.delta_s)
        λ T ts delta. to_target start stop_s (num 0) (num 0) T ts delta

  -- Between two vehicles, each predicted with its acceleration. Plan does not call it.
  unfoldable pub generate_merging_candidates :
      ℕ → FrenetState R → R → R → R → R → R → R → PathGeneratorConfig R → List (FrenetPath R)
  unfolding over_grid sample_range
  generate_merging_candidates fuel start sa sa_speed sa_accel sb sb_speed sb_accel cfg =
      over_grid fuel cfg.time_horizon cfg.dt (sample_range fuel cfg.delta_s) λ T ts delta.
        let sa_T = sa + sa_speed * T + decimal 5 1 * sa_accel * T * T in
        let sb_T = sb + sb_speed * T + decimal 5 1 * sb_accel * T * T in
        to_target start (decimal 5 1 * (sa_T + sb_T))
          (decimal 5 1 * (sa_speed + sa_accel * T + (sb_speed + sb_accel * T)))
          (decimal 5 1 * (sa_accel + sb_accel)) T ts delta

  -- The candidate that is at the conflict point at the time T.
  unfoldable pub arrival_candidate :
      ℕ → FrenetState R → R → R → PathGeneratorConfig R → R → FrenetPath R
  unfolding sample_times sample_longitudinal_quintic
  arrival_candidate fuel start conflict_s entry_speed cfg T =
      sample_longitudinal_quintic
        (make_quintic start.s start.s_d start.s_dd conflict_s entry_speed (num 0) T)
        (sample_times fuel T cfg.dt)

  -- The times of the horizon's grid that are near the entry time. The loop of the source has no
  -- guard for a step of 0.
  unfoldable pub arrival_times : ℕ → R → PathGeneratorConfig R → List R
  arrival_times fuel entry_time cfg =
      filter
        (λ T.
          not (T ≤ decimal 1 6)
          && not (abs (T - entry_time) > max (decimal 6 1) cfg.time_horizon.step))
        (range_steps fuel cfg.time_horizon)

  -- The time of the grid nearest to the entry time.
  abbrev pub nearest_horizon : R → PathGeneratorConfig R → R
  nearest_horizon entry_time cfg =
      let h = cfg.time_horizon in
      let grid_index = d.round ((entry_time - h.min) / h.step) in
      max h.min (min (h.min + grid_index * h.step) h.max)

  unfoldable pub generate_merge_arrival_candidates :
      ℕ → FrenetState R → R → R → R → PathGeneratorConfig R → List (FrenetPath R)
  unfolding arrival_times arrival_candidate
  generate_merge_arrival_candidates fuel start conflict_s entry_time entry_speed cfg =
      let Ts = arrival_times fuel entry_time cfg in
      map (arrival_candidate fuel start conflict_s entry_speed cfg)
        (if is_empty Ts then nearest_horizon entry_time cfg ∷ [] else Ts)

  unfoldable pub generate_velocity_keeping_candidates :
      ℕ → FrenetState R → R → PathGeneratorConfig R → List (FrenetPath R)
  unfolding over_grid sample_range sample_longitudinal_quartic
  generate_velocity_keeping_candidates fuel start target_speed cfg =
      over_grid fuel cfg.time_horizon cfg.dt (sample_range fuel cfg.delta_s_dot) λ T ts dsdot.
        record (sample_longitudinal_quartic
          (make_quartic start.s start.s_d start.s_dd (target_speed + dsdot) (num 0) T) ts) {
            delta_s_dot = dsdot;
          }
