-- ===== src/Controller/Cost.antt =====
-- mpc_controller/src/cost/cost_function.cpp: the cost of a trajectory, item by item.
use mpc_ws.Prelude.{
  ℕ, ◌||◌, List, [], ◌∷◌, ltb, leb, ◌==◌, if◌then◌else◌, length, get_or, last_or, iota, is_empty,
}
use mpc_ws.Double.{Double, ◌+◌, ◌-◌, ◌*◌, ◌/◌, decimal, num}
use mpc_ws.Controller.Types.{
  MpcControl, MpcParams, MpcState, ReferencePath, at, no_control, no_state,
}
use mpc_ws.Planner.RefLine.{normalize_angle}
use Prim.Native.Nat

pub record CostBreakdown (R : Type 0) : Type 0 where
  pub path : R
  pub heading : R
  pub speed : R
  pub control : R
  pub control_rate : R
  pub terminal : R

module _ {R : Type 0} ⦃d : Double R⦄ where
  -- `if (ref_idx >= ref.size()) ref_idx = ref.size() - 1`
  abbrev pub last_index : ReferencePath R → ℕ → ℕ
  last_index ref i = if leb (length ref.x_ref) i then Nat.◌-◌ (length ref.x_ref) 1 else i

  unfoldable pub compute_path_error_cost : MpcState R → ReferencePath R → ℕ → R → R
  compute_path_error_cost state ref ref_idx weight =
      let i = last_index ref ref_idx in
      let dx = state.x - at ref.x_ref i in
      let dy = state.y - at ref.y_ref i in
      if is_empty ref.x_ref then num 0 else weight * (dx * dx + dy * dy)

  unfoldable pub compute_heading_error_cost : ℕ → MpcState R → ReferencePath R → ℕ → R → R
  compute_heading_error_cost fuel state ref ref_idx weight =
      let e = normalize_angle fuel (state.yaw - at ref.yaw_ref (last_index ref ref_idx)) in
      if is_empty ref.x_ref then num 0 else weight * e * e

  unfoldable pub compute_speed_error_cost : MpcState R → R → R → R
  compute_speed_error_cost state v_ref weight = let e = state.vx - v_ref in weight * e * e

  unfoldable pub compute_control_effort_cost : MpcControl R → R → R → R
  compute_control_effort_cost u w_steer w_accel =
      w_steer * u.delta * u.delta + w_accel * u.accel * u.accel

  unfoldable pub compute_control_rate_cost : MpcControl R → MpcControl R → R → R → R
  compute_control_rate_cost u_prev u_cur weight_steer weight_accel =
      let dd = u_cur.delta - u_prev.delta in
      let da = u_cur.accel - u_prev.accel in weight_steer * dd * dd + weight_accel * da * da

  abbrev pub tuned_dt : R
  tuned_dt = decimal 1 1

  abbrev pub no_cost : CostBreakdown R
  no_cost = record {
    path = num 0;
    heading = num 0;
    speed = num 0;
    control = num 0;
    control_rate = num 0;
    terminal = num 0;
  }

  -- One round of the loop over the stages.
  unfoldable pub add_stage :
      ℕ
      → List (MpcState R)
      → List (MpcControl R)
      → ReferencePath R
      → MpcControl R
      → MpcParams R
      → ℕ
      → CostBreakdown R
      → CostBreakdown R
  unfolding compute_path_error_cost compute_heading_error_cost compute_speed_error_cost
      compute_control_effort_cost compute_control_rate_cost
  add_stage fuel states controls ref prev_control params i bd =
      let dt_scale = params.dt / tuned_dt in
      let rate_scale = tuned_dt / params.dt in
      let st = get_or no_state states i in
      let n = length ref.x_ref in
      let ref_idx = if ltb 0 n then (if leb n i then Nat.◌-◌ n 1 else i) else 0 in
      let v_target = if ltb 0 n then at ref.v_ref ref_idx else num 0 in
      let u_cur = get_or no_control controls i in
      let u_prev = if i == 0 then prev_control else get_or no_control controls (Nat.◌-◌ i 1) in
      record bd {
        path = bd.path + dt_scale * compute_path_error_cost st ref ref_idx params.weight_path_error;
        heading =
            bd.heading
            + dt_scale * compute_heading_error_cost fuel st ref ref_idx params.weight_heading_error;
        speed =
            bd.speed + dt_scale * compute_speed_error_cost st v_target params.weight_speed_error;
        control =
            bd.control
            + dt_scale
              * compute_control_effort_cost u_cur params.weight_control
                  (params.weight_control * decimal 5 1);
        control_rate =
            bd.control_rate
            + rate_scale
              * compute_control_rate_cost u_prev u_cur params.weight_control_rate
                  params.weight_control_rate_accel;
      }

  unfoldable pub add_stages :
      ℕ
      → List (MpcState R)
      → List (MpcControl R)
      → ReferencePath R
      → MpcControl R
      → MpcParams R
      → List ℕ
      → CostBreakdown R
      → CostBreakdown R
  unfolding add_stage
  add_stages fuel states controls ref prev_control params [] bd = bd
  add_stages fuel states controls ref prev_control params (i ∷ is) bd =
      add_stages fuel states controls ref prev_control params is
        (add_stage fuel states controls ref prev_control params i bd)

  -- The cost of the last state.
  unfoldable pub terminal_cost : ℕ → List (MpcState R) → ℕ → ReferencePath R → MpcParams R → R
  unfolding compute_path_error_cost compute_heading_error_cost compute_speed_error_cost
  terminal_cost fuel states n ref params =
      let st = last_or no_state states in
      let r = Nat.◌-◌ (length ref.x_ref) 1 in
      let last = Nat.◌-◌ n 1 in
      let ref_idx = if ltb r last then r else last in
      if is_empty states || is_empty ref.x_ref
      then num 0
      else num 0
        + compute_path_error_cost st ref ref_idx params.weight_terminal
        + compute_heading_error_cost fuel st ref ref_idx (params.weight_terminal * decimal 5 1)
        + compute_speed_error_cost st (at ref.v_ref ref_idx) (params.weight_terminal * decimal 2 1)

  unfoldable pub compute_cost_breakdown :
      ℕ
      → List (MpcState R)
      → List (MpcControl R)
      → ReferencePath R
      → MpcControl R
      → MpcParams R
      → CostBreakdown R
  unfolding add_stages terminal_cost
  compute_cost_breakdown fuel states controls ref prev_control params =
      if is_empty states
      then no_cost
      else record (add_stages fuel states controls ref prev_control params (iota (length controls))
          no_cost) { terminal = terminal_cost fuel states (length controls) ref params }

  abbrev pub total : CostBreakdown R → R
  total bd = bd.path + bd.heading + bd.speed + bd.control + bd.control_rate + bd.terminal

  unfoldable pub compute_total_cost :
      ℕ → List (MpcState R) → List (MpcControl R) → ReferencePath R → MpcControl R → MpcParams R → R
  unfolding compute_cost_breakdown
  compute_total_cost fuel states controls ref prev_control params =
      total (compute_cost_breakdown fuel states controls ref prev_control params)
