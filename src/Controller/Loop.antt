-- ===== src/Controller/Loop.antt =====
-- mpc_controller/src/main.cpp: the control loop, one cycle at a time. A cycle takes the planned path
-- that the network holds, if any came yet, and gives the command that is sent. The printed lines are
-- left out, and with them the cost breakdown of a strong acceleration, which is only printed.
pub mod Command
pub mod Stuck
pub mod Recovery
use mpc_ws.Prelude.{
  ℕ, suc, Bool, not, ◌&&◌, ◌||◌, Option, none, some, List, [], ◌∷◌, map, ltb, leb, ◌==◌,
  if◌then◌else◌, length, last_or, iota, is_empty,
}
use mpc_ws.Double.{Double, ◌+◌, ◌-◌, ◌*◌, ◌/◌, ◌<◌, ◌≤◌, ◌>◌, ◌≥◌, neg, abs, decimal, num, max}
use mpc_ws.Controller.Solver.{solve_mpc}
use mpc_ws.Controller.Types.{
  CtrlCmd, MpcControl, MpcParams, MpcResult, MpcState, PlannedPath, ReferencePath, at, no_control,
}
use mpc_ws.Double.Steps.{steps}
use mpc_ws.Planner.RefLine.{normalize_angle}
use mpc_ws.Planner.Tracks.{clip}
use Prim.Native.Nat

pub record LoopState (R : Type 0) : Type 0 where
  pub warm_start : List (MpcControl R)
  pub last_control : MpcControl R
  pub stuck_cycles : ℕ
  pub recovery_cycles_left : ℕ

module _ {R : Type 0} ⦃d : Double R⦄ where
  unfoldable pub make_stop_command : CtrlCmd R
  make_stop_command = record {
    ctrl_mode = 2;
    gear = 4;
    cmd_type = 1;
    accel = num 0;
    brake = d.to_float (decimal 3 1);
    steer = num 0;
  }

  abbrev pub no_reference : ReferencePath R
  no_reference = record { x_ref = []; y_ref = []; yaw_ref = []; v_ref = []; k_ref = [] }

  -- Between the samples i0 and i1.
  abbrev pub lerp : List R → ℕ → ℕ → R → R
  lerp xs i0 i1 frac = at xs i0 + frac * (at xs i1 - at xs i0)

  -- The place of a time on the planned path, in samples.
  unfoldable pub sample_index : PlannedPath R → R → R
  sample_index pp t = clip (t / pp.dt) (num 0) (d.of_ℕ (Nat.◌-◌ (length pp.x) 1))

  -- The samples that a place lies between, and the share of the second one.
  unfoldable pub sample_between : PlannedPath R → R → ℕ × ℕ × R
  unfolding sample_index
  sample_between pp t =
      let idx_f = sample_index pp t in
      let i0 = d.to_ℕ idx_f in
      let last = Nat.◌-◌ (length pp.x) 1 in
      (i0, (if ltb last (suc i0) then last else suc i0), idx_f - d.of_ℕ i0)

  unfoldable pub to_reference_path : ℕ → PlannedPath R → R → ℕ → ReferencePath R
  unfolding sample_between
  to_reference_path fuel pp dst_dt steps =
      let along = λ (f : ℕ → ℕ → R → R).
        map (λ i. let (i0, i1, frac) = sample_between pp (d.of_ℕ i * dst_dt) in f i0 i1 frac)
          (iota steps) in
      if is_empty pp.x || (pp.dt ≤ num 0) then no_reference else record {
        x_ref = along (lerp pp.x);
        y_ref = along (lerp pp.y);
        yaw_ref = along (λ i0 i1 frac.
            at pp.yaw i0 + frac * normalize_angle fuel (at pp.yaw i1 - at pp.yaw i0));
        v_ref = along (lerp pp.v);
        k_ref = along (lerp pp.kappa);
      }

  abbrev pub control_rate_of : MpcParams R → R
  control_rate_of params =
      if params.control_frequency > num 0 then params.control_frequency else num 10

  -- `std::max(1, static_cast<int>(std::ceil(t * freq)))`
  unfoldable pub cycles_of : MpcParams R → R → ℕ
  cycles_of params t =
      let n = d.to_ℕ (d.ceil (t * control_rate_of params)) in if ltb 1 n then n else 1

  unfoldable pub max_speed : R → List R → R
  max_speed acc [] = acc
  max_speed acc (v ∷ vs) = max_speed (max acc v) vs

  unfoldable pub path_progress : ReferencePath R → R
  path_progress ref =
      if leb 2 (length ref.x_ref)
      then d.hypot (last_or (num 0) ref.x_ref - at ref.x_ref 0)
          (last_or (num 0) ref.y_ref - at ref.y_ref 0)
      else num 0

  abbrev pub initial_loop : LoopState R
  initial_loop = record {
    warm_start = [];
    last_control = no_control;
    stuck_cycles = 0;
    recovery_cycles_left = 0;
  }

  module _ (params : MpcParams R) where
    unfoldable pub forward_intent : ReferencePath R → Bool
    unfolding max_speed path_progress
    forward_intent ref =
        (max_speed (num 0) ref.v_ref > params.stuck_target_speed)
        && (path_progress ref > params.stuck_min_path_progress)

    unfoldable pub ego_stopped : PlannedPath R → Bool
    ego_stopped pp = abs pp.ego_v < params.stuck_ego_speed

    -- The state of a cycle that moves, or does not want to: no deadlock.
    abbrev pub not_stuck : LoopState R → LoopState R
    not_stuck st = record st { stuck_cycles = 0; recovery_cycles_left = 0 }

    -- The state of a new recovery.
    abbrev pub start_recovery : LoopState R → LoopState R
    start_recovery st = record {
      warm_start = [];
      last_control = no_control;
      stuck_cycles = 0;
      recovery_cycles_left = cycles_of params params.stuck_recovery_duration;
    }

    -- The test for a deadlock, whatever the mode of the behavior. `stuck` is that the path goes on and
    -- the vehicle stands.
    unfoldable pub detect_stuck : Bool → LoopState R → LoopState R
    unfolding cycles_of
    detect_stuck stuck st =
        let counted = suc st.stuck_cycles in
        if not stuck
        then not_stuck st
        else if st.recovery_cycles_left == 0
        then if leb (cycles_of params params.stuck_timeout) counted
          then start_recovery st
          else record st { stuck_cycles = counted }
        else st

    -- The warm start and the last control after the solver's result.
    unfoldable pub keep_solution : MpcResult R → LoopState R → LoopState R
    keep_solution res st =
        if res.success && length res.controls == params.horizon
        then record st { warm_start = res.controls; last_control = res.control }
        else st

    -- The acceleration that is sent, and the state after it.
    unfoldable pub launch : Bool → R → LoopState R → R × LoopState R
    launch stuck accel st =
        let raised = max accel params.stuck_launch_accel in
        if ltb 0 st.recovery_cycles_left && stuck
        then (
          raised,
          record st {
            last_control = record (st.last_control) { accel = raised };
            recovery_cycles_left = Nat.◌-◌ st.recovery_cycles_left 1;
          },
        )
        else (accel, st)

    unfoldable pub ctrl_cmd_of : R → R → CtrlCmd R
    ctrl_cmd_of delta accel_raw =
        let steer_rad = clip delta (neg params.steering_max) params.steering_max in
        let steer_norm = clip (steer_rad / params.steering_max) (neg (num 1)) (num 1) in
        let accel_norm =
          if accel_raw ≥ num 0
          then clip (accel_raw / params.accel_max) (num 0) (num 1)
          else num 0 in
        let brake_norm =
          if accel_raw ≥ num 0
          then num 0
          else clip (neg accel_raw / abs params.accel_min) (num 0) (num 1) in
        record {
          ctrl_mode = 2;
          gear = 4;
          cmd_type = 1;
          accel = d.to_float accel_norm;
          brake = d.to_float brake_norm;
          steer = d.to_float steer_norm;
        }

    abbrev pub ego_state : PlannedPath R → MpcState R
    ego_state pp = record { x = pp.ego_x; y = pp.ego_y; yaw = pp.ego_yaw; vx = pp.ego_v }

    -- A cycle with a planned path: the command, and the state after it.
    unfoldable pub control_cycle : ℕ → PlannedPath R → LoopState R → CtrlCmd R × LoopState R
    unfolding forward_intent ego_stopped detect_stuck keep_solution launch ctrl_cmd_of
    control_cycle fuel pp st =
        let ref = to_reference_path fuel pp params.dt params.horizon in
        let stuck = forward_intent ref && ego_stopped pp in
        let checked = detect_stuck stuck st in
        let res =
          solve_mpc fuel (ego_state pp) ref checked.last_control params checked.warm_start in
        let (accel_raw, next) = launch stuck res.control.accel (keep_solution res checked) in
        (ctrl_cmd_of res.control.delta accel_raw, next)

    -- A cycle of the loop.
    unfoldable pub loop_step : ℕ → Option (PlannedPath R) → LoopState R → CtrlCmd R × LoopState R
    unfolding control_cycle
    loop_step fuel none st = (make_stop_command, st)
    loop_step fuel (some pp) st = control_cycle fuel pp st

    -- The loop over the paths of the cycles: the commands, and the state at the end.
    unfoldable pub loop_run :
        ℕ → List (Option (PlannedPath R)) → LoopState R → List (CtrlCmd R) × LoopState R
    unfolding loop_step
    loop_run fuel [] st = ([], st)
    loop_run fuel (p ∷ ps) st =
        let (cmd, next) = loop_step fuel p st in
        let (cmds, last) = loop_run fuel ps next in (cmd ∷ cmds, last)
