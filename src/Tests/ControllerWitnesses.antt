-- ===== src/Tests/ControllerWitnesses.antt =====
-- The controller's theorems on a short path.
use mpc_ws.Prelude.{◌≡◌, refl, true, false, none, some, [], ◌∷◌, arith, length, get_or, All}
use mpc_ws.Double.{◌<◌}
use mpc_ws.Prelude.Int.{pos, negsuc, sub_ℕ, pos_part, neg_part}
use Prim.Native.Nat
use mpc_ws.Controller.Loop.{
  LoopState, control_cycle, cycles_of, ego_stopped, forward_intent, initial_loop, loop_run,
  make_stop_command, to_reference_path,
}
use mpc_ws.Controller.Loop.Command.{IsCommand, loop_run-IsCommand}
use mpc_ws.Controller.Loop.Recovery.{
  IsLaunched, IsSolved, end_of, loop_run-launches, loop_run-quiet, stuck_on,
}
use mpc_ws.Controller.Loop.Stuck.{IsValidLoop, loop_run-IsValidLoop}
use mpc_ws.Controller.Packet.{Memory, parse_data, send}
use mpc_ws.Controller.Packet.RoundTrip.{IsMemory, parse_data-send, received}
use mpc_ws.Controller.Solver.{project_controls, solve_mpc, warm_controls}
use mpc_ws.Controller.Solver.Admissible.{IsAdmissible, solve_mpc-IsAdmissible}
use mpc_ws.Controller.Solver.Improving.{cost_of, solve_mpc-cost}
use mpc_ws.Controller.Types.{MpcParams, MpcState, PlannedPath, ReferencePath, no_control}
use mpc_ws.Double.Micro.{Micro, Micro-IsExact, Micro-IsOrdered, micro, root}
use mpc_ws.Tests.MicroLaws.{Micro-IsFloat, Micro-IsSearch}
use mpc_ws.Tests.PlanScene.{driving_path, vehicle}
use mpc_ws.Tests.Scene.{m}

abbrev params : MpcParams Micro
params = record {
  horizon = 2;
  dt = m 1;
  max_iterations = 1;
  wheelbase = m 3;
  control_frequency = m 1;
  steering_max = m 1;
  steering_rate_max = m 1;
  accel_min = negsuc 4999999;
  accel_max = m 3;
  vel_min = m 0;
  vel_max = m 30;
  stuck_ego_speed = pos 100000;
  stuck_target_speed = pos 300000;
  stuck_min_path_progress = pos 500000;
  stuck_timeout = m 2;
  stuck_recovery_duration = m 2;
  stuck_launch_accel = pos 500000;
  weight_path_error = m 5;
  weight_heading_error = m 2;
  weight_speed_error = m 1;
  weight_control = m 0;
  weight_control_rate = m 0;
  weight_control_rate_accel = m 0;
  weight_terminal = m 0;
  lr_init = pos 50000;
  lr_min = pos 100;
  convergence_eps = pos 1000;
  line_search_steps = 1;
}

-- A path that goes on for five metres, with a vehicle at rest at its start.
abbrev waiting_path : PlannedPath Micro
waiting_path = record {
  x = m 0 ∷ m 5 ∷ [];
  y = m 0 ∷ m 0 ∷ [];
  yaw = m 0 ∷ m 0 ∷ [];
  kappa = m 0 ∷ m 0 ∷ [];
  v = m 5 ∷ m 5 ∷ [];
  a = m 0 ∷ m 0 ∷ [];
  dt = m 1;
  d = m 0;
  d_dot = m 0;
  ego_x = m 0;
  ego_y = m 0;
  ego_yaw = m 0;
  ego_v = m 0;
  ego_steer = m 0;
  ego_accel = m 0;
}

abbrev moving_path : PlannedPath Micro
moving_path = record waiting_path { ego_v = m 5 }

abbrev reference : ReferencePath Micro
reference = record {
  x_ref = m 0 ∷ m 5 ∷ [];
  y_ref = m 0 ∷ m 0 ∷ [];
  yaw_ref = m 0 ∷ m 0 ∷ [];
  v_ref = m 5 ∷ m 5 ∷ [];
  k_ref = m 0 ∷ m 0 ∷ [];
}

abbrev standing : MpcState Micro
standing = record { x = m 0; y = m 0; yaw = m 0; vx = m 0 }

solve_mpc-IsAdmissible_example :
    let res = solve_mpc 5 standing reference no_control params [] in
    (res.success ≡ true)
    × IsAdmissible Micro-IsOrdered params no_control res.controls
    × (length res.controls ≡ 2)
    × (res.control ≡ get_or no_control res.controls 0)
solve_mpc-IsAdmissible_example =
    solve_mpc-IsAdmissible Micro-IsOrdered params refl refl 5 standing reference no_control [] refl
      refl

solve_mpc-cost_example :
    let res = solve_mpc 5 standing reference no_control params [] in
    let start =
      project_controls
        (warm_controls 5 standing reference no_control params [])
        no_control
        params in
    (res.cost
      ≡ cost_of 5 standing reference no_control params Micro-IsOrdered Micro-IsSearch res.controls)
    × (cost_of 5 standing reference no_control params Micro-IsOrdered Micro-IsSearch start
          < res.cost
        ≡ false)
solve_mpc-cost_example =
    solve_mpc-cost 5 standing reference no_control params Micro-IsOrdered Micro-IsSearch [] refl
      refl refl

loop_run-IsCommand_example :
    All
      (IsCommand Micro-IsOrdered Micro-IsExact Micro-IsFloat)
      (loop_run params 5 (none ∷ some waiting_path ∷ some moving_path ∷ []) initial_loop).0
loop_run-IsCommand_example =
    loop_run-IsCommand Micro-IsOrdered Micro-IsExact Micro-IsFloat params 5
      (none ∷ some waiting_path ∷ some moving_path ∷ []) initial_loop refl refl

loop_run-IsValidLoop_example :
    IsValidLoop params
      (loop_run params 5 (some waiting_path ∷ some waiting_path ∷ []) initial_loop).1
loop_run-IsValidLoop_example =
    loop_run-IsValidLoop params 5 (some waiting_path ∷ some waiting_path ∷ [])

waiting-stuck : stuck_on params 5 waiting_path ≡ true
unfolding forward_intent ego_stopped to_reference_path root
waiting-stuck = refl

moving-free : stuck_on params 5 moving_path ≡ false
unfolding forward_intent ego_stopped to_reference_path root
moving-free = refl

loop_run-launches_example :
    IsLaunched params 5 waiting_path
      (end_of params 5 make_stop_command (some waiting_path ∷ some waiting_path ∷ []) initial_loop)
unfolding cycles_of
loop_run-launches_example =
    loop_run-launches params 5 make_stop_command (waiting_path ∷ []) waiting_path initial_loop refl
      (waiting-stuck, tt) waiting-stuck refl

-- The vehicle moves, and a cycle without a path follows, with a timeout of four cycles.
abbrev patient : MpcParams Micro
patient = record params { stuck_timeout = m 4 }

patient-free : stuck_on patient 5 moving_path ≡ false
unfolding forward_intent ego_stopped to_reference_path root
patient-free = refl

-- A recovery that has two pulses left.
abbrev recovering : LoopState Micro
recovering = record initial_loop { recovery_cycles_left = 2 }

loop_run-quiet_example :
    let next =
      (loop_run patient 5 (some moving_path ∷ none ∷ some waiting_path ∷ []) recovering).1 in
    IsSolved patient 5 moving_path recovering (control_cycle patient 5 moving_path recovering).0
    × Nat.◌≤◌ next.stuck_cycles 2
    × (next.recovery_cycles_left ≡ 0)
    × IsSolved patient 5 waiting_path next (control_cycle patient 5 waiting_path next).0
unfolding cycles_of
loop_run-quiet_example =
    loop_run-quiet patient 5 moving_path (none ∷ some waiting_path ∷ []) waiting_path recovering
      patient-free (omega arith)

-- A memory that keeps a number in the first two places of four.
abbrev micro_memory : Memory Micro
micro_memory = record {
  float_bytes = λ x. pos_part x ∷ neg_part x ∷ 0 ∷ 0 ∷ [];
  read_float = λ w. sub_ℕ (get_or 0 w 0) (get_or 0 w 1);
  int_bytes = λ n. n ∷ 0 ∷ 0 ∷ 0 ∷ [];
  read_int = λ w. pos (get_or 0 w 0);
}

Micro-IsMemory : IsMemory micro_memory
Micro-IsMemory = record {
  float_size = λ x. refl;
  int_size = λ n. refl;
  read_float_bytes = λ x. ground arith;
  read_int_bytes = λ n h. refl;
}

parse_data-send_example :
    parse_data micro_memory (send micro_memory driving_path (m 1) (m 0) (m 0) (vehicle 5))
    ≡ some (received micro_memory Micro-IsMemory driving_path (m 1) (m 0) (m 0) (vehicle 5))
parse_data-send_example =
    parse_data-send micro_memory Micro-IsMemory driving_path (m 1) (m 0) (m 0) (vehicle 5)
      (record { y = refl; yaw = refl; kappa = refl; v = refl; a = refl })
