-- ===== src/Controller/Types.antt =====
-- The controller's data: mpc_controller/src/global/global.hpp and udp_network/datatypes.hpp. `clip` and
-- `normalizeAngle` of global/utils.hpp are those of frenet_planner. A count that is negative runs no
-- round of its loop, as 0 does, so that counts are natural numbers.
use mpc_ws.Prelude.{ℕ, Bool, List, get_or}
use mpc_ws.Double.{Double, num}

pub record MpcState (R : Type 0) : Type 0 where
  pub x : R
  pub y : R
  pub yaw : R
  pub vx : R

pub record MpcControl (R : Type 0) : Type 0 where
  pub delta : R
  pub accel : R

-- The messages of the solver, `no_message` the empty one.
pub data SolverMessage : Type 0 where
  no_message empty_reference_path invalid_horizon ok : SolverMessage

pub record MpcResult (R : Type 0) : Type 0 where
  pub control : MpcControl R
  pub predicted_states : List (MpcState R)
  pub controls : List (MpcControl R)
  pub cost : R
  pub success : Bool
  pub solver_msg : SolverMessage

pub record PlannedPath (R : Type 0) : Type 0 where
  pub x : List R
  pub y : List R
  pub yaw : List R
  pub kappa : List R
  pub v : List R
  pub a : List R
  pub dt : R
  pub d : R
  pub d_dot : R
  pub ego_x : R
  pub ego_y : R
  pub ego_yaw : R
  pub ego_v : R
  pub ego_steer : R
  pub ego_accel : R

pub record ReferencePath (R : Type 0) : Type 0 where
  pub x_ref : List R
  pub y_ref : List R
  pub yaw_ref : List R
  pub v_ref : List R
  pub k_ref : List R

pub record MpcParams (R : Type 0) : Type 0 where
  pub horizon : ℕ
  pub dt : R
  pub max_iterations : ℕ
  pub wheelbase : R
  pub control_frequency : R
  pub steering_max : R
  pub steering_rate_max : R
  pub accel_min : R
  pub accel_max : R
  pub vel_min : R
  pub vel_max : R
  pub stuck_ego_speed : R
  pub stuck_target_speed : R
  pub stuck_min_path_progress : R
  pub stuck_timeout : R
  pub stuck_recovery_duration : R
  pub stuck_launch_accel : R
  pub weight_path_error : R
  pub weight_heading_error : R
  pub weight_speed_error : R
  pub weight_control : R
  pub weight_control_rate : R
  pub weight_control_rate_accel : R
  pub weight_terminal : R
  pub lr_init : R
  pub lr_min : R
  pub convergence_eps : R
  pub line_search_steps : ℕ

-- The fields of CtrlCmd that the loop sets; `velocity` and `acceleration` keep 0.
pub record CtrlCmd (R : Type 0) : Type 0 where
  pub ctrl_mode : ℕ
  pub gear : ℕ
  pub cmd_type : ℕ
  pub accel : R
  pub brake : R
  pub steer : R

module _ {R : Type 0} ⦃d : Double R⦄ where
  -- MPCState{}, MPCControl{}
  abbrev pub no_state : MpcState R
  no_state = record { x = num 0; y = num 0; yaw = num 0; vx = num 0 }

  abbrev pub no_control : MpcControl R
  no_control = record { delta = num 0; accel = num 0 }

  -- A read of an array; out of range, where the source has no value, it is 0.
  abbrev pub at : List R → ℕ → R
  at xs i = get_or (num 0) xs i
