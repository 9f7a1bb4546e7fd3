-- ===== src/Controller/Solver.antt =====
-- mpc_controller/src/solver/mpc_solver.cpp and constraints/constraints.cpp: projected gradient descent
-- with a backtracking line search over the linearised model.
pub mod Admissible
pub mod Rounds
pub mod Improving
use mpc_ws.Prelude.{
  ℕ, zero, suc, Bool, true, false, not, Option, none, some, List, [], ◌∷◌, map, ltb, leb, ◌==◌,
  if◌then◌else◌, length, get_or, iota, is_empty,
}
use mpc_ws.Double.{Double, ◌+◌, ◌-◌, ◌*◌, ◌/◌, ◌<◌, neg, decimal, num, max, min}
use mpc_ws.Controller.Cost.{compute_total_cost}
use mpc_ws.Controller.Model.{
  LinearizedModel, build_ltv_models, predict_trajectory, predict_trajectory_ltv,
}
use mpc_ws.Controller.Types.{
  MpcControl, MpcParams, MpcResult, MpcState, ReferencePath, SolverMessage, no_control,
}
use mpc_ws.Double.Steps.{steps}
use mpc_ws.Planner.Tracks.{clip}
use Prim.Native.Nat

-- What a step of the line search accepts.
pub record Accepted (R : Type 0) : Type 0 where
  pub controls : List (MpcControl R)
  pub models : List (LinearizedModel R)
  pub cost : R

-- The variables of the optimisation loop.
pub record Descent (R : Type 0) : Type 0 where
  pub controls : List (MpcControl R)
  pub models : List (LinearizedModel R)
  pub cost_cur : R
  pub lr : R

module _ {R : Type 0} ⦃d : Double R⦄ where
  unfoldable pub clip_steering : MpcControl R → R → MpcControl R
  clip_steering u max_steering = record u { delta = clip u.delta (neg max_steering) max_steering }

  unfoldable pub clip_acceleration : MpcControl R → R → R → MpcControl R
  clip_acceleration u a_min a_max = record u { accel = clip u.accel a_min a_max }

  unfoldable pub clip_control : MpcControl R → MpcParams R → MpcControl R
  unfolding clip_steering clip_acceleration
  clip_control u p = clip_acceleration (clip_steering u p.steering_max) p.accel_min p.accel_max

  unfoldable pub clip_steering_rate : MpcControl R → MpcControl R → R → R → MpcControl R
  clip_steering_rate u_cur u_prev max_rate dt =
      let max_step = max_rate * dt in
      record u_cur {
        delta = u_prev.delta + clip (u_cur.delta - u_prev.delta) (neg max_step) max_step;
      }

  unfoldable pub project_control : MpcParams R → MpcControl R → MpcControl R → MpcControl R
  unfolding clip_control clip_steering_rate
  project_control params u_prev u =
      clip_steering_rate (clip_control u params) u_prev params.steering_rate_max params.dt

  unfoldable pub project_controls :
      List (MpcControl R) → MpcControl R → MpcParams R → List (MpcControl R)
  unfolding project_control
  project_controls [] u_prev params = []
  project_controls (u ∷ us) u_prev params =
      let projected = project_control params u_prev u in
      projected ∷ project_controls us projected params

  module _ (fuel : ℕ) (x0 : MpcState R) (ref : ReferencePath R) (prev_control : MpcControl R)
      (params : MpcParams R) where
    abbrev pub models_of : List (MpcControl R) → List (LinearizedModel R)
    models_of controls =
        build_ltv_models fuel x0 controls params.dt params.wheelbase params.vel_min params.vel_max

    -- The trajectory of the linear models, if there is one for each control, or of the vehicle model.
    unfoldable pub trajectory :
        List (MpcControl R) → Option (List (LinearizedModel R)) → List (MpcState R)
    trajectory controls none =
        predict_trajectory fuel x0 controls params.dt params.wheelbase params.vel_min params.vel_max
    trajectory controls (some models) =
        if length models == length controls
        then predict_trajectory_ltv fuel x0 controls models
        else predict_trajectory fuel x0 controls params.dt params.wheelbase params.vel_min
            params.vel_max

    unfoldable pub eval_cost : List (MpcControl R) → Option (List (LinearizedModel R)) → R
    unfolding trajectory
    eval_cost controls models =
        compute_total_cost fuel (trajectory controls models) controls ref prev_control params

    -- `U[k].delta += e` and `U[k].accel += e`
    unfoldable pub nudge :
        (MpcControl R → MpcControl R) → ℕ → List (MpcControl R) → List (MpcControl R)
    nudge f k [] = []
    nudge f zero (u ∷ us) = f u ∷ us
    nudge f (suc k) (u ∷ us) = u ∷ nudge f k us

    abbrev pub eps : R
    eps = decimal 1 3

    -- The central difference of the cost under two changes of a control.
    unfoldable pub central_difference :
        List (MpcControl R)
        → List (LinearizedModel R)
        → (MpcControl R → MpcControl R)
        → (MpcControl R → MpcControl R)
        → ℕ
        → R
    unfolding eval_cost nudge
    central_difference controls models up down k =
        (eval_cost (nudge up k controls) (some models)
          - eval_cost (nudge down k controls) (some models))
        / (num 2 * eps)

    unfoldable pub compute_gradient :
        List (MpcControl R) → List (LinearizedModel R) → List (MpcControl R)
    unfolding central_difference
    compute_gradient controls models =
        map
          (λ k. record {
            delta =
                central_difference controls models (λ u. record u { delta = u.delta + eps })
                  (λ u. record u { delta = u.delta - eps }) k;
            accel =
                central_difference controls models (λ u. record u { accel = u.accel + eps })
                  (λ u. record u { accel = u.accel - eps }) k;
          })
          (iota (length controls))

    unfoldable pub squared_norm : R → List (MpcControl R) → R
    squared_norm acc [] = acc
    squared_norm acc (g ∷ grad) = squared_norm (acc + (g.delta * g.delta + g.accel * g.accel)) grad

    -- The controls after a step along the gradient, from the k-th one on.
    unfoldable pub descend : R → ℕ → List (MpcControl R) → List (MpcControl R) → List (MpcControl R)
    descend alpha k [] grad = []
    descend alpha k (u ∷ us) [] = []
    descend alpha k (u ∷ us) (g ∷ grad) =
        let w = num 1 / (num 1 + decimal 1 1 * d.of_ℕ k) in
        record { delta = u.delta - alpha * w * g.delta; accel = u.accel - alpha * w * g.accel }
        ∷ descend alpha (suc k) us grad

    -- The controls that a round of the line search tries.
    abbrev pub attempt : Descent R → List (MpcControl R) → R → List (MpcControl R)
    attempt st grad alpha = project_controls (descend alpha 0 st.controls grad) prev_control params

    -- The line search, with the step that it ends with.
    unfoldable pub line_search :
        ℕ → Descent R → List (MpcControl R) → R → R → Option (Accepted R) × R
    unfolding eval_cost descend project_controls
    line_search zero st grad grad_norm2 alpha = (none, alpha)
    line_search (suc steps) st grad grad_norm2 alpha =
        let controls = attempt st grad alpha in
        let models = models_of controls in
        let cost_new = eval_cost controls (some models) in
        let rest = line_search steps st grad grad_norm2 (alpha * decimal 5 1) in
        if cost_new < st.cost_cur - decimal 1 4 * alpha * grad_norm2
        then (some (record { controls = controls; models = models; cost = cost_new }), alpha)
        else rest

    -- The state after a line search, and whether the loop goes on.
    unfoldable pub take_step : Descent R → Option (Accepted R) × R → Descent R × Bool
    take_step st (none, alpha) =
        let lr = st.lr * decimal 5 1 in (record st { lr = lr }, not (lr < params.lr_min))
    take_step st (some a, alpha) = (
      record {
        controls = a.controls;
        models = a.models;
        cost_cur = a.cost;
        lr = min params.lr_init (alpha * decimal 15 1);
      },
      not (st.cost_cur - a.cost < params.convergence_eps),
    )

    -- The optimisation loop, with the rounds that are left.
    unfoldable pub optimize : ℕ → Descent R → Descent R
    unfolding compute_gradient squared_norm line_search take_step
    optimize zero st = st
    optimize (suc rounds) st =
        let grad = compute_gradient st.controls st.models in
        let grad_norm2 = squared_norm (num 0) grad in
        let (next, more) =
          take_step st (line_search params.line_search_steps st grad grad_norm2 st.lr) in
        let rest = optimize rounds next in
        if grad_norm2 < params.convergence_eps * params.convergence_eps
        then st
        else if more
        then rest
        else next

    -- The start of the optimisation: the controls of the last cycle one step on, or the last control.
    unfoldable pub warm_controls : List (MpcControl R) → List (MpcControl R)
    warm_controls warm_start =
        let n = params.horizon in
        if leb n (length warm_start)
        then map (λ i. get_or no_control warm_start (if ltb (suc i) n then suc i else Nat.◌-◌ n 1))
            (iota n)
        else map (λ i. prev_control) (iota n)

    unfoldable pub start_descent : List (MpcControl R) → Descent R
    unfolding warm_controls project_controls eval_cost
    start_descent warm_start =
        let controls = project_controls (warm_controls warm_start) prev_control params in
        record {
          controls = controls;
          models = models_of controls;
          cost_cur = eval_cost controls (some (models_of controls));
          lr = params.lr_init;
        }

    unfoldable pub solve_mpc : List (MpcControl R) → MpcResult R
    unfolding start_descent optimize trajectory
    solve_mpc warm_start =
        let st = optimize params.max_iterations (start_descent warm_start) in
        if is_empty ref.x_ref
        then record {
          control = record { delta = num 0; accel = max params.accel_min (neg (num 1)) };
          predicted_states = [];
          controls = [];
          cost = num 0;
          success = false;
          solver_msg = SolverMessage.empty_reference_path;
        }
        else if params.horizon == 0
        then record {
          control = no_control;
          predicted_states = [];
          controls = [];
          cost = num 0;
          success = false;
          solver_msg = SolverMessage.invalid_horizon;
        }
        else record {
          control = get_or no_control st.controls 0;
          predicted_states = trajectory st.controls none;
          controls = st.controls;
          cost = st.cost_cur;
          success = true;
          solver_msg = SolverMessage.ok;
        }
