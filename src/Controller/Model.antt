-- ===== src/Controller/Model.antt =====
-- mpc_controller/src/model/vehicle_model.cpp: the bicycle model, its linearisation, and the prediction
-- with either (predictTrajectoryLTV is of solver/mpc_solver.cpp).
use mpc_ws.Prelude.{ℕ, List, [], ◌∷◌, if◌then◌else◌}
use mpc_ws.Double.{Double, ◌+◌, ◌-◌, ◌*◌, ◌/◌, ◌>◌, neg, abs, decimal, num}
use mpc_ws.Controller.Types.{MpcControl, MpcState, at}
use mpc_ws.Planner.RefLine.{normalize_angle}
use mpc_ws.Planner.Tracks.{clip}

-- The rows of A and B, and c.
pub record LinearizedModel (R : Type 0) : Type 0 where
  pub a : List (List R)
  pub b : List (List R)
  pub c : List R

module _ {R : Type 0} ⦃d : Double R⦄ where
  unfoldable pub update_vehicle_state : ℕ → MpcState R → MpcControl R → R → R → R → R → MpcState R
  update_vehicle_state fuel state control dt wheelbase v_min v_max = record {
    x = state.x + state.vx * d.cos state.yaw * dt;
    y = state.y + state.vx * d.sin state.yaw * dt;
    yaw =
        if abs state.vx > decimal 1 3
        then normalize_angle fuel (state.yaw + state.vx / wheelbase * d.tan control.delta * dt)
        else state.yaw;
    vx = clip (state.vx + control.accel * dt) v_min v_max;
  }

  -- The states after the first one.
  unfoldable pub simulate : ℕ → MpcState R → List (MpcControl R) → R → R → R → R → List (MpcState R)
  simulate fuel cur [] dt wheelbase v_min v_max = []
  simulate fuel cur (u ∷ us) dt wheelbase v_min v_max =
      let next = update_vehicle_state fuel cur u dt wheelbase v_min v_max in
      next ∷ simulate fuel next us dt wheelbase v_min v_max

  unfoldable pub predict_trajectory :
      ℕ → MpcState R → List (MpcControl R) → R → R → R → R → List (MpcState R)
  unfolding simulate
  predict_trajectory fuel initial controls dt wheelbase v_min v_max =
      initial ∷ simulate fuel initial controls dt wheelbase v_min v_max

  -- `acc += row[j] * xs[j]` for every j.
  unfoldable pub dot : R → List R → List R → R
  dot acc [] xs = acc
  dot acc (a ∷ row) [] = acc
  dot acc (a ∷ row) (x ∷ xs) = dot (acc + a * x) row xs

  abbrev pub state_vector : MpcState R → List R
  state_vector s = s.x ∷ s.y ∷ s.yaw ∷ s.vx ∷ []

  abbrev pub control_vector : MpcControl R → List R
  control_vector u = u.delta ∷ u.accel ∷ []

  -- `f[i] - Ax[i] - Bu[i]` for every i.
  unfoldable pub remainders : List R → List (List R) → List (List R) → List R → List R → List R
  unfolding dot
  remainders [] rows bs xs us = []
  remainders (f ∷ fs) [] bs xs us = []
  remainders (f ∷ fs) (a ∷ rows) [] xs us = []
  remainders (f ∷ fs) (a ∷ rows) (b ∷ bs) xs us =
      (f - dot (num 0) a xs - dot (num 0) b us) ∷ remainders fs rows bs xs us

  unfoldable pub linearize_bicycle : MpcState R → MpcControl R → R → R → LinearizedModel R
  unfolding remainders
  linearize_bicycle state control dt wheelbase =
      let yaw = state.yaw in
      let vx = state.vx in
      let delta = control.delta in
      let cos_d = d.cos delta in
      let sec2 = num 1 / (cos_d * cos_d + decimal 1 6) in
      let a =
        (num 1 ∷ num 0 ∷ neg vx * d.sin yaw * dt ∷ d.cos yaw * dt ∷ [])
        ∷ (num 0 ∷ num 1 ∷ vx * d.cos yaw * dt ∷ d.sin yaw * dt ∷ [])
        ∷ (num 0 ∷ num 0 ∷ num 1 ∷ d.tan delta / wheelbase * dt ∷ [])
        ∷ (num 0 ∷ num 0 ∷ num 0 ∷ num 1 ∷ [])
        ∷ [] in
      let b =
        (num 0 ∷ num 0 ∷ [])
        ∷ (num 0 ∷ num 0 ∷ [])
        ∷ (vx / wheelbase * sec2 * dt ∷ num 0 ∷ [])
        ∷ (num 0 ∷ dt ∷ [])
        ∷ [] in
      let f =
        (state.x + vx * d.cos yaw * dt)
        ∷ (state.y + vx * d.sin yaw * dt)
        ∷ (if abs vx > decimal 1 3 then yaw + vx / wheelbase * d.tan delta * dt else yaw)
        ∷ (vx + control.accel * dt)
        ∷ [] in
      record { a = a; b = b; c = remainders f a b (state_vector state) (control_vector control) }

  unfoldable pub build_ltv_models :
      ℕ → MpcState R → List (MpcControl R) → R → R → R → R → List (LinearizedModel R)
  build_ltv_models fuel cur [] dt wheelbase v_min v_max = []
  build_ltv_models fuel cur (u ∷ us) dt wheelbase v_min v_max =
      linearize_bicycle cur u dt wheelbase
      ∷ build_ltv_models fuel (update_vehicle_state fuel cur u dt wheelbase v_min v_max) us dt
          wheelbase v_min v_max

  -- The next vector, `c[i] + A[i] x + B[i] u`.
  unfoldable pub apply_rows : List R → List (List R) → List (List R) → List R → List R → List R
  unfolding dot
  apply_rows [] rows bs xs us = []
  apply_rows (c ∷ cs) [] bs xs us = []
  apply_rows (c ∷ cs) (a ∷ rows) [] xs us = []
  apply_rows (c ∷ cs) (a ∷ rows) (b ∷ bs) xs us =
      dot (dot c a xs) b us ∷ apply_rows cs rows bs xs us

  unfoldable pub linear_step : ℕ → LinearizedModel R → MpcState R → MpcControl R → MpcState R
  unfolding apply_rows
  linear_step fuel m state u =
      let next = apply_rows m.c m.a m.b (state_vector state) (control_vector u) in
      record {
        x = at next 0;
        y = at next 1;
        yaw = normalize_angle fuel (at next 2);
        vx = clip (at next 3) (num 0) (num 100);
      }

  -- The states after the first one. `models[k]` of a model that is not there has no value.
  unfoldable pub simulate_ltv :
      ℕ → MpcState R → List (MpcControl R) → List (LinearizedModel R) → List (MpcState R)
  unfolding linear_step
  simulate_ltv fuel cur [] models = []
  simulate_ltv fuel cur (u ∷ us) [] = []
  simulate_ltv fuel cur (u ∷ us) (m ∷ models) =
      let next = linear_step fuel m cur u in next ∷ simulate_ltv fuel next us models

  unfoldable pub predict_trajectory_ltv :
      ℕ → MpcState R → List (MpcControl R) → List (LinearizedModel R) → List (MpcState R)
  unfolding simulate_ltv
  predict_trajectory_ltv fuel initial controls models =
      initial ∷ simulate_ltv fuel initial controls models
