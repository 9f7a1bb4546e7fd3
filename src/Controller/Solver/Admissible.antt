-- ===== src/Controller/Solver/Admissible.antt =====
-- The controls that the solver returns: within the limits, one for each step of the horizon.
use mpc_ws.Prelude.{
  ℕ, suc, ◌≡◌, refl, ap, ◌∙◌, inl, inr, true, false, List, [], ◌∷◌, arith, leb, ◌==◌, Bool-cases,
  length, get_or, length-map, iota, length-iota, is_empty,
}
use mpc_ws.Double.{Double, ◌+◌, ◌-◌, ◌*◌, ◌≤◌, neg}
use mpc_ws.Double.Laws.{IsOrdered, clip_bounds}
use mpc_ws.Controller.Solver.{
  Descent, clip_control, compute_gradient, descend, optimize, project_control, project_controls,
  solve_mpc, start_descent, warm_controls,
}
use mpc_ws.Controller.Solver.Rounds.{accepted_at, optimize_inv}
use mpc_ws.Controller.Types.{MpcControl, MpcParams, MpcState, ReferencePath, no_control}
use mpc_ws.Double.Steps.{steps}
use mpc_ws.Planner.Tracks.{clip}

-- A projected list, and one moved along a gradient, has the length that it had.
module _ {R : Type 0} ⦃d : Double R⦄ where
  length-project_controls :
      (us : List (MpcControl R)) (u_prev : MpcControl R) (params : MpcParams R)
      → length (project_controls us u_prev params) ≡ length us
  unfolding project_controls
  length-project_controls [] u_prev params = refl
  length-project_controls (u ∷ us) u_prev params =
      ap suc (length-project_controls us (project_control params u_prev u) params)

  length-descend :
      (fuel : ℕ) (x0 : MpcState R) (ref : ReferencePath R) (prev_control : MpcControl R)
      → (params : MpcParams R) (alpha : R) (k : ℕ) (us grad : List (MpcControl R))
      → length grad ≡ length us
      → length (descend fuel x0 ref prev_control params alpha k us grad) ≡ length us
  unfolding descend
  length-descend fuel x0 ref prev_control params alpha k [] grad e = refl
  length-descend fuel x0 ref prev_control params alpha k (u ∷ us) [] e = cc
  length-descend fuel x0 ref prev_control params alpha k (u ∷ us) (g ∷ grad) e =
      ap suc
        (length-descend fuel x0 ref prev_control params alpha (suc k) us grad (omega (arith, e)))

  length-warm_controls :
      (fuel : ℕ) (x0 : MpcState R) (ref : ReferencePath R) (prev_control : MpcControl R)
      → (params : MpcParams R) (warm_start : List (MpcControl R))
      → length (warm_controls fuel x0 ref prev_control params warm_start) ≡ params.horizon
  unfolding warm_controls
  length-warm_controls fuel x0 ref prev_control params warm_start =
      elim (Bool-cases (leb params.horizon (length warm_start))) [
        | inl e ↦ rw e (length-map _ (iota params.horizon) ∙ length-iota params.horizon)
        | inr e ↦ rw e (length-map _ (iota params.horizon) ∙ length-iota params.horizon)
      ]

module _ {R : Type 0} ⦃d : Double R⦄ (laws : IsOrdered R) (params : MpcParams R) where
  open laws use {le_of_lt, le_of_not_lt, number_of_le, number_of_lt}

  -- The acceleration is within its limits, and the steering differs from the one before by a step
  -- within the steering rate, for every control.
  abbrev pub IsAdmissible : MpcControl R → List (MpcControl R) → Type 0
  IsAdmissible u_prev [] = Unit
  IsAdmissible u_prev (u ∷ us) =
      (params.accel_min ≤ u.accel ≡ true)
      × (u.accel ≤ params.accel_max ≡ true)
      × ((step : R) × (u.delta ≡ u_prev.delta + step)
          × (neg (params.steering_rate_max * params.dt) ≤ step ≡ true)
          × (step ≤ params.steering_rate_max * params.dt ≡ true))
      × IsAdmissible u us

  module _ (accel : params.accel_min ≤ params.accel_max ≡ true)
      (rate : neg (params.steering_rate_max * params.dt) ≤ params.steering_rate_max * params.dt
        ≡ true) where
    project_controls-IsAdmissible :
        (us : List (MpcControl R)) (u_prev : MpcControl R)
        → IsAdmissible u_prev (project_controls us u_prev params)
    unfolding project_controls
    project_controls-IsAdmissible [] u_prev = tt
    project_controls-IsAdmissible (u ∷ us) u_prev =
        let limit = params.steering_rate_max * params.dt in
        let steered = clip_control u params in
        let held = clip_bounds laws u.accel params.accel_min params.accel_max accel in
        let step = clip (steered.delta - u_prev.delta) (neg limit) limit in
        let bound = clip_bounds laws (steered.delta - u_prev.delta) (neg limit) limit rate in
        (
          held.0,
          held.1,
          (step, refl, bound.0, bound.1),
          project_controls-IsAdmissible us (project_control params u_prev u),
        )

    module _ (fuel : ℕ) (x0 : MpcState R) (ref : ReferencePath R)
        (prev_control : MpcControl R) where
      -- What the loop keeps of its state.
      abbrev Keeps : Descent R → Type 0
      Keeps st = IsAdmissible prev_control st.controls × (length st.controls ≡ params.horizon)

      optimize-Keeps :
          (rounds : ℕ) (st : Descent R)
          → Keeps st
          → Keeps (optimize fuel x0 ref prev_control params rounds st)
      unfolding accepted_at compute_gradient
      optimize-Keeps =
          optimize_inv fuel x0 ref prev_control params Keeps (λ a. Unit) (λ a q. tt) (λ st k. tt)
            (λ st k. k)
            (λ st a k q less.
              let grad = compute_gradient fuel x0 ref prev_control params st.controls st.models in
              let moved = descend fuel x0 ref prev_control params a 0 st.controls grad in
              (
                project_controls-IsAdmissible moved prev_control,
                length-project_controls moved prev_control params
                    ∙ length-descend fuel x0 ref prev_control params a 0 st.controls grad (
                        length-map _ (iota (length st.controls)) ∙ length-iota (length st.controls))
                    ∙ k.1,
              ))

      -- For a path with points and a horizon of at least one step the solver succeeds, whatever the
      -- warm start and the costs are: it returns one control for each step of the horizon, every
      -- acceleration is within its limits, and every steering angle differs from the one before it,
      -- the first from the previous control, by a step within the steering rate. The control to
      -- apply is the first one.
      pub solve_mpc-IsAdmissible :
          (warm_start : List (MpcControl R))
          → is_empty ref.x_ref ≡ false
          → (params.horizon == 0) ≡ false
          → let res = solve_mpc fuel x0 ref prev_control params warm_start in
            (res.success ≡ true)
            × IsAdmissible prev_control res.controls
            × (length res.controls ≡ params.horizon)
            × (res.control ≡ get_or no_control res.controls 0)
      unfolding solve_mpc start_descent
      solve_mpc-IsAdmissible warm_start path steps =
          let start = warm_controls fuel x0 ref prev_control params warm_start in
          let kept =
            optimize-Keeps params.max_iterations
              (start_descent fuel x0 ref prev_control params warm_start)
              (
                project_controls-IsAdmissible start prev_control,
                length-project_controls start prev_control params
                    ∙ length-warm_controls fuel x0 ref prev_control params warm_start,
              ) in
          rw (path, steps) (refl, kept.0, kept.1, refl)
