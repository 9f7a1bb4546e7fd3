-- ===== src/Controller/Solver/Improving.antt =====
-- The cost along the optimisation.
use mpc_ws.Prelude.{
  ℕ, ◌≡◌, refl, inl, inr, true, false, some, List, [], ◌∷◌, arith, ◌==◌, Bool-cases, true≢false,
  is_empty,
}
use mpc_ws.Double.{Double, ◌+◌, ◌-◌, ◌*◌, ◌<◌, decimal, num}
use mpc_ws.Double.Laws.{IsOrdered}
use mpc_ws.Controller.Solver.{
  Descent, compute_gradient, eval_cost, models_of, optimize, project_controls, solve_mpc,
  squared_norm, start_descent, warm_controls,
}
use mpc_ws.Controller.Solver.Rounds.{accepted_at, optimize_inv}
use mpc_ws.Controller.Types.{MpcControl, MpcParams, MpcState, ReferencePath}
use mpc_ws.Double.Steps.{steps}
use mpc_ws.Planner.Settings.{init}

-- What IEEE 754 gives for the sums and products of the line search: a sum of squares is not below 0,
-- half of a number that is not below 0 is not, and a number below x - c is below x, if c is a product
-- of factors that are not below 0. They hold with NaN too, which is below nothing.
pub record IsSearch (R : Type 0) ⦃d : Double R⦄ : Type 0 where
  pub add_squares : (acc a b : R) → acc < num 0 ≡ false → (acc + (a * a + b * b)) < num 0 ≡ false
  pub half : (a : R) → a < num 0 ≡ false → (a * decimal 5 1) < num 0 ≡ false
  pub grow : (a : R) → a < num 0 ≡ false → (a * decimal 15 1) < num 0 ≡ false
  pub less :
      (c x a n : R)
      → a < num 0 ≡ false
      → n < num 0 ≡ false
      → c < x - decimal 1 4 * a * n ≡ true
      → c < x ≡ true

module _ {R : Type 0} ⦃d : Double R⦄ (fuel : ℕ) (x0 : MpcState R) (ref : ReferencePath R)
    (prev_control : MpcControl R) (params : MpcParams R) (laws : IsOrdered R)
    (search_laws : IsSearch R) where
  open laws use {lt_irrefl, lt_trans}
  open search_laws use {add_squares, half, grow, less}

  squared_norm-not_negative :
      (acc : R) (grad : List (MpcControl R))
      → acc < num 0 ≡ false
      → squared_norm fuel x0 ref prev_control params acc grad < num 0 ≡ false
  unfolding squared_norm
  squared_norm-not_negative acc [] h = h
  squared_norm-not_negative acc (g ∷ grad) h =
      squared_norm-not_negative (acc + (g.delta * g.delta + g.accel * g.accel)) grad
        (add_squares acc g.delta g.accel h)

  -- The cost of the controls on the models that are linearised along them.
  abbrev pub cost_of : List (MpcControl R) → R
  cost_of controls =
      eval_cost fuel x0 ref prev_control params controls
        (some (models_of fuel x0 ref prev_control params controls))

  -- The state's cost and models are those of its controls, and the cost is not above `first`.
  abbrev IsImproved : R → Descent R → Type 0
  IsImproved first st =
      (st.models ≡ models_of fuel x0 ref prev_control params st.controls)
      × (st.cost_cur ≡ cost_of st.controls)
      × (first < st.cost_cur ≡ false)
      × (st.lr < num 0 ≡ false)

  not_lt_of_lt : (a b c : R) → a < b ≡ false → c < b ≡ true → a < c ≡ false
  not_lt_of_lt a b c h l = elim (Bool-cases (a < c)) [
    | inl e ↦ absurd (true≢false (lt_trans a c b e l) h)
    | inr e ↦ e
  ]

  optimize-IsImproved :
      (first : R)
      → params.lr_init < num 0 ≡ false
      → (rounds : ℕ) (st : Descent R) → IsImproved first st
      → IsImproved first (optimize fuel x0 ref prev_control params rounds st)
  unfolding accepted_at
  optimize-IsImproved first init =
      optimize_inv fuel x0 ref prev_control params (IsImproved first) (λ a. a < num 0 ≡ false) half
        (λ st k. k.3) (λ st k. (k.0, k.1, k.2, half st.lr k.3))
        (λ st a k q l.
          let grad = compute_gradient fuel x0 ref prev_control params st.controls st.models in
          let norm2 = squared_norm fuel x0 ref prev_control params (num 0) grad in
          let new = (accepted_at fuel x0 ref prev_control params st grad a).cost_cur in
          (
            refl,
            refl,
            not_lt_of_lt first st.cost_cur new k.2 (
                less new st.cost_cur a norm2 q
                  (squared_norm-not_negative (num 0) grad (lt_irrefl (num 0))) l),
            ground (arith, grow a q),
          ))

  -- The cost that the solver reports is that of the controls it returns, on the models linearised
  -- along them, and it is not above the cost of the warm start, projected to the limits, that the
  -- optimisation began with.
  pub solve_mpc-cost :
      (warm_start : List (MpcControl R))
      → params.lr_init < num 0 ≡ false
      → is_empty ref.x_ref ≡ false
      → (params.horizon == 0) ≡ false
      → let res = solve_mpc fuel x0 ref prev_control params warm_start in
        let start =
          project_controls
            (warm_controls fuel x0 ref prev_control params warm_start)
            prev_control
            params in
        (res.cost ≡ cost_of res.controls) × (cost_of start < res.cost ≡ false)
  unfolding solve_mpc start_descent
  solve_mpc-cost warm_start init path steps =
      let st = start_descent fuel x0 ref prev_control params warm_start in
      let kept =
        optimize-IsImproved st.cost_cur init params.max_iterations st
          (refl, refl, lt_irrefl st.cost_cur, init) in
      rw (path, steps) (kept.1, kept.2)
