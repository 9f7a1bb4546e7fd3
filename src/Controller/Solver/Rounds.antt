-- ===== src/Controller/Solver/Rounds.antt =====
-- The rule of the optimisation loop: what a rejected and an accepted line search keep holds at its end.
use mpc_ws.Prelude.{ℕ, zero, suc, ◌≡◌, inl, inr, true, some, List, Bool-cases}
use mpc_ws.Double.{Double, ◌-◌, ◌*◌, ◌<◌, decimal, num, min}
use mpc_ws.Controller.Solver.{
  Descent, attempt, compute_gradient, eval_cost, line_search, models_of, optimize, squared_norm,
  take_step,
}
use mpc_ws.Controller.Types.{MpcControl, MpcParams, MpcState, ReferencePath}
use mpc_ws.Double.Steps.{steps}

module _ {R : Type 0} ⦃d : Double R⦄ (fuel : ℕ) (x0 : MpcState R) (ref : ReferencePath R)
    (prev_control : MpcControl R) (params : MpcParams R) where
  -- The state that a line search leads to, which accepts the step alpha along a gradient.
  unfoldable pub accepted_at : Descent R → List (MpcControl R) → R → Descent R
  accepted_at st grad alpha =
      let controls = attempt fuel x0 ref prev_control params st grad alpha in
      let models = models_of fuel x0 ref prev_control params controls in
      record {
        controls = controls;
        models = models;
        cost_cur = eval_cost fuel x0 ref prev_control params controls (some models);
        lr = min params.lr_init (alpha * decimal 15 1);
      }

  -- The test of the line search.
  abbrev pub Decreases : Descent R → List (MpcControl R) → R → R → Type 0
  Decreases st grad norm2 alpha =
      (accepted_at st grad alpha).cost_cur < st.cost_cur - decimal 1 4 * alpha * norm2 ≡ true

  module _ (P : Descent R → Type 0) (Q : R → Type 0) where
    line_search_cases :
        (half : (a : R) → Q a → Q (a * decimal 5 1))
        → (st : Descent R) (grad : List (MpcControl R)) (norm2 : R)
        → (reject : P (record st { lr = st.lr * decimal 5 1 }))
        → (accept : (a : R) → Q a → Decreases st grad norm2 a → P (accepted_at st grad a))
        → (steps : ℕ) (alpha : R) → Q alpha
        → P
            (take_step fuel x0 ref prev_control params st
              (line_search fuel x0 ref prev_control params steps st grad norm2 alpha)).0
    unfolding line_search take_step accepted_at
    line_search_cases half st grad norm2 reject accept zero alpha q = reject
    line_search_cases half st grad norm2 reject accept (suc steps) alpha q =
        elim (Bool-cases
          ((accepted_at st grad alpha).cost_cur < st.cost_cur - decimal 1 4 * alpha * norm2)) [
            | inl e ↦ rw e (accept alpha q e)
            | inr e ↦ rw e (
                line_search_cases half st grad norm2 reject accept steps (alpha * decimal 5 1)
                  (half alpha q))
          ]

    pub optimize_inv :
        (half : (a : R) → Q a → Q (a * decimal 5 1))
        → (lr : (st : Descent R) → P st → Q st.lr)
        → (reject : (st : Descent R) → P st → P (record st { lr = st.lr * decimal 5 1 }))
        → (accept : (st : Descent R) (a : R)
            → P st
            → Q a
            → let grad = compute_gradient fuel x0 ref prev_control params st.controls st.models in
              Decreases st grad (squared_norm fuel x0 ref prev_control params (num 0) grad) a
              → P (accepted_at st grad a))
        → (rounds : ℕ) (st : Descent R) → P st
        → P (optimize fuel x0 ref prev_control params rounds st)
    unfolding optimize
    optimize_inv half lr reject accept zero st p = p
    optimize_inv half lr reject accept (suc rounds) st p =
        let grad = compute_gradient fuel x0 ref prev_control params st.controls st.models in
        let norm2 = squared_norm fuel x0 ref prev_control params (num 0) grad in
        let found =
          line_search fuel x0 ref prev_control params params.line_search_steps st grad norm2
            st.lr in
        let next = take_step fuel x0 ref prev_control params st found in
        let kept =
          line_search_cases half st grad norm2 (reject st p) (λ a. accept st a p)
            params.line_search_steps st.lr (lr st p) in
        elim (Bool-cases (norm2 < params.convergence_eps * params.convergence_eps)) [
          | inl e ↦ rw e p
          | inr e ↦ rw e (elim (Bool-cases next.1) [
            | inl more ↦ rw more (optimize_inv half lr reject accept rounds next.0 kept)
            | inr more ↦ rw more kept
          ])
        ]
