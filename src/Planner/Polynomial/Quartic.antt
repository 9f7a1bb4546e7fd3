-- ===== src/Planner/Polynomial/Quartic.antt =====
-- QuarticPolynomial of math/polynomial.cpp: MakeQuartic, the evaluations and JerkCost.
use mpc_ws.Double.{Double, ◌+◌, ◌-◌, ◌*◌, ◌/◌, num}

pub record QuarticPolynomial (R : Type 0) : Type 0 where
  pub a0 : R
  pub a1 : R
  pub a2 : R
  pub a3 : R
  pub a4 : R

module _ {R : Type 0} ⦃d : Double R⦄ where
  -- From the state (xs, vs, as') to the speed ve and the acceleration ae in the time T.
  unfoldable pub make_quartic : R → R → R → R → R → R → QuarticPolynomial R
  make_quartic xs vs as' ve ae T =
      let T2 = T * T in
      let a2 = as' / num 2 in
      let a3 = (ve - vs - num 4 / num 3 * a2 * T - num 1 / num 3 * ae * T) / T2 in
      record {
        a0 = xs;
        a1 = vs;
        a2 = a2;
        a3 = a3;
        a4 = (ae - num 2 * a2 - num 6 * a3 * T) / (num 12 * T2);
      }

  unfoldable pub eval_pos : QuarticPolynomial R → R → R
  eval_pos p t = p.a0 + p.a1 * t + p.a2 * t * t + p.a3 * t * t * t + p.a4 * t * t * t * t

  unfoldable pub eval_vel : QuarticPolynomial R → R → R
  eval_vel p t = p.a1 + num 2 * p.a2 * t + num 3 * p.a3 * t * t + num 4 * p.a4 * t * t * t

  unfoldable pub eval_acc : QuarticPolynomial R → R → R
  eval_acc p t = num 2 * p.a2 + num 6 * p.a3 * t + num 12 * p.a4 * t * t

  unfoldable pub eval_jerk : QuarticPolynomial R → R → R
  eval_jerk p t = num 6 * p.a3 + num 24 * p.a4 * t

  unfoldable pub jerk_cost : QuarticPolynomial R → R → R
  jerk_cost p T =
      let T2 = T * T in
      let T3 = T2 * T in
      num 36 * p.a3 * p.a3 * T + num 144 * p.a3 * p.a4 * T2 + num 192 * p.a4 * p.a4 * T3
