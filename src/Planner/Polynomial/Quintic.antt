-- ===== src/Planner/Polynomial/Quintic.antt =====
-- QuinticPolynomial of math/polynomial.cpp: MakeQuintic, the evaluations and JerkCost.
use mpc_ws.Double.{Double, ◌+◌, ◌-◌, ◌*◌, ◌/◌, neg, decimal, num}

pub record QuinticPolynomial (R : Type 0) : Type 0 where
  pub a0 : R
  pub a1 : R
  pub a2 : R
  pub a3 : R
  pub a4 : R
  pub a5 : R

module _ {R : Type 0} ⦃d : Double R⦄ where
  -- From the state (xs, vs, as') to the state (xe, ve, ae) in the time T.
  unfoldable pub make_quintic : R → R → R → R → R → R → R → QuinticPolynomial R
  make_quintic xs vs as' xe ve ae T =
      let T2 = T * T in
      let T3 = T2 * T in
      let T4 = T3 * T in
      let T5 = T4 * T in
      let a2 = as' / num 2 in
      let c0 = xe - (xs + vs * T + a2 * T2) in
      let c1 = ve - (vs + num 2 * a2 * T) in
      let c2 = ae - num 2 * a2 in
      record {
        a0 = xs;
        a1 = vs;
        a2 = a2;
        a3 = (num 10 * c0 - num 4 * c1 * T + decimal 5 1 * c2 * T2) / T3;
        a4 = (neg (num 15) * c0 + num 7 * c1 * T - c2 * T2) / T4;
        a5 = (num 6 * c0 - num 3 * c1 * T + decimal 5 1 * c2 * T2) / T5;
      }

  unfoldable pub eval_pos : QuinticPolynomial R → R → R
  eval_pos p t =
      p.a0
      + p.a1 * t
      + p.a2 * t * t
      + p.a3 * t * t * t
      + p.a4 * t * t * t * t
      + p.a5 * t * t * t * t * t

  unfoldable pub eval_vel : QuinticPolynomial R → R → R
  eval_vel p t =
      p.a1
      + num 2 * p.a2 * t
      + num 3 * p.a3 * t * t
      + num 4 * p.a4 * t * t * t
      + num 5 * p.a5 * t * t * t * t

  unfoldable pub eval_acc : QuinticPolynomial R → R → R
  eval_acc p t = num 2 * p.a2 + num 6 * p.a3 * t + num 12 * p.a4 * t * t + num 20 * p.a5 * t * t * t

  unfoldable pub eval_jerk : QuinticPolynomial R → R → R
  eval_jerk p t = num 6 * p.a3 + num 24 * p.a4 * t + num 60 * p.a5 * t * t

  -- The integral of the squared jerk from 0 to T.
  unfoldable pub jerk_cost : QuinticPolynomial R → R → R
  jerk_cost p T =
      let T2 = T * T in
      let T3 = T2 * T in
      let T4 = T3 * T in
      let T5 = T4 * T in
      num 36 * p.a3 * p.a3 * T
      + num 144 * p.a3 * p.a4 * T2
      + (num 240 * p.a3 * p.a5 + num 192 * p.a4 * p.a4) * T3
      + num 720 * p.a4 * p.a5 * T4
      + num 720 * p.a5 * p.a5 * T5
