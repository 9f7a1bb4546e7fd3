-- ===== src/Planner/Collision/Axes.antt =====
-- The separating axis test does not depend on the order of the boxes.
use mpc_ws.Prelude.{◌≡◌, arith}
use mpc_ws.Double.{Double, neg}
use mpc_ws.Planner.Types.{OrientedBox}
use mpc_ws.Planner.Collision.{projected_radius, separated_along_axis, check_obb_overlap}

-- Exact facts of IEEE arithmetic: a sum does not depend on the order of its two terms, and the
-- size of a sum of two products does not change if both differences are taken the other way round.
pub record IsSymmetric (R : Type 0) ⦃d : Double R⦄ : Type 0 where
  pub add_comm : (a b : R) → d.add a b ≡ d.add b a
  pub abs_flip :
      (a b c e x y : R)
      → d.abs (d.add (d.mul (d.sub a b) x) (d.mul (d.sub c e) y))
        ≡ d.abs (d.add (d.mul (d.sub b a) x) (d.mul (d.sub e c) y))

module _ {R : Type 0} ⦃d : Double R⦄ (laws : IsSymmetric R) where
  open laws use {add_comm, abs_flip}

  separated_comm :
      (a b : OrientedBox R) (lx ly : R)
      → separated_along_axis a b lx ly ≡ separated_along_axis b a lx ly
  unfolding separated_along_axis
  separated_comm a b lx ly =
      rw (abs_flip b.cx a.cx b.cy a.cy lx ly, add_comm (projected_radius a lx ly))

  -- Two boxes overlap in one order of the arguments exactly when they overlap in the other.
  pub check_obb_overlap_comm : (a b : OrientedBox R) → check_obb_overlap a b ≡ check_obb_overlap b a
  unfolding check_obb_overlap
  check_obb_overlap_comm a b = ground (
    arith,
    separated_comm a b (d.cos a.heading) (d.sin a.heading),
    separated_comm a b (neg (d.sin a.heading)) (d.cos a.heading),
    separated_comm a b (d.cos b.heading) (d.sin b.heading),
    separated_comm a b (neg (d.sin b.heading)) (d.cos b.heading),
  )
