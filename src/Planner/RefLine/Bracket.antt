-- ===== src/Planner/RefLine/Bracket.antt =====
-- The binary search of Interpolate ends with two neighbouring points around `s`.
use Prim.Native.Nat.{◌≤◌, ◌<◌, ◌+◌, ◌/◌}
use mpc_ws.Prelude.{ℕ, zero, suc, ◌≡◌, true, false, arith}
use mpc_ws.Prelude.{List}
use mpc_ws.Double.{Double}
use mpc_ws.Planner.Types.{RefPoint}
use mpc_ws.Planner.RefLine.{point_at, bisect}

module _ {R : Type 0} ⦃d : Double R⦄ where
  -- What the loop keeps and what it ends with: neighbouring indices inside the interval, `s` at or
  -- after the left point, and still before the right one.
  pub record IsBracket (pts : List (RefPoint R)) (s : R) (lo hi : ℕ) (out : ℕ × ℕ) : Type 0 where
    pub adjacent : out.1 ≡ out.0 + 1
    pub left_in : lo ≤ out.0
    pub right_in : out.1 ≤ hi
    pub left_le : d.le (point_at pts out.0).s s ≡ true
    pub right_gt : d.le (point_at pts out.1).s s ≡ false

  -- If `s` lies at or after point `lo` and before point `hi`, and the fuel covers the width of the
  -- interval, the search returns two neighbouring indices of the interval with `s` between them.
  pub bisect-IsBracket :
      (fuel : ℕ) (pts : List (RefPoint R)) (s : R) (lo hi : ℕ)
      → lo < hi
      → hi ≤ lo + fuel
      → d.le (point_at pts lo).s s ≡ true
      → d.le (point_at pts hi).s s ≡ false
      → IsBracket pts s lo hi (bisect fuel pts s lo hi)
  unfolding bisect
  bisect-IsBracket zero pts s lo hi h k p q = absurd (omega arith)
  bisect-IsBracket (suc fuel) pts s lo hi h k p q = ground (
    arith,
    bisect-IsBracket fuel pts s ((lo + hi) / 2) hi,
    bisect-IsBracket fuel pts s lo ((lo + hi) / 2),
  )
