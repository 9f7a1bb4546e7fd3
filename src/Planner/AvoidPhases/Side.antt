-- ===== src/Planner/AvoidPhases/Side.antt =====
-- The choice of the side: what a locked side stands for.
use mpc_ws.Prelude.{◌≡◌, refl, ◌↔◌, ◌⊎◌, true, false, Option, none, some, arith}
use mpc_ws.Double.{Double, ◌+◌, ◌*◌, ◌≤◌, abs, decimal, num, max}
use mpc_ws.Double.Laws.{IsOrdered, IsNumber}
use mpc_ws.Planner.AvoidPhases.{choose_side}
use mpc_ws.Planner.Config.{AvoidConfig}
use mpc_ws.Planner.Types.{FrenetPath}

module _ {R : Type 0} ⦃d : Double R⦄ where
  -- A side is chosen unless neither has a valid candidate.
  pub choose_side-none :
      (cfg : AvoidConfig R)
      → (left right : Option (FrenetPath R))
      → choose_side cfg left right ≡ none ↔ (left ≡ none) × (right ≡ none)
  unfolding choose_side
  choose_side-none cfg none none = ((λ h. (refl, refl)), (λ h. refl))
  choose_side-none cfg none (some r) = ((λ h. ground (arith)), (λ h. ground (arith)))
  choose_side-none cfg (some l) none = ((λ h. ground (arith)), (λ h. ground (arith)))
  choose_side-none cfg (some l) (some r) = ((λ h. ground (arith)), (λ h. ground (arith)))

  -- Between two valid sides the choice is a cheapest one, or the right one when it is preferred and
  -- its cost is within the tie margin of the left one's.
  pub choose_side-cheapest :
      (laws : IsOrdered R)
      → (cfg : AvoidConfig R) → (left right : FrenetPath R) → IsNumber left.cost_total
      → IsNumber right.cost_total
      → let tie_margin = max (num 1) (abs left.cost_total) * decimal 5 2 in
        (choose_side cfg (some left) (some right) ≡ some false)
          × (left.cost_total ≤ right.cost_total ≡ true)
        ⊎ (choose_side cfg (some left) (some right) ≡ some true)
          × ((right.cost_total ≤ left.cost_total ≡ true)
              ⊎ (cfg.prefer_right_when_equal ≡ true)
                × (right.cost_total ≤ left.cost_total + tie_margin ≡ true))
  unfolding choose_side
  choose_side-cheapest laws cfg left right p q = ground (
    arith,
    laws.le_of_not_lt right.cost_total left.cost_total q p,
    laws.le_of_lt right.cost_total left.cost_total,
  )
