-- ===== src/Planner/Cost/Best.antt =====
-- SelectBestPath returns a cheapest valid candidate.
use mpc_ws.Prelude.{
  ◌≡◌, refl, ◌≢◌, ◌↔◌, ◌⊎◌, inl, true, false, ◌&&◌, Option, none, some, List, [], ◌∷◌, arith,
  if◌then◌else◌, All, Mem,
}
use mpc_ws.Double.{Double, ◌<◌}
use mpc_ws.Double.Laws.{IsOrdered}
use mpc_ws.Planner.Cost.{better, select_best_path, select_from}
use mpc_ws.Planner.Types.{FrenetPath}

module _ {R : Type 0} ⦃d : Double R⦄ where
  -- The candidate is invalid or does not cost less than `best`.
  abbrev pub NotCheaper : FrenetPath R → FrenetPath R → Type 0
  NotCheaper best path = (path.valid && (path.cost_total < best.cost_total)) ≡ false

  -- The choice: one of the candidates, valid, and none of the valid candidates costs less.
  pub record IsBest (paths : List (FrenetPath R)) (best : FrenetPath R) : Type 0 where
    pub is_candidate : Mem best paths
    pub is_valid : best.valid ≡ true
    pub cheapest : All (NotCheaper best) paths

  -- A kept candidate is never dropped.
  select_from-ne-none :
      (best : FrenetPath R) (paths : List (FrenetPath R)) → select_from (some best) paths ≢ none
  unfolding select_from
  select_from-ne-none best [] e = cc
  select_from-ne-none best (path ∷ paths) e =
      ground (arith, select_from-ne-none path paths, select_from-ne-none best paths)

  -- The loop ends with the kept candidate or a valid one of the list.
  select_from-Mem :
      (best : Option (FrenetPath R)) (paths : List (FrenetPath R)) (m : FrenetPath R)
      → select_from best paths ≡ some m
      → (best ≡ some m) ⊎ (Mem m paths × (m.valid ≡ true))
  unfolding select_from
  select_from-Mem best [] m e = inl e
  select_from-Mem best (path ∷ paths) m e =
      let next = if path.valid && better best path then some path else best in
      ground (arith, select_from-Mem next paths m e)

  -- The choice is a valid candidate of the list, also where costs are not numbers.
  pub select_best_path-Mem :
      (paths : List (FrenetPath R)) (best : FrenetPath R)
      → select_best_path paths ≡ some best
      → Mem best paths × (best.valid ≡ true)
  unfolding select_best_path
  select_best_path-Mem paths best e = ground (arith, select_from-Mem none paths best e)

  module _ (laws : IsOrdered R) where
    open laws use {lt_irrefl, lt_trans}

    -- The loop from a kept candidate ends with that one or a cheaper, valid one of the list.
    select_from-some :
        (best : FrenetPath R) (paths : List (FrenetPath R)) (m : FrenetPath R)
        → select_from (some best) paths ≡ some m
        → ((best ≡ m) ⊎ (Mem m paths × (m.valid ≡ true) × (m.cost_total < best.cost_total ≡ true)))
          × All (NotCheaper m) paths
    unfolding select_from
    select_from-some best [] m e = (inl (cc), tt)
    select_from-some best (path ∷ paths) m e = ground (
      arith,
      select_from-some path paths m,
      select_from-some best paths m,
      lt_trans m.cost_total path.cost_total best.cost_total,
      lt_trans path.cost_total m.cost_total best.cost_total,
      lt_trans path.cost_total m.cost_total path.cost_total,
      lt_irrefl m.cost_total,
      lt_irrefl path.cost_total,
    )

    -- If SelectBestPath returns a candidate, it is a valid one of the list, and no valid candidate
    -- has a lower total cost.
    pub select_best_path-IsBest :
        (paths : List (FrenetPath R)) (best : FrenetPath R)
        → select_best_path paths ≡ some best
        → IsBest paths best
    unfolding select_best_path
    select_best_path-IsBest [] best e = cc
    select_best_path-IsBest (path ∷ paths) best e = ground (
      arith,
      select_from-some path paths best,
      select_best_path-IsBest paths best,
      lt_trans path.cost_total best.cost_total path.cost_total,
      lt_irrefl path.cost_total,
    )

  -- SelectBestPath returns none exactly when no candidate is valid.
  pub select_best_path-none :
      (paths : List (FrenetPath R))
      → (select_best_path paths ≡ none) ↔ All (λ path. path.valid ≡ false) paths
  unfolding select_best_path
  select_best_path-none [] = (λ _. tt, λ _. refl)
  select_best_path-none (path ∷ paths) = (
    λ e. ground (arith, select_from-ne-none path paths, (select_best_path-none paths).0),
    λ h. ground (arith, (select_best_path-none paths).1 h.1),
  )
