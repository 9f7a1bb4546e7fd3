-- ===== src/Double/Least.antt =====
-- The loop that keeps the element with the least key below a bound: `if (key < best) best = ...`.
use mpc_ws.Prelude.{
  ◌≡◌, ◌⊎◌, inl, inr, true, false, Option, none, some, List, [], ◌∷◌, arith, if◌then◌else◌,
  Bool-cases, All, Mem,
}
use mpc_ws.Double.{Double, ◌<◌}
use mpc_ws.Double.Laws.{IsOrdered}

module _ {A R : Type 0} ⦃d : Double R⦄ (key : A → R) where
  unfoldable pub pick_least : R → Option A → List A → Option A
  pick_least bound best [] = best
  pick_least bound best (x ∷ xs) =
      pick_least (if key x < bound then key x else bound) (if key x < bound then some x else best)
        xs

  -- No element's key is below that of m.
  abbrev pub IsLeast : A → List A → Type 0
  IsLeast m xs = All (λ x. key x < key m ≡ false) xs

  module _ (laws : IsOrdered R) where
    open laws use {lt_irrefl, lt_trans}

    -- What the loop ends with was kept before or found below the bound, and is least.
    pub pick_least-some :
        (bound : R) (best : Option A) (xs : List A)
        → ((b : A) → best ≡ some b → key b ≡ bound)
        → (m : A) → pick_least bound best xs ≡ some m
        → (((best ≡ some m) × (key m ≡ bound)) ⊎ (Mem m xs × (key m < bound ≡ true))) × IsLeast m xs
    unfolding pick_least
    pick_least-some bound best [] inv m e = (inl (e, inv m e), tt)
    pick_least-some bound best (x ∷ xs) inv m e = elim (Bool-cases (key x < bound)) [
      | inl p ↦ found p (pick_least-some (key x) (some x) xs (λ b h. cc) m (rw p at e))
      | inr q ↦ kept q (pick_least-some bound best xs inv m (rw q at e))
    ]
      where
        found :
            key x < bound ≡ true
            → (((some x ≡ some m) × (key m ≡ key x)) ⊎ (Mem m xs × (key m < key x ≡ true)))
              × IsLeast m xs
            → (((best ≡ some m) × (key m ≡ bound)) ⊎ (Mem m (x ∷ xs) × (key m < bound ≡ true)))
              × IsLeast m (x ∷ xs)
        found p (inl (s, k), l) = (inr (inl (cc), rw k p), (rw k (lt_irrefl (key x)), l))
        found p (inr (s, k), l) = (
          inr (inr s, lt_trans _ _ _ k p),
          (ground (arith, lt_trans (key m) (key x) (key m), lt_irrefl (key m)), l),
        )

        kept :
            key x < bound ≡ false
            → (((best ≡ some m) × (key m ≡ bound)) ⊎ (Mem m xs × (key m < bound ≡ true)))
              × IsLeast m xs
            → (((best ≡ some m) × (key m ≡ bound)) ⊎ (Mem m (x ∷ xs) × (key m < bound ≡ true)))
              × IsLeast m (x ∷ xs)
        kept q (inl (s, k), l) = (inl (s, k), (rw k q, l))
        kept q (inr (s, k), l) =
            (inr (inr s, k), (ground (arith, lt_trans (key x) (key m) bound), l))

    -- The loop ends with nothing only if nothing was kept before and no key is below the bound.
    pub pick_least-none :
        (bound : R) (best : Option A) (xs : List A)
        → pick_least bound best xs ≡ none
        → (best ≡ none) × All (λ x. key x < bound ≡ false) xs
    unfolding pick_least
    pick_least-none bound best [] e = (e, tt)
    pick_least-none bound best (x ∷ xs) e = elim (Bool-cases (key x < bound)) [
      | inl p ↦ let c : some x ≡ none = (pick_least-none (key x) (some x) xs (rw p at e)).0 in cc
      | inr q ↦ let r = pick_least-none bound best xs (rw q at e) in (r.0, (q, r.1))
    ]
