-- ===== src/Double/Steps.antt =====
-- The values of the variable of `for (t = start; t <= limit; t += dt)`. The loop of the source has
-- no bound of its own; `fuel` bounds the rounds of the model.
use Prim.Native.Nat
use native.Mathlib.Nat.{suc-add}
use mpc_ws.Prelude.{Bool-cases, inl, inr}
use mpc_ws.Prelude.{
  ℕ, zero, suc, ◌≡◌, inl, inr, true, false, List, [], ◌∷◌, arith, leb, if◌then◌else◌, Bool-cases,
  All,
}
use mpc_ws.Double.{Double, ◌+◌, ◌≤◌}

module _ {R : Type 0} ⦃d : Double R⦄ where
  unfoldable pub steps : ℕ → R → R → R → List R
  steps zero t dt limit = []
  steps (suc fuel) t dt limit =
      let rest = steps fuel (t + dt) dt limit in if t ≤ limit then t ∷ rest else []

  -- The value of the variable after k rounds.
  pub step_at : ℕ → R → R → R
  step_at zero t dt = t
  step_at (suc k) t dt = step_at k (t + dt) dt

  -- After at most `fuel` rounds the loop's own test fails.
  abbrev pub IsEnough : ℕ → R → R → R → Type 0
  IsEnough fuel t dt limit = (k : ℕ) × (leb (suc k) fuel ≡ true) × (step_at k t dt ≤ limit ≡ false)

  steps_stable_at :
      (k fuel more : ℕ) (t dt limit : R)
      → leb (suc k) fuel ≡ true
      → step_at k t dt ≤ limit ≡ false
      → steps (Nat.◌+◌ fuel more) t dt limit ≡ steps fuel t dt limit
  unfolding steps step_at
  steps_stable_at k zero more t dt limit h e = absurd (ground arith)
  steps_stable_at zero (suc fuel) more t dt limit h e = rw suc-add (rw e)
  steps_stable_at (suc k) (suc fuel) more t dt limit h e =
      rw suc-add (rw (steps_stable_at k fuel more (t + dt) dt limit (ground arith) e))

  -- With enough fuel the loop ends by its own test: more fuel changes nothing.
  pub steps_stable :
      (fuel more : ℕ) (t dt limit : R)
      → IsEnough fuel t dt limit
      → steps (Nat.◌+◌ fuel more) t dt limit ≡ steps fuel t dt limit
  steps_stable fuel more t dt limit (k, h, e) = steps_stable_at k fuel more t dt limit h e

  -- Every value that the loop visits passes its test.
  pub steps_le : (fuel : ℕ) (t dt limit : R) → All (λ u. u ≤ limit ≡ true) (steps fuel t dt limit)
  unfolding steps
  steps_le zero t dt limit = tt
  steps_le (suc fuel) t dt limit = elim (Bool-cases (t ≤ limit)) [
    | inl p ↦ rw p (p, steps_le fuel (t + dt) dt limit)
    | inr q ↦ rw q tt
  ]
