-- ===== src/Behavior/Decision/Safety/Stops.antt =====
-- The stops: an emergency and a forced stop win over every other behavior.
use mpc_ws.Prelude.{ℕ, ◌≡◌, refl, ap, ◌⊎◌, inl, inr, true, false, ◌||◌, arith, ltb, All}
use mpc_ws.Double.{Double, ◌<◌, neg, num}
use mpc_ws.Double.Laws.{IsOrdered, IsExact}
use mpc_ws.Behavior.Decision.{
  Candidate, base_target, candidates, choose, decide, emergency, enable, hard_rules, million,
  red_light, score, state_of, target_of,
}
use mpc_ws.Behavior.Decision.Safety.{NotBetter, choose_lem, is_enabled, score_of}
use mpc_ws.Behavior.Types.{
  BehaviorContextData, BehaviorEnable, BehaviorScore, BehaviorState, BehaviorType, HardConstraint,
  UrbanFeature,
}

module _ {R : Type 0} ⦃d : Double R⦄ where
  -- The scores below that of a stop.
  under :
      (exact : IsExact R)
      → (ordered : IsOrdered R) → (n : ℕ) → (x : R) → ltb n 85 ≡ true
      → num 85 < x ≡ true
      → num n < x ≡ true
  under exact ordered n x q p = ordered.lt_trans (num n) (num 85) x (exact.num_lt n 85 q refl) p

  -- The scores of the behaviors that keep moving are below every score above 85.
  below :
      (exact : IsExact R)
      → (ordered : IsOrdered R) → (f : UrbanFeature R) → (h : HardConstraint R) → (x : R)
      → num 85 < x ≡ true
      → ((score f h).keep < x ≡ true)
        × ((score f h).follow < x ≡ true)
        × ((score f h).left_change < x ≡ true)
        × ((score f h).right_change < x ≡ true)
  unfolding score
  below exact ordered f h x p = ground (
    arith,
    exact.num_sub 70 35 refl refl,
    exact.num_sub 70 10 refl refl,
    exact.num_add 65 20 refl,
    exact.num_add 65 5 refl,
    under exact ordered 35 x refl p,
    under exact ordered 60 x refl p,
    under exact ordered 70 x refl p,
    under exact ordered 45 x refl p,
    under exact ordered 80 x refl p,
    under exact ordered 40 x refl p,
    ordered.lt_trans (neg million) (num 85) x (exact.neg_lt 1000000 85 refl refl refl) p,
  )

  no_better :
      (s : BehaviorScore R)
      → (e : BehaviorEnable) → (r : Candidate R) → All (NotBetter r) (candidates s e)
      → (b : BehaviorType) → is_enabled e b ≡ true
      → r.score < score_of s b ≡ false
  unfolding candidates
  no_better s e r h BehaviorType.keep p = ground arith
  no_better s e r h BehaviorType.follow p = ground arith
  no_better s e r h BehaviorType.left_change p = ground arith
  no_better s e r h BehaviorType.right_change p = ground arith
  no_better s e r h BehaviorType.stop p = ground arith
  no_better s e r h BehaviorType.yield p = ground arith
  no_better s e r h BehaviorType.emergency_stop p = ground arith

  -- Every other behavior is not enabled or scores less.
  abbrev Beats : BehaviorScore R → BehaviorEnable → BehaviorType → BehaviorType → Type 0
  Beats s e b c = (c ≡ b) ⊎ (is_enabled e c ≡ true → score_of s c < score_of s b ≡ true)

  -- A behavior that is enabled and beats the others is the choice.
  wins :
      (laws : IsOrdered R)
      → (s : BehaviorScore R) → (e : BehaviorEnable) → (b : BehaviorType) → e.keep ≡ true
      → is_enabled e b ≡ true
      → ((c : BehaviorType) → Beats s e b c)
      → (choose s e).behavior ≡ b
  wins laws s e b k p others =
      let (en, own, top) = choose_lem laws s e k in
      elim (others (choose s e).behavior) [
        | inl q ↦ q
        | inr h ↦ absurd (ground (arith, h en, no_better s e (choose s e) top b p))
      ]

  emergency-Beats :
      (exact : IsExact R)
      → (ordered : IsOrdered R) → (f : UrbanFeature R) → (h : HardConstraint R)
      → h.emergency_stop ≡ true
      → (c : BehaviorType) → Beats (score f h) (enable f h) BehaviorType.emergency_stop c
  unfolding score enable
  emergency-Beats exact ordered f h p c =
      let lows = below exact ordered f h million (exact.num_lt 85 1000000 refl refl) in
      let stop = exact.num_lt 100000 1000000 refl refl in
      let off = exact.neg_lt 1000000 1000000 refl refl refl in by_case c lows stop off
    where
      by_case :
          (c : BehaviorType)
          → ((score f h).keep < million ≡ true)
            × ((score f h).follow < million ≡ true)
            × ((score f h).left_change < million ≡ true)
            × ((score f h).right_change < million ≡ true)
          → d.lt (num 100000) million ≡ true
          → d.lt (neg million) million ≡ true
          → Beats (score f h) (enable f h) BehaviorType.emergency_stop c
      by_case BehaviorType.keep l u v = inr (λ _. ground arith)
      by_case BehaviorType.follow l u v = inr (λ _. ground arith)
      by_case BehaviorType.left_change l u v = inr (λ _. ground arith)
      by_case BehaviorType.right_change l u v = inr (λ _. ground arith)
      by_case BehaviorType.stop l u v = inr (λ _. ground arith)
      by_case BehaviorType.yield l u v = inr (λ q. absurd (ground arith))
      by_case BehaviorType.emergency_stop l u v = inl refl

  stop-Beats :
      (exact : IsExact R)
      → (ordered : IsOrdered R) → (f : UrbanFeature R) → (h : HardConstraint R)
      → h.force_stop ≡ true
      → h.emergency_stop ≡ false
      → (c : BehaviorType) → Beats (score f h) (enable f h) BehaviorType.stop c
  unfolding score enable
  stop-Beats exact ordered f h p q c =
      by_case c (below exact ordered f h (num 100000) (exact.num_lt 85 100000 refl refl))
    where
      by_case :
          (c : BehaviorType)
          → ((score f h).keep < num 100000 ≡ true)
            × ((score f h).follow < num 100000 ≡ true)
            × ((score f h).left_change < num 100000 ≡ true)
            × ((score f h).right_change < num 100000 ≡ true)
          → Beats (score f h) (enable f h) BehaviorType.stop c
      by_case BehaviorType.keep l = inr (λ _. ground arith)
      by_case BehaviorType.follow l = inr (λ _. ground arith)
      by_case BehaviorType.left_change l = inr (λ _. ground arith)
      by_case BehaviorType.right_change l = inr (λ _. ground arith)
      by_case BehaviorType.stop l = inl refl
      by_case BehaviorType.yield l = inr (λ r. absurd (ground arith))
      by_case BehaviorType.emergency_stop l = inr (λ r. absurd (ground arith))

  -- What a decision of a stop says to the planner: the state and the speed 0.
  abbrev pub StopsWith : BehaviorContextData R → BehaviorType → BehaviorState → Type 0
  StopsWith c b s = (c.selected_behavior ≡ b) × (c.state ≡ s) × (c.target.desired_speed ≡ num 0)

  -- An emergency is answered by EMERGENCY_STOP with the desired speed 0, whatever else the scene
  -- holds.
  pub decide-emergency :
      (exact : IsExact R)
      → (ordered : IsOrdered R) → (f : UrbanFeature R) → emergency f ≡ true
      → StopsWith (decide f) BehaviorType.emergency_stop BehaviorState.emergency_stop
  unfolding decide hard_rules enable state_of target_of
  decide-emergency exact ordered f p =
      let h = hard_rules f in
      let q =
        wins ordered (score f h) (enable f h) BehaviorType.emergency_stop refl p
          (emergency-Beats exact ordered f h p) in
      (q, ap state_of q, ap (λ b. (target_of b f (base_target f h (enable f h))).desired_speed) q)

  -- A red or yellow light at a stop line within 30 m, or a pedestrian, is answered by STOP with the
  -- desired speed 0, unless it is an emergency.
  pub decide-stop :
      (exact : IsExact R)
      → (ordered : IsOrdered R) → (f : UrbanFeature R)
      → (red_light f || f.risk.pedestrian_risk) ≡ true
      → emergency f ≡ false
      → StopsWith (decide f) BehaviorType.stop BehaviorState.stop
  unfolding decide hard_rules enable state_of target_of
  decide-stop exact ordered f p e =
      let h = hard_rules f in
      let forced : h.force_stop ≡ true = ground arith in
      let q =
        wins ordered (score f h) (enable f h) BehaviorType.stop refl forced
          (stop-Beats exact ordered f h forced e) in
      (q, ap state_of q, ap (λ b. (target_of b f (base_target f h (enable f h))).desired_speed) q)
