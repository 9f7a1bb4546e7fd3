-- ===== src/Behavior/Decision/Safety.antt =====
-- What the decision of a cycle promises.
pub mod Stops
pub mod Limits
use mpc_ws.Prelude.{
  subst, range_from, Mem-filter, ℕ, zero, suc, ◌≡◌, refl, sym, ap, ◌∙◌, ◌≢◌, ◌↔◌, ◌⊎◌, inl, inr,
  Bool, true, false, not, ◌&&◌, ◌||◌, Option, none, some, List, [], ◌∷◌, ◌++◌, map, arith, ltb, leb,
  ◌==◌, if◌then◌else◌, Bool-cases, Option-cases, is_some, true≢false, &&_split, length, get_elem?,
  get_or, last_or, head_or, drop, take, All, Any, length-map, All-map, All-of, iota, length-iota,
  filter, Mem, filter_map, Whenever, Mem-filter_map, All-filter_map, Any-map,
}
use mpc_ws.Double.{
  Double, ◌+◌, ◌-◌, ◌*◌, ◌/◌, ◌<◌, ◌≤◌, ◌>◌, ◌≥◌, neg, abs, decimal, num, max, min, clamp,
}
use mpc_ws.Double.Laws.{
  IsOrdered, IsExact, IsNumber, min_le_left, min_le_right, le_max_left, le_max_right, clamp_bounds,
  exact_limit,
}
use mpc_ws.Prelude.Int.{ℤ, pos, negsuc, minus_one, is_negative, ◌==ℤ◌, ==ℤ_iff, ltb_ℤ, leb_ℤ, ◌+ℤ◌}
use mpc_ws.Behavior.Decision.{
  Candidate, best_of, candidates, choose, decide, fsm_update, score, state_of,
}
use mpc_ws.Behavior.Types.{BehaviorEnable, BehaviorScore, BehaviorType, UrbanFeature}

state_of-fsm_update : (b : BehaviorType) → state_of b ≡ fsm_update b
unfolding state_of fsm_update
state_of-fsm_update BehaviorType.keep = refl
state_of-fsm_update BehaviorType.follow = refl
state_of-fsm_update BehaviorType.left_change = refl
state_of-fsm_update BehaviorType.right_change = refl
state_of-fsm_update BehaviorType.stop = refl
state_of-fsm_update BehaviorType.yield = refl
state_of-fsm_update BehaviorType.emergency_stop = refl

-- The enabling flag of a behavior; YIELD has none and is never a candidate.
abbrev pub is_enabled : BehaviorEnable → BehaviorType → Bool
is_enabled e BehaviorType.keep = e.keep
is_enabled e BehaviorType.follow = e.follow
is_enabled e BehaviorType.left_change = e.left_change
is_enabled e BehaviorType.right_change = e.right_change
is_enabled e BehaviorType.stop = e.stop
is_enabled e BehaviorType.yield = false
is_enabled e BehaviorType.emergency_stop = e.emergency_stop

module _ {R : Type 0} ⦃d : Double R⦄ where
  -- The state that `decide` sets in its `switch` is the one that Fsm::update gives for the selected
  -- behavior.
  pub decide-fsm_update :
      (f : UrbanFeature R) → (decide f).state ≡ fsm_update (decide f).selected_behavior
  unfolding decide
  decide-fsm_update f = state_of-fsm_update _

  -- The score of a behavior's candidate.
  abbrev pub score_of : BehaviorScore R → BehaviorType → R
  score_of s BehaviorType.keep = s.keep
  score_of s BehaviorType.follow = s.follow
  score_of s BehaviorType.left_change = s.left_change
  score_of s BehaviorType.right_change = s.right_change
  score_of s BehaviorType.stop = s.stop
  score_of s BehaviorType.yield = s.keep
  score_of s BehaviorType.emergency_stop = s.emergency_stop

  -- The candidate is not enabled or does not score more than `best`.
  abbrev pub NotBetter : Candidate R → Candidate R → Type 0
  NotBetter best c = (c.enabled && (c.score > best.score)) ≡ false

  best_of_lem :
      (laws : IsOrdered R)
      → (best : Candidate R) → (cs : List (Candidate R)) → best.enabled ≡ true
      → ((best_of best cs).enabled ≡ true)
        × NotBetter (best_of best cs) best
        × All (NotBetter (best_of best cs)) cs
        × ((best_of best cs ≡ best)
            ⊎ (best.score < (best_of best cs).score ≡ true) × Mem (best_of best cs) cs)
  unfolding best_of
  best_of_lem laws best [] p = ground (arith, laws.lt_irrefl best.score)
  best_of_lem laws best (c ∷ cs) p = ground (
    arith,
    best_of_lem laws best cs p,
    best_of_lem laws c cs,
    laws.lt_irrefl best.score,
    laws.lt_irrefl c.score,
    laws.lt_trans best.score c.score (best_of c cs).score,
    laws.lt_trans best.score (best_of best cs).score c.score,
    laws.lt_trans c.score (best_of c cs).score best.score,
    laws.lt_trans c.score best.score c.score,
  )

  -- The selected behavior is one that is enabled, with its own score, and no enabled candidate
  -- scores more.
  pub choose_lem :
      (laws : IsOrdered R)
      → (s : BehaviorScore R) → (e : BehaviorEnable) → e.keep ≡ true
      → (is_enabled e (choose s e).behavior ≡ true)
        × ((choose s e).score ≡ score_of s (choose s e).behavior)
        × All (NotBetter (choose s e)) (candidates s e)
  unfolding choose candidates
  choose_lem laws s e p = ground (
    arith,
    best_of_lem laws (record { score = s.keep; behavior = BehaviorType.keep; enabled = e.keep })
        (candidates s e) p,
  )
