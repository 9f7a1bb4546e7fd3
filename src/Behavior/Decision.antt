-- ===== src/Behavior/Decision.antt =====
-- The decision of a cycle: HardRuleFilter::apply (behavior_planner/src/rule/hard_rule_filter.cpp),
-- BehaviorScorer::score (decision/behavior_scorer.cpp), Fsm::update (decision/fsm.cpp) and
-- BehaviorDecision::decide (decision/behavior_decision.cpp).
pub mod Safety
use mpc_ws.Prelude.{
  subst, range_from, Mem-filter, ℕ, zero, suc, ◌≡◌, refl, sym, ap, ◌∙◌, ◌≢◌, ◌↔◌, ◌⊎◌, inl, inr,
  Bool, true, false, not, ◌&&◌, ◌||◌, Option, none, some, List, [], ◌∷◌, ◌++◌, map, arith, ltb, leb,
  ◌==◌, if◌then◌else◌, Bool-cases, Option-cases, is_some, true≢false, &&_split, length, get_elem?,
  get_or, last_or, head_or, drop, take, All, Any, length-map, All-map, All-of, iota, length-iota,
  filter, Mem, filter_map, Whenever, Mem-filter_map, All-filter_map, Any-map,
}
use mpc_ws.Double.{
  Double, ◌+◌, ◌-◌, ◌*◌, ◌/◌, ◌<◌, ◌≤◌, ◌>◌, ◌≥◌, neg, abs, decimal, num, max, min, clamp,
}
use mpc_ws.Double.Laws.{
  IsOrdered, IsExact, IsNumber, min_le_left, min_le_right, le_max_left, le_max_right, clamp_bounds,
  exact_limit,
}
use mpc_ws.Prelude.Int.{ℤ, pos, negsuc, minus_one, is_negative, ◌==ℤ◌, ==ℤ_iff, ltb_ℤ, leb_ℤ, ◌+ℤ◌}
use mpc_ws.Behavior.Types.{
  BehaviorContextData, BehaviorEnable, BehaviorScore, BehaviorState, BehaviorTarget, BehaviorType,
  HardConstraint, TrafficLightState, UrbanFeature,
}
use mpc_ws.Planner.Follow.{lead}
use mpc_ws.Planner.Gap.Highway.{ttc}
use Prim.Native.String
use Prim.Native.String.{String}

abbrev pub must_stop : TrafficLightState → Bool
must_stop TrafficLightState.red = true
must_stop TrafficLightState.yellow = true
must_stop _ = false

-- Fsm::update
unfoldable pub fsm_update : BehaviorType → BehaviorState
fsm_update BehaviorType.keep = BehaviorState.keep_lane
fsm_update BehaviorType.follow = BehaviorState.follow
fsm_update BehaviorType.left_change = BehaviorState.left_change_prepare
fsm_update BehaviorType.right_change = BehaviorState.right_change_prepare
fsm_update BehaviorType.stop = BehaviorState.stop
fsm_update BehaviorType.yield = BehaviorState.keep_lane
fsm_update BehaviorType.emergency_stop = BehaviorState.emergency_stop

-- `if (r.empty()) r = ...`
abbrev pub or_else : String → String → String
or_else String.[] text = text
or_else (String.◌∷◌ c r) text = String.◌∷◌ c r

-- The candidate of `decide`, and the best one so far.
pub record Candidate (R : Type 0) : Type 0 where
  pub score : R
  pub behavior : BehaviorType
  pub enabled : Bool

-- The state of each branch of the `switch`.
unfoldable pub state_of : BehaviorType → BehaviorState
state_of BehaviorType.follow = BehaviorState.follow
state_of BehaviorType.left_change = BehaviorState.left_change_prepare
state_of BehaviorType.right_change = BehaviorState.right_change_prepare
state_of BehaviorType.stop = BehaviorState.stop
state_of BehaviorType.emergency_stop = BehaviorState.emergency_stop
state_of BehaviorType.keep = BehaviorState.keep_lane
state_of BehaviorType.yield = BehaviorState.keep_lane

module _ {R : Type 0} ⦃d : Double R⦄ where
  abbrev pub million : R
  million = num 1000000

  abbrev pub unlimited : R
  unlimited = num 1000000000

  -- `stop_line_constraint`: a stop line within 30 m ahead.
  abbrev pub at_stop_line : UrbanFeature R → Bool
  at_stop_line f =
      f.signal.has_stop_line
      && (f.signal.distance_to_stop_line ≥ num 0)
      && (f.signal.distance_to_stop_line ≤ num 30)

  abbrev pub red_light : UrbanFeature R → Bool
  red_light f = at_stop_line f && must_stop f.signal.light_state

  abbrev pub emergency : UrbanFeature R → Bool
  emergency f = f.risk.emergency_risk || (f.risk.min_ttc < num 1)

  -- The reasons that hold, in the order of the rules.
  abbrev pub reason : UrbanFeature R → String
  reason f =
      or_else
        (String.◌++◌ (if red_light f then "traffic_light;" else "") (
          String.◌++◌ (if f.risk.pedestrian_risk then "pedestrian_risk;" else "")
            (if emergency f then "emergency_ttc;" else "")))
        "no_hard_constraint"

  -- HardRuleFilter::apply, but for the reason.
  unfoldable pub hard_rules : UrbanFeature R → HardConstraint R
  hard_rules f = record {
    force_stop = red_light f || f.risk.pedestrian_risk || emergency f;
    emergency_stop = emergency f;
    forbid_left_change = not f.route.lane_change_left_allowed;
    forbid_right_change = not f.route.lane_change_right_allowed;
    forbid_lane_change =
        not f.route.lane_change_left_allowed && not f.route.lane_change_right_allowed;
    stop_line_constraint = at_stop_line f;
    stop_before_s = if at_stop_line f then f.signal.stop_line_s - num 6 else unlimited;
    max_speed = if f.route.speed_limit > num 0 then f.route.speed_limit else unlimited;
  }

  -- BehaviorScorer::score. Every literal is an integer, so `keep` and `follow` are written with the
  -- additions of the source.
  unfoldable pub score : UrbanFeature R → HardConstraint R → BehaviorScore R
  score f h =
      let front = f.surrounding.has_front_vehicle in
      let close = f.surrounding.front_vehicle.ttc < num 3 in
      let slow = front && (f.surrounding.front_vehicle.speed + num 1 < f.ego.speed) in
      record {
        keep = if front then num 70 - (if close then num 35 else num 10) else num 70;
        follow = if front then num 65 + (if close then num 20 else num 5) else neg million;
        left_change =
            if not h.forbid_left_change && f.surrounding.left_lane_safe
            then (if slow then num 85 else num 45)
            else neg million;
        right_change =
            if not h.forbid_right_change && f.surrounding.right_lane_safe
            then (if slow then num 80 else num 40)
            else neg million;
        stop = if h.force_stop then num 100000 else neg million;
        emergency_stop = if h.emergency_stop then million else neg million;
      }

  unfoldable pub enable : UrbanFeature R → HardConstraint R → BehaviorEnable
  enable f h = record {
    keep = true;
    follow = f.surrounding.has_front_vehicle;
    left_change = not h.forbid_left_change && f.surrounding.left_lane_safe;
    right_change = not h.forbid_right_change && f.surrounding.right_lane_safe;
    stop = h.force_stop;
    emergency_stop = h.emergency_stop;
  }

  unfoldable pub candidates : BehaviorScore R → BehaviorEnable → List (Candidate R)
  candidates s e =
      record { score = s.keep; behavior = BehaviorType.keep; enabled = e.keep }
      ∷ record { score = s.follow; behavior = BehaviorType.follow; enabled = e.follow }
      ∷ record {
        score = s.left_change;
        behavior = BehaviorType.left_change;
        enabled = e.left_change;
      }
      ∷ record {
        score = s.right_change;
        behavior = BehaviorType.right_change;
        enabled = e.right_change;
      }
      ∷ record { score = s.stop; behavior = BehaviorType.stop; enabled = e.stop }
      ∷ record {
        score = s.emergency_stop;
        behavior = BehaviorType.emergency_stop;
        enabled = e.emergency_stop;
      }
      ∷ []

  -- The loop of `decide`.
  unfoldable pub best_of : Candidate R → List (Candidate R) → Candidate R
  best_of best [] = best
  best_of best (c ∷ cs) = best_of (if c.enabled && (c.score > best.score) then c else best) cs

  -- `candidates.front()` is the candidate KEEP, so the default of an empty list is never taken.
  unfoldable pub choose : BehaviorScore R → BehaviorEnable → Candidate R
  choose s e =
      best_of (record { score = s.keep; behavior = BehaviorType.keep; enabled = e.keep })
        (candidates s e)

  -- The target before the choice.
  abbrev pub base_target : UrbanFeature R → HardConstraint R → BehaviorEnable → BehaviorTarget R
  base_target f h e = record {
    current_link_id = f.route.current_link_id;
    route_required_link_id = f.route.route_required_link_id;
    target_link_id = "";
    candidate_link_ids =
        (if e.left_change then f.route.left_target_link_id ∷ [] else [])
        ++ (if e.right_change then f.route.right_target_link_id ∷ [] else []);
    desired_speed =
        min (if f.route.speed_limit > num 0 then f.route.speed_limit else decimal 139 1)
          h.max_speed;
    stop_before_s = h.stop_before_s;
    lead_vehicle_id =
        if f.surrounding.has_front_vehicle then f.surrounding.front_vehicle.id else minus_one;
    follow_time_gap = decimal 15 1;
    follow_min_gap = num 5;
  }

  abbrev pub acc_target_speed : UrbanFeature R → BehaviorTarget R → R
  acc_target_speed f t =
      let lead = f.surrounding.front_vehicle in
      let desired_gap = t.follow_min_gap + t.follow_time_gap * max (num 0) f.ego.speed in
      lead.speed + decimal 4 1 * (lead.gap - desired_gap)

  -- The target of each branch of the `switch`.
  unfoldable pub target_of : BehaviorType → UrbanFeature R → BehaviorTarget R → BehaviorTarget R
  target_of BehaviorType.follow f t = record t {
    desired_speed = clamp (acc_target_speed f t) (num 0) t.desired_speed;
  }
  target_of BehaviorType.left_change f t = record t { target_link_id = f.route.left_target_link_id }
  target_of BehaviorType.right_change f t = record t {
    target_link_id = f.route.right_target_link_id;
  }
  target_of BehaviorType.stop f t = record t { desired_speed = num 0 }
  target_of BehaviorType.emergency_stop f t = record t { desired_speed = num 0 }
  target_of BehaviorType.keep f t = record t { target_link_id = f.route.current_link_id }
  target_of BehaviorType.yield f t = record t { target_link_id = f.route.current_link_id }

  -- BehaviorDecision::decide; it does not read the feedback of the planner.
  unfoldable pub decide : UrbanFeature R → BehaviorContextData R
  decide f =
      let hard = hard_rules f in
      let scores = score f hard in
      let enabled = enable f hard in
      let best = (choose scores enabled).behavior in
      let lead = f.surrounding.front_vehicle in
      record {
        timestamp = f.timestamp;
        state = state_of best;
        selected_behavior = best;
        hard = hard;
        enable = enabled;
        score = scores;
        target = target_of best f (base_target f hard enabled);
        debug = record {
          selected_reason = "highest_enabled_score";
          hard_rule_reason = reason f;
          cost_terms =
              ("keep", scores.keep)
              ∷ ("follow", scores.follow)
              ∷ ("left_change", scores.left_change)
              ∷ ("right_change", scores.right_change)
              ∷ ("stop", scores.stop)
              ∷ ("emergency_stop", scores.emergency_stop)
              ∷ [];
        };
        extra_values =
            if f.surrounding.has_front_vehicle
            then ("front_gap", lead.gap)
              ∷ ("front_relative_speed", lead.relative_speed)
              ∷ ("front_ttc", lead.ttc)
              ∷ []
            else [];
      }
