-- ===== src/Behavior/Map/StopLines.antt =====
-- MGeoLoader::findNextStopLine (behavior_planner/src/map/mgeo_loader.cpp): the search for the nearest
-- stop line at the end of a link ahead.
pub mod Ahead
use mpc_ws.Prelude.{
  subst, range_from, Mem-filter, ℕ, zero, suc, ◌≡◌, refl, sym, ap, ◌∙◌, ◌≢◌, ◌↔◌, ◌⊎◌, inl, inr,
  Bool, true, false, not, ◌&&◌, ◌||◌, Option, none, some, List, [], ◌∷◌, ◌++◌, map, arith, ltb, leb,
  ◌==◌, if◌then◌else◌, Bool-cases, Option-cases, is_some, true≢false, &&_split, length, get_elem?,
  get_or, last_or, head_or, drop, take, All, Any, length-map, All-map, All-of, iota, length-iota,
  filter, Mem, filter_map, Whenever, Mem-filter_map, All-filter_map, Any-map,
}
use mpc_ws.Double.{
  Double, ◌+◌, ◌-◌, ◌*◌, ◌/◌, ◌<◌, ◌≤◌, ◌>◌, ◌≥◌, neg, abs, decimal, num, max, min, clamp,
}
use mpc_ws.Double.Laws.{
  IsOrdered, IsExact, IsNumber, min_le_left, min_le_right, le_max_left, le_max_right, clamp_bounds,
  exact_limit,
}
use mpc_ws.Prelude.Int.{
  ℤ, pos, negsuc, minus_one, is_negative, ◌==ℤ◌, ==ℤ_iff, ltb_ℤ, leb_ℤ, ◌+ℤ◌, sub_ℕ, pos_part,
  neg_part,
}
use mpc_ws.Behavior.Map.{LinkInfo, MGeo, Round, Search, StopLineInfo, is_settled, lookup, push_all}
use Prim.Native.String.{String}

-- The state of the loop: the frontier, and `best_stop_distance` with `best_stop` once one is found.
pub record StopFrontier (R : Type 0) : Type 0 where
  pub queue : List (R × String)
  pub best_cost : List (String × R)
  pub best : Option (R × StopLineInfo R)

module _ {R : Type 0} ⦃d : Double R⦄ where
  -- `stop->second.front()` of the stop lines at a node, if it has any.
  abbrev pub first_stop : MGeo R → String → Option (StopLineInfo R)
  first_stop map node = elim (lookup map.stop_lines_by_node node) [
    | none ↦ none
    | some stops ↦ get_elem? stops 0
  ]

  abbrev pub best_stop_distance : Option (R × StopLineInfo R) → R
  best_stop_distance none = num 1000000000
  best_stop_distance (some (distance, stop)) = distance

  -- What follows the end of a link: its stop line, or the links after it.
  unfoldable pub pass_end : MGeo R → LinkInfo R → R → StopFrontier R → StopFrontier R
  pass_end map link cost_to_end st = elim (first_stop map link.to_node_id) [
    | some stop ↦ record st { best = some (cost_to_end, stop) }
    | none ↦ elim (lookup map.outgoing_links link.to_node_id) [
      | none ↦ st
      | some ids ↦ record st { queue = push_all cost_to_end ids st.queue }
    ]
  ]

  unfoldable pub stop_visit :
      MGeo R
      → R
      → R × String
      → List (R × String)
      → List (String × R)
      → Option (R × StopLineInfo R)
      → Round (StopFrontier R) (R × StopLineInfo R)
  unfolding pass_end
  stop_visit map max_distance entry queue best_cost best =
      if (entry.0 > max_distance)
        || (entry.0 ≥ best_stop_distance best)
        || is_settled best_cost entry
      then Round.next (record { queue = queue; best_cost = best_cost; best = best })
      else elim (lookup map.links entry.1) [
        | none ↦ Round.done Search.no_such_link
        | some link ↦
            let st : StopFrontier R = record {
              queue = queue;
              best_cost = (entry.1, entry.0) ∷ best_cost;
              best = best;
            } in
            let cost_to_end = entry.0 + link.link_length in
            if cost_to_end > max_distance
            then Round.next st
            else Round.next (pass_end map link cost_to_end st)
      ]

  -- `if (!found) return false`
  abbrev pub stop_found : Option (R × StopLineInfo R) → Search (R × StopLineInfo R)
  stop_found none = Search.not_found
  stop_found (some best) = Search.found best

  unfoldable pub stop_round :
      MGeo R
      → R
      → List (R × String)
      → List (String × R)
      → Option (R × StopLineInfo R)
      → Round (StopFrontier R) (R × StopLineInfo R)
  unfolding stop_visit
  stop_round map max_distance [] best_cost best = Round.done (stop_found best)
  stop_round map max_distance (entry ∷ queue) best_cost best =
      stop_visit map max_distance entry queue best_cost best

  unfoldable pub stop_loop :
      ℕ → MGeo R → R → Round (StopFrontier R) (R × StopLineInfo R) → Search (R × StopLineInfo R)
  unfolding stop_round
  stop_loop fuel map max_distance (Round.done result) = result
  stop_loop zero map max_distance (Round.next st) = Search.out_of_fuel
  stop_loop (suc fuel) map max_distance (Round.next st) =
      stop_loop fuel map max_distance (stop_round map max_distance st.queue st.best_cost st.best)

  -- The part after the current link: the links after its end, from a queue that is empty.
  unfoldable pub search_ahead : ℕ → MGeo R → String → R → R → Search (R × StopLineInfo R)
  unfolding stop_loop
  search_ahead fuel map node remaining max_distance = elim (lookup map.outgoing_links node) [
    | none ↦ Search.not_found
    | some ids ↦
        stop_loop fuel map max_distance
          (Round.next (record { queue = push_all remaining ids []; best_cost = []; best = none }))
  ]

  unfoldable pub find_next_stop_line : ℕ → MGeo R → String → R → R → Search (R × StopLineInfo R)
  unfolding search_ahead
  find_next_stop_line fuel map current_link_id current_link_s max_distance =
      elim (lookup map.links current_link_id) [
        | none ↦ Search.not_found
        | some current ↦
            let remaining = max (num 0) (current.link_length - current_link_s) in
            elim (if remaining ≤ max_distance then first_stop map current.to_node_id else none) [
              | some stop ↦ Search.found (remaining, stop)
              | none ↦ search_ahead fuel map current.to_node_id remaining max_distance
            ]
      ]
