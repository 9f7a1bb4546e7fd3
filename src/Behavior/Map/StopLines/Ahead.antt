-- ===== src/Behavior/Map/StopLines/Ahead.antt =====
-- The stop line that the search returns.
use mpc_ws.Prelude.{
  subst, ℕ, zero, suc, ◌≡◌, refl, sym, ◌⊎◌, inl, inr, true, false, ◌||◌, Option, none, some, List,
  [], ◌∷◌, map, arith, if◌then◌else◌, Bool-cases, Option-cases, All,
}
use mpc_ws.Double.{Double, ◌+◌, ◌-◌, ◌≤◌, ◌>◌, ◌≥◌, num, max}
use mpc_ws.Behavior.Map.{LinkInfo, MGeo, Round, Search, StopLineInfo, is_settled, lookup, push_all}
use mpc_ws.Behavior.Map.Reach.{IsReached, Reached, push_all-Reached}
use mpc_ws.Behavior.Map.StopLines.{
  StopFrontier, best_stop_distance, find_next_stop_line, first_stop, pass_end, search_ahead,
  stop_found, stop_loop, stop_round, stop_visit,
}
use Prim.Native.String.{String}

module _ {R : Type 0} ⦃d : Double R⦄ where
  -- A stop line at the end of a link that the search reaches, within the maximum.
  abbrev pub IsStopAhead : MGeo R → String → R → R → R × StopLineInfo R → Type 0
  IsStopAhead map node remaining max_distance found =
      (cost : R) × (via : String) × (link : LinkInfo R) × IsReached map node remaining cost via
      × (lookup map.links via ≡ some link)
      × (first_stop map link.to_node_id ≡ some found.1)
      × (found.0 ≡ cost + link.link_length)
      × (found.0 > max_distance ≡ false)

  module _ (map : MGeo R) (node : String) (remaining max_distance : R) where
    abbrev IfAny : Option (R × StopLineInfo R) → Type 0
    IfAny none = Unit
    IfAny (some best) = IsStopAhead map node remaining max_distance best

    abbrev IfFound : Search (R × StopLineInfo R) → Type 0
    IfFound (Search.found best) = IsStopAhead map node remaining max_distance best
    IfFound _ = Unit

    abbrev IsSoundState : StopFrontier R → Type 0
    IsSoundState st = All (Reached map node remaining) st.queue × IfAny st.best

    abbrev IsSound : Round (StopFrontier R) (R × StopLineInfo R) → Type 0
    IsSound (Round.done result) = IfFound result
    IsSound (Round.next st) = IsSoundState st

    stop_found-IfFound :
        (best : Option (R × StopLineInfo R)) → IfAny best → IfFound (stop_found best)
    stop_found-IfFound none h = h
    stop_found-IfFound (some best) h = h

    pass_end-IsSoundState :
        (entry : R × String)
        → (link : LinkInfo R) → (st : StopFrontier R) → Reached map node remaining entry
        → lookup map.links entry.1 ≡ some link
        → entry.0 + link.link_length > max_distance ≡ false
        → IsSoundState st
        → IsSoundState (pass_end map link (entry.0 + link.link_length) st)
    unfolding pass_end
    pass_end-IsSoundState entry link st r e m h =
        let cost = entry.0 + link.link_length in
        elim (Option-cases (first_stop map link.to_node_id)) [
          | inr (stop, s) ↦
              let eq : pass_end map link cost st ≡ record st { best = some (cost, stop) } =
                ground arith in
              let ahead : IsStopAhead map node remaining max_distance (cost, stop) =
                (entry.0, entry.1, link, r, e, s, refl, m) in
              subst IsSoundState (sym eq) (h.0, ahead)
          | inl s ↦ elim (Option-cases (lookup map.outgoing_links link.to_node_id)) [
            | inl o ↦
                let eq : pass_end map link cost st ≡ st = ground arith in
                subst IsSoundState (sym eq) h
            | inr (ids, o) ↦
                let eq : pass_end map link cost st
                    ≡ record st { queue = push_all cost ids st.queue } =
                  ground arith in
                let pushed =
                  push_all-Reached map node remaining cost ids st.queue
                    (λ id p. IsReached.onward r e o p) h.0 in
                subst IsSoundState (sym eq) (pushed, h.1)
          ]
        ]

    stop_visit-IsSound :
        (entry : R × String)
        → (queue : List (R × String)) → (best_cost : List (String × R))
        → (best : Option (R × StopLineInfo R)) → Reached map node remaining entry
        → All (Reached map node remaining) queue
        → IfAny best
        → IsSound (stop_visit map max_distance entry queue best_cost best)
    unfolding stop_visit
    stop_visit-IsSound entry queue best_cost best r h b =
        let here = stop_visit map max_distance entry queue best_cost best in
        let st : StopFrontier R = record {
          queue = queue;
          best_cost = (entry.1, entry.0) ∷ best_cost;
          best = best;
        } in
        elim (Bool-cases (
          (entry.0 > max_distance)
          || (entry.0 ≥ best_stop_distance best)
          || is_settled best_cost entry)) [
            | inl p ↦
                let eq : here
                    ≡ Round.next (record { queue = queue; best_cost = best_cost; best = best }) =
                  ground arith in
                subst IsSound (sym eq) (h, b)
            | inr p ↦ elim (Option-cases (lookup map.links entry.1)) [
              | inl e ↦
                  let eq : here ≡ Round.done Search.no_such_link = ground arith in
                  subst IsSound (sym eq) tt
              | inr (link, e) ↦ elim (Bool-cases (entry.0 + link.link_length > max_distance)) [
                | inl q ↦
                    let eq : here ≡ Round.next st = ground arith in subst IsSound (sym eq) (h, b)
                | inr q ↦
                    let eq : here ≡ Round.next (pass_end map link (entry.0 + link.link_length) st) =
                      ground arith in
                    subst IsSound (sym eq) (pass_end-IsSoundState entry link st r e q (h, b))
              ]
            ]
          ]

    stop_round-IsSound :
        (queue : List (R × String))
        → (best_cost : List (String × R)) → (best : Option (R × StopLineInfo R))
        → All (Reached map node remaining) queue
        → IfAny best
        → IsSound (stop_round map max_distance queue best_cost best)
    unfolding stop_round
    stop_round-IsSound [] best_cost best h b = stop_found-IfFound best b
    stop_round-IsSound (entry ∷ queue) best_cost best h b =
        stop_visit-IsSound entry queue best_cost best h.0 h.1 b

    stop_loop-IfFound :
        (fuel : ℕ)
        → (r : Round (StopFrontier R) (R × StopLineInfo R)) → IsSound r
        → IfFound (stop_loop fuel map max_distance r)
    unfolding stop_loop
    stop_loop-IfFound fuel (Round.done result) h = h
    stop_loop-IfFound zero (Round.next st) h = tt
    stop_loop-IfFound (suc fuel) (Round.next st) h =
        stop_loop-IfFound fuel (stop_round map max_distance st.queue st.best_cost st.best)
          (stop_round-IsSound st.queue st.best_cost st.best h.0 h.1)

    search_ahead-IfFound : (fuel : ℕ) → IfFound (search_ahead fuel map node remaining max_distance)
    unfolding search_ahead
    search_ahead-IfFound fuel =
        let search = search_ahead fuel map node remaining max_distance in
        elim (Option-cases (lookup map.outgoing_links node)) [
          | inl e ↦ let eq : search ≡ Search.not_found = ground arith in subst IfFound (sym eq) tt
          | inr (ids, e) ↦
              let st : StopFrontier R = record {
                queue = push_all remaining ids [];
                best_cost = [];
                best = none;
              } in
              let eq : search ≡ stop_loop fuel map max_distance (Round.next st) = ground arith in
              let pushed =
                push_all-Reached map node remaining remaining ids [] (λ id p. IsReached.first e p)
                  tt in
              subst IfFound (sym eq) (stop_loop-IfFound fuel (Round.next st) (pushed, tt))
        ]

  -- If findNextStopLine returns a stop line, the current link is on the map, and the stop line is the
  -- first one at the end of the current link, at the distance that remains on it, or the first one at
  -- the end of a link that is reached over the map, at the length of the way there; the distance is
  -- within the maximum.
  pub find_next_stop_line-found :
      (fuel : ℕ)
      → (map : MGeo R) → (current_link_id : String) → (current_link_s max_distance : R)
      → (found : R × StopLineInfo R)
      → find_next_stop_line fuel map current_link_id current_link_s max_distance
        ≡ Search.found found
      → (current : LinkInfo R) × (lookup map.links current_link_id ≡ some current)
        × (((first_stop map current.to_node_id ≡ some found.1)
              × (found.0 ≡ max (num 0) (current.link_length - current_link_s))
              × (found.0 ≤ max_distance ≡ true))
            ⊎ IsStopAhead map current.to_node_id
                (max (num 0) (current.link_length - current_link_s))
                max_distance
                found)
  unfolding find_next_stop_line
  find_next_stop_line-found fuel map current_link_id current_link_s max_distance found e =
      elim (Option-cases (lookup map.links current_link_id)) [
        | inl n ↦ absurd (ground arith)
        | inr (current, c) ↦
            let remaining = max (num 0) (current.link_length - current_link_s) in
            let node = current.to_node_id in
            let stop = if remaining ≤ max_distance then first_stop map node else none in
            elim (Option-cases stop) [
              | inr (line, s) ↦
                  let near : remaining ≤ max_distance ≡ true = ground arith in
                  let same : (remaining, line) ≡ found = ground arith in
                  (current, c, inl (ground arith, ground arith, ground arith))
              | inl s ↦
                  let eq : search_ahead fuel map node remaining max_distance ≡ Search.found found =
                    ground arith in
                  (
                    current,
                    c,
                    inr (
                        subst (IfFound map node remaining max_distance) eq
                          (search_ahead-IfFound map node remaining max_distance fuel)),
                  )
            ]
      ]
