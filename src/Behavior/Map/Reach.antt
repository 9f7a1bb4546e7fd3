-- ===== src/Behavior/Map/Reach.antt =====
-- The links that a search reaches, with the cost of their starts.
use mpc_ws.Prelude.{
  subst, ℕ, zero, suc, ◌≡◌, refl, sym, ◌⊎◌, inl, inr, true, false, ◌&&◌, ◌||◌, some, List, [], ◌∷◌,
  map, arith, Bool-cases, Option-cases, is_some, All,
}
use mpc_ws.Double.{Double, ◌+◌, ◌-◌, ◌<◌, ◌≤◌, ◌>◌, num, max}
use mpc_ws.Behavior.Map.{
  Frontier, LinkInfo, MGeo, Round, Search, entry_before, find_forward_distance, forward_loop,
  forward_round, has_id, is_settled, leave_node, lookup, push, push_all, same_id, visit,
}
use Prim.Native.String.{String}
use text.Mathlib.TextPositions.{compare_refl}

-- The start of a link is reached from the end of the first one, at the cost that remains on it, or
-- from the end of a link that is reached.
pub data IsReached {R : Type 0} ⦃d : Double R⦄ (map : MGeo R) (node : String) (remaining : R)
    : R → String → Type 0 where
  first :
      {ids : List String} {id : String}
      → lookup map.outgoing_links node ≡ some ids
      → has_id ids id ≡ true
      → IsReached map node remaining remaining id
  onward :
      {cost : R} {via : String} {link : LinkInfo R} {ids : List String} {id : String}
      → IsReached map node remaining cost via
      → lookup map.links via ≡ some link
      → lookup map.outgoing_links link.to_node_id ≡ some ids
      → has_id ids id ≡ true
      → IsReached map node remaining (cost + link.link_length) id

module _ {R : Type 0} ⦃d : Double R⦄ (map : MGeo R) (node : String) (remaining : R) where
  abbrev pub Reached : R × String → Type 0
  Reached e = IsReached map node remaining e.0 e.1

  push-Reached :
      (e : R × String) (queue : List (R × String))
      → Reached e
      → All Reached queue
      → All Reached (push e queue)
  unfolding push
  push-Reached e [] r h = (r, tt)
  push-Reached e (f ∷ queue) r h = elim (Bool-cases (entry_before e f)) [
    | inl p ↦ rw p (r, h)
    | inr q ↦ rw q (h.0, push-Reached e queue r h.1)
  ]

  has_id-head : (id : String) (ids : List String) → has_id (id ∷ ids) id ≡ true
  has_id-head id ids = ground (arith, compare_refl id)

  has_id-tail :
      (x id : String) (ids : List String) → has_id ids x ≡ true → has_id (id ∷ ids) x ≡ true
  has_id-tail x id ids p = ground arith

  -- The entries of a node that is left at a cost.
  pub push_all-Reached :
      (cost : R) (ids : List String) (queue : List (R × String))
      → ((id : String) → has_id ids id ≡ true → Reached (cost, id))
      → All Reached queue
      → All Reached (push_all cost ids queue)
  unfolding push_all
  push_all-Reached cost [] queue f h = h
  push_all-Reached cost (id ∷ ids) queue f h =
      push_all-Reached cost ids (push (cost, id) queue) (λ x p. f x (has_id-tail x id ids p))
        (push-Reached (cost, id) queue (f id (has_id-head id ids)) h)

  module _ (to_link_id : String) (to_link_s max_distance : R) where
    -- A distance of the search: the cost of a way to the target's start, and the place on it.
    abbrev pub Arrives : R → Type 0
    Arrives x =
        (cost : R) × IsReached map node remaining cost to_link_id
        × (x ≡ cost + to_link_s)
        × (x ≤ max_distance ≡ true)

    abbrev pub ArrivesIfFound : Search R → Type 0
    ArrivesIfFound (Search.found x) = Arrives x
    ArrivesIfFound _ = Unit

    abbrev IsSound : Round (Frontier R) R → Type 0
    IsSound (Round.done result) = ArrivesIfFound result
    IsSound (Round.next st) = All Reached st.queue

    leave_node-IsSound :
        (n : String) (cost : R) (st : Frontier R)
        → ((ids : List String) (id : String)
            → lookup map.outgoing_links n ≡ some ids
            → has_id ids id ≡ true
            → Reached (cost, id))
        → All Reached st.queue
        → IsSound (leave_node map to_link_id to_link_s max_distance n cost st)
    unfolding leave_node
    leave_node-IsSound n cost st f h =
        let leave = leave_node map to_link_id to_link_s max_distance n cost st in
        elim (Option-cases (lookup map.outgoing_links n)) [
          | inl e ↦ let eq : leave ≡ Round.next st = ground arith in subst IsSound (sym eq) h
          | inr (ids, e) ↦
              let pushed = push_all-Reached cost ids st.queue (λ id p. f ids id e p) h in
              elim (Bool-cases (has_id ids to_link_id && (cost + to_link_s ≤ max_distance))) [
                | inl q ↦
                    let eq : leave ≡ Round.done (Search.found (cost + to_link_s)) = ground arith in
                    let arrives : Arrives (cost + to_link_s) =
                      (cost, f ids to_link_id e (ground arith), refl, ground arith) in
                    subst IsSound (sym eq) arrives
                | inr q ↦
                    let eq : leave ≡ Round.next (record st { queue = push_all cost ids st.queue }) =
                      ground arith in
                    subst IsSound (sym eq) pushed
              ]
        ]

    visit-IsSound :
        (entry : R × String) (queue : List (R × String)) (best : List (String × R))
        → Reached entry
        → All Reached queue
        → IsSound (visit map to_link_id to_link_s max_distance entry queue best)
    unfolding visit
    visit-IsSound entry queue best r h =
        let here = visit map to_link_id to_link_s max_distance entry queue best in
        elim (Bool-cases ((entry.0 > max_distance) || is_settled best entry)) [
          | inl p ↦
              let eq : here ≡ Round.next (record { queue = queue; best_cost = best }) =
                ground arith in
              subst IsSound (sym eq) h
          | inr p ↦ elim (Option-cases (lookup map.links entry.1)) [
            | inl e ↦
                let eq : here ≡ Round.done Search.no_such_link = ground arith in
                subst IsSound (sym eq) tt
            | inr (link, e) ↦
                let st : Frontier R = record {
                  queue = queue;
                  best_cost = (entry.1, entry.0) ∷ best;
                } in
                elim (Bool-cases (entry.0 + link.link_length > max_distance)) [
                  | inl q ↦ let eq : here ≡ Round.next st = ground arith in subst IsSound (sym eq) h
                  | inr q ↦
                      let eq : here
                          ≡ leave_node map to_link_id to_link_s max_distance link.to_node_id
                              (entry.0 + link.link_length) st =
                        ground arith in
                      subst IsSound (sym eq) (
                        leave_node-IsSound link.to_node_id (entry.0 + link.link_length) st
                          (λ ids id o m. IsReached.onward r e o m) h)
                ]
          ]
        ]

    forward_round-IsSound :
        (queue : List (R × String)) (best : List (String × R))
        → All Reached queue
        → IsSound (forward_round map to_link_id to_link_s max_distance queue best)
    unfolding forward_round
    forward_round-IsSound [] best h = tt
    forward_round-IsSound (entry ∷ queue) best h = visit-IsSound entry queue best h.0 h.1

    forward_loop-IsSound :
        (fuel : ℕ) (r : Round (Frontier R) R)
        → IsSound r
        → ArrivesIfFound (forward_loop fuel map to_link_id to_link_s max_distance r)
    unfolding forward_loop
    forward_loop-IsSound fuel (Round.done result) h = h
    forward_loop-IsSound zero (Round.next st) h = tt
    forward_loop-IsSound (suc fuel) (Round.next st) h =
        forward_loop-IsSound fuel
          (forward_round map to_link_id to_link_s max_distance st.queue st.best_cost)
          (forward_round-IsSound st.queue st.best_cost h)

module _ {R : Type 0} ⦃d : Double R⦄ where
  -- If findForwardDistance returns a distance, both links are on the map and the distance is at most
  -- the maximum; on one link it is the difference of the places and not negative, and otherwise it is
  -- the length of a way over the map from the place on the first link to the place on the other.
  pub find_forward_distance-found :
      (fuel : ℕ)
      → (map : MGeo R) → (from_link_id : String) → (from_link_s : R) → (to_link_id : String)
      → (to_link_s max_distance : R) → (x : R)
      → find_forward_distance fuel map from_link_id from_link_s to_link_id to_link_s max_distance
        ≡ Search.found x
      → (from : LinkInfo R) × (lookup map.links from_link_id ≡ some from)
        × (is_some (lookup map.links to_link_id) ≡ true)
        × (((same_id from_link_id to_link_id ≡ true)
              × (x ≡ to_link_s - from_link_s)
              × (x < num 0 ≡ false)
              × (x > max_distance ≡ false))
            ⊎ Arrives map from.to_node_id
                (max (num 0) (from.link_length - from_link_s))
                to_link_id
                to_link_s
                max_distance
                x)
  unfolding find_forward_distance
  find_forward_distance-found fuel map from_link_id from_link_s to_link_id to_link_s max_distance x
        e =
      elim (Option-cases (lookup map.links from_link_id)) [
        | inl n ↦ absurd (ground arith)
        | inr (from, found) ↦
            let remaining = max (num 0) (from.link_length - from_link_s) in
            let start : Frontier R = record { queue = []; best_cost = [] } in
            let node = from.to_node_id in
            let leave = leave_node map to_link_id to_link_s max_distance node remaining start in
            let sound =
              forward_loop-IsSound map node remaining to_link_id to_link_s max_distance fuel leave (
                leave_node-IsSound map node remaining to_link_id to_link_s max_distance node
                  remaining start (λ ids id o m. IsReached.first o m) tt) in
            let both : is_some (lookup map.links to_link_id) ≡ true = ground arith in
            elim (Bool-cases (same_id from_link_id to_link_id)) [
              | inl p ↦ (from, found, both, inl (p, ground arith, ground arith, ground arith))
              | inr p ↦
                  let eq : forward_loop fuel map to_link_id to_link_s max_distance leave
                      ≡ Search.found x =
                    ground arith in
                  (
                    from,
                    found,
                    both,
                    inr (
                        subst (ArrivesIfFound map node remaining to_link_id to_link_s max_distance)
                          eq sound),
                  )
            ]
      ]
