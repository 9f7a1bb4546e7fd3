-- ===== src/Behavior/Map.antt =====
-- The map of behavior_planner: behavior_planner/src/map/link_info.hpp, stop_line_info.hpp,
-- mgeo_loader.hpp and the searches of mgeo_loader.cpp. A priority queue is a list in the order of its
-- entries, the least first; `fuel` bounds the rounds of the loops over it.
pub mod Reach
pub mod StopLines
pub mod Nearest
use mpc_ws.Prelude.{
  subst, range_from, Mem-filter, ℕ, zero, suc, ◌≡◌, refl, sym, ap, ◌∙◌, ◌≢◌, ◌↔◌, ◌⊎◌, inl, inr,
  Bool, true, false, not, ◌&&◌, ◌||◌, Option, none, some, List, [], ◌∷◌, ◌++◌, map, arith, ltb, leb,
  ◌==◌, if◌then◌else◌, Bool-cases, Option-cases, is_some, true≢false, &&_split, length, get_elem?,
  get_or, last_or, head_or, drop, take, All, Any, length-map, All-map, All-of, iota, length-iota,
  filter, Mem, filter_map, Whenever, Mem-filter_map, All-filter_map, Any-map,
}
use mpc_ws.Double.{
  Double, ◌+◌, ◌-◌, ◌*◌, ◌/◌, ◌<◌, ◌≤◌, ◌>◌, ◌≥◌, neg, abs, decimal, num, max, min, clamp,
}
use mpc_ws.Double.Laws.{
  IsOrdered, IsExact, IsNumber, min_le_left, min_le_right, le_max_left, le_max_right, clamp_bounds,
  exact_limit,
}
use mpc_ws.Prelude.Int.{
  ℤ, pos, negsuc, minus_one, is_negative, ◌==ℤ◌, ==ℤ_iff, ltb_ℤ, leb_ℤ, ◌+ℤ◌, sub_ℕ, pos_part,
  neg_part,
}
use Prim.Native.Nat.{Ordering}
use Prim.Native.String
use Prim.Native.String.{String}

pub record Point2D (R : Type 0) : Type 0 where
  pub x : R
  pub y : R

pub record LinkInfo (R : Type 0) : Type 0 where
  pub id : String
  pub from_node_id : String
  pub to_node_id : String
  pub centerline : List (Point2D R)
  pub max_speed : R
  pub min_speed : R
  pub width_start : R
  pub width_end : R
  pub link_length : R
  pub can_move_left : Bool
  pub can_move_right : Bool
  pub left_dst_link_id : String
  pub right_dst_link_id : String
  pub related_signal : String
  pub road_id : String
  pub ego_lane : ℤ

pub record StopLineInfo (R : Type 0) : Type 0 where
  pub node_id : String
  pub traffic_light_id : String
  pub point : Point2D R
  pub route_s : R
  pub valid : Bool

-- The members of MGeoLoader; a map from identifiers is an association list.
pub record MGeo (R : Type 0) : Type 0 where
  pub links : List (String × LinkInfo R)
  pub outgoing_links : List (String × List String)
  pub stop_lines_by_node : List (String × List (StopLineInfo R))

-- How a search ends: `links_.at` throws for an identifier that is no link.
pub data Search (A : Type 0) : Type 0 where
  found : A → Search A
  not_found : Search A
  no_such_link : Search A
  out_of_fuel : Search A

-- A round of a loop: the result, or the state of the next round.
pub data Round (S A : Type 0) : Type 0 where
  done : Search A → Round S A
  next : S → Round S A

abbrev pub same_id : String → String → Bool
same_id a b = elim (String.compare a b) [
  | Ordering.lt ↦ false
  | Ordering.eq ↦ true
  | Ordering.gt ↦ false
]

abbrev pub id_before : String → String → Bool
id_before a b = elim (String.compare a b) [
  | Ordering.lt ↦ true
  | Ordering.eq ↦ false
  | Ordering.gt ↦ false
]

-- `find(id)` of a map.
unfoldable pub lookup : {A : Type 0} → List (String × A) → String → Option A
lookup [] id = none
lookup ((key, value) ∷ entries) id = if same_id key id then some value else lookup entries id

abbrev pub has_id : List String → String → Bool
has_id [] id = false
has_id (x ∷ xs) id = same_id x id || has_id xs id

-- The state of the loops: the queue, `best_cost`, and the best stop line so far.
pub record Frontier (R : Type 0) : Type 0 where
  pub queue : List (R × String)
  pub best_cost : List (String × R)

module _ {R : Type 0} ⦃d : Double R⦄ where
  -- The order of std::pair.
  abbrev pub entry_before : R × String → R × String → Bool
  entry_before a b = (a.0 < b.0) || (not (b.0 < a.0) && id_before a.1 b.1)

  -- `queue.push`
  unfoldable pub push : R × String → List (R × String) → List (R × String)
  push e [] = e ∷ []
  push e (f ∷ queue) =
      let rest = push e queue in if entry_before e f then e ∷ f ∷ queue else f ∷ rest

  unfoldable pub push_all : R → List String → List (R × String) → List (R × String)
  unfolding push
  push_all cost [] queue = queue
  push_all cost (id ∷ ids) queue = push_all cost ids (push (cost, id) queue)

  -- `old != end() && old->second <= cost_to_start`
  abbrev pub is_settled : List (String × R) → R × String → Bool
  is_settled best_cost (cost, id) = elim (lookup best_cost id) as (λ _. Bool) [
    | none ↦ false
    | some old ↦ old ≤ cost
  ]

  -- The loop over the links after a node, at a cost: the distance to the target, if it is one of them
  -- and near enough, or the queue with all of them.
  unfoldable pub leave_node :
      MGeo R → String → R → R → String → R → Frontier R → Round (Frontier R) R
  leave_node map to_link_id to_link_s max_distance node cost st =
      elim (lookup map.outgoing_links node) [
        | none ↦ Round.next st
        | some next_ids ↦
            if has_id next_ids to_link_id && (cost + to_link_s ≤ max_distance)
            then Round.done (Search.found (cost + to_link_s))
            else Round.next (record st { queue = push_all cost next_ids st.queue })
      ]

  -- The round of an entry, with the rest of the queue.
  unfoldable pub visit :
      MGeo R
      → String
      → R
      → R
      → R × String
      → List (R × String)
      → List (String × R)
      → Round (Frontier R) R
  unfolding leave_node
  visit map to_link_id to_link_s max_distance entry queue best_cost =
      if (entry.0 > max_distance) || is_settled best_cost entry
      then Round.next (record { queue = queue; best_cost = best_cost })
      else elim (lookup map.links entry.1) [
        | none ↦ Round.done Search.no_such_link
        | some link ↦
            let st : Frontier R = record {
              queue = queue;
              best_cost = (entry.1, entry.0) ∷ best_cost;
            } in
            let cost_to_end = entry.0 + link.link_length in
            if cost_to_end > max_distance
            then Round.next st
            else leave_node map to_link_id to_link_s max_distance link.to_node_id cost_to_end st
      ]

  -- One round of `while (!queue.empty())` of findForwardDistance.
  unfoldable pub forward_round :
      MGeo R → String → R → R → List (R × String) → List (String × R) → Round (Frontier R) R
  unfolding visit
  forward_round map to_link_id to_link_s max_distance [] best_cost = Round.done Search.not_found
  forward_round map to_link_id to_link_s max_distance (entry ∷ queue) best_cost =
      visit map to_link_id to_link_s max_distance entry queue best_cost

  unfoldable pub forward_loop : ℕ → MGeo R → String → R → R → Round (Frontier R) R → Search R
  unfolding forward_round
  forward_loop fuel map to_link_id to_link_s max_distance (Round.done result) = result
  forward_loop zero map to_link_id to_link_s max_distance (Round.next st) = Search.out_of_fuel
  forward_loop (suc fuel) map to_link_id to_link_s max_distance (Round.next st) =
      forward_loop fuel map to_link_id to_link_s max_distance
        (forward_round map to_link_id to_link_s max_distance st.queue st.best_cost)

  -- MGeoLoader::findForwardDistance; the pointer of the result is not null.
  unfoldable pub find_forward_distance : ℕ → MGeo R → String → R → String → R → R → Search R
  unfolding forward_loop leave_node
  find_forward_distance fuel map from_link_id from_link_s to_link_id to_link_s max_distance =
      elim (lookup map.links from_link_id) [
        | none ↦ Search.not_found
        | some from ↦
            if not (is_some (lookup map.links to_link_id))
            then Search.not_found
            else if same_id from_link_id to_link_id
            then (let distance = to_link_s - from_link_s in
                if (distance < num 0) || (distance > max_distance)
                then Search.not_found
                else Search.found distance)
            else (let remaining = max (num 0) (from.link_length - from_link_s) in
                if remaining > max_distance
                then Search.not_found
                else forward_loop fuel map to_link_id to_link_s max_distance (
                    leave_node map to_link_id to_link_s max_distance from.to_node_id remaining
                      (record { queue = []; best_cost = [] })))
      ]
