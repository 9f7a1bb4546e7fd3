-- ===== src/Tests/MapWitnesses.antt =====
-- The theorems on the map, on two links in a row with a stop line at the end.
use mpc_ws.Prelude.{ℕ, ◌≡◌, refl, ◌⊎◌, true, false, some, [], ◌∷◌, is_some, All, Mem}
use mpc_ws.Double.{◌-◌, ◌<◌, ◌≤◌, ◌>◌, num, max}
use mpc_ws.Prelude.Int.{pos}
use mpc_ws.Behavior.Map.{
  LinkInfo, MGeo, Point2D, StopLineInfo, find_forward_distance, forward_loop, leave_node, lookup,
  push, push_all, same_id,
}
use mpc_ws.Behavior.Map.Nearest.{
  LinkProjection, find_nearest_link, score_centerline, score_link, score_links, score_segment,
}
use mpc_ws.Behavior.Map.Nearest.Segments.{
  AllSegments, IsSegment, badness, find_nearest_link-nearest, is_short, projection_on,
}
use mpc_ws.Behavior.Map.Reach.{Arrives, find_forward_distance-found}
use mpc_ws.Behavior.Map.StopLines.{
  find_next_stop_line, first_stop, pass_end, search_ahead, stop_loop, stop_round, stop_visit,
}
use mpc_ws.Behavior.Map.StopLines.Ahead.{IsStopAhead, find_next_stop_line-found}
use mpc_ws.Double.Least.{pick_least}
use mpc_ws.Double.Micro.{Micro, Micro-IsOrdered, micro, root}
use mpc_ws.Tests.Scene.{m}
use Prim.Native.Nat
use Prim.Native.String.{String}

abbrev p : ℕ → Point2D Micro
p n = record { x = m n; y = m 0 }

abbrev link : String → String → String → ℕ → ℕ → LinkInfo Micro
link id from to a b = record {
  id = id;
  from_node_id = from;
  to_node_id = to;
  centerline = p a ∷ p b ∷ [];
  max_speed = m 10;
  min_speed = m 0;
  width_start = m 3;
  width_end = m 3;
  link_length = m (Nat.◌-◌ b a);
  can_move_left = false;
  can_move_right = false;
  left_dst_link_id = "";
  right_dst_link_id = "";
  related_signal = "";
  road_id = "";
  ego_lane = pos 1;
}

abbrev link_a : LinkInfo Micro
link_a = link "A" "N0" "N1" 0 50

abbrev link_b : LinkInfo Micro
link_b = link "B" "N1" "N2" 50 80

abbrev stop : StopLineInfo Micro
stop = record { node_id = "N2"; traffic_light_id = "T"; point = p 80; route_s = m 80; valid = true }

abbrev map_ab : MGeo Micro
map_ab = record {
  links = ("A", link_a) ∷ ("B", link_b) ∷ [];
  outgoing_links = ("N0", "A" ∷ []) ∷ ("N1", "B" ∷ []) ∷ [];
  stop_lines_by_node = ("N2", stop ∷ []) ∷ [];
}

find_forward_distance-found_example :
    (from : LinkInfo Micro) × (lookup map_ab.links "A" ≡ some from)
    × (is_some (lookup map_ab.links "B") ≡ true)
    × (((same_id "A" "B" ≡ true)
          × (m 50 ≡ m 10 - m 10)
          × (m 50 < num 0 ≡ false)
          × (m 50 > m 100 ≡ false))
        ⊎ Arrives map_ab from.to_node_id
            (max (num 0) (from.link_length - m 10))
            "B"
            (m 10)
            (m 100)
            (m 50))
unfolding find_forward_distance leave_node lookup forward_loop
find_forward_distance-found_example =
    find_forward_distance-found 3 map_ab "A" (m 10) "B" (m 10) (m 100) (m 50) refl

find_next_stop_line-found_example :
    (current : LinkInfo Micro) × (lookup map_ab.links "A" ≡ some current)
    × (((first_stop map_ab current.to_node_id ≡ some stop)
          × (m 70 ≡ max (num 0) (current.link_length - m 10))
          × (m 70 ≤ m 100 ≡ true))
        ⊎ IsStopAhead map_ab current.to_node_id
            (max (num 0) (current.link_length - m 10))
            (m 100)
            (m 70, stop))
unfolding find_next_stop_line lookup search_ahead push_all push stop_loop stop_round stop_visit
    pass_end
find_next_stop_line-found_example =
    find_next_stop_line-found 3 map_ab "A" (m 10) (m 100) (m 70, stop) refl

-- A second link whose line repeats a point before it goes on in two segments.
abbrev map_ac : MGeo Micro
map_ac = record map_ab {
  links =
      ("A", link_a)
      ∷ ("C", record link_b { id = "C"; centerline = p 80 ∷ p 80 ∷ p 90 ∷ p 110 ∷ [] })
      ∷ [];
}

abbrev nearest : LinkProjection Micro
nearest = record { link_id = "C"; link_s = m 20; d = m 1; distance = m 1 }

find_nearest_link-nearest_example :
    (entry : String × LinkInfo Micro) × (s : Micro) × (a : Point2D Micro) × (b : Point2D Micro)
    × Mem entry map_ac.links
    × IsSegment (m 0) entry.1.centerline s a b
    × (is_short a b ≡ false)
    × (nearest ≡ projection_on (m 100) (m 1) (m 0) entry.1.id s a b)
    × (nearest.distance > m 12 ≡ false)
    × All
        (λ other.
          AllSegments
            (λ u v. badness (m 100) (m 1) (m 0) u v < badness (m 100) (m 1) (m 0) a b ≡ false)
            other.1.centerline)
        map_ac.links
unfolding find_nearest_link pick_least score_links score_centerline score_link score_segment root
find_nearest_link-nearest_example =
    find_nearest_link-nearest (m 100) (m 1) (m 0) Micro-IsOrdered map_ac (m 12) nearest refl
