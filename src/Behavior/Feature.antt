-- ===== src/Behavior/Feature.antt =====
-- behavior_planner/src/feature/feature_builder.cpp and object_projector.cpp: the features of the scene,
-- from the vehicle, the perceived objects, the route and the traffic lights. The route and the lights
-- are records of what the builder asks them; a query that fails gives none.
pub mod Lanes
pub mod Change
use mpc_ws.Prelude.{
  subst, range_from, Mem-filter, ℕ, zero, suc, ◌≡◌, refl, sym, ap, ◌∙◌, ◌≢◌, ◌↔◌, ◌⊎◌, inl, inr,
  Bool, true, false, not, ◌&&◌, ◌||◌, Option, none, some, List, [], ◌∷◌, ◌++◌, map, arith, ltb, leb,
  ◌==◌, if◌then◌else◌, Bool-cases, Option-cases, is_some, true≢false, &&_split, length, get_elem?,
  get_or, last_or, head_or, drop, take, All, Any, length-map, All-map, All-of, iota, length-iota,
  filter, Mem, filter_map, Whenever, Mem-filter_map, All-filter_map, Any-map, is_empty, concat_map,
  Mem-append, Mem-map, Mem-concat_map, Any-Mem, All-Mem,
}
use mpc_ws.Double.{
  Double, ◌+◌, ◌-◌, ◌*◌, ◌/◌, ◌<◌, ◌≤◌, ◌>◌, ◌≥◌, neg, abs, decimal, num, max, min, clamp,
}
use mpc_ws.Double.Laws.{
  IsOrdered, IsExact, IsNumber, min_le_left, min_le_right, le_max_left, le_max_right, clamp_bounds,
  clip_bounds, exact_limit,
}
use mpc_ws.Prelude.Int.{
  ℤ, pos, negsuc, minus_one, is_negative, ◌==ℤ◌, ==ℤ_iff, ltb_ℤ, leb_ℤ, ◌+ℤ◌, sub_ℕ, pos_part,
  neg_part,
}
use mpc_ws.Behavior.Decision.{score}
use mpc_ws.Behavior.Map.{LinkInfo, StopLineInfo, same_id}
use mpc_ws.Behavior.Map.Nearest.{LinkProjection}
use mpc_ws.Behavior.Types.{
  EgoFeature, ObjectFeature, ObjectType, RiskFeature, RouteFeature, SignalFeature,
  TrafficLightState, UrbanFeature,
}
use mpc_ws.Controller.Loop.{max_speed}
use mpc_ws.Planner.Gap.Highway.{ttc}
use Prim.Native.String
use Prim.Native.String.{String}

pub record EgoState (R : Type 0) : Type 0 where
  pub x : R
  pub y : R
  pub yaw : R
  pub speed : R
  pub stamp : R

pub record TrackedObject (R : Type 0) : Type 0 where
  pub id : ℤ
  pub type : ObjectType
  pub x : R
  pub y : R
  pub yaw : R
  pub speed : R
  pub accel : R
  pub length : R
  pub width : R

pub record PerceptionObjects (R : Type 0) : Type 0 where
  pub vehicles : List (TrackedObject R)
  pub pedestrians : List (TrackedObject R)
  pub obstacles : List (TrackedObject R)

-- A place on the route, with the link there.
pub record RoutePlace (R : Type 0) : Type 0 where
  pub s : R
  pub d : R
  pub link_id : String

-- What the builder asks of RouteManager and of TrafficLightProvider.
pub record RouteManager (R : Type 0) : Type 0 where
  pub project_ego : R → R → Option (RoutePlace R)
  pub match_map_link : R → R → R → Option (LinkProjection R)
  pub get_current_link_info : String → Option (LinkInfo R)
  pub find_next_map_stop_line : String → R → R → Option (R × StopLineInfo R)
  pub forward_distance : String → R → String → R → R → Option R
  pub get_state : String → TrafficLightState

-- The nearest gaps ahead and behind in a lane.
pub record Gaps (R : Type 0) : Type 0 where
  pub front : R
  pub rear : R

-- The variables of the loop over the objects.
pub record Scan (R : Type 0) : Type 0 where
  pub best_lead_score : R
  pub lead : Option (ObjectFeature R)
  pub risk : RiskFeature R
  pub left : Gaps R
  pub right : Gaps R

abbrev pub or_else : {A B : Type 0} → (A → B) → B → Option A → B
or_else f y none = y
or_else f y (some x) = f x

abbrev pub is_type : ObjectType → ObjectType → Bool
is_type ObjectType.vehicle ObjectType.vehicle = true
is_type ObjectType.pedestrian ObjectType.pedestrian = true
is_type ObjectType.static_obstacle ObjectType.static_obstacle = true
is_type ObjectType.unknown ObjectType.unknown = true
is_type _ _ = false

module _ {R : Type 0} ⦃d : Double R⦄ where
  -- 1e9, for no distance and no time.
  abbrev pub far : R
  far = num 1000000000

  abbrev pub lane_width : R
  lane_width = decimal 35 1

  abbrev pub front_lookahead : R
  front_lookahead = num 120

  unfoldable pub ttc_of : R → R → R
  ttc_of gap relative_speed =
      if (gap > num 0) && (relative_speed > num 0) then gap / relative_speed else far

  -- ObjectProjector::project
  unfoldable pub project : RouteManager R → TrackedObject R → EgoFeature R → ObjectFeature R
  unfolding ttc_of
  project route o ego =
      let place = route.project_ego o.x o.y in
      let link = route.match_map_link o.x o.y o.yaw in
      let s = or_else (λ (p : RoutePlace R). p.s) (num 0) place in
      let gap = s - ego.s in
      let relative_speed = ego.speed - o.speed in
      record {
        type = o.type;
        id = o.id;
        x = o.x;
        y = o.y;
        yaw = o.yaw;
        speed = o.speed;
        accel = o.accel;
        length = o.length;
        width = o.width;
        s = s;
        d = or_else (λ (p : RoutePlace R). p.d) (num 0) place;
        link_s = or_else (λ (l : LinkProjection R). l.link_s) (num 0) link;
        gap = gap;
        relative_speed = relative_speed;
        ttc = ttc_of gap relative_speed;
        link_id = or_else (λ (l : LinkProjection R). l.link_id) "" link;
        valid = is_some place && is_some link;
      }

  -- The lane beside the vehicle's: by the link, if there is one, or by the offset.
  unfoldable pub in_lane : String → R → ObjectFeature R → Bool
  in_lane target offset object =
      (not (String.len target == 0) && same_id object.link_id target)
      || (abs offset < lane_width * decimal 5 1)

  abbrev pub in_left_lane : EgoFeature R → RouteFeature R → ObjectFeature R → Bool
  in_left_lane ego route o = in_lane route.left_target_link_id (o.d - ego.d - lane_width) o

  abbrev pub in_right_lane : EgoFeature R → RouteFeature R → ObjectFeature R → Bool
  in_right_lane ego route o = in_lane route.right_target_link_id (o.d - ego.d + lane_width) o

  abbrev pub with_gap : ObjectFeature R → R → ObjectFeature R
  with_gap o gap = record o { gap = gap; ttc = ttc_of gap o.relative_speed }

  -- On the same link or one beside it, the gap is that along the links.
  unfoldable pub along_links : EgoFeature R → RouteFeature R → ObjectFeature R → ObjectFeature R
  along_links ego route o =
      if same_id o.link_id route.current_link_id
        || same_id o.link_id route.left_target_link_id
        || same_id o.link_id route.right_target_link_id
      then with_gap o (o.link_s - ego.map_s)
      else o

  -- `geometry_front_gate`, for a gap along the map.
  unfoldable pub front_gate : EgoFeature R → ObjectFeature R → R → Bool
  front_gate ego o topology_gap =
      let dx = o.x - ego.x in
      let dy = o.y - ego.y in
      let ego_longitudinal = d.cos ego.yaw * dx + d.sin ego.yaw * dy in
      let ego_lateral = neg (d.sin ego.yaw) * dx + d.cos ego.yaw * dy in
      let corridor_half_width = min (num 12) (decimal 25 1 + decimal 12 2 * topology_gap) in
      (ego_longitudinal > neg (num 2))
      && (d.hypot dx dy ≤ front_lookahead)
      && (abs ego_lateral ≤ corridor_half_width)
      && (d.cos (o.yaw - ego.yaw) > decimal 5 1)

  -- The gap to an object ahead in the lane, along the map.
  unfoldable pub gap_in_front :
      RouteManager R → EgoFeature R → RouteFeature R → ObjectFeature R → Option R
  unfolding front_gate
  gap_in_front manager ego route o =
      elim (manager.forward_distance route.current_link_id ego.map_s o.link_id o.link_s
        front_lookahead) [
          | none ↦ none
          | some gap ↦ if front_gate ego o gap then some gap else none
        ]

  -- The object with its final gap, and whether it is ahead in the lane.
  unfoldable pub place :
      RouteManager R → EgoFeature R → RouteFeature R → ObjectFeature R → ObjectFeature R × Bool
  unfolding along_links gap_in_front
  place manager ego route o =
      let along = along_links ego route o in
      elim (gap_in_front manager ego route o) [
        | none ↦ (along, false)
        | some gap ↦ (with_gap along gap, true)
      ]

  unfoldable pub add_lead : ℤ → ObjectFeature R → Bool → Scan R → Scan R
  add_lead last_lead_vehicle_id o ahead st =
      let score = o.gap - (if o.id ==ℤ last_lead_vehicle_id then num 4 else num 0) in
      if is_type o.type ObjectType.vehicle
        && ahead
        && (o.gap > num 0)
        && (score < st.best_lead_score)
      then record st { best_lead_score = score; lead = some o }
      else st

  unfoldable pub add_risk : EgoFeature R → ObjectFeature R → Bool → RiskFeature R → RiskFeature R
  add_risk ego o ahead risk =
      let pedestrian =
        is_type o.type ObjectType.pedestrian
        && (o.gap > num 0)
        && (o.gap < num 15)
        && (abs (o.d - ego.d) < lane_width) in
      let obstacle =
        is_type o.type ObjectType.static_obstacle && ahead && (o.gap > num 0) && (o.gap < num 30) in
      record {
        static_obstacle_ahead = risk.static_obstacle_ahead || obstacle;
        pedestrian_risk = risk.pedestrian_risk || pedestrian;
        emergency_risk = risk.emergency_risk;
        min_ttc = if ahead && (o.gap > num 0) then min risk.min_ttc o.ttc else risk.min_ttc;
        nearest_obstacle_s =
            if obstacle then min risk.nearest_obstacle_s o.s else risk.nearest_obstacle_s;
        nearest_pedestrian_s =
            if pedestrian then min risk.nearest_pedestrian_s o.s else risk.nearest_pedestrian_s;
      }

  unfoldable pub add_gap : Bool → R → Gaps R → Gaps R
  add_gap in_this_lane gap gaps =
      if in_this_lane
      then if gap ≥ num 0
        then record gaps { front = min gaps.front gap }
        else record gaps { rear = min gaps.rear (neg gap) }
      else gaps

  module _ (manager : RouteManager R) (ego : EgoFeature R) (route : RouteFeature R)
      (last_lead_vehicle_id : ℤ) where
    -- A round of the loop. The lanes are judged by the link and the offset, which a gap leaves alone.
    unfoldable pub scan_object : ObjectFeature R → Scan R → Scan R
    unfolding add_lead add_risk
    scan_object object st =
        let (o, ahead) = place manager ego route object in
        let led = add_lead last_lead_vehicle_id o ahead st in
        if object.valid
        then record led {
          risk = add_risk ego o ahead st.risk;
          left = add_gap (in_left_lane ego route object) o.gap st.left;
          right = add_gap (in_right_lane ego route object) o.gap st.right;
        }
        else st

    unfoldable pub scan_objects : List (ObjectFeature R) → Scan R → Scan R
    unfolding scan_object
    scan_objects [] st = st
    scan_objects (o ∷ objects) st = scan_objects objects (scan_object o st)

  -- A lane is safe with both gaps.
  unfoldable pub lane_safe : Bool → Gaps R → Bool
  lane_safe allowed gaps = allowed && (gaps.front ≥ num 12) && (gaps.rear ≥ num 15)

  -- `required_deceleration` and `predicted_front_ttc` for the vehicle ahead.
  unfoldable pub required_deceleration : R → ObjectFeature R → R
  required_deceleration speed lead =
      let closing_speed = max (num 0) (speed - lead.speed) in
      closing_speed * closing_speed / (num 2 * max (decimal 5 1) (lead.gap - num 8))

  unfoldable pub predicted_front_ttc : R → ObjectFeature R → Option R
  predicted_front_ttc speed lead =
      let predicted_lead_speed = max (num 0) (lead.speed + min (num 0) lead.accel * num 1) in
      let predicted_closing_speed = speed - predicted_lead_speed in
      if predicted_closing_speed > num 0 then some (lead.gap / predicted_closing_speed) else none

  -- UrbanFeature{} and its parts.
  abbrev pub no_object : ObjectFeature R
  no_object = record {
    type = ObjectType.unknown;
    id = minus_one;
    x = num 0;
    y = num 0;
    yaw = num 0;
    speed = num 0;
    accel = num 0;
    length = num 0;
    width = num 0;
    s = num 0;
    d = num 0;
    link_s = num 0;
    gap = far;
    relative_speed = num 0;
    ttc = far;
    link_id = "";
    valid = false;
  }

  abbrev pub no_scan : Scan R
  no_scan = record {
    best_lead_score = far;
    lead = none;
    risk = record {
      static_obstacle_ahead = false;
      pedestrian_risk = false;
      emergency_risk = false;
      min_ttc = far;
      nearest_obstacle_s = far;
      nearest_pedestrian_s = far;
    };
    left = record { front = far; rear = far };
    right = record { front = far; rear = far };
  }

  -- The features of the vehicle, of its link and of the stop line ahead.
  unfoldable pub ego_feature : RouteManager R → EgoState R → EgoFeature R
  ego_feature manager ego =
      let place = manager.project_ego ego.x ego.y in
      let link = manager.match_map_link ego.x ego.y ego.yaw in
      record {
        x = ego.x;
        y = ego.y;
        yaw = ego.yaw;
        speed = ego.speed;
        s = or_else (λ (p : RoutePlace R). p.s) (num 0) place;
        d = or_else (λ (p : RoutePlace R). p.d) (num 0) place;
        map_s = or_else (λ (l : LinkProjection R). l.link_s) (num 0) link;
        valid = is_some place && is_some link;
      }

  unfoldable pub route_feature : RouteManager R → EgoState R → RouteFeature R
  route_feature manager ego =
      let current =
        or_else (λ (l : LinkProjection R). l.link_id) ""
          (manager.match_map_link ego.x ego.y ego.yaw) in
      let required =
        or_else (λ (p : RoutePlace R). p.link_id) "" (manager.project_ego ego.x ego.y) in
      let info = manager.get_current_link_info current in
      let left = or_else (λ (l : LinkInfo R). l.left_dst_link_id) "" info in
      let right = or_else (λ (l : LinkInfo R). l.right_dst_link_id) "" info in
      record {
        current_link_id = current;
        target_link_id = "";
        route_required_link_id = required;
        speed_limit = or_else (λ (l : LinkInfo R). l.max_speed) (num 0) info;
        distance_to_turn = far;
        distance_to_intersection = far;
        lane_change_left_allowed =
            or_else (λ (l : LinkInfo R). l.can_move_left) false info && not (String.len left == 0);
        lane_change_right_allowed =
            or_else (λ (l : LinkInfo R). l.can_move_right) false info
            && not (String.len right == 0);
        current_link_valid = is_some info;
        left_target_link_id = left;
        right_target_link_id = right;
      }

  unfoldable pub signal_feature : RouteManager R → EgoFeature R → RouteFeature R → SignalFeature R
  signal_feature manager ego route =
      elim (manager.find_next_map_stop_line route.current_link_id ego.map_s (num 200)) [
        | none ↦ record {
          light_state = TrafficLightState.unknown;
          traffic_light_id = "";
          has_stop_line = false;
          stop_line_s = far;
          distance_to_stop_line = far;
          stop_line_x = num 0;
          stop_line_y = num 0;
          stop_line_valid = false;
        }
        | some (distance, stop) ↦ record {
          light_state = manager.get_state stop.traffic_light_id;
          traffic_light_id = stop.traffic_light_id;
          has_stop_line = true;
          stop_line_s = ego.s + distance;
          distance_to_stop_line = distance;
          stop_line_x = stop.point.x;
          stop_line_y = stop.point.y;
          stop_line_valid = true;
        }
      ]

  -- The risk with what the vehicle ahead adds.
  unfoldable pub judge_risk : R → Scan R → RiskFeature R
  unfolding required_deceleration predicted_front_ttc
  judge_risk speed scan =
      let predicted = or_else (predicted_front_ttc speed) none scan.lead in
      let front_ttc = or_else (λ (t : R). t) far predicted in
      let deceleration = or_else (required_deceleration speed) (num 0) scan.lead in
      let min_ttc = or_else (λ (t : R). min scan.risk.min_ttc t) scan.risk.min_ttc predicted in
      record (scan.risk) {
        min_ttc = min_ttc;
        emergency_risk = (min_ttc < num 1) || (front_ttc < decimal 12 1) || (deceleration > num 6);
      }

  -- The objects of the scene, in the order of the loops.
  unfoldable pub project_all :
      RouteManager R → EgoFeature R → PerceptionObjects R → List (ObjectFeature R)
  project_all manager ego objects =
      map (λ o. project manager o ego)
        (objects.vehicles ++ (objects.pedestrians ++ objects.obstacles))

  -- FeatureBuilder::build: the features, and the builder's frame count and last vehicle ahead.
  unfoldable pub build :
      RouteManager R → EgoState R → PerceptionObjects R → ℕ → ℤ → UrbanFeature R × ℕ × ℤ
  unfolding ego_feature route_feature scan_objects lane_safe judge_risk project_all
  build manager state objects frame last_lead_vehicle_id =
      let ego = ego_feature manager state in
      let route = route_feature manager state in
      let scan =
        scan_objects manager ego route last_lead_vehicle_id (project_all manager ego objects)
          no_scan in
      let feature : UrbanFeature R = record {
        timestamp = state.stamp;
        frame_count = suc frame;
        ego = ego;
        route = route;
        signal = signal_feature manager ego route;
        surrounding = record {
          has_front_vehicle = is_some scan.lead;
          front_vehicle = or_else (λ (o : ObjectFeature R). o) no_object scan.lead;
          left_lane_safe = lane_safe route.lane_change_left_allowed scan.left;
          right_lane_safe = lane_safe route.lane_change_right_allowed scan.right;
          left_front_gap = scan.left.front;
          left_rear_gap = scan.left.rear;
          right_front_gap = scan.right.front;
          right_rear_gap = scan.right.rear;
          left_rear_ttc = far;
          right_rear_ttc = far;
        };
        risk = judge_risk ego.speed scan;
        extra_values =
            (
              "predicted_front_ttc",
              or_else (λ (t : R). t) far (or_else (predicted_front_ttc ego.speed) none scan.lead),
            )
            ∷ ("required_deceleration", or_else (required_deceleration ego.speed) (num 0) scan.lead)
            ∷ [];
      } in
      (feature, suc frame, or_else (λ (o : ObjectFeature R). o.id) minus_one scan.lead)
