-- ===== src/Planner/Tracks.antt =====
-- The yaw rates that Plan estimates from the headings of the objects
-- (frenet_planner/src/frenet_planner/frenet_planner.cpp). The map from identifiers to tracks is an
-- association list.
pub mod Aging
use mpc_ws.Prelude.{
  ℕ, zero, suc, ◌≡◌, refl, sym, ap, ◌∙◌, ◌≢◌, ◌↔◌, ◌⊎◌, inl, inr, Bool, true, false, not, ◌&&◌,
  ◌||◌, Option, none, some, List, [], ◌∷◌, ◌++◌, map, arith, ltb, leb, ◌==◌, if◌then◌else◌,
  Bool-cases, Option-cases, is_some, true≢false, &&_split, length, get_elem?, get_or, last_or,
  head_or, drop, take, All, Any, length-map, All-map, All-of, iota, length-iota, filter, Mem,
  filter_map, Whenever, Mem-filter_map, All-filter_map, Any-map,
}
use mpc_ws.Double.{
  Double, ◌+◌, ◌-◌, ◌*◌, ◌/◌, ◌<◌, ◌≤◌, ◌>◌, ◌≥◌, neg, abs, decimal, num, max, min, clamp,
}
use mpc_ws.Double.Laws.{
  IsOrdered, IsExact, IsNumber, min_le_left, min_le_right, le_max_left, le_max_right, clamp_bounds,
  exact_limit,
}
use mpc_ws.Prelude.Int.{ℤ, pos, negsuc, minus_one, is_negative, ◌==ℤ◌, ==ℤ_iff, ltb_ℤ, leb_ℤ, ◌+ℤ◌}
use mpc_ws.Planner.Gap.{find_rate}
use mpc_ws.Planner.RefLine.{π}
use mpc_ws.Planner.Types.{ObjectInfo}

pub record ObjectTrack (R : Type 0) : Type 0 where
  pub heading : R
  pub yaw_rate : R
  pub missing_cycles : ℕ

abbrev pub Tracks : Type 0 → Type 0
Tracks R = List (ℤ × ObjectTrack R)

unfoldable pub find_track : {R : Type 0} → ℤ → Tracks R → Option (ObjectTrack R)
find_track id [] = none
find_track id ((j, t) ∷ tracks) = if j ==ℤ id then some t else find_track id tracks

pub put_track : {R : Type 0} → ℤ → ObjectTrack R → Tracks R → Tracks R
put_track id t [] = (id, t) ∷ []
put_track id t ((j, u) ∷ tracks) =
    if j ==ℤ id then (j, t) ∷ tracks else (j, u) ∷ put_track id t tracks

pub put_rate : {R : Type 0} → ℤ → R → List (ℤ × R) → List (ℤ × R)
put_rate id w [] = (id, w) ∷ []
put_rate id w ((j, v) ∷ rates) = if j ==ℤ id then (j, w) ∷ rates else (j, v) ∷ put_rate id w rates

-- `++item.second.missing_cycles` for every track.
pub age_tracks : {R : Type 0} → Tracks R → Tracks R
age_tracks [] = []
age_tracks ((j, t) ∷ tracks) =
    (j, record t { missing_cycles = suc t.missing_cycles }) ∷ age_tracks tracks

-- The tracks that were seen within the last 20 cycles.
pub drop_stale : {R : Type 0} → Tracks R → Tracks R
drop_stale [] = []
drop_stale ((j, t) ∷ tracks) =
    let rest = drop_stale tracks in if ltb 20 t.missing_cycles then rest else (j, t) ∷ rest

-- The tracks, the rates, and the obstacles with their rates, after one cycle.
pub record Observed (R : Type 0) : Type 0 where
  pub tracks : Tracks R
  pub rates : List (ℤ × R)
  pub predicted : List (ObjectInfo R)

module _ {R : Type 0} ⦃d : Double R⦄ where
  -- clip of global/utils.hpp.
  abbrev pub clip : R → R → R → R
  clip v lo hi = max lo (min v hi)

  abbrev pub two_pi : R
  two_pi = num 2 * π

  -- The track of an object after an observation.
  pub observe : Option (ObjectTrack R) → ObjectInfo R → ObjectTrack R
  observe none obj = record { heading = obj.heading; yaw_rate = num 0; missing_cycles = 0 }
  observe (some t) obj =
      let measured = d.remainder (obj.heading - t.heading) two_pi / decimal 5 2 in
      let bounded = clip measured (neg (num 1)) (num 1) in
      record {
        heading = obj.heading;
        yaw_rate = decimal 8 1 * t.yaw_rate + decimal 2 1 * bounded;
        missing_cycles = 0;
      }

  -- The loop over the obstacles, with the tracks and the rates of this cycle.
  pub observe_all : List (ObjectInfo R) → Tracks R → List (ℤ × R) → Tracks R × List (ℤ × R)
  unfolding observe find_track put_track put_rate
  observe_all [] tracks rates = (tracks, rates)
  observe_all (obj ∷ objs) tracks rates =
      let t = observe (find_track obj.id tracks) obj in
      observe_all objs (put_track obj.id t tracks) (put_rate obj.id t.yaw_rate rates)

  abbrev pub with_rate : List (ℤ × R) → ObjectInfo R → ObjectInfo R
  with_rate rates obj = record obj {
    yaw_rate = elim (find_rate obj.id rates) [ none ↦ num 0 | some w ↦ w ];
  }

  unfoldable pub update_tracks : Tracks R → List (ObjectInfo R) → Observed R
  unfolding age_tracks observe_all drop_stale
  update_tracks tracks obstacles =
      let (seen, rates) = observe_all obstacles (age_tracks tracks) [] in
      record {
        tracks = drop_stale seen;
        rates = rates;
        predicted = map (with_rate rates) obstacles;
      }
