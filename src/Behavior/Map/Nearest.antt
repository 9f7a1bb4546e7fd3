-- ===== src/Behavior/Map/Nearest.antt =====
-- MGeoLoader::getLink and MGeoLoader::findNearestLink (behavior_planner/src/map/mgeo_loader.cpp).
pub mod Segments
use mpc_ws.Prelude.{
  ◌≡◌, inl, inr, false, ◌||◌, Option, none, some, List, [], ◌∷◌, ◌++◌, map, arith, ◌==◌,
  if◌then◌else◌, Option-cases, Mem,
}
use mpc_ws.Double.{Double, ◌+◌, ◌-◌, ◌*◌, ◌/◌, ◌<◌, ◌>◌, decimal, num, max, min}
use mpc_ws.Double.Laws.{IsOrdered}
use mpc_ws.Behavior.Map.{LinkInfo, MGeo, Point2D, lookup}
use mpc_ws.Double.Least.{IsLeast, pick_least, pick_least-some}
use Prim.Native.String
use Prim.Native.String.{String}

pub record LinkProjection (R : Type 0) : Type 0 where
  pub link_id : String
  pub link_s : R
  pub d : R
  pub distance : R

-- A projection with its score.
pub record Scored (R : Type 0) : Type 0 where
  pub score : R
  pub projection : LinkProjection R

module _ {R : Type 0} ⦃d : Double R⦄ where
  unfoldable pub get_link : MGeo R → String → Option (LinkInfo R)
  get_link map id = lookup map.links id

  abbrev pub squared_length : Point2D R → Point2D R → R
  squared_length a b = let vx = b.x - a.x in let vy = b.y - a.y in vx * vx + vy * vy

  -- The projection on a segment, and its score.
  unfoldable pub score_segment : R → R → R → String → R → Point2D R → Point2D R → Scored R
  score_segment x y yaw id cumulative_s a b =
      let vx = b.x - a.x in
      let vy = b.y - a.y in
      let length_sq = squared_length a b in
      let length = d.sqrt length_sq in
      let raw_t = ((x - a.x) * vx + (y - a.y) * vy) / length_sq in
      let t = max (num 0) (min (num 1) raw_t) in
      let dx = x - (a.x + t * vx) in
      let dy = y - (a.y + t * vy) in
      let distance_sq = dx * dx + dy * dy in
      let heading_penalty = num 2 * (num 1 - d.cos (yaw - d.atan2 vy vx)) in
      record {
        score = distance_sq + heading_penalty;
        projection = record {
          link_id = id;
          link_s = cumulative_s + t * length;
          d = (vx * dy - vy * dx) / length;
          distance = d.sqrt distance_sq;
        };
      }

  -- The segments of a link, but for those without a length.
  unfoldable pub score_link :
      R → R → R → String → R → Point2D R → List (Point2D R) → List (Scored R)
  unfolding score_segment
  score_link x y yaw id cumulative_s a [] = []
  score_link x y yaw id cumulative_s a (b ∷ points) =
      let short = squared_length a b < decimal 1 9 in
      let rest =
        score_link x y yaw id
          (if short then cumulative_s else cumulative_s + d.sqrt (squared_length a b)) b points in
      if short then rest else score_segment x y yaw id cumulative_s a b ∷ rest

  unfoldable pub score_centerline : R → R → R → LinkInfo R → List (Scored R)
  unfolding score_link
  score_centerline x y yaw link = elim link.centerline [
    | [] ↦ []
    | a ∷ points ↦ score_link x y yaw link.id (num 0) a points
  ]

  unfoldable pub score_links : R → R → R → List (String × LinkInfo R) → List (Scored R)
  unfolding score_centerline
  score_links x y yaw [] = []
  score_links x y yaw (entry ∷ links) =
      score_centerline x y yaw entry.1 ++ score_links x y yaw links

  abbrev pub score_of_scored : Scored R → R
  score_of_scored p = p.score

  -- The bound of the scores, 1e18.
  abbrev pub score_bound : R
  score_bound = num 1000000000000000000

  unfoldable pub find_nearest_link : MGeo R → R → R → R → R → Option (LinkProjection R)
  unfolding score_links
  find_nearest_link map x y yaw max_distance =
      elim (pick_least score_of_scored score_bound none (score_links x y yaw map.links)) [
        | none ↦ none
        | some best ↦
            if (String.len best.projection.link_id == 0)
              || (best.projection.distance > max_distance)
            then none
            else some best.projection
      ]

  -- If findNearestLink finds a link, the projection is one of a segment of the map, within the
  -- maximal distance, and no segment has a lower score.
  pub find_nearest_link-IsLeast :
      (laws : IsOrdered R)
      → (map : MGeo R) → (x y yaw max_distance : R) → (found : LinkProjection R)
      → find_nearest_link map x y yaw max_distance ≡ some found
      → (best : Scored R) × (found ≡ best.projection)
        × Mem best (score_links x y yaw map.links)
        × IsLeast score_of_scored best (score_links x y yaw map.links)
        × (found.distance > max_distance ≡ false)
  unfolding find_nearest_link
  find_nearest_link-IsLeast laws map x y yaw max_distance found e =
      let scored = score_links x y yaw map.links in
      elim (Option-cases (pick_least score_of_scored score_bound none scored)) [
        | inl n ↦ absurd (ground arith)
        | inr (best, p) ↦
            let (kept, least) =
              pick_least-some score_of_scored laws score_bound none scored (λ b h. cc) best p in
            let member : Mem best scored = ground arith in
            (best, ground arith, member, least, ground arith)
      ]
