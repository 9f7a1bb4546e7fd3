-- ===== src/Behavior/Map/Nearest/Segments.antt =====
-- The segments of the map's lines, told without the loops of MGeoLoader::findNearestLink, and what
-- the function finds among them.
use mpc_ws.Prelude.{
  subst, ◌≡◌, refl, sym, ap, ◌∙◌, ◌⊎◌, inl, inr, Bool, true, false, some, List, [], ◌∷◌, ◌++◌, map,
  if◌then◌else◌, Bool-cases, All, Mem, Mem-append,
}
use mpc_ws.Double.{Double, ◌+◌, ◌-◌, ◌*◌, ◌/◌, ◌<◌, ◌>◌, decimal, num, max, min}
use mpc_ws.Double.Laws.{IsOrdered}
use mpc_ws.Behavior.Map.{LinkInfo, MGeo, Point2D}
use mpc_ws.Behavior.Map.Nearest.{
  LinkProjection, Scored, find_nearest_link, find_nearest_link-IsLeast, score_centerline,
  score_link, score_links, score_of_scored, score_segment,
}
use Prim.Native.String.{String}

module _ {R : Type 0} ⦃d : Double R⦄ where
  abbrev pub squared_span : Point2D R → Point2D R → R
  squared_span a b = (b.x - a.x) * (b.x - a.x) + (b.y - a.y) * (b.y - a.y)

  -- Too short to have a direction.
  abbrev pub is_short : Point2D R → Point2D R → Bool
  is_short a b = squared_span a b < decimal 1 9

  -- The arc length after a segment. One without a direction has no length.
  abbrev pub travelled : R → Point2D R → Point2D R → R
  travelled s a b = if is_short a b then s else s + d.sqrt (squared_span a b)

-- A line whose first point lies at an arc length has a segment, which starts at another.
pub data IsSegment {R : Type 0} ⦃d : Double R⦄
    : R → List (Point2D R) → R → Point2D R → Point2D R → Type 0 where
  here : {s : R} {a b : Point2D R} {points : List (Point2D R)} → IsSegment s (a ∷ b ∷ points) s a b
  onward :
      {s t : R} {a b u v : Point2D R} {points : List (Point2D R)}
      → IsSegment (travelled s a b) (b ∷ points) t u v
      → IsSegment s (a ∷ b ∷ points) t u v

append-All : {A : Type 0} (P : A → Type 0) (xs ys : List A) → All P (xs ++ ys) → All P xs × All P ys
append-All P [] ys h = (tt, h)
append-All P (x ∷ xs) ys (p, h) = let (l, r) = append-All P xs ys h in ((p, l), r)

module _ {R : Type 0} ⦃d : Double R⦄ where
  -- Every segment that has a direction satisfies P.
  abbrev pub AllSegments : (Point2D R → Point2D R → Type 0) → List (Point2D R) → Type 0
  AllSegments P [] = Unit
  AllSegments P (a ∷ []) = Unit
  AllSegments P (a ∷ b ∷ points) = ((is_short a b ≡ true) ⊎ P a b) × AllSegments P (b ∷ points)

  module _ (x y yaw : R) where
    -- The share of a segment that lies before its point nearest to the position.
    abbrev pub share : Point2D R → Point2D R → R
    share a b =
        max (num 0)
          (min (num 1) (((x - a.x) * (b.x - a.x) + (y - a.y) * (b.y - a.y)) / squared_span a b))

    -- From that point to the position.
    abbrev pub off_x : Point2D R → Point2D R → R
    off_x a b = x - (a.x + share a b * (b.x - a.x))

    abbrev pub off_y : Point2D R → Point2D R → R
    off_y a b = y - (a.y + share a b * (b.y - a.y))

    abbrev pub squared_off : Point2D R → Point2D R → R
    squared_off a b = off_x a b * off_x a b + off_y a b * off_y a b

    -- The squared distance, and twice what the cosine of the angle to the heading lacks of 1.
    abbrev pub badness : Point2D R → Point2D R → R
    badness a b = squared_off a b + num 2 * (num 1 - d.cos (yaw - d.atan2 (b.y - a.y) (b.x - a.x)))

    abbrev pub projection_on : String → R → Point2D R → Point2D R → LinkProjection R
    projection_on id s a b = record {
      link_id = id;
      link_s = s + share a b * d.sqrt (squared_span a b);
      d = ((b.x - a.x) * off_y a b - (b.y - a.y) * off_x a b) / d.sqrt (squared_span a b);
      distance = d.sqrt (squared_off a b);
    }

    -- What the loops keep of a segment.
    abbrev scored_on : String → R → Point2D R → Point2D R → Scored R
    scored_on id s a b = record { score = badness a b; projection = projection_on id s a b }

    score_segment-on :
        (id : String) (s : R) (a b : Point2D R)
        → score_segment x y yaw id s a b ≡ scored_on id s a b
    unfolding score_segment
    score_segment-on id s a b = refl

    score_link-Segment :
        (id : String) (s : R) (a : Point2D R) (points : List (Point2D R)) (best : Scored R)
        → Mem best (score_link x y yaw id s a points)
        → (t : R) × (u : Point2D R) × (v : Point2D R) × IsSegment s (a ∷ points) t u v
          × (is_short u v ≡ false)
          × (best ≡ scored_on id t u v)
    unfolding score_link
    score_link-Segment id s a [] best m = absurd m
    score_link-Segment id s a (b ∷ points) best m = elim (Bool-cases (is_short a b)) [
      | inl p ↦
          let (t, u, v, seg, long, e) =
            score_link-Segment id (travelled s a b) b points best (rw p (rw p at m)) in
          (t, u, v, onward seg, long, e)
      | inr q ↦ elim (rw q at m) [
        | inl e ↦ (s, a, b, here, q, sym e ∙ score_segment-on id s a b)
        | inr n ↦
            let (t, u, v, seg, long, e) =
              score_link-Segment id (travelled s a b) b points best (rw q n) in
            (t, u, v, onward seg, long, e)
      ]
    ]

    -- What holds of every score of a line's loop holds of every segment that has a direction.
    score_link-AllSegments :
        (limit : R) (id : String) (s : R) (a : Point2D R) (points : List (Point2D R))
        → All (λ p. p.score < limit ≡ false) (score_link x y yaw id s a points)
        → AllSegments (λ u v. badness u v < limit ≡ false) (a ∷ points)
    unfolding score_link score_segment
    score_link-AllSegments limit id s a [] h = tt
    score_link-AllSegments limit id s a (b ∷ points) h = elim (Bool-cases (is_short a b)) [
      | inl p ↦
          (inl p, score_link-AllSegments limit id (travelled s a b) b points (rw p (rw p at h)))
      | inr q ↦
          let (low, rest) = (rw q at h) in
          (inr low, score_link-AllSegments limit id (travelled s a b) b points (rw q rest))
    ]

    centerline-Segment :
        (link : LinkInfo R) (points : List (Point2D R)) (best : Scored R)
        → link.centerline ≡ points
        → Mem best (score_centerline x y yaw link)
        → (t : R) × (u : Point2D R) × (v : Point2D R) × IsSegment (num 0) points t u v
          × (is_short u v ≡ false)
          × (best ≡ scored_on link.id t u v)
    unfolding score_centerline
    centerline-Segment link [] best e m = absurd (rw e at m)
    centerline-Segment link (a ∷ points) best e m =
        score_link-Segment link.id (num 0) a points best (rw e at m)

    centerline-AllSegments :
        (limit : R) (link : LinkInfo R) (points : List (Point2D R))
        → link.centerline ≡ points
        → All (λ p. p.score < limit ≡ false) (score_centerline x y yaw link)
        → AllSegments (λ u v. badness u v < limit ≡ false) points
    unfolding score_centerline
    centerline-AllSegments limit link [] e h = tt
    centerline-AllSegments limit link (a ∷ points) e h =
        score_link-AllSegments limit link.id (num 0) a points (rw e at h)

    score_links-Segment :
        (links : List (String × LinkInfo R)) (best : Scored R)
        → Mem best (score_links x y yaw links)
        → (entry : String × LinkInfo R) × Mem entry links
          × (t : R) × (u : Point2D R) × (v : Point2D R) × IsSegment (num 0) entry.1.centerline t u v
          × (is_short u v ≡ false)
          × (best ≡ scored_on entry.1.id t u v)
    unfolding score_links
    score_links-Segment [] best m = absurd m
    score_links-Segment (entry ∷ links) best m =
        elim (Mem-append (score_centerline x y yaw entry.1) (score_links x y yaw links) best m) [
          | inl h ↦
              let (t, u, v, seg, long, e) =
                centerline-Segment entry.1 entry.1.centerline best refl h in
              (entry, inl refl, t, u, v, seg, long, e)
          | inr h ↦
              let (other, n, t, u, v, seg, long, e) = score_links-Segment links best h in
              (other, inr n, t, u, v, seg, long, e)
        ]

    score_links-AllSegments :
        (limit : R) (links : List (String × LinkInfo R))
        → All (λ p. p.score < limit ≡ false) (score_links x y yaw links)
        → All (λ entry. AllSegments (λ u v. badness u v < limit ≡ false) entry.1.centerline) links
    unfolding score_links
    score_links-AllSegments limit [] h = tt
    score_links-AllSegments limit (entry ∷ links) h =
        let (first, rest) =
          append-All (λ p. p.score < limit ≡ false) (score_centerline x y yaw entry.1)
            (score_links x y yaw links) h in
        (
          centerline-AllSegments limit entry.1 entry.1.centerline refl first,
          score_links-AllSegments limit links rest,
        )

    -- If findNearestLink finds a link, the result is the projection of the position on a segment of a
    -- link of the map, with the arc length from the link's start, it lies within the maximal distance,
    -- and no segment of any link that has a direction has a smaller sum of the squared distance and
    -- the penalty of the heading.
    pub find_nearest_link-nearest :
        (laws : IsOrdered R)
        → (map : MGeo R) → (max_distance : R) → (found : LinkProjection R)
        → find_nearest_link map x y yaw max_distance ≡ some found
        → (entry : String × LinkInfo R) × (s : R) × (a : Point2D R) × (b : Point2D R) × Mem entry
            map.links
          × IsSegment (num 0) entry.1.centerline s a b
          × (is_short a b ≡ false)
          × (found ≡ projection_on entry.1.id s a b)
          × (found.distance > max_distance ≡ false)
          × All
              (λ other. AllSegments (λ u v. badness u v < badness a b ≡ false) other.1.centerline)
              map.links
    find_nearest_link-nearest laws map max_distance found e =
        let (best, same, member, least, near) =
          find_nearest_link-IsLeast laws map x y yaw max_distance found e in
        let (entry, n, s, a, b, seg, long, is) = score_links-Segment map.links best member in
        let least_on : All (λ p. p.score < badness a b ≡ false) (score_links x y yaw map.links) =
          subst (λ k. All (λ p. p.score < k ≡ false) (score_links x y yaw map.links))
            (ap score_of_scored is) least in
        (
          entry,
          s,
          a,
          b,
          n,
          seg,
          long,
          same ∙ ap (λ p. p.projection) is,
          near,
          score_links-AllSegments (badness a b) map.links least_on,
        )
