-- ===== src/Planner/Collision/Filter.antt =====
-- What FilterByCollision leaves valid is clear of every obstacle, at every sample and at every time
-- of the coast, and what it rejects names the obstacle.
use mpc_ws.Prelude.{
  ℕ, ◌≡◌, refl, sym, ap, ◌∙◌, ◌↔◌, ◌⊎◌, inl, inr, Bool, true, false, not, ◌||◌, none, some, List,
  [], ◌∷◌, arith, leb, if◌then◌else◌, Bool-cases, Option-cases, length, last_or, All, Any, iota,
}
use mpc_ws.Double.{Double, ◌+◌, ◌-◌, ◌≥◌, abs, decimal, num}
use mpc_ws.Prelude.Int.{ℤ, pos, ◌==ℤ◌}
use mpc_ws.Double.Steps.{steps}
use mpc_ws.Planner.Collision.{
  check_obb_overlap, coast_box, coast_times, filter_path, first_coast_hit, first_overlap,
  first_sample_hit, make_obstacle_box, no_exemption, sample_box,
}
use mpc_ws.Planner.Converter.{compute_geometric_path, item}
use mpc_ws.Planner.Types.{
  CollisionCheckConfig, FrenetPath, GeometricPath, ObjectInfo, OrientedBox, RefLine,
  RejectionReason, VehicleShape,
}
use Prim.Native.Nat

module _ {R : Type 0} ⦃d : Double R⦄ where
  -- The box overlaps no obstacle but the exempt ones, as they are predicted at time t.
  abbrev pub IsClear : (ObjectInfo R → Bool) → OrientedBox R → R → List (ObjectInfo R) → Type 0
  IsClear exempt box t =
      All
        λ obj. (exempt obj || not (check_obb_overlap box (make_obstacle_box obj t (num 0)))) ≡ true

  pub first_overlap-IsClear :
      (exempt : ObjectInfo R → Bool) (box : OrientedBox R) (t : R) (objs : List (ObjectInfo R))
      → (first_overlap exempt box t objs ≡ none) ↔ IsClear exempt box t objs
  unfolding first_overlap
  first_overlap-IsClear exempt box t [] = (λ _. tt, λ _. refl)
  first_overlap-IsClear exempt box t (obj ∷ objs) =
      let ih = first_overlap-IsClear exempt box t objs in
      (λ e. ground (arith, ih.0), λ h. ground (arith, ih.1))

  -- The object that is found is one of the obstacles.
  pub Mem-first_overlap :
      (exempt : ObjectInfo R → Bool) (box : OrientedBox R) (t : R) (objs : List (ObjectInfo R))
      → (id : ℤ) → first_overlap exempt box t objs ≡ some id
      → Any (λ obj. obj.id ≡ id) objs
  unfolding first_overlap
  Mem-first_overlap exempt box t [] id e = cc
  Mem-first_overlap exempt box t (obj ∷ objs) id e =
      ground (arith, Mem-first_overlap exempt box t objs id)

  abbrev pub SamplesClear :
      VehicleShape R
      → CollisionCheckConfig R
      → GeometricPath R
      → List R
      → List (ObjectInfo R)
      → List ℕ
      → Type 0
  SamplesClear shape cfg geo ts objs =
      All λ i. IsClear no_exemption (sample_box shape cfg geo ts i) (item ts i) objs

  abbrev pub CoastClear :
      (R → OrientedBox R) → (ObjectInfo R → Bool) → List (ObjectInfo R) → List R → Type 0
  CoastClear box exempt objs = All λ t. IsClear exempt (box t) t objs

  first_sample_hit-Clear :
      (shape : VehicleShape R) (cfg : CollisionCheckConfig R) (geo : GeometricPath R) (ts : List R)
      (objs : List (ObjectInfo R)) (is : List ℕ)
      → (first_sample_hit shape cfg geo ts objs is ≡ none) ↔ SamplesClear shape cfg geo ts objs is
  unfolding first_sample_hit
  first_sample_hit-Clear shape cfg geo ts objs [] = (λ _. tt, λ _. refl)
  first_sample_hit-Clear shape cfg geo ts objs (i ∷ is) =
      let here =
        first_overlap-IsClear no_exemption (sample_box shape cfg geo ts i) (item ts i) objs in
      let later = first_sample_hit-Clear shape cfg geo ts objs is in
      (λ e. ground (arith, here.0, later.0), λ h. ground (arith, here.1, later.1))

  pub first_coast_hit-Clear :
      (box : R → OrientedBox R) (exempt : ObjectInfo R → Bool) (objs : List (ObjectInfo R))
      (ts : List R)
      → (first_coast_hit box exempt objs ts ≡ none) ↔ CoastClear box exempt objs ts
  unfolding first_coast_hit
  first_coast_hit-Clear box exempt objs [] = (λ _. tt, λ _. refl)
  first_coast_hit-Clear box exempt objs (t ∷ ts) =
      let here = first_overlap-IsClear exempt (box t) t objs in
      let later = first_coast_hit-Clear box exempt objs ts in
      (λ e. ground (arith, here.0, later.0), λ h. ground (arith, here.1, later.1))

  Mem-first_sample_hit :
      (shape : VehicleShape R) (cfg : CollisionCheckConfig R) (geo : GeometricPath R) (ts : List R)
      (objs : List (ObjectInfo R)) (is : List ℕ) (hit : ℤ × ℕ)
      → first_sample_hit shape cfg geo ts objs is ≡ some hit
      → Any (λ obj. obj.id ≡ hit.0) objs
  unfolding first_sample_hit
  Mem-first_sample_hit shape cfg geo ts objs [] hit e = cc
  Mem-first_sample_hit shape cfg geo ts objs (i ∷ is) hit e = ground (
    arith,
    Mem-first_overlap no_exemption (sample_box shape cfg geo ts i) (item ts i) objs hit.0,
    Mem-first_sample_hit shape cfg geo ts objs is hit,
  )

  Mem-first_coast_hit :
      (box : R → OrientedBox R) (exempt : ObjectInfo R → Bool) (objs : List (ObjectInfo R))
      (ts : List R) (id : ℤ)
      → first_coast_hit box exempt objs ts ≡ some id
      → Any (λ obj. obj.id ≡ id) objs
  unfolding first_coast_hit
  Mem-first_coast_hit box exempt objs [] id e = cc
  Mem-first_coast_hit box exempt objs (t ∷ ts) id e =
      ground (
        arith,
        Mem-first_overlap exempt (box t) t objs id,
        Mem-first_coast_hit box exempt objs ts id,
      )

  module _ (fuel : ℕ) (ref : RefLine R) (objs : List (ObjectInfo R)) (shape : VehicleShape R)
      (cfg : CollisionCheckConfig R) (exempt_id : ℤ) (path : FrenetPath R) where
    -- The time between the first two samples, or 0.1 seconds for a single one.
    abbrev pub coast_dt : R
    coast_dt = if leb 2 (length path.t) then item path.t 1 - item path.t 0 else decimal 1 1

    -- From one time step after the last sample until the lookahead, the vehicle that goes on at its
    -- last speed and offset overlaps no obstacle but the exempt one. A candidate without samples, and
    -- one whose last speed is below 0.1, does not go on.
    abbrev pub IsCoastClear : Type 0
    IsCoastClear =
        (length path.t ≡ 0)
        ⊎ (abs (last_or (num 0) path.s_d) ≥ decimal 1 1 ≡ false)
        ⊎ CoastClear (coast_box fuel ref shape cfg path) (λ obj. obj.id ==ℤ exempt_id) objs
            (steps fuel (last_or (num 0) path.t + coast_dt) coast_dt
              (cfg.reactive_lookahead + decimal 1 9))

    pub coast_times-IsCoastClear :
        CoastClear
          (coast_box fuel ref shape cfg path)
          (λ obj. obj.id ==ℤ exempt_id)
          objs
          (coast_times fuel cfg path)
        ↔ IsCoastClear
    unfolding coast_times
    coast_times-IsCoastClear = (λ h. ground arith, λ h. ground arith)

    -- The candidate is clear at each of its samples, and, but for the exempt object, at each time of
    -- its coast.
    pub record IsCollisionFree : Type 0 where
      pub samples_clear :
          SamplesClear shape cfg
            (compute_geometric_path fuel path.s path.d ref)
            path.t
            objs
            (iota (length path.t))
      pub coast_clear : IsCoastClear

    -- A candidate is valid after the filter exactly when it was valid before, no obstacle overlaps
    -- it at any sample, and none but the exempt one overlaps its coast: from one time step after the
    -- last sample until the lookahead, if it has samples and its last speed is at least 0.1.
    pub filter_path-IsCollisionFree :
        ((filter_path fuel ref objs shape cfg exempt_id path).valid ≡ true)
        ↔ ((path.valid ≡ true) × IsCollisionFree)
    unfolding filter_path
    filter_path-IsCollisionFree =
        let geo = compute_geometric_path fuel path.s path.d ref in
        let on = first_sample_hit-Clear shape cfg geo path.t objs (iota (length path.t)) in
        let off =
          first_coast_hit-Clear (coast_box fuel ref shape cfg path) (λ obj. obj.id ==ℤ exempt_id)
            objs (coast_times fuel cfg path) in
        (
          λ e. ground (arith, on.0, off.0, coast_times-IsCoastClear.0),
          λ h.
              ground
                (arith, on.1 h.1.samples_clear, off.1 (coast_times-IsCoastClear.1 h.1.coast_clear)),
        )

    -- The filter leaves a candidate as it is, or marks it invalid for a collision with one of the
    -- obstacles and changes nothing else.
    pub filter_path_cases :
        (filter_path fuel ref objs shape cfg exempt_id path ≡ path)
        ⊎ ((id : ℤ) × (index : ℕ) × (path.valid ≡ true)
            × Any (λ obj. obj.id ≡ id) objs
            × (filter_path fuel ref objs shape cfg exempt_id path ≡ record path {
              valid = false;
              rejection_reason = RejectionReason.collision;
              collision_object_id = id;
              collision_sample_index = pos index;
            }))
    unfolding filter_path
    filter_path_cases =
        let geo = compute_geometric_path fuel path.s path.d ref in
        let on = first_sample_hit shape cfg geo path.t objs (iota (length path.t)) in
        let exempt : ObjectInfo R → Bool = λ obj. obj.id ==ℤ exempt_id in
        let box = coast_box fuel ref shape cfg path in
        let off = first_coast_hit box exempt objs (coast_times fuel cfg path) in
        elim (Bool-cases path.valid) [
          | inr v ↦ inl (ground arith)
          | inl v ↦ elim (Option-cases on) [
            | inr (hit, e) ↦ inr (
              hit.0,
              hit.1,
              v,
              Mem-first_sample_hit shape cfg geo path.t objs _ hit e,
              ground arith,
            )
            | inl e ↦ elim (Option-cases off) [
              | inl e' ↦ inl (ground arith)
              | inr (id, e') ↦ inr (
                id,
                Nat.◌-◌ (length path.t) 1,
                v,
                Mem-first_coast_hit box exempt objs (coast_times fuel cfg path) id e',
                ground arith,
              )
            ]
          ]
        ]

    -- What the filter leaves valid it leaves as it was.
    pub filter_path-same :
        (filter_path fuel ref objs shape cfg exempt_id path).valid ≡ true
        → filter_path fuel ref objs shape cfg exempt_id path ≡ path
    filter_path-same v = elim filter_path_cases [
      | inl e ↦ e
      | inr (id, index, w, k, e) ↦ let bad : true ≡ false = sym v ∙ ap (λ q. q.valid) e in cc
    ]
