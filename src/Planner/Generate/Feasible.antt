-- ===== src/Planner/Generate/Feasible.antt =====
-- The candidates of every mode keep the limits and are free of collisions; those of AVOID also keep
-- the lateral acceleration that their speed and curvature cause.
use mpc_ws.Prelude.{
  subst, ℕ, ◌≡◌, refl, sym, ap, ◌∙◌, ◌⊎◌, inl, inr, Bool, true, false, ◌||◌, Option, none, some,
  List, [], ◌∷◌, arith, Bool-cases, Mem, Mem-append, Mem-map,
}
use mpc_ws.Double.{Double, ◌+◌, ◌-◌, ◌*◌, ◌>◌, abs, num}
use mpc_ws.Prelude.Int.{ℤ}
use mpc_ws.Planner.AvoidPhases.{choose_side}
use mpc_ws.Planner.Collision.{coast_box, coast_times}
use mpc_ws.Planner.Config.{CostWeights}
use mpc_ws.Planner.Contexts.{AvoidanceContext}
use mpc_ws.Planner.Converter.{compute_geometric_path}
use mpc_ws.Planner.Cost.{evaluate_cost, evaluate_costs, select_best_path}
use mpc_ws.Planner.Generate.{
  Generated, compare_sides, filter_by_cartesian_lateral_acceleration, filter_turning, generate,
  generate_adaptive_avoid, generate_once, is_avoid_mode, lateral_accel_margin, side_clearance,
  slow_down, slower, take_side, turns_too_fast,
}
use mpc_ws.Planner.Maneuver.{coast_exempt_id, resolve_maneuver}
use mpc_ws.Planner.Maneuver.Feasible.{IsFeasible, resolve_maneuver-IsFeasible}
use mpc_ws.Planner.Settings.{PlannerSettings}
use mpc_ws.Planner.Types.{FrenetPath, FrenetState, ObjectInfo, PlannerCommand}

module _ {R : Type 0} ⦃d : Double R⦄ where
  -- At no sample is the squared speed times the curvature above the limit.
  abbrev pub TurnsWithin : R → List R → List R → Type 0
  TurnsWithin limit [] kappas = Unit
  TurnsWithin limit (v ∷ speeds) [] = Unit
  TurnsWithin limit (v ∷ speeds) (kappa ∷ kappas) =
      (v * v * abs kappa > limit ≡ false) × TurnsWithin limit speeds kappas

  turns_too_fast-TurnsWithin :
      (limit : R) (speeds kappas : List R)
      → turns_too_fast limit speeds kappas ≡ false
      → TurnsWithin limit speeds kappas
  unfolding turns_too_fast
  turns_too_fast-TurnsWithin limit [] kappas e = tt
  turns_too_fast-TurnsWithin limit (v ∷ speeds) [] e = tt
  turns_too_fast-TurnsWithin limit (v ∷ speeds) (kappa ∷ kappas) e =
      ground (arith, turns_too_fast-TurnsWithin limit speeds kappas)

  -- The limit of the Cartesian lateral acceleration.
  abbrev pub IsSmooth : ℕ → PlannerSettings R → FrenetPath R → Type 0
  IsSmooth fuel settings p =
      TurnsWithin (settings.limits.max_lateral_accel * lateral_accel_margin) p.s_d
        (compute_geometric_path fuel p.s p.d settings.ref).kappa

  filter_turning-valid :
      (fuel : ℕ) (settings : PlannerSettings R) (path : FrenetPath R)
      → (filter_turning fuel settings.ref settings.limits.max_lateral_accel path).valid ≡ true
      → (filter_turning fuel settings.ref settings.limits.max_lateral_accel path ≡ path)
        × IsSmooth fuel settings path
  unfolding filter_turning
  filter_turning-valid fuel settings path v =
      let w =
        turns_too_fast-TurnsWithin (settings.limits.max_lateral_accel * lateral_accel_margin)
          path.s_d (compute_geometric_path fuel path.s path.d settings.ref).kappa in
      ground (arith, w)

  module _ (fuel : ℕ) (settings : PlannerSettings R) (start : FrenetState R)
      (planning : List (ObjectInfo R)) where
    -- Feasible with the planner's settings, for the object that the coast leaves out.
    abbrev pub Feasible : ℤ → FrenetPath R → Type 0
    Feasible exempt_id =
        IsFeasible fuel settings.ref settings.limits planning settings.vehicle_shape
          settings.collision_cfg exempt_id

    -- The costs are no part of it.
    evaluate_cost-Feasible :
        (w : CostWeights R) (target_d : R) (exempt_id : ℤ) (q : FrenetPath R)
        → Feasible exempt_id q
        → Feasible exempt_id (evaluate_cost w target_d q)
    unfolding evaluate_cost coast_box coast_times
    evaluate_cost-Feasible w target_d exempt_id q h = record {
      lateral = h.lateral;
      longitudinal = h.longitudinal;
      curvature = h.curvature;
      clear = record { samples_clear = h.clear.samples_clear; coast_clear = h.clear.coast_clear };
    }

    evaluate_cost-valid :
        (w : CostWeights R) (target_d : R) (q : FrenetPath R)
        → (evaluate_cost w target_d q).valid ≡ q.valid
    unfolding evaluate_cost
    evaluate_cost-valid w target_d q = refl

    generate_once-Feasible :
        (cmd : PlannerCommand R) (target_d : R) (p : FrenetPath R)
        → Mem p (generate_once fuel settings start planning cmd target_d).0
        → p.valid ≡ true
        → Feasible (coast_exempt_id cmd) p
    unfolding generate_once evaluate_costs
    generate_once-Feasible cmd target_d p m v =
        let w = settings.cost_weights in
        let paths =
          (resolve_maneuver fuel start cmd settings.ref settings.path_cfg settings.limits
            settings.lane_width planning settings.vehicle_shape settings.collision_cfg).0 in
        let (q, n, e) = Mem-map (evaluate_cost w target_d) paths p m in
        let was : q.valid ≡ true =
          sym (evaluate_cost-valid w target_d q) ∙ ap (λ x. x.valid) e ∙ v in
        subst (Feasible (coast_exempt_id cmd)) e (
          evaluate_cost-Feasible w target_d (coast_exempt_id cmd) q (
            resolve_maneuver-IsFeasible fuel start cmd settings.ref settings.path_cfg
              settings.limits settings.lane_width planning settings.vehicle_shape
              settings.collision_cfg q n was))

    slow_down-exempt :
        (cmd : PlannerCommand R) (speed : Option R)
        → coast_exempt_id (slow_down fuel settings start planning cmd speed) ≡ coast_exempt_id cmd
    slow_down-exempt cmd none = refl
    slow_down-exempt cmd (some v) = refl

    -- An AVOID candidate that is valid.
    abbrev pub Adaptive : ℤ → FrenetPath R → Type 0
    Adaptive exempt_id p = Feasible exempt_id p × IsSmooth fuel settings p

    generate_adaptive_avoid-Adaptive :
        (cmd : PlannerCommand R) (target_d : R) (avoidance : AvoidanceContext R) (p : FrenetPath R)
        → Mem p
            (generate_adaptive_avoid fuel settings start planning cmd target_d avoidance).candidates
        → p.valid ≡ true
        → Adaptive (coast_exempt_id cmd) p
    unfolding generate_adaptive_avoid filter_by_cartesian_lateral_acceleration
    generate_adaptive_avoid-Adaptive cmd target_d avoidance p m v =
        let speed =
          slower fuel settings start planning cmd
            (select_best_path (generate_once fuel settings start planning cmd target_d).0) in
        let slowed = slow_down fuel settings start planning cmd speed in
        let (q, n, e) =
          Mem-map (filter_turning fuel settings.ref settings.limits.max_lateral_accel)
            (generate_once fuel settings start planning slowed target_d).0 p m in
        let (same, smooth) = filter_turning-valid fuel settings q (ap (λ x. x.valid) e ∙ v) in
        let eq : q ≡ p = sym same ∙ e in
        let feasible = generate_once-Feasible slowed target_d q n (ap (λ x. x.valid) eq ∙ v) in
        subst (Adaptive (coast_exempt_id cmd)) eq
          (subst (λ id. Feasible id q) (slow_down-exempt cmd speed) feasible, smooth)

    take_side-candidates :
        (cmd : PlannerCommand R) (avoidance : AvoidanceContext R) (left_target right_target : R)
        (left right : Generated R) (o : Option Bool) (p : FrenetPath R)
        → Mem p
            (take_side fuel settings start planning cmd avoidance left_target right_target left
              right o).candidates
        → Mem p left.candidates ⊎ Mem p right.candidates
    unfolding take_side
    take_side-candidates cmd avoidance l r left right none p m =
        Mem-append left.candidates right.candidates p m
    take_side-candidates cmd avoidance l r left right (some true) p m = inr m
    take_side-candidates cmd avoidance l r left right (some false) p m = inl m

    compare_sides-Adaptive :
        (cmd : PlannerCommand R) (avoidance : AvoidanceContext R) (p : FrenetPath R)
        → Mem p (compare_sides fuel settings start planning cmd avoidance).candidates
        → p.valid ≡ true
        → Adaptive (coast_exempt_id cmd) p
    unfolding compare_sides
    compare_sides-Adaptive cmd avoidance p m v =
        let clearance = side_clearance fuel settings start planning avoidance in
        let left_target = avoidance.obstacle_d + clearance in
        let right_target = avoidance.obstacle_d - clearance in
        let left_cmd = record cmd { avoidance_d_offset = left_target } in
        let right_cmd = record cmd { avoidance_d_offset = right_target } in
        let left =
          generate_adaptive_avoid fuel settings start planning left_cmd left_target avoidance in
        let right =
          generate_adaptive_avoid fuel settings start planning right_cmd right_target avoidance in
        let side =
          choose_side settings.avoid_cfg (select_best_path left.candidates)
            (select_best_path right.candidates) in
        elim (take_side-candidates cmd avoidance left_target right_target left right side p m) [
          | inl n ↦ generate_adaptive_avoid-Adaptive left_cmd left_target avoidance p n v
          | inr n ↦ generate_adaptive_avoid-Adaptive right_cmd right_target avoidance p n v
        ]

    -- Every valid candidate of a cycle keeps the limits and is free of collisions with the
    -- obstacles that are planned for; one of AVOID also turns within the lateral acceleration.
    pub generate-Feasible :
        (begin_avoidance : Bool)
        → (cmd : PlannerCommand R) → (avoidance : AvoidanceContext R) → (p : FrenetPath R)
        → Mem p (generate fuel settings start planning begin_avoidance cmd avoidance).candidates
        → p.valid ≡ true
        → Feasible (coast_exempt_id cmd) p
          × ((begin_avoidance || is_avoid_mode cmd.mode ≡ false) ⊎ IsSmooth fuel settings p)
    unfolding generate
    generate-Feasible true cmd avoidance p m v =
        let (f, s) = compare_sides-Adaptive cmd avoidance p m v in (f, inr s)
    generate-Feasible false cmd avoidance p m v = elim (Bool-cases (is_avoid_mode cmd.mode)) [
      | inl e ↦
          let (f, s) =
            generate_adaptive_avoid-Adaptive cmd cmd.avoidance_d_offset avoidance p (rw e at m) v in
          (f, inr s)
      | inr e ↦ (generate_once-Feasible cmd (num 0) p (rw e at m) v, inl e)
    ]
