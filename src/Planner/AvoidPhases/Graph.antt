-- ===== src/Planner/AvoidPhases/Graph.antt =====
-- The phases of AVOID as a diagram.
use mpc_ws.Prelude.{
  ℕ, ◌≡◌, refl, ◌⊎◌, inl, inr, Bool, true, false, Option, none, some, List, [], ◌∷◌, arith,
  if◌then◌else◌,
}
use mpc_ws.Double.{Double, ◌-◌, ◌≤◌}
use mpc_ws.Planner.AvoidPhases.{advance_phase, refresh_obstacle, update_avoidance}
use mpc_ws.Planner.Avoidance.{StaticObstacleTarget}
use mpc_ws.Planner.Config.{AvoidConfig}
use mpc_ws.Planner.Contexts.{AvoidPhase, AvoidanceContext}
use mpc_ws.Planner.Types.{ObjectInfo, RefLine, VehicleShape}

-- What the context stands for: no obstacle, or the phase.
pub data Stage : Type 0 where
  idle tracking shift pass : Stage

abbrev pub stage_of_phase : AvoidPhase → Stage
stage_of_phase AvoidPhase.tracking = Stage.tracking
stage_of_phase AvoidPhase.shift = Stage.shift
stage_of_phase AvoidPhase.pass = Stage.pass

abbrev pub stage : {R : Type 0} → AvoidanceContext R → Stage
stage ctx = if ctx.active then stage_of_phase ctx.phase else Stage.idle

-- The edges of one update: an obstacle is found, kept, reached or passed, and a passed one may be
-- replaced by the next one.
infix 40 ◌⟶◌
pub data ◌⟶◌ : Stage → Stage → Type 0 where
  rest : {a : Stage} → a ⟶ a
  detect : Stage.idle ⟶ Stage.tracking
  reach : Stage.shift ⟶ Stage.pass
  shift_done : Stage.shift ⟶ Stage.idle
  pass_done : Stage.pass ⟶ Stage.idle
  shift_next : Stage.shift ⟶ Stage.tracking
  pass_next : Stage.pass ⟶ Stage.tracking

-- The same diagram as a test.
abbrev pub is_edge : Stage → Stage → Bool
is_edge Stage.idle Stage.idle = true
is_edge Stage.idle Stage.tracking = true
is_edge Stage.tracking Stage.tracking = true
is_edge Stage.shift _ = true
is_edge Stage.pass Stage.shift = false
is_edge Stage.pass _ = true
is_edge _ _ = false

edge_of : (a b : Stage) → is_edge a b ≡ true → a ⟶ b
edge_of Stage.idle Stage.idle p = rest
edge_of Stage.idle Stage.tracking p = detect
edge_of Stage.idle Stage.shift p = absurd (ground arith)
edge_of Stage.idle Stage.pass p = absurd (ground arith)
edge_of Stage.tracking Stage.idle p = absurd (ground arith)
edge_of Stage.tracking Stage.tracking p = rest
edge_of Stage.tracking Stage.shift p = absurd (ground arith)
edge_of Stage.tracking Stage.pass p = absurd (ground arith)
edge_of Stage.shift Stage.idle p = shift_done
edge_of Stage.shift Stage.tracking p = shift_next
edge_of Stage.shift Stage.shift p = rest
edge_of Stage.shift Stage.pass p = reach
edge_of Stage.pass Stage.idle p = pass_done
edge_of Stage.pass Stage.tracking p = pass_next
edge_of Stage.pass Stage.shift p = absurd (ground arith)
edge_of Stage.pass Stage.pass p = rest

phase_cases :
    (p : AvoidPhase) → (p ≡ AvoidPhase.tracking) ⊎ ((p ≡ AvoidPhase.shift) ⊎ (p ≡ AvoidPhase.pass))
phase_cases AvoidPhase.tracking = inl refl
phase_cases AvoidPhase.shift = inr (inl refl)
phase_cases AvoidPhase.pass = inr (inr refl)

module _ {R : Type 0} ⦃d : Double R⦄ where
  -- A new frame moves the obstacle and changes no phase.
  refresh_obstacle-stage :
      (fuel : ℕ)
      → (ref : RefLine R) → (ctx : AvoidanceContext R) → (objs : List (ObjectInfo R))
      → ((refresh_obstacle fuel ref ctx objs).active ≡ ctx.active)
        × ((refresh_obstacle fuel ref ctx objs).phase ≡ ctx.phase)
  unfolding refresh_obstacle
  refresh_obstacle-stage fuel ref ctx [] = (refl, refl)
  refresh_obstacle-stage fuel ref ctx (obj ∷ objs) =
      let ih = refresh_obstacle-stage fuel ref ctx objs in ground (arith, ih)

  next_stage :
      (cfg : AvoidConfig R)
      → (shape : VehicleShape R) → (s e : R) → (refresh : AvoidanceContext R → AvoidanceContext R)
      → (ctx : AvoidanceContext R) → (target : Option (StaticObstacleTarget R))
      → (refresh ctx).active ≡ ctx.active
      → (refresh ctx).phase ≡ ctx.phase
      → is_edge (stage ctx) (stage (update_avoidance cfg shape s e refresh target ctx).0) ≡ true
  unfolding update_avoidance advance_phase
  next_stage cfg shape s e refresh ctx none p q = ground (arith, phase_cases ctx.phase)
  next_stage cfg shape s e refresh ctx (some target) p q = ground (arith, phase_cases ctx.phase)

  -- One cycle of the AVOID context follows an edge of the diagram, whatever the frame holds: SHIFT is
  -- never entered by it (only the comparison of the two sides enters it), and PASS only from SHIFT.
  pub update_avoidance-edge :
      (fuel : ℕ)
      → (ref : RefLine R) → (objs : List (ObjectInfo R)) → (cfg : AvoidConfig R)
      → (shape : VehicleShape R) → (s e : R) → (ctx : AvoidanceContext R)
      → (target : Option (StaticObstacleTarget R))
      → stage ctx
        ⟶ stage
            (update_avoidance cfg shape s e (λ c. refresh_obstacle fuel ref c objs) target ctx).0
  update_avoidance-edge fuel ref objs cfg shape s e ctx target =
      let (active, phase) = refresh_obstacle-stage fuel ref ctx objs in
      let refresh : AvoidanceContext R → AvoidanceContext R =
        λ c. refresh_obstacle fuel ref c objs in
      edge_of _ _ (next_stage cfg shape s e refresh ctx target active phase)

  -- The comparison of the two sides is asked for only of a tracked obstacle that the refreshed
  -- context has within the shift distance, and the context is then kept for it.
  pub update_avoidance-begin :
      (cfg : AvoidConfig R)
      → (shape : VehicleShape R) → (s e : R) → (refresh : AvoidanceContext R → AvoidanceContext R)
      → (target : Option (StaticObstacleTarget R)) → (ctx : AvoidanceContext R)
      → let after = update_avoidance cfg shape s e refresh target ctx in
        after.1 ≡ true
        → (ctx.active ≡ true)
          × ((refresh ctx).phase ≡ AvoidPhase.tracking)
          × ((refresh ctx).obstacle_s - s ≤ cfg.shift_start_distance ≡ true)
  unfolding update_avoidance advance_phase
  update_avoidance-begin cfg shape s e refresh target ctx p =
      ground (arith, phase_cases (refresh ctx).phase)
