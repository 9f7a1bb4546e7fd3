-- ===== src/Planner/Node/Stops.antt =====
-- When the loop sends a path that stops the vehicle.
use mpc_ws.Prelude.{
  ℕ, suc, ◌≡◌, refl, sym, ap, ◌⊎◌, inl, inr, true, false, ◌||◌, Option, none, some, List, [], ◌∷◌,
  arith, ltb, leb, length,
}
use mpc_ws.Double.{Double}
use Prim.Native.Nat
use mpc_ws.Behavior.Decision.{reason}
use mpc_ws.Planner.Node.{
  Frame, NodeState, VehicleState, after_failure, choose_path, ego_of, is_blocked, node_run,
  node_step, stop_path_of,
}
use mpc_ws.Planner.Plan.{plan}
use mpc_ws.Planner.Settings.{PlannerSettings}
use mpc_ws.Planner.Types.{CartesianPath, PlanFailureReason}

module _ {R : Type 0} ⦃d : Double R⦄ (fuel : ℕ) (settings : PlannerSettings R) where
  -- No path is published for the frame.
  abbrev pub PlanFails : Frame R → NodeState R → Type 0
  PlanFails frame st =
      (plan fuel settings (ego_of frame.vehicle) frame.obstacles st.planner).0 ≡ none

  -- No path is published in any of the cycles.
  abbrev pub AllFail : List (Frame R) → NodeState R → Type 0
  AllFail [] st = Unit
  AllFail (frame ∷ frames) st =
      PlanFails frame st × AllFail frames (node_step fuel settings (some frame) st).1

  -- The reason that Plan gives in this cycle.
  abbrev pub reason_of : Frame R → NodeState R → PlanFailureReason
  reason_of frame st =
      (plan fuel settings (ego_of frame.vehicle) frame.obstacles st.planner).1.last_failure_reason

  failing-streak :
      (frame : Frame R) (st : NodeState R)
      → PlanFails frame st
      → (node_step fuel settings (some frame) st).1.plan_fail_streak ≡ suc st.plan_fail_streak
  unfolding node_step choose_path
  failing-streak frame st p = rw p refl

  run-streak :
      (frames : List (Frame R)) (st : NodeState R)
      → AllFail frames st
      → (node_run fuel settings frames st).plan_fail_streak
        ≡ Nat.◌+◌ (length frames) st.plan_fail_streak
  unfolding node_run
  run-streak [] st p = omega arith
  run-streak (frame ∷ frames) st (p, ps) = omega (
    arith,
    run-streak frames (node_step fuel settings (some frame) st).1 ps,
    failing-streak frame st p,
  )

  after_failure-stop :
      (reason : PlanFailureReason) (streak : ℕ) (vs : VehicleState R)
      (last : Option (CartesianPath R))
      → (is_blocked reason || leb 5 streak) ≡ true
      → after_failure reason (suc streak) vs last ≡ stop_path_of vs
  unfolding after_failure
  after_failure-stop reason streak vs none b = refl
  after_failure-stop reason streak vs (some last) b = ground arith

  -- If Plan fails, the vehicle is stopped where it is in that cycle, if the reason is a collision or the
  -- five cycles before failed too.
  pub failing-stop :
      (frame : Frame R)
      → (st : NodeState R) → PlanFails frame st
      → (is_blocked (reason_of frame st) || leb 5 st.plan_fail_streak) ≡ true
      → (node_step fuel settings (some frame) st).0 ≡ some (stop_path_of frame.vehicle)
  unfolding node_step choose_path
  failing-stop frame st p b = rw p (
      ap some
        (after_failure-stop (reason_of frame st) st.plan_fail_streak frame.vehicle st.last_cp b))

  -- A vehicle whose Plan fails for six cycles in a row, for whatever reasons and from whatever state,
  -- is stopped where it is in the last of them.
  pub run-stop :
      (frames : List (Frame R))
      → (frame : Frame R) → (st : NodeState R) → AllFail frames st
      → leb 5 (length frames) ≡ true
      → PlanFails frame (node_run fuel settings frames st)
      → (node_step fuel settings (some frame) (node_run fuel settings frames st)).0
        ≡ some (stop_path_of frame.vehicle)
  run-stop frames frame st ps n p =
      let after = node_run fuel settings frames st in
      failing-stop frame after p (ground (arith, run-streak frames st ps))

  after_failure-sent :
      (reason : PlanFailureReason) (streak : ℕ) (vs : VehicleState R)
      (last : Option (CartesianPath R)) (path : CartesianPath R)
      → after_failure reason (suc streak) vs last ≡ path
      → (path ≡ stop_path_of vs)
        ⊎ ((last ≡ some path) × (is_blocked reason ≡ false) × (ltb streak 5 ≡ true))
  unfolding after_failure
  after_failure-sent reason streak vs none path e = inl (sym e)
  after_failure-sent reason streak vs (some last) path e = ground arith

  choose_path-sent :
      (planned : Option (CartesianPath R)) (reason : PlanFailureReason) (streak : ℕ)
      (vs : VehicleState R) (last : Option (CartesianPath R)) (path : CartesianPath R)
      → (choose_path planned reason streak vs last).0 ≡ path
      → (planned ≡ some path)
        ⊎ (path ≡ stop_path_of vs)
        ⊎ ((planned ≡ none)
            × (last ≡ some path)
            × (is_blocked reason ≡ false)
            × (ltb streak 5 ≡ true))
  unfolding choose_path
  choose_path-sent (some p) reason streak vs last path e = inl (ap some e)
  choose_path-sent none reason streak vs last path e =
      elim (after_failure-sent reason streak vs last path e) [
        | inl h ↦ inr (inl h)
        | inr (a, b, c) ↦ inr (inr (refl, a, b, c))
      ]

  -- A path that is sent in a cycle with a vehicle state is one that Plan publishes in this cycle, or
  -- stops the vehicle where it is, or is the one sent before, if Plan fails for no collision and has
  -- failed in less than five cycles before.
  pub node_step-sent :
      (frame : Frame R)
      → (st : NodeState R) → (path : CartesianPath R)
      → (node_step fuel settings (some frame) st).0 ≡ some path
      → ((plan fuel settings (ego_of frame.vehicle) frame.obstacles st.planner).0 ≡ some path)
        ⊎ (path ≡ stop_path_of frame.vehicle)
        ⊎ (PlanFails frame st
            × (st.last_cp ≡ some path)
            × (is_blocked (reason_of frame st) ≡ false)
            × (ltb st.plan_fail_streak 5 ≡ true))
  unfolding node_step
  node_step-sent frame st path e =
      let r = plan fuel settings (ego_of frame.vehicle) frame.obstacles st.planner in
      choose_path-sent r.0 r.1.last_failure_reason st.plan_fail_streak frame.vehicle st.last_cp path
        (ground arith)
