-- ===== src/Planner/Node.antt =====
-- The control loop of frenet_planner/src/main.cpp: which path is sent in a cycle. The vehicle state and
-- the obstacles are what the UDP receiver hands over; `none` is a cycle without a fresh state.
pub mod Stops
use mpc_ws.Prelude.{
  subst, range_from, Mem-filter, ℕ, zero, suc, ◌≡◌, refl, sym, ap, ◌∙◌, ◌≢◌, ◌↔◌, ◌⊎◌, inl, inr,
  Bool, true, false, not, ◌&&◌, ◌||◌, Option, none, some, List, [], ◌∷◌, ◌++◌, map, arith, ltb, leb,
  ◌==◌, if◌then◌else◌, Bool-cases, Option-cases, is_some, true≢false, &&_split, length, get_elem?,
  get_or, last_or, head_or, drop, take, All, Any, length-map, All-map, All-of, iota, length-iota,
  filter, Mem, filter_map, Whenever, Mem-filter_map, All-filter_map, Any-map, is_empty, concat_map,
  Mem-append, Mem-map, Mem-concat_map, Any-Mem, All-Mem,
}
use mpc_ws.Double.{
  Double, ◌+◌, ◌-◌, ◌*◌, ◌/◌, ◌<◌, ◌≤◌, ◌>◌, ◌≥◌, neg, abs, decimal, num, max, min, clamp,
}
use mpc_ws.Double.Laws.{
  IsOrdered, IsExact, IsNumber, min_le_left, min_le_right, le_max_left, le_max_right, clamp_bounds,
  exact_limit,
}
use mpc_ws.Prelude.Int.{
  ℤ, pos, negsuc, minus_one, is_negative, ◌==ℤ◌, ==ℤ_iff, ltb_ℤ, leb_ℤ, ◌+ℤ◌, sub_ℕ, pos_part,
  neg_part,
}
use mpc_ws.Behavior.Decision.{reason}
use mpc_ws.Planner.Plan.{plan}
use mpc_ws.Planner.Settings.{PlannerSettings, PlannerState}
use mpc_ws.Planner.Types.{CartesianPath, CartesianState, ObjectInfo, PlanFailureReason}
use mpc_ws.Prelude.{
  subst, range_from, Mem-filter, ℕ, zero, suc, ◌≡◌, refl, sym, ap, ◌∙◌, ◌≢◌, ◌↔◌, ◌⊎◌, inl, inr,
  Bool, true, false, not, ◌&&◌, ◌||◌, Option, none, some, List, [], ◌∷◌, ◌++◌, map, arith, ltb, leb,
  ◌==◌, if◌then◌else◌, Bool-cases, Option-cases, is_some, true≢false, &&_split, length, get_elem?,
  get_or, last_or, head_or, drop, take, All, Any, length-map, All-map, All-of, iota, length-iota,
  filter, Mem, filter_map, Whenever, Mem-filter_map, All-filter_map, Any-map, is_empty, concat_map,
  Mem-append, Mem-map, Mem-concat_map, Any-Mem, All-Mem,
}
use mpc_ws.Double.{
  Double, ◌+◌, ◌-◌, ◌*◌, ◌/◌, ◌<◌, ◌≤◌, ◌>◌, ◌≥◌, neg, abs, decimal, num, max, min, clamp,
}
use mpc_ws.Double.Laws.{
  IsOrdered, IsExact, IsNumber, min_le_left, min_le_right, le_max_left, le_max_right, clamp_bounds,
  exact_limit,
}
use mpc_ws.Prelude.Int.{
  ℤ, pos, negsuc, minus_one, is_negative, ◌==ℤ◌, ==ℤ_iff, ltb_ℤ, leb_ℤ, ◌+ℤ◌, sub_ℕ, pos_part,
  neg_part,
}

pub record VehicleState (R : Type 0) : Type 0 where
  pub x : R
  pub y : R
  pub yaw : R
  pub v : R
  pub steer : R
  pub accel : R

pub record Frame (R : Type 0) : Type 0 where
  pub vehicle : VehicleState R
  pub obstacles : List (ObjectInfo R)

-- The variables of main: `last_cp` with `has_last_cp`, and `last_vehicle_state` with its flag.
pub record NodeState (R : Type 0) : Type 0 where
  pub planner : PlannerState R
  pub plan_fail_streak : ℕ
  pub last_cp : Option (CartesianPath R)
  pub last_vehicle_state : Option (VehicleState R)

-- `last_failure_reason() == COLLISION_BLOCKED`
abbrev pub is_blocked : PlanFailureReason → Bool
is_blocked PlanFailureReason.collision_blocked = true
is_blocked _ = false

abbrev pub max_transient_fail_cycles : ℕ
max_transient_fail_cycles = 5

module _ {R : Type 0} ⦃d : Double R⦄ where
  -- MakeStopPath: one sample with no speed.
  unfoldable pub make_stop_path : R → R → R → CartesianPath R
  make_stop_path x y yaw = record {
    x = x ∷ [];
    y = y ∷ [];
    yaw = yaw ∷ [];
    kappa = num 0 ∷ [];
    v = num 0 ∷ [];
    a = num 0 ∷ [];
  }

  abbrev pub stop_path_of : VehicleState R → CartesianPath R
  stop_path_of vs = make_stop_path vs.x vs.y vs.yaw

  abbrev pub ego_of : VehicleState R → CartesianState R
  ego_of vs = record { x = vs.x; y = vs.y; yaw = vs.yaw; kappa = num 0; v = vs.v; a = vs.accel }

  -- The path after a failure: the last one, for a few cycles and not for a collision, or a stop.
  unfoldable pub after_failure :
      PlanFailureReason → ℕ → VehicleState R → Option (CartesianPath R) → CartesianPath R
  after_failure reason streak vs none = stop_path_of vs
  after_failure reason streak vs (some last) =
      if is_blocked reason
      then stop_path_of vs
      else if leb streak max_transient_fail_cycles
      then last
      else stop_path_of vs

  -- The path to send, with the new streak.
  unfoldable pub choose_path :
      Option (CartesianPath R)
      → PlanFailureReason
      → ℕ
      → VehicleState R
      → Option (CartesianPath R)
      → CartesianPath R × ℕ
  choose_path (some path) reason streak vs last = (path, 0)
  choose_path none reason streak vs last = (after_failure reason (suc streak) vs last, suc streak)

  -- A cycle: the path that is sent, if any, and the new state. `last_cp` is always the path sent.
  unfoldable pub node_step :
      ℕ
      → PlannerSettings R
      → Option (Frame R)
      → NodeState R
      → Option (CartesianPath R) × NodeState R
  node_step fuel settings none st = elim st.last_vehicle_state [
    | none ↦ (none, st)
    | some vs ↦ (some (stop_path_of vs), st)
  ]
  node_step fuel settings (some frame) st =
      let vs = frame.vehicle in
      let (planned, planner) = plan fuel settings (ego_of vs) frame.obstacles st.planner in
      let (path, streak) =
        choose_path planned planner.last_failure_reason st.plan_fail_streak vs st.last_cp in
      (
        some path,
        record {
          planner = planner;
          plan_fail_streak = streak;
          last_cp = some path;
          last_vehicle_state = some vs;
        },
      )

  -- The state after some cycles with a fresh vehicle state.
  unfoldable pub node_run : ℕ → PlannerSettings R → List (Frame R) → NodeState R → NodeState R
  node_run fuel settings [] st = st
  node_run fuel settings (frame ∷ frames) st =
      node_run fuel settings frames (node_step fuel settings (some frame) st).1
