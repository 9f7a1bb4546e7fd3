-- ===== src/Controller/Loop/Stuck.antt =====
-- The deadlock detector: when it starts a recovery, and that it does.
use mpc_ws.Prelude.{ℕ, ◌≡◌, refl, ◌⊎◌, inl, Bool, ◌&&◌, Option, none, some, List, [], ◌∷◌, arith}
use mpc_ws.Double.{Double}
use mpc_ws.Controller.Loop.{
  LoopState, control_cycle, cycles_of, detect_stuck, ego_state, ego_stopped, forward_intent,
  initial_loop, keep_solution, launch, loop_run, to_reference_path,
}
use mpc_ws.Controller.Solver.{solve_mpc}
use mpc_ws.Controller.Types.{MpcParams, MpcResult, PlannedPath}
use Prim.Native.Nat

module _ {R : Type 0} ⦃d : Double R⦄ (params : MpcParams R) where
  -- The counter of stuck cycles is below its limit, a recovery is not longer than its duration, and at
  -- most one of the two counters runs.
  pub record IsValidLoop (st : LoopState R) : Type 0 where
    pub waiting : Nat.◌<◌ st.stuck_cycles (cycles_of params params.stuck_timeout)
    pub recovering :
        Nat.◌≤◌ st.recovery_cycles_left (cycles_of params params.stuck_recovery_duration)
    pub one_runs : (st.stuck_cycles ≡ 0) ⊎ (st.recovery_cycles_left ≡ 0)

  pub cycles_of-positive : (t : R) → Nat.◌<◌ 0 (cycles_of params t)
  unfolding cycles_of
  cycles_of-positive t = ground arith

  detect_stuck-IsValidLoop :
      (stuck : Bool) (st : LoopState R)
      → IsValidLoop st
      → IsValidLoop (detect_stuck params stuck st)
  unfolding detect_stuck
  detect_stuck-IsValidLoop stuck st v = ground (
    arith,
    cycles_of-positive params.stuck_timeout,
    cycles_of-positive params.stuck_recovery_duration,
  )

  launch-IsValidLoop :
      (stuck : Bool) (accel : R) (st : LoopState R)
      → IsValidLoop st
      → IsValidLoop (launch params stuck accel st).1
  unfolding launch
  launch-IsValidLoop stuck accel st v = ground arith

  keep_solution-IsValidLoop :
      (res : MpcResult R) (st : LoopState R)
      → IsValidLoop st
      → IsValidLoop (keep_solution params res st)
  unfolding keep_solution
  keep_solution-IsValidLoop res st v = ground arith

  -- A cycle that a planned path drives keeps the counters in their limits.
  control_cycle-IsValidLoop :
      (fuel : ℕ) (pp : PlannedPath R) (st : LoopState R)
      → IsValidLoop st
      → IsValidLoop (control_cycle params fuel pp st).1
  unfolding control_cycle
  control_cycle-IsValidLoop fuel pp st v =
      let ref = to_reference_path fuel pp params.dt params.horizon in
      let stuck = forward_intent params ref && ego_stopped params pp in
      let checked = detect_stuck params stuck st in
      let res =
        solve_mpc fuel (ego_state params pp) ref checked.last_control params checked.warm_start in
      launch-IsValidLoop stuck res.control.accel (keep_solution params res checked)
        (keep_solution-IsValidLoop res checked (detect_stuck-IsValidLoop stuck st v))

  run-IsValidLoop :
      (fuel : ℕ) (paths : List (Option (PlannedPath R))) (st : LoopState R)
      → IsValidLoop st
      → IsValidLoop (loop_run params fuel paths st).1
  unfolding loop_run
  run-IsValidLoop fuel [] st v = v
  run-IsValidLoop fuel (none ∷ paths) st v = run-IsValidLoop fuel paths st v
  run-IsValidLoop fuel (some pp ∷ paths) st v =
      run-IsValidLoop fuel paths (control_cycle params fuel pp st).1
        (control_cycle-IsValidLoop fuel pp st v)

  -- After every run of the loop from its start, the counter of stuck cycles is below the timeout, the
  -- recovery is not longer than its duration, and at most one of the two is running.
  pub loop_run-IsValidLoop :
      (fuel : ℕ) (paths : List (Option (PlannedPath R)))
      → IsValidLoop (loop_run params fuel paths initial_loop).1
  loop_run-IsValidLoop fuel paths = run-IsValidLoop fuel paths initial_loop (record {
    waiting = cycles_of-positive params.stuck_timeout;
    recovering = ground arith;
    one_runs = inl refl;
  })
