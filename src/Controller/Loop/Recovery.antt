-- ===== src/Controller/Loop/Recovery.antt =====
-- A vehicle that stands on a path that goes on: the recovery starts, and only then.
use mpc_ws.Prelude.{
  subst, ℕ, suc, ◌≡◌, refl, sym, ap, ◌∙◌, inl, inr, Bool, true, false, ◌&&◌, Option, none, some,
  List, [], ◌∷◌, ◌++◌, map, arith, Bool-cases, length, last_or, All,
}
use mpc_ws.Double.{Double, max}
use mpc_ws.Controller.Loop.{
  LoopState, control_cycle, ctrl_cmd_of, cycles_of, detect_stuck, ego_state, ego_stopped,
  forward_intent, keep_solution, launch, loop_run, not_stuck, start_recovery, to_reference_path,
}
use mpc_ws.Controller.Loop.Stuck.{cycles_of-positive}
use mpc_ws.Controller.Solver.{solve_mpc}
use mpc_ws.Controller.Types.{CtrlCmd, MpcParams, MpcResult, PlannedPath, ReferencePath, no_control}
use Prim.Native.Nat

module _ {R : Type 0} ⦃d : Double R⦄ (params : MpcParams R) (fuel : ℕ) where
  -- The reference path of a planned path.
  abbrev pub reference_of : PlannedPath R → ReferencePath R
  reference_of pp = to_reference_path fuel pp params.dt params.horizon

  -- The path goes on, and the vehicle stands.
  abbrev pub stuck_on : PlannedPath R → Bool
  stuck_on pp = forward_intent params (reference_of pp) && ego_stopped params pp

  abbrev timeout : ℕ
  timeout = cycles_of params params.stuck_timeout

  abbrev duration : ℕ
  duration = cycles_of params params.stuck_recovery_duration

  -- What the solver finds in a cycle that starts with a state.
  abbrev pub solved : PlannedPath R → LoopState R → MpcResult R
  solved pp st =
      solve_mpc fuel (ego_state params pp) (reference_of pp) st.last_control params st.warm_start

  -- The rest of a cycle, from the state that the test for a deadlock leaves.
  abbrev finish_stuck : Bool → PlannedPath R → LoopState R → CtrlCmd R × LoopState R
  finish_stuck stuck pp checked =
      let res = solved pp checked in
      let (accel_raw, next) =
        launch params stuck res.control.accel (keep_solution params res checked) in
      (ctrl_cmd_of params res.control.delta accel_raw, next)

  -- A cycle, from the test for a deadlock.
  abbrev after_cycle : Bool → PlannedPath R → LoopState R → CtrlCmd R × LoopState R
  after_cycle stuck pp st = finish_stuck stuck pp (detect_stuck params stuck st)

  control_cycle-after :
      (pp : PlannedPath R) (st : LoopState R)
      → control_cycle params fuel pp st ≡ after_cycle (stuck_on pp) pp st
  unfolding control_cycle
  control_cycle-after pp st = refl

  detect_stuck-counting :
      (st : LoopState R)
      → st.recovery_cycles_left ≡ 0
      → Nat.◌<◌ (suc st.stuck_cycles) timeout
      → detect_stuck params true st ≡ record st { stuck_cycles = suc st.stuck_cycles }
  unfolding detect_stuck
  detect_stuck-counting st r l = ground arith

  detect_stuck-timeout :
      (st : LoopState R)
      → st.recovery_cycles_left ≡ 0
      → suc st.stuck_cycles ≡ timeout
      → detect_stuck params true st ≡ start_recovery params st
  unfolding detect_stuck
  detect_stuck-timeout st r l = ground arith

  -- What the rest of a cycle sends and does to the counters, out of a recovery and in its first cycle.
  launch-idle :
      (stuck : Bool) (accel : R) (res : MpcResult R) (st : LoopState R)
      → st.recovery_cycles_left ≡ 0
      → let out = launch params stuck accel (keep_solution params res st) in
        (out.0 ≡ accel) × (out.1.stuck_cycles ≡ st.stuck_cycles) × (out.1.recovery_cycles_left ≡ 0)
  unfolding launch keep_solution
  launch-idle stuck accel res st r = ground arith

  launch-pulse :
      (accel : R) (res : MpcResult R) (st : LoopState R)
      → Nat.◌<◌ 0 st.recovery_cycles_left
      → let out = launch params true accel (keep_solution params res st) in
        (out.0 ≡ max accel params.stuck_launch_accel)
        × (out.1.stuck_cycles ≡ st.stuck_cycles)
        × (out.1.recovery_cycles_left ≡ Nat.◌-◌ st.recovery_cycles_left 1)
        × (out.1.last_control.accel ≡ max accel params.stuck_launch_accel)
  unfolding launch keep_solution
  launch-pulse accel res st r = ground arith

  -- The command of a cycle is what the solver found for its last control and warm start, and the
  -- counters are n and 0 after it.
  abbrev pub IsSolved : PlannedPath R → LoopState R → CtrlCmd R → Type 0
  IsSolved pp st cmd =
      let res = solved pp st in cmd ≡ ctrl_cmd_of params res.control.delta res.control.accel

  abbrev IsIdle : PlannedPath R → LoopState R → ℕ → CtrlCmd R × LoopState R → Type 0
  IsIdle pp st n out =
      IsSolved pp st out.0 × (out.1.stuck_cycles ≡ n) × (out.1.recovery_cycles_left ≡ 0)

  finish_stuck-IsIdle :
      (stuck : Bool) (pp : PlannedPath R) (st : LoopState R)
      → st.recovery_cycles_left ≡ 0
      → IsIdle pp st st.stuck_cycles (finish_stuck stuck pp st)
  finish_stuck-IsIdle stuck pp st r =
      let res = solved pp st in
      let (sent, counted, idle) = launch-idle stuck res.control.accel res st r in
      (ap (ctrl_cmd_of params res.control.delta) sent, counted, idle)

  -- A stuck cycle before the timeout: one more is counted, and nothing else is running.
  count-stuck :
      (pp : PlannedPath R) (st : LoopState R)
      → stuck_on pp ≡ true
      → st.recovery_cycles_left ≡ 0
      → Nat.◌<◌ (suc st.stuck_cycles) timeout
      → IsIdle pp st (suc st.stuck_cycles) (control_cycle params fuel pp st)
  count-stuck pp st e r l =
      let counted = record st { stuck_cycles = suc st.stuck_cycles } in
      let Counts = IsIdle pp st (suc st.stuck_cycles) in
      subst Counts (sym (control_cycle-after pp st ∙ ap (λ b. after_cycle b pp st) e)) (
        subst (λ checked. Counts (finish_stuck true pp checked))
          (sym (detect_stuck-counting st r l)) (finish_stuck-IsIdle true pp counted r))

  -- A cycle that is not stuck: the count and the recovery are over.
  clear-moving :
      (pp : PlannedPath R) (st : LoopState R)
      → stuck_on pp ≡ false
      → IsIdle pp st 0 (control_cycle params fuel pp st)
  unfolding detect_stuck
  clear-moving pp st e =
      subst (IsIdle pp st 0) (sym (control_cycle-after pp st ∙ ap (λ b. after_cycle b pp st) e))
        (finish_stuck-IsIdle false pp (not_stuck params st) refl)

  -- A cycle out of a recovery and before the timeout, stuck or not.
  control_cycle-IsIdle :
      (pp : PlannedPath R) (st : LoopState R)
      → st.recovery_cycles_left ≡ 0
      → Nat.◌<◌ (suc st.stuck_cycles) timeout
      → (n : ℕ) × Nat.◌≤◌ n (suc st.stuck_cycles) × IsIdle pp st n (control_cycle params fuel pp st)
  control_cycle-IsIdle pp st r l = elim (Bool-cases (stuck_on pp)) [
    | inl e ↦ (suc st.stuck_cycles, omega arith, count-stuck pp st e r l)
    | inr e ↦ (0, omega arith, clear-moving pp st e)
  ]

  -- The cycles of a run that starts out of a recovery and is too short for the timeout.
  loop_run-idle :
      (paths : List (Option (PlannedPath R))) (st : LoopState R)
      → st.recovery_cycles_left ≡ 0
      → Nat.◌<◌ (Nat.◌+◌ st.stuck_cycles (length paths)) timeout
      → let next = (loop_run params fuel paths st).1 in
        Nat.◌≤◌ next.stuck_cycles (Nat.◌+◌ st.stuck_cycles (length paths))
        × (next.recovery_cycles_left ≡ 0)
  unfolding loop_run
  loop_run-idle [] st r l = (omega arith, r)
  loop_run-idle (none ∷ paths) st r l =
      let ih = loop_run-idle paths st r (omega (arith, l)) in (omega (arith, ih.0), ih.1)
  loop_run-idle (some pp ∷ paths) st r l =
      let (n, small, after) = control_cycle-IsIdle pp st r (omega (arith, l)) in
      let (_, counted, idle) = after in
      let ih =
        loop_run-idle paths (control_cycle params fuel pp st).1 idle
          (omega (arith, l, small, counted)) in
      (omega (arith, ih.0, small, counted), ih.1)

  -- A cycle that is not stuck sends what the solver found, changed in nothing. In the cycles after it,
  -- as long as they are fewer than the timeout has, no recovery runs and no more stuck cycles are
  -- counted than there were, whatever the paths are, and the next path's command is what the solver
  -- finds for it too: a recovery ends when the vehicle moves, and takes the whole timeout to come back.
  pub loop_run-quiet :
      (pp : PlannedPath R) (paths : List (Option (PlannedPath R))) (last : PlannedPath R)
      (st : LoopState R)
      → stuck_on pp ≡ false
      → Nat.◌<◌ (suc (length paths)) timeout
      → let next = (loop_run params fuel (some pp ∷ paths) st).1 in
        IsSolved pp st (control_cycle params fuel pp st).0
        × Nat.◌≤◌ next.stuck_cycles (length paths)
        × (next.recovery_cycles_left ≡ 0)
        × IsSolved last next (control_cycle params fuel last next).0
  unfolding loop_run
  loop_run-quiet pp paths last st e l =
      let (sent, counted, idle) = clear-moving pp st e in
      let moved = (control_cycle params fuel pp st).1 in
      let ih = loop_run-idle paths moved idle (omega (arith, l, counted)) in
      let next = (loop_run params fuel paths moved).1 in
      let (_, _, after) = control_cycle-IsIdle last next ih.1 (omega (arith, l, counted, ih.0)) in
      (sent, omega (arith, counted, ih.0), ih.1, after.0)

  -- The first pulse of a recovery, with the command that is sent: the count is reset, the pulses of
  -- the duration but one are left, and the command has the steering that the solver found with no
  -- warm start and no last control, and the larger of its acceleration and that of a launch, which is
  -- kept as the last one.
  abbrev pub IsLaunched : PlannedPath R → CtrlCmd R × LoopState R → Type 0
  IsLaunched pp out =
      let res = solve_mpc fuel (ego_state params pp) (reference_of pp) no_control params [] in
      let raised = max res.control.accel params.stuck_launch_accel in
      (out.0 ≡ ctrl_cmd_of params res.control.delta raised)
      × (out.1.stuck_cycles ≡ 0)
      × (out.1.recovery_cycles_left ≡ Nat.◌-◌ duration 1)
      × (out.1.last_control.accel ≡ raised)

  -- The stuck cycle of the timeout: the recovery begins with its first pulse.
  start-stuck :
      (pp : PlannedPath R) (st : LoopState R)
      → stuck_on pp ≡ true
      → st.recovery_cycles_left ≡ 0
      → suc st.stuck_cycles ≡ timeout
      → IsLaunched pp (control_cycle params fuel pp st)
  start-stuck pp st e r l =
      let begun = start_recovery params st in
      let res = solved pp begun in
      let (sent, counted, left, kept) =
        launch-pulse res.control.accel res begun
          (cycles_of-positive params params.stuck_recovery_duration) in
      subst (IsLaunched pp) (sym (control_cycle-after pp st ∙ ap (λ b. after_cycle b pp st) e)) (
        subst (λ checked. IsLaunched pp (finish_stuck true pp checked))
          (sym (detect_stuck-timeout st r l))
          (ap (ctrl_cmd_of params res.control.delta) sent, counted, left, kept))

  -- The last command of a run, and the state after it.
  abbrev pub end_of :
      CtrlCmd R → List (Option (PlannedPath R)) → LoopState R → CtrlCmd R × LoopState R
  end_of before paths st = let run = loop_run params fuel paths st in (last_or before run.0, run.1)

  -- When the vehicle stands on a path that goes on for as many cycles in a row as the timeout has, out
  -- of a recovery and with the cycles counted before, the last of these cycles starts the recovery: it
  -- forgets the warm start and the last control, and its command has the larger of the solver's
  -- acceleration and that of a launch.
  pub loop_run-launches :
      (before : CtrlCmd R) (paths : List (PlannedPath R)) (pp : PlannedPath R) (st : LoopState R)
      → st.recovery_cycles_left ≡ 0
      → All (λ p. stuck_on p ≡ true) paths
      → stuck_on pp ≡ true
      → Nat.◌+◌ st.stuck_cycles (suc (length paths)) ≡ timeout
      → IsLaunched pp (end_of before (map some paths ++ some pp ∷ []) st)
  unfolding loop_run
  loop_run-launches before [] pp st r h e n = start-stuck pp st e r (omega (arith, n))
  loop_run-launches before (p ∷ paths) pp st r (q, h) e n =
      let (_, counted, idle) = count-stuck p st q r (omega (arith, n)) in
      let cycle = control_cycle params fuel p st in
      loop_run-launches cycle.0 paths pp cycle.1 idle h e (omega (arith, n, counted))
