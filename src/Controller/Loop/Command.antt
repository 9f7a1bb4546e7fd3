-- ===== src/Controller/Loop/Command.antt =====
-- The command that the controller sends.
use mpc_ws.Prelude.{
  subst, ℕ, ◌≡◌, refl, ◌⊎◌, inl, inr, true, Option, none, some, List, [], ◌∷◌, leb, Bool-cases, All,
}
use mpc_ws.Double.{Double, ◌/◌, ◌≤◌, ◌≥◌, neg, abs, decimal, num}
use mpc_ws.Double.Laws.{IsOrdered, IsExact, clip_bounds}
use mpc_ws.Controller.Loop.{LoopState, ctrl_cmd_of, loop_run, loop_step, make_stop_command}
use mpc_ws.Controller.Types.{CtrlCmd, MpcParams, PlannedPath}
use mpc_ws.Planner.Tracks.{clip}
use mpc_ws.Prelude.{
  subst, ℕ, ◌≡◌, refl, ◌⊎◌, inl, inr, true, Option, none, some, List, [], ◌∷◌, leb, Bool-cases, All,
}
use mpc_ws.Double.{Double, ◌/◌, ◌≤◌, ◌≥◌, neg, abs, decimal, num}
use mpc_ws.Double.Laws.{IsOrdered, IsExact, clip_bounds}

-- What IEEE 754 gives of the conversion to float: it keeps the order and small integers.
pub record IsFloat (R : Type 0) ⦃d : Double R⦄ : Type 0 where
  pub to_float_mono : (x y : R) → x ≤ y ≡ true → d.to_float x ≤ d.to_float y ≡ true
  pub to_float_num : (n : ℕ) → leb n 1 ≡ true → d.to_float (num n) ≡ num n
  pub to_float_neg : (n : ℕ) → leb n 1 ≡ true → d.to_float (neg (num n)) ≡ neg (num n)

module _ {R : Type 0} ⦃d : Double R⦄ (laws : IsOrdered R) (exact : IsExact R)
    (float : IsFloat R) where
  open laws use {le_of_lt}
  open exact use {num_le, neg_lt}
  open float use {to_float_mono, to_float_num, to_float_neg}

  abbrev WithinUnit : R → Type 0
  WithinUnit x = (num 0 ≤ x ≡ true) × (x ≤ num 1 ≡ true)

  to_float-WithinUnit : (x : R) → WithinUnit x → WithinUnit (d.to_float x)
  to_float-WithinUnit x (low, high) = (
    subst (λ r. r ≤ d.to_float x ≡ true) (to_float_num 0 refl) (to_float_mono (num 0) x low),
    subst (λ r. d.to_float x ≤ r ≡ true) (to_float_num 1 refl) (to_float_mono x (num 1) high),
  )

  -- A pedal's position: none, or a clipped one.
  zero-WithinUnit : WithinUnit (num 0)
  zero-WithinUnit = (num_le 0 0 refl refl, num_le 0 1 refl refl)

  clip-WithinUnit : (x : R) → WithinUnit (clip x (num 0) (num 1))
  clip-WithinUnit x = clip_bounds laws x (num 0) (num 1) (num_le 0 1 refl refl)

  -- The command drives in gear D: both pedals in [0, 1], one of them released, and the steering in
  -- [-1, 1], whatever the solver asks for.
  pub record IsCommand (cmd : CtrlCmd R) : Type 0 where
    pub accel_range : WithinUnit cmd.accel
    pub brake_range : WithinUnit cmd.brake
    pub steer_low : neg (num 1) ≤ cmd.steer ≡ true
    pub steer_high : cmd.steer ≤ num 1 ≡ true
    pub one_pedal : (cmd.accel ≡ num 0) ⊎ (cmd.brake ≡ num 0)
    pub gear_drive : cmd.gear ≡ 4

  ctrl_cmd_of-IsCommand :
      (params : MpcParams R) (delta accel_raw : R) → IsCommand (ctrl_cmd_of params delta accel_raw)
  unfolding ctrl_cmd_of
  ctrl_cmd_of-IsCommand params delta accel_raw =
      let steer_rad = clip delta (neg params.steering_max) params.steering_max in
      let ratio = steer_rad / params.steering_max in
      let held =
        clip_bounds laws ratio (neg (num 1)) (num 1) (le_of_lt _ _ (neg_lt 1 1 refl refl refl)) in
      let steer = clip ratio (neg (num 1)) (num 1) in
      let low =
        subst (λ r. r ≤ d.to_float steer ≡ true) (to_float_neg 1 refl)
          (to_float_mono (neg (num 1)) steer held.0) in
      let high =
        subst (λ r. d.to_float steer ≤ r ≡ true) (to_float_num 1 refl)
          (to_float_mono steer (num 1) held.1) in
      let none = to_float-WithinUnit (num 0) zero-WithinUnit in
      let some = λ (x : R). to_float-WithinUnit (clip x (num 0) (num 1)) (clip-WithinUnit x) in
      elim (Bool-cases (accel_raw ≥ num 0)) [
        | inl e ↦ rw e (record {
          accel_range = some (accel_raw / params.accel_max);
          brake_range = none;
          steer_low = low;
          steer_high = high;
          one_pedal = inr (to_float_num 0 refl);
          gear_drive = refl;
        })
        | inr e ↦ rw e (record {
          accel_range = none;
          brake_range = some (neg accel_raw / abs params.accel_min);
          steer_low = low;
          steer_high = high;
          one_pedal = inl (to_float_num 0 refl);
          gear_drive = refl;
        })
      ]

  make_stop_command-IsCommand :
      (num 0 ≤ decimal {R = R} 3 1 ≡ true)
      → (decimal 3 1 ≤ num {R = R} 1 ≡ true)
      → IsCommand make_stop_command
  unfolding make_stop_command
  make_stop_command-IsCommand low high = record {
    accel_range = zero-WithinUnit;
    brake_range = to_float-WithinUnit (decimal 3 1) (low, high);
    steer_low = le_of_lt _ _ (neg_lt 1 0 refl refl refl);
    steer_high = num_le 0 1 refl refl;
    one_pedal = inl refl;
    gear_drive = refl;
  }

  -- Every command that the loop sends, with a planned path or without, with the solver's success or
  -- its failure and in a recovery, has both pedals in [0, 1] and at least one of them released, the
  -- steering in [-1, 1], and gear D.
  pub loop_run-IsCommand :
      (params : MpcParams R) (fuel : ℕ) (paths : List (Option (PlannedPath R))) (st : LoopState R)
      → (num 0 ≤ decimal {R = R} 3 1 ≡ true)
      → (decimal 3 1 ≤ num {R = R} 1 ≡ true)
      → All IsCommand (loop_run params fuel paths st).0
  unfolding loop_run
  loop_run-IsCommand params fuel [] st low high = tt
  loop_run-IsCommand params fuel (none ∷ paths) st low high =
      (make_stop_command-IsCommand low high, loop_run-IsCommand params fuel paths st low high)
  loop_run-IsCommand params fuel (some pp ∷ paths) st low high = (
    ctrl_cmd_of-IsCommand params _ _,
    loop_run-IsCommand params fuel paths (loop_step params fuel (some pp) st).1 low high,
  )
