-- ===== src/Planner/Plan/Ends.antt =====
-- What the end of a cycle publishes: one of its candidates, as it is or extended.
use mpc_ws.Prelude.{
  subst, ℕ, ◌≡◌, refl, sym, ◌⊎◌, inl, inr, Bool, true, false, ◌&&◌, Option, none, some, List, arith,
  if◌then◌else◌, Mem,
}
use mpc_ws.Double.{Double}
use mpc_ws.Behavior.Decision.{candidates}
use mpc_ws.Planner.Contexts.{MergeContext}
use mpc_ws.Planner.Converter.{convert_to_cartesian_path}
use mpc_ws.Planner.Cost.{select_best_path}
use mpc_ws.Planner.Cost.Best.{select_best_path-Mem}
use mpc_ws.Planner.Locked.Recheck.{IsTrajectoryClear}
use mpc_ws.Planner.Merge.Commit.{
  CycleEnd, Extension, count_valid, end_cycle, finish_cycle, full_path, validate_candidates,
}
use mpc_ws.Planner.Merge.Commit.Locking.{Mem-validated}
use mpc_ws.Planner.Types.{
  CartesianPath, CollisionCheckConfig, FrenetPath, ObjectInfo, RefLine, VehicleShape,
}

module _ {R : Type 0} ⦃d : Double R⦄ where
  end_cycle-published :
      (fuel : ℕ)
      → (ref : RefLine R) → (ext : Extension R) → (s stop_s : R) → (pending : Bool)
      → (after_curvature after_collision : ℕ) → (ctx after : MergeContext R)
      → (path : CartesianPath R) → (o : Option (FrenetPath R))
      → end_cycle fuel ref ext s stop_s pending after_curvature after_collision ctx o
        ≡ CycleEnd.publish path after
      → (b : FrenetPath R) × (o ≡ some b)
        × (((pending ≡ false) × (path ≡ convert_to_cartesian_path fuel b ref))
            ⊎ ((pending ≡ true) × (path ≡ full_path fuel ref ext b)))
  unfolding end_cycle
  end_cycle-published fuel ref ext s stop_s pending n k ctx after path none e = cc
  end_cycle-published fuel ref ext s stop_s true n k ctx after path (some b) e =
      (b, refl, inr (refl, ground arith))
  end_cycle-published fuel ref ext s stop_s false n k ctx after path (some b) e =
      (b, refl, inl (refl, ground arith))

  -- A published path is a valid candidate of the cycle as it is, or its extension through the
  -- conflict zone, which is then clear of every obstacle at every sample.
  pub IsEnd :
      ℕ
      → RefLine R
      → Extension R
      → List (ObjectInfo R)
      → VehicleShape R
      → CollisionCheckConfig R
      → FrenetPath R
      → CartesianPath R
      → Type 0
  IsEnd fuel ref ext objs shape collision b path =
      (path ≡ convert_to_cartesian_path fuel b ref)
      ⊎ ((path ≡ full_path fuel ref ext b) × IsTrajectoryClear path objs shape collision ext.dt)

  chosen-IsEnd :
      (fuel : ℕ)
      → (ref : RefLine R) → (ext : Extension R) → (objs : List (ObjectInfo R))
      → (shape : VehicleShape R) → (collision : CollisionCheckConfig R) → (pending : Bool)
      → (candidates : List (FrenetPath R)) → (b : FrenetPath R) → (path : CartesianPath R)
      → Mem b (validate_candidates fuel ref ext objs shape collision pending candidates)
      → b.valid ≡ true
      → ((pending ≡ false) × (path ≡ convert_to_cartesian_path fuel b ref))
        ⊎ ((pending ≡ true) × (path ≡ full_path fuel ref ext b))
      → Mem b candidates × IsEnd fuel ref ext objs shape collision b path
  unfolding IsEnd validate_candidates
  chosen-IsEnd fuel ref ext objs shape collision false candidates b path m v (inl (p, e)) =
      (m, inl e)
  chosen-IsEnd fuel ref ext objs shape collision false candidates b path m v (inr (p, e)) = cc
  chosen-IsEnd fuel ref ext objs shape collision true candidates b path m v (inl (p, e)) = cc
  chosen-IsEnd fuel ref ext objs shape collision true candidates b path m v (inr (p, e)) =
      let (n, clear) = Mem-validated fuel ref ext objs shape collision candidates b v m in
      (n, inr (e, subst (λ x. IsTrajectoryClear x objs shape collision ext.dt) (sym e) clear))

  pub finish_cycle-published :
      (fuel : ℕ)
      → (ref : RefLine R) → (ext : Extension R) → (objs : List (ObjectInfo R))
      → (shape : VehicleShape R) → (collision : CollisionCheckConfig R) → (s stop_s : R)
      → (is_merge : Bool) → (after_curvature after_collision : ℕ)
      → (candidates : List (FrenetPath R)) → (ctx after : MergeContext R) → (path : CartesianPath R)
      → finish_cycle fuel ref ext objs shape collision s stop_s is_merge after_curvature
          after_collision candidates ctx
        ≡ CycleEnd.publish path after
      → (b : FrenetPath R) × Mem b candidates
        × (b.valid ≡ true)
        × IsEnd fuel ref ext objs shape collision b path
  unfolding finish_cycle
  finish_cycle-published fuel ref ext objs shape collision s stop_s is_merge n k candidates ctx
        after path e =
      let pending = is_merge && ctx.commit_pending in
      let checked = validate_candidates fuel ref ext objs shape collision pending candidates in
      let (b, chosen, form) =
        end_cycle-published fuel ref ext s stop_s pending n
          (if pending then count_valid checked else k) ctx after path (select_best_path checked)
          e in
      let (m, v) = select_best_path-Mem checked b chosen in
      let (m', is_end) =
        chosen-IsEnd fuel ref ext objs shape collision pending candidates b path m v form in
      (b, m', v, is_end)
