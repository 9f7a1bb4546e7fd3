-- ===== src/Planner/Merge/Phases.antt =====
-- The phases of MERGE: what holds of the context in every cycle, and what a step to COMMIT or CROSS
-- needs.
use mpc_ws.Prelude.{
  ℕ, ◌≡◌, refl, ◌⊎◌, inl, inr, Bool, true, false, not, ◌&&◌, ◌||◌, Option, none, some, arith, leb,
  if◌then◌else◌, Bool-cases, Option-cases, is_some,
}
use mpc_ws.Double.{Double, ◌-◌, ◌>◌, ◌≥◌}
use mpc_ws.Prelude.Int.{ℤ, pos, is_negative, ◌==ℤ◌, ◌+ℤ◌}
use mpc_ws.Planner.Config.{HighwayMergeCheckpoint, HighwayMergeConfig, MergeConfig}
use mpc_ws.Planner.Contexts.{
  MergeContext, MergePhase, find_highway_merge_zone, highway_checkpoint_at, is_commit, is_highway,
}
use mpc_ws.Planner.Gap.{RoundaboutGap}
use mpc_ws.Planner.Locked.{next_checkpoint}
use mpc_ws.Planner.Merge.{
  activate, advance_merge, judge_gap, locked_gap, requested_merge_type, roundabout_window,
  update_merge,
}
use mpc_ws.Planner.Types.{CollisionCheckConfig, MergeType}

module _ {R : Type 0} ⦃d : Double R⦄ where
  -- COMMIT is a phase of a locked gap, a locked gap is one of an active merge, and nothing is pending
  -- while a gap is locked; a commit is pending only in an active merge.
  abbrev pub IsConsistent : MergeContext R → Type 0
  IsConsistent ctx =
      ((not (is_commit ctx.phase) || ctx.gap_locked) ≡ true)
      × ((not ctx.gap_locked || (ctx.active && not ctx.commit_pending)) ≡ true)
      × ((not ctx.commit_pending || ctx.active) ≡ true)

  judge_gap-IsConsistent :
      (gap_left commit_distance : R)
      → (n : ℕ) → (gap : RoundaboutGap R) → (ctx : MergeContext R) → ctx.active ≡ true
      → ctx.gap_locked ≡ false
      → IsConsistent (judge_gap gap_left commit_distance n gap ctx)
  unfolding judge_gap
  judge_gap-IsConsistent gap_left commit_distance n gap ctx a p = ground (arith)

  locked_gap-IsConsistent :
      (hcfg : HighwayMergeConfig R)
      → (s conflict_s : R) → (ctx : MergeContext R) → ctx.gap_locked ≡ true
      → IsConsistent ctx
      → IsConsistent (locked_gap hcfg s conflict_s ctx)
  unfolding locked_gap
  locked_gap-IsConsistent hcfg s conflict_s ctx p h =
      ground (arith, Option-cases (next_checkpoint hcfg ctx))

  -- A property of both branches of a test is one of the test.
  if-IsConsistent :
      (b : Bool)
      → (x y : MergeContext R) → (b ≡ true → IsConsistent x)
      → (b ≡ false → IsConsistent y)
      → IsConsistent (if b then x else y)
  if-IsConsistent true x y p q = p refl
  if-IsConsistent false x y p q = q refl

  advance_merge-IsConsistent :
      (cfg : MergeConfig R)
      → (hcfg : HighwayMergeConfig R) → (s : R)
      → (gap_at : Option (HighwayMergeCheckpoint R) → RoundaboutGap R)
      → (checkpoint : Option (HighwayMergeCheckpoint R)) → (ctx : MergeContext R)
      → ctx.active ≡ true
      → IsConsistent ctx
      → IsConsistent (advance_merge cfg hcfg s gap_at checkpoint ctx)
  unfolding advance_merge
  advance_merge-IsConsistent cfg hcfg s gap_at none ctx a h =
      if-IsConsistent ctx.gap_locked _ _
        (λ p. locked_gap-IsConsistent hcfg s cfg.conflict_s ctx p h)
        (judge_gap-IsConsistent (cfg.conflict_s - s) cfg.commit_distance cfg.safe_confirm_cycles
          (gap_at none) ctx a)
  advance_merge-IsConsistent cfg hcfg s gap_at (some c) ctx a h =
      if-IsConsistent ctx.gap_locked _ _ (λ p. locked_gap-IsConsistent hcfg s c.conflict_s ctx p h)
        (judge_gap-IsConsistent (c.conflict_s - s) hcfg.commit_distance hcfg.safe_confirm_cycles
          (gap_at (some c)) ctx a)

  activate-IsConsistent :
      (requested : MergeType)
      → (zone : ℤ) → (ctx : MergeContext R) → IsConsistent ctx
      → IsConsistent (activate requested zone ctx)
  activate-IsConsistent requested zone ctx h = ground (arith, h)

  activate-active :
      (requested : MergeType)
      → (zone : ℤ) → (ctx : MergeContext R) → (activate requested zone ctx).active ≡ true
  activate-active requested zone ctx = ground arith

  -- The MERGE block of Plan preserves the invariant of its context, a reset and the failure of a
  -- missing zone included.
  pub update_merge-IsConsistent :
      (cfg : MergeConfig R)
      → (hcfg : HighwayMergeConfig R) → (collision : CollisionCheckConfig R)
      → (s ego_v max_accel : R) → (gap_at : Option (HighwayMergeCheckpoint R) → RoundaboutGap R)
      → (ctx : MergeContext R) → IsConsistent ctx
      → IsConsistent (update_merge cfg hcfg collision s ego_v max_accel gap_at ctx).0
  unfolding update_merge
  update_merge-IsConsistent cfg hcfg collision s ego_v max_accel gap_at ctx h =
      let zone = find_highway_merge_zone hcfg s in
      let in_roundabout = roundabout_window cfg collision s ego_v max_accel in
      let requested = requested_merge_type ctx in_roundabout (not (is_negative zone)) in
      let h' = activate-IsConsistent requested zone ctx h in
      let a = activate-active requested zone ctx in
      let next = activate requested zone ctx in
      let checkpoint =
        highway_checkpoint_at hcfg next.highway_zone_index next.highway_conflict_index in
      let roundabout = advance_merge-IsConsistent cfg hcfg s gap_at none next a h' in
      let highway = advance_merge-IsConsistent cfg hcfg s gap_at checkpoint next a h' in
      ground (arith, roundabout, highway)

  -- A commit is pending only for a confirmed, safe gap of this cycle, within the commit distance, that
  -- has been the same safe gap for the confirming number of cycles.
  pub judge_gap-pending :
      (gap_left commit_distance : R)
      → (n : ℕ) → (gap : RoundaboutGap R) → (ctx : MergeContext R)
      → (judge_gap gap_left commit_distance n gap ctx).commit_pending ≡ true
      → (gap.confirmed ≡ true)
        × (gap.safe ≡ true)
        × (gap_left > commit_distance ≡ false)
        × (leb n (judge_gap gap_left commit_distance n gap ctx).safe_cycles ≡ true)
        × ((leb n 1
              || ((ctx.preceding_id ==ℤ gap.preceding_id)
                  && (ctx.following_id ==ℤ gap.following_id)))
            ≡ true)
  unfolding judge_gap
  judge_gap-pending gap_left commit_distance n gap ctx p = ground arith

  advance_merge-pending :
      (cfg : MergeConfig R)
      → (hcfg : HighwayMergeConfig R) → (s : R)
      → (gap_at : Option (HighwayMergeCheckpoint R) → RoundaboutGap R)
      → (checkpoint : Option (HighwayMergeCheckpoint R)) → (ctx : MergeContext R)
      → let after = advance_merge cfg hcfg s gap_at checkpoint ctx in
        after.commit_pending ≡ true
        → (after.gap_locked ≡ false)
          × ((gap_at checkpoint).confirmed ≡ true)
          × ((gap_at checkpoint).safe ≡ true)
  unfolding advance_merge locked_gap judge_gap
  advance_merge-pending cfg hcfg s gap_at none ctx p =
      ground (arith, Option-cases (next_checkpoint hcfg ctx))
  advance_merge-pending cfg hcfg s gap_at (some c) ctx p =
      ground (arith, Option-cases (next_checkpoint hcfg ctx))

  -- If a commit is pending after the MERGE block, no gap is locked and the gap that the selectors
  -- found in this cycle, for the roundabout or for a checkpoint, is confirmed and safe.
  pub update_merge-pending :
      (cfg : MergeConfig R)
      → (hcfg : HighwayMergeConfig R) → (collision : CollisionCheckConfig R)
      → (s ego_v max_accel : R) → (gap_at : Option (HighwayMergeCheckpoint R) → RoundaboutGap R)
      → (ctx : MergeContext R)
      → let after = (update_merge cfg hcfg collision s ego_v max_accel gap_at ctx).0 in
        after.commit_pending ≡ true
        → (after.gap_locked ≡ false)
          × ((checkpoint : Option (HighwayMergeCheckpoint R)) × ((gap_at checkpoint).confirmed
                ≡ true)
              × ((gap_at checkpoint).safe ≡ true))
  unfolding update_merge
  update_merge-pending cfg hcfg collision s ego_v max_accel gap_at ctx p =
      let zone = find_highway_merge_zone hcfg s in
      let in_roundabout = roundabout_window cfg collision s ego_v max_accel in
      let requested = requested_merge_type ctx in_roundabout (not (is_negative zone)) in
      let next = activate requested zone ctx in
      let checkpoint =
        highway_checkpoint_at hcfg next.highway_zone_index next.highway_conflict_index in
      let chosen = if is_highway next.type then checkpoint else none in
      let all : ((update_merge cfg hcfg collision s ego_v max_accel gap_at ctx).0.gap_locked
            ≡ false)
          × ((gap_at chosen).confirmed ≡ true)
          × ((gap_at chosen).safe ≡ true) =
        elim (Bool-cases (is_highway next.type)) [
          | inl h ↦ ground (arith, advance_merge-pending cfg hcfg s gap_at checkpoint next)
          | inr h ↦ ground (arith, advance_merge-pending cfg hcfg s gap_at none next)
        ] in
      (all.0, (chosen, all.1, all.2))

  -- A locked gap enters CROSS only at the conflict point, and only when the zone has no further
  -- checkpoint; with one it goes on to it unlocked.
  pub locked_gap_cases :
      (hcfg : HighwayMergeConfig R)
      → (s conflict_s : R) → (ctx : MergeContext R)
      → let after = locked_gap hcfg s conflict_s ctx in
        ((s ≥ conflict_s ≡ false) × (after.phase ≡ ctx.phase) × (after.gap_locked ≡ ctx.gap_locked))
        ⊎ ((s ≥ conflict_s ≡ true)
            × (next_checkpoint hcfg ctx ≡ none)
            × (after.phase ≡ MergePhase.cross)
            × (after.gap_locked ≡ ctx.gap_locked))
        ⊎ ((s ≥ conflict_s ≡ true)
            × (is_some (next_checkpoint hcfg ctx) ≡ true)
            × (after.phase ≡ MergePhase.approach)
            × (after.gap_locked ≡ false)
            × (after.highway_conflict_index ≡ ctx.highway_conflict_index +ℤ pos 1))
  unfolding locked_gap
  locked_gap_cases hcfg s conflict_s ctx = ground (arith, Option-cases (next_checkpoint hcfg ctx))
