-- ===== src/Planner/Follow/Leadership.antt =====
-- What one update does to the leader.
use mpc_ws.Prelude.{ℕ, zero, suc, ◌≡◌, ◌⊎◌, true, not, ◌||◌, Option, none, some, arith, leb}
use mpc_ws.Double.{Double, ◌+◌, ◌-◌, ◌<◌}
use mpc_ws.Planner.Config.{FollowingConfig}
use mpc_ws.Planner.Contexts.{FollowingContext}
use mpc_ws.Planner.Follow.{Sighting, hand_over, hold_leader, take_leader, update_following}
use mpc_ws.Planner.Leader.{LeaderTarget}

module _ {R : Type 0} ⦃d : Double R⦄ where
  -- An active context has waited for at most `dropout_grace_cycles` frames.
  abbrev pub WithinGrace : FollowingConfig R → FollowingContext R → Type 0
  WithinGrace cfg ctx = (not ctx.active || leb ctx.missing_cycles cfg.dropout_grace_cycles) ≡ true

  -- An update keeps the invariant that an active context has waited for its leader for at most
  -- `dropout_grace_cycles` frames.
  pub update_following-WithinGrace :
      (s : R)
      → (cfg : FollowingConfig R) → (sighting : Sighting R) → (nearest : Option (LeaderTarget R))
      → (ctx : FollowingContext R) → WithinGrace cfg ctx
      → WithinGrace cfg (update_following s cfg sighting nearest ctx)
  unfolding update_following hold_leader hand_over take_leader
  update_following-WithinGrace s cfg Sighting.unseen none ctx p = ground (arith)
  update_following-WithinGrace s cfg Sighting.unseen (some n) ctx p = ground (arith)
  update_following-WithinGrace s cfg Sighting.lost none ctx p = ground (arith)
  update_following-WithinGrace s cfg Sighting.lost (some n) ctx p = ground (arith)
  update_following-WithinGrace s cfg (Sighting.kept a b c) none ctx p = ground (arith)
  update_following-WithinGrace s cfg (Sighting.kept a b c) (some n) ctx p = ground (arith)

  -- A leader that is seen is kept unless a nearer vehicle takes over, and the one that takes over is
  -- nearer by the margin.
  pub update_following-kept :
      (s : R)
      → (cfg : FollowingConfig R) → (place offset speed : R) → (nearest : Option (LeaderTarget R))
      → (ctx : FollowingContext R) → ctx.active ≡ true
      → let after = update_following s cfg (Sighting.kept place offset speed) nearest ctx in
        (after.active ≡ true)
        × ((after.leader_id ≡ ctx.leader_id) × (after.leader_s ≡ place)
            ⊎ (after.leader_s - s + cfg.leader_switch_margin < place - s ≡ true))
  unfolding update_following hold_leader hand_over take_leader
  update_following-kept s cfg place offset speed none ctx p = ground (arith)
  update_following-kept s cfg place offset speed (some n) ctx p = ground (arith)

  -- n updates in a row that see no leader and no other vehicle ahead.
  pub miss : FollowingConfig R → R → ℕ → FollowingContext R → FollowingContext R
  miss cfg s zero ctx = ctx
  miss cfg s (suc n) ctx = update_following s cfg Sighting.unseen none (miss cfg s n ctx)

  missed :
      (cfg : FollowingConfig R)
      → (s : R) → (n : ℕ) → (ctx : FollowingContext R) → ctx.active ≡ true
      → ctx.missing_cycles ≡ 0
      → leb n cfg.dropout_grace_cycles ≡ true
      → ((miss cfg s n ctx).active ≡ true) × ((miss cfg s n ctx).missing_cycles ≡ n)
  unfolding miss update_following hold_leader hand_over take_leader
  missed cfg s zero ctx p q r = (p, q)
  missed cfg s (suc n) ctx p q r = let ih = missed cfg s n ctx p q in ground (arith, ih)

  -- With no vehicle ahead, a leader that was just seen and then stands in none of n frames in a row is
  -- still followed exactly if n is at most the number of grace cycles.
  pub miss-active :
      (cfg : FollowingConfig R)
      → (s : R) → (n : ℕ) → (ctx : FollowingContext R) → ctx.active ≡ true
      → ctx.missing_cycles ≡ 0
      → (miss cfg s n ctx).active ≡ leb n cfg.dropout_grace_cycles
  unfolding miss update_following hold_leader hand_over take_leader
  miss-active cfg s zero ctx p q = ground (arith)
  miss-active cfg s (suc n) ctx p q =
      let ih = miss-active cfg s n ctx p q in ground (arith, ih, missed cfg s n ctx p q)
