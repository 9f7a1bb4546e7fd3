-- ===== src/Planner/Fallback/Bounds.antt =====
-- The speeds of the low-speed fallback.
use mpc_ws.Prelude.{
  ℕ, suc, ◌≡◌, refl, sym, ap, ◌∙◌, true, List, [], ◌∷◌, map, ◌==◌, if◌then◌else◌, length, All,
  length-map, iota, length-iota,
}
use mpc_ws.Double.{Double, ◌+◌, ◌*◌, ◌/◌, ◌≤◌, decimal, max}
use mpc_ws.Double.Laws.{IsOrdered, clip_bounds}
use mpc_ws.Planner.Fallback.{
  crawl, crawl_accel, crawl_speed, crawl_speed_cap, min_creep_speed, plan_low_speed_fallback,
}
use mpc_ws.Planner.Types.{CartesianState, RefLine}

module _ {R : Type 0} ⦃d : Double R⦄ (laws : IsOrdered R) where
  -- The speeds of a path: all of them between the creeping speed and the crawling speed.
  abbrev pub CrawlSpeeds : List (CartesianState R) → Type 0
  CrawlSpeeds = All λ cs. (min_creep_speed ≤ cs.v ≡ true) × (cs.v ≤ crawl_speed_cap ≡ true)

  crawl-CrawlSpeeds :
      (fuel : ℕ) (ref : RefLine R) (dt ego_v s e target_d : R) (is : List ℕ) (s_i v_prev : R)
      → ◌≤◌ {R = R} min_creep_speed crawl_speed_cap ≡ true
      → CrawlSpeeds (crawl fuel ref dt ego_v s e target_d is s_i v_prev)
  unfolding crawl
  crawl-CrawlSpeeds fuel ref dt ego_v s e target_d [] s_i v_prev h = tt
  crawl-CrawlSpeeds fuel ref dt ego_v s e target_d (i ∷ is) s_i v_prev h =
      let v_i = crawl_speed ego_v (d.of_ℕ i * dt) in
      let s_next = if i == 0 then s_i else s_i + decimal 5 1 * (v_i + v_prev) * dt in
      (
        clip_bounds laws (ego_v + crawl_accel * (d.of_ℕ i * dt)) min_creep_speed crawl_speed_cap h,
        crawl-CrawlSpeeds fuel ref dt ego_v s e target_d is s_next v_i h,
      )

  length-crawl :
      (fuel : ℕ) (ref : RefLine R) (dt ego_v s e target_d : R) (is : List ℕ) (s_i v_prev : R)
      → length (crawl fuel ref dt ego_v s e target_d is s_i v_prev) ≡ length is
  unfolding crawl
  length-crawl fuel ref dt ego_v s e target_d [] s_i v_prev = refl
  length-crawl fuel ref dt ego_v s e target_d (i ∷ is) s_i v_prev =
      ap suc (length-crawl fuel ref dt ego_v s e target_d is _ _)

  All-path_of :
      (P : R → Type 0) (cs : List (CartesianState R))
      → All (λ c. P c.v) cs
      → All P (map (λ c. c.v) cs)
  All-path_of P [] h = tt
  All-path_of P (c ∷ cs) (p, h) = (p, All-path_of P cs h)

  -- Every speed of the fallback lies between 0.3 and 2 m/s, for every speed of the vehicle, and the
  -- path has one sample more than the duration has time steps.
  pub plan_low_speed_fallback_bounds :
      (fuel : ℕ)
      → (ref : RefLine R) → (dt : R) → (ego : CartesianState R) → (s e target_d duration_s : R)
      → ◌≤◌ {R = R} min_creep_speed crawl_speed_cap ≡ true
      → let path = plan_low_speed_fallback fuel ref dt ego s e target_d duration_s in
        All (λ v. (min_creep_speed ≤ v ≡ true) × (v ≤ crawl_speed_cap ≡ true)) path.v
        × (length path.x ≡ suc (d.to_ℕ (duration_s / dt)))
        × (length path.v ≡ length path.x)
  unfolding plan_low_speed_fallback
  plan_low_speed_fallback_bounds fuel ref dt ego s e target_d duration_s h =
      let n = suc (d.to_ℕ (duration_s / dt)) in
      let start = max ego.v min_creep_speed in
      let cs = crawl fuel ref dt ego.v s e target_d (iota n) s start in
      let count = length-crawl fuel ref dt ego.v s e target_d (iota n) s start ∙ length-iota n in
      (
        All-path_of (λ v. (min_creep_speed ≤ v ≡ true) × (v ≤ crawl_speed_cap ≡ true)) cs
            (crawl-CrawlSpeeds fuel ref dt ego.v s e target_d (iota n) s start h),
        length-map (λ c. c.x) cs ∙ count,
        length-map (λ c. c.v) cs ∙ sym (length-map (λ c. c.x) cs),
      )
