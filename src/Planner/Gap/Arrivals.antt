-- ===== src/Planner/Gap/Arrivals.antt =====
-- The arrivals are sorted, and the loop over them keeps the neighbours of an entry time.
use mpc_ws.Prelude.{
  ◌≡◌, inl, inr, Bool, true, false, List, [], ◌∷◌, arith, if◌then◌else◌, Bool-cases, All,
}
use mpc_ws.Double.{Double, ◌+◌, ◌-◌, ◌<◌, ◌≤◌, ◌≥◌}
use mpc_ws.Double.Laws.{IsOrdered}
use mpc_ws.Prelude.Int.{is_negative}
use mpc_ws.Planner.Config.{MergeConfig}
use mpc_ws.Planner.Gap.{Around, Arrival, around_entry, entry_clear, insert_arrival, sort_arrivals}

-- Rounding is monotone: a difference of finite doubles does not shrink when the first operand grows
-- or the second one falls. A finite double is a number.
pub record IsMonotone (R : Type 0) ⦃d : Double R⦄ : Type 0 where
  pub number_of_finite : (x : R) → d.is_finite x ≡ true → d.le x x ≡ true
  pub sub_mono :
      (x y z c : R)
      → d.is_finite y ≡ true
      → d.is_finite z ≡ true
      → d.le x y ≡ true
      → d.le c (d.sub x z) ≡ true
      → d.le c (d.sub y z) ≡ true
  pub sub_antitone :
      (x y z c : R)
      → d.is_finite x ≡ true
      → d.is_finite z ≡ true
      → d.le x y ≡ true
      → d.le c (d.sub z y) ≡ true
      → d.le c (d.sub z x) ≡ true

module _ {R : Type 0} ⦃d : Double R⦄ where
  abbrev pub NotBefore : R → Arrival R → Type 0
  NotBefore x b = x ≤ b.time ≡ true

  abbrev pub Sorted : List (Arrival R) → Type 0
  Sorted [] = Unit
  Sorted (a ∷ bs) = All (NotBefore a.time) bs × Sorted bs

  -- A vehicle whose identifier is no sentinel, and whose time is finite.
  abbrev pub IsProper : Arrival R → Type 0
  IsProper a = (is_negative a.id ≡ false) × (d.is_finite a.time ≡ true)

  -- The entry keeps the front gap to an arrival before it, and the rear gap, with the time that the
  -- vehicle needs to clear the zone, to an arrival after it.
  abbrev pub respects : MergeConfig R → R → R → Arrival R → Bool
  respects cfg clear_duration entry a =
      if a.time ≤ entry
      then entry - a.time ≥ cfg.min_front_time_gap
      else a.time - entry ≥ clear_duration + cfg.min_rear_time_gap

  abbrev pub Respects : MergeConfig R → R → R → Arrival R → Type 0
  Respects cfg clear_duration entry a = respects cfg clear_duration entry a ≡ true

  All-insert_arrival :
      (P : Arrival R → Type 0) (a : Arrival R) (bs : List (Arrival R))
      → P a
      → All P bs
      → All P (insert_arrival a bs)
  unfolding insert_arrival
  All-insert_arrival P a [] p h = (p, tt)
  All-insert_arrival P a (b ∷ bs) p h = ground (arith, All-insert_arrival P a bs p h.1)

  pub All-sort_arrivals :
      (P : Arrival R → Type 0) (bs : List (Arrival R)) → All P bs → All P (sort_arrivals bs)
  unfolding sort_arrivals
  All-sort_arrivals P [] h = tt
  All-sort_arrivals P (b ∷ bs) h =
      All-insert_arrival P b (sort_arrivals bs) h.0 (All-sort_arrivals P bs h.1)

  module _ (laws : IsOrdered R) (mono : IsMonotone R) where
    open laws use {le_trans, le_of_lt, le_of_not_lt}
    open mono use {number_of_finite, sub_mono, sub_antitone}

    NotBefore-trans :
        (x y : R) (bs : List (Arrival R))
        → x ≤ y ≡ true
        → All (NotBefore y) bs
        → All (NotBefore x) bs
    NotBefore-trans x y [] h q = tt
    NotBefore-trans x y (b ∷ bs) h q = (le_trans x y b.time h q.0, NotBefore-trans x y bs h q.1)

    insert_arrival-Sorted :
        (a : Arrival R) (bs : List (Arrival R))
        → IsProper a
        → All IsProper bs
        → Sorted bs
        → Sorted (insert_arrival a bs)
    unfolding insert_arrival
    insert_arrival-Sorted a [] p ps h = (tt, tt)
    insert_arrival-Sorted a (b ∷ bs) p ps h = elim (Bool-cases (a.time < b.time)) [
      | inl l ↦ rw l (
        (le_of_lt a.time b.time l, NotBefore-trans a.time b.time bs (le_of_lt a.time b.time l) h.0),
        h,
      )
      | inr n ↦
          let le =
            le_of_not_lt a.time b.time (number_of_finite a.time p.1)
              (number_of_finite b.time ps.0.1) n in
          rw n (
            All-insert_arrival (NotBefore b.time) a bs le h.0,
            insert_arrival-Sorted a bs p ps.1 h.1,
          )
    ]

    pub sort_arrivals-Sorted : (bs : List (Arrival R)) → All IsProper bs → Sorted (sort_arrivals bs)
    unfolding sort_arrivals
    sort_arrivals-Sorted [] h = tt
    sort_arrivals-Sorted (b ∷ bs) h =
        insert_arrival-Sorted b (sort_arrivals bs) h.0 (All-sort_arrivals IsProper bs h.1)
          (sort_arrivals-Sorted bs h.1)

    -- The preceding arrival that the loop keeps is a vehicle, and not before x if none is.
    around_entry-preceding :
        (entry x : R) (bs : List (Arrival R)) (st : Around R)
        → All IsProper bs
        → All (NotBefore x) bs
        → is_negative st.preceding_id ≡ false
        → x ≤ st.preceding_time ≡ true
        → (is_negative (around_entry entry bs st).preceding_id ≡ false)
          × (x ≤ (around_entry entry bs st).preceding_time ≡ true)
    unfolding around_entry
    around_entry-preceding entry x [] st ps h n l = (n, l)
    around_entry-preceding entry x (b ∷ bs) st ps h n l = ground (
      arith,
      around_entry-preceding entry x bs (record st { preceding_id = b.id; preceding_time = b.time })
          ps.1 h.1 ps.0.0 h.0,
    )

    -- Every arrival after a given one that lies after the entry respects the rear gap too.
    later-Respects :
        (cfg : MergeConfig R) (clear_duration entry x : R) (bs : List (Arrival R))
        → d.is_finite entry ≡ true
        → x ≤ entry ≡ false
        → x - entry ≥ clear_duration + cfg.min_rear_time_gap ≡ true
        → All IsProper bs
        → All (NotBefore x) bs
        → All (Respects cfg clear_duration entry) bs
    later-Respects cfg clear_duration entry x [] f n g ps h = tt
    later-Respects cfg clear_duration entry x (b ∷ bs) f n g ps h = (
      ground (
        arith,
        le_trans x b.time entry h.0,
        sub_mono x b.time entry (clear_duration + cfg.min_rear_time_gap) ps.0.1 f h.0 g,
      ),
      later-Respects cfg clear_duration entry x bs f n g ps.1 h.1,
    )

    -- If the neighbours of an entry time are far enough, every arrival is.
    pub entry_clear-Respects :
        (cfg : MergeConfig R) (clear_duration entry : R) (bs : List (Arrival R)) (st : Around R)
        → d.is_finite entry ≡ true
        → All IsProper bs
        → Sorted bs
        → entry_clear cfg clear_duration entry (around_entry entry bs st) ≡ true
        → All (Respects cfg clear_duration entry) bs
    unfolding around_entry entry_clear
    entry_clear-Respects cfg clear_duration entry [] st f ps h c = tt
    entry_clear-Respects cfg clear_duration entry (b ∷ bs) st f ps h c =
        elim (Bool-cases (b.time ≤ entry)) [
          | inl l ↦
              let st' : Around R = record st { preceding_id = b.id; preceding_time = b.time } in
              let out = around_entry entry bs st' in
              let pre =
                around_entry-preceding entry b.time bs st' ps.1 h.0 ps.0.0
                  (number_of_finite b.time ps.0.1) in
              (
                ground (
                  arith,
                  sub_antitone b.time out.preceding_time entry cfg.min_front_time_gap ps.0.1 f
                      pre.1,
                ),
                entry_clear-Respects cfg clear_duration entry bs st' f ps.1 h.1 (rw l at c),
              )
          | inr n ↦
              let rear : b.time - entry ≥ clear_duration + cfg.min_rear_time_gap ≡ true =
                ground arith in
              (rw n rear, later-Respects cfg clear_duration entry b.time bs f n rear ps.1 h.0)
        ]
