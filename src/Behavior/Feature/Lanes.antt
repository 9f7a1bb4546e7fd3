-- ===== src/Behavior/Feature/Lanes.antt =====
-- A lane that the features call safe: what it says of the objects in it.
use mpc_ws.Prelude.{
  subst, ◌≡◌, refl, ap, ◌∙◌, ◌⊎◌, inl, inr, Bool, true, false, List, [], ◌∷◌, arith, Bool-cases,
  Mem,
}
use mpc_ws.Double.{Double, ◌<◌, ◌≤◌, ◌≥◌, neg, num, min}
use mpc_ws.Double.Laws.{IsOrdered, IsNumber}
use mpc_ws.Prelude.Int.{ℤ}
use mpc_ws.Behavior.Feature.{
  Gaps, RouteManager, Scan, add_gap, in_left_lane, in_right_lane, lane_safe, place, scan_object,
  scan_objects,
}
use mpc_ws.Behavior.Types.{EgoFeature, ObjectFeature, RouteFeature}

module _ {R : Type 0} ⦃d : Double R⦄ (laws : IsOrdered R) where
  open laws use {le_of_lt, le_trans, le_of_not_lt, number_of_le}

  -- If the smaller of two numbers is at least a bound, both are.
  min_ge : (c a b : R) → IsNumber b → c ≤ min a b ≡ true → (c ≤ a ≡ true) × (c ≤ b ≡ true)
  min_ge c a b n h = elim (Bool-cases (b < a)) [
    | inl l ↦ let p = rw l at h in (le_trans c b a p (le_of_lt b a l), p)
    | inr l ↦
        let p = rw l at h in (p, le_trans c a b p (le_of_not_lt b a n (number_of_le c a p).1 l))
  ]

  -- If the smaller one is, the first one is, also if the second is no number.
  min_ge_left : (c a b : R) → c ≤ min a b ≡ true → c ≤ a ≡ true
  min_ge_left c a b h = elim (Bool-cases (b < a)) [
    | inl l ↦ let p = rw l at h in le_trans c b a p (le_of_lt b a l)
    | inr l ↦ rw l at h
  ]

  abbrev pub Clear : Gaps R → Type 0
  Clear gaps = (num 12 ≤ gaps.front ≡ true) × (num 15 ≤ gaps.rear ≡ true)

  pub lane_safe-Clear :
      (allowed : Bool) (gaps : Gaps R) → lane_safe allowed gaps ≡ true → Clear gaps
  unfolding lane_safe
  lane_safe-Clear allowed gaps h = ground arith

  add_gap-Clear :
      (in_this_lane : Bool) (gap : R) (gaps : Gaps R)
      → Clear (add_gap in_this_lane gap gaps)
      → Clear gaps
  unfolding add_gap
  add_gap-Clear false gap gaps h = h
  add_gap-Clear true gap gaps h = elim (Bool-cases (gap ≥ num 0)) [
    | inl l ↦ let k = rw l at h in (min_ge_left (num 12) gaps.front gap k.0, k.1)
    | inr l ↦ let k = rw l at h in (k.0, min_ge_left (num 15) gaps.rear (neg gap) k.1)
  ]

  -- A gap far enough ahead or behind.
  abbrev pub KeepsDistance : R → Type 0
  KeepsDistance gap = (num 12 ≤ gap ≡ true) ⊎ (num 15 ≤ neg gap ≡ true)

  add_gap-KeepsDistance :
      (gap : R) (gaps : Gaps R)
      → IsNumber gap
      → IsNumber (neg gap)
      → Clear (add_gap true gap gaps)
      → KeepsDistance gap
  unfolding add_gap
  add_gap-KeepsDistance gap gaps n m h = elim (Bool-cases (gap ≥ num 0)) [
    | inl l ↦ let k = rw l at h in inl (min_ge (num 12) gaps.front gap n k.0).1
    | inr l ↦ let k = rw l at h in inr (min_ge (num 15) gaps.rear (neg gap) m k.1).1
  ]

  module _ (manager : RouteManager R) (ego : EgoFeature R) (route : RouteFeature R)
      (last_lead : ℤ) where
    -- The gap of an object after it is placed.
    abbrev pub placed_gap : ObjectFeature R → R
    placed_gap o = (place manager ego route o).0.gap

    -- The gaps of the two lanes after a round, of an object that is valid and of one that is not.
    pub scan_object-left :
        (o : ObjectFeature R) (st : Scan R)
        → o.valid ≡ true
        → (scan_object manager ego route last_lead o st).left
          ≡ add_gap (in_left_lane ego route o) (placed_gap o) st.left
    unfolding scan_object
    scan_object-left o st v = rw v refl

    pub scan_object-right :
        (o : ObjectFeature R) (st : Scan R)
        → o.valid ≡ true
        → (scan_object manager ego route last_lead o st).right
          ≡ add_gap (in_right_lane ego route o) (placed_gap o) st.right
    unfolding scan_object
    scan_object-right o st v = rw v refl

    scan_object-skip :
        (o : ObjectFeature R) (st : Scan R)
        → o.valid ≡ false
        → scan_object manager ego route last_lead o st ≡ st
    unfolding scan_object
    scan_object-skip o st v = rw v refl

    -- A side of the scan: its gaps after a round are those of the lane's test.
    pub record IsSide (side : Scan R → Gaps R) (lane : ObjectFeature R → Bool) : Type 0 where
      pub adds :
          (o : ObjectFeature R) (st : Scan R)
          → o.valid ≡ true
          → side (scan_object manager ego route last_lead o st)
            ≡ add_gap (lane o) (placed_gap o) (side st)

    module _ (side : Scan R → Gaps R) (lane : ObjectFeature R → Bool)
        (is_side : IsSide side lane) where
      scan_object-Clear :
          (o : ObjectFeature R) (st : Scan R)
          → Clear (side (scan_object manager ego route last_lead o st))
          → Clear (side st)
      scan_object-Clear o st h = elim (Bool-cases o.valid) [
        | inl v ↦
            add_gap-Clear (lane o) (placed_gap o) (side st) (subst Clear (is_side.adds o st v) h)
        | inr v ↦ subst (λ s. Clear (side s)) (scan_object-skip o st v) h
      ]

      scan_objects-Clear :
          (objects : List (ObjectFeature R)) (st : Scan R)
          → Clear (side (scan_objects manager ego route last_lead objects st))
          → Clear (side st)
      unfolding scan_objects
      scan_objects-Clear [] st h = h
      scan_objects-Clear (o ∷ objects) st h =
          scan_object-Clear o st
            (scan_objects-Clear objects (scan_object manager ego route last_lead o st) h)

      pub scan_objects-KeepsDistance :
          (objects : List (ObjectFeature R)) (st : Scan R) (o : ObjectFeature R)
          → Mem o objects
          → o.valid ≡ true
          → lane o ≡ true
          → IsNumber (placed_gap o)
          → IsNumber (neg (placed_gap o))
          → Clear (side (scan_objects manager ego route last_lead objects st))
          → KeepsDistance (placed_gap o)
      unfolding scan_objects
      scan_objects-KeepsDistance [] st o m v l n k h = absurd m
      scan_objects-KeepsDistance (x ∷ objects) st o (inl e) v l n k h =
          let after = scan_objects-Clear objects (scan_object manager ego route last_lead x st) h in
          let same : side (scan_object manager ego route last_lead x st)
              ≡ add_gap true (placed_gap o) (side st) =
            ap (λ y. side (scan_object manager ego route last_lead y st)) e
            ∙ is_side.adds o st v
            ∙ ap (λ b. add_gap b (placed_gap o) (side st)) l in
          add_gap-KeepsDistance (placed_gap o) (side st) n k (subst Clear same after)
      scan_objects-KeepsDistance (x ∷ objects) st o (inr m) v l n k h =
          scan_objects-KeepsDistance objects (scan_object manager ego route last_lead x st) o m v l
            n k h
