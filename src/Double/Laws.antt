-- ===== src/Double/Laws.antt =====
-- What IEEE 754 says of the order of doubles, NaN included, and of integers below 2^53: the
-- hypotheses of the theorems that compare numbers.
use Prim.Native.Nat
use Prim.Native.Nat.{ℕ}
use mpc_ws.Prelude.{◌≡◌, true, false, arith, ltb, leb}
use mpc_ws.Double.{Double, ◌<◌, ◌≤◌, max, min, clamp}

-- A number that is not NaN is `<=` itself.
abbrev pub IsNumber : {R : Type 0} ⦃d : Double R⦄ → R → Type 0
IsNumber ⦃d⦄ x = d.le x x ≡ true

-- The laws of the comparisons. All of them hold with NaN, which compares to nothing.
pub record IsOrdered (R : Type 0) ⦃d : Double R⦄ : Type 0 where
  pub lt_irrefl : (x : R) → x < x ≡ false
  pub lt_trans : (x y z : R) → x < y ≡ true → y < z ≡ true → x < z ≡ true
  pub le_trans : (x y z : R) → x ≤ y ≡ true → y ≤ z ≡ true → x ≤ z ≡ true
  pub lt_le_trans : (x y z : R) → x < y ≡ true → y ≤ z ≡ true → x < z ≡ true
  pub le_lt_trans : (x y z : R) → x ≤ y ≡ true → y < z ≡ true → x < z ≡ true
  pub le_of_lt : (x y : R) → x < y ≡ true → x ≤ y ≡ true
  pub not_lt_of_le : (x y : R) → x ≤ y ≡ true → y < x ≡ false
  pub le_of_not_lt : (x y : R) → IsNumber x → IsNumber y → x < y ≡ false → y ≤ x ≡ true
  pub number_of_lt : (x y : R) → x < y ≡ true → IsNumber x × IsNumber y
  pub number_of_le : (x y : R) → x ≤ y ≡ true → IsNumber x × IsNumber y

-- The last integer up to which every integer is a double.
abbrev pub exact_limit : ℕ
exact_limit = 9007199254740992

-- Integer literals within the limit are compared, added and subtracted exactly.
pub record IsExact (R : Type 0) ⦃d : Double R⦄ : Type 0 where
  pub num_lt :
      (a b : ℕ)
      → ltb a b ≡ true
      → leb b exact_limit ≡ true
      → d.lt (d.decimal a 0) (d.decimal b 0) ≡ true
  pub num_le :
      (a b : ℕ)
      → leb a b ≡ true
      → leb b exact_limit ≡ true
      → d.le (d.decimal a 0) (d.decimal b 0) ≡ true
  pub neg_lt :
      (a b : ℕ)
      → ltb 0 a ≡ true
      → leb a exact_limit ≡ true
      → leb b exact_limit ≡ true
      → d.lt (d.neg (d.decimal a 0)) (d.decimal b 0) ≡ true
  pub num_add :
      (a b : ℕ)
      → leb (Nat.◌+◌ a b) exact_limit ≡ true
      → d.add (d.decimal a 0) (d.decimal b 0) ≡ d.decimal (Nat.◌+◌ a b) 0
  pub num_sub :
      (a b : ℕ)
      → leb b a ≡ true
      → leb a exact_limit ≡ true
      → d.sub (d.decimal a 0) (d.decimal b 0) ≡ d.decimal (Nat.◌-◌ a b) 0

module _ {R : Type 0} ⦃d : Double R⦄ (laws : IsOrdered R) where
  open laws use {
    lt_irrefl, lt_trans, le_of_lt, not_lt_of_le, le_of_not_lt, number_of_le, number_of_lt, le_trans,
  }

  -- The smaller of two numbers is at most both.
  pub min_le_left : (a b : R) → IsNumber a → IsNumber b → min a b ≤ a ≡ true
  min_le_left a b p q = ground (arith, le_of_lt b a)

  pub min_le_right : (a b : R) → IsNumber a → IsNumber b → min a b ≤ b ≡ true
  min_le_right a b p q = ground (arith, le_of_not_lt b a q p)

  pub le_max_left : (a b : R) → IsNumber a → IsNumber b → a ≤ max a b ≡ true
  le_max_left a b p q = ground (arith, le_of_lt a b)

  pub le_max_right : (a b : R) → IsNumber a → IsNumber b → b ≤ max a b ≡ true
  le_max_right a b p q = ground (arith, le_of_not_lt a b p q)

  -- A clamped number lies in the range, if the range is not empty.
  pub clamp_bounds :
      (v lo hi : R)
      → IsNumber v
      → lo ≤ hi ≡ true
      → (lo ≤ clamp v lo hi ≡ true) × (clamp v lo hi ≤ hi ≡ true)
  clamp_bounds v lo hi p h =
      ground (arith, number_of_le lo hi h, le_of_not_lt v lo p, le_of_not_lt hi v)

  -- `max lo (min v hi)` stays in the range, whatever v is: of NaN it is the lower limit.
  pub clip_bounds :
      (v lo hi : R)
      → lo ≤ hi ≡ true
      → (lo ≤ max lo (min v hi) ≡ true) × (max lo (min v hi) ≤ hi ≡ true)
  clip_bounds v lo hi h = ground (
    arith,
    number_of_le lo hi h,
    number_of_lt lo v,
    le_of_lt lo v,
    le_of_lt lo hi,
    le_of_not_lt hi v,
  )
