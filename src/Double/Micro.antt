-- ===== src/Double/Micro.antt =====
-- Numbers on which the witnesses and the tests run: whole millionths. They meet the laws of the
-- order and of exact integers. The trigonometric functions are their first-order approximations.
use Prim.Native.Nat.{ℕ, zero, suc, ◌+◌, ◌-◌, ◌*◌, ◌/◌, ◌^◌, ◌%◌}
use mpc_ws.Prelude.{arith, if◌then◌else◌, ltb, leb}
use mpc_ws.Prelude.Int.{ℤ, pos, pos_part, neg_part, sub_ℕ, ltb_ℤ, leb_ℤ}
use mpc_ws.Double.{Double}
use mpc_ws.Double.Laws.{IsOrdered, IsExact}

abbrev pub Micro : Type 0
Micro = ℤ

abbrev unit : ℕ
unit = 1_000_000

abbrev size : Micro → ℕ
size a = pos_part a + neg_part a

abbrev plus : Micro → Micro → Micro
plus a b = sub_ℕ (pos_part a + pos_part b) (neg_part a + neg_part b)

abbrev minus : Micro → Micro → Micro
minus a b = sub_ℕ (pos_part a + neg_part b) (neg_part a + pos_part b)

abbrev times : Micro → Micro → Micro
times a b =
    sub_ℕ ((pos_part a * pos_part b + neg_part a * neg_part b) / unit)
      ((pos_part a * neg_part b + neg_part a * pos_part b) / unit)

abbrev over : Micro → Micro → Micro
over a b =
    sub_ℕ ((pos_part a * pos_part b + neg_part a * neg_part b) * unit / (size b * size b))
      ((pos_part a * neg_part b + neg_part a * pos_part b) * unit / (size b * size b))

-- The whole square root, by bisection between `lo` and `hi`.
isqrt : ℕ → ℕ → ℕ → ℕ → ℕ
isqrt zero n lo hi = lo
isqrt (suc fuel) n lo hi =
    let mid = (lo + hi) / 2 in
    isqrt fuel n (if leb (mid * mid) n then mid else lo) (if leb (mid * mid) n then hi else mid)

unfoldable pub root : Micro → Micro
unfolding isqrt
root a = pos (isqrt 64 (pos_part a * unit) 0 (2 ^ 60))

abbrev size_of : Micro → Micro
size_of a = pos (size a)

instance abbrev pub micro : Double Micro
micro = record {
  decimal = λ m e. pos (m * unit / 10 ^ e);
  add = plus;
  sub = minus;
  mul = times;
  div = over;
  neg = λ a. minus (pos 0) a;
  lt = ltb_ℤ;
  le = leb_ℤ;
  abs = size_of;
  sqrt = root;
  sin = λ a. a;
  cos = λ a. pos unit;
  tan = λ a. a;
  atan2 = over;
  hypot = λ a b. root (plus (times a a) (times b b));
  fmod = λ a b. pos (pos_part a % pos_part b);
  remainder = λ a b. a;
  round =
      λ a. sub_ℕ ((pos_part a + unit / 2) / unit * unit) ((neg_part a + unit / 2) / unit * unit);
  ceil = λ a. sub_ℕ ((pos_part a + unit - 1) / unit * unit) (neg_part a / unit * unit);
  to_float = λ a. a;
  infinity = pos (10 ^ 30);
  max_value = pos (10 ^ 29);
  is_finite = λ a. ltb (size a) (10 ^ 30);
  of_ℕ = λ n. pos (n * unit);
  to_ℕ = λ a. pos_part a / unit;
}

pub Micro-IsOrdered : IsOrdered Micro
Micro-IsOrdered = record {
  lt_irrefl = λ x. ground arith;
  lt_trans = λ x y z p q. ground arith;
  le_trans = λ x y z p q. ground arith;
  lt_le_trans = λ x y z p q. ground arith;
  le_lt_trans = λ x y z p q. ground arith;
  le_of_lt = λ x y p. ground arith;
  not_lt_of_le = λ x y p. ground arith;
  le_of_not_lt = λ x y p q h. ground arith;
  number_of_lt = λ x y h. ground arith;
  number_of_le = λ x y h. ground arith;
}

pub Micro-IsExact : IsExact Micro
Micro-IsExact = record {
  num_lt = λ a b p q. ground arith;
  num_le = λ a b p q. ground arith;
  neg_lt = λ a b p q r. ground arith;
  num_add = λ a b p. ground arith;
  num_sub = λ a b p q. ground arith;
}
