-- ===== src/Tests/MicroLaws.antt =====
-- The laws of the line search and of the conversion to float hold for whole millionths.
use mpc_ws.Prelude.{subst, ℕ, suc, ◌≡◌, refl, ap, ◌∙◌, true, false, arith}
use mpc_ws.Double.{◌+◌, ◌-◌, ◌*◌, ◌<◌, decimal, num}
use mpc_ws.Prelude.Int.{pos, negsuc}
use Prim.Native.Nat
use mpc_ws.Controller.Loop.Command.{IsFloat}
use mpc_ws.Controller.Solver.Improving.{IsSearch}
use mpc_ws.Double.Micro.{Micro, micro}
use mpc_ws.Prelude.{subst, ℕ, suc, ◌≡◌, refl, ap, ◌∙◌, true, false, arith}
use mpc_ws.Double.{◌+◌, ◌-◌, ◌*◌, ◌<◌, decimal, num}
use mpc_ws.Prelude.Int.{pos, negsuc}
use mpc_ws.Double.Micro.{Micro, micro}

-- A number that is not negative.
natural : (a : Micro) → a < num 0 ≡ false → (n : ℕ) × (a ≡ pos n)
natural (pos n) h = (n, refl)
natural (negsuc n) h = absurd (ground arith)

plus-pos : (x y : ℕ) → ◌+◌ {R = Micro} (pos x) (pos y) ≡ pos (Nat.◌+◌ x y)
plus-pos x y = ground arith

times-pos : (x y : ℕ) → ◌*◌ {R = Micro} (pos x) (pos y) ≡ pos (Nat.◌/◌ (Nat.◌*◌ x y) 1000000)
times-pos x y = ground arith

square-pos : (a : Micro) → (n : ℕ) × (a * a ≡ pos n)
square-pos (pos x) = (Nat.◌/◌ (Nat.◌*◌ x x) 1000000, times-pos x x)
square-pos (negsuc x) = (Nat.◌/◌ (Nat.◌*◌ (suc x) (suc x)) 1000000, ground arith)

not_negative : (n : ℕ) → ◌<◌ {R = Micro} (pos n) (num 0) ≡ false
not_negative n = ground arith

less-minus : (c x : Micro) (z : ℕ) → c < x - pos z ≡ true → c < x ≡ true
less-minus c x z h = ground arith

pub Micro-IsSearch : IsSearch Micro
Micro-IsSearch = record {
  add_squares = λ acc a b h.
      let (z, e) = natural acc h in
      let (x, p) = square-pos a in
      let (y, q) = square-pos b in
      rw (e, p, q)
        (rw (plus-pos x y)
          (rw (plus-pos z (Nat.◌+◌ x y)) (not_negative (Nat.◌+◌ z (Nat.◌+◌ x y)))));
  half = λ a h.
      let (n, e) = natural a h in
      rw (e) (rw (times-pos n 500000) (not_negative (Nat.◌/◌ (Nat.◌*◌ n 500000) 1000000)));
  grow = λ a h.
      let (n, e) = natural a h in
      rw (e) (rw (times-pos n 1500000) (not_negative (Nat.◌/◌ (Nat.◌*◌ n 1500000) 1000000)));
  less = λ c x a n p q h.
      let (i, e) = natural a p in
      let (j, f) = natural n q in
      let factor : ◌*◌ {R = Micro} (decimal 1 4) a ≡ pos (Nat.◌/◌ (Nat.◌*◌ 100 i) 1000000) =
        ap (λ (b : Micro). decimal 1 4 * b) e ∙ times-pos 100 i in
      let product : decimal 1 4 * a * n
          ≡ pos (Nat.◌/◌ (Nat.◌*◌ (Nat.◌/◌ (Nat.◌*◌ 100 i) 1000000) j) 1000000) =
        ap (λ (b : Micro). b * n) factor
        ∙ ap (λ (b : Micro). pos (Nat.◌/◌ (Nat.◌*◌ 100 i) 1000000) * b) f
        ∙ times-pos (Nat.◌/◌ (Nat.◌*◌ 100 i) 1000000) j in
      less-minus c x (Nat.◌/◌ (Nat.◌*◌ (Nat.◌/◌ (Nat.◌*◌ 100 i) 1000000) j) 1000000)
        (subst (λ (k : Micro). c < x - k ≡ true) product h);
}

pub Micro-IsFloat : IsFloat Micro
Micro-IsFloat = record {
  to_float_mono = λ x y h. h;
  to_float_num = λ n h. refl;
  to_float_neg = λ n h. refl;
}
