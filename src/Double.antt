-- ===== src/Double.antt =====
-- What the program does with a `double`: the operations of the language and of <cmath> and
-- <algorithm>, over any type of numbers. Tests are Boolean, as in the source.
pub mod Laws
pub mod Micro
pub mod Steps
pub mod Least
use Prim.Native.Nat.{ℕ}
use mathlib.Core.Bool.{Bool, not}
use mpc_ws.Prelude.{if◌then◌else◌}

pub record Double (R : Type 0) : Type 0 where
  -- `decimal m e` is the literal m · 10^-e.
  pub decimal : ℕ → ℕ → R
  pub add : R → R → R
  pub sub : R → R → R
  pub mul : R → R → R
  pub div : R → R → R
  pub neg : R → R
  pub lt : R → R → Bool
  pub le : R → R → Bool
  pub abs : R → R
  pub sqrt : R → R
  pub sin : R → R
  pub cos : R → R
  pub tan : R → R
  pub atan2 : R → R → R
  pub hypot : R → R → R
  pub fmod : R → R → R
  pub remainder : R → R → R
  pub round : R → R
  pub ceil : R → R
  -- `static_cast<float>`, read back as a double.
  pub to_float : R → R
  pub infinity : R
  pub max_value : R
  pub is_finite : R → Bool
  -- `static_cast<double>` of a count, and `static_cast<int>` of a number that is not negative.
  pub of_ℕ : ℕ → R
  pub to_ℕ : R → ℕ

module _ {R : Type 0} ⦃d : Double R⦄ where
  infixl 65 ◌+◌ ◌-◌
  infixl 70 ◌*◌ ◌/◌
  infix 50 ◌<◌ ◌≤◌ ◌>◌ ◌≥◌
  abbrev pub ◌+◌ : R → R → R
  a + b = d.add a b

  abbrev pub ◌-◌ : R → R → R
  a - b = d.sub a b

  abbrev pub ◌*◌ : R → R → R
  a * b = d.mul a b

  abbrev pub ◌/◌ : R → R → R
  a / b = d.div a b

  abbrev pub ◌<◌ : R → R → Bool
  a < b = d.lt a b

  abbrev pub ◌≤◌ : R → R → Bool
  a ≤ b = d.le a b

  abbrev pub ◌>◌ : R → R → Bool
  a > b = d.lt b a

  abbrev pub ◌≥◌ : R → R → Bool
  a ≥ b = d.le b a

  abbrev pub neg : R → R
  neg a = d.neg a

  abbrev pub abs : R → R
  abs a = d.abs a

  abbrev pub decimal : ℕ → ℕ → R
  decimal m e = d.decimal m e

  -- A literal with no fraction.
  abbrev pub num : ℕ → R
  num n = d.decimal n 0

  -- std::max, std::min and std::clamp, with the comparisons that they make.
  abbrev pub max : R → R → R
  max a b = if d.lt a b then b else a

  abbrev pub min : R → R → R
  min a b = if d.lt b a then b else a

  abbrev pub clamp : R → R → R → R
  clamp v lo hi = if d.lt v lo then lo else if d.lt hi v then hi else v
