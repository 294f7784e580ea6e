-- ===== src/Math/Bounds.antt =====
-- programs/token-mill/src/math/mod.rs: `mul_div` and `div` against exact division.
use sol_token_mill.Word.U64
use sol_token_mill.Word.U128
use native.Mathlib.Nat.{mul-le-mul}
use sol_token_mill.Base.{
  arith, if◌then◌else◌, ltb, none, some, ℕ, ◌*◌, ◌-◌, ◌/◌, ◌<◌, ◌==◌, ◌^◌, ◌≡◌, ◌≤◌,
}
use sol_token_mill.Base.Arith.{div_up, div_up-eq}
use sol_token_mill.Errors.{ok}
use sol_token_mill.Math.{Rounding, div, down, mul_div, up}
use sol_token_mill.Ruint.{Laws, Ruint, lim256}

-- The exact quotient under a rounding mode.
abbrev pub quotient : Rounding → ℕ → ℕ → ℕ
quotient up a d = div_up a d
quotient down a d = a / d

pub mul-lt-lim256 : (x y : ℕ) → x < U128.lim → y < U128.lim → x * y < lim256
mul-lt-lim256 x y hx hy =
    let bound : x * y ≤ (2 ^ 128 - 1) * (2 ^ 128 - 1) =
      mul-le-mul {n₂ = 2 ^ 128 - 1} {m₂ = 2 ^ 128 - 1} (omega arith) (omega arith) in
    omega arith

module _ {R : Ruint} (laws : Laws R) where
  -- On two `u128`, where the 256-bit integers obey their laws: `mul_div` is the product divided and
  -- rounded, where the denominator is not zero and the quotient is a `u128`; it is `None` in every
  -- other case.
  pub mul_div_exact :
      (x y d : ℕ) (r : Rounding)
      → x < U128.lim
      → y < U128.lim
      → mul_div R x y d r ≡ (
          if d == 0
          then none
          else if ltb (quotient r (x * y) d) U128.lim
          then some (quotient r (x * y) d)
          else none)
  unfolding mul_div
  mul_div_exact x y d up hx hy =
      ground
        (arith, laws.checked_mul_exact x y, laws.div_ceil_exact (x * y) d, mul-lt-lim256 x y hx hy)
  mul_div_exact x y d down hx hy =
      ground
        (arith, laws.checked_mul_exact x y, laws.div_rem_exact (x * y) d, mul-lt-lim256 x y hx hy)

-- `div`
pub div_exact :
    (a b : ℕ) (r : Rounding) → 0 < b → quotient r a b < U64.lim → div a b r ≡ ok (quotient r a b)
unfolding div
div_exact a b up h fits = ground (arith, div_up-eq a b h)
div_exact a b down h fits = ground arith

-- What a successful `div` has computed.
pub div_sound : (a b : ℕ) (r : Rounding) {q : ℕ} → div a b r ≡ ok q → (0 < b) × (q ≡ quotient r a b)
unfolding div
div_sound a b up h = ground (arith, div_up-eq a b)
div_sound a b down h = ground arith
