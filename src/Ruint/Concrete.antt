-- ===== src/Ruint/Concrete.antt =====
-- An instance of the parameter `Ruint` that runs, and that has its laws: wrapping operators, and the
-- square root digit by digit.
use native.Mathlib.Nat.{mod-eq_of_lt}
use sol_token_mill.Base.{
  Bool-cases, arith, if◌then◌else◌, inl, inr, leb, leb→le, ltb, none, refl, some, suc, zero, ℕ, ◌%◌,
  ◌*◌, ◌+◌, ◌/◌, ◌<◌, ◌≡◌, ◌≤◌,
}
use sol_token_mill.Base.Arith.{div_up}
use sol_token_mill.Ruint.{Laws, Ruint, lim256}

abbrev pow4 : ℕ → ℕ
pow4 zero = 1
pow4 (suc f) = 4 * pow4 f

-- The root of `a` from that of `a / 4`.
next_digit : ℕ → ℕ → ℕ
next_digit a r = if leb ((2 * r + 1) * (2 * r + 1)) a then 2 * r + 1 else 2 * r

pub isqrt : ℕ → ℕ → ℕ
isqrt zero a = 0
isqrt (suc f) a = next_digit a (isqrt f (a / 4))

next_digit_floor :
    (a r : ℕ)
    → r * r ≤ a / 4
    → a / 4 < (r + 1) * (r + 1)
    → (next_digit a r * next_digit a r ≤ a) × (a < (next_digit a r + 1) * (next_digit a r + 1))
unfolding next_digit
next_digit_floor a r low high = elim (Bool-cases (leb ((2 * r + 1) * (2 * r + 1)) a)) [
  | inl one ↦ rw one (omega (arith, leb→le ((2 * r + 1) * (2 * r + 1)) a one))
  | inr rest ↦ let below : a < (2 * r + 1) * (2 * r + 1) = ground arith in rw rest (omega arith)
]

isqrt_floor :
    (f a : ℕ) → a < pow4 f → (isqrt f a * isqrt f a ≤ a) × (a < (isqrt f a + 1) * (isqrt f a + 1))
unfolding isqrt
isqrt_floor zero a h = omega arith
isqrt_floor (suc f) a h =
    let (low, high) = isqrt_floor f (a / 4) (omega arith) in
    next_digit_floor a (isqrt f (a / 4)) low high

unfoldable pub concrete : Ruint
unfolding isqrt next_digit
concrete = record {
  mul = λ a b. (a * b) % lim256;
  add = λ a b. (a + b) % lim256;
  checked_mul = λ a b. if ltb (a * b) lim256 then some (a * b) else none;
  div_ceil = λ a d. div_up a d;
  div_rem = λ a d. (a / d, a % d);
  root = λ a n. isqrt 128 a;
}

pow4-lim256 : pow4 128 ≡ lim256
pow4-lim256 = refl

pub concrete-Laws : Laws concrete
unfolding concrete
concrete-Laws = record {
  mul_exact = λ a b h. mod-eq_of_lt h;
  add_exact = λ a b h. mod-eq_of_lt h;
  checked_mul_exact = λ a b. refl;
  div_ceil_exact = λ a d h. refl;
  div_rem_exact = λ a d h. refl;
  root_floor = λ a h. isqrt_floor 128 a (rw pow4-lim256 h);
}
