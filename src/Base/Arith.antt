-- ===== src/Base/Arith.antt =====
-- Division on the native numbers: the bounds that the other modules use.
use Prim.Native.Nat.{ℕ, ◌+◌, ◌-◌, ◌*◌, ◌/◌, ◌%◌, ◌≤◌, ◌<◌}
use mathlib.Core.Path.{◌≡◌}
use native.Mathlib.Omega.{arith}
use native.Mathlib.Nat.{
  mul-le-mul_right, div-eq_of_lt-le, add-mul, div-add-mod', mod-lt, le-div_iff_mul-le,
  div-lt_iff_lt-mul,
}
use sol_token_mill.Base.{
  ==_iff, Bool-cases, arith, if◌then◌else◌, inl, inr, ℕ, ◌%◌, ◌*◌, ◌+◌, ◌-◌, ◌/◌, ◌<◌, ◌==◌, ◌≡◌,
  ◌≤◌,
}

-- The quotient rounded up.
abbrev pub div_up : ℕ → ℕ → ℕ
div_up a d = (a + (d - 1)) / d

pub div-mul-le : (a d : ℕ) → a / d * d ≤ a
div-mul-le a d = omega (arith, div-add-mod' a d)

pub lt-div-mul-add : (a d : ℕ) → 0 < d → a < a / d * d + d
lt-div-mul-add a d h = omega (arith, div-add-mod' a d, mod-lt a h)

pub le-div_of_mul-le : (k a d : ℕ) → 0 < d → k * d ≤ a → k ≤ a / d
le-div_of_mul-le k a d h = (le-div_iff_mul-le h).1

pub div-lt_of_lt-mul : (k a d : ℕ) → 0 < d → a < k * d → a / d < k
div-lt_of_lt-mul k a d h = (div-lt_iff_lt-mul h).1

pub div_mono : (a b d : ℕ) → 0 < d → a ≤ b → a / d ≤ b / d
div_mono a b d h le = le-div_of_mul-le (a / d) b d h (omega (arith, div-mul-le a d))

-- Rounding up adds one where the division leaves a rest.
pub div_up-eq : (a d : ℕ) → 0 < d → div_up a d ≡ a / d + (if a % d == 0 then 0 else 1)
div_up-eq a d h = elim (Bool-cases (a % d == 0)) [
  | inl whole ↦ rw whole (
      div-eq_of_lt-le {k = a / d + 0} d (omega (arith, div-add-mod' a d, mod-lt a h)) (
        omega (
          arith,
          div-add-mod' a d,
          mod-lt a h,
          add-mul (a / d + 0) 1 d,
          (==_iff (a % d) 0).0 whole,
        )))
  | inr rest ↦ rw rest (
      div-eq_of_lt-le {k = a / d + 1} d
        (ground (arith, div-add-mod' a d, mod-lt a h, add-mul (a / d) 1 d))
        (ground
          (arith, div-add-mod' a d, mod-lt a h, add-mul (a / d) 1 d, add-mul (a / d + 1) 1 d)))
]

pub div_up-le : (a d k : ℕ) → 0 < d → a ≤ d * k → div_up a d ≤ k
div_up-le a d k h le =
    let below : (a + (d - 1)) / d < k + 1 =
      div-lt_of_lt-mul (k + 1) (a + (d - 1)) d h (omega (arith, add-mul k 1 d)) in
    omega arith

pub mul-lt_of_lt-div_up : (k a d : ℕ) → 0 < d → k < div_up a d → k * d < a
mul-lt_of_lt-div_up k a d h lt =
    let enough : (k + 1) * d ≤ a + (d - 1) = omega (
      arith,
      div-mul-le (a + (d - 1)) d,
      mul-le-mul_right {m = k + 1} {n = div_up a d} d (omega arith),
    ) in
    omega (arith, add-mul k 1 d)

pub div-le_of_le-mul : (k a d : ℕ) → 0 < d → a ≤ k * d → a / d ≤ k
div-le_of_le-mul k a d h le =
    let below : a / d < k + 1 = div-lt_of_lt-mul (k + 1) a d h (omega (arith, add-mul k 1 d)) in
    omega arith
