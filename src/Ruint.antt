-- ===== src/Ruint.antt =====
-- The operations of the crate `ruint` that the program calls on `U256`, a parameter of the model: a
-- value of `U256` is a number below 2 ^ 256. `Laws` states what the crate documents of them.
pub mod Concrete
use sol_token_mill.Base.{
  Option, if◌then◌else◌, ltb, none, some, ℕ, ◌%◌, ◌*◌, ◌+◌, ◌/◌, ◌<◌, ◌^◌, ◌≡◌, ◌≤◌,
}
use sol_token_mill.Base.Arith.{div_up}

abbrev pub lim256 : ℕ
lim256 = 2 ^ 256

pub record Ruint : Type 0 where
  pub mul : ℕ → ℕ → ℕ
  pub add : ℕ → ℕ → ℕ
  pub checked_mul : ℕ → ℕ → Option ℕ
  pub div_ceil : ℕ → ℕ → ℕ
  pub div_rem : ℕ → ℕ → ℕ × ℕ
  pub root : ℕ → ℕ → ℕ

-- The operators are exact where the result fits, `checked_mul` is `None` where it does not, and
-- `root` is the floor of the root.
pub record Laws (R : Ruint) : Type 0 where
  pub mul_exact : (a b : ℕ) → a * b < lim256 → R.mul a b ≡ a * b
  pub add_exact : (a b : ℕ) → a + b < lim256 → R.add a b ≡ a + b
  pub checked_mul_exact :
      (a b : ℕ) → R.checked_mul a b ≡ (if ltb (a * b) lim256 then some (a * b) else none)
  pub div_ceil_exact : (a d : ℕ) → 0 < d → R.div_ceil a d ≡ div_up a d
  pub div_rem_exact : (a d : ℕ) → 0 < d → R.div_rem a d ≡ (a / d, a % d)
  pub root_floor :
      (a : ℕ)
      → a < lim256
      → (R.root a 2 * R.root a 2 ≤ a) × (a < (R.root a 2 + 1) * (R.root a 2 + 1))
