-- ===== src/Math.antt =====
-- programs/token-mill/src/math/mod.rs: the arithmetic of one price interval. The crate `ruint`,
-- which the program calls for its 256-bit products and square roots, is the parameter `R`.
pub mod Bounds
pub mod Steps
use sol_token_mill.Word
use sol_token_mill.Word.U64
use sol_token_mill.Word.U128
use sol_token_mill.Base.{Option, if◌then◌else◌, leb, ltb, none, some, ℕ, ◌*◌, ◌==◌}
use sol_token_mill.Constant.{scale}
use sol_token_mill.Errors.{Result, ok, or_fail, panic, ◌>>=◌, ◌>>◌}
use sol_token_mill.Ruint.{Ruint}

pub data Rounding : Type 0 where
  up down : Rounding

-- `try_into().ok()` into `u128`.
abbrev narrow : ℕ → Option ℕ
narrow q = if ltb q U128.lim then some q else none

-- The `1` or `0` that `div` adds: `a % b` is computed only when rounding up.
abbrev round_up : ℕ → ℕ → Rounding → Result ℕ
round_up a b up = do m ← Word.rem a b; ok (if m == 0 then 0 else 1)
round_up a b down = ok 0

unfoldable pub div : ℕ → ℕ → Rounding → Result ℕ
div a b rounding = do
  extra ← round_up a b rounding
  q ← Word.try_from U64.lim (← Word.div a b)
  U64.add q extra

module _ (R : Ruint) where
  abbrev round_quotient : ℕ → ℕ → Rounding → ℕ
  round_quotient prod denominator up = R.div_ceil prod denominator
  round_quotient prod denominator down = (R.div_rem prod denominator).0

  unfoldable pub mul_div : ℕ → ℕ → ℕ → Rounding → Option ℕ
  mul_div x y denominator rounding = if denominator == 0 then none else elim (R.checked_mul x y) [
    | none ↦ none
    | some prod ↦ narrow (round_quotient prod denominator rounding)
  ]

  unfoldable pub get_sqrt_discriminant : ℕ → ℕ → ℕ → ℕ → Result ℕ
  get_sqrt_discriminant price_diff price_0 width_scaled current_quote = do
    wd ← U128.mul width_scaled price_diff
    q ← U128.mul (← U128.mul current_quote 2) scale
    let dl = R.mul wd q
    a ← U128.mul price_0 width_scaled
    b ← U128.mul price_0 width_scaled
    let dr = R.mul a b
    Word.in_range U128.lim (R.root (R.add dl dr) 2)

  -- The second branch of `get_delta_base_in`.
  unfoldable pub partial_base_in : ℕ → ℕ → ℕ → ℕ → ℕ → ℕ → Result (ℕ × ℕ)
  partial_base_in price_diff price_0 width_scaled interval_supply_available current_quote
        remaining_quote =
      do
        sqrt_discriminant ←
            get_sqrt_discriminant price_diff price_0 width_scaled
              (← Word.sub current_quote remaining_quote)
        rl ←
            U128.add (← U128.mul price_0 width_scaled)
              (← U128.mul price_diff interval_supply_available)
        delta_base ← div (← Word.sub rl sqrt_discriminant) price_diff up
        ok (delta_base, remaining_quote)

  unfoldable pub get_delta_base_in : ℕ → ℕ → ℕ → ℕ → ℕ → Result (ℕ × ℕ)
  get_delta_base_in price_0 price_1 width_scaled interval_supply_available remaining_quote = do
    price_diff ← Word.sub price_1 price_0
    y ←
        U128.add (← U128.mul price_diff interval_supply_available)
          (← U128.mul (← U128.mul 2 price_0) width_scaled)
    denominator ← U128.mul (2 * scale) width_scaled
    current_quote ← or_fail (mul_div interval_supply_available y denominator down) panic
    if leb current_quote remaining_quote
        then ok (interval_supply_available, current_quote)
        else partial_base_in price_diff price_0 width_scaled interval_supply_available current_quote
            remaining_quote

  -- The second branch of `get_delta_base_out`.
  unfoldable pub partial_base_out : ℕ → ℕ → ℕ → ℕ → ℕ → ℕ → Result (ℕ × ℕ)
  partial_base_out price_diff price_0 width_scaled interval_supply_already_used current_quote
        remaining_quote =
      do
        sqrt_discriminant ←
            get_sqrt_discriminant price_diff price_0 width_scaled
              (← U128.add current_quote remaining_quote)
        rr ←
            U128.add (← U128.mul price_0 width_scaled)
              (← U128.mul price_diff interval_supply_already_used)
        delta_base ← div (← Word.sub sqrt_discriminant rr) price_diff down
        ok (delta_base, remaining_quote)

  unfoldable pub get_delta_base_out : ℕ → ℕ → ℕ → ℕ → ℕ → Result (ℕ × ℕ)
  get_delta_base_out price_0 price_1 width_scaled interval_supply_already_used remaining_quote = do
    price_diff ← Word.sub price_1 price_0
    y ←
        U128.add (← U128.mul price_diff interval_supply_already_used)
          (← U128.mul (← U128.mul 2 price_0) width_scaled)
    denominator ← U128.mul (2 * scale) width_scaled
    current_quote ← or_fail (mul_div interval_supply_already_used y denominator down) panic
    total ← U128.mul (← U128.add price_0 price_1) width_scaled
    next_quote ← div total (2 * scale) up
    max_quote ← Word.sub next_quote current_quote
    if leb max_quote remaining_quote
        then (do used ← Word.sub width_scaled interval_supply_already_used; ok (used, max_quote))
        else partial_base_out price_diff price_0 width_scaled interval_supply_already_used
            current_quote remaining_quote
