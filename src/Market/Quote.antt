-- ===== src/Market/Quote.antt =====
-- programs/token-mill/src/state/market.rs: the quote amount for a base amount.
use sol_token_mill.Word
use sol_token_mill.Word.U64
use sol_token_mill.Word.U128
use sol_token_mill.Math
use sol_token_mill.Base.{List, [], drop, if◌then◌else◌, min, ℕ, ◌*◌, ◌+◌, ◌==◌, ◌∷◌}
use sol_token_mill.Constant.{base_precision, scale}
use sol_token_mill.Errors.{Result, error, math_error, ok, or_fail, ◌>>=◌}
use sol_token_mill.Market.{Market, circulating_supply, index}
use sol_token_mill.Math.{Rounding, down, up}
use sol_token_mill.Ruint.{Ruint}
use sol_token_mill.SwapTypes.{SwapAmountType, exact_input, exact_output}
use sol_token_mill.Word.{power_of_ten}

-- The quote amount of `delta_base` tokens within one interval. Its prices are `price_0` and
-- `price_1` at the ends, and `used` tokens of it are already sold.
unfoldable pub interval_quote : Ruint → ℕ → ℕ → ℕ → ℕ → ℕ → Rounding → Result ℕ
interval_quote R price_0 price_1 width used delta_base rounding = do
  price_diff ← Word.sub price_1 price_0
  span ← U128.add delta_base (← U128.mul 2 used)
  y ← U128.add (← U128.mul price_diff span) (← U128.mul (← U128.mul 2 price_0) width)
  denominator ← U128.mul (2 * scale) width
  or_fail (Math.mul_div R delta_base y denominator rounding) (error math_error)

-- The loop over the prices from index `i` on: `price_0` is the price before them. The base amount
-- that is left and the quote amount so far are returned. The list is empty when `i` reaches
-- `PRICES_LENGTH`.
unfoldable pub quote_loop : Ruint → Rounding → ℕ → ℕ → List ℕ → ℕ → ℕ → ℕ → Result (ℕ × ℕ)
quote_loop R rounding width price_0 [] used left quote = ok (left, quote)
quote_loop R rounding width price_0 (price_1 ∷ prices) used left quote =
    if left == 0 then ok (left, quote) else do
      room ← Word.sub width used
      let delta_base = min left room
      delta_quote ← interval_quote R price_0 price_1 width used delta_base rounding
      left' ← Word.sub left delta_base
      quote' ← U128.add quote delta_quote
      quote_loop R rounding width price_1 prices 0 left' quote'

abbrev pub curve_of : Market → SwapAmountType → List ℕ
curve_of m exact_input = m.bid_prices
curve_of m exact_output = m.ask_prices

-- An amount of base tokens at the internal scale.
abbrev pub normalize_base : ℕ → Result ℕ
normalize_base amount = do Word.div (← U128.mul amount scale) base_precision

unfoldable pub get_quote_amount_with_parameters :
    Ruint → Market → ℕ → ℕ → SwapAmountType → Rounding → Result (ℕ × ℕ)
get_quote_amount_with_parameters R m supply base_amount swap_amount_type rounding = do
  let price_curve = curve_of m swap_amount_type
  normalized_supply ← normalize_base supply
  normalized_base_amount ← normalize_base base_amount
  i ← Word.try_from U64.lim (← Word.div normalized_supply m.width_scaled)
  used ← Word.rem normalized_supply m.width_scaled
  price_0 ← index price_curve i
  (left, normalized_quote_amount) ←
      quote_loop R rounding m.width_scaled price_0 (drop (i + 1) price_curve) used
        normalized_base_amount 0
  unswapped ← Math.div (← U128.mul left base_precision) scale rounding
  base_amount_swapped ← Word.sub base_amount unswapped
  quote_precision ← power_of_ten m.quote_token_decimals
  quote_amount_swapped ←
      Math.div (← U128.mul normalized_quote_amount quote_precision) scale rounding
  ok (base_amount_swapped, quote_amount_swapped)

unfoldable pub get_quote_amount : Ruint → Market → ℕ → SwapAmountType → Result (ℕ × ℕ)
get_quote_amount R m base_amount exact_input = do
  supply ← Word.sub (← circulating_supply m) base_amount
  get_quote_amount_with_parameters R m supply base_amount exact_input down
get_quote_amount R m base_amount exact_output = do
  supply ← circulating_supply m
  get_quote_amount_with_parameters R m supply base_amount exact_output up
