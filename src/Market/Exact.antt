-- ===== src/Market/Exact.antt =====
-- programs/token-mill/src/state/market.rs: the base amount for a quote amount.
pub mod Step
pub mod Root
pub mod Units
pub mod Dust
pub mod SaleLoop
pub mod Sale
pub mod PurchaseLoop
pub mod Purchase
use sol_token_mill.Word
use sol_token_mill.Word.U64
use sol_token_mill.Word.U128
use sol_token_mill.Math
use sol_token_mill.Base.{List, [], drop, if◌then◌else◌, suc, zero, ℕ, ◌+◌, ◌==◌, ◌∷◌}
use sol_token_mill.Constant.{base_precision, scale}
use sol_token_mill.Errors.{Result, ok, ◌>>=◌}
use sol_token_mill.Market.{Market, circulating_supply, index}
use sol_token_mill.Market.Quote.{normalize_base}
use sol_token_mill.Math.{Rounding, down, up}
use sol_token_mill.Ruint.{Ruint}
use sol_token_mill.Word.{power_of_ten}

-- `normalized_quote_amount_left` before the loop, and the precision of the quote token.
abbrev pub normalize_quote : Market → ℕ → Result (ℕ × ℕ)
normalize_quote m quote_amount = do
  quote_precision ← power_of_ten m.quote_token_decimals
  left ← Word.div (← U128.mul quote_amount scale) quote_precision
  ok (left, quote_precision)

-- The amounts that both functions return after their loops.
abbrev pub swapped_amounts : ℕ → ℕ → ℕ → ℕ → Rounding → Result (ℕ × ℕ)
swapped_amounts quote_amount quote_precision base left rounding = do
  base_amount_swapped ← Math.div (← U128.mul base base_precision) scale rounding
  unswapped ← Math.div (← U128.mul left quote_precision) scale rounding
  quote_amount_swapped ← Word.sub quote_amount unswapped
  ok (base_amount_swapped, quote_amount_swapped)

-- The loop of `get_base_amount_in`, down from index `i`; `price_1` is the price at `i`. It returns
-- the base amount and the quote amount that is left.
unfoldable pub base_in_loop : Ruint → List ℕ → ℕ → ℕ → ℕ → ℕ → ℕ → ℕ → Result (ℕ × ℕ)
base_in_loop R curve width zero price_1 available left base = ok (base, left)
base_in_loop R curve width (suc i) price_1 available left base =
    if left == 0 then ok (base, left) else do
      price_0 ← index curve i
      (delta_base, delta_quote) ← Math.get_delta_base_in R price_0 price_1 width available left
      base' ← U128.add base delta_base
      left' ← Word.sub left delta_quote
      base_in_loop R curve width i price_0 width left' base'

-- The interval in which a sale begins: where the supply stands at a border, the one below.
abbrev pub start_below : ℕ → ℕ → ℕ → ℕ × ℕ
start_below width i available = if available == 0 then (i, width) else (suc i, available)

unfoldable pub get_base_amount_in : Ruint → Market → ℕ → Result (ℕ × ℕ)
get_base_amount_in R m quote_amount = do
  supply ← circulating_supply m
  normalized_supply ← normalize_base supply
  (left, quote_precision) ← normalize_quote m quote_amount
  n ← Word.try_from U64.lim (← Word.div normalized_supply m.width_scaled)
  rest ← Word.rem normalized_supply m.width_scaled
  let (i, available) = start_below m.width_scaled n rest
  price_1 ← index m.bid_prices i
  (base, left') ← base_in_loop R m.bid_prices m.width_scaled i price_1 available left 0
  swapped_amounts quote_amount quote_precision base left' up

-- The loop of `get_base_amount_out` over the prices after `price_0`. The list is empty when `i`
-- reaches `PRICES_LENGTH - 1`.
unfoldable pub base_out_loop : Ruint → ℕ → ℕ → List ℕ → ℕ → ℕ → ℕ → Result (ℕ × ℕ)
base_out_loop R width price_0 [] used left base = ok (base, left)
base_out_loop R width price_0 (price_1 ∷ prices) used left base =
    if left == 0 then ok (base, left) else do
      (delta_base, delta_quote) ← Math.get_delta_base_out R price_0 price_1 width used left
      base' ← U128.add base delta_base
      left' ← Word.sub left delta_quote
      base_out_loop R width price_1 prices 0 left' base'

unfoldable pub get_base_amount_out : Ruint → Market → ℕ → Result (ℕ × ℕ)
get_base_amount_out R m quote_amount = do
  supply ← circulating_supply m
  normalized_supply ← normalize_base supply
  (left, quote_precision) ← normalize_quote m quote_amount
  i ← Word.try_from U64.lim (← Word.div normalized_supply m.width_scaled)
  used ← Word.rem normalized_supply m.width_scaled
  price_0 ← index m.ask_prices i
  (base, left') ← base_out_loop R m.width_scaled price_0 (drop (i + 1) m.ask_prices) used left 0
  swapped_amounts quote_amount quote_precision base left' down
