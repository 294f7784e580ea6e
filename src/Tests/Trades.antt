-- ===== src/Tests/Trades.antt =====
-- Trades by base amount, and their quotes.
use sol_token_mill.SwapManager
use sol_token_mill.Base.{arith, refl, ℕ, ◌+◌, ◌≡◌, ◌≤◌}
use sol_token_mill.Errors.{ok}
use sol_token_mill.Market.{Market, circulating_supply}
use sol_token_mill.Market.Complete.{CurveFits, get_quote_complete}
use sol_token_mill.Market.Quote.{
  get_quote_amount, get_quote_amount_with_parameters, interval_quote, quote_loop,
}
use sol_token_mill.Market.Spread.{CurveBelow, get_quote_mono}
use sol_token_mill.Math.{div, down, mul_div, up}
use sol_token_mill.Ruint.Concrete.{concrete, concrete-Laws}
use sol_token_mill.SwapManager.{Swapped, settle, swap_amounts}
use sol_token_mill.SwapManager.Complete.{swap_complete}
use sol_token_mill.SwapManager.RoundTrip.{buy_then_sell-le}
use sol_token_mill.SwapManager.Unpriced.{unpriced_purchase}
use sol_token_mill.SwapTypes.{SwapAmountType, buy, exact_input, exact_output, sell}
use sol_token_mill.Tests.Histories.{default_CurvesValid}
use sol_token_mill.Tests.Trading.{market, market-Tradable, unpriced}
use sol_token_mill.Word.{power_of_ten}

-- All that is bought is sold again.
abbrev after_purchase : Market
after_purchase = record market { base_reserve = 749_000_000_000 }

abbrev bought : Swapped
bought = record {
  base_amount = 1_000_000_000;
  quote_amount = 2_505_000_000;
  swap_fee = 250_500_000;
}

abbrev sold : Swapped
sold = record { base_amount = 1_000_000_000; quote_amount = 2_254_500_000; swap_fee = 0 }

purchase_by_base :
    SwapManager.swap concrete market buy exact_output 1_000_000_000 ≡ ok (bought, after_purchase)
unfolding SwapManager.swap swap_amounts settle get_quote_amount get_quote_amount_with_parameters
    circulating_supply quote_loop interval_quote mul_div div power_of_ten concrete
purchase_by_base = refl

sale_by_base :
    SwapManager.swap concrete after_purchase sell exact_input 1_000_000_000 ≡ ok (sold, market)
unfolding SwapManager.swap swap_amounts settle get_quote_amount get_quote_amount_with_parameters
    circulating_supply quote_loop interval_quote mul_div div power_of_ten concrete
sale_by_base = refl

buy_then_sell-le_example :
    (2_254_500_000 + 250_500_000 ≤ 2_505_000_000) × (750_000_000_000 ≤ 750_000_000_000)
buy_then_sell-le_example =
    buy_then_sell-le concrete-Laws market after_purchase market 1_000_000_000 bought sold
      default_CurvesValid purchase_by_base sale_by_base

default_CurveFits : (kind : SwapAmountType) → CurveFits market kind 100_000_000
default_CurveFits exact_input = record {
  eleven = refl;
  rises = omega arith;
  at_most = omega arith;
  positive = omega arith;
  price_le = omega arith;
  payable = omega arith;
}
default_CurveFits exact_output = record {
  eleven = refl;
  rises = omega arith;
  at_most = omega arith;
  positive = omega arith;
  price_le = omega arith;
  payable = omega arith;
}

-- The whole reserve is bought.
swap_complete_example :
    (s : Swapped) × (m' : Market) × (SwapManager.swap concrete market buy exact_output
        750_000_000_000
      ≡ ok (s, m'))
    × (s.base_amount ≡ 750_000_000_000)
swap_complete_example =
    swap_complete concrete-Laws market buy 750_000_000_000 100_000_000 market-Tradable.reserve
      (default_CurveFits exact_input) (default_CurveFits exact_output) (omega arith)

-- 1000 tokens at the bid prices, and 2000 at the ask prices.
bid_run :
    get_quote_amount_with_parameters concrete market 250_000_000_000 1_000_000_000 exact_input down
    ≡ ok (1_000_000_000, 2_254_500_000)
unfolding get_quote_amount_with_parameters quote_loop interval_quote mul_div div power_of_ten
    concrete
bid_run = refl

ask_run :
    get_quote_amount_with_parameters concrete market 250_000_000_000 2_000_000_000 exact_output up
    ≡ ok (2_000_000_000, 5_020_000_000)
unfolding get_quote_amount_with_parameters quote_loop interval_quote mul_div div power_of_ten
    concrete
ask_run = refl

default_CurveBelow : CurveBelow market exact_input exact_output
default_CurveBelow = record { lengths = refl; below = omega arith }

get_quote_mono_example : 2_254_500_000 ≤ 5_020_000_000
get_quote_mono_example =
    get_quote_mono concrete-Laws market 250_000_000_000 1_000_000_000 2_000_000_000 exact_input
      exact_output down up tt default_CurveBelow (omega arith) bid_run ask_run

get_quote_complete_example :
    (paid : ℕ) × (get_quote_amount_with_parameters concrete market 250_000_000_000 750_000_000_000
        exact_output up
      ≡ ok (750_000_000_000, paid))
get_quote_complete_example =
    get_quote_complete concrete-Laws market 250_000_000_000 750_000_000_000 100_000_000 exact_output
      up market-Tradable.reserve (default_CurveFits exact_output) (omega arith)

-- All of the reserve for 0.
unpriced_purchase_example :
    (s : Swapped) × (m' : Market) × (SwapManager.swap concrete unpriced buy exact_output
        750_000_000_000
      ≡ ok (s, m'))
    × (s.base_amount ≡ 750_000_000_000)
    × (s.quote_amount ≡ 0)
unpriced_purchase_example =
    unpriced_purchase concrete-Laws unpriced 750_000_000_000
      (record { supply = omega arith; reserve_le = omega arith; width = refl }) refl refl
      (omega arith) (omega arith) (omega arith) (omega arith)
