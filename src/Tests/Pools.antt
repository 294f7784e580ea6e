-- ===== src/Tests/Pools.antt =====
-- Trades one after the other.
use sol_token_mill.SwapManager
use sol_token_mill.Base.{arith, refl, ◌*◌, ◌+◌, ◌-◌, ◌^◌, ◌≡◌, ◌≤◌}
use sol_token_mill.Errors.{ok}
use sol_token_mill.Market.{Market, circulating_supply}
use sol_token_mill.Market.Exact.{
  base_in_loop, base_out_loop, get_base_amount_in, get_base_amount_out,
}
use sol_token_mill.Market.Exact.Purchase.{get_base_amount_out-Covered}
use sol_token_mill.Market.Exact.Sale.{get_base_amount_in-Covered}
use sol_token_mill.Market.Fair.{unit, worth}
use sol_token_mill.Market.Quote.{
  get_quote_amount, get_quote_amount_with_parameters, interval_quote, quote_loop,
}
use sol_token_mill.Math.{
  div, get_delta_base_in, get_delta_base_out, get_sqrt_discriminant, mul_div, partial_base_in,
  partial_base_out,
}
use sol_token_mill.Ruint.Concrete.{concrete, concrete-Laws}
use sol_token_mill.SwapManager.{Swapped, settle, swap_amounts}
use sol_token_mill.SwapManager.Dust.{dust_sale}
use sol_token_mill.SwapManager.Pool.{Funded, Trades-Funded, then_buy, then_sell, untraded}
use sol_token_mill.SwapTypes.{buy, exact_input, exact_output, sell}
use sol_token_mill.Tests.Histories.{default_CurvesValid}
use sol_token_mill.Tests.Trading.{
  get_base_amount_in_run, get_base_amount_out_run, market, market-Tradable,
}
use sol_token_mill.Word.{power_of_ten}

-- A quarter of the supply is bought from a market that holds it all, and a part of it sold again.
abbrev pub fresh : Market
fresh = record market { base_reserve = 1_000_000_000_000 }

abbrev at_end : Market
at_end = record market { base_reserve = 850_000_000_000 }

abbrev pub quarter : Swapped
quarter = record {
  base_amount = 250_000_000_000;
  quote_amount = 312_500_000_000;
  swap_fee = 31_250_000_000;
}

abbrev tenth : Swapped
tenth = record { base_amount = 100_000_000_000; quote_amount = 180_000_000_000; swap_fee = 0 }

pub quarter_run :
    SwapManager.swap concrete fresh buy exact_output 250_000_000_000 ≡ ok (quarter, market)
unfolding SwapManager.swap swap_amounts settle get_quote_amount get_quote_amount_with_parameters
    circulating_supply quote_loop interval_quote mul_div div power_of_ten concrete
quarter_run = refl

tenth_run : SwapManager.swap concrete market sell exact_input 100_000_000_000 ≡ ok (tenth, at_end)
unfolding SwapManager.swap swap_amounts settle get_quote_amount get_quote_amount_with_parameters
    circulating_supply quote_loop interval_quote mul_div div power_of_ten concrete
tenth_run = refl

-- One whole quote token is spent, and a thousandth of one taken out.
abbrev after_spent : Market
after_spent = record market { base_reserve = 849_334_808_267 }

abbrev after_taken : Market
after_taken = record market { base_reserve = 849_335_545_740 }

abbrev spent_one : Swapped
spent_one = record {
  base_amount = 665_191_733;
  quote_amount = 1_000_000_000;
  swap_fee = 100_000_000;
}

abbrev taken_out : Swapped
taken_out = record { base_amount = 737_473; quote_amount = 1_000_000; swap_fee = 0 }

spent_run :
    SwapManager.swap concrete at_end buy exact_input 1_000_000_000 ≡ ok (spent_one, after_spent)
unfolding SwapManager.swap swap_amounts settle get_base_amount_out get_base_amount_in base_out_loop
    base_in_loop get_delta_base_out get_delta_base_in partial_base_out partial_base_in
    get_sqrt_discriminant get_quote_amount get_quote_amount_with_parameters circulating_supply
    quote_loop interval_quote mul_div div power_of_ten concrete
spent_run = refl

taken_run :
    SwapManager.swap concrete after_spent sell exact_output 1_000_000 ≡ ok (taken_out, after_taken)
unfolding SwapManager.swap swap_amounts settle get_base_amount_out get_base_amount_in base_out_loop
    base_in_loop get_delta_base_out get_delta_base_in partial_base_out partial_base_in
    get_sqrt_discriminant get_quote_amount get_quote_amount_with_parameters circulating_supply
    quote_loop interval_quote mul_div div power_of_ten concrete
taken_run = refl

Trades-Funded_example :
    (180_001_000_000 ≤ 282_150_000_000) × Funded after_taken 282_150_000_000 180_001_000_000
Trades-Funded_example =
    Trades-Funded concrete-Laws fresh
      (record { supply = omega arith; reserve_le = omega arith; width = refl }) default_CurvesValid
      refl (λ _. omega arith)
      (then_sell {s = taken_out} exact_output 1_000_000
        (then_buy {s = spent_one} exact_input 1_000_000_000
          (then_sell {s = tenth} exact_input 100_000_000_000
            (then_buy {s = quarter} exact_output 250_000_000_000 untraded quarter_run) tenth_run)
          spent_run)
        taken_run)

-- A thousandth of a quote token is taken out, and one whole one spent, where a quarter is circulating.
get_base_amount_in-Covered_example :
    worth market exact_input (250_000_000_000 - 444_445) * 10 ^ 9 + 1_000_000 * unit market
    ≤ worth market exact_input 250_000_000_000 * 10 ^ 9
unfolding circulating_supply
get_base_amount_in-Covered_example =
    get_base_amount_in-Covered concrete-Laws market 250_000_000_000 1_000_000 (444_445, 1_000_000)
      market-Tradable.reserve market-Tradable.bids_bounded (omega arith) refl get_base_amount_in_run

get_base_amount_out-Covered_example :
    worth market exact_output (250_000_000_000 + 399_680_510) * 10 ^ 9
    ≤ worth market exact_output 250_000_000_000 * 10 ^ 9 + 1_000_000_000 * unit market
unfolding circulating_supply
get_base_amount_out-Covered_example =
    get_base_amount_out-Covered concrete-Laws market 250_000_000_000 1_000_000_000
      (399_680_510, 1_000_000_000) market-Tradable.reserve market-Tradable.asks_bounded refl
      get_base_amount_out_run

-- A quote token with eighteen decimals.
abbrev fine : Market
fine = record market { quote_token_decimals = 18 }

dust_sale_example :
    SwapManager.swap concrete fine sell exact_output 99_999_999
    ≡ ok (record { base_amount = 0; quote_amount = 99_999_999; swap_fee = 0 }, fine)
dust_sale_example =
    dust_sale concrete fine 99_999_999
      (record { supply = omega arith; reserve_le = omega arith; width = refl }) refl (omega arith)
      (omega arith)
