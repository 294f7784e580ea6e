-- ===== src/Tests/Trading.antt =====
-- Runs of the market and of the swap manager, on the default curve of
-- crates/test-utils/src/utils/token_mill/curve_generator.rs.
use sol_token_mill.Base.{List, [], arith, refl, some, ℕ, ◌+◌, ◌↔◌, ◌∷◌, ◌≡◌, ◌≤◌, ◌⊎◌}
use sol_token_mill.Errors.{err, error, invalid_total_supply, ok, prices_already_set}
use sol_token_mill.Market.{
  Market, MarketFees, are_prices_set, check_and_set_prices, check_curves, check_prices,
  circulating_supply, distribute_fee, initialize, zeroed,
}
use sol_token_mill.Market.Bounds.{get_base_amount_in-le}
use sol_token_mill.Market.Exact.{
  base_in_loop, base_out_loop, get_base_amount_in, get_base_amount_out,
}
use sol_token_mill.Market.Fees.{Distributed, distribute_fee-Distributed, distribute_fee_exact}
use sol_token_mill.Market.Prices.{CurvesValid, check_and_set_prices_iff, prices_set_once}
use sol_token_mill.Market.Quote.{
  get_quote_amount, get_quote_amount_with_parameters, interval_quote, quote_loop,
}
use sol_token_mill.Market.Reserve.{get_base_amount_out-le}
use sol_token_mill.Market.Supply.{ReserveValid, SupplyValid, initialize_cases}
use sol_token_mill.Math.{
  div, get_delta_base_in, get_delta_base_out, get_sqrt_discriminant, mul_div, partial_base_in,
  partial_base_out, up,
}
use sol_token_mill.Math.Bounds.{mul_div_exact}
use sol_token_mill.Math.Steps.{get_delta_base_in-le, get_delta_base_out-le}
use sol_token_mill.Ruint.Concrete.{concrete, concrete-Laws}
use sol_token_mill.SwapManager.{Swapped, settle, swap, swap_amounts}
use sol_token_mill.SwapManager.Reserve.{SwapDone, Tradable, swap-SwapDone}
use sol_token_mill.SwapTypes.{buy, exact_input, exact_output}
use sol_token_mill.Word.{power_of_ten}

-- `Curve::default`.
abbrev pub default_asks : List ℕ
default_asks =
    0 ∷ 10_000_000 ∷ 20_000_000 ∷ 30_000_000 ∷ 40_000_000 ∷ 50_000_000 ∷ 60_000_000 ∷ 70_000_000
    ∷ 80_000_000 ∷ 90_000_000 ∷ 100_000_000 ∷ []

abbrev pub default_bids : List ℕ
default_bids =
    0 ∷ 9_000_000 ∷ 18_000_000 ∷ 27_000_000 ∷ 36_000_000 ∷ 45_000_000 ∷ 54_000_000 ∷ 63_000_000
    ∷ 72_000_000 ∷ 81_000_000 ∷ 90_000_000 ∷ []

abbrev pub default_fees : MarketFees
default_fees = record {
  staking_fee_share = 4_500;
  creator_fee_share = 4_500;
  pending_staking_fees = 100;
  pending_creator_fees = 200;
}

-- A quarter of the supply is in circulation.
abbrev pub market : Market
market = record {
  config = 1;
  creator = 2;
  base_token_mint = 3;
  quote_token_mint = 4;
  base_reserve = 750_000_000_000;
  bid_prices = default_bids;
  ask_prices = default_asks;
  width_scaled = 1_000_000_000_000_000;
  total_supply = 1_000_000_000_000;
  fees = default_fees;
  quote_token_decimals = 9;
  bump = 255;
}

abbrev pub after_buy : Market
after_buy = record market { base_reserve = 749_600_319_490 }

abbrev bought : Swapped
bought = record { base_amount = 399_680_510; quote_amount = 1_000_000_000; swap_fee = 100_000_002 }

-- A purchase for 1 token of the quote.
swap_buy : swap concrete market buy exact_input 1_000_000_000 ≡ ok (bought, after_buy)
unfolding swap swap_amounts settle get_base_amount_out get_quote_amount_with_parameters
    circulating_supply base_out_loop quote_loop interval_quote get_delta_base_out partial_base_out
    get_sqrt_discriminant mul_div div power_of_ten concrete
swap_buy = refl

pub market-Tradable : Tradable market
market-Tradable = record {
  reserve = record { supply = omega arith; reserve_le = omega arith; width = refl };
  bids_length = refl;
  asks_length = refl;
  bids_bounded = omega arith;
  asks_bounded = omega arith;
}

swap-SwapDone_example : SwapDone buy exact_input 1_000_000_000 market bought after_buy
swap-SwapDone_example =
    swap-SwapDone concrete-Laws market after_buy buy exact_input 1_000_000_000 bought
      market-Tradable swap_buy

mul_div_exact_example : mul_div concrete 7 5 2 up ≡ some 18
mul_div_exact_example = mul_div_exact concrete-Laws 7 5 2 up (omega arith) (omega arith)

pub get_base_amount_out_run :
    get_base_amount_out concrete market 1_000_000_000 ≡ ok (399_680_510, 1_000_000_000)
unfolding get_base_amount_out circulating_supply base_out_loop get_delta_base_out partial_base_out
    get_sqrt_discriminant mul_div div power_of_ten concrete
get_base_amount_out_run = refl

get_base_amount_out-le_example :
    (399_680_510 ≤ market.base_reserve) × (1_000_000_000 ≤ 1_000_000_000)
get_base_amount_out-le_example =
    get_base_amount_out-le concrete-Laws market 1_000_000_000 (399_680_510, 1_000_000_000)
      market-Tradable.reserve refl (omega arith) get_base_amount_out_run

pub get_base_amount_in_run : get_base_amount_in concrete market 1_000_000 ≡ ok (444_445, 1_000_000)
unfolding get_base_amount_in circulating_supply base_in_loop get_delta_base_in partial_base_in
    get_sqrt_discriminant mul_div div power_of_ten concrete
get_base_amount_in_run = refl

get_base_amount_in-le_example : (444_445 ≤ 250_000_000_000) × (1_000_000 ≤ 1_000_000)
unfolding circulating_supply
get_base_amount_in-le_example =
    get_base_amount_in-le concrete-Laws market 1_000_000 250_000_000_000 (444_445, 1_000_000)
      (omega arith) (omega arith) refl get_base_amount_in_run

get_delta_base_in_run :
    get_delta_base_in concrete 18_000_000 27_000_000 1_000_000_000_000_000 500_000_000_000_000
      10_000_000
    ≡ ok (4_444_448_396, 10_000_000)
unfolding get_delta_base_in partial_base_in get_sqrt_discriminant mul_div div concrete
get_delta_base_in_run = refl

distribute_fee_exact_example :
    distribute_fee default_fees 1_000 (some 3_000)
    ≡ ok (
      record { creator_fee = 450; staking_fee = 450; protocol_fee = 70; referral_fee = 30 },
      record default_fees { pending_staking_fees = 550; pending_creator_fees = 650 },
    )
distribute_fee_exact_example =
    distribute_fee_exact default_fees 1_000 (some 3_000) (omega arith) (omega arith) (omega arith)
      (omega arith)

abbrev no_prices : List ℕ
no_prices = 0 ∷ 0 ∷ 0 ∷ 0 ∷ 0 ∷ 0 ∷ 0 ∷ 0 ∷ 0 ∷ 0 ∷ 0 ∷ []

abbrev pub unpriced : Market
unpriced = record market { bid_prices = no_prices; ask_prices = no_prices }

set_default : check_and_set_prices unpriced default_bids default_asks ≡ ok market
unfolding check_and_set_prices are_prices_set check_curves check_prices
set_default = refl

check_and_set_prices_iff_example :
    (check_and_set_prices unpriced default_bids default_asks ≡ ok market) ↔ (
      CurvesValid default_bids default_asks
      × (market ≡ record unpriced { bid_prices = default_bids; ask_prices = default_asks }))
unfolding are_prices_set
check_and_set_prices_iff_example =
    check_and_set_prices_iff unpriced market default_bids default_asks refl refl refl

prices_set_once_example :
    check_and_set_prices market no_prices no_prices ≡ err (error prices_already_set)
prices_set_once_example =
    prices_set_once unpriced market default_bids default_asks no_prices no_prices refl refl
      set_default

initialize_cases_example :
    ((m' : Market) × (initialize zeroed 255 1 2 3 4 9 1_000_000_000_000 4_500 4_500 ≡ ok m')
      × ReserveValid m'
      × (m'.base_reserve ≡ 1_000_000_000_000)
      × (m'.total_supply ≡ 1_000_000_000_000)
      × (m'.fees.creator_fee_share ≡ 4_500)
      × (m'.fees.staking_fee_share ≡ 4_500))
    ⊎ ((¬ SupplyValid 1_000_000_000_000)
        × (initialize zeroed 255 1 2 3 4 9 1_000_000_000_000 4_500 4_500
            ≡ err (error invalid_total_supply)))
initialize_cases_example = initialize_cases zeroed 255 1 2 3 4 9 1_000_000_000_000 4_500 4_500

get_delta_base_in-le_example : (4_444_448_396 ≤ 500_000_000_000_000) × (10_000_000 ≤ 10_000_000)
get_delta_base_in-le_example =
    get_delta_base_in-le concrete-Laws 18_000_000 27_000_000 1_000_000_000_000_000
      500_000_000_000_000 10_000_000 (4_444_448_396, 10_000_000) (omega arith) (omega arith)
      get_delta_base_in_run

get_delta_base_out_run :
    get_delta_base_out concrete 20_000_000 30_000_000 1_000_000_000_000_000 500_000_000_000_000
      10_000_000
    ≡ ok (3_999_996_800, 10_000_000)
unfolding get_delta_base_out partial_base_out get_sqrt_discriminant mul_div div concrete
get_delta_base_out_run = refl

get_delta_base_out-le_example :
    (3_999_996_800 + 500_000_000_000_000 ≤ 1_000_000_000_000_000) × (10_000_000 ≤ 10_000_000)
get_delta_base_out-le_example =
    get_delta_base_out-le concrete-Laws 20_000_000 30_000_000 1_000_000_000_000_000
      500_000_000_000_000 10_000_000 (3_999_996_800, 10_000_000) (omega arith) (omega arith)
      get_delta_base_out_run

distribute_fee_run :
    distribute_fee default_fees 1_000 (some 3_000)
    ≡ ok (
      record { creator_fee = 450; staking_fee = 450; protocol_fee = 70; referral_fee = 30 },
      record default_fees { pending_staking_fees = 550; pending_creator_fees = 650 },
    )
unfolding distribute_fee
distribute_fee_run = refl

distribute_fee-Distributed_example : Distributed default_fees 1_000 (
  record { creator_fee = 450; staking_fee = 450; protocol_fee = 70; referral_fee = 30 },
  record default_fees { pending_staking_fees = 550; pending_creator_fees = 650 },
)
distribute_fee-Distributed_example =
    distribute_fee-Distributed default_fees 1_000 (some 3_000) _ distribute_fee_run

-- Before the prices of a market are set, its tokens cost nothing: all of the reserve for 0.
abbrev emptied : Market
emptied = record unpriced { base_reserve = 0 }

free_purchase :
    swap concrete unpriced buy exact_output 750_000_000_000
    ≡ ok (record { base_amount = 750_000_000_000; quote_amount = 0; swap_fee = 0 }, emptied)
unfolding swap swap_amounts settle get_quote_amount get_quote_amount_with_parameters
    circulating_supply quote_loop interval_quote mul_div div power_of_ten concrete
free_purchase = refl
