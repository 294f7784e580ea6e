-- ===== src/Tests/Funds.antt =====
-- What a market holds for its trades, by the log.
use sol_token_mill.Program.Trade
use sol_token_mill.SwapManager
use sol_token_mill.Base.{Bool, List, [], arith, none, refl, some, ◌==◌, ◌∷◌, ◌≡◌, ◌≤◌}
use sol_token_mill.Errors.{ok}
use sol_token_mill.Market.{Pubkey, circulating_supply, distribute_fee}
use sol_token_mill.Market.Exact.{base_out_loop, get_base_amount_out}
use sol_token_mill.Market.Quote.{get_quote_amount_with_parameters, interval_quote, quote_loop}
use sol_token_mill.Math.{div, get_delta_base_out, get_sqrt_discriminant, mul_div, partial_base_out}
use sol_token_mill.Program.{World}
use sol_token_mill.Program.Checks.{transfer_from_eoa, transfer_from_pda}
use sol_token_mill.Program.Dispatch.{Call, dispatch, swap}
use sol_token_mill.Program.Events.{swap_event}
use sol_token_mill.Program.External.{Transfer}
use sol_token_mill.Program.Pool.{PoolFunded}
use sol_token_mill.Program.Pool.Calls.{LoggedHistory-PoolFunded}
use sol_token_mill.Program.Stakers.Solvency.{began, called_by}
use sol_token_mill.Program.Trade.{swap_checks}
use sol_token_mill.Ruint.Concrete.{concrete, concrete-Laws}
use sol_token_mill.SwapManager.{settle, swap_amounts}
use sol_token_mill.SwapManager.Pool.{Funded, Trades-Funded, buy-Funded, untraded}
use sol_token_mill.SwapTypes.{buy, exact_input, exact_output}
use sol_token_mill.Tests.Histories.{default_CurvesValid}
use sol_token_mill.Tests.Instructions.{recorder, swap_accounts, world, world_after_swap}
use sol_token_mill.Tests.Pools.{fresh, quarter, quarter_run}
use sol_token_mill.Tests.Trading.{market}
use sol_token_mill.Word.{power_of_ten}

-- A quarter of the supply was bought.
abbrev first : World (List Transfer)
first = record world {
  log =
      swap_event 10 5 buy 250_000_000_000 312_500_000_000 none 10_000_000_000 10_000_000_000
        11_250_000_000 0
      ∷ [];
}

abbrev traded : World (List Transfer)
traded = record world_after_swap {
  log =
      swap_event 10 5 buy 399_680_510 1_000_000_000 (some 12) 45_000_000 45_000_000 8_000_002
        2_000_000
      ∷ first.log;
}

abbrev purchase : Call
purchase = swap swap_accounts buy exact_input 1_000_000_000 399_000_000

abbrev user_signs : Pubkey → Bool
user_signs key = key == 10

purchase_run : dispatch concrete recorder user_signs purchase first ≡ ok (tt, traded)
unfolding dispatch Trade.swap swap_checks transfer_from_eoa transfer_from_pda distribute_fee
    SwapManager.swap swap_amounts settle get_base_amount_out get_quote_amount_with_parameters
    circulating_supply base_out_loop quote_loop interval_quote get_delta_base_out partial_base_out
    get_sqrt_discriminant mul_div div power_of_ten concrete
purchase_run = refl

fresh-Funded : Funded fresh 0 0
fresh-Funded =
    (Trades-Funded concrete-Laws fresh
      (record { supply = omega arith; reserve_le = omega arith; width = refl }) default_CurvesValid
      refl (λ _. omega arith) untraded).1

market-Funded : Funded market 281_250_000_000 0
market-Funded =
    (buy-Funded concrete-Laws fresh market exact_output 250_000_000_000 9 0 0 quarter
      (refl, fresh-Funded) quarter_run).1

first-PoolFunded : PoolFunded 5 first
first-PoolFunded = record {
  state = market;
  market_found = refl;
  small = omega arith;
  funded = market-Funded;
}

LoggedHistory-PoolFunded_example : (0 ≤ 282_149_999_998) × PoolFunded 5 traded
LoggedHistory-PoolFunded_example =
    LoggedHistory-PoolFunded concrete-Laws recorder 5 first-PoolFunded
      (called_by user_signs purchase began purchase_run)
