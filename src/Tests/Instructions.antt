-- ===== src/Tests/Instructions.antt =====
-- Runs of instructions, on token programs that let every transfer pass and record it.
use sol_token_mill.SwapManager
use sol_token_mill.Base.{
  List, Option, [], if◌then◌else◌, none, refl, some, true, ℕ, ◌==◌, ◌∷◌, ◌≡◌, ◌≢◌,
}
use sol_token_mill.Base.Int.{pos}
use sol_token_mill.Config.{TokenMillConfig}
use sol_token_mill.Errors.{ok}
use sol_token_mill.Market.{Market, MarketFees, Pubkey, circulating_supply, distribute_fee}
use sol_token_mill.Market.Exact.{base_out_loop, get_base_amount_out}
use sol_token_mill.Market.Quote.{get_quote_amount_with_parameters, interval_quote, quote_loop}
use sol_token_mill.Math.{div, get_delta_base_out, get_sqrt_discriminant, mul_div, partial_base_out}
use sol_token_mill.Program.{Account, World, config_account, market_account, update}
use sol_token_mill.Program.Admin.{accept_config_ownership, config_update, transfer_config_ownership}
use sol_token_mill.Program.Admin.Ownership.{accept_config_ownership-transfer_config_ownership}
use sol_token_mill.Program.Checks.{transfer_from_eoa, transfer_from_pda}
use sol_token_mill.Program.Creator.{market_settings_update, update_market_fee_shares}
use sol_token_mill.Program.Creator.Effects.{SharesMoved, update_market_fee_shares-SharesMoved}
use sol_token_mill.Program.Events.{config_ownership_transfer, market_fee_shares_update, swap_event}
use sol_token_mill.Program.External.{Runtime, Transfer, eoa, market_seeds, pda}
use sol_token_mill.Program.Trade.{SwapAccounts, swap, swap_checks}
use sol_token_mill.Program.Trade.Effects.{SwapEffect, swap-SwapEffect}
use sol_token_mill.Program.Trade.Safety.{swap-Tradable}
use sol_token_mill.Ruint.Concrete.{concrete, concrete-Laws}
use sol_token_mill.SwapManager.{settle, swap_amounts}
use sol_token_mill.SwapManager.Reserve.{Moved, Tradable}
use sol_token_mill.SwapTypes.{buy, exact_input}
use sol_token_mill.Tests.Trading.{after_buy, default_fees, market, market-Tradable}
use sol_token_mill.Word.{power_of_ten}

abbrev pub recorder : Runtime (List Transfer)
recorder = record {
  transfer_checked = λ t l. some (t ∷ l);
  mint_decimals = λ _ mint. some (if mint == 3 then 6 else 9);
  token_amount = λ _ _. some 0;
  owned_by_token_program = λ _ _. true;
  extension_types = λ _ _. none;
  has_mint = λ _ _ _. true;
  is_associated = λ _ _ _ _ _. true;
  init_mint = λ _ _ _ _ l. some l;
  init_associated = λ _ _ _ _ l. some l;
  initialize_metadata = λ _ _ _ _ _ _ _ _ l. some l;
  mint_to = λ _ _ _ _ l. some l;
  remove_mint_authority = λ _ _ l. some l;
  minimum_balance = λ _ _. 0;
  lamports = λ _ _. 0;
  transfer_lamports = λ _ _ _ l. some l;
  find_address = λ _. (5, 255);
  create_address = λ _ _. some 5;
}

abbrev pub config : TokenMillConfig
config = record {
  authority = 20;
  pending_authority = none;
  protocol_fee_recipient = 21;
  default_protocol_fee_share = 1_000;
  referral_fee_share = 2_000;
}

abbrev pub accounts : Pubkey → Option Account
accounts = update (update (λ _. none) 1 (config_account config)) 5 (market_account market)

abbrev pub world : World (List Transfer)
world = record { accounts = accounts; ledger = []; unix_timestamp = pos 1_700_000_000; log = [] }

abbrev pub swap_accounts : SwapAccounts
swap_accounts = record {
  config = 1;
  market = 5;
  base_token_mint = 3;
  quote_token_mint = 4;
  market_base_token_ata = 6;
  market_quote_token_ata = 7;
  user_base_token_account = 8;
  user_quote_token_account = 9;
  protocol_quote_token_ata = 11;
  referral_token_account = some 12;
  user = 10;
  base_token_program = 30;
  quote_token_program = 31;
}

abbrev from_market : (account amount : ℕ) → Transfer
from_market account amount = record {
  token_program = 31;
  mint = 4;
  source = 7;
  destination = account;
  authority = pda 5 (market_seeds 3) 255;
  amount = amount;
  decimals = 9;
}

abbrev transfers : List Transfer
transfers =
    from_market 12 2_000_000
    ∷ from_market 11 8_000_002
    ∷ (record {
      token_program = 30;
      mint = 3;
      source = 6;
      destination = 8;
      authority = pda 5 (market_seeds 3) 255;
      amount = 399_680_510;
      decimals = 6;
    })
    ∷ (record {
      token_program = 31;
      mint = 4;
      source = 9;
      destination = 7;
      authority = eoa 10;
      amount = 1_000_000_000;
      decimals = 9;
    })
    ∷ []

abbrev pub fees_after : MarketFees
fees_after = record default_fees {
  pending_staking_fees = 45_000_100;
  pending_creator_fees = 45_000_200;
}

abbrev pub world_after_swap : World (List Transfer)
world_after_swap = record {
  accounts = update accounts 5 (market_account (record after_buy { fees = fees_after }));
  ledger = transfers;
  unix_timestamp = pos 1_700_000_000;
  log =
      swap_event 10 5 buy 399_680_510 1_000_000_000 (some 12) 45_000_000 45_000_000 8_000_002
        2_000_000
      ∷ [];
}

-- A purchase through a referrer, for 1 token of the quote.
pub swap_run :
    swap concrete recorder swap_accounts
      (λ key. key == 10)
      buy
      exact_input
      1_000_000_000
      399_000_000
      world
    ≡ ok ((399_680_510, 1_000_000_000), world_after_swap)
unfolding swap swap_checks transfer_from_eoa transfer_from_pda distribute_fee SwapManager.swap
    swap_amounts settle get_base_amount_out get_quote_amount_with_parameters circulating_supply
    base_out_loop quote_loop interval_quote get_delta_base_out partial_base_out
    get_sqrt_discriminant mul_div div power_of_ten concrete
swap_run = refl

swap-SwapEffect_example :
    SwapEffect concrete recorder swap_accounts
      (λ key. key == 10)
      buy
      exact_input
      1_000_000_000
      399_000_000
      (399_680_510, 1_000_000_000)
      world
      world_after_swap
swap-SwapEffect_example =
    swap-SwapEffect concrete recorder swap_accounts (λ key. key == 10) buy exact_input 1_000_000_000
      399_000_000 (399_680_510, 1_000_000_000) world world_after_swap swap_run

swap-Tradable_example :
    (m' : Market) × (world_after_swap.accounts 5 ≡ some (market_account m'))
    × Tradable m'
    × Moved buy 399_680_510 market m'
    × (m' ≡ record market { base_reserve = m'.base_reserve; fees = m'.fees })
swap-Tradable_example =
    swap-Tradable concrete-Laws recorder swap_accounts (λ key. key == 10) buy exact_input
      1_000_000_000 399_000_000 (399_680_510, 1_000_000_000) world world_after_swap market refl
      market-Tradable swap_run

abbrev world_after_update : World (List Transfer)
world_after_update = record world {
  accounts = update accounts 5 (
      market_account (record market {
        fees = record default_fees { creator_fee_share = 4_000; staking_fee_share = 5_000 };
      }));
  log = market_fee_shares_update 5 4_000 5_000 ∷ [];
}

update_run :
    update_market_fee_shares 5 2 (λ key. key == 2) 4_000 5_000 world ≡ ok (tt, world_after_update)
unfolding update_market_fee_shares market_settings_update
update_run = refl

update_market_fee_shares-SharesMoved_example :
    SharesMoved 5 2 (λ key. key == 2) 4_000 5_000 world world_after_update
update_market_fee_shares-SharesMoved_example =
    update_market_fee_shares-SharesMoved 5 2 (λ key. key == 2) 4_000 5_000 world world_after_update
      update_run

abbrev named : Option Pubkey
named = some 22

abbrev world_named : World (List Transfer)
world_named = record world {
  accounts = update accounts 1 (config_account (record config { pending_authority = some 22 }));
}

abbrev world_handed_over : World (List Transfer)
world_handed_over = record world_named {
  accounts = update (world_named.accounts) 1 (config_account (record config { authority = 22 }));
  log = config_ownership_transfer 1 22 ∷ [];
}

naming_run : transfer_config_ownership 1 20 (λ key. key == 20) named world ≡ ok (tt, world_named)
unfolding transfer_config_ownership config_update
naming_run = refl

acceptance_run :
    accept_config_ownership 1 22 (λ key. key == 22) world_named ≡ ok (tt, world_handed_over)
unfolding accept_config_ownership
acceptance_run = refl

accept_config_ownership-transfer_config_ownership_example :
    (old : TokenMillConfig) × (world.accounts 1 ≡ some (config_account old))
    × (old.authority ≡ 20)
    × ((20 == 20) ≡ true)
    × (named ≡ some 22)
    × ((22 == 22) ≡ true)
    × (world_handed_over.accounts 1
        ≡ some (config_account (record old { authority = 22; pending_authority = none })))
    × ((other : Pubkey) → other ≢ 1 → world_handed_over.accounts other ≡ world.accounts other)
    × (world_handed_over.ledger ≡ world.ledger)
    × (world_handed_over.unix_timestamp ≡ world.unix_timestamp)
    × (world_handed_over.log ≡ config_ownership_transfer 1 22 ∷ world.log)
accept_config_ownership-transfer_config_ownership_example =
    accept_config_ownership-transfer_config_ownership 1 20 22 named (λ key. key == 20)
      (λ key. key == 22) world world_named world_handed_over naming_run acceptance_run
