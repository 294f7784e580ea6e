-- ===== src/Program/Dispatch.antt =====
-- programs/token-mill/src/lib.rs: the entry points of the program, and a transaction as a sequence of
-- calls.
use sol_token_mill.Program.Admin
use sol_token_mill.Program.Creator
use sol_token_mill.Program.Trade
use sol_token_mill.Program.Stake
use sol_token_mill.Program.Vest
use sol_token_mill.Program.Referral
use sol_token_mill.Program.Creation
use sol_token_mill.Base.{Bool, List, Option, ℕ}
use sol_token_mill.Base.Int.{ℤ}
use sol_token_mill.Config.{QuoteTokenBadgeStatus}
use sol_token_mill.Market.{Pubkey}
use sol_token_mill.Program.{Instruction, return, ◌>>=◌}
use sol_token_mill.Program.Creation.{CreateMarket, MarketArgs}
use sol_token_mill.Program.External.{Runtime}
use sol_token_mill.Program.Stake.{StakeUpdate, StakingRewardsClaim}
use sol_token_mill.Program.Trade.{SwapAccounts}
use sol_token_mill.Ruint.{Ruint}
use sol_token_mill.SwapTypes.{SwapAmountType, SwapType}

-- A call of an entry point: its accounts, then its arguments.
pub data Call : Type 0 where
  create_config :
      (config payer authority protocol_fee_recipient : Pubkey)
      (protocol_fee_share referral_fee_share : ℕ)
      → Call
  create_market : CreateMarket → MarketArgs → Call
  create_market_with_spl : CreateMarket → MarketArgs → Call
  set_market_prices : (market creator : Pubkey) (bid_prices ask_prices : List ℕ) → Call
  swap : SwapAccounts → SwapType → SwapAmountType → (amount other_amount_threshold : ℕ) → Call
  create_staking : (market staking payer : Pubkey) → Call
  create_stake_position : (market stake_position user : Pubkey) → Call
  deposit : StakeUpdate → (amount : ℕ) → Call
  withdraw : StakeUpdate → (amount : ℕ) → Call
  claim_staking_rewards : StakingRewardsClaim → Call
  create_vesting_plan :
      StakeUpdate
      → (vesting_plan : Pubkey) (start : ℤ) (vesting_amount : ℕ)
        (vesting_duration cliff_duration : ℤ)
      → Call
  release : StakeUpdate → (vesting_plan : Pubkey) → Call
  create_referral_account : (config referral user referrer : Pubkey) → Call
  claim_referral_fees :
      (referral quote_token_mint referral_account_quote_token_ata referrer_quote_token_ata referrer
        quote_token_program : Pubkey)
      → Call
  update_creator : (market creator new_creator : Pubkey) → Call
  update_market_fee_shares :
      (market creator : Pubkey) (new_creator_fee_share new_staking_fee_share : ℕ) → Call
  claim_creator_fees :
      (market quote_token_mint market_quote_token_ata creator_quote_token_ata creator
        quote_token_program : Pubkey)
      → Call
  create_quote_asset_badge : (config quote_asset_badge token_mint authority : Pubkey) → Call
  update_quote_asset_badge :
      (config quote_asset_badge token_mint authority : Pubkey) (status : QuoteTokenBadgeStatus)
      → Call
  update_default_fee_shares :
      (config authority : Pubkey) (new_default_protocol_fee_share new_referral_fee_share : ℕ) → Call
  update_protocol_fee_recipient : (config authority new_protocol_fee_recipient : Pubkey) → Call
  transfer_config_ownership : (config authority : Pubkey) (pending : Option Pubkey) → Call
  accept_config_ownership : (config pending_authority : Pubkey) → Call

module _ {L : Type 0} (R : Ruint) (E : Runtime L) (signed : Pubkey → Bool) where
  unfoldable pub dispatch : Call → Instruction L (Unit {0})
  dispatch (create_config config payer authority recipient protocol_share referral_share) =
      Admin.create_config config payer signed authority recipient protocol_share referral_share
  dispatch (create_market a args) = Creation.create_market E a signed args
  dispatch (create_market_with_spl a args) = Creation.create_market_with_spl E a signed args
  dispatch (set_market_prices market creator bids asks) =
      Creator.set_market_prices market creator signed bids asks
  dispatch (swap a swap_type swap_amount_type amount threshold) = do
    _ ← Trade.swap R E a signed swap_type swap_amount_type amount threshold
    return tt
  dispatch (create_staking market staking payer) =
      Stake.create_staking E market staking payer signed
  dispatch (create_stake_position market position user) =
      Stake.create_stake_position E market position user signed
  dispatch (deposit a amount) = Stake.deposit E a signed amount
  dispatch (withdraw a amount) = Stake.withdraw E a signed amount
  dispatch (claim_staking_rewards a) = do _ ← Stake.claim_staking_rewards E a signed; return tt
  dispatch (create_vesting_plan a plan start amount duration cliff) =
      Vest.create_vesting_plan E a plan signed start amount duration cliff
  dispatch (release a plan) = do _ ← Vest.release E a plan signed; return tt
  dispatch (create_referral_account config referral user referrer) =
      Referral.create_referral_account E config referral user signed referrer
  dispatch (claim_referral_fees referral mint source destination referrer program) =
      Referral.claim_referral_fees E referral mint source destination referrer program signed
  dispatch (update_creator market creator new_creator) =
      Creator.update_creator market creator signed new_creator
  dispatch (update_market_fee_shares market creator creator_share staking_share) =
      Creator.update_market_fee_shares market creator signed creator_share staking_share
  dispatch (claim_creator_fees market mint source destination creator program) =
      Creator.claim_creator_fees E market mint source destination creator program signed
  dispatch (create_quote_asset_badge config badge mint authority) =
      Admin.create_quote_asset_badge E config badge mint authority signed
  dispatch (update_quote_asset_badge config badge mint authority status) =
      Admin.update_quote_asset_badge E config badge mint authority signed status
  dispatch (update_default_fee_shares config authority protocol_share referral_share) =
      Admin.update_default_fee_shares config authority signed protocol_share referral_share
  dispatch (update_protocol_fee_recipient config authority recipient) =
      Admin.update_protocol_fee_recipient config authority signed recipient
  dispatch (transfer_config_ownership config authority pending) =
      Admin.transfer_config_ownership config authority signed pending
  dispatch (accept_config_ownership config pending_authority) =
      Admin.accept_config_ownership config pending_authority signed
