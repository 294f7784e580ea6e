-- ===== src/Program/Events.antt =====
-- programs/token-mill/src/events.rs: the events in its order, each with its fields in their order.
use sol_token_mill.Base.{List, Option, ℕ}
use sol_token_mill.Base.Int.{ℤ}
use sol_token_mill.Config.{QuoteTokenBadgeStatus}
use sol_token_mill.Market.{Pubkey}
use sol_token_mill.SwapTypes.{SwapType}

pub data Event : Type 0 where
  config_creation :
      (config authority : Pubkey) (default_protocol_fee_share referral_fee_share : ℕ) → Event
  config_ownership_transfer : (config new_authority : Pubkey) → Event
  quote_token_badge : (config quote_token_mint : Pubkey) (status : QuoteTokenBadgeStatus) → Event
  market_creation :
      (config market creator base_token_mint quote_token_mint : Pubkey)
      (total_supply protocol_fee_share referral_fee_share creator_fee_share staking_fee_share : ℕ)
      → Event
  market_price_set : (market : Pubkey) (bid_prices ask_prices : List ℕ) → Event
  swap_event :
      (user market : Pubkey) (swap_type : SwapType) (base_amount quote_amount : ℕ)
      (referral_token_account : Option Pubkey)
      (creator_fee staking_fee protocol_fee referral_fee : ℕ)
      → Event
  creator_fee_claim : (market creator : Pubkey) (fees_distributed : ℕ) → Event
  default_fee_shares_update :
      (config : Pubkey) (new_default_protocol_fee_share new_referral_fee_share : ℕ) → Event
  protocol_fee_recipient_update : (config new_protocol_fee_recipient : Pubkey) → Event
  creator_update : (market new_creator : Pubkey) → Event
  market_fee_shares_update :
      (market : Pubkey) (new_creator_fee_share new_staking_fee_share : ℕ) → Event
  staking_deposit : (market user : Pubkey) (amount : ℕ) → Event
  staking_withdrawal : (market user : Pubkey) (amount : ℕ) → Event
  referral_fee_claim : (referrer quote_token_mint : Pubkey) (fees_distributed : ℕ) → Event
  staking_rewards_claim : (market user : Pubkey) (amount_distributed : ℕ) → Event
  vesting_plan_creation :
      (market user vesting_plan : Pubkey) (vesting_amount : ℕ)
      (start vesting_duration cliff_duration : ℤ)
      → Event
  vesting_plan_release : (vesting_plan : Pubkey) (amount_released : ℕ) → Event
