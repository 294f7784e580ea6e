-- ===== src/Program/Evolution.antt =====
-- How the accounts of the program may change: what is valid in each account, what one instruction may do
-- to it and who has to sign for that, and the sequences of instructions.
pub mod Changes
pub mod Configs
pub mod Markets
pub mod Stakes
pub mod Staking
pub mod Vesting
pub mod Creation
use sol_token_mill.Base.{Bool, Option, false, none, some, true, ℕ, ◌+◌, ◌≡◌, ◌≤◌, ◌⊎◌}
use sol_token_mill.Config.{QuoteTokenBadge, TokenMillConfig}
use sol_token_mill.Constant.{max_bps}
use sol_token_mill.Errors.{ok}
use sol_token_mill.Market.{Market, Pubkey, are_prices_set}
use sol_token_mill.Market.Fees.{SharesValid}
use sol_token_mill.Market.Prices.{CurvesValid}
use sol_token_mill.Program.{
  Account, badge_account, config_account, market_account, plan_account, position_account,
  referral_account, staking_account,
}
use sol_token_mill.Staking.{MarketStaking, StakePosition}
use sol_token_mill.SwapManager.Reserve.{Tradable}
use sol_token_mill.Vesting.{VestingPlan}
use sol_token_mill.Vesting.Schedule.{PlanValid}

pub record ConfigValid (c : TokenMillConfig) : Type 0 where
  pub protocol_share : c.default_protocol_fee_share ≤ max_bps
  pub referral_share : c.referral_fee_share ≤ max_bps

-- A market is tradable, its shares are, and its prices are unset or form two valid curves.
pub record MarketValid (m : Market) : Type 0 where
  pub tradable : Tradable m
  pub shares : SharesValid m.fees
  pub curves : (are_prices_set m ≡ ok false) ⊎ CurvesValid m.bid_prices m.ask_prices

abbrev pub AccountValid : Account → Type 0
AccountValid (config_account c) = ConfigValid c
AccountValid (market_account m) = MarketValid m
AccountValid (plan_account p) = PlanValid p
AccountValid (staking_account s) = Unit {0}
AccountValid (position_account p) = Unit {0}
AccountValid (badge_account b) = Unit {0}
AccountValid (referral_account r) = Unit {0}

pub record AccountsValid (accounts : Pubkey → Option Account) : Type 0 where
  pub valid : (key : Pubkey) (a : Account) → accounts key ≡ some a → AccountValid a

-- A configuration is changed by its authority, which stays, or it passes to the account that its
-- authority has named. Either signs.
pub record ConfigStep (signed : Pubkey → Bool) (c c' : TokenMillConfig) : Type 0 where
  pub by :
      ((signed c.authority ≡ true) × (c'.authority ≡ c.authority))
      ⊎ ((c.pending_authority ≡ some c'.authority)
          × (signed c'.authority ≡ true)
          × (c' ≡ record c { authority = c'.authority; pending_authority = none }))

-- The prices of a market are kept, or set for the first time.
abbrev pub PricesStep : Market → Market → Type 0
PricesStep m m' =
    ((m'.bid_prices ≡ m.bid_prices) × (m'.ask_prices ≡ m.ask_prices))
    ⊎ ((are_prices_set m ≡ ok false) × CurvesValid m'.bid_prices m'.ask_prices)

-- The creator, the prices and the shares of a market.
pub record SettingsKept (m m' : Market) : Type 0 where
  pub creator : m'.creator ≡ m.creator
  pub bid_prices : m'.bid_prices ≡ m.bid_prices
  pub ask_prices : m'.ask_prices ≡ m.ask_prices
  pub creator_share : m'.fees.creator_fee_share ≡ m.fees.creator_fee_share
  pub staking_share : m'.fees.staking_fee_share ≡ m.fees.staking_fee_share

-- What is fixed when a market is created.
abbrev pub identity : Market → Pubkey × Pubkey × Pubkey × ℕ × ℕ × ℕ × ℕ
identity m = (
  m.config, m.base_token_mint, m.quote_token_mint, m.quote_token_decimals, m.total_supply,
  m.width_scaled, m.bump,
)

-- The settings of a market change only with the signature of its creator; its identity and supply
-- never do, and neither does the sum of the shares of creator and stakers.
pub record MarketStep (signed : Pubkey → Bool) (m m' : Market) : Type 0 where
  pub identity_kept : identity m' ≡ identity m
  pub prices : PricesStep m m'
  pub by : SettingsKept m m' ⊎ (signed m.creator ≡ true)
  pub sum_kept :
      m'.fees.creator_fee_share + m'.fees.staking_fee_share
      ≡ m.fees.creator_fee_share + m.fees.staking_fee_share

-- The accumulator of a market's stakers never falls.
pub record StakingStep (s s' : MarketStaking) : Type 0 where
  pub market : s'.market ≡ s.market
  pub accumulated : s.acc_reward_amount_per_share ≤ s'.acc_reward_amount_per_share

-- A position changes only with the signature of its user.
pub record PositionStep (signed : Pubkey → Bool) (p p' : StakePosition) : Type 0 where
  pub market : p'.market ≡ p.market
  pub user : p'.user ≡ p.user
  pub by : signed p.user ≡ true

-- A plan only releases.
pub record PlanStep (p p' : VestingPlan) : Type 0 where
  pub terms : p' ≡ record p { amount_released = p'.amount_released }
  pub released : p.amount_released ≤ p'.amount_released

pub data AccountStep (signed : Pubkey → Bool) (a b : Account) : Type 0 where
  unchanged : b ≡ a → AccountStep signed a b
  config_step :
      (c c' : TokenMillConfig)
      → a ≡ config_account c
      → b ≡ config_account c'
      → ConfigStep signed c c'
      → AccountStep signed a b
  market_step :
      (m m' : Market)
      → a ≡ market_account m
      → b ≡ market_account m'
      → MarketStep signed m m'
      → AccountStep signed a b
  staking_step :
      (s s' : MarketStaking)
      → a ≡ staking_account s
      → b ≡ staking_account s'
      → StakingStep s s'
      → AccountStep signed a b
  position_step :
      (p p' : StakePosition)
      → a ≡ position_account p
      → b ≡ position_account p'
      → PositionStep signed p p'
      → AccountStep signed a b
  plan_step :
      (p p' : VestingPlan)
      → a ≡ plan_account p
      → b ≡ plan_account p'
      → PlanStep p p'
      → AccountStep signed a b
  badge_step :
      (b0 b1 : QuoteTokenBadge)
      → a ≡ badge_account b0
      → b ≡ badge_account b1
      → b1.bump ≡ b0.bump
      → AccountStep signed a b

-- An account that exists stays, changed by a step, and valid; one that is new is valid.
pub record Evolves (signed : Pubkey → Bool) (before after : Pubkey → Option Account) : Type 0 where
  pub kept :
      (key : Pubkey) (a : Account)
      → before key ≡ some a
      → (b : Account) × (after key ≡ some b) × AccountStep signed a b × AccountValid b
  pub fresh :
      (key : Pubkey) → before key ≡ none → (b : Account) → after key ≡ some b → AccountValid b
