-- ===== src/Program/Stakers.antt =====
-- programs/token-mill/src/instructions: the stakes of one market among the accounts of the program, and
-- the tallies of its rewards and trades in the log.
pub mod Positions
pub mod Restored
pub mod Frame
pub mod Moved
pub mod Writes
pub mod Handled
pub mod Deposits
pub mod Payout
pub mod Rewards
pub mod Claims
pub mod Swaps
pub mod Openings
pub mod Settings
pub mod Markets
pub mod Creations
pub mod Effect
pub mod Solvency
use sol_token_mill.Base.{
  Bool, List, Option, [], false, if◌then◌else◌, some, true, ℕ, ◌+◌, ◌-◌, ◌==◌, ◌∷◌, ◌≡◌, ◌≤◌,
}
use sol_token_mill.Market.{Market, Pubkey}
use sol_token_mill.Program.{Account, World, market_account, position_account, staking_account}
use sol_token_mill.Program.Events.{Event, staking_rewards_claim, swap_event}
use sol_token_mill.Staking.{MarketStaking, StakePosition}
use sol_token_mill.StakingManager.Solvency.{Solvent}
use sol_token_mill.SwapTypes.{SwapType, buy, sell}

-- Positions by their addresses.
abbrev pub Entries : Type 0
Entries = List (Pubkey × StakePosition)

abbrev pub positions : Entries → List StakePosition
positions [] = []
positions ((k, p) ∷ es) = p ∷ positions es

-- The address is none of those.
abbrev pub Fresh : Pubkey → Entries → Type 0
Fresh key [] = Unit {0}
Fresh key ((k, p) ∷ es) = (key == k ≡ false) × Fresh key es

-- The address is one of those.
abbrev pub listed : Pubkey → Entries → Bool
listed key [] = false
listed key ((k, p) ∷ es) = if key == k then true else listed key es

-- Each entry stands among the accounts, once, with a position of the market.
abbrev pub Held : (Pubkey → Option Account) → Pubkey → Entries → Type 0
Held accounts market [] = Unit {0}
Held accounts market ((k, p) ∷ es) =
    (accounts k ≡ some (position_account p))
    × (p.market ≡ market)
    × Fresh k es
    × Held accounts market es

-- The tallies of the rewards of a market in a log: what swaps have set aside for its stakers, and what
-- they have claimed.
abbrev pub booked_by : Pubkey → Event → ℕ
booked_by market
      (swap_event user m t base quote referral creator_fee staking_fee protocol_fee referral_fee) =
    if m == market then staking_fee else 0
booked_by market _ = 0

abbrev pub paid_by : Pubkey → Event → ℕ
paid_by market (staking_rewards_claim m user rewards) = if m == market then rewards else 0
paid_by market _ = 0

abbrev pub booked : Pubkey → List Event → ℕ
booked market [] = 0
booked market (e ∷ log) = booked_by market e + booked market log

abbrev pub paid : Pubkey → List Event → ℕ
paid market [] = 0
paid market (e ∷ log) = paid_by market e + paid market log

-- What a swap leaves to the market for the tokens that it gives out, and what it pays for those that
-- it takes.
abbrev pub taken_in : SwapType → (quote fees : ℕ) → ℕ
taken_in buy quote fees = quote - fees
taken_in sell quote fees = 0

abbrev pub paid_for : SwapType → (quote : ℕ) → ℕ
paid_for buy quote = 0
paid_for sell quote = quote

abbrev pub takings_by : Pubkey → Event → ℕ
takings_by market (swap_event _ m t _ quote _ creator_fee staking_fee protocol_fee referral_fee) =
    if m == market
    then taken_in t quote (creator_fee + staking_fee + protocol_fee + referral_fee)
    else 0
takings_by market _ = 0

abbrev pub payouts_by : Pubkey → Event → ℕ
payouts_by market (swap_event _ m t _ quote _ _ _ _ _) = if m == market then paid_for t quote else 0
payouts_by market _ = 0

-- The tallies of the trades of a market: what its purchases have left to it, and what its sales have
-- been paid.
abbrev pub takings : Pubkey → List Event → ℕ
takings market [] = 0
takings market (e ∷ log) = takings_by market e + takings market log

abbrev pub payouts : Pubkey → List Event → ℕ
payouts market [] = 0
payouts market (e ∷ log) = payouts_by market e + payouts market log

-- Two states of a market that trade alike.
abbrev pub SamePool : Market → Market → Type 0
SamePool m m' = m' ≡ record m { creator = m'.creator; fees = m'.fees }

-- The stakers of a market are solvent: there is one account of its stakes, its positions are those
-- of `entries` and no others, what was claimed was booked, and with the rest as funds the stakes are
-- the sums over the positions and what these are owed is covered.
pub record StakersSolvent {L : Type 0} (market staking : Pubkey) (entries : Entries) (w : World L)
    : Type 0 where
  pub state : Market
  pub stakes : MarketStaking
  pub market_found : w.accounts market ≡ some (market_account state)
  pub staking_found : w.accounts staking ≡ some (staking_account stakes)
  pub of_market : stakes.market ≡ market
  pub only_staking :
      (key : Pubkey) (s : MarketStaking)
      → w.accounts key ≡ some (staking_account s)
      → s.market ≡ market
      → key ≡ staking
  pub held : Held w.accounts market entries
  pub complete :
      (key : Pubkey) (p : StakePosition)
      → w.accounts key ≡ some (position_account p)
      → p.market ≡ market
      → listed key entries ≡ true
  pub claimed : paid market w.log ≤ booked market w.log
  pub solvent :
      Solvent (booked market w.log - paid market w.log) state.fees stakes (positions entries)
