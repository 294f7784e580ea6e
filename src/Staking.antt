-- ===== src/Staking.antt =====
-- programs/token-mill/src/state/staking.rs: the stakes of a market and the position of one user.
use sol_token_mill.Word
use sol_token_mill.Word.U64
use sol_token_mill.Word.U128
use sol_token_mill.Base.{if◌then◌else◌, ltb, ℕ, ◌&&◌}
use sol_token_mill.Constant.{staking_scale}
use sol_token_mill.Errors.{Result, ok, ◌>>=◌}
use sol_token_mill.Market.{Pubkey}

pub record MarketStaking : Type 0 where
  pub market : Pubkey
  pub amount_staked : ℕ
  pub total_amount_vested : ℕ
  pub acc_reward_amount_per_share : ℕ

pub record StakePosition : Type 0 where
  pub market : Pubkey
  pub user : Pubkey
  pub amount_staked : ℕ
  pub total_amount_vested : ℕ
  pub pending_rewards : ℕ
  pub acc_reward_amount_per_share : ℕ

-- `init` hands the handlers accounts of zeros.
abbrev pub zeroed_staking : MarketStaking
zeroed_staking = record {
  market = 0;
  amount_staked = 0;
  total_amount_vested = 0;
  acc_reward_amount_per_share = 0;
}

abbrev pub zeroed_position : StakePosition
zeroed_position = record {
  market = 0;
  user = 0;
  amount_staked = 0;
  total_amount_vested = 0;
  pending_rewards = 0;
  acc_reward_amount_per_share = 0;
}

-- `MarketStaking::initialize`. It leaves `total_amount_vested` as it is.
unfoldable pub initialize_staking : MarketStaking → Pubkey → MarketStaking
initialize_staking s market = record s {
  market = market;
  amount_staked = 0;
  acc_reward_amount_per_share = 0;
}

-- `StakePosition::initialize`.
unfoldable pub initialize_position : StakePosition → Pubkey → Pubkey → StakePosition
initialize_position p market user = record p { market = market; user = user }

-- `MarketStaking::accrue_rewards`. The accumulator that it returns is that of the new state.
unfoldable pub accrue_market : MarketStaking → ℕ → Result MarketStaking
accrue_market s pending_rewards = do
  total_shares ← U64.add s.amount_staked s.total_amount_vested
  if ltb 0 total_shares && ltb 0 pending_rewards
      then (do
        scaled ← U128.mul pending_rewards staking_scale
        per_share ← Word.div scaled total_shares
        acc ← U128.add s.acc_reward_amount_per_share per_share
        ok (record s { acc_reward_amount_per_share = acc }))
      else ok s

-- `StakePosition::accrue_rewards`.
unfoldable pub accrue_position : StakePosition → ℕ → Result StakePosition
accrue_position p acc = do
  total_shares ← U64.add p.amount_staked p.total_amount_vested
  if ltb 0 total_shares
      then (do
        growth ← Word.sub acc p.acc_reward_amount_per_share
        scaled ← U128.mul total_shares growth
        reward ← Word.try_from U64.lim (← Word.div scaled staking_scale)
        pending ← U64.add p.pending_rewards reward
        ok (record p { pending_rewards = pending; acc_reward_amount_per_share = acc }))
      else ok (record p { acc_reward_amount_per_share = acc })
