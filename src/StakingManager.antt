-- ===== src/StakingManager.antt =====
-- programs/token-mill/src/manager/staking_manager.rs.
pub mod Operations
pub mod Moves
pub mod Accrual
pub mod Solvency
pub mod Delivery
pub mod Entitled
pub mod Lost
use sol_token_mill.Word
use sol_token_mill.Word.U64
use sol_token_mill.Base.{if◌then◌else◌, ltb, ℕ}
use sol_token_mill.Errors.{Result, ok, ◌>>=◌}
use sol_token_mill.Market.{MarketFees}
use sol_token_mill.Staking.{MarketStaking, StakePosition, accrue_market, accrue_position}

-- The three accounts that each function of the manager borrows mutably.
pub record Stakes : Type 0 where
  pub fees : MarketFees
  pub staking : MarketStaking
  pub position : StakePosition

-- `if acc_reward_amount_per_share > 0 { market.fees.pending_staking_fees = 0; }`
abbrev pub clear_fees : MarketFees → ℕ → MarketFees
clear_fees fees acc = if ltb 0 acc then record fees { pending_staking_fees = 0 } else fees

-- `accrue_rewards`. Each function returns the fees that were pending, with the new accounts.
unfoldable pub accrue_rewards : Stakes → Result (ℕ × Stakes)
accrue_rewards w = do
  let pending_staking_fees = w.fees.pending_staking_fees
  staking ← accrue_market w.staking pending_staking_fees
  let acc = staking.acc_reward_amount_per_share
  let fees = clear_fees w.fees acc
  position ← accrue_position w.position acc
  ok (pending_staking_fees, record { fees = fees; staking = staking; position = position })

unfoldable pub deposit : Stakes → ℕ → Result (ℕ × Stakes)
deposit w amount = do
  (pending, w') ← accrue_rewards w
  total ← U64.add w'.staking.amount_staked amount
  own ← U64.add w'.position.amount_staked amount
  ok (
    pending,
    record w' {
      staking = record (w'.staking) { amount_staked = total };
      position = record (w'.position) { amount_staked = own };
    },
  )

unfoldable pub deposit_vested : Stakes → ℕ → Result (ℕ × Stakes)
deposit_vested w amount = do
  (pending, w') ← accrue_rewards w
  total ← U64.add w'.staking.total_amount_vested amount
  own ← U64.add w'.position.total_amount_vested amount
  ok (
    pending,
    record w' {
      staking = record (w'.staking) { total_amount_vested = total };
      position = record (w'.position) { total_amount_vested = own };
    },
  )

unfoldable pub withdraw : Stakes → ℕ → Result (ℕ × Stakes)
withdraw w amount = do
  (pending, w') ← accrue_rewards w
  total ← Word.sub w'.staking.amount_staked amount
  own ← Word.sub w'.position.amount_staked amount
  ok (
    pending,
    record w' {
      staking = record (w'.staking) { amount_staked = total };
      position = record (w'.position) { amount_staked = own };
    },
  )

unfoldable pub withdraw_vested : Stakes → ℕ → Result (ℕ × Stakes)
withdraw_vested w amount = do
  (pending, w') ← accrue_rewards w
  total ← Word.sub w'.staking.total_amount_vested amount
  own ← Word.sub w'.position.total_amount_vested amount
  ok (
    pending,
    record w' {
      staking = record (w'.staking) { total_amount_vested = total };
      position = record (w'.position) { total_amount_vested = own };
    },
  )
