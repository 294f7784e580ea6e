-- ===== src/StakingManager/Lost.antt =====
-- programs/token-mill/src/manager/staking_manager.rs: the fees that `accrue_rewards` drops.
use sol_token_mill.Base.{arith, refl, ◌<◌, ◌≡◌}
use sol_token_mill.Errors.{ok}
use sol_token_mill.Staking.{accrue_market, accrue_position}
use sol_token_mill.StakingManager.{Stakes, accrue_rewards}

-- Where nobody has a stake in the market but its accumulator is above zero from earlier stakes,
-- `accrue_rewards` clears the pending staking fees, although it credits them to nobody: the
-- accumulator and the rewards of the position stay as they were.
pub accrue_rewards-drops :
    (w : Stakes)
    → w.staking.amount_staked ≡ 0
    → w.staking.total_amount_vested ≡ 0
    → w.position.amount_staked ≡ 0
    → w.position.total_amount_vested ≡ 0
    → 0 < w.staking.acc_reward_amount_per_share
    → (w' : Stakes) × (accrue_rewards w ≡ ok (w.fees.pending_staking_fees, w'))
      × (w'.fees.pending_staking_fees ≡ 0)
      × (w'.staking ≡ w.staking)
      × (w'.position.pending_rewards ≡ w.position.pending_rewards)
unfolding accrue_rewards accrue_market accrue_position
accrue_rewards-drops w h1 h2 h3 h4 h5 = (
  record w {
    fees = record (w.fees) { pending_staking_fees = 0 };
    position = record (w.position) {
      acc_reward_amount_per_share = w.staking.acc_reward_amount_per_share;
    };
  },
  ground arith,
  refl,
  refl,
  refl,
)
