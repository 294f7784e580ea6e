-- ===== src/Tests/Stakes.antt =====
-- Runs of the staking manager: two stakers, and fees that are pending for them.
use sol_token_mill.Base.{[], arith, none, refl, ◌*◌, ◌+◌, ◌<◌, ◌∷◌, ◌≡◌, ◌≤◌, ◌⊎◌}
use sol_token_mill.Constant.{staking_scale}
use sol_token_mill.Errors.{ok}
use sol_token_mill.Market.{MarketFees, distribute_fee}
use sol_token_mill.Staking.{MarketStaking, StakePosition, accrue_market, accrue_position}
use sol_token_mill.StakingManager.{Stakes, accrue_rewards, deposit}
use sol_token_mill.StakingManager.Delivery.{due, operate-distribute_fee}
use sol_token_mill.StakingManager.Lost.{accrue_rewards-drops}
use sol_token_mill.StakingManager.Operations.{deposits}
use sol_token_mill.StakingManager.Solvency.{SolventFor, operate-Solvent}

abbrev fees : MarketFees
fees = record {
  staking_fee_share = 4_500;
  creator_fee_share = 4_500;
  pending_staking_fees = 300;
  pending_creator_fees = 0;
}

abbrev first : StakePosition
first = record {
  market = 1;
  user = 10;
  amount_staked = 100;
  total_amount_vested = 0;
  pending_rewards = 5;
  acc_reward_amount_per_share = 1_000_000_000_000_000_000;
}

abbrev second : StakePosition
second = record {
  market = 1;
  user = 11;
  amount_staked = 150;
  total_amount_vested = 50;
  pending_rewards = 0;
  acc_reward_amount_per_share = 0;
}

abbrev staking : MarketStaking
staking = record {
  market = 1;
  amount_staked = 250;
  total_amount_vested = 50;
  acc_reward_amount_per_share = 1_000_000_000_000_000_000;
}

abbrev stakes : Stakes
stakes = record { fees = fees; staking = staking; position = first }

-- 5 rewards are pending, 200 are due to the second position, and 300 are to be shared out.
stakes-Solvent : SolventFor 505 stakes (second ∷ [])
stakes-Solvent = omega arith

abbrev after_deposit : Stakes
after_deposit = record {
  fees = record fees { pending_staking_fees = 0 };
  staking = record staking {
    amount_staked = 290;
    acc_reward_amount_per_share = 2_000_000_000_000_000_000;
  };
  position = record first {
    amount_staked = 140;
    pending_rewards = 105;
    acc_reward_amount_per_share = 2_000_000_000_000_000_000;
  };
}

deposit_run : deposit stakes 40 ≡ ok (300, after_deposit)
unfolding deposit accrue_rewards accrue_market accrue_position
deposit_run = refl

operate-Solvent_example : SolventFor 505 after_deposit (second ∷ [])
operate-Solvent_example =
    operate-Solvent 505 300 (deposits 40) stakes after_deposit (second ∷ []) stakes-Solvent
      deposit_run

booked :
    distribute_fee fees 1_000 none
    ≡ ok (
      record { creator_fee = 450; staking_fee = 450; protocol_fee = 100; referral_fee = 0 },
      record fees { pending_staking_fees = 750; pending_creator_fees = 450 },
    )
unfolding distribute_fee
booked = refl

-- The fee of 1,000 is followed by a deposit of 40: 750 are shared out over 300 shares.
abbrev after_fee : Stakes
after_fee = record {
  fees = record fees { pending_staking_fees = 0; pending_creator_fees = 450 };
  staking = record staking {
    amount_staked = 290;
    acc_reward_amount_per_share = 3_500_000_000_000_000_000;
  };
  position = record first {
    amount_staked = 140;
    pending_rewards = 255;
    acc_reward_amount_per_share = 3_500_000_000_000_000_000;
  };
}

after_fee_run :
    deposit
      (record stakes {
        fees = record fees { pending_staking_fees = 750; pending_creator_fees = 450 };
      })
      40
    ≡ ok (750, after_fee)
unfolding deposit accrue_rewards accrue_market accrue_position
after_fee_run = refl

operate-distribute_fee_example :
    (due after_fee (second ∷ []) ≤ due stakes (second ∷ []) + 450 * staking_scale)
    × (due stakes (second ∷ []) + 450 * staking_scale
        < due after_fee (second ∷ []) + 300 + staking_scale)
    × ((after_fee.fees.pending_staking_fees ≡ 0)
        ⊎ (after_fee.staking.acc_reward_amount_per_share ≡ 0))
operate-distribute_fee_example =
    operate-distribute_fee 505 750 1_000 none _ _ (deposits 40) stakes after_fee (second ∷ [])
      stakes-Solvent (omega arith) booked after_fee_run

-- Both stakers have left; 300 fees came in after that.
abbrev left_behind : Stakes
left_behind = record {
  fees = fees;
  staking = record staking { amount_staked = 0; total_amount_vested = 0 };
  position = record first { amount_staked = 0 };
}

accrue_rewards-drops_example :
    (w' : Stakes) × (accrue_rewards left_behind ≡ ok (300, w'))
    × (w'.fees.pending_staking_fees ≡ 0)
    × (w'.staking ≡ left_behind.staking)
    × (w'.position.pending_rewards ≡ 5)
accrue_rewards-drops_example = accrue_rewards-drops left_behind refl refl refl refl (omega arith)
