-- ===== src/StakingManager/Accrual.antt =====
-- programs/token-mill/src/state/staking.rs: what accruing rewards adds to what the positions of a
-- market are owed.
use native.Mathlib.Nat.{mul-add}
use sol_token_mill.Base.{List, [], arith, ℕ, ◌*◌, ◌+◌, ◌-◌, ◌<◌, ◌∷◌, ◌≡◌, ◌≤◌}
use sol_token_mill.Base.Arith.{div-mul-le, lt-div-mul-add}
use sol_token_mill.Constant.{staking_scale}
use sol_token_mill.Errors.{ok}
use sol_token_mill.Staking.{MarketStaking, StakePosition, accrue_market, accrue_position}

abbrev pub shares : StakePosition → ℕ
shares p = p.amount_staked + p.total_amount_vested

abbrev pub total_shares : MarketStaking → ℕ
total_shares s = s.amount_staked + s.total_amount_vested

abbrev pub total_staked : List StakePosition → ℕ
total_staked [] = 0
total_staked (p ∷ ps) = p.amount_staked + total_staked ps

abbrev pub total_vested : List StakePosition → ℕ
total_vested [] = 0
total_vested (p ∷ ps) = p.total_amount_vested + total_vested ps

-- No position is ahead of the accumulator of the market.
abbrev pub Behind : ℕ → List StakePosition → Type 0
Behind acc [] = Unit {0}
Behind acc (p ∷ ps) = (p.acc_reward_amount_per_share ≤ acc) × Behind acc ps

-- What one position is owed at the accumulator `acc`, in units of 1 / STAKING_SCALE.
abbrev pub owed_to : ℕ → StakePosition → ℕ
owed_to acc p = p.pending_rewards * staking_scale + shares p * (acc - p.acc_reward_amount_per_share)

abbrev pub owed : ℕ → List StakePosition → ℕ
owed acc [] = 0
owed acc (p ∷ ps) = owed_to acc p + owed acc ps

pub Behind-mono : {a b : ℕ} (ps : List StakePosition) → a ≤ b → Behind a ps → Behind b ps
Behind-mono [] h b = tt
Behind-mono (p ∷ ps) h b = (omega arith, Behind-mono ps h b.1)

-- One position is owed its shares of a growth of the accumulator.
owed_to-grow :
    (a g : ℕ) (p : StakePosition)
    → p.acc_reward_amount_per_share ≤ a
    → owed_to (a + g) p ≡ owed_to a p + shares p * g
owed_to-grow a g p h =
    let split : a + g - p.acc_reward_amount_per_share ≡ (a - p.acc_reward_amount_per_share) + g =
      omega arith in
    rw split (omega (arith, mul-add (shares p) (a - p.acc_reward_amount_per_share) g))

-- All positions together are owed all their shares of it.
pub owed-grow :
    (a g : ℕ) (ps : List StakePosition)
    → Behind a ps
    → owed (a + g) ps ≡ owed a ps + (total_staked ps + total_vested ps) * g
owed-grow a g [] b = omega arith
owed-grow a g (p ∷ ps) b = omega (arith, owed_to-grow a g p b.0, owed-grow a g ps b.1)

-- The accumulator grows by no more than the rewards pay for and, where there are shares, by all that
-- they pay for in whole units; nothing else changes.
pub record MarketAccrued (s s' : MarketStaking) (rewards : ℕ) : Type 0 where
  pub growth : ℕ
  pub grown : s'.acc_reward_amount_per_share ≡ s.acc_reward_amount_per_share + growth
  pub paid_for : total_shares s * growth ≤ rewards * staking_scale
  pub spent :
      0 < total_shares s → rewards * staking_scale < total_shares s * growth + total_shares s
  pub staked_kept : s'.amount_staked ≡ s.amount_staked
  pub vested_kept : s'.total_amount_vested ≡ s.total_amount_vested
  pub market_kept : s'.market ≡ s.market

pub accrue_market-MarketAccrued :
    (s s' : MarketStaking) (rewards : ℕ)
    → accrue_market s rewards ≡ ok s'
    → MarketAccrued s s' rewards
unfolding accrue_market
accrue_market-MarketAccrued s s' rewards h = record {
  growth = s'.acc_reward_amount_per_share - s.acc_reward_amount_per_share;
  grown = ground arith;
  paid_for = ground (arith, div-mul-le (rewards * staking_scale) (total_shares s));
  spent = λ some_shares.
      ground (arith, lt-div-mul-add (rewards * staking_scale) (total_shares s) some_shares);
  staked_kept = ground arith;
  vested_kept = ground arith;
  market_kept = ground arith;
}

-- A position is credited what it is owed in whole units, and has caught up with the accumulator.
pub record PositionAccrued (p p' : StakePosition) (acc : ℕ) : Type 0 where
  pub credited : p'.pending_rewards * staking_scale ≤ owed_to acc p
  pub whole : owed_to acc p < p'.pending_rewards * staking_scale + staking_scale
  pub kept : p.pending_rewards ≤ p'.pending_rewards
  pub caught_up : p'.acc_reward_amount_per_share ≡ acc
  pub staked_kept : p'.amount_staked ≡ p.amount_staked
  pub vested_kept : p'.total_amount_vested ≡ p.total_amount_vested

pub accrue_position-PositionAccrued :
    (p p' : StakePosition) (acc : ℕ) → accrue_position p acc ≡ ok p' → PositionAccrued p p' acc
unfolding accrue_position
accrue_position-PositionAccrued p p' acc h = record {
  credited =
      ground (arith, div-mul-le (shares p * (acc - p.acc_reward_amount_per_share)) staking_scale);
  whole = ground (
    arith,
    lt-div-mul-add (shares p * (acc - p.acc_reward_amount_per_share)) staking_scale (omega arith),
  );
  kept = ground arith;
  caught_up = ground arith;
  staked_kept = ground arith;
  vested_kept = ground arith;
}
