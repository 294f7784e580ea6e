-- ===== src/StakingManager/Moves.antt =====
-- programs/token-mill/src/manager/staking_manager.rs: what the operations leave as it is.
use sol_token_mill.Base.{arith, subst, ℕ, ◌≡◌, ◌≤◌}
use sol_token_mill.Errors.{ok, ok-injective, on_ok}
use sol_token_mill.Staking.{StakePosition, accrue_market, accrue_position}
use sol_token_mill.StakingManager.{Stakes, accrue_rewards}
use sol_token_mill.StakingManager.Accrual.{accrue_market-MarketAccrued}
use sol_token_mill.StakingManager.Operations.{Operation, operate, operate-Operated, restaked}

-- Whose the accounts are and the shares of the fees stay, and the accumulator never falls.
pub record StakesMoved (w w' : Stakes) : Type 0 where
  pub creator_share : w'.fees.creator_fee_share ≡ w.fees.creator_fee_share
  pub staking_share : w'.fees.staking_fee_share ≡ w.fees.staking_fee_share
  pub creator_pending : w'.fees.pending_creator_fees ≡ w.fees.pending_creator_fees
  pub staking_market : w'.staking.market ≡ w.staking.market
  pub accumulated : w.staking.acc_reward_amount_per_share ≤ w'.staking.acc_reward_amount_per_share
  pub position_market : w'.position.market ≡ w.position.market
  pub user : w'.position.user ≡ w.position.user

position_kept :
    (p p' : StakePosition) (acc : ℕ)
    → accrue_position p acc ≡ ok p'
    → (p'.market ≡ p.market) × (p'.user ≡ p.user)
unfolding accrue_position
position_kept p p' acc h = (ground arith, ground arith)

accrue_rewards-StakesMoved :
    (w w' : Stakes) (n : ℕ) → accrue_rewards w ≡ ok (n, w') → StakesMoved w w'
unfolding accrue_rewards
accrue_rewards-StakesMoved w w' n h =
    on_ok (accrue_market w.staking w.fees.pending_staking_fees) h λ s es h1.
      on_ok (accrue_position w.position s.acc_reward_amount_per_share) h1 λ p ep h2.
        let a = accrue_market-MarketAccrued w.staking s w.fees.pending_staking_fees es in
        let (em, eu) = position_kept w.position p s.acc_reward_amount_per_share ep in
        subst (λ (r : ℕ × Stakes). StakesMoved w r.1) (ok-injective h2)
          (record {
            creator_share = ground arith;
            staking_share = ground arith;
            creator_pending = ground arith;
            staking_market = a.market_kept;
            accumulated = omega (arith, a.grown);
            position_market = em;
            user = eu;
          })

restaked-StakesMoved :
    (w w' : Stakes) (staked vested own_staked own_vested : ℕ)
    → StakesMoved w w'
    → StakesMoved w (restaked w' staked vested own_staked own_vested)
restaked-StakesMoved w w' staked vested own_staked own_vested m = record {
  creator_share = m.creator_share;
  staking_share = m.staking_share;
  creator_pending = m.creator_pending;
  staking_market = m.staking_market;
  accumulated = m.accumulated;
  position_market = m.position_market;
  user = m.user;
}

pub operate-StakesMoved :
    (op : Operation) (w w' : Stakes) (n : ℕ) → operate op w ≡ ok (n, w') → StakesMoved w w'
operate-StakesMoved op w w' n h =
    let o = operate-Operated op w w' n h in
    subst (λ (x : Stakes). StakesMoved w x) o.after
      (restaked-StakesMoved w o.accrued o.staked o.vested o.own_staked o.own_vested
        (accrue_rewards-StakesMoved w o.accrued n o.accrual))
