-- ===== src/StakingManager/Entitled.antt =====
-- programs/token-mill/src/manager/staking_manager.rs: a deposit of nothing, which is how a claim accrues
-- the rewards of a position.
use sol_token_mill.Word.U64
use sol_token_mill.Base.{arith, subst, ℕ, ◌∙◌, ◌≡◌}
use sol_token_mill.Errors.{ok, ok-injective, on_ok}
use sol_token_mill.Staking.{accrue_market, accrue_position}
use sol_token_mill.StakingManager.{Stakes, accrue_rewards, deposit}
use sol_token_mill.StakingManager.Accrual.{PositionAccrued, accrue_position-PositionAccrued}

accrue_rewards-PositionAccrued :
    (w w' : Stakes) (n : ℕ)
    → accrue_rewards w ≡ ok (n, w')
    → PositionAccrued w.position w'.position w'.staking.acc_reward_amount_per_share
unfolding accrue_rewards
accrue_rewards-PositionAccrued w w' n h =
    on_ok (accrue_market w.staking w.fees.pending_staking_fees) h λ s es h1.
      on_ok (accrue_position w.position s.acc_reward_amount_per_share) h1 λ p ep h2.
        subst
          (λ (r : ℕ × Stakes).
            PositionAccrued w.position r.1.position r.1.staking.acc_reward_amount_per_share)
          (ok-injective h2)
          (accrue_position-PositionAccrued w.position p s.acc_reward_amount_per_share ep)

pub deposit-PositionAccrued :
    (w w' : Stakes) (n : ℕ)
    → deposit w 0 ≡ ok (n, w')
    → PositionAccrued w.position w'.position w'.staking.acc_reward_amount_per_share
unfolding deposit
deposit-PositionAccrued w w' n h = on_ok (accrue_rewards w) h λ r er h1.
    on_ok (U64.add r.1.staking.amount_staked 0) h1 λ total _ h2.
      on_ok (U64.add r.1.position.amount_staked 0) h2 λ own eo h3.
        let c = accrue_rewards-PositionAccrued w r.1 r.0 er in
        let same : own ≡ r.1.position.amount_staked = ground arith in
        subst
          (λ (q : ℕ × Stakes).
            PositionAccrued w.position q.1.position q.1.staking.acc_reward_amount_per_share)
          (ok-injective h3)
          (record {
            credited = c.credited;
            whole = c.whole;
            kept = c.kept;
            caught_up = c.caught_up;
            staked_kept = same ∙ c.staked_kept;
            vested_kept = c.vested_kept;
          })
