-- ===== src/StakingManager/Solvency.antt =====
-- programs/token-mill/src/manager/staking_manager.rs: the stakers of a market are never owed more than
-- the fees set aside for them.
use native.Mathlib.Nat.{mul_comm}
use sol_token_mill.Base.{
  List, Option, ap, arith, subst, suc, sym, zero, ℕ, ◌*◌, ◌+◌, ◌-◌, ◌∷◌, ◌≡◌, ◌≤◌,
}
use sol_token_mill.Constant.{staking_scale}
use sol_token_mill.Errors.{ok, ok-injective, on_ok}
use sol_token_mill.Market.{FeeSplit, MarketFees, distribute_fee}
use sol_token_mill.Market.Fees.{distribute_fee-Distributed}
use sol_token_mill.Staking.{MarketStaking, StakePosition, accrue_market, accrue_position}
use sol_token_mill.StakingManager.{Stakes, accrue_rewards, clear_fees}
use sol_token_mill.StakingManager.Accrual.{
  Behind, Behind-mono, MarketAccrued, PositionAccrued, accrue_market-MarketAccrued,
  accrue_position-PositionAccrued, owed, owed-grow, owed_to, total_shares, total_staked,
  total_vested,
}
use sol_token_mill.StakingManager.Operations.{Operation, operate, operate-Operated, restaked}

-- `funds` is what the swaps of the market set aside for its stakers, less what was paid out. The
-- stakes of the market are the sums over its positions `ps`, and what the positions are owed is
-- covered by the funds, together with the fees that are still pending.
pub record Solvent (funds : ℕ) (fees : MarketFees) (s : MarketStaking) (ps : List StakePosition)
    : Type 0 where
  pub staked : s.amount_staked ≡ total_staked ps
  pub vested : s.total_amount_vested ≡ total_vested ps
  pub behind : Behind s.acc_reward_amount_per_share ps
  pub funded :
      owed s.acc_reward_amount_per_share ps + fees.pending_staking_fees * staking_scale
      ≤ funds * staking_scale

-- The stakes of a market with one position brought forward and the others.
abbrev pub SolventFor : ℕ → Stakes → List StakePosition → Type 0
SolventFor funds w others = Solvent funds w.fees w.staking (w.position ∷ others)

-- After `accrue_rewards` the position has caught up as well.
record Accrued (funds : ℕ) (w : Stakes) (others : List StakePosition) : Type 0 where
  solvent : SolventFor funds w others
  caught_up : w.position.acc_reward_amount_per_share ≡ w.staking.acc_reward_amount_per_share

clear_fees-le :
    (fees : MarketFees) (a g owes paid funds : ℕ)
    → g * paid ≤ fees.pending_staking_fees * staking_scale
    → owes + fees.pending_staking_fees * staking_scale ≤ funds * staking_scale
    → owes + paid * g + (clear_fees fees (a + g)).pending_staking_fees * staking_scale
      ≤ funds * staking_scale
clear_fees-le fees a zero owes paid funds cost h = ground arith
clear_fees-le fees a (suc g) owes paid funds cost h = ground (arith, mul_comm (suc g) paid)

-- A position that has caught up is owed what is pending.
pub owed_to-caught_up :
    (acc : ℕ) (p : StakePosition)
    → p.acc_reward_amount_per_share ≡ acc
    → owed_to acc p ≡ p.pending_rewards * staking_scale
owed_to-caught_up acc p h =
    let none_left : acc - p.acc_reward_amount_per_share ≡ 0 = omega arith in
    rw none_left (omega arith)

accrue_Solvent :
    (funds : ℕ) (fees : MarketFees) (s s' : MarketStaking) (p p' : StakePosition)
    (others : List StakePosition)
    → Solvent funds fees s (p ∷ others)
    → MarketAccrued s s' fees.pending_staking_fees
    → PositionAccrued p p' s'.acc_reward_amount_per_share
    → Solvent funds (clear_fees fees s'.acc_reward_amount_per_share) s' (p' ∷ others)
accrue_Solvent funds fees s s' p p' others v a c =
    let acc = s'.acc_reward_amount_per_share in
    let grown : owed acc (p ∷ others)
        ≡ owed s.acc_reward_amount_per_share (p ∷ others)
          + (total_staked (p ∷ others) + total_vested (p ∷ others)) * a.growth =
      subst
        (λ (b : ℕ).
          owed b (p ∷ others)
          ≡ owed s.acc_reward_amount_per_share (p ∷ others)
            + (total_staked (p ∷ others) + total_vested (p ∷ others)) * a.growth)
        (sym (a.grown)) (owed-grow s.acc_reward_amount_per_share a.growth (p ∷ others) v.behind) in
    let cost : a.growth * total_shares s ≤ fees.pending_staking_fees * staking_scale =
      omega (arith, a.paid_for) in
    let left : owed s.acc_reward_amount_per_share (p ∷ others)
          + total_shares s * a.growth
          + (clear_fees fees acc).pending_staking_fees * staking_scale
        ≤ funds * staking_scale =
      subst
        (λ (b : ℕ).
          owed s.acc_reward_amount_per_share (p ∷ others)
            + total_shares s * a.growth
            + (clear_fees fees b).pending_staking_fees * staking_scale
          ≤ funds * staking_scale)
        (sym (a.grown))
        (clear_fees-le fees s.acc_reward_amount_per_share a.growth
          (owed s.acc_reward_amount_per_share (p ∷ others)) (total_shares s) funds cost v.funded) in
    let total : total_shares s ≡ total_staked (p ∷ others) + total_vested (p ∷ others) =
      omega (arith, v.staked, v.vested) in
    record {
      staked = omega (arith, v.staked, a.staked_kept, c.staked_kept);
      vested = omega (arith, v.vested, a.vested_kept, c.vested_kept);
      behind = (omega (arith, c.caught_up), Behind-mono others (omega (arith, a.grown)) v.behind.1);
      funded = omega (
        arith,
        owed_to-caught_up acc p' c.caught_up,
        c.credited,
        grown,
        left,
        ap (λ (t : ℕ). t * a.growth) total,
      );
    }

accrue_rewards-Accrued :
    (funds n : ℕ) (w w' : Stakes) (others : List StakePosition)
    → SolventFor funds w others
    → accrue_rewards w ≡ ok (n, w')
    → Accrued funds w' others
unfolding accrue_rewards
accrue_rewards-Accrued funds n w w' others v h =
    on_ok (accrue_market w.staking w.fees.pending_staking_fees) h λ s es h1.
      on_ok (accrue_position w.position s.acc_reward_amount_per_share) h1 λ p ep h2.
        subst (λ (r : ℕ × Stakes). Accrued funds r.1 others) (ok-injective h2)
          (record {
            solvent =
                accrue_Solvent funds w.fees w.staking s w.position p others v
                  (accrue_market-MarketAccrued w.staking s w.fees.pending_staking_fees es)
                  (accrue_position-PositionAccrued w.position p s.acc_reward_amount_per_share ep);
            caught_up =
                (accrue_position-PositionAccrued w.position p s.acc_reward_amount_per_share
                  ep).caught_up;
          })

-- Changing the stakes of a position that has caught up, by as much as those of the market.
restake :
    (funds : ℕ) (w : Stakes) (others : List StakePosition) (staked vested own_staked own_vested : ℕ)
    → Accrued funds w others
    → staked + w.position.amount_staked ≡ own_staked + w.staking.amount_staked
    → vested + w.position.total_amount_vested ≡ own_vested + w.staking.total_amount_vested
    → SolventFor funds (restaked w staked vested own_staked own_vested) others
restake funds w others staked vested own_staked own_vested a hs hv =
    let v = a.solvent in
    record {
      staked = omega (arith, v.staked);
      vested = omega (arith, v.vested);
      behind = v.behind;
      funded = omega (
        arith,
        v.funded,
        owed_to-caught_up w.staking.acc_reward_amount_per_share w.position a.caught_up,
        owed_to-caught_up w.staking.acc_reward_amount_per_share
            (record (w.position) { amount_staked = own_staked; total_amount_vested = own_vested })
            a.caught_up,
      );
    }

-- Every operation that succeeds keeps the stakers of a solvent market solvent: its stakes stay the sums over the positions, no
-- position gets ahead of the accumulator, and what the positions are owed stays covered by the same
-- funds.
pub operate-Solvent :
    (funds n : ℕ) (op : Operation) (w w' : Stakes) (others : List StakePosition)
    → SolventFor funds w others
    → operate op w ≡ ok (n, w')
    → SolventFor funds w' others
operate-Solvent funds n op w w' others v h =
    let o = operate-Operated op w w' n h in
    subst (λ (x : Stakes). SolventFor funds x others) o.after
      (restake funds o.accrued others o.staked o.vested o.own_staked o.own_vested
        (accrue_rewards-Accrued funds n w o.accrued others v o.accrual) o.same_staked o.same_vested)

-- The rewards that are pending for a position, paid out of the funds.
pub paid_out-Solvent :
    (funds : ℕ) (w : Stakes) (others : List StakePosition)
    → SolventFor funds w others
    → (w.position.pending_rewards ≤ funds)
      × SolventFor
          (funds - w.position.pending_rewards)
          (record w { position = record (w.position) { pending_rewards = 0 } })
          others
paid_out-Solvent funds w others v =
    let le : w.position.pending_rewards ≤ funds = omega (arith, v.funded) in
    (
      le,
      record {
        staked = v.staked;
        vested = v.vested;
        behind = v.behind;
        funded = omega (arith, v.funded, le);
      },
    )

-- Where the stakers are solvent and `distribute_fee` succeeds, they stay solvent with the funds raised
-- by the stakers' part of the fee.
pub book-Solvent :
    (funds : ℕ) (fees fees' : MarketFees) (fee : ℕ) (referral : Option ℕ) (split : FeeSplit)
    (s : MarketStaking) (ps : List StakePosition)
    → Solvent funds fees s ps
    → distribute_fee fees fee referral ≡ ok (split, fees')
    → Solvent (funds + split.staking_fee) fees' s ps
book-Solvent funds fees fees' fee referral split s ps v h =
    let d = distribute_fee-Distributed fees fee referral (split, fees') h in
    record {
      staked = v.staked;
      vested = v.vested;
      behind = v.behind;
      funded = omega (arith, v.funded, d.staking_booked);
    }
