-- ===== src/StakingManager/Delivery.antt =====
-- programs/token-mill/src/manager/staking_manager.rs with MarketFees::distribute_fee of
-- state/market.rs: how much of a fee reaches the stakers of a market.
use native.Mathlib.Nat.{mul_comm}
use sol_token_mill.Base.{
  List, Option, ap, arith, inl, inr, refl, subst, suc, sym, zero, ℕ, ◌*◌, ◌+◌, ◌<◌, ◌∷◌, ◌≡◌, ◌≤◌,
  ◌⊎◌,
}
use sol_token_mill.Constant.{staking_scale}
use sol_token_mill.Errors.{ok, ok-injective, on_ok}
use sol_token_mill.Market.{FeeSplit, MarketFees, distribute_fee}
use sol_token_mill.Market.Fees.{distribute_fee-Distributed}
use sol_token_mill.Staking.{MarketStaking, StakePosition, accrue_market, accrue_position}
use sol_token_mill.StakingManager.{Stakes, accrue_rewards, clear_fees}
use sol_token_mill.StakingManager.Accrual.{
  MarketAccrued, PositionAccrued, accrue_market-MarketAccrued, accrue_position-PositionAccrued,
  owed, owed-grow, total_shares, total_staked, total_vested,
}
use sol_token_mill.StakingManager.Operations.{Operation, operate, operate-Operated, restaked}
use sol_token_mill.StakingManager.Solvency.{SolventFor, book-Solvent, owed_to-caught_up}

-- What a market owes its stakers, in units of 1 / STAKING_SCALE: what the positions, one brought
-- forward and the others, are owed, and the fees that are still pending.
abbrev pub due : Stakes → List StakePosition → ℕ
due w others =
    owed w.staking.acc_reward_amount_per_share (w.position ∷ others)
    + w.fees.pending_staking_fees * staking_scale

-- The fees that are cleared, against a growth `g` of the accumulator that they pay for.
cleared_bounds :
    (fees : MarketFees) (a g paid : ℕ)
    → g * paid ≤ fees.pending_staking_fees * staking_scale
    → fees.pending_staking_fees * staking_scale < g * paid + paid
    → (paid * g + (clear_fees fees (a + g)).pending_staking_fees * staking_scale
        ≤ fees.pending_staking_fees * staking_scale)
      × (fees.pending_staking_fees * staking_scale
          < paid * g + (clear_fees fees (a + g)).pending_staking_fees * staking_scale + paid)
cleared_bounds fees a zero paid cost rest = ground arith
cleared_bounds fees a (suc g) paid cost rest = ground (arith, mul_comm (suc g) paid)

clear_fees_lem :
    (fees : MarketFees) (acc : ℕ) → ((clear_fees fees acc).pending_staking_fees ≡ 0) ⊎ (acc ≡ 0)
clear_fees_lem fees zero = inr refl
clear_fees_lem fees (suc acc) = inl (ground arith)

-- Accrued rewards: what is due has changed by less than a share each and one unit, and what the
-- position is owed is what is pending for it.
record Settled (w w' : Stakes) (others : List StakePosition) : Type 0 where
  at_most : due w' others ≤ due w others
  nearly : due w others < due w' others + total_shares w.staking + staking_scale
  cleared : (w'.fees.pending_staking_fees ≡ 0) ⊎ (w'.staking.acc_reward_amount_per_share ≡ 0)
  caught_up : w'.position.acc_reward_amount_per_share ≡ w'.staking.acc_reward_amount_per_share

module _ (funds : ℕ) (w : Stakes) (others : List StakePosition) (v : SolventFor funds w others)
    (some_shares : 0 < total_shares w.staking) where
  accrued_Settled :
      (s : MarketStaking) (p : StakePosition)
      → MarketAccrued w.staking s w.fees.pending_staking_fees
      → PositionAccrued w.position p s.acc_reward_amount_per_share
      → Settled w
          (record {
            fees = clear_fees w.fees s.acc_reward_amount_per_share;
            staking = s;
            position = p;
          })
          others
  accrued_Settled s p a c =
      let acc = s.acc_reward_amount_per_share in
      let acc0 = w.staking.acc_reward_amount_per_share in
      let total = total_shares w.staking in
      let grown : owed acc (w.position ∷ others)
          ≡ owed acc0 (w.position ∷ others)
            + (total_staked (w.position ∷ others) + total_vested (w.position ∷ others)) * a.growth =
        subst
          (λ (b : ℕ).
            owed b (w.position ∷ others)
            ≡ owed acc0 (w.position ∷ others)
              + (total_staked (w.position ∷ others) + total_vested (w.position ∷ others))
                * a.growth)
          (sym (a.grown)) (owed-grow acc0 a.growth (w.position ∷ others) v.behind) in
      let split : total ≡ total_staked (w.position ∷ others) + total_vested (w.position ∷ others) =
        omega (arith, v.staked, v.vested) in
      let (le, lt) =
        cleared_bounds w.fees acc0 a.growth total (omega (arith, a.paid_for))
          (omega (arith, a.spent some_shares)) in
      let cleared_le : total * a.growth
            + (clear_fees w.fees acc).pending_staking_fees * staking_scale
          ≤ w.fees.pending_staking_fees * staking_scale =
        subst
          (λ (b : ℕ).
            total * a.growth + (clear_fees w.fees b).pending_staking_fees * staking_scale
            ≤ w.fees.pending_staking_fees * staking_scale)
          (sym (a.grown)) le in
      let cleared_lt : w.fees.pending_staking_fees * staking_scale
          < total * a.growth
            + (clear_fees w.fees acc).pending_staking_fees * staking_scale
            + total =
        subst
          (λ (b : ℕ).
            w.fees.pending_staking_fees * staking_scale
            < total * a.growth + (clear_fees w.fees b).pending_staking_fees * staking_scale + total)
          (sym (a.grown)) lt in
      let shared = ap (λ (t : ℕ). t * a.growth) split in
      let own = owed_to-caught_up acc p c.caught_up in
      record {
        at_most = omega (arith, own, c.credited, grown, cleared_le, shared);
        nearly = omega (arith, own, c.whole, grown, cleared_lt, shared);
        cleared = clear_fees_lem w.fees acc;
        caught_up = c.caught_up;
      }

  accrue_rewards-Settled :
      (w' : Stakes) (n : ℕ) → accrue_rewards w ≡ ok (n, w') → Settled w w' others
  unfolding accrue_rewards
  accrue_rewards-Settled w' n h =
      on_ok (accrue_market w.staking w.fees.pending_staking_fees) h λ s es h1.
        on_ok (accrue_position w.position s.acc_reward_amount_per_share) h1 λ p ep h2.
          subst (λ (r : ℕ × Stakes). Settled w r.1 others) (ok-injective h2)
            (accrued_Settled s p
              (accrue_market-MarketAccrued w.staking s w.fees.pending_staking_fees es)
              (accrue_position-PositionAccrued w.position p s.acc_reward_amount_per_share ep))

-- Changing the stakes of a position that has caught up.
restaked-Settled :
    {w : Stakes} {others : List StakePosition} (w' : Stakes)
    (staked vested own_staked own_vested : ℕ)
    → Settled w w' others
    → Settled w (restaked w' staked vested own_staked own_vested) others
restaked-Settled w' staked vested own_staked own_vested r =
    let acc = w'.staking.acc_reward_amount_per_share in
    let before = owed_to-caught_up acc w'.position r.caught_up in
    let after =
      owed_to-caught_up acc
        (record (w'.position) { amount_staked = own_staked; total_amount_vested = own_vested })
        r.caught_up in
    record {
      at_most = omega (arith, r.at_most, before, after);
      nearly = omega (arith, r.nearly, before, after);
      cleared = r.cleared;
      caught_up = r.caught_up;
    }

operate-Settled :
    (funds n : ℕ) (op : Operation) (w w' : Stakes) (others : List StakePosition)
    → SolventFor funds w others
    → 0 < total_shares w.staking
    → operate op w ≡ ok (n, w')
    → Settled w w' others
operate-Settled funds n op w w' others v some_shares h =
    let o = operate-Operated op w w' n h in
    subst (λ (x : Stakes). Settled w x others) o.after
      (restaked-Settled o.accrued o.staked o.vested o.own_staked o.own_vested
        (accrue_rewards-Settled funds w others v some_shares o.accrued n o.accrual))

-- Where the stakers of a market are solvent, it has some shares, a fee is distributed and then one of
-- the four operations of the manager succeeds: what the market owes its stakers has risen by at most
-- the stakers' part of the fee, and by more than that part less one smallest unit of the quote token
-- and 10^-18 of it for each share; and no fee is left pending unless the accumulator is still 0.
pub operate-distribute_fee :
    (funds n fee : ℕ) (referral : Option ℕ) (split : FeeSplit) (fees' : MarketFees) (op : Operation)
    (w w' : Stakes) (others : List StakePosition)
    → SolventFor funds w others
    → 0 < total_shares w.staking
    → distribute_fee w.fees fee referral ≡ ok (split, fees')
    → operate op (record w { fees = fees' }) ≡ ok (n, w')
    → (due w' others ≤ due w others + split.staking_fee * staking_scale)
      × (due w others + split.staking_fee * staking_scale
          < due w' others + total_shares w.staking + staking_scale)
      × ((w'.fees.pending_staking_fees ≡ 0) ⊎ (w'.staking.acc_reward_amount_per_share ≡ 0))
operate-distribute_fee funds n fee referral split fees' op w w' others v some_shares hd h =
    let d = distribute_fee-Distributed w.fees fee referral (split, fees') hd in
    let v' = book-Solvent funds w.fees fees' fee referral split w.staking _ v hd in
    let r =
      operate-Settled (funds + split.staking_fee) n op (record w { fees = fees' }) w' others v'
        some_shares h in
    (
      omega (arith, r.at_most, d.staking_booked),
      omega (arith, r.nearly, d.staking_booked),
      r.cleared,
    )
