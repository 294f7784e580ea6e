-- ===== src/Market/Fees.antt =====
-- programs/token-mill/src/state/market.rs: what `distribute_fee` does with a swap fee.
use sol_token_mill.Word.U64
use native.Mathlib.Nat.{mul-le-mul_left, mul-add}
use sol_token_mill.Base.{Option, arith, none, some, ℕ, ◌*◌, ◌+◌, ◌-◌, ◌/◌, ◌<◌, ◌≡◌, ◌≤◌}
use sol_token_mill.Constant.{max_bps}
use sol_token_mill.Errors.{ok}
use sol_token_mill.Market.{FeeSplit, MarketFees, distribute_fee, share_of}

-- The shares that the creator and the stakers have leave nothing negative for the protocol.
pub record SharesValid (fees : MarketFees) : Type 0 where
  pub shares_fit : fees.creator_fee_share + fees.staking_fee_share ≤ max_bps

abbrev pub share : ℕ → ℕ → ℕ
share amount s = amount * s / max_bps

-- What an optional referral gets of `remaining`.
abbrev pub referral_amount : ℕ → Option ℕ → ℕ
referral_amount remaining none = 0
referral_amount remaining (some s) = share remaining s

abbrev pub ReferralValid : Option ℕ → Type 0
ReferralValid none = Unit {0}
ReferralValid (some s) = s ≤ max_bps

share-le : (amount s : ℕ) → s ≤ max_bps → share amount s ≤ amount
share-le amount s h = omega (arith, mul-le-mul_left amount h)

shares-le : (amount c s : ℕ) → c + s ≤ max_bps → share amount c + share amount s ≤ amount
shares-le amount c s h = omega (arith, mul-le-mul_left amount h, mul-add amount c s)

share_of_exact :
    (amount s : ℕ) → amount < U64.lim → s ≤ max_bps → share_of amount s ≡ ok (share amount s)
share_of_exact amount s h b = ground (arith, share-le amount s b, mul-le-mul_left amount b)

-- A fee is paid out and booked without a rest.
pub record Distributed (fees : MarketFees) (fee : ℕ) (r : FeeSplit × MarketFees) : Type 0 where
  pub conserved : r.0.creator_fee + r.0.staking_fee + r.0.protocol_fee + r.0.referral_fee ≡ fee
  pub creator_booked : r.1.pending_creator_fees ≡ fees.pending_creator_fees + r.0.creator_fee
  pub staking_booked : r.1.pending_staking_fees ≡ fees.pending_staking_fees + r.0.staking_fee
  pub creator_share_kept : r.1.creator_fee_share ≡ fees.creator_fee_share
  pub staking_share_kept : r.1.staking_fee_share ≡ fees.staking_fee_share

-- Whenever `distribute_fee` succeeds, the four parts of the fee add up to it, the creator's and the
-- stakers' part are added to what is pending for them, and the shares stay as they are.
pub distribute_fee-Distributed :
    (fees : MarketFees) (fee : ℕ) (referral : Option ℕ) (r : FeeSplit × MarketFees)
    → distribute_fee fees fee referral ≡ ok r
    → Distributed fees fee r
unfolding distribute_fee
distribute_fee-Distributed fees fee none r h = ground arith
distribute_fee-Distributed fees fee (some s) r h = ground arith

-- Where the shares of the market are valid, the share of the referral is at most 100% and the
-- pending fees have room for the fee, `distribute_fee` succeeds, and each part is its share of the
-- fee, rounded down; the protocol keeps the rest.
pub distribute_fee_exact :
    (fees : MarketFees) (fee : ℕ) (referral : Option ℕ)
    → SharesValid fees
    → ReferralValid referral
    → fees.pending_creator_fees + fee < U64.lim
    → fees.pending_staking_fees + fee < U64.lim
    → let creator = share fee fees.creator_fee_share in
      let staking = share fee fees.staking_fee_share in
      let remaining = fee - creator - staking in
      distribute_fee fees fee referral
      ≡ ok (
        record {
          creator_fee = creator;
          staking_fee = staking;
          protocol_fee = remaining - referral_amount remaining referral;
          referral_fee = referral_amount remaining referral;
        },
        record fees {
          pending_staking_fees = fees.pending_staking_fees + staking;
          pending_creator_fees = fees.pending_creator_fees + creator;
        },
      )
unfolding distribute_fee
distribute_fee_exact fees fee none v r hc hs =
    rw
      (
        share_of_exact fee fees.creator_fee_share (omega arith) (omega arith),
        share_of_exact fee fees.staking_fee_share (omega arith) (omega arith),
      )
      (ground (arith, shares-le fee fees.creator_fee_share fees.staking_fee_share v.shares_fit))
distribute_fee_exact fees fee (some s) v r hc hs = ground (
  arith,
  shares-le fee fees.creator_fee_share fees.staking_fee_share v.shares_fit,
  share_of_exact fee fees.creator_fee_share,
  share_of_exact fee fees.staking_fee_share,
  share_of_exact (fee - share fee fees.creator_fee_share - share fee fees.staking_fee_share) s,
  share-le (fee - share fee fees.creator_fee_share - share fee fees.staking_fee_share) s,
)
