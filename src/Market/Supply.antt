-- ===== src/Market/Supply.antt =====
-- programs/token-mill/src/state/market.rs: which supplies `initialize` accepts, and the interval
-- width that it computes from them.
use sol_token_mill.Base.{Bool-cases, arith, false, inl, inr, refl, ℕ, ◌*◌, ◌-◌, ◌/◌, ◌≡◌, ◌≤◌, ◌⊎◌}
use sol_token_mill.Constant.{base_precision, interval_number, max_total_supply, scale}
use sol_token_mill.Errors.{err, error, invalid_total_supply, ok}
use sol_token_mill.Market.{Market, Pubkey, circulating_supply, initialize, supply_rejected}

-- The supplies that a market may have.
pub record SupplyValid (total : ℕ) : Type 0 where
  pub at_most : total ≤ max_total_supply
  pub per_interval : base_precision ≤ total / interval_number
  pub whole : total / interval_number * interval_number ≡ total

-- The supply of a market, the part of it that is in reserve, and the width of its intervals. The
-- ten intervals cover the supply exactly, at the internal scale.
pub record ReserveValid (m : Market) : Type 0 where
  pub supply : SupplyValid m.total_supply
  pub reserve_le : m.base_reserve ≤ m.total_supply
  pub width : m.width_scaled * base_precision ≡ m.total_supply / interval_number * scale

pub circulating_supply-eq :
    (m : Market) → ReserveValid m → circulating_supply m ≡ ok (m.total_supply - m.base_reserve)
unfolding circulating_supply
circulating_supply-eq m v = ground (arith, v.reserve_le)

supply_accepted : (total : ℕ) → supply_rejected total ≡ false → SupplyValid total
supply_accepted total h = record {
  at_most = ground arith;
  per_interval = ground arith;
  whole = ground arith;
}

pub width_exact :
    (total : ℕ)
    → SupplyValid total
    → total / interval_number * scale / base_precision * base_precision
      ≡ total / interval_number * scale
width_exact total v = omega arith

-- `initialize` fails with `InvalidTotalSupply` unless the supply is valid. On a valid supply it
-- succeeds, for every market and every other argument: the whole supply is in reserve, the width is
-- exact, and the shares are those given.
pub initialize_cases :
    (m : Market) (bump : ℕ) (config creator base quote : Pubkey)
    (decimals total creator_share staking_share : ℕ)
    → ((m' : Market) × (initialize m bump config creator base quote decimals total creator_share
            staking_share
          ≡ ok m')
        × ReserveValid m'
        × (m'.base_reserve ≡ total)
        × (m'.total_supply ≡ total)
        × (m'.fees.creator_fee_share ≡ creator_share)
        × (m'.fees.staking_fee_share ≡ staking_share))
      ⊎ ((¬ SupplyValid total)
          × (initialize m bump config creator base quote decimals total creator_share staking_share
              ≡ err (error invalid_total_supply)))
unfolding initialize
initialize_cases m bump config creator base quote decimals total creator_share staking_share =
    elim (Bool-cases (supply_rejected total)) [
      | inl bad ↦ inr ((λ v. ground (arith, v.at_most, v.per_interval, v.whole)), ground arith)
      | inr good ↦
          let v = supply_accepted total good in
          inl (
            record m {
              bump = bump;
              config = config;
              creator = creator;
              base_token_mint = base;
              quote_token_mint = quote;
              quote_token_decimals = decimals;
              total_supply = total;
              base_reserve = total;
              width_scaled = total / interval_number * scale / base_precision;
              fees = record (m.fees) {
                creator_fee_share = creator_share;
                staking_fee_share = staking_share;
              };
            },
            ground (arith, v.at_most),
            record { supply = v; reserve_le = omega arith; width = width_exact total v },
            refl,
            refl,
            refl,
            refl,
          )
    ]

-- The prices are left as they are.
pub initialize-prices :
    (m m' : Market) (bump : ℕ) (config creator base quote : Pubkey)
    (decimals total creator_share staking_share : ℕ)
    → initialize m bump config creator base quote decimals total creator_share staking_share ≡ ok m'
    → (m'.bid_prices ≡ m.bid_prices) × (m'.ask_prices ≡ m.ask_prices)
unfolding initialize
initialize-prices m m' bump config creator base quote decimals total creator_share staking_share h =
    (ground arith, ground arith)
