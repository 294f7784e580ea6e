-- ===== src/Market.antt =====
-- programs/token-mill/src/state/market.rs: the market account, its fees and its settings. The
-- pricing functions are in `Market.Quote` and `Market.Exact`.
pub mod Spread
pub mod Complete
pub mod Interval
pub mod Worth
pub mod Fair
pub mod Gap
pub mod Capped
pub mod Monotone
pub mod Fees
pub mod Prices
pub mod Supply
pub mod Bounds
pub mod Quoted
pub mod Reserve
pub mod Quote
pub mod Exact
use sol_token_mill.Word
use sol_token_mill.Word.U64
use sol_token_mill.Word.U128
use sol_token_mill.Base.{
  Bool, List, Option, [], get_elem?, leb, length, ltb, none, not, some, ℕ, ◌*◌, ◌/◌, ◌==◌, ◌||◌,
  ◌∷◌, ◌≡◌,
}
use sol_token_mill.Constant.{
  base_precision, interval_number, max_bps, max_price, max_total_supply, prices_length, scale,
}
use sol_token_mill.Errors.{
  Result, bid_ask_mismatch, decreasing_prices, error, invalid_total_supply, ok, or_fail, panic,
  price_too_high, prices_already_set, require, ◌>>=◌, ◌>>◌,
}

-- An address.
abbrev pub Pubkey : Type 0
Pubkey = ℕ

pub record MarketFees : Type 0 where
  pub staking_fee_share : ℕ
  pub creator_fee_share : ℕ
  pub pending_staking_fees : ℕ
  pub pending_creator_fees : ℕ

-- A price array of `PRICES_LENGTH` entries is a list.
pub record Market : Type 0 where
  pub config : Pubkey
  pub creator : Pubkey
  pub base_token_mint : Pubkey
  pub quote_token_mint : Pubkey
  pub base_reserve : ℕ
  pub bid_prices : List ℕ
  pub ask_prices : List ℕ
  pub width_scaled : ℕ
  pub total_supply : ℕ
  pub fees : MarketFees
  pub quote_token_decimals : ℕ
  pub bump : ℕ

-- `load_init` hands the handler an account of zeros.
abbrev pub zeroed : Market
zeroed = record {
  config = 0;
  creator = 0;
  base_token_mint = 0;
  quote_token_mint = 0;
  base_reserve = 0;
  bid_prices = 0 ∷ 0 ∷ 0 ∷ 0 ∷ 0 ∷ 0 ∷ 0 ∷ 0 ∷ 0 ∷ 0 ∷ 0 ∷ [];
  ask_prices = 0 ∷ 0 ∷ 0 ∷ 0 ∷ 0 ∷ 0 ∷ 0 ∷ 0 ∷ 0 ∷ 0 ∷ 0 ∷ [];
  width_scaled = 0;
  total_supply = 0;
  fees = record {
    staking_fee_share = 0;
    creator_fee_share = 0;
    pending_staking_fees = 0;
    pending_creator_fees = 0;
  };
  quote_token_decimals = 0;
  bump = 0;
}

-- `u64::try_from(u128::from(amount) * u128::from(share) / MAX_BPS as u128)?`
abbrev pub share_of : ℕ → ℕ → Result ℕ
share_of amount share = do
  product ← U128.mul amount share
  Word.try_from U64.lim (← Word.div product max_bps)

abbrev referral_part : ℕ → Option ℕ → Result ℕ
referral_part remaining_fee (some referral_fee_share) = share_of remaining_fee referral_fee_share
referral_part remaining_fee none = ok 0

-- What `distribute_fee` returns, in the order of its tuple.
pub record FeeSplit : Type 0 where
  pub creator_fee : ℕ
  pub staking_fee : ℕ
  pub protocol_fee : ℕ
  pub referral_fee : ℕ

unfoldable pub distribute_fee : MarketFees → ℕ → Option ℕ → Result (FeeSplit × MarketFees)
distribute_fee fees swap_fee referral_fee_share = do
  creator_fee ← share_of swap_fee fees.creator_fee_share
  staking_fee ← share_of swap_fee fees.staking_fee_share
  remaining_fee ← Word.sub (← Word.sub swap_fee creator_fee) staking_fee
  referral_fee ← referral_part remaining_fee referral_fee_share
  protocol_fee ← Word.sub remaining_fee referral_fee
  pending_creator ← U64.add fees.pending_creator_fees creator_fee
  pending_staking ← U64.add fees.pending_staking_fees staking_fee
  ok (
    record {
      creator_fee = creator_fee;
      staking_fee = staking_fee;
      protocol_fee = protocol_fee;
      referral_fee = referral_fee;
    },
    record fees { pending_staking_fees = pending_staking; pending_creator_fees = pending_creator },
  )

-- The guard of `Market::initialize`: `total_supply` must be a multiple of the number of intervals,
-- within bounds.
abbrev pub supply_rejected : ℕ → Bool
supply_rejected total_supply =
    ltb max_total_supply total_supply
    || ltb (total_supply / interval_number) base_precision
    || not (total_supply / interval_number * interval_number == total_supply)

unfoldable pub initialize :
    Market → ℕ → Pubkey → Pubkey → Pubkey → Pubkey → ℕ → ℕ → ℕ → ℕ → Result Market
initialize m bump config creator base_token_mint quote_token_mint quote_token_decimals total_supply
      creator_fee_share staking_fee_share =
    do
      require (not (supply_rejected total_supply)) (error invalid_total_supply)
      interval ← U128.mul (total_supply / interval_number) scale
      width_scaled ← Word.try_from U64.lim (← Word.div interval base_precision)
      let fees = record (m.fees) {
        creator_fee_share = creator_fee_share;
        staking_fee_share = staking_fee_share;
      }
      ok (record m {
        bump = bump;
        config = config;
        creator = creator;
        base_token_mint = base_token_mint;
        quote_token_mint = quote_token_mint;
        quote_token_decimals = quote_token_decimals;
        total_supply = total_supply;
        base_reserve = total_supply;
        width_scaled = width_scaled;
        fees = fees;
      })

-- `prices[i]` on an array: out of range it panics.
abbrev pub index : List ℕ → ℕ → Result ℕ
index prices i = or_fail (get_elem? prices i) panic

unfoldable pub are_prices_set : Market → Result Bool
are_prices_set m = do last ← index m.ask_prices interval_number; ok (not (last == 0))

-- The body of the loop of `check_and_set_prices` at an index above 0, where the prices before it
-- are `bid_before` and `ask_before`.
abbrev pub check_price : ℕ → ℕ → ℕ → ℕ → Result (Unit {0})
check_price bid_before ask_before bid ask = do
  require (leb bid ask) (error bid_ask_mismatch)
  require (not (leb ask ask_before || leb bid bid_before)) (error decreasing_prices)

-- The rounds of the loop from index 1 on. The two arrays have one length.
unfoldable pub check_prices : ℕ → ℕ → List ℕ → List ℕ → Result (Unit {0})
check_prices bid_before ask_before (bid ∷ bids) (ask ∷ asks) =
    check_price bid_before ask_before bid ask >> check_prices bid ask bids asks
check_prices _ _ _ _ = ok tt

-- The whole loop: at index 0 only the pair itself is tested.
unfoldable pub check_curves : List ℕ → List ℕ → Result (Unit {0})
check_curves (bid ∷ bids) (ask ∷ asks) = do
  require (leb bid ask) (error bid_ask_mismatch)
  check_prices bid ask bids asks
check_curves _ _ = ok tt

unfoldable pub check_and_set_prices : Market → List ℕ → List ℕ → Result Market
check_and_set_prices m bid_prices ask_prices = do
  set ← are_prices_set m
  require (not set) (error prices_already_set)
  check_curves bid_prices ask_prices
  last ← index ask_prices interval_number
  require (leb last max_price) (error price_too_high)
  ok (record m { bid_prices = bid_prices; ask_prices = ask_prices })

unfoldable pub circulating_supply : Market → Result ℕ
circulating_supply m = Word.sub m.total_supply m.base_reserve
