-- ===== src/Market/Capped.antt =====
-- programs/token-mill/src/state/market.rs: the cap of the last ask price bounds both curves.
use sol_token_mill.Base.{
  List, [], arith, get_elem?, length, refl, some, suc, sym, true, zero, ℕ, ◌<◌, ◌∙◌, ◌∷◌, ◌≡◌, ◌≤◌,
}
use sol_token_mill.Constant.{interval_number, max_price, prices_length}
use sol_token_mill.Errors.{ok}
use sol_token_mill.Market.{Market, are_prices_set, index}
use sol_token_mill.Market.Bounds.{PricesAtMost}
use sol_token_mill.Market.Prices.{Ascending, BidsBelowAsks, CurvesValid, IsAscending}
use sol_token_mill.Math.Steps.{limit}

-- The last price of an ascending list is the largest.
last_largest :
    (before : ℕ) (prices : List ℕ) (bound : ℕ)
    → Ascending before prices
    → ((last : ℕ) → get_elem? (before ∷ prices) (length prices) ≡ some last → last ≤ bound)
    → (before ≤ bound) × PricesAtMost bound prices
last_largest before [] bound a top = (top before refl, tt)
last_largest before (p ∷ ps) bound a top =
    let rest = last_largest p ps bound a.1 (λ last e. top last e) in
    (omega (arith, a.0, rest.0), rest)

bids_bounded :
    (bids asks : List ℕ) (bound : ℕ)
    → length bids ≡ length asks
    → BidsBelowAsks bids asks
    → PricesAtMost bound asks
    → PricesAtMost bound bids
bids_bounded [] asks bound len o h = tt
bids_bounded (b ∷ bids) [] bound len o h = absurd (omega arith)
bids_bounded (b ∷ bids) (a ∷ asks) bound len o h =
    (omega (arith, o.0, h.0), bids_bounded bids asks bound (omega arith) o.1 h.1)

asks_bounded :
    (asks : List ℕ)
    → length asks ≡ prices_length
    → IsAscending asks
    → ((last : ℕ) → get_elem? asks interval_number ≡ some last → last ≤ max_price)
    → PricesAtMost limit asks
asks_bounded [] len a top = tt
asks_bounded (p ∷ ps) len a top =
    let ten : length ps ≡ interval_number = omega arith in
    last_largest p ps limit a (λ last e. top last (rw ten at e))

-- The curves that a market may have stay within the bound of the arithmetic.
pub CurvesValid-PricesAtMost :
    (bids asks : List ℕ) → CurvesValid bids asks → PricesAtMost limit bids × PricesAtMost limit asks
CurvesValid-PricesAtMost bids asks c =
    let asks_at_most = asks_bounded asks c.asks_length c.asks_ascend c.capped in
    (
      bids_bounded bids asks limit (c.bids_length ∙ sym c.asks_length) c.ordered asks_at_most,
      asks_at_most,
    )

-- The prices after the first lie above it.
nth_above :
    (before : ℕ) (prices : List ℕ) (n : ℕ)
    → n < length prices
    → Ascending before prices
    → (price : ℕ) × (index prices n ≡ ok price) × (before < price)
nth_above before [] n lt a = absurd (omega arith)
nth_above before (p ∷ ps) zero lt a = (p, refl, a.0)
nth_above before (p ∷ ps) (suc n) lt a =
    let (price, e, above) = nth_above p ps n (omega arith) a.1 in
    (price, e, omega (arith, above, a.0))

last_positive :
    (asks : List ℕ)
    → length asks ≡ prices_length
    → IsAscending asks
    → (price : ℕ) × (index asks interval_number ≡ ok price) × (0 < price)
last_positive [] len a = absurd (omega arith)
last_positive (p ∷ ps) len a =
    let (price, e, above) = nth_above p ps 9 (omega arith) a in (price, e, omega (arith, above))

-- A market with its curves has its prices.
pub curves_set : (m : Market) → CurvesValid m.bid_prices m.ask_prices → are_prices_set m ≡ ok true
unfolding are_prices_set
curves_set m c =
    let (price, e, positive) = last_positive m.ask_prices c.asks_length c.asks_ascend in
    rw e (ground (arith, positive))
