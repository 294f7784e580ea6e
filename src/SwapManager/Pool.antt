-- ===== src/SwapManager/Pool.antt =====
-- programs/token-mill/src/manager/swap_manager.rs: what a market has taken in covers what it must pay.
use native.Mathlib.Nat.{add-mul, le_of_mul-le-mul_right}
use sol_token_mill.Base.{ap, arith, refl, sym, ℕ, ◌*◌, ◌+◌, ◌-◌, ◌^◌, ◌∙◌, ◌≡◌, ◌≤◌}
use sol_token_mill.Errors.{ok, ok-injective}
use sol_token_mill.Market.{Market}
use sol_token_mill.Market.Complete.{Market-Walk}
use sol_token_mill.Market.Fair.{unit, worth, worth_of-zero}
use sol_token_mill.Market.Prices.{CurvesValid}
use sol_token_mill.Market.Quoted.{quoted}
use sol_token_mill.Market.Supply.{ReserveValid, circulating_supply-eq}
use sol_token_mill.Ruint.{Laws, Ruint}
use sol_token_mill.SwapManager.{Swapped, swap}
use sol_token_mill.SwapManager.Parts.{Purchase-kept, sale_spent, settle_sale, swap_parts}
use sol_token_mill.SwapManager.RoundTrip.{settle-Purchase}
use sol_token_mill.SwapTypes.{SwapAmountType, buy, exact_input, exact_output, sell}

-- How many sales of a kind of amount name the quote amount that they are paid.
abbrev pub quoted_sales : SwapAmountType → ℕ
quoted_sales exact_input = 0
quoted_sales exact_output = 1

-- The trades of a market, one after the other. `kept` is what the purchases have paid less their swap
-- fees, `spent` is what the sales have been paid, and `quoted` counts the sales by quote amount.
pub data Trades (R : Ruint) (first : Market) : Market → (kept spent quoted : ℕ) → Type 0 where
  untraded : Trades R first first 0 0 0
  then_buy :
      {m m' : Market} {kept spent quoted : ℕ} {s : Swapped} (kind : SwapAmountType) (n : ℕ)
      → Trades R first m kept spent quoted
      → swap R m buy kind n ≡ ok (s, m')
      → Trades R first m' (kept + (s.quote_amount - s.swap_fee)) spent quoted
  then_sell :
      {m m' : Market} {kept spent quoted : ℕ} {s : Swapped} (kind : SwapAmountType) (n : ℕ)
      → Trades R first m kept spent quoted
      → swap R m sell kind n ≡ ok (s, m')
      → Trades R first m' kept (spent + s.quote_amount) (quoted + quoted_sales kind)

-- What is kept covers what was spent and the worth of the tokens in circulation at the bid prices.
pub record Funded (m : Market) (kept spent : ℕ) : Type 0 where
  pub reserve : ReserveValid m
  pub curves : CurvesValid m.bid_prices m.ask_prices
  pub covered :
      worth m exact_input (m.total_supply - m.base_reserve) * 10 ^ m.quote_token_decimals
        + spent * unit m
      ≤ kept * unit m

refilled :
    (m : Market) (reserve kept spent : ℕ)
    → Funded m kept spent
    → reserve ≤ m.total_supply
    → {kept' spent' : ℕ}
    → worth m exact_input (m.total_supply - reserve) * 10 ^ m.quote_token_decimals + spent' * unit m
      ≤ kept' * unit m
    → Funded (record m { base_reserve = reserve }) kept' spent'
refilled m reserve kept spent f le c = record {
  reserve = record { supply = f.reserve.supply; reserve_le = le; width = f.reserve.width };
  curves = f.curves;
  covered = c;
}

-- So what was spent is at most what was kept.
pub Funded-le : (m : Market) {kept spent : ℕ} → Funded m kept spent → spent ≤ kept
Funded-le m {kept} {spent} f =
    let walk = Market-Walk m 0 f.reserve (omega arith) in
    le_of_mul-le-mul_right {m = spent} {n = kept} {k = unit m} (omega (arith, f.covered))
      (omega (arith, walk.positive))

-- A trade leaves the decimals of the quote token alone.
abbrev FundedAs : ℕ → Market → (kept spent : ℕ) → Type 0
FundedAs decimals m kept spent = (m.quote_token_decimals ≡ decimals) × Funded m kept spent

pub buy-Funded :
    {R : Ruint} (laws : Laws R) (m m' : Market) (kind : SwapAmountType) (n decimals kept spent : ℕ)
    (s : Swapped)
    → FundedAs decimals m kept spent
    → swap R m buy kind n ≡ ok (s, m')
    → FundedAs decimals m' (kept + (s.quote_amount - s.swap_fee)) spent
buy-Funded {R} laws m m' kind n decimals kept spent s (same, f) h =
    let parts = swap_parts R m buy kind n s m' h in
    let p = settle-Purchase R m s.base_amount s.quote_amount _ parts.settled in
    let dearer =
      Purchase-kept laws m f.reserve f.curves kind n s.base_amount s.quote_amount s.swap_fee m'
        parts.amounts p in
    let circulating : p.supply ≡ m.total_supply - m.base_reserve =
      ok-injective (sym p.supply_eq ∙ circulating_supply-eq m f.reserve) in
    let more : p.supply + s.base_amount ≡ m.total_supply - (m.base_reserve - s.base_amount) =
      omega (arith, circulating, p.covered, f.reserve.reserve_le) in
    rw (p.after) (
      same,
      refilled m (m.base_reserve - s.base_amount) kept spent f (omega (arith, f.reserve.reserve_le))
          (omega (
            arith,
            rw (more, circulating) at dearer,
            f.covered,
            add-mul kept (s.quote_amount - s.swap_fee) (unit m),
          )),
    )

pub sell-Funded :
    {R : Ruint} (laws : Laws R) (m m' : Market) (kind : SwapAmountType) (n decimals kept spent : ℕ)
    (s : Swapped)
    → FundedAs decimals m kept spent
    → (kind ≡ exact_output → decimals ≤ 10)
    → swap R m sell kind n ≡ ok (s, m')
    → FundedAs decimals m' kept (spent + s.quote_amount)
sell-Funded {R} laws m m' kind n decimals kept spent s (same, f) small h =
    let parts = swap_parts R m sell kind n s m' h in
    let (le, cheaper) =
      sale_spent laws m f.reserve f.curves kind n s.base_amount s.quote_amount parts.amounts
        (λ e. rw same (small e)) in
    let less : (m.total_supply - m.base_reserve) - s.base_amount
        ≡ m.total_supply - (m.base_reserve + s.base_amount) =
      omega arith in
    rw (settle_sale R m s.base_amount s.quote_amount _ parts.settled) (
      same,
      refilled m (m.base_reserve + s.base_amount) kept spent f
          (omega (arith, le, f.reserve.reserve_le))
          (omega (arith, rw less at cheaper, f.covered, add-mul spent s.quote_amount (unit m))),
    )

counted :
    (kind : SwapAmountType) (quoted : ℕ) → kind ≡ exact_output → 1 ≤ quoted + quoted_sales kind
counted kind quoted e = rw e (omega arith)

Trades-Funded_all :
    {R : Ruint} (laws : Laws R) (first : Market)
    → ReserveValid first
    → CurvesValid first.bid_prices first.ask_prices
    → first.base_reserve ≡ first.total_supply
    → {m : Market} {kept spent quoted : ℕ} → (1 ≤ quoted → first.quote_token_decimals ≤ 10)
    → Trades R first m kept spent quoted
    → FundedAs first.quote_token_decimals m kept spent
Trades-Funded_all laws first v c full small untraded =
    let none_out : first.total_supply - first.base_reserve ≡ 0 = omega (arith, full) in
    let nothing : worth first exact_input (first.total_supply - first.base_reserve) ≡ 0 =
      ap (worth first exact_input) none_out ∙ worth_of-zero first.width_scaled first.bid_prices in
    (refl, record { reserve = v; curves = c; covered = rw nothing (omega arith) })
Trades-Funded_all laws first v c full small
      (then_buy {m} {m'} {kept} {spent} {quoted} {s} kind n past h) =
    buy-Funded laws m m' kind n first.quote_token_decimals kept spent s
      (Trades-Funded_all laws first v c full small past) h
Trades-Funded_all laws first v c full small
      (then_sell {m} {m'} {kept} {spent} {quoted} {s} kind n past h) =
    sell-Funded laws m m' kind n first.quote_token_decimals kept spent s
      (Trades-Funded_all laws first v c full (λ le. small (omega (arith, le))) past)
      (λ e. small (counted kind quoted e)) h

-- Where the 256-bit integers obey their laws: from a market whose reserve is in order and holds the
-- whole supply, and whose curves are valid, whatever trades have succeeded, in any order, purchases
-- and sales by base amount and by quote amount alike, sales by quote amount only if the quote token
-- has at most ten decimals: the market is still in order, what the sales have been paid is at most
-- what the purchases have paid less their swap fees, and this also covers, on top of it, the exact
-- worth of the tokens in circulation at the bid prices.
pub Trades-Funded :
    {R : Ruint} (laws : Laws R) (first : Market)
    → ReserveValid first
    → CurvesValid first.bid_prices first.ask_prices
    → first.base_reserve ≡ first.total_supply
    → {m : Market} {kept spent quoted : ℕ} → (1 ≤ quoted → first.quote_token_decimals ≤ 10)
    → Trades R first m kept spent quoted
    → (spent ≤ kept) × Funded m kept spent
Trades-Funded laws first v c full {m} {kept} {spent} small trades =
    let (_, f) = Trades-Funded_all laws first v c full small trades in (Funded-le m f, f)
