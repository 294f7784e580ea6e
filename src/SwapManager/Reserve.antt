-- ===== src/SwapManager/Reserve.antt =====
-- programs/token-mill/src/manager/swap_manager.rs: what a swap does to the market.
use sol_token_mill.Word
use sol_token_mill.Word.U64
use sol_token_mill.Base.{ap, arith, length, subst, ℕ, ◌+◌, ◌-◌, ◌≡◌, ◌≤◌}
use sol_token_mill.Constant.{prices_length}
use sol_token_mill.Errors.{ok, ok-injective, on_ok}
use sol_token_mill.Market.{Market, circulating_supply}
use sol_token_mill.Market.Bounds.{PricesAtMost, get_base_amount_in-le}
use sol_token_mill.Market.Quote.{get_quote_amount, get_quote_amount_with_parameters}
use sol_token_mill.Market.Reserve.{get_base_amount_out-le, get_quote_amount_with_parameters-le}
use sol_token_mill.Market.Supply.{ReserveValid, circulating_supply-eq}
use sol_token_mill.Math.{down, up}
use sol_token_mill.Math.Steps.{limit}
use sol_token_mill.Ruint.{Laws, Ruint}
use sol_token_mill.SwapManager.{Swapped, settle, swap, swap_amounts}
use sol_token_mill.SwapTypes.{SwapAmountType, SwapType, buy, exact_input, exact_output, sell}

-- A market that can be traded: its reserve is in order, and its curves have `PRICES_LENGTH` prices
-- within the bound.
pub record Tradable (m : Market) : Type 0 where
  pub reserve : ReserveValid m
  pub bids_length : length m.bid_prices ≡ prices_length
  pub asks_length : length m.ask_prices ≡ prices_length
  pub bids_bounded : PricesAtMost limit m.bid_prices
  pub asks_bounded : PricesAtMost limit m.ask_prices

-- The reserve gives out what is bought and takes in what is sold.
abbrev pub Moved : SwapType → ℕ → Market → Market → Type 0
Moved buy base m m' = m'.base_reserve + base ≡ m.base_reserve
Moved sell base m m' = m'.base_reserve ≡ m.base_reserve + base

-- A swap keeps to the amount that the user named: the one that comes in under `ExactInput`, the one
-- that goes out under `ExactOutput`.
abbrev pub named_amount : SwapType → SwapAmountType → (base quote : ℕ) → ℕ
named_amount buy exact_input base quote = quote
named_amount buy exact_output base quote = base
named_amount sell exact_input base quote = base
named_amount sell exact_output base quote = quote

-- What a successful swap of `amount` has done.
pub record SwapDone (swap_type : SwapType) (kind : SwapAmountType) (amount : ℕ) (m : Market)
    (s : Swapped) (m' : Market) : Type 0 where
  pub tradable : Tradable m'
  pub moved : Moved swap_type s.base_amount m m'
  pub only_reserve : m' ≡ record m { base_reserve = m'.base_reserve }
  pub within : named_amount swap_type kind s.base_amount s.quote_amount ≤ amount

-- How `settle` leaves the reserve.
abbrev Settled : SwapType → ℕ → Market → Market → Type 0
Settled buy base m m' =
    (base ≤ m.base_reserve) × (m' ≡ record m { base_reserve = m.base_reserve - base })
Settled sell base m m' = m' ≡ record m { base_reserve = m.base_reserve + base }

settle-Settled :
    (R : Ruint) (m : Market) (swap_type : SwapType) (base quote : ℕ) (out : ℕ × Market)
    → settle R m swap_type base quote ≡ ok out
    → Settled swap_type base m out.1
unfolding settle
settle-Settled R m buy base quote out h = on_ok (circulating_supply m) h λ supply _ h1.
    on_ok (get_quote_amount_with_parameters R m supply base exact_input up) h1 λ back _ h2.
      on_ok (Word.sub m.base_reserve base) h2 λ reserve e h3. (ground arith, ground arith)
settle-Settled R m sell base quote out h =
    on_ok (U64.add m.base_reserve base) h λ reserve e h1. ground arith

-- The market with another reserve is in order if the reserve is at most the supply.
refill-Tradable :
    (m : Market) (reserve : ℕ)
    → Tradable m
    → reserve ≤ m.total_supply
    → Tradable (record m { base_reserve = reserve })
refill-Tradable m reserve t le = record {
  reserve = record { supply = t.reserve.supply; reserve_le = le; width = t.reserve.width };
  bids_length = t.bids_length;
  asks_length = t.asks_length;
  bids_bounded = t.bids_bounded;
  asks_bounded = t.asks_bounded;
}

-- A sale is covered by the circulating supply.
abbrev Covered : SwapType → ℕ → Market → Type 0
Covered buy base m = Unit {0}
Covered sell base m = base ≤ m.total_supply - m.base_reserve

conclude :
    (m m' : Market) (swap_type : SwapType) (kind : SwapAmountType) (amount base quote : ℕ)
    (s : Swapped)
    → Tradable m
    → named_amount swap_type kind base quote ≤ amount
    → Settled swap_type base m m'
    → base ≡ s.base_amount
    → quote ≡ s.quote_amount
    → Covered swap_type base m
    → SwapDone swap_type kind amount m s m'
conclude m m' buy kind amount base quote s t within (le, e) eb eq c = record {
  tradable =
      rw e (refill-Tradable m (m.base_reserve - base) t (omega (arith, t.reserve.reserve_le)));
  moved = rw (e, ← eb) (omega arith);
  only_reserve = rw e;
  within = rw (← eb, ← eq) within;
}
conclude m m' sell kind amount base quote s t within e eb eq c = record {
  tradable =
      rw e (refill-Tradable m (m.base_reserve + base) t (omega (arith, t.reserve.reserve_le)));
  moved = rw (e, ← eb);
  only_reserve = rw e;
  within = rw (← eb, ← eq) within;
}

module _ {R : Ruint} (laws : Laws R) where
  -- The amounts of a sale are covered by the circulating supply, and both kinds of swap keep to the
  -- amount that was named.
  sale_covered :
      (m : Market) (kind : SwapAmountType) (amount supply : ℕ) (r : ℕ × ℕ)
      → Tradable m
      → circulating_supply m ≡ ok supply
      → swap_amounts R m sell kind amount ≡ ok r
      → r.0 ≤ supply
  unfolding swap_amounts get_quote_amount
  sale_covered m exact_input amount supply r t es h =
      on_ok (Word.sub supply amount) (rw es at h) λ rest er h1.
        let le = get_quote_amount_with_parameters-le R m rest amount exact_input down r h1 in
        ground arith
  sale_covered m exact_output amount supply r t es h =
      (get_base_amount_in-le laws m amount supply r t.bids_bounded
        (omega (arith, t.reserve.width, t.reserve.supply.at_most)) es h).0

  amounts_within :
      (m : Market) (swap_type : SwapType) (kind : SwapAmountType) (amount : ℕ) (r : ℕ × ℕ)
      → Tradable m
      → swap_amounts R m swap_type kind amount ≡ ok r
      → named_amount swap_type kind r.0 r.1 ≤ amount
  unfolding swap_amounts get_quote_amount
  amounts_within m buy exact_input amount r t h =
      (get_base_amount_out-le laws m amount r t.reserve t.asks_length t.asks_bounded h).1
  amounts_within m buy exact_output amount r t h =
      on_ok (circulating_supply m) h
        λ supply _ h1. get_quote_amount_with_parameters-le R m supply amount exact_output up r h1
  amounts_within m sell exact_input amount r t h = on_ok (circulating_supply m) h λ supply _ h0.
      on_ok (Word.sub supply amount) h0
        λ rest _ h1. get_quote_amount_with_parameters-le R m rest amount exact_input down r h1
  amounts_within m sell exact_output amount r t h =
      (get_base_amount_in-le laws m amount (m.total_supply - m.base_reserve) r t.bids_bounded
        (omega (arith, t.reserve.width, t.reserve.supply.at_most))
        (circulating_supply-eq m t.reserve) h).1

  covered :
      (m : Market) (swap_type : SwapType) (kind : SwapAmountType) (amount : ℕ) (r : ℕ × ℕ)
      → Tradable m
      → swap_amounts R m swap_type kind amount ≡ ok r
      → Covered swap_type r.0 m
  covered m buy kind amount r t h = tt
  covered m sell kind amount r t h =
      sale_covered m kind amount (m.total_supply - m.base_reserve) r t
        (circulating_supply-eq m t.reserve) h

  -- What a successful swap of a tradable market does, of each kind, where the 256-bit integers obey
  -- their laws: the market stays tradable, its reserve moves by exactly the base amount and nothing
  -- else of it changes, and the amount that the user named is not exceeded.
  pub swap-SwapDone :
      (m m' : Market) (swap_type : SwapType) (kind : SwapAmountType) (amount : ℕ) (s : Swapped)
      → Tradable m
      → swap R m swap_type kind amount ≡ ok (s, m')
      → SwapDone swap_type kind amount m s m'
  unfolding swap
  swap-SwapDone m m' swap_type kind amount s t h =
      on_ok (swap_amounts R m swap_type kind amount) h λ r er h1.
        on_ok (settle R m swap_type r.0 r.1) h1 λ out eo h2.
          let settled = settle-Settled R m swap_type r.0 r.1 out eo in
          let within = amounts_within m swap_type kind amount r t er in
          let same = ok-injective h2 in
          conclude m m' swap_type kind amount r.0 r.1 s t within
            (subst (λ (p : Swapped × Market). Settled swap_type r.0 m p.1) same settled)
            (ap (λ (p : Swapped × Market). p.0.base_amount) same)
            (ap (λ (p : Swapped × Market). p.0.quote_amount) same)
            (covered m swap_type kind amount r t er)
