-- ===== src/SwapManager/RoundTrip.antt =====
-- programs/token-mill/src/manager/swap_manager.rs: a purchase and the sale of what was bought.
use sol_token_mill.Word
use sol_token_mill.Word.U64
use sol_token_mill.Base.{ap, arith, refl, sym, ℕ, ◌+◌, ◌-◌, ◌∙◌, ◌≡◌, ◌≤◌}
use sol_token_mill.Errors.{ok, ok-injective, on_ok}
use sol_token_mill.Market.{Market, circulating_supply}
use sol_token_mill.Market.Prices.{CurvesValid}
use sol_token_mill.Market.Quote.{get_quote_amount, get_quote_amount_with_parameters}
use sol_token_mill.Market.Reserve.{get_quote_amount_with_parameters-le}
use sol_token_mill.Market.Spread.{CurveBelow-refl, CurvesValid-CurveBelow, get_quote_mono}
use sol_token_mill.Math.{Rounding, down, up}
use sol_token_mill.Ruint.{Laws, Ruint}
use sol_token_mill.SwapManager.{Swapped, settle, swap, swap_amounts}
use sol_token_mill.SwapTypes.{buy, exact_input, exact_output, sell}

-- What `settle` works out for a purchase: the fee is what the user pays beyond the amount that the
-- tokens would be bought back for.
pub record Purchase (R : Ruint) (m : Market) (base quote fee : ℕ) (m1 : Market) : Type 0 where
  pub supply : ℕ
  pub supply_eq : circulating_supply m ≡ ok supply
  pub back : ℕ × ℕ
  pub back_eq : get_quote_amount_with_parameters R m supply base exact_input up ≡ ok back
  pub fee_eq : fee ≡ quote - back.1
  pub covered : base ≤ m.base_reserve
  pub after : m1 ≡ record m { base_reserve = m.base_reserve - base }

pub settle-Purchase :
    (R : Ruint) (m : Market) (base quote : ℕ) (out : ℕ × Market)
    → settle R m buy base quote ≡ ok out
    → Purchase R m base quote out.0 out.1
unfolding settle
settle-Purchase R m base quote out h = on_ok (circulating_supply m) h λ supply es h1.
    on_ok (get_quote_amount_with_parameters R m supply base exact_input up) h1 λ back eb h2.
      on_ok (Word.sub m.base_reserve base) h2 λ reserve er h3. record {
        supply = supply;
        supply_eq = es;
        back = back;
        back_eq = eb;
        fee_eq = ground arith;
        covered = ground arith;
        after = ground arith;
      }

-- The tokens that were just bought are the last ones of the circulating supply: without them it is
-- what it was.
supply_restored :
    (m : Market) (base supply : ℕ) {supply1 rest : ℕ}
    → circulating_supply m ≡ ok supply
    → base ≤ m.base_reserve
    → circulating_supply (record m { base_reserve = m.base_reserve - base }) ≡ ok supply1
    → Word.sub supply1 base ≡ ok rest
    → rest ≡ supply
unfolding circulating_supply
supply_restored m base supply h le h1 h2 = ground arith

-- The parts of a purchase of an exact amount.
pub record Bought (R : Ruint) (m : Market) (n : ℕ) (s : Swapped) (m1 : Market) : Type 0 where
  pub supply : ℕ
  pub supply_eq : circulating_supply m ≡ ok supply
  pub asked :
      get_quote_amount_with_parameters R m supply n exact_output up
      ≡ ok (s.base_amount, s.quote_amount)
  pub settled : settle R m buy s.base_amount s.quote_amount ≡ ok (s.swap_fee, m1)

pub swap-Bought :
    (R : Ruint) (m : Market) (n : ℕ) (s : Swapped) (m1 : Market)
    → swap R m buy exact_output n ≡ ok (s, m1)
    → Bought R m n s m1
unfolding swap swap_amounts get_quote_amount
swap-Bought R m n s m1 h = on_ok (get_quote_amount R m n exact_output) h λ (base, quote) e h1.
    on_ok (circulating_supply m) e λ supply es e1. on_ok (settle R m buy base quote) h1 λ out eo h2.
      let pair = ok-injective h2 in
      let eb : base ≡ s.base_amount = ap (λ (x : Swapped × Market). x.0.base_amount) pair in
      let eq : quote ≡ s.quote_amount = ap (λ (x : Swapped × Market). x.0.quote_amount) pair in
      let ef : out.0 ≡ s.swap_fee = ap (λ (x : Swapped × Market). x.0.swap_fee) pair in
      let em : out.1 ≡ m1 = ap (λ (x : Swapped × Market). x.1) pair in
      record {
        supply = supply;
        supply_eq = es;
        asked = rw (← eb, ← eq) e1;
        settled = rw (← eb, ← eq, ← ef, ← em) eo;
      }

-- The parts of a sale of an exact amount.
pub record Sold (R : Ruint) (m : Market) (n : ℕ) (s : Swapped) (m1 : Market) : Type 0 where
  pub supply : ℕ
  pub supply_eq : circulating_supply m ≡ ok supply
  pub rest : ℕ
  pub rest_eq : Word.sub supply n ≡ ok rest
  pub bid :
      get_quote_amount_with_parameters R m rest n exact_input down
      ≡ ok (s.base_amount, s.quote_amount)
  pub after : m1 ≡ record m { base_reserve = m.base_reserve + s.base_amount }

pub swap-Sold :
    (R : Ruint) (m : Market) (n : ℕ) (s : Swapped) (m1 : Market)
    → swap R m sell exact_input n ≡ ok (s, m1)
    → Sold R m n s m1
unfolding swap swap_amounts get_quote_amount settle
swap-Sold R m n s m1 h = on_ok (get_quote_amount R m n exact_input) h λ (base, quote) e h1.
    on_ok (circulating_supply m) e λ supply es e1. on_ok (Word.sub supply n) e1 λ rest er e2.
      on_ok (settle R m sell base quote) h1 λ out eo h2.
        on_ok (U64.add m.base_reserve base) eo λ reserve ea h3.
          let pair = ok-injective h2 in
          let eb : base ≡ s.base_amount = ap (λ (x : Swapped × Market). x.0.base_amount) pair in
          let eq : quote ≡ s.quote_amount = ap (λ (x : Swapped × Market). x.0.quote_amount) pair in
          let em : out.1 ≡ m1 = ap (λ (x : Swapped × Market). x.1) pair in
          let kept : out.1 ≡ record m { base_reserve = reserve } = ground arith in
          record {
            supply = supply;
            supply_eq = es;
            rest = rest;
            rest_eq = er;
            bid = rw (← eb, ← eq) e2;
            after =
                rw (← em, kept, ← eb)
                  (ap (λ (x : ℕ). record m { base_reserve = x }) (ground arith));
          }

-- The quotes do not depend on the reserve.
same_quotes :
    (R : Ruint) (m : Market) (reserve supply base : ℕ) (r : Rounding)
    → get_quote_amount_with_parameters R
        (record m { base_reserve = reserve })
        supply
        base
        exact_input
        r
      ≡ get_quote_amount_with_parameters R m supply base exact_input r
unfolding get_quote_amount_with_parameters
same_quotes R m reserve supply base r = refl

-- Where the 256-bit integers obey their laws and the curves of the market are valid: after a purchase
-- by base amount that succeeds, a sale of all that was bought, by base amount, that succeeds pays back
-- at most what the purchase cost less its swap fee, and leaves at most the reserve that there was.
pub buy_then_sell-le :
    {R : Ruint} (laws : Laws R) (m m1 m2 : Market) (n : ℕ) (bought sold : Swapped)
    → CurvesValid m.bid_prices m.ask_prices
    → swap R m buy exact_output n ≡ ok (bought, m1)
    → swap R m1 sell exact_input bought.base_amount ≡ ok (sold, m2)
    → (sold.quote_amount + bought.swap_fee ≤ bought.quote_amount)
      × (m2.base_reserve ≤ m.base_reserve)
buy_then_sell-le {R} laws m m1 m2 n bought sold v h h' =
    let b = swap-Bought R m n bought m1 h in
    let p = settle-Purchase R m bought.base_amount bought.quote_amount _ b.settled in
    let s = swap-Sold R m1 bought.base_amount sold m2 h' in
    let n_le = get_quote_amount_with_parameters-le R m b.supply n exact_output up _ b.asked in
    let supply : b.supply ≡ p.supply = ok-injective (sym b.supply_eq ∙ p.supply_eq) in
    let rest : s.rest ≡ p.supply =
      supply_restored m bought.base_amount p.supply p.supply_eq p.covered
        (rw (← p.after) s.supply_eq) s.rest_eq in
    let bid = rw (p.after, same_quotes R m, rest) at s.bid in
    let sold_le : sold.quote_amount ≤ p.back.1 =
      get_quote_mono laws m p.supply bought.base_amount bought.base_amount exact_input exact_input
        down up tt (CurveBelow-refl m exact_input) (omega arith) bid p.back_eq in
    let back_le : p.back.1 ≤ bought.quote_amount =
      get_quote_mono laws m p.supply bought.base_amount n exact_input exact_output up up tt
        (CurvesValid-CurveBelow m v) n_le p.back_eq (rw supply at b.asked) in
    let sold_base = get_quote_amount_with_parameters-le R m1 s.rest _ exact_input down _ s.bid in
    let reserve : m1.base_reserve ≡ m.base_reserve - bought.base_amount =
      ap (λ (x : Market). x.base_reserve) p.after in
    let refilled : m2.base_reserve ≡ m1.base_reserve + sold.base_amount =
      ap (λ (x : Market). x.base_reserve) s.after in
    (
      omega (arith, sold_le, back_le, p.fee_eq),
      omega (arith, refilled, reserve, p.covered, sold_base),
    )
