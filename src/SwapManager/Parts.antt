-- ===== src/SwapManager/Parts.antt =====
-- programs/token-mill/src/manager/swap_manager.rs: a swap of either kind in its two steps, and what the
-- amounts of each are worth on the curves.
use sol_token_mill.Word
use sol_token_mill.Word.U64
use native.Mathlib.Nat.{mul-le-mul_right}
use sol_token_mill.Base.{
  Bool-cases, ap, arith, inl, inr, leb, refl, sym, ℕ, ◌*◌, ◌+◌, ◌-◌, ◌^◌, ◌∙◌, ◌≡◌, ◌≤◌, ◌⊎◌,
}
use sol_token_mill.Errors.{ok, ok-injective, on_ok}
use sol_token_mill.Market.{Market, circulating_supply}
use sol_token_mill.Market.Bounds.{get_base_amount_in-le}
use sol_token_mill.Market.Capped.{CurvesValid-PricesAtMost}
use sol_token_mill.Market.Exact.Purchase.{get_base_amount_out-Covered}
use sol_token_mill.Market.Exact.Sale.{get_base_amount_in-Covered}
use sol_token_mill.Market.Fair.{get_quote-Rounds, get_quote_whole, unit, worth}
use sol_token_mill.Market.Gap.{worth-gap}
use sol_token_mill.Market.Monotone.{sub_sound}
use sol_token_mill.Market.Prices.{CurvesValid}
use sol_token_mill.Market.Quote.{get_quote_amount, get_quote_amount_with_parameters}
use sol_token_mill.Market.Reserve.{get_quote_amount_with_parameters-le}
use sol_token_mill.Market.Spread.{CurvesValid-CurveBelow, get_quote_mono}
use sol_token_mill.Market.Supply.{ReserveValid, circulating_supply-eq}
use sol_token_mill.Math.{down, up}
use sol_token_mill.Ruint.{Laws, Ruint}
use sol_token_mill.SwapManager.{Swapped, settle, swap, swap_amounts}
use sol_token_mill.SwapManager.RoundTrip.{Purchase}
use sol_token_mill.SwapTypes.{SwapAmountType, SwapType, buy, exact_input, exact_output, sell}

pub record SwapParts (R : Ruint) (m : Market) (swap_type : SwapType) (kind : SwapAmountType) (n : ℕ)
    (s : Swapped) (m' : Market) : Type 0 where
  pub amounts : swap_amounts R m swap_type kind n ≡ ok (s.base_amount, s.quote_amount)
  pub settled : settle R m swap_type s.base_amount s.quote_amount ≡ ok (s.swap_fee, m')

pub swap_parts :
    (R : Ruint) (m : Market) (swap_type : SwapType) (kind : SwapAmountType) (n : ℕ) (s : Swapped)
    (m' : Market)
    → swap R m swap_type kind n ≡ ok (s, m')
    → SwapParts R m swap_type kind n s m'
unfolding swap
swap_parts R m swap_type kind n s m' h =
    on_ok (swap_amounts R m swap_type kind n) h λ (base, quote) e h1.
      on_ok (settle R m swap_type base quote) h1 λ out eo h2.
        let pair = ok-injective h2 in
        let eb : base ≡ s.base_amount = ap (λ (x : Swapped × Market). x.0.base_amount) pair in
        let eq : quote ≡ s.quote_amount = ap (λ (x : Swapped × Market). x.0.quote_amount) pair in
        let ef : out.0 ≡ s.swap_fee = ap (λ (x : Swapped × Market). x.0.swap_fee) pair in
        let em : out.1 ≡ m' = ap (λ (x : Swapped × Market). x.1) pair in
        record { amounts = rw (← eb, ← eq) e; settled = rw (← eb, ← eq, ← ef, ← em) eo }

pub settle_sale :
    (R : Ruint) (m : Market) (base quote : ℕ) (out : ℕ × Market)
    → settle R m sell base quote ≡ ok out
    → out.1 ≡ record m { base_reserve = m.base_reserve + base }
unfolding settle
settle_sale R m base quote out h =
    on_ok (U64.add m.base_reserve base) h λ reserve e h1. ground arith

module _ {R : Ruint} (laws : Laws R) (m : Market) (v : ReserveValid m)
    (c : CurvesValid m.bid_prices m.ask_prices) where
  -- A purchase is paid for at the ask prices, or by no less than the tokens are bought back for.
  purchase_priced :
      (kind : SwapAmountType) (n supply base quote : ℕ) {back : ℕ × ℕ}
      → circulating_supply m ≡ ok supply
      → swap_amounts R m buy kind n ≡ ok (base, quote)
      → get_quote_amount_with_parameters R m supply base exact_input up ≡ ok back
      → (back.1 ≤ quote)
        ⊎ (worth m exact_output (supply + base) * 10 ^ m.quote_token_decimals
            ≤ worth m exact_output supply * 10 ^ m.quote_token_decimals + quote * unit m)
  unfolding swap_amounts get_quote_amount
  purchase_priced exact_input n supply base quote {back} es h hb = inr (
      get_base_amount_out-Covered laws m supply n (base, quote) v
        (CurvesValid-PricesAtMost m.bid_prices m.ask_prices c).1 es h)
  purchase_priced exact_output n supply base quote {back} es h hb =
      let asked = rw es at h in
      inl (
        get_quote_mono laws m supply base n exact_input exact_output up up tt
          (CurvesValid-CurveBelow m c)
          (get_quote_amount_with_parameters-le R m supply n exact_output up _ asked) hb asked)

  -- What a purchase pays, less its swap fee, covers what the tokens are worth at the bid prices.
  pub Purchase-kept :
      (kind : SwapAmountType) (n base quote fee : ℕ) (m' : Market)
      → swap_amounts R m buy kind n ≡ ok (base, quote)
      → (p : Purchase R m base quote fee m')
      → worth m exact_input (p.supply + base) * 10 ^ m.quote_token_decimals
        ≤ worth m exact_input p.supply * 10 ^ m.quote_token_decimals + (quote - fee) * unit m
  Purchase-kept kind n base quote fee m' h p =
      let circulating : p.supply ≡ m.total_supply - m.base_reserve =
        ok-injective (sym p.supply_eq ∙ circulating_supply-eq m v) in
      let within : p.supply + base ≤ m.total_supply =
        omega (arith, circulating, p.covered, v.reserve_le) in
      let dearer =
        get_quote-Rounds laws m p.supply base exact_input up v c.bids_length within p.back_eq in
      let gap =
        mul-le-mul_right (10 ^ m.quote_token_decimals)
          (worth-gap m p.supply (p.supply + base) c (omega arith)) in
      elim (Bool-cases (leb p.back.1 quote)) [
        | inl le ↦ let taken : quote - fee ≡ p.back.1 = ground (arith, p.fee_eq) in rw taken dearer
        | inr more ↦
            let taken : quote - fee ≡ quote = ground (arith, p.fee_eq) in
            elim (purchase_priced kind n p.supply base quote p.supply_eq h p.back_eq) [
              | inl le ↦ absurd (ground (arith, le))
              | inr at_asks ↦ rw taken (omega (arith, at_asks, gap))
            ]
      ]

  -- What a sale is paid is at most what the tokens are worth at the bid prices.
  pub sale_spent :
      (kind : SwapAmountType) (n base quote : ℕ)
      → swap_amounts R m sell kind n ≡ ok (base, quote)
      → (kind ≡ exact_output → m.quote_token_decimals ≤ 10)
      → (base ≤ m.total_supply - m.base_reserve)
        × (worth m exact_input ((m.total_supply - m.base_reserve) - base)
                * 10 ^ m.quote_token_decimals
              + quote * unit m
            ≤ worth m exact_input (m.total_supply - m.base_reserve) * 10 ^ m.quote_token_decimals)
  unfolding swap_amounts get_quote_amount
  sale_spent exact_input n base quote h small =
      on_ok (Word.sub (m.total_supply - m.base_reserve) n) (rw (circulating_supply-eq m v) at h)
        λ rest er bid.
          let (rest_eq, n_le) = sub_sound (m.total_supply - m.base_reserve) n er in
          let within : rest + n ≤ m.total_supply = omega (arith, rest_eq, n_le) in
          let whole : base ≡ n =
            get_quote_whole R m rest n exact_input down v c.bids_length within bid in
          let cheaper =
            get_quote-Rounds laws m rest n exact_input down v c.bids_length within bid in
          let before : rest + n ≡ m.total_supply - m.base_reserve = omega (arith, rest_eq, n_le) in
          let less : rest ≡ (m.total_supply - m.base_reserve) - base =
            omega (arith, rest_eq, whole) in
          (omega (arith, whole, n_le), rw (before, less) at cheaper)
  sale_spent exact_output n base quote h small =
      let bounded = (CurvesValid-PricesAtMost m.bid_prices m.ask_prices c).0 in
      let es = circulating_supply-eq m v in
      let taken =
        get_base_amount_in-le laws m n (m.total_supply - m.base_reserve) (base, quote) bounded
          (omega (arith, v.width, v.supply.at_most)) es h in
      (
        taken.0,
        get_base_amount_in-Covered laws m (m.total_supply - m.base_reserve) n (base, quote) v
            bounded (small refl) es h,
      )
