-- ===== src/SwapManager/Unpriced.antt =====
-- programs/token-mill/src/instructions/swap.rs and manager/swap_manager.rs: a swap does not ask whether
-- the prices of the market are set.
use sol_token_mill.Word.U128
use sol_token_mill.Word
use sol_token_mill.Base.{
  Bool-cases, List, [], ap, arith, drop, inl, inr, length, min, ℕ, ◌*◌, ◌+◌, ◌==◌, ◌^◌, ◌∙◌, ◌∷◌,
  ◌≡◌, ◌≤◌,
}
use sol_token_mill.Constant.{prices_length, scale}
use sol_token_mill.Errors.{ok, on_ok}
use sol_token_mill.Market.{Market}
use sol_token_mill.Market.Bounds.{PricesAtMost, PricesAtMost-drop, index-le}
use sol_token_mill.Market.Complete.{CurveFits, IsNotFalling, NotFalling}
use sol_token_mill.Market.Interval.{quotient-le}
use sol_token_mill.Market.Monotone.{add_sound, area, interval_quote-IntervalQuoted, mul_sound}
use sol_token_mill.Market.Quote.{
  curve_of, get_quote_amount_with_parameters, interval_quote, quote_loop,
}
use sol_token_mill.Market.Quoted.{quoted}
use sol_token_mill.Market.Supply.{ReserveValid}
use sol_token_mill.Math.{Rounding, up}
use sol_token_mill.Math.Bounds.{div_sound}
use sol_token_mill.Ruint.{Laws, Ruint}
use sol_token_mill.SwapManager.{Swapped, swap}
use sol_token_mill.SwapManager.Complete.{swap_complete}
use sol_token_mill.SwapManager.RoundTrip.{swap-Bought}
use sol_token_mill.SwapTypes.{SwapAmountType, buy, exact_input, exact_output}

free_interval :
    {R : Ruint} (laws : Laws R) (width used delta : ℕ) (r : Rounding) {q : ℕ}
    → interval_quote R 0 0 width used delta r ≡ ok q
    → q ≡ 0
free_interval laws width used delta r {q} h =
    let i = interval_quote-IntervalQuoted laws 0 0 width used delta r h in
    let due : q ≤ 0 =
      rw (i.exact) (
        quotient-le r (area 0 0 width used delta) (2 * scale * width) 0 i.positive (omega arith)) in
    omega arith

free_loop :
    {R : Ruint} (laws : Laws R) (r : Rounding) (width : ℕ) (prices : List ℕ) (used left quote : ℕ)
    {out : ℕ × ℕ}
    → PricesAtMost 0 prices
    → quote_loop R r width 0 prices used left quote ≡ ok out
    → out.1 ≡ quote
unfolding quote_loop
free_loop laws r width [] used left quote free h = ground arith
free_loop {R} laws r width (p ∷ ps) used left quote free h = elim (Bool-cases (left == 0)) [
  | inl done ↦ ground arith
  | inr more ↦ on_ok (Word.sub width used) (rw more at h) λ room _ h1.
      on_ok (interval_quote R 0 p width used (min left room) r) h1 λ dq ed h2.
        on_ok (Word.sub left (min left room)) h2 λ left' _ h3.
          on_ok (U128.add quote dq) h3 λ quote' eq h4.
            let zero_price : p ≡ 0 = omega (arith, free.0) in
            let e = free_interval laws width used (min left room) r (rw zero_price at ed) in
            omega (
              arith,
              free_loop laws r width ps 0 left' quote' free.1 (rw zero_price at h4),
              e,
              (add_sound quote dq eq).0,
            )
]

free_quote :
    {R : Ruint} (laws : Laws R) (m : Market) (supply base : ℕ) (kind : SwapAmountType)
    (r : Rounding) {out : ℕ × ℕ}
    → PricesAtMost 0 (curve_of m kind)
    → get_quote_amount_with_parameters R m supply base kind r ≡ ok out
    → out.1 ≡ 0
free_quote {R} laws m supply base kind r free h =
    let q = quoted R m supply base kind r _ h in
    let first : q.price_0 ≡ 0 = omega (arith, index-le 0 (curve_of m kind) q.i free q.price) in
    let none_due : q.quote ≡ 0 =
      free_loop laws r m.width_scaled (drop (q.i + 1) (curve_of m kind)) q.used q.left0 0
        (PricesAtMost-drop 0 (q.i + 1) (curve_of m kind) free) (rw first at q.loop) in
    let (_, e) = div_sound q.paid_scaled scale r q.paid_eq in
    let scaled : q.paid_scaled ≡ 0 * q.precision =
      mul_sound q.quote q.precision q.paid_scaled_eq ∙ ap (λ (x : ℕ). x * q.precision) none_due in
    let paid_le : q.paid ≤ 0 =
      rw e (quotient-le r q.paid_scaled scale 0 (omega arith) (omega (arith, scaled))) in
    rw (q.result) (omega (arith, paid_le))

flat :
    (before : ℕ) (prices : List ℕ) → before ≤ 0 → PricesAtMost 0 prices → NotFalling before prices
flat before [] le free = tt
flat before (p ∷ ps) le free = (omega (arith, le), flat p ps free.0 free.1)

flat_curve : (prices : List ℕ) → PricesAtMost 0 prices → IsNotFalling prices
flat_curve [] free = tt
flat_curve (p ∷ ps) free = flat p ps free.0 free.1

at_most_one : (prices : List ℕ) → PricesAtMost 0 prices → PricesAtMost 1 prices
at_most_one [] free = tt
at_most_one (p ∷ ps) free = (omega (arith, free.0), at_most_one ps free.1)

free_curve :
    (m : Market) (kind : SwapAmountType)
    → length (curve_of m kind) ≡ prices_length
    → PricesAtMost 0 (curve_of m kind)
    → 10 ^ m.quote_token_decimals ≤ 10 ^ 20
    → CurveFits m kind 1
free_curve m kind n free small = record {
  eleven = n;
  rises = flat_curve (curve_of m kind) free;
  at_most = at_most_one (curve_of m kind) free;
  positive = omega arith;
  price_le = omega arith;
  payable = omega (arith, small);
}

-- Where the 256-bit integers obey their laws, in a market whose reserve is in order and whose prices,
-- eleven on each curve, are all 0 still, with a precision of the quote token of at most 10^20: every purchase of
-- a base amount within the reserve succeeds, for exactly that amount, and costs nothing.
pub unpriced_purchase :
    {R : Ruint} (laws : Laws R) (m : Market) (n : ℕ)
    → ReserveValid m
    → length m.bid_prices ≡ prices_length
    → length m.ask_prices ≡ prices_length
    → PricesAtMost 0 m.bid_prices
    → PricesAtMost 0 m.ask_prices
    → 10 ^ m.quote_token_decimals ≤ 10 ^ 20
    → n ≤ m.base_reserve
    → (s : Swapped) × (m' : Market) × (swap R m buy exact_output n ≡ ok (s, m'))
      × (s.base_amount ≡ n)
      × (s.quote_amount ≡ 0)
unpriced_purchase {R} laws m n v nb na bids asks small le =
    let (s, m', h, e) =
      swap_complete laws m buy n 1 v (free_curve m exact_input nb bids small)
        (free_curve m exact_output na asks small) le in
    let b = swap-Bought R m n s m' h in
    (s, m', h, e, free_quote laws m b.supply n exact_output up asks b.asked)
