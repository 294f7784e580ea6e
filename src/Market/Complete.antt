-- ===== src/Market/Complete.antt =====
-- programs/token-mill/src/state/market.rs: every base amount that a market covers is quoted in full.
use sol_token_mill.Math
use sol_token_mill.Word
use sol_token_mill.Word.U128
use native.Mathlib.Nat.{
  add-mul, mod-lt, div-add-mod', le_of_mul-le-mul_right, suc-mul, mul-le-mul_right,
}
use sol_token_mill.Base.{
  Bool-cases, List, [], ap, arith, drop, inl, inr, length, min, refl, suc, sym, zero, ℕ, ◌%◌, ◌*◌,
  ◌+◌, ◌-◌, ◌/◌, ◌<◌, ◌==◌, ◌^◌, ◌∙◌, ◌∷◌, ◌≡◌, ◌≤◌,
}
use sol_token_mill.Constant.{max_total_supply, prices_length, scale}
use sol_token_mill.Errors.{ok}
use sol_token_mill.Market.{Market, index}
use sol_token_mill.Market.Bounds.{PricesAtMost, normalized}
use sol_token_mill.Market.Interval.{
  Part, add_fits, div_fits, interval_quote_complete, quotient-le, rem_fits, sub_fits, try_fits,
}
use sol_token_mill.Market.Quote.{
  curve_of, get_quote_amount_with_parameters, normalize_base, quote_loop,
}
use sol_token_mill.Market.Supply.{ReserveValid}
use sol_token_mill.Math.{Rounding, down, up}
use sol_token_mill.Math.Bounds.{div_exact, quotient}
use sol_token_mill.Math.Steps.{limit}
use sol_token_mill.Ruint.{Laws, Ruint}
use sol_token_mill.SwapTypes.{SwapAmountType}
use sol_token_mill.Word.{power_of_ten}

-- No price of the list lies below the one before it; the first does not lie below `before`.
abbrev pub NotFalling : ℕ → List ℕ → Type 0
NotFalling before [] = Unit {0}
NotFalling before (p ∷ ps) = (before ≤ p) × NotFalling p ps

abbrev pub IsNotFalling : List ℕ → Type 0
IsNotFalling [] = Unit {0}
IsNotFalling (p ∷ ps) = NotFalling p ps

-- The width of the intervals, and the price that bounds the curve.
pub record Walk (width price : ℕ) : Type 0 where
  pub price_le : price ≤ limit
  pub positive : 0 < width
  pub width_le : width ≤ limit

-- Where the intervals that are left hold the amount that is left, the loop uses it up.
quote_loop_complete :
    {R : Ruint} (laws : Laws R) (r : Rounding) {width price : ℕ}
    → Walk width price
    → (price_0 : ℕ) (prices : List ℕ) (used left quote : ℕ) → NotFalling price_0 prices
    → PricesAtMost price prices
    → used ≤ width
    → left + used ≤ length prices * width
    → quote + length prices * (price * 100_000_000) < U128.lim
    → (q : ℕ) × (quote_loop R r width price_0 prices used left quote ≡ ok (0, q))
      × (q ≤ quote + length prices * (price * 100_000_000))
unfolding quote_loop
quote_loop_complete laws r k price_0 [] used left quote rises at_most fits room small =
    (quote, ap (λ (x : ℕ). ok (x, quote)) (omega arith), omega arith)
quote_loop_complete {R} laws r {width} {price} k price_0 (price_1 ∷ prices) used left quote
      (lower, rises) (le, at_most) fits room small =
    elim (Bool-cases (left == 0)) [
      | inl done ↦ (quote, ground arith, omega arith)
      | inr more ↦
          let delta = min left (width - used) in
          let part : Part price width used delta = record {
            price_le = k.price_le;
            positive = k.positive;
            width_le = k.width_le;
            room = omega (arith, fits);
          } in
          let (dq, e, dq_le) =
            interval_quote_complete laws r price_0 price_1 price width used delta
              (omega (arith, lower)) le part in
          let step : suc (length prices) * (price * 100_000_000)
              ≡ length prices * (price * 100_000_000) + price * 100_000_000 =
            suc-mul (length prices) (price * 100_000_000) in
          let step' : suc (length prices) * width ≡ length prices * width + width =
            suc-mul (length prices) width in
          let (q, e', q_le) =
            quote_loop_complete laws r k price_1 prices 0 (left - delta) (quote + dq) rises at_most
              (omega arith) (omega (arith, step', room, fits))
              (omega (arith, step, small, dq_le)) in
          (
            q,
            rw
                (
                  more,
                  sub_fits width used fits,
                  e,
                  sub_fits left delta (omega arith),
                  add_fits quote dq (omega (arith, step, small, dq_le)),
                )
                e',
            omega (arith, step, q_le, dq_le),
          )
    ]

-- A curve that has the eleven prices, which never fall and are at most `price`. In units of the quote
-- token, `price` is at most 10^20: the whole supply then costs less than 2^64.
pub record CurveFits (m : Market) (kind : SwapAmountType) (price : ℕ) : Type 0 where
  pub eleven : length (curve_of m kind) ≡ prices_length
  pub rises : IsNotFalling (curve_of m kind)
  pub at_most : PricesAtMost price (curve_of m kind)
  pub positive : 0 < price
  pub price_le : price ≤ limit
  pub payable : price * 10 ^ m.quote_token_decimals ≤ 10 ^ 20

-- The price at an index, and the prices above it.
split_at :
    (price : ℕ) (prices : List ℕ) (i : ℕ)
    → i < length prices
    → IsNotFalling prices
    → PricesAtMost price prices
    → (price_0 : ℕ) × (index prices i ≡ ok price_0)
      × NotFalling price_0 (drop (suc i) prices)
      × PricesAtMost price (drop (suc i) prices)
      × (length (drop (suc i) prices) + i + 1 ≡ length prices)
split_at price [] i lt rises le = absurd (omega arith)
split_at price (p ∷ ps) zero lt rises le = (p, refl, rises, le.1, ground arith)
split_at price (p ∷ []) (suc i) lt rises le = absurd (omega arith)
split_at price (p ∷ p1 ∷ ps) (suc i) lt rises le =
    let (price_0, e, rest, below, n) = split_at price (p1 ∷ ps) i (omega arith) rises.1 le.1 in
    (price_0, e, rest, below, omega (arith, n))

pub normalize_fits :
    (amount : ℕ) → amount ≤ max_total_supply → normalize_base amount ≡ ok (normalized amount)
normalize_fits amount le = ground arith

-- The ten intervals of a market, at the internal scale.
pub width_tenth : (m : Market) → ReserveValid m → 10 * m.width_scaled ≡ normalized m.total_supply
width_tenth m v = omega (arith, v.width, v.supply.whole)

pub Market-Walk :
    (m : Market) (price : ℕ) → ReserveValid m → price ≤ limit → Walk m.width_scaled price
Market-Walk m price v le = record {
  price_le = le;
  positive = omega (arith, v.width, v.supply.per_interval);
  width_le = omega (arith, width_tenth m v, v.supply.at_most);
}

nothing_left : (r : Rounding) → Math.div 0 scale r ≡ ok 0
unfolding Math.div
nothing_left up = refl
nothing_left down = refl

none_unswapped : (base : ℕ) → Word.sub base 0 ≡ ok base
none_unswapped base = ground arith

-- What is paid fits in a `u64`.
paid_fits :
    (r : Rounding) (price decimals quote : ℕ)
    → 0 < price
    → price * 10 ^ decimals ≤ 10 ^ 20
    → quote ≤ 10 * (price * 100_000_000)
    → (power_of_ten decimals ≡ ok (10 ^ decimals))
      × (U128.mul quote (10 ^ decimals) ≡ ok (quote * 10 ^ decimals))
      × (Math.div (quote * 10 ^ decimals) scale r ≡ ok (quotient r (quote * 10 ^ decimals) scale))
unfolding power_of_ten
paid_fits r price decimals quote h fits le =
    let one : 1 * 10 ^ decimals ≤ price * 10 ^ decimals = mul-le-mul_right (10 ^ decimals) h in
    let whole : quote * 10 ^ decimals ≤ 10 * (price * 100_000_000) * 10 ^ decimals =
      mul-le-mul_right (10 ^ decimals) le in
    let amount : quote * 10 ^ decimals ≤ scale * 10 ^ 19 = omega (arith, whole, fits) in
    (
      ground (arith, one, fits),
      ground (arith, amount),
      div_exact (quote * 10 ^ decimals) scale r (omega arith) (
          omega
            (arith, quotient-le r (quote * 10 ^ decimals) scale (10 ^ 19) (omega arith) amount)),
    )

-- Where the 256-bit integers obey their laws, the reserve of the market is in order, and its curve
-- never falls, has eleven prices and is at most `price`, which is above 0, at most 10^18, and at most 10^20 in
-- units of the quote token: where the amount and the supply that it is quoted at are together at most
-- the total supply, the quote for a base amount succeeds, and for the whole amount.
pub get_quote_complete :
    {R : Ruint} (laws : Laws R) (m : Market) (supply base price : ℕ) (kind : SwapAmountType)
    (r : Rounding)
    → ReserveValid m
    → CurveFits m kind price
    → supply + base ≤ m.total_supply
    → (paid : ℕ) × (get_quote_amount_with_parameters R m supply base kind r ≡ ok (base, paid))
unfolding get_quote_amount_with_parameters
get_quote_complete {R} laws m supply base price kind r v c le =
    let walk = Market-Walk m price v c.price_le in
    let w = m.width_scaled in
    let total = normalized supply in
    let i = total / w in
    let used = total % w in
    let parts : i * w + used ≡ total = div-add-mod' total w in
    let top : 10 * w ≡ normalized m.total_supply = width_tenth m v in
    let i_le : i ≤ 10 =
      le_of_mul-le-mul_right {m = i} {n = 10} (omega (arith, parts, top, le)) walk.positive in
    let (price_0, e0, rises, at_most, n) =
      split_at price (curve_of m kind) i (omega (arith, i_le, c.eleven)) c.rises c.at_most in
    let len = length (drop (suc i) (curve_of m kind)) in
    let len_eq : len + i ≡ 10 = omega (arith, n, c.eleven) in
    let widths : len * w + i * w ≡ 10 * w = sym (add-mul len i w) ∙ ap (λ (x : ℕ). x * w) len_eq in
    let most : len * (price * 100_000_000) ≤ 10 * (price * 100_000_000) =
      mul-le-mul_right (price * 100_000_000) (omega (arith, len_eq)) in
    let (q, eq, q_le) =
      quote_loop_complete laws r walk price_0 (drop (suc i) (curve_of m kind)) used
        (normalized base) 0 rises at_most (omega (arith, mod-lt total walk.positive))
        (omega (arith, parts, top, widths, le)) (omega (arith, most, c.price_le)) in
    let next : i + 1 ≡ suc i = omega arith in
    let (ep, em, ed) =
      paid_fits r price m.quote_token_decimals q c.positive c.payable (omega (arith, q_le, most)) in
    (
      quotient r (q * 10 ^ m.quote_token_decimals) scale,
      rw
          (
            normalize_fits supply (omega (arith, le, v.supply.at_most)),
            normalize_fits base (omega (arith, le, v.supply.at_most)),
            div_fits total w walk.positive,
            try_fits i (omega (arith, i_le)),
            rem_fits total w walk.positive,
            e0,
            next,
            eq,
            nothing_left r,
            none_unswapped base,
            ep,
            em,
            ed,
          )
          refl,
    )
