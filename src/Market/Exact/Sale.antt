-- ===== src/Market/Exact/Sale.antt =====
-- programs/token-mill/src/state/market.rs: what `get_base_amount_in` pays is covered by the tokens it
-- takes.
use sol_token_mill.Word
use sol_token_mill.Word.U64
use sol_token_mill.Word.U128
use sol_token_mill.Math
use native.Mathlib.Nat.{add-mul, mul-le-mul_right}
use sol_token_mill.Base.{
  Bool-cases, ap, arith, inl, inr, subst, ℕ, ◌*◌, ◌+◌, ◌-◌, ◌==◌, ◌^◌, ◌∙◌, ◌≡◌, ◌≤◌,
}
use sol_token_mill.Constant.{base_precision, scale}
use sol_token_mill.Errors.{ok, ok-injective, on_ok}
use sol_token_mill.Market.{Market, circulating_supply, index}
use sol_token_mill.Market.Bounds.{PricesAtMost, normalize_base_sound, normalized, try_from_sound}
use sol_token_mill.Market.Exact.{
  base_in_loop, get_base_amount_in, normalize_quote, start_below, swapped_amounts,
}
use sol_token_mill.Market.Exact.SaleLoop.{base_in_loop-SoldFrom, position, position-whole}
use sol_token_mill.Market.Exact.Units.{normalized_exact, quote_sound}
use sol_token_mill.Market.Fair.{position_sound, unit, worth, worth_of_mono}
use sol_token_mill.Market.Monotone.{mul_sound, sub_sound}
use sol_token_mill.Market.Quote.{normalize_base}
use sol_token_mill.Market.Supply.{ReserveValid}
use sol_token_mill.Market.Worth.{Rounds-quotient}
use sol_token_mill.Math.{up}
use sol_token_mill.Math.Bounds.{div_sound}
use sol_token_mill.Math.Steps.{limit}
use sol_token_mill.Ruint.{Laws, Ruint}
use sol_token_mill.SwapTypes.{exact_input}

-- The parts of a call of `get_base_amount_in` that has succeeded.
record SaleParts (R : Ruint) (m : Market) (supply quote_amount : ℕ) (r : ℕ × ℕ) : Type 0 where
  pub total : ℕ
  pub total_eq : normalize_base supply ≡ ok total
  pub precision : ℕ
  pub left0 : ℕ
  pub quote_eq : normalize_quote m quote_amount ≡ ok (left0, precision)
  pub n : ℕ
  pub interval : Word.div total m.width_scaled ≡ ok n
  pub rest : ℕ
  pub rest_eq : Word.rem total m.width_scaled ≡ ok rest
  pub price_1 : ℕ
  pub price : index m.bid_prices (start_below m.width_scaled n rest).0 ≡ ok price_1
  pub base : ℕ
  pub left : ℕ
  pub loop :
      base_in_loop R m.bid_prices m.width_scaled
        (start_below m.width_scaled n rest).0
        price_1
        (start_below m.width_scaled n rest).1
        left0
        0
      ≡ ok (base, left)
  pub amounts : swapped_amounts quote_amount precision base left up ≡ ok r

sale_parts :
    (R : Ruint) (m : Market) (supply quote_amount : ℕ) (r : ℕ × ℕ)
    → circulating_supply m ≡ ok supply
    → get_base_amount_in R m quote_amount ≡ ok r
    → SaleParts R m supply quote_amount r
unfolding get_base_amount_in
sale_parts R m supply quote_amount r es h =
    on_ok (normalize_base supply) (rw es at h) λ total et h1.
      on_ok (normalize_quote m quote_amount) h1 λ quote eq h2.
        on_ok (Word.div total m.width_scaled) h2 λ d ed h3.
          on_ok (Word.try_from U64.lim d) h3 λ n en h4.
            on_ok (Word.rem total m.width_scaled) h4 λ rest er h5.
              let start = start_below m.width_scaled n rest in
              on_ok (index m.bid_prices start.0) h5 λ price_1 ep h6.
                on_ok (base_in_loop R m.bid_prices m.width_scaled start.0 price_1 start.1 quote.0 0)
                  h6
                  λ out eo h7. record {
                    total = total;
                    total_eq = et;
                    precision = quote.1;
                    left0 = quote.0;
                    quote_eq = eq;
                    n = n;
                    interval = rw (try_from_sound d en) ed;
                    rest = rest;
                    rest_eq = er;
                    price_1 = price_1;
                    price = ep;
                    base = out.0;
                    left = out.1;
                    loop = eo;
                    amounts = h7;
                  }

-- A sale begins at the supply.
start_position :
    (width n rest total : ℕ)
    → n * width + rest ≡ total
    → rest ≤ width
    → (position width (start_below width n rest).0 (start_below width n rest).1 ≡ total)
      × ((start_below width n rest).1 ≤ width)
start_position width n rest total e le = elim (Bool-cases (rest == 0)) [
  | inl border ↦
      let none_used : rest ≡ 0 = ground arith in
      rw border (omega (arith, position-whole width n, none_used), omega arith)
  | inr inside ↦ rw inside (omega (arith, e), le)
]

-- What is returned, at the internal scale.
swapped_up :
    (quote_amount precision base left : ℕ) (r : ℕ × ℕ)
    → swapped_amounts quote_amount precision base left up ≡ ok r
    → (base ≤ normalized r.0) × (r.1 * scale + left * precision ≤ quote_amount * scale)
swapped_up quote_amount precision base left r h = on_ok (U128.mul base base_precision) h λ a ea h1.
    on_ok (Math.div a scale up) h1 λ b eb h2. on_ok (U128.mul left precision) h2 λ c ec h3.
      on_ok (Math.div c scale up) h3 λ d ed h4. on_ok (Word.sub quote_amount d) h4 λ e ee h5.
        let (_, b_eq) = div_sound a scale up eb in
        let (_, d_eq) = div_sound c scale up ed in
        let (e_eq, d_le) = sub_sound quote_amount d ee in
        let out : (b, e) ≡ r = ok-injective h5 in
        let a_eq = mul_sound base base_precision ea in
        let c_eq = mul_sound left precision ec in
        subst
          (λ (p : ℕ × ℕ).
            (base ≤ normalized p.0) × (p.1 * scale + left * precision ≤ quote_amount * scale))
          out
          (
            omega (arith, a_eq, b_eq, Rounds-quotient up a scale (omega arith)),
            omega (arith, c_eq, d_eq, e_eq, d_le, Rounds-quotient up c scale (omega arith)),
          )

-- Where the 256-bit integers obey their laws, in a market whose reserve is in order, whose bid prices
-- are at most 10^18 and whose quote token has at most ten decimals: whenever `get_base_amount_in`
-- succeeds, the quote amount that it pays is at most the worth, at the bid prices, of the tokens that
-- it takes from the circulating supply.
pub get_base_amount_in-Covered :
    {R : Ruint} (laws : Laws R) (m : Market) (supply quote_amount : ℕ) (r : ℕ × ℕ)
    → ReserveValid m
    → PricesAtMost limit m.bid_prices
    → m.quote_token_decimals ≤ 10
    → circulating_supply m ≡ ok supply
    → get_base_amount_in R m quote_amount ≡ ok r
    → worth m exact_input (supply - r.0) * 10 ^ m.quote_token_decimals + r.1 * unit m
      ≤ worth m exact_input supply * 10 ^ m.quote_token_decimals
get_base_amount_in-Covered {R} laws m supply quote_amount r v bounded small es h =
    let p = sale_parts R m supply quote_amount r es h in
    let w = m.width_scaled in
    let precision = 10 ^ m.quote_token_decimals in
    let total = normalize_base_sound supply p.total_eq in
    let (parts, rest_le) = position_sound p.total w p.interval p.rest_eq in
    let (at, start_le) = start_position w p.n p.rest p.total parts rest_le in
    let (precision_eq, positive, left_eq) = quote_sound m quote_amount p.quote_eq in
    let sold =
      base_in_loop-SoldFrom laws m.bid_prices w _ p.price_1 _ p.left0 0 bounded
        (omega (arith, v.width, v.supply.at_most)) start_le p.price p.loop in
    let s = rw (at, total) at sold in
    let (base_le, paid) = swapped_up quote_amount p.precision p.base p.left r p.amounts in
    let lower =
      worth_of_mono w m.bid_prices (normalized (supply - r.0)) (normalized supply - (p.base - 0))
        (omega (arith, base_le)) in
    let exact =
      normalized_exact quote_amount m.quote_token_decimals p.left0 small
        (rw precision_eq at positive) (rw precision_eq at left_eq) in
    let split =
      ap (λ (x : ℕ). x * precision) {x = p.left0} {y = (p.left0 - p.left) + p.left}
        (omega (arith, s.left_le))
      ∙ add-mul (p.left0 - p.left) p.left precision in
    let paid_le : r.1 * scale ≤ (p.left0 - p.left) * precision =
      omega (arith, rw precision_eq at paid, exact, split) in
    omega (
      arith,
      mul-le-mul_right precision s.worth,
      mul-le-mul_right precision lower,
      mul-le-mul_right (2 * scale * w) paid_le,
    )
