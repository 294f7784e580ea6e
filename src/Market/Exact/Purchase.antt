-- ===== src/Market/Exact/Purchase.antt =====
-- programs/token-mill/src/state/market.rs: what `get_base_amount_out` takes covers the tokens it gives
-- out.
use sol_token_mill.Word
use sol_token_mill.Word.U64
use sol_token_mill.Word.U128
use sol_token_mill.Math
use native.Mathlib.Nat.{add-mul, mul-le-mul_right}
use sol_token_mill.Base.{ap, arith, drop, subst, suc, ℕ, ◌*◌, ◌+◌, ◌-◌, ◌^◌, ◌∙◌, ◌≡◌, ◌≤◌}
use sol_token_mill.Base.Arith.{div-mul-le}
use sol_token_mill.Constant.{base_precision, scale}
use sol_token_mill.Errors.{ok, ok-injective, on_ok}
use sol_token_mill.Market.{Market, circulating_supply, index}
use sol_token_mill.Market.Bounds.{
  PricesAtMost, PricesAtMost-drop, normalize_base_sound, normalized, try_from_sound,
}
use sol_token_mill.Market.Exact.{
  base_out_loop, get_base_amount_out, normalize_quote, swapped_amounts,
}
use sol_token_mill.Market.Exact.PurchaseLoop.{base_out_loop-BoughtFrom}
use sol_token_mill.Market.Exact.Units.{quote_sound}
use sol_token_mill.Market.Fair.{
  position_sound, unit, worth, worth_of, worth_of-split, worth_of_mono,
}
use sol_token_mill.Market.Monotone.{mul_sound, sub_sound}
use sol_token_mill.Market.Quote.{normalize_base}
use sol_token_mill.Market.Supply.{ReserveValid}
use sol_token_mill.Market.Worth.{Rounds-quotient}
use sol_token_mill.Math.{down}
use sol_token_mill.Math.Bounds.{div_sound}
use sol_token_mill.Math.Steps.{limit}
use sol_token_mill.Ruint.{Laws, Ruint}
use sol_token_mill.SwapTypes.{exact_output}

-- The parts of a call of `get_base_amount_out` that has succeeded.
record PurchaseParts (R : Ruint) (m : Market) (supply quote_amount : ℕ) (r : ℕ × ℕ) : Type 0 where
  pub total : ℕ
  pub total_eq : normalize_base supply ≡ ok total
  pub precision : ℕ
  pub left0 : ℕ
  pub quote_eq : normalize_quote m quote_amount ≡ ok (left0, precision)
  pub i : ℕ
  pub interval : Word.div total m.width_scaled ≡ ok i
  pub used : ℕ
  pub used_eq : Word.rem total m.width_scaled ≡ ok used
  pub price_0 : ℕ
  pub price : index m.ask_prices i ≡ ok price_0
  pub base : ℕ
  pub left : ℕ
  pub loop :
      base_out_loop R m.width_scaled price_0 (drop (i + 1) m.ask_prices) used left0 0
      ≡ ok (base, left)
  pub amounts : swapped_amounts quote_amount precision base left down ≡ ok r

purchase_parts :
    (R : Ruint) (m : Market) (supply quote_amount : ℕ) (r : ℕ × ℕ)
    → circulating_supply m ≡ ok supply
    → get_base_amount_out R m quote_amount ≡ ok r
    → PurchaseParts R m supply quote_amount r
unfolding get_base_amount_out
purchase_parts R m supply quote_amount r es h =
    on_ok (normalize_base supply) (rw es at h) λ total et h1.
      on_ok (normalize_quote m quote_amount) h1 λ quote eq h2.
        on_ok (Word.div total m.width_scaled) h2 λ d ed h3.
          on_ok (Word.try_from U64.lim d) h3 λ i en h4.
            on_ok (Word.rem total m.width_scaled) h4 λ used eu h5.
              on_ok (index m.ask_prices i) h5 λ price_0 ep h6.
                on_ok
                  (base_out_loop R m.width_scaled price_0 (drop (i + 1) m.ask_prices) used quote.0
                    0)
                  h6
                  λ out eo h7. record {
                    total = total;
                    total_eq = et;
                    precision = quote.1;
                    left0 = quote.0;
                    quote_eq = eq;
                    i = i;
                    interval = rw (try_from_sound d en) ed;
                    used = used;
                    used_eq = eu;
                    price_0 = price_0;
                    price = ep;
                    base = out.0;
                    left = out.1;
                    loop = eo;
                    amounts = h7;
                  }

-- What is returned, at the internal scale.
swapped_down :
    (quote_amount precision base left : ℕ) (r : ℕ × ℕ)
    → swapped_amounts quote_amount precision base left down ≡ ok r
    → (normalized r.0 ≤ base) × (quote_amount * scale ≤ r.1 * scale + left * precision)
swapped_down quote_amount precision base left r h =
    on_ok (U128.mul base base_precision) h λ a ea h1. on_ok (Math.div a scale down) h1 λ b eb h2.
      on_ok (U128.mul left precision) h2 λ c ec h3. on_ok (Math.div c scale down) h3 λ d ed h4.
        on_ok (Word.sub quote_amount d) h4 λ e ee h5.
          let (_, b_eq) = div_sound a scale down eb in
          let (_, d_eq) = div_sound c scale down ed in
          let (e_eq, d_le) = sub_sound quote_amount d ee in
          let out : (b, e) ≡ r = ok-injective h5 in
          let a_eq = mul_sound base base_precision ea in
          let c_eq = mul_sound left precision ec in
          subst
            (λ (p : ℕ × ℕ).
              (normalized p.0 ≤ base) × (quote_amount * scale ≤ p.1 * scale + left * precision))
            out
            (
              omega (arith, a_eq, b_eq, Rounds-quotient down a scale (omega arith)),
              omega (arith, c_eq, d_eq, e_eq, d_le, Rounds-quotient down c scale (omega arith)),
            )

-- Where the 256-bit integers obey their laws, in a market whose reserve is in order and whose ask
-- prices are at most 10^18: whenever `get_base_amount_out` succeeds, the quote amount that it takes
-- is at least the worth, at the ask prices, of the tokens that it gives out of the reserve.
pub get_base_amount_out-Covered :
    {R : Ruint} (laws : Laws R) (m : Market) (supply quote_amount : ℕ) (r : ℕ × ℕ)
    → ReserveValid m
    → PricesAtMost limit m.ask_prices
    → circulating_supply m ≡ ok supply
    → get_base_amount_out R m quote_amount ≡ ok r
    → worth m exact_output (supply + r.0) * 10 ^ m.quote_token_decimals
      ≤ worth m exact_output supply * 10 ^ m.quote_token_decimals + r.1 * unit m
get_base_amount_out-Covered {R} laws m supply quote_amount r v bounded es h =
    let p = purchase_parts R m supply quote_amount r es h in
    let w = m.width_scaled in
    let precision = 10 ^ m.quote_token_decimals in
    let total = normalize_base_sound supply p.total_eq in
    let (parts, used_le) = position_sound p.total w p.interval p.used_eq in
    let (below, at) = worth_of-split w m.ask_prices p.i p.price in
    let rest = drop (suc p.i) m.ask_prices in
    let next : p.i + 1 ≡ suc p.i = omega arith in
    let (precision_eq, positive, left_eq) = quote_sound m quote_amount p.quote_eq in
    let bought =
      base_out_loop-BoughtFrom laws w p.price_0 rest p.used p.left0 0
        (PricesAtMost-drop limit (suc p.i) m.ask_prices bounded)
        (omega (arith, v.width, v.supply.at_most)) used_le (rw next at p.loop) in
    let (base_le, taken) = swapped_down quote_amount p.precision p.base p.left r p.amounts in
    let upper =
      worth_of_mono w m.ask_prices (normalized (supply + r.0)) (p.i * w + (p.used + (p.base - 0)))
        (omega (arith, base_le, parts, total)) in
    let start = ap (worth_of w m.ask_prices) (parts ∙ total) in
    let rounded : p.left0 * p.precision ≤ quote_amount * scale = omega (
      arith,
      div-mul-le (quote_amount * scale) p.precision,
      ap (λ (x : ℕ). x * p.precision) left_eq,
    ) in
    let split =
      ap (λ (x : ℕ). x * p.precision) {x = p.left0} {y = (p.left0 - p.left) + p.left}
        (omega (arith, bought.left_le))
      ∙ add-mul (p.left0 - p.left) p.left p.precision in
    let taken_le : (p.left0 - p.left) * precision ≤ r.1 * scale =
      rw (← precision_eq) (omega (arith, taken, rounded, split)) in
    let stepped : worth m exact_output (supply + r.0)
        ≤ worth m exact_output supply + (p.left0 - p.left) * (2 * scale * w) =
      omega (arith, upper, at (p.used + (p.base - 0)), at p.used, start, bought.worth) in
    omega (arith, mul-le-mul_right precision stepped, mul-le-mul_right (2 * scale * w) taken_le)
