-- ===== src/Market/Exact/Dust.antt =====
-- programs/token-mill/src/state/market.rs: a quote amount that vanishes at the internal scale.
use sol_token_mill.Math
use sol_token_mill.Word.U128
use native.Mathlib.Nat.{
  lt_of_mul-lt-mul_right, le_of_mul-le-mul_right, pow-le-pow_right, div-eq_of_lt, div-add-mod',
}
use native.Mathlib.Nat.{
  lt_of_mul-lt-mul_right, le_of_mul-le-mul_right, pow-le-pow_right, div-eq_of_lt, div-add-mod',
}
use sol_token_mill.Base.{
  Bool-cases, List, [], arith, inl, inr, length, refl, suc, zero, ℕ, ◌%◌, ◌*◌, ◌+◌, ◌-◌, ◌/◌, ◌<◌,
  ◌==◌, ◌^◌, ◌∷◌, ◌≡◌, ◌≤◌,
}
use sol_token_mill.Constant.{prices_length, scale}
use sol_token_mill.Errors.{ok}
use sol_token_mill.Market.{Market, index}
use sol_token_mill.Market.Bounds.{normalized}
use sol_token_mill.Market.Complete.{Market-Walk, normalize_fits, width_tenth}
use sol_token_mill.Market.Exact.{
  base_in_loop, get_base_amount_in, normalize_quote, start_below, swapped_amounts,
}
use sol_token_mill.Market.Interval.{div_fits, rem_fits, try_fits}
use sol_token_mill.Market.Supply.{ReserveValid, circulating_supply-eq}
use sol_token_mill.Math.{up}
use sol_token_mill.Ruint.{Ruint}
use sol_token_mill.Word.{power_of_ten}

-- The internal scale has ten decimals: less than one of its units is cut off.
vanishes : (quote d : ℕ) → quote * scale < 10 ^ d → quote * scale / 10 ^ d ≡ 0
vanishes quote d lt = div-eq_of_lt lt

index_total :
    (prices : List ℕ) (i : ℕ) → i < length prices → (price : ℕ) × (index prices i ≡ ok price)
index_total [] i lt = absurd (omega arith)
index_total (p ∷ ps) zero lt = (p, refl)
index_total (p ∷ ps) (suc i) lt = index_total ps i (omega arith)

-- A sale begins at one of the eleven prices.
start_within :
    (m : Market) (supply : ℕ)
    → ReserveValid m
    → supply ≤ m.total_supply
    → (start_below m.width_scaled
        (normalized supply / m.width_scaled)
        (normalized supply % m.width_scaled)).0
      ≤ 10
start_within m supply v le =
    let walk = Market-Walk m 0 v (omega arith) in
    let w = m.width_scaled in
    let i = normalized supply / w in
    let rest = normalized supply % w in
    let parts : i * w + rest ≡ normalized supply = div-add-mod' (normalized supply) w in
    let top = width_tenth m v in
    elim (Bool-cases (rest == 0)) [
      | inl border ↦ rw border (
          le_of_mul-le-mul_right {m = i} {n = 10} {k = w} (omega (arith, parts, top, le))
            walk.positive)
      | inr inside ↦
          let some_used : 1 ≤ rest = ground (arith, inside) in
          rw inside
            (lt_of_mul-lt-mul_right w {m = i} {n = 10} (omega (arith, parts, top, le, some_used)))
    ]

nothing_sold :
    (R : Ruint) (curve : List ℕ) (width i price_1 available : ℕ)
    → base_in_loop R curve width i price_1 available 0 0 ≡ ok (0, 0)
unfolding base_in_loop
nothing_sold R curve width zero price_1 available = refl
nothing_sold R curve width (suc i) price_1 available = refl

normalized_away :
    (m : Market) (quote_amount : ℕ)
    → m.quote_token_decimals ≤ 38
    → quote_amount * scale < 10 ^ m.quote_token_decimals
    → normalize_quote m quote_amount ≡ ok (0, 10 ^ m.quote_token_decimals)
unfolding power_of_ten
normalized_away m quote_amount small lt =
    let fits : 10 ^ m.quote_token_decimals ≤ 10 ^ 38 = pow-le-pow_right (omega arith) small in
    let power : power_of_ten m.quote_token_decimals ≡ ok (10 ^ m.quote_token_decimals) =
      ground (arith, fits) in
    let scaled : U128.mul quote_amount scale ≡ ok (quote_amount * scale) =
      ground (arith, fits, lt) in
    rw
      (
        power,
        scaled,
        div_fits (quote_amount * scale) (10 ^ m.quote_token_decimals) (omega (arith, lt)),
        vanishes quote_amount m.quote_token_decimals lt,
      )
      refl

all_swapped :
    (quote_amount precision : ℕ)
    → swapped_amounts quote_amount precision 0 0 up ≡ ok (0, quote_amount)
unfolding Math.div
all_swapped quote_amount precision = ground arith

-- In a market whose reserve is in order and that has eleven bid prices, with a quote token of at most
-- 38 decimals: where the quote amount is worth less than one unit of the internal scale, which has
-- ten decimals, `get_base_amount_in` takes no base tokens for it and pays it all the same.
pub dust_unpaid :
    (R : Ruint) (m : Market) (quote_amount : ℕ)
    → ReserveValid m
    → length m.bid_prices ≡ prices_length
    → m.quote_token_decimals ≤ 38
    → quote_amount * scale < 10 ^ m.quote_token_decimals
    → get_base_amount_in R m quote_amount ≡ ok (0, quote_amount)
unfolding get_base_amount_in
dust_unpaid R m quote_amount v eleven small lt =
    let supply = m.total_supply - m.base_reserve in
    let w = m.width_scaled in
    let walk = Market-Walk m 0 v (omega arith) in
    let i_le = start_within m supply v (omega arith) in
    let start = start_below w (normalized supply / w) (normalized supply % w) in
    let (price_1, e) = index_total m.bid_prices start.0 (omega (arith, i_le, eleven)) in
    let top = width_tenth m v in
    let interval : normalized supply / w ≤ 10 =
      le_of_mul-le-mul_right {m = normalized supply / w} {n = 10}
        (omega (arith, div-add-mod' (normalized supply) w, top)) walk.positive in
    rw
      (
        circulating_supply-eq m v,
        normalize_fits supply (omega (arith, v.supply.at_most)),
        normalized_away m quote_amount small lt,
        div_fits (normalized supply) w walk.positive,
        try_fits (normalized supply / w) (omega (arith, interval)),
        rem_fits (normalized supply) w walk.positive,
        e,
        nothing_sold R m.bid_prices w start.0 price_1 start.1,
      )
      (all_swapped quote_amount (10 ^ m.quote_token_decimals))
