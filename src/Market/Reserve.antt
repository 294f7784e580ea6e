-- ===== src/Market/Reserve.antt =====
-- programs/token-mill/src/state/market.rs: no pricing function gives out more base tokens than the
-- reserve holds.
use native.Mathlib.Nat.{add-mul, mod-lt, div-add-mod', suc-mul}
use sol_token_mill.Math
use sol_token_mill.Word.U128
use sol_token_mill.Word
use sol_token_mill.Word.U64
use sol_token_mill.Base.{
  Bool-cases, List, [], ap, arith, drop, inl, inr, length, length-drop, min, suc, zero, ℕ, ◌*◌, ◌+◌,
  ◌-◌, ◌<◌, ◌==◌, ◌∷◌, ◌≡◌, ◌≤◌,
}
use sol_token_mill.Constant.{base_precision, prices_length, scale}
use sol_token_mill.Errors.{ok, on_ok}
use sol_token_mill.Market.{Market, circulating_supply, index}
use sol_token_mill.Market.Bounds.{
  PricesAtMost, PricesAtMost-drop, normalize_base_sound, normalized, swapped_down-le,
  try_from_sound,
}
use sol_token_mill.Market.Exact.{base_out_loop, get_base_amount_out, normalize_quote}
use sol_token_mill.Market.Quote.{
  curve_of, get_quote_amount_with_parameters, interval_quote, normalize_base, quote_loop,
}
use sol_token_mill.Market.Quoted.{quoted}
use sol_token_mill.Market.Supply.{ReserveValid}
use sol_token_mill.Math.{Rounding, down, up}
use sol_token_mill.Math.Bounds.{div_sound}
use sol_token_mill.Math.Steps.{get_delta_base_out-le, limit}
use sol_token_mill.Ruint.{Laws, Ruint}
use sol_token_mill.SwapTypes.{SwapAmountType}

-- The tokens that lie above a position: the rest of its interval, and the intervals above, one for
-- each price that follows.
abbrev pub above_position : ℕ → ℕ → List ℕ → ℕ
above_position width used [] = 0
above_position width used (p ∷ ps) = (width - used) + length ps * width

above_position-start : (width : ℕ) (ps : List ℕ) → above_position width 0 ps ≡ length ps * width
above_position-start width [] = omega arith
above_position-start width (p ∷ ps) = omega (arith, suc-mul (length ps) width)

module _ {R : Ruint} (laws : Laws R) where
  base_out_loop-le :
      (width price_0 : ℕ) (prices : List ℕ) (used left base : ℕ) (r : ℕ × ℕ)
      → PricesAtMost limit prices
      → width ≤ limit
      → base_out_loop R width price_0 prices used left base ≡ ok r
      → (r.0 ≤ base + above_position width used prices) × (r.1 ≤ left)
  unfolding base_out_loop
  base_out_loop-le width price_0 [] used left base r hp hw h = ground arith
  base_out_loop-le width price_0 (price_1 ∷ prices) used left base r hp hw h =
      elim (Bool-cases (left == 0)) [
        | inl done ↦ ground arith
        | inr more ↦
            on_ok (Math.get_delta_base_out R price_0 price_1 width used left) (rw more at h)
              λ d ed h1. on_ok (U128.add base d.0) h1 λ base' eb h2.
                on_ok (Word.sub left d.1) h2 λ left' el h3. ground (
                  arith,
                  get_delta_base_out-le laws price_0 price_1 width used left d hp.0 hw ed,
                  base_out_loop-le width price_1 prices 0 left' base' r hp.1 hw h3,
                  above_position-start width prices,
                )
      ]

-- The loop of `get_quote_amount_with_parameters` leaves at least what does not fit above.
quote_loop-left :
    (R : Ruint) (rounding : Rounding) (width price_0 : ℕ) (prices : List ℕ) (used left quote : ℕ)
    (r : ℕ × ℕ)
    → quote_loop R rounding width price_0 prices used left quote ≡ ok r
    → (left ≤ r.0 + above_position width used prices) × (r.0 ≤ left)
unfolding quote_loop
quote_loop-left R rounding width price_0 [] used left quote r h = ground arith
quote_loop-left R rounding width price_0 (price_1 ∷ prices) used left quote r h =
    elim (Bool-cases (left == 0)) [
      | inl done ↦ ground arith
      | inr more ↦ on_ok (Word.sub width used) (rw more at h) λ room er h1.
          on_ok (interval_quote R price_0 price_1 width used (min left room) rounding) h1 λ dq _ h2.
            on_ok (Word.sub left (min left room)) h2 λ left' el h3.
              on_ok (U128.add quote dq) h3 λ quote' _ h4. ground (
                arith,
                quote_loop-left R rounding width price_1 prices 0 left' quote' r h4,
                above_position-start width prices,
              )
    ]

above_position-le :
    (width used : ℕ) (ps : List ℕ)
    → used ≤ width
    → above_position width used ps ≤ length ps * width - used
above_position-le width used [] h = omega arith
above_position-le width used (p ∷ ps) h = omega (arith, suc-mul (length ps) width)

index-lt : (prices : List ℕ) (i : ℕ) {p : ℕ} → index prices i ≡ ok p → i < length prices
index-lt [] i e = absurd (ground arith)
index-lt (p ∷ ps) zero e = omega arith
index-lt (p ∷ ps) (suc i) e = omega (arith, index-lt ps i e)

-- Ten intervals from position `i`, `used` on.
remaining_width :
    (k i width used total whole : ℕ)
    → k + i ≡ 10
    → i * width + used ≡ total
    → 10 * width ≡ whole
    → k * width - used ≡ whole - total
remaining_width k i width used total whole h1 h2 h3 =
    omega (arith, ap (λ (t : ℕ). t * width) h1, add-mul k i width)

-- The part of the curve above the circulating supply is the reserve.
room_above :
    (m : Market) (curve : List ℕ) (supply total i used : ℕ) {price : ℕ}
    → ReserveValid m
    → length curve ≡ prices_length
    → circulating_supply m ≡ ok supply
    → total ≡ normalized supply
    → Word.div total m.width_scaled ≡ ok i
    → Word.rem total m.width_scaled ≡ ok used
    → index curve i ≡ ok price
    → above_position m.width_scaled used (drop (i + 1) curve) ≤ normalized m.base_reserve
unfolding circulating_supply
room_above m curve supply total i used v len es et ei eu ep =
    let below = index-lt curve i ep in
    let divided : i * m.width_scaled + used ≡ total =
      ground (arith, div-add-mod' total m.width_scaled) in
    let within : used ≤ m.width_scaled = ground (arith, mod-lt total {m = m.width_scaled}) in
    let above = above_position-le m.width_scaled used (drop (i + 1) curve) within in
    let many : length (drop (i + 1) curve) ≡ 10 - i = omega (arith, length-drop (i + 1) curve) in
    let bound : (10 - i) * m.width_scaled - used ≡ normalized m.total_supply - total =
      remaining_width (10 - i) i m.width_scaled used total (normalized m.total_supply) (omega arith)
        divided (omega (arith, v.width, v.supply.whole)) in
    let same : length (drop (i + 1) curve) * m.width_scaled ≡ (10 - i) * m.width_scaled =
      ap (λ (t : ℕ). t * m.width_scaled) many in
    let supply_eq : supply + m.base_reserve ≡ m.total_supply = ground arith in
    omega (arith, above, same, bound, et, supply_eq)

-- In a market whose reserve is in order and whose `PRICES_LENGTH` ask prices are at most 10^18, where
-- the 256-bit integers obey their laws: whenever `get_base_amount_out` succeeds, the purchase gives
-- out at most the reserve and takes at most the quote amount that was offered.
pub get_base_amount_out-le :
    {R : Ruint} (laws : Laws R) (m : Market) (quote_amount : ℕ) (r : ℕ × ℕ)
    → ReserveValid m
    → length m.ask_prices ≡ prices_length
    → PricesAtMost limit m.ask_prices
    → get_base_amount_out R m quote_amount ≡ ok r
    → (r.0 ≤ m.base_reserve) × (r.1 ≤ quote_amount)
unfolding get_base_amount_out
get_base_amount_out-le {R} laws m quote_amount r v len hp h =
    on_ok (circulating_supply m) h λ supply es h0. on_ok (normalize_base supply) h0 λ total et h1.
      on_ok (normalize_quote m quote_amount) h1 λ quote _ h2.
        on_ok (Word.div total m.width_scaled) h2 λ d ed h3.
          on_ok (Word.try_from U64.lim d) h3 λ i en h4.
            on_ok (Word.rem total m.width_scaled) h4 λ used eu h5.
              on_ok (index m.ask_prices i) h5 λ price_0 ep h6.
                on_ok
                  (base_out_loop R m.width_scaled price_0 (drop (i + 1) m.ask_prices) used quote.0
                    0)
                  h6
                  λ out eo h7.
                    let room =
                      room_above m m.ask_prices supply total i used v len es
                        (normalize_base_sound supply et) (rw (try_from_sound d en) ed) eu ep in
                    let taken =
                      base_out_loop-le laws m.width_scaled price_0 (drop (i + 1) m.ask_prices) used
                        quote.0 0 out (PricesAtMost-drop limit (i + 1) m.ask_prices hp)
                        (omega (arith, v.width, v.supply.at_most)) eo in
                    swapped_down-le quote_amount quote.1 out.0 out.1 m.base_reserve r
                      (omega (arith, taken.0, room)) h7

-- The base amount of `get_quote_amount_with_parameters` is what was asked for, less what is left.
unswapped-le :
    (base_amount left0 left cap a b c : ℕ) (rounding : Rounding)
    → left0 ≡ normalized base_amount
    → left0 ≤ left + normalized cap
    → U128.mul left base_precision ≡ ok a
    → Math.div a scale rounding ≡ ok b
    → Word.sub base_amount b ≡ ok c
    → (c ≤ cap) × (c ≤ base_amount)
unswapped-le base_amount left0 left cap a b c up e le h1 h2 h3 =
    let (_, q) = div_sound a scale up h2 in ground arith
unswapped-le base_amount left0 left cap a b c down e le h1 h2 h3 =
    let (_, q) = div_sound a scale down h2 in ground arith

swapped_base-le : (a b c : ℕ) → Word.sub a b ≡ ok c → c ≤ a
swapped_base-le a b c h = ground arith

-- The base amount that `get_quote_amount_with_parameters` returns is at most the one asked for.
pub get_quote_amount_with_parameters-le :
    (R : Ruint) (m : Market) (supply base_amount : ℕ) (kind : SwapAmountType) (rounding : Rounding)
    (r : ℕ × ℕ)
    → get_quote_amount_with_parameters R m supply base_amount kind rounding ≡ ok r
    → r.0 ≤ base_amount
get_quote_amount_with_parameters-le R m supply base_amount kind rounding r h =
    let q = quoted R m supply base_amount kind rounding r h in
    rw (q.result) (swapped_base-le base_amount q.unswapped q.base q.swapped)

-- From the circulating supply on, it is at most the reserve too.
pub get_quote_amount_with_parameters-le-reserve :
    (R : Ruint) (m : Market) (supply base_amount : ℕ) (kind : SwapAmountType) (rounding : Rounding)
    (r : ℕ × ℕ)
    → ReserveValid m
    → length (curve_of m kind) ≡ prices_length
    → circulating_supply m ≡ ok supply
    → get_quote_amount_with_parameters R m supply base_amount kind rounding ≡ ok r
    → r.0 ≤ m.base_reserve
get_quote_amount_with_parameters-le-reserve R m supply base_amount kind rounding r v len es h =
    let q = quoted R m supply base_amount kind rounding r h in
    let room =
      room_above m (curve_of m kind) supply q.total q.i q.used v len es
        (normalize_base_sound supply q.total_eq) q.interval q.rest q.price in
    let left =
      quote_loop-left R rounding m.width_scaled q.price_0 (drop (q.i + 1) (curve_of m kind)) q.used
        q.left0 0 (q.left, q.quote) q.loop in
    rw (q.result)
      (unswapped-le base_amount q.left0 q.left m.base_reserve q.scaled q.unswapped q.base rounding
        (normalize_base_sound base_amount q.left0_eq) (omega (arith, left.0, room)) q.scaled_eq
        q.unswapped_eq q.swapped).0
