-- ===== src/Market/Fair.antt =====
-- programs/token-mill/src/state/market.rs: a quote for a base amount against the worth of the tokens.
use sol_token_mill.Word
use native.Mathlib.Nat.{add-mul, suc-mul, mul-le-mul_right, div-add-mod'}
use sol_token_mill.Base.{
  List, [], ap, arith, drop, length, refl, suc, sym, zero, ℕ, ◌*◌, ◌+◌, ◌^◌, ◌∙◌, ◌∷◌, ◌≡◌, ◌≤◌,
}
use sol_token_mill.Constant.{base_precision, prices_length, scale}
use sol_token_mill.Errors.{ok}
use sol_token_mill.Market.{Market, index}
use sol_token_mill.Market.Bounds.{normalize_base_sound, normalized}
use sol_token_mill.Market.Complete.{width_tenth}
use sol_token_mill.Market.Interval.{quotient-le}
use sol_token_mill.Market.Monotone.{mul_sound, sub_sound}
use sol_token_mill.Market.Quote.{curve_of, get_quote_amount_with_parameters}
use sol_token_mill.Market.Quoted.{Quoted, quoted}
use sol_token_mill.Market.Spread.{rest_fits}
use sol_token_mill.Market.Supply.{ReserveValid}
use sol_token_mill.Market.Worth.{
  Rounds, Rounds-quotient, part_worth, quote_loop-Rounds, quote_loop_whole, worth_from,
  worth_from-past, worth_from-zero, worth_from_mono,
}
use sol_token_mill.Math.{Rounding, down, up}
use sol_token_mill.Math.Bounds.{div_sound}
use sol_token_mill.Ruint.{Laws, Ruint}
use sol_token_mill.SwapTypes.{SwapAmountType}
use sol_token_mill.Word.{power_of_ten}

-- Twice the worth of the first `n` tokens under a curve, times the width of an interval, at the
-- internal scale.
abbrev pub worth_of : (width : ℕ) → List ℕ → ℕ → ℕ
worth_of width [] n = 0
worth_of width (price ∷ prices) n = worth_from width price prices n

-- The worth of a supply of a market under one of its curves.
abbrev pub worth : Market → SwapAmountType → ℕ → ℕ
worth m kind supply = worth_of m.width_scaled (curve_of m kind) (normalized supply)

-- What a unit of the quote token is in the terms of `worth`.
abbrev pub unit : Market → ℕ
unit m = 2 * scale * m.width_scaled * scale

pub worth_of-split :
    (width : ℕ) (curve : List ℕ) (i : ℕ) {price : ℕ}
    → index curve i ≡ ok price
    → (below : ℕ) × ((x : ℕ)
        → worth_of width curve (i * width + x)
          ≡ below + worth_from width price (drop (suc i) curve) x)
worth_of-split width [] i h = absurd (ground arith)
worth_of-split width (p ∷ ps) zero {price} h =
    let e : p ≡ price = ground arith in
    (0, λ x. let start : 0 * width + x ≡ x = omega arith in rw (start, e) (omega arith))
worth_of-split width (p ∷ []) (suc i) h = absurd (ground arith)
worth_of-split width (p ∷ p1 ∷ ps) (suc i) h =
    let (below, f) = worth_of-split width (p1 ∷ ps) i h in
    (
      part_worth p p1 width width + below,
      λ x.
          let past : suc i * width + x ≡ width + (i * width + x) = omega (arith, suc-mul i width) in
          ap (worth_from width p (p1 ∷ ps)) past
          ∙ worth_from-past width p p1 ps (i * width + x)
          ∙ rw (f x) (omega arith),
    )

index-length :
    (prices : List ℕ) (i : ℕ) {price : ℕ}
    → index prices i ≡ ok price
    → length (drop (suc i) prices) + suc i ≡ length prices
index-length [] i h = absurd (ground arith)
index-length (p ∷ ps) zero h = omega arith
index-length (p ∷ ps) (suc i) h = omega (arith, index-length ps i h)

Rounds-mul : (r : Rounding) (a b k : ℕ) → Rounds r a b → Rounds r (a * k) (b * k)
Rounds-mul up a b k h = mul-le-mul_right k h
Rounds-mul down a b k h = mul-le-mul_right k h

Rounds-shift : (r : Rounding) (a b k : ℕ) → Rounds r a b → Rounds r (k + a) (k + b)
Rounds-shift up a b k h = omega (arith, h)
Rounds-shift down a b k h = omega (arith, h)

-- The two roundings of a quote, one after the other.
Rounds-both :
    (r : Rounding) (exact before quote paid precision d : ℕ)
    → Rounds r exact (before + quote * d)
    → Rounds r (quote * precision) (paid * scale)
    → Rounds r (exact * precision) (before * precision + paid * (d * scale))
Rounds-both up exact before quote paid precision d h h' =
    omega (arith, mul-le-mul_right precision h, mul-le-mul_right d h')
Rounds-both down exact before quote paid precision d h h' =
    omega (arith, mul-le-mul_right precision h, mul-le-mul_right d h')

pub position_sound :
    (n width : ℕ) {i used : ℕ}
    → Word.div n width ≡ ok i
    → Word.rem n width ≡ ok used
    → (i * width + used ≡ n) × (used ≤ width)
position_sound n width h h' = (ground (arith, div-add-mod' n width), rest_fits n width h')

pub power_sound : (decimals : ℕ) {p : ℕ} → power_of_ten decimals ≡ ok p → p ≡ 10 ^ decimals
unfolding power_of_ten
power_sound decimals h = ground arith

-- The intervals that the loop goes over hold the amount that is quoted.
Quoted-room :
    {R : Ruint} (m : Market) (supply base : ℕ) (kind : SwapAmountType) (r : Rounding) {out : ℕ × ℕ}
    → ReserveValid m
    → length (curve_of m kind) ≡ prices_length
    → supply + base ≤ m.total_supply
    → (q : Quoted R m supply base kind r out)
    → q.left0 + q.used ≤ length (drop (suc q.i) (curve_of m kind)) * m.width_scaled
Quoted-room m supply base kind r v eleven within q =
    let w = m.width_scaled in
    let rest = drop (suc q.i) (curve_of m kind) in
    let total = normalize_base_sound supply q.total_eq in
    let amount = normalize_base_sound base q.left0_eq in
    let (parts, _) = position_sound q.total w q.interval q.rest in
    let len_eq = index-length (curve_of m kind) q.i q.price in
    let widths : length rest * w + (suc q.i) * w ≡ length (curve_of m kind) * w =
      sym (add-mul (length rest) (suc q.i) w) ∙ ap (λ (x : ℕ). x * w) len_eq in
    let eleven_w : length (curve_of m kind) * w ≡ 11 * w = ap (λ (x : ℕ). x * w) eleven in
    omega (arith, widths, eleven_w, suc-mul q.i w, parts, total, amount, width_tenth m v, within)

-- Where the tokens that are quoted are within the total supply, a quote rounds their worth.
pub get_quote-Rounds :
    {R : Ruint} (laws : Laws R) (m : Market) (supply base : ℕ) (kind : SwapAmountType)
    (r : Rounding) {out : ℕ × ℕ}
    → ReserveValid m
    → length (curve_of m kind) ≡ prices_length
    → supply + base ≤ m.total_supply
    → get_quote_amount_with_parameters R m supply base kind r ≡ ok out
    → Rounds r
        (worth m kind (supply + base) * 10 ^ m.quote_token_decimals)
        (worth m kind supply * 10 ^ m.quote_token_decimals + out.1 * unit m)
get_quote-Rounds {R} laws m supply base kind r {out} v eleven within h =
    let q = quoted R m supply base kind r out h in
    let w = m.width_scaled in
    let total = normalize_base_sound supply q.total_eq in
    let amount = normalize_base_sound base q.left0_eq in
    let (parts, used_le) = position_sound q.total w q.interval q.rest in
    let (below, at) = worth_of-split w (curve_of m kind) q.i q.price in
    let rest = drop (suc q.i) (curve_of m kind) in
    let next : q.i + 1 ≡ suc q.i = omega arith in
    let room = Quoted-room m supply base kind r v eleven within q in
    let loop =
      quote_loop-Rounds laws r w q.price_0 rest q.used q.left0 0 used_le room (rw next at q.loop) in
    let shifted = Rounds-shift r _ _ below loop in
    let upper : q.i * w + (q.used + q.left0) ≡ normalized (supply + base) =
      omega (arith, parts, total, amount) in
    let high : below + (worth_from w q.price_0 rest (q.used + q.left0) + 0 * (2 * scale * w))
        ≡ worth m kind (supply + base) =
      omega (arith, at (q.used + q.left0), ap (worth_of w (curve_of m kind)) upper) in
    let low : below + (worth_from w q.price_0 rest q.used + q.quote * (2 * scale * w))
        ≡ worth m kind supply + q.quote * (2 * scale * w) =
      omega (arith, at q.used, ap (worth_of w (curve_of m kind)) (parts ∙ total)) in
    let (_, paid_eq) = div_sound q.paid_scaled scale r q.paid_eq in
    let scaled : q.paid_scaled ≡ q.quote * 10 ^ m.quote_token_decimals =
      mul_sound q.quote q.precision q.paid_scaled_eq
      ∙ ap (λ (x : ℕ). q.quote * x) (power_sound m.quote_token_decimals q.precision_eq) in
    let paid : Rounds r (q.quote * 10 ^ m.quote_token_decimals) (q.paid * scale) =
      rw (paid_eq, scaled)
        (Rounds-quotient r (q.quote * 10 ^ m.quote_token_decimals) scale (omega arith)) in
    rw (q.result) (
      Rounds-both r (worth m kind (supply + base)) (worth m kind supply) q.quote q.paid
        (10 ^ m.quote_token_decimals) (2 * scale * w) (rw (high, low) at shifted) paid)

-- Such a quote is for the whole amount.
pub get_quote_whole :
    (R : Ruint) (m : Market) (supply base : ℕ) (kind : SwapAmountType) (r : Rounding) {out : ℕ × ℕ}
    → ReserveValid m
    → length (curve_of m kind) ≡ prices_length
    → supply + base ≤ m.total_supply
    → get_quote_amount_with_parameters R m supply base kind r ≡ ok out
    → out.0 ≡ base
get_quote_whole R m supply base kind r {out} v eleven within h =
    let q = quoted R m supply base kind r out h in
    let next : q.i + 1 ≡ suc q.i = omega arith in
    let (_, used_le) = position_sound q.total m.width_scaled q.interval q.rest in
    let none_left : q.left ≡ 0 =
      quote_loop_whole R r m.width_scaled q.price_0 (drop (suc q.i) (curve_of m kind)) q.used
        q.left0 0 used_le (Quoted-room m supply base kind r v eleven within q)
        (rw next at q.loop) in
    let scaled : q.scaled ≡ 0 * base_precision =
      mul_sound q.left base_precision q.scaled_eq ∙ ap (λ (x : ℕ). x * base_precision) none_left in
    let (_, e) = div_sound q.scaled scale r q.unswapped_eq in
    let unswapped : q.unswapped ≤ 0 =
      rw e (quotient-le r q.scaled scale 0 (omega arith) (omega (arith, scaled))) in
    let (swapped, _) = sub_sound base q.unswapped q.swapped in
    rw (q.result) (omega (arith, unswapped, swapped))

pub worth_of-zero : (width : ℕ) (curve : List ℕ) → worth_of width curve 0 ≡ 0
worth_of-zero width [] = refl
worth_of-zero width (p ∷ ps) = worth_from-zero width p ps

pub worth_of_mono :
    (width : ℕ) (curve : List ℕ) (x y : ℕ) → x ≤ y → worth_of width curve x ≤ worth_of width curve y
worth_of_mono width [] x y le = omega arith
worth_of_mono width (p ∷ ps) x y le = worth_from_mono width p ps x y le
