-- ===== src/Market/Interval.antt =====
-- programs/token-mill/src/state/market.rs: the quote for a part of an interval is given, and bounded.
use sol_token_mill.Word
use sol_token_mill.Word.U128
use sol_token_mill.Word.U64
use native.Mathlib.Nat.{mul-add, mul-le-mul, mul-le-mul_right}
use sol_token_mill.Base.{ap, arith, some, sym, ℕ, ◌%◌, ◌*◌, ◌+◌, ◌-◌, ◌/◌, ◌<◌, ◌∙◌, ◌≡◌, ◌≤◌}
use sol_token_mill.Base.Arith.{div-le_of_le-mul, div_up-le}
use sol_token_mill.Constant.{scale}
use sol_token_mill.Errors.{ok}
use sol_token_mill.Market.Monotone.{area, height_by_prices}
use sol_token_mill.Market.Quote.{interval_quote}
use sol_token_mill.Math.{Rounding, down, mul_div, up}
use sol_token_mill.Math.Bounds.{mul_div_exact, quotient}
use sol_token_mill.Math.Steps.{limit}
use sol_token_mill.Ruint.{Laws, Ruint}

pub mul_fits : (a b : ℕ) → a * b < U128.lim → U128.mul a b ≡ ok (a * b)
mul_fits a b h = ground arith

pub add_fits : (a b : ℕ) → a + b < U128.lim → U128.add a b ≡ ok (a + b)
add_fits a b h = ground arith

pub sub_fits : (a b : ℕ) → b ≤ a → Word.sub a b ≡ ok (a - b)
sub_fits a b h = ground arith

pub quotient-le : (r : Rounding) (a d k : ℕ) → 0 < d → a ≤ d * k → quotient r a d ≤ k
quotient-le up a d k h le = div_up-le a d k h le
quotient-le down a d k h le = div-le_of_le-mul k a d h (omega (arith, le))

pub div_fits : (a b : ℕ) → 0 < b → Word.div a b ≡ ok (a / b)
div_fits a b h = ground arith

pub rem_fits : (a b : ℕ) → 0 < b → Word.rem a b ≡ ok (a % b)
rem_fits a b h = ground arith

pub try_fits : (a : ℕ) → a < U64.lim → Word.try_from U64.lim a ≡ ok a
try_fits a h = ground arith

-- The price that bounds a part of a curve, and the interval that the part is in.
pub record Part (price width used delta : ℕ) : Type 0 where
  pub price_le : price ≤ limit
  pub positive : 0 < width
  pub width_le : width ≤ limit
  pub room : delta + used ≤ width

height_le :
    (price_0 price_1 price width used delta : ℕ)
    → price_0 ≤ price_1
    → price_1 ≤ price
    → Part price width used delta
    → (price_1 - price_0) * (delta + 2 * used) + 2 * price_0 * width ≤ 2 * (price * width)
height_le price_0 price_1 price width used delta le le1 p =
    let whole : (delta + 2 * used) + (2 * width - (delta + 2 * used)) ≡ 2 * width =
      omega (arith, p.room) in
    let sum : price * (delta + 2 * used) + price * (2 * width - (delta + 2 * used))
        ≡ price * (2 * width) =
      sym (mul-add price (delta + 2 * used) (2 * width - (delta + 2 * used)))
      ∙ ap (λ (x : ℕ). price * x) whole in
    let lower : price_0 ≤ price = omega arith in
    rw (height_by_prices price_0 price_1 width used delta le p.room) (
      omega (
        arith,
        mul-le-mul_right (delta + 2 * used) le1,
        mul-le-mul_right (2 * width - (delta + 2 * used)) lower,
        sum,
      ))

area_le :
    (price_0 price_1 price width used delta : ℕ)
    → price_0 ≤ price_1
    → price_1 ≤ price
    → Part price width used delta
    → area price_0 price_1 width used delta ≤ (2 * scale * width) * (price * 100_000_000)
area_le price_0 price_1 price width used delta le le1 p = omega (
  arith,
  mul-le-mul {n₁ = delta} {n₂ = limit} {m₂ = 2 * (price * width)}
      (omega (arith, p.room, p.width_le))
      (height_le price_0 price_1 price width used delta le le1 p),
)

-- The quote for a part of an interval.
pub interval_quote_complete :
    {R : Ruint} (laws : Laws R) (r : Rounding) (price_0 price_1 price width used delta : ℕ)
    → price_0 ≤ price_1
    → price_1 ≤ price
    → Part price width used delta
    → (q : ℕ) × (interval_quote R price_0 price_1 width used delta r ≡ ok q)
      × (q ≤ price * 100_000_000)
unfolding interval_quote
interval_quote_complete {R} laws r price_0 price_1 price width used delta le le1 p =
    let diff = price_1 - price_0 in
    let span = delta + 2 * used in
    let flat : 2 * price_0 * width ≤ 2 * limit * limit =
      mul-le-mul {n₁ = 2 * price_0} {n₂ = 2 * limit} {m₂ = limit} (omega (arith, p.price_le))
        p.width_le in
    let steep : diff * span ≤ limit * (2 * limit) =
      mul-le-mul {n₁ = diff} {n₂ = limit} {m₂ = 2 * limit} (omega (arith, p.price_le))
        (omega (arith, p.room, p.width_le)) in
    let q = quotient r (area price_0 price_1 width used delta) (2 * scale * width) in
    let q_le : q ≤ price * 100_000_000 =
      quotient-le r _ (2 * scale * width) _ (omega (arith, p.positive))
        (area_le price_0 price_1 price width used delta le le1 p) in
    let divided : mul_div R delta (diff * span + 2 * price_0 * width) (2 * scale * width) r
        ≡ some q =
      mul_div_exact laws delta (diff * span + 2 * price_0 * width) (2 * scale * width) r
        (omega (arith, p.room, p.width_le)) (omega arith)
      ∙ ground (arith, q_le, p.positive, p.price_le) in
    let small : 2 * used < U128.lim = omega (arith, p.room, p.width_le) in
    let spans : span < U128.lim = omega (arith, p.room, p.width_le) in
    let steep_fits : diff * span < U128.lim = omega arith in
    let double : 2 * price_0 < U128.lim = omega (arith, p.price_le) in
    let flat_fits : 2 * price_0 * width < U128.lim = omega arith in
    let sum_fits : diff * span + 2 * price_0 * width < U128.lim = omega arith in
    let widths : 2 * scale * width < U128.lim = omega (arith, p.width_le) in
    (
      q,
      rw (
        sub_fits price_1 price_0 le,
        mul_fits 2 used small,
        add_fits delta (2 * used) spans,
        mul_fits diff span steep_fits,
        mul_fits 2 price_0 double,
        mul_fits (2 * price_0) width flat_fits,
        add_fits (diff * span) (2 * price_0 * width) sum_fits,
        mul_fits (2 * scale) width widths,
        divided,
      ),
      q_le,
    )
