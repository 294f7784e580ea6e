-- ===== src/Market/Monotone.antt =====
-- programs/token-mill/src/state/market.rs: the quote for a base amount grows with the amount, with the
-- prices and with the rounding.
use sol_token_mill.Word
use sol_token_mill.Word.U128
use native.Mathlib.Nat.{mul-le-mul, mul-le-mul_left, mul-le-mul_right, mul-add, add-mul}
use sol_token_mill.Base.{
  Bool-cases, List, Option, [], ap, arith, inl, inr, min, none, some, sym, ℕ, ◌*◌, ◌+◌, ◌-◌, ◌<◌,
  ◌==◌, ◌∙◌, ◌∷◌, ◌≡◌, ◌≤◌,
}
use sol_token_mill.Base.Arith.{div_mono}
use sol_token_mill.Constant.{scale}
use sol_token_mill.Errors.{Failure, ok, ok-injective, on_ok, or_fail}
use sol_token_mill.Market.Quote.{interval_quote, quote_loop}
use sol_token_mill.Math.{Rounding, down, mul_div, up}
use sol_token_mill.Math.Bounds.{mul_div_exact, quotient}
use sol_token_mill.Ruint.{Laws, Ruint}

-- Twice the area under the curve over `delta` tokens of an interval, from `used` on, times its width.
abbrev pub area : (price_0 price_1 width used delta : ℕ) → ℕ
area price_0 price_1 width used delta =
    delta * ((price_1 - price_0) * (delta + 2 * used) + 2 * price_0 * width)

-- `interval_quote` divides that area.
pub record IntervalQuoted (price_0 price_1 width used delta : ℕ) (rounding : Rounding) (q : ℕ)
    : Type 0 where
  pub rising : price_0 ≤ price_1
  pub positive : 0 < 2 * scale * width
  pub exact : q ≡ quotient rounding (area price_0 price_1 width used delta) (2 * scale * width)

pub mul_div_sound :
    {R : Ruint} (laws : Laws R) (x y d : ℕ) (r : Rounding) {q : ℕ}
    → x < U128.lim
    → y < U128.lim
    → mul_div R x y d r ≡ some q
    → (0 < d) × (q ≡ quotient r (x * y) d)
mul_div_sound laws x y d r hx hy h =
    let e = sym (mul_div_exact laws x y d r hx hy) ∙ h in (ground arith, ground arith)

pub or_fail-some : (o : Option ℕ) (e : Failure) {q : ℕ} → or_fail o e ≡ ok q → o ≡ some q
or_fail-some (some a) e h = ap (λ (x : ℕ). some x) (ok-injective h)
or_fail-some none e h = absurd (ground arith)

pub mul_sound : (a b : ℕ) {c : ℕ} → U128.mul a b ≡ ok c → c ≡ a * b
mul_sound a b h = ground arith

pub add_sound : (a b : ℕ) {c : ℕ} → U128.add a b ≡ ok c → (c ≡ a + b) × (c < U128.lim)
add_sound a b h = (ground arith, ground arith)

pub sub_sound : (a b : ℕ) {c : ℕ} → Word.sub a b ≡ ok c → (c ≡ a - b) × (b ≤ a)
sub_sound a b h = (ground arith, ground arith)

pub interval_quote-IntervalQuoted :
    {R : Ruint} (laws : Laws R) (price_0 price_1 width used delta : ℕ) (rounding : Rounding) {q : ℕ}
    → interval_quote R price_0 price_1 width used delta rounding ≡ ok q
    → IntervalQuoted price_0 price_1 width used delta rounding q
unfolding interval_quote
interval_quote-IntervalQuoted laws price_0 price_1 width used delta rounding h =
    on_ok (Word.sub price_1 price_0) h λ diff ed h1. on_ok (U128.mul 2 used) h1 λ twice eu h2.
      on_ok (U128.add delta twice) h2 λ span es h3. on_ok (U128.mul diff span) h3 λ a ea h4.
        on_ok (U128.mul 2 price_0) h4 λ b eb h5. on_ok (U128.mul b width) h5 λ c ec h6.
          on_ok (U128.add a c) h6 λ y ey h7. on_ok (U128.mul (2 * scale) width) h7 λ d edd h8.
            let (e_y, y_fits) = add_sound a c ey in
            let (e_span, span_fits) = add_sound delta twice es in
            let (e_diff, rising) = sub_sound price_1 price_0 ed in
            let shape : y ≡ (price_1 - price_0) * (delta + 2 * used) + 2 * price_0 * width = rw (
              e_y,
              mul_sound diff span ea,
              mul_sound b width ec,
              mul_sound 2 price_0 eb,
              e_span,
              e_diff,
              mul_sound 2 used eu,
            ) in
            let ed' = mul_sound (2 * scale) width edd in
            let (above, eq) =
              mul_div_sound laws delta y d rounding (omega arith) y_fits (or_fail-some _ _ h8) in
            record { rising = rising; positive = rw ed' at above; exact = eq ∙ rw (shape, ed') }

-- A rounding that gives no more than another.
abbrev pub RoundsBelow : Rounding → Rounding → Type 0
RoundsBelow up down = ⊥
RoundsBelow _ _ = Unit {0}

pub quotient_mono :
    (r r' : Rounding) (a a' d : ℕ)
    → RoundsBelow r r'
    → 0 < d
    → a ≤ a'
    → quotient r a d ≤ quotient r' a' d
quotient_mono up up a a' d b h le = div_mono (a + (d - 1)) (a' + (d - 1)) d h (omega arith)
quotient_mono up down a a' d b h le = absurd b
quotient_mono down up a a' d b h le = div_mono a (a' + (d - 1)) d h (omega arith)
quotient_mono down down a a' d b h le = div_mono a a' d h le

-- The height of the area, by the two prices apart.
pub height_by_prices :
    (price_0 price_1 width used delta : ℕ)
    → price_0 ≤ price_1
    → delta + used ≤ width
    → (price_1 - price_0) * (delta + 2 * used) + 2 * price_0 * width
      ≡ price_1 * (delta + 2 * used) + price_0 * (2 * width - (delta + 2 * used))
height_by_prices price_0 price_1 width used delta le room =
    let gap : price_1 ≡ price_0 + (price_1 - price_0) = omega arith in
    let rest : 2 * width ≡ (delta + 2 * used) + (2 * width - (delta + 2 * used)) = omega arith in
    let over : price_1 * (delta + 2 * used)
        ≡ price_0 * (delta + 2 * used) + (price_1 - price_0) * (delta + 2 * used) =
      ap (λ (x : ℕ). x * (delta + 2 * used)) gap
      ∙ add-mul price_0 (price_1 - price_0) (delta + 2 * used) in
    let under : price_0 * (2 * width)
        ≡ price_0 * (delta + 2 * used) + price_0 * (2 * width - (delta + 2 * used)) =
      ap (λ (x : ℕ). price_0 * x) rest
      ∙ mul-add price_0 (delta + 2 * used) (2 * width - (delta + 2 * used)) in
    omega (arith, over, under)

pub area_mono :
    (price_0 price_1 price_0' price_1' width used delta delta' : ℕ)
    → price_0 ≤ price_1
    → price_0' ≤ price_1'
    → price_0 ≤ price_0'
    → price_1 ≤ price_1'
    → delta ≤ delta'
    → delta' + used ≤ width
    → area price_0 price_1 width used delta ≤ area price_0' price_1' width used delta'
area_mono price_0 price_1 price_0' price_1' width used delta delta' h h' le0 le1 le room =
    let wider : (price_1 - price_0) * (delta + 2 * used)
        ≤ (price_1 - price_0) * (delta' + 2 * used) =
      mul-le-mul_left (price_1 - price_0) (omega arith) in
    let higher : (price_1 - price_0) * (delta' + 2 * used) + 2 * price_0 * width
        ≤ (price_1' - price_0') * (delta' + 2 * used) + 2 * price_0' * width =
      rw
        (
          height_by_prices price_0 price_1 width used delta' h room,
          height_by_prices price_0' price_1' width used delta' h' room,
        )
        (omega (
          arith,
          mul-le-mul_right (delta' + 2 * used) le1,
          mul-le-mul_right (2 * width - (delta' + 2 * used)) le0,
        )) in
    mul-le-mul le (omega (arith, wider, higher))

pub interval_quote_mono :
    {R : Ruint} (laws : Laws R) (price_0 price_1 price_0' price_1' width used delta delta' : ℕ)
    (r r' : Rounding) {q q' : ℕ}
    → RoundsBelow r r'
    → price_0 ≤ price_0'
    → price_1 ≤ price_1'
    → delta ≤ delta'
    → delta' + used ≤ width
    → interval_quote R price_0 price_1 width used delta r ≡ ok q
    → interval_quote R price_0' price_1' width used delta' r' ≡ ok q'
    → q ≤ q'
interval_quote_mono laws price_0 price_1 price_0' price_1' width used delta delta' r r' b le0 le1 le
      room h h' =
    let i = interval_quote-IntervalQuoted laws price_0 price_1 width used delta r h in
    let i' = interval_quote-IntervalQuoted laws price_0' price_1' width used delta' r' h' in
    rw (i.exact, i'.exact)
      (quotient_mono r r' (area price_0 price_1 width used delta)
        (area price_0' price_1' width used delta') (2 * scale * width) b i.positive
        (area_mono price_0 price_1 price_0' price_1' width used delta delta' i.rising i'.rising le0
          le1 le room))

-- The loop only adds to the quote amount.
pub quote_loop-grows :
    (R : Ruint) (r : Rounding) (width price_0 : ℕ) (prices : List ℕ) (used left quote : ℕ)
    {out : ℕ × ℕ}
    → quote_loop R r width price_0 prices used left quote ≡ ok out
    → quote ≤ out.1
unfolding quote_loop
quote_loop-grows R r width price_0 [] used left quote h = ground arith
quote_loop-grows R r width price_0 (price_1 ∷ prices) used left quote h =
    elim (Bool-cases (left == 0)) [
      | inl done ↦ ground arith
      | inr more ↦ on_ok (Word.sub width used) (rw more at h) λ room _ h1.
          on_ok (interval_quote R price_0 price_1 width used (min left room) r) h1 λ dq _ h2.
            on_ok (Word.sub left (min left room)) h2 λ left' _ h3.
              on_ok (U128.add quote dq) h3 λ quote' eq h4. omega (
                arith,
                quote_loop-grows R r width price_1 prices 0 left' quote' h4,
                (add_sound quote dq eq).0,
              )
    ]
