-- ===== src/Market/Worth.antt =====
-- programs/token-mill/src/state/market.rs: the exact worth of the tokens under a curve, and how a quote
-- rounds it.
use sol_token_mill.Word.U128
use sol_token_mill.Word
use native.Mathlib.Nat.{add-mul, suc-mul, mul-le-mul, mul-le-mul_left}
use sol_token_mill.Base.{
  Bool-cases, List, [], ap, arith, inl, inr, length, min, refl, suc, ℕ, ◌*◌, ◌+◌, ◌-◌, ◌<◌, ◌==◌,
  ◌∙◌, ◌∷◌, ◌≡◌, ◌≤◌,
}
use sol_token_mill.Base.Arith.{div-mul-le, lt-div-mul-add}
use sol_token_mill.Constant.{scale}
use sol_token_mill.Errors.{ok, on_ok}
use sol_token_mill.Market.Monotone.{add_sound, area, interval_quote-IntervalQuoted, sub_sound}
use sol_token_mill.Market.Quote.{interval_quote, quote_loop}
use sol_token_mill.Market.Spread.{finished}
use sol_token_mill.Math.{Rounding, down, up}
use sol_token_mill.Math.Bounds.{quotient}
use sol_token_mill.Ruint.{Laws, Ruint}

-- Twice the worth of the first `x` tokens of an interval, times its width.
abbrev pub part_worth : (price_0 price_1 width x : ℕ) → ℕ
part_worth price_0 price_1 width x = x * ((price_1 - price_0) * x + 2 * price_0 * width)

-- The same for the first `n` tokens above a price.
pub worth_from : (width price_0 : ℕ) → List ℕ → ℕ → ℕ
worth_from width price_0 [] n = 0
worth_from width price_0 (price_1 ∷ prices) n =
    part_worth price_0 price_1 width (min n width) + worth_from width price_1 prices (n - width)

pub part_worth-area :
    (price_0 price_1 width used delta : ℕ)
    → part_worth price_0 price_1 width (used + delta)
      ≡ part_worth price_0 price_1 width used + area price_0 price_1 width used delta
part_worth-area price_0 price_1 width used delta = omega arith

-- What a rounding makes of an exact amount.
abbrev pub Rounds : Rounding → (exact given : ℕ) → Type 0
Rounds up exact given = exact ≤ given
Rounds down exact given = given ≤ exact

pub Rounds-quotient : (r : Rounding) (a d : ℕ) → 0 < d → Rounds r a (quotient r a d * d)
Rounds-quotient up a d h = omega (arith, lt-div-mul-add (a + (d - 1)) d h)
Rounds-quotient down a d h = div-mul-le a d

Rounds-same : (r : Rounding) (a b : ℕ) → a ≡ b → Rounds r a b
Rounds-same up a b e = omega arith
Rounds-same down a b e = omega arith

-- One amount is rounded, and then the rest.
pub Rounds-then :
    (r : Rounding) (before exact given rest quote out : ℕ)
    → Rounds r exact given
    → Rounds r (rest + (quote + given)) out
    → Rounds r (before + exact + rest + quote) (before + out)
Rounds-then up before exact given rest quote out h h' = omega (arith, h, h')
Rounds-then down before exact given rest quote out h h' = omega (arith, h, h')

pub worth_from-zero : (width price_0 : ℕ) (prices : List ℕ) → worth_from width price_0 prices 0 ≡ 0
unfolding worth_from
worth_from-zero width price_0 [] = refl
worth_from-zero width price_0 (price_1 ∷ prices) =
    let within : min 0 width ≡ 0 = omega arith in
    let over : 0 - width ≡ 0 = omega arith in
    rw (within, over, worth_from-zero width price_1 prices) (omega arith)

-- Past the first interval.
pub worth_from-past :
    (width price_0 price_1 : ℕ) (prices : List ℕ) (n : ℕ)
    → worth_from width price_0 (price_1 ∷ prices) (width + n)
      ≡ part_worth price_0 price_1 width width + worth_from width price_1 prices n
unfolding worth_from
worth_from-past width price_0 price_1 prices n =
    let within : min (width + n) width ≡ width = omega arith in
    let over : width + n - width ≡ n = omega arith in rw (within, over) refl

-- Within the first interval.
pub worth_from-used :
    (width price_0 price_1 : ℕ) (prices : List ℕ) (used : ℕ)
    → used ≤ width
    → worth_from width price_0 (price_1 ∷ prices) used ≡ part_worth price_0 price_1 width used
unfolding worth_from
worth_from-used width price_0 price_1 prices used le =
    let within : min used width ≡ used = omega arith in
    let over : used - width ≡ 0 = omega arith in
    rw (within, over, worth_from-zero width price_1 prices) (omega arith)

-- A round of the loop takes the amount over.
worth_from-step :
    (width price_0 price_1 : ℕ) (prices : List ℕ) (used left delta : ℕ)
    → used ≤ width
    → delta ≡ min left (width - used)
    → worth_from width price_0 (price_1 ∷ prices) (used + left)
      ≡ part_worth price_0 price_1 width used
        + area price_0 price_1 width used delta
        + worth_from width price_1 prices (left - delta)
unfolding worth_from
worth_from-step width price_0 price_1 prices used left delta le e =
    let within : min (used + left) width ≡ used + delta = omega (arith, e) in
    let over : used + left - width ≡ left - delta = omega (arith, e) in
    rw (within, over, part_worth-area price_0 price_1 width used delta) refl

-- The loop rounds the worth of the tokens that it goes over, where the intervals hold them.
pub quote_loop-Rounds :
    {R : Ruint} (laws : Laws R) (r : Rounding) (width price_0 : ℕ) (prices : List ℕ)
    (used left quote : ℕ) {out : ℕ × ℕ}
    → used ≤ width
    → left + used ≤ length prices * width
    → quote_loop R r width price_0 prices used left quote ≡ ok out
    → Rounds r
        (worth_from width price_0 prices (used + left) + quote * (2 * scale * width))
        (worth_from width price_0 prices used + out.1 * (2 * scale * width))
unfolding quote_loop
quote_loop-Rounds laws r width price_0 [] used left quote {out} fits room h =
    Rounds-same r _ _ (ground arith)
quote_loop-Rounds {R} laws r width price_0 (price_1 ∷ prices) used left quote {out} fits room h =
    elim (Bool-cases (left == 0)) [
      | inl done ↦
          let nothing : used + left ≡ used = ground arith in
          Rounds-same r _ _ (
            rw (nothing, finished R r width price_0 (price_1 ∷ prices) used left quote done h) refl)
      | inr more ↦ on_ok (Word.sub width used) (rw more at h) λ free ef h1.
          on_ok (interval_quote R price_0 price_1 width used (min left free) r) h1 λ dq ed h2.
            on_ok (Word.sub left (min left free)) h2 λ left' el h3.
              on_ok (U128.add quote dq) h3 λ quote' eq h4.
                let (e_free, _) = sub_sound width used ef in
                let (e_left, _) = sub_sound left (min left free) el in
                let delta = min left free in
                let i = interval_quote-IntervalQuoted laws price_0 price_1 width used delta r ed in
                let step' : suc (length prices) * width ≡ length prices * width + width =
                  suc-mul (length prices) width in
                let rest =
                  quote_loop-Rounds laws r width price_1 prices 0 left' quote' (omega arith)
                    (omega (arith, step', room, fits, e_free, e_left)) h4 in
                let rounded : Rounds r (area price_0 price_1 width used delta)
                    (dq * (2 * scale * width)) =
                  rw (i.exact) (
                    Rounds-quotient r (area price_0 price_1 width used delta) (2 * scale * width)
                      i.positive) in
                let shape : delta ≡ min left (width - used) = ap (λ (x : ℕ). min left x) e_free in
                let onward : 0 + left' ≡ left - delta = omega (arith, e_left) in
                let (e_quote, _) = add_sound quote dq eq in
                let split : quote' * (2 * scale * width)
                    ≡ quote * (2 * scale * width) + dq * (2 * scale * width) =
                  ap (λ (x : ℕ). x * (2 * scale * width)) e_quote
                  ∙ add-mul quote dq (2 * scale * width) in
                let plain : 0 + out.1 * (2 * scale * width) ≡ out.1 * (2 * scale * width) =
                  omega arith in
                let after =
                  rw (onward, worth_from-zero width price_1 prices, split, plain) at rest in
                rw
                  (
                    worth_from-used width price_0 price_1 prices used fits,
                    worth_from-step width price_0 price_1 prices used left delta fits shape,
                  )
                  (Rounds-then r (part_worth price_0 price_1 width used)
                    (area price_0 price_1 width used delta) (dq * (2 * scale * width)) _
                    (quote * (2 * scale * width)) (out.1 * (2 * scale * width)) rounded after)
    ]

-- Where the intervals hold the amount, the loop uses it up.
pub quote_loop_whole :
    (R : Ruint) (r : Rounding) (width price_0 : ℕ) (prices : List ℕ) (used left quote : ℕ)
    {out : ℕ × ℕ}
    → used ≤ width
    → left + used ≤ length prices * width
    → quote_loop R r width price_0 prices used left quote ≡ ok out
    → out.0 ≡ 0
unfolding quote_loop
quote_loop_whole R r width price_0 [] used left quote fits room h = ground arith
quote_loop_whole R r width price_0 (price_1 ∷ prices) used left quote fits room h =
    elim (Bool-cases (left == 0)) [
      | inl done ↦ ground arith
      | inr more ↦ on_ok (Word.sub width used) (rw more at h) λ free ef h1.
          on_ok (interval_quote R price_0 price_1 width used (min left free) r) h1 λ dq _ h2.
            on_ok (Word.sub left (min left free)) h2 λ left' el h3.
              on_ok (U128.add quote dq) h3 λ quote' _ h4.
                let (e_free, _) = sub_sound width used ef in
                let (e_left, _) = sub_sound left (min left free) el in
                let step = suc-mul (length prices) width in
                quote_loop_whole R r width price_1 prices 0 left' quote' (omega arith)
                  (omega (arith, step, room, fits, e_free, e_left)) h4
    ]

part_worth_mono :
    (price_0 price_1 width x y : ℕ)
    → x ≤ y
    → part_worth price_0 price_1 width x ≤ part_worth price_0 price_1 width y
part_worth_mono price_0 price_1 width x y le =
    let slope = mul-le-mul_left (price_1 - price_0) le in mul-le-mul le (omega (arith, slope))

pub worth_from_mono :
    (width price_0 : ℕ) (prices : List ℕ) (x y : ℕ)
    → x ≤ y
    → worth_from width price_0 prices x ≤ worth_from width price_0 prices y
unfolding worth_from
worth_from_mono width price_0 [] x y le = omega arith
worth_from_mono width price_0 (price_1 ∷ prices) x y le = omega (
  arith,
  part_worth_mono price_0 price_1 width (min x width) (min y width) (ground arith),
  worth_from_mono width price_1 prices (x - width) (y - width) (omega arith),
)

pub worth_from-nil : (width price_0 n : ℕ) → worth_from width price_0 [] n ≡ 0
unfolding worth_from
worth_from-nil width price_0 n = refl

pub worth_from-cons :
    (width price_0 price_1 : ℕ) (prices : List ℕ) (n : ℕ)
    → worth_from width price_0 (price_1 ∷ prices) n
      ≡ part_worth price_0 price_1 width (min n width) + worth_from width price_1 prices (n - width)
unfolding worth_from
worth_from-cons width price_0 price_1 prices n = refl
